-- ===== src/Messages/GameMainRequest/Format.antt =====
-- A GameMainRequest that was written is read back, and has the size that is computed for it.
use jira_game.Base.{After, Text, [], arith, length, refl, subst, sym, ◌++◌, ◌∙◌, ◌≡◌}
use jira_game.Proto.{GameMainMsgType}
use jira_game.Messages.Kit.{Coded, Ending, game_main_msg_type, game_main_msg_type_number}
use jira_game.Messages.Kit.Proofs.{
  Codes, IsShort, Lawful, Merges, Nested, end-Merges, enum-Merges, fresh-unknown,
  game_main_msg_type_lem, length-enum_part, length-message_part, length-string_part, length-unknown,
  length-written, message-Merges, over_message-none, over-none, required_two-eq, string-Merges,
  written-append,
}
use jira_game.Messages.PlayerInfo
use jira_game.Messages.PlayerInfo.Format as PlayerInfoFormat
use jira_game.Messages.GameMainRequest.{
  Message, byte_size, class, merge_from, new, parser, parts, serialize,
}

-- Texts and nested messages are short enough for their lengths, numbers are words, and no unknown
-- fields are kept.
pub record Fits (W : Coded) (b : Message W.Unknown) : Type 0 where
  pub session_id : After IsShort b.session_id
  pub player_info : After (Nested (PlayerInfo.class W) (PlayerInfoFormat.Fits W)) b.player_info
  pub unknown : b.unknown ≡ W.no_fields

module _ (W : Coded) (laws : Lawful W) where
  merges :
      (b : Message W.Unknown)
      → Fits W b
      → (rest : Text) (m : Message W.Unknown) (r : Message W.Unknown × Ending)
      → Merges W (parser W) rest (merge_from W m b) r
      → Merges W (parser W) (serialize W b ++ rest) m r
  unfolding serialize merge_from
  merges b ok rest m r onward =
      subst (λ input. Merges W (parser W) input m r) (sym (written-append (parts W b) rest))
        (string-Merges W laws (parser W) 1 _ b.session_id _ _ _ (refl, refl) (λ m. refl)
          ok.session_id
          (enum-Merges W laws (parser W) game_main_msg_type_number game_main_msg_type 2 _ b.msg_type
            _ _ _ game_main_msg_type_lem (refl, refl) (λ m. refl)
            (message-Merges W laws (parser W) (PlayerInfoFormat.coded W laws) 3 _ b.player_info _ _
              _ (refl, refl) (λ m. refl) ok.player_info
              (end-Merges W laws (parser W) (merge_from W m b) m.unknown b.unknown rest r ok.unknown
                onward))))

  fresh : (b : Message W.Unknown) → Fits W b → merge_from W (new W) b ≡ b
  unfolding merge_from
  fresh b ok = λ i. record {
    session_id = over-none b.session_id i;
    msg_type = over-none b.msg_type i;
    player_info = over_message-none (PlayerInfoFormat.coded W laws) b.player_info ok.player_info i;
    unknown = fresh-unknown W laws b.unknown ok.unknown i;
  }

  sized : (b : Message W.Unknown) → Fits W b → length (serialize W b) ≡ byte_size W b
  unfolding serialize byte_size
  sized b ok =
      length-written (parts W b)
      ∙ omega (
        arith,
        length-string_part W laws 1 1 b.session_id (refl, refl) ok.session_id,
        length-enum_part W laws game_main_msg_type_number 2 1 b.msg_type
            (λ e. (game_main_msg_type_lem e).1) (refl, refl),
        length-message_part W laws (PlayerInfoFormat.coded W laws) 3 1 b.player_info (refl, refl)
            ok.player_info,
        length-unknown W laws b.unknown ok.unknown,
        required_two-eq W.string_size [] b.session_id
            (λ e. W.enum.size (game_main_msg_type_number e)) GameMainMsgType.keep_alive b.msg_type,
      )

  pub coded : Codes (class W) (Fits W)
  coded = record { merges = merges; fresh = fresh; sized = sized }
