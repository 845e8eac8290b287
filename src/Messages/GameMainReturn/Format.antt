-- ===== src/Messages/GameMainReturn/Format.antt =====
-- A GameMainReturn that was written is read back, and has the size that is computed for it.
use jira_game.Base.{All, Text, arith, length, refl, subst, sym, ◌++◌, ◌∙◌, ◌≡◌}
use jira_game.Messages.Kit.{Coded, Ending, game_main_msg_type, game_main_msg_type_number}
use jira_game.Messages.Kit.Proofs.{
  Codes, Lawful, Merges, Nested, end-Merges, enum-Merges, fresh-unknown, game_main_msg_type_lem,
  length-enum_part, length-messages_part, length-unknown, length-written, messages-Merges,
  over-none, written-append,
}
use jira_game.Messages.PlayerInfo
use jira_game.Messages.PlayerInfo.Format as PlayerInfoFormat
use jira_game.Messages.GameMainReturn.{
  Message, byte_size, class, merge_from, new, parser, parts, serialize,
}

-- Texts and nested messages are short enough for their lengths, numbers are words, and no unknown
-- fields are kept.
pub record Fits (W : Coded) (b : Message W.Unknown) : Type 0 where
  pub friend_list : All (Nested (PlayerInfo.class W) (PlayerInfoFormat.Fits W)) b.friend_list
  pub unknown : b.unknown ≡ W.no_fields

module _ (W : Coded) (laws : Lawful W) where
  merges :
      (b : Message W.Unknown)
      → Fits W b
      → (rest : Text) (m : Message W.Unknown) (r : Message W.Unknown × Ending)
      → Merges W (parser W) rest (merge_from W m b) r
      → Merges W (parser W) (serialize W b ++ rest) m r
  unfolding serialize merge_from
  merges b ok rest m r onward =
      subst (λ input. Merges W (parser W) input m r) (sym (written-append (parts W b) rest))
        (enum-Merges W laws (parser W) game_main_msg_type_number game_main_msg_type 1 _ b.msg_type _
          _ _ game_main_msg_type_lem (refl, refl) (λ m. refl)
          (messages-Merges W laws (parser W) (PlayerInfoFormat.coded W laws) 2 _ b.friend_list _ _ _
            (refl, refl) (record { kept = λ m. refl; got = λ xs m. refl; twice = λ xs ys m. refl })
            ok.friend_list
            (end-Merges W laws (parser W) (merge_from W m b) m.unknown b.unknown rest r ok.unknown
              onward)))

  fresh : (b : Message W.Unknown) → Fits W b → merge_from W (new W) b ≡ b
  unfolding merge_from
  fresh b ok = λ i. record {
    msg_type = over-none b.msg_type i;
    friend_list = b.friend_list;
    unknown = fresh-unknown W laws b.unknown ok.unknown i;
  }

  sized : (b : Message W.Unknown) → Fits W b → length (serialize W b) ≡ byte_size W b
  unfolding serialize byte_size
  sized b ok =
      length-written (parts W b)
      ∙ omega (
        arith,
        length-enum_part W laws game_main_msg_type_number 1 1 b.msg_type
            (λ e. (game_main_msg_type_lem e).1) (refl, refl),
        length-messages_part W laws (PlayerInfoFormat.coded W laws) 2 1 b.friend_list (refl, refl)
            ok.friend_list,
        length-unknown W laws b.unknown ok.unknown,
      )

  pub coded : Codes (class W) (Fits W)
  coded = record { merges = merges; fresh = fresh; sized = sized }
