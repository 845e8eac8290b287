-- ===== src/Messages/HallReturn/Format.antt =====
-- A HallReturn that was written is read back, and has the size that is computed for it.
use jira_game.Base.{After, All, Text, arith, length, refl, subst, sym, ◌++◌, ◌∙◌, ◌≡◌}
use jira_game.Messages.Kit.{Coded, Ending, hall_msg_type, hall_msg_type_number}
use jira_game.Messages.Kit.Proofs.{
  Codes, IsShort, IsWord, Lawful, Merges, Nested, end-Merges, enum-Merges, fresh-unknown,
  hall_msg_type_lem, int32-Merges, length-enum_part, length-int32_part, length-message_part,
  length-messages_part, length-string_part, length-unknown, length-written, message-Merges,
  messages-Merges, over_message-none, over-none, string-Merges, written-append,
}
use jira_game.Messages.HallInfo
use jira_game.Messages.HallInfo.Format as HallInfoFormat
use jira_game.Messages.PlayerInfo
use jira_game.Messages.PlayerInfo.Format as PlayerInfoFormat
use jira_game.Messages.InviteInfo
use jira_game.Messages.InviteInfo.Format as InviteInfoFormat
use jira_game.Messages.HallReturn.{
  Message, byte_size, class, merge_from, new, parser, parts, serialize,
}

-- Texts and nested messages are short enough for their lengths, numbers are words, and no unknown
-- fields are kept.
pub record Fits (W : Coded) (b : Message W.Unknown) : Type 0 where
  pub hall_info : After (Nested (HallInfo.class W) (HallInfoFormat.Fits W)) b.hall_info
  pub room_name : After IsShort b.room_name
  pub room_id : After IsWord b.room_id
  pub friend_list : All (Nested (PlayerInfo.class W) (PlayerInfoFormat.Fits W)) b.friend_list
  pub invite_info : After (Nested (InviteInfo.class W) (InviteInfoFormat.Fits W)) b.invite_info
  pub unknown : b.unknown ≡ W.no_fields

module _ (W : Coded) (laws : Lawful W) where
  merges :
      (b : Message W.Unknown)
      → Fits W b
      → (rest : Text) (m : Message W.Unknown) (r : Message W.Unknown × Ending)
      → Merges W (parser W) rest (merge_from W m b) r
      → Merges W (parser W) (serialize W b ++ rest) m r
  unfolding serialize merge_from
  merges b ok rest m r onward =
      subst (λ input. Merges W (parser W) input m r) (sym (written-append (parts W b) rest))
        (message-Merges W laws (parser W) (HallInfoFormat.coded W laws) 1 _ b.hall_info _ _ _
          (refl, refl) (λ m. refl) ok.hall_info
          (enum-Merges W laws (parser W) hall_msg_type_number hall_msg_type 2 _ b.msg_type _ _ _
            hall_msg_type_lem (refl, refl) (λ m. refl)
            (string-Merges W laws (parser W) 3 _ b.room_name _ _ _ (refl, refl) (λ m. refl)
              ok.room_name
              (int32-Merges W laws (parser W) 4 _ b.room_id _ _ _ (refl, refl) (λ m. refl)
                ok.room_id
                (messages-Merges W laws (parser W) (PlayerInfoFormat.coded W laws) 5 _ b.friend_list
                  _ _ _ (refl, refl)
                  (record { kept = λ m. refl; got = λ xs m. refl; twice = λ xs ys m. refl })
                  ok.friend_list
                  (message-Merges W laws (parser W) (InviteInfoFormat.coded W laws) 6 _
                    b.invite_info _ _ _ (refl, refl) (λ m. refl) ok.invite_info
                    (end-Merges W laws (parser W) (merge_from W m b) m.unknown b.unknown rest r
                      ok.unknown onward)))))))

  fresh : (b : Message W.Unknown) → Fits W b → merge_from W (new W) b ≡ b
  unfolding merge_from
  fresh b ok = λ i. record {
    hall_info = over_message-none (HallInfoFormat.coded W laws) b.hall_info ok.hall_info i;
    msg_type = over-none b.msg_type i;
    room_name = over-none b.room_name i;
    room_id = over-none b.room_id i;
    friend_list = b.friend_list;
    invite_info = over_message-none (InviteInfoFormat.coded W laws) b.invite_info ok.invite_info i;
    unknown = fresh-unknown W laws b.unknown ok.unknown i;
  }

  sized : (b : Message W.Unknown) → Fits W b → length (serialize W b) ≡ byte_size W b
  unfolding serialize byte_size
  sized b ok =
      length-written (parts W b)
      ∙ omega (
        arith,
        length-message_part W laws (HallInfoFormat.coded W laws) 1 1 b.hall_info (refl, refl)
            ok.hall_info,
        length-enum_part W laws hall_msg_type_number 2 1 b.msg_type (λ e. (hall_msg_type_lem e).1)
            (refl, refl),
        length-string_part W laws 3 1 b.room_name (refl, refl) ok.room_name,
        length-int32_part W laws 4 1 b.room_id (refl, refl) ok.room_id,
        length-messages_part W laws (PlayerInfoFormat.coded W laws) 5 1 b.friend_list (refl, refl)
            ok.friend_list,
        length-message_part W laws (InviteInfoFormat.coded W laws) 6 1 b.invite_info (refl, refl)
            ok.invite_info,
        length-unknown W laws b.unknown ok.unknown,
      )

  pub coded : Codes (class W) (Fits W)
  coded = record { merges = merges; fresh = fresh; sized = sized }
