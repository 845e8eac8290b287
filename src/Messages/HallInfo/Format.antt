-- ===== src/Messages/HallInfo/Format.antt =====
-- A HallInfo that was written is read back, and has the size that is computed for it.
use jira_game.Base.{All, Text, arith, length, refl, subst, sym, ◌++◌, ◌∙◌, ◌≡◌}
use jira_game.Messages.Kit.{Coded, Ending}
use jira_game.Messages.Kit.Proofs.{
  Codes, Lawful, Merges, Nested, end-Merges, fresh-unknown, length-messages_part, length-unknown,
  length-written, messages-Merges, written-append,
}
use jira_game.Messages.RoomInfo
use jira_game.Messages.RoomInfo.Format as RoomInfoFormat
use jira_game.Messages.HallInfo.{
  Message, byte_size, class, merge_from, new, parser, parts, serialize,
}

-- Texts and nested messages are short enough for their lengths, numbers are words, and no unknown
-- fields are kept.
pub record Fits (W : Coded) (b : Message W.Unknown) : Type 0 where
  pub room_info : All (Nested (RoomInfo.class W) (RoomInfoFormat.Fits W)) b.room_info
  pub unknown : b.unknown ≡ W.no_fields

module _ (W : Coded) (laws : Lawful W) where
  merges :
      (b : Message W.Unknown)
      → Fits W b
      → (rest : Text) (m : Message W.Unknown) (r : Message W.Unknown × Ending)
      → Merges W (parser W) rest (merge_from W m b) r
      → Merges W (parser W) (serialize W b ++ rest) m r
  unfolding serialize merge_from
  merges b ok rest m r onward =
      subst (λ input. Merges W (parser W) input m r) (sym (written-append (parts W b) rest))
        (messages-Merges W laws (parser W) (RoomInfoFormat.coded W laws) 1 _ b.room_info _ _ _
          (refl, refl) (record { kept = λ m. refl; got = λ xs m. refl; twice = λ xs ys m. refl })
          ok.room_info
          (end-Merges W laws (parser W) (merge_from W m b) m.unknown b.unknown rest r ok.unknown
            onward))

  fresh : (b : Message W.Unknown) → Fits W b → merge_from W (new W) b ≡ b
  unfolding merge_from
  fresh b ok =
      λ i. record { room_info = b.room_info; unknown = fresh-unknown W laws b.unknown ok.unknown i }

  sized : (b : Message W.Unknown) → Fits W b → length (serialize W b) ≡ byte_size W b
  unfolding serialize byte_size
  sized b ok =
      length-written (parts W b)
      ∙ omega (
        arith,
        length-messages_part W laws (RoomInfoFormat.coded W laws) 1 1 b.room_info (refl, refl)
            ok.room_info,
        length-unknown W laws b.unknown ok.unknown,
      )

  pub coded : Codes (class W) (Fits W)
  coded = record { merges = merges; fresh = fresh; sized = sized }
