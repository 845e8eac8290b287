-- ===== src/Messages/RoomInfo/Format.antt =====
-- A RoomInfo that was written is read back, and has the size that is computed for it.
use jira_game.Base.{After, All, Text, [], arith, length, refl, subst, sym, ◌++◌, ◌∙◌, ◌≡◌}
use jira_game.Messages.Kit.{Coded, Ending}
use jira_game.Messages.Kit.Proofs.{
  Codes, IsShort, IsWord, Lawful, Merges, Nested, end-Merges, fresh-unknown, int32-Merges,
  length-int32_part, length-messages_part, length-string_part, length-unknown, length-written,
  messages-Merges, over-none, required_three-eq, string-Merges, written-append,
}
use jira_game.Messages.PlayerInfo
use jira_game.Messages.PlayerInfo.Format as PlayerInfoFormat
use jira_game.Messages.RoomInfo.{
  Message, byte_size, class, merge_from, new, parser, parts, serialize,
}

-- Texts and nested messages are short enough for their lengths, numbers are words, and no unknown
-- fields are kept.
pub record Fits (W : Coded) (b : Message W.Unknown) : Type 0 where
  pub room_id : After IsWord b.room_id
  pub room_name : After IsShort b.room_name
  pub person_count : After IsWord b.person_count
  pub free_person_count : After IsWord b.free_person_count
  pub player_info : All (Nested (PlayerInfo.class W) (PlayerInfoFormat.Fits W)) b.player_info
  pub unknown : b.unknown ≡ W.no_fields

module _ (W : Coded) (laws : Lawful W) where
  merges :
      (b : Message W.Unknown)
      → Fits W b
      → (rest : Text) (m : Message W.Unknown) (r : Message W.Unknown × Ending)
      → Merges W (parser W) rest (merge_from W m b) r
      → Merges W (parser W) (serialize W b ++ rest) m r
  unfolding serialize merge_from
  merges b ok rest m r onward =
      subst (λ input. Merges W (parser W) input m r) (sym (written-append (parts W b) rest))
        (int32-Merges W laws (parser W) 1 _ b.room_id _ _ _ (refl, refl) (λ m. refl) ok.room_id
          (string-Merges W laws (parser W) 2 _ b.room_name _ _ _ (refl, refl) (λ m. refl)
            ok.room_name
            (int32-Merges W laws (parser W) 3 _ b.person_count _ _ _ (refl, refl) (λ m. refl)
              ok.person_count
              (int32-Merges W laws (parser W) 4 _ b.free_person_count _ _ _ (refl, refl) (λ m. refl)
                ok.free_person_count
                (messages-Merges W laws (parser W) (PlayerInfoFormat.coded W laws) 5 _ b.player_info
                  _ _ _ (refl, refl)
                  (record { kept = λ m. refl; got = λ xs m. refl; twice = λ xs ys m. refl })
                  ok.player_info
                  (end-Merges W laws (parser W) (merge_from W m b) m.unknown b.unknown rest r
                    ok.unknown onward))))))

  fresh : (b : Message W.Unknown) → Fits W b → merge_from W (new W) b ≡ b
  unfolding merge_from
  fresh b ok = λ i. record {
    room_id = over-none b.room_id i;
    room_name = over-none b.room_name i;
    person_count = over-none b.person_count i;
    free_person_count = over-none b.free_person_count i;
    player_info = b.player_info;
    unknown = fresh-unknown W laws b.unknown ok.unknown i;
  }

  sized : (b : Message W.Unknown) → Fits W b → length (serialize W b) ≡ byte_size W b
  unfolding serialize byte_size
  sized b ok =
      length-written (parts W b)
      ∙ omega (
        arith,
        length-int32_part W laws 1 1 b.room_id (refl, refl) ok.room_id,
        length-string_part W laws 2 1 b.room_name (refl, refl) ok.room_name,
        length-int32_part W laws 3 1 b.person_count (refl, refl) ok.person_count,
        length-int32_part W laws 4 1 b.free_person_count (refl, refl) ok.free_person_count,
        length-messages_part W laws (PlayerInfoFormat.coded W laws) 5 1 b.player_info (refl, refl)
            ok.player_info,
        length-unknown W laws b.unknown ok.unknown,
        required_three-eq W.string_size [] b.room_name W.int32.size 0 b.person_count W.int32.size 0
            b.free_person_count,
      )

  pub coded : Codes (class W) (Fits W)
  coded = record { merges = merges; fresh = fresh; sized = sized }
