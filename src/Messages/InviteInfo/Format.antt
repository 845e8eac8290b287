-- ===== src/Messages/InviteInfo/Format.antt =====
-- A InviteInfo that was written is read back, and has the size that is computed for it.
use jira_game.Base.{After, Text, arith, length, refl, subst, sym, ◌++◌, ◌∙◌, ◌≡◌}
use jira_game.Messages.Kit.{Coded, Ending, team_type, team_type_number}
use jira_game.Messages.Kit.Proofs.{
  Codes, IsShort, IsWord, Lawful, Merges, end-Merges, enum-Merges, fresh-unknown, int32-Merges,
  length-enum_part, length-int32_part, length-string_part, length-unknown, length-written,
  over-none, string-Merges, team_type_lem, written-append,
}
use jira_game.Messages.InviteInfo.{
  Message, byte_size, class, merge_from, new, parser, parts, serialize,
}

-- Texts and nested messages are short enough for their lengths, numbers are words, and no unknown
-- fields are kept.
pub record Fits (W : Coded) (b : Message W.Unknown) : Type 0 where
  pub room_id : After IsWord b.room_id
  pub req_user_id : After IsWord b.req_user_id
  pub req_user_name : After IsShort b.req_user_name
  pub rev_user_id : After IsWord b.rev_user_id
  pub team_id : After IsWord b.team_id
  pub unknown : b.unknown ≡ W.no_fields

module _ (W : Coded) (laws : Lawful W) where
  merges :
      (b : Message W.Unknown)
      → Fits W b
      → (rest : Text) (m : Message W.Unknown) (r : Message W.Unknown × Ending)
      → Merges W (parser W) rest (merge_from W m b) r
      → Merges W (parser W) (serialize W b ++ rest) m r
  unfolding serialize merge_from
  merges b ok rest m r onward =
      subst (λ input. Merges W (parser W) input m r) (sym (written-append (parts W b) rest))
        (int32-Merges W laws (parser W) 1 _ b.room_id _ _ _ (refl, refl) (λ m. refl) ok.room_id
          (int32-Merges W laws (parser W) 2 _ b.req_user_id _ _ _ (refl, refl) (λ m. refl)
            ok.req_user_id
            (string-Merges W laws (parser W) 3 _ b.req_user_name _ _ _ (refl, refl) (λ m. refl)
              ok.req_user_name
              (int32-Merges W laws (parser W) 4 _ b.rev_user_id _ _ _ (refl, refl) (λ m. refl)
                ok.rev_user_id
                (enum-Merges W laws (parser W) team_type_number team_type 5 _ b.team _ _ _
                  team_type_lem (refl, refl) (λ m. refl)
                  (int32-Merges W laws (parser W) 6 _ b.team_id _ _ _ (refl, refl) (λ m. refl)
                    ok.team_id
                    (end-Merges W laws (parser W) (merge_from W m b) m.unknown b.unknown rest r
                      ok.unknown onward)))))))

  fresh : (b : Message W.Unknown) → Fits W b → merge_from W (new W) b ≡ b
  unfolding merge_from
  fresh b ok = λ i. record {
    room_id = over-none b.room_id i;
    req_user_id = over-none b.req_user_id i;
    req_user_name = over-none b.req_user_name i;
    rev_user_id = over-none b.rev_user_id i;
    team = over-none b.team i;
    team_id = over-none b.team_id i;
    unknown = fresh-unknown W laws b.unknown ok.unknown i;
  }

  sized : (b : Message W.Unknown) → Fits W b → length (serialize W b) ≡ byte_size W b
  unfolding serialize byte_size
  sized b ok =
      length-written (parts W b)
      ∙ omega (
        arith,
        length-int32_part W laws 1 1 b.room_id (refl, refl) ok.room_id,
        length-int32_part W laws 2 1 b.req_user_id (refl, refl) ok.req_user_id,
        length-string_part W laws 3 1 b.req_user_name (refl, refl) ok.req_user_name,
        length-int32_part W laws 4 1 b.rev_user_id (refl, refl) ok.rev_user_id,
        length-enum_part W laws team_type_number 5 1 b.team (λ e. (team_type_lem e).1) (refl, refl),
        length-int32_part W laws 6 1 b.team_id (refl, refl) ok.team_id,
        length-unknown W laws b.unknown ok.unknown,
      )

  pub coded : Codes (class W) (Fits W)
  coded = record { merges = merges; fresh = fresh; sized = sized }
