-- ===== src/Messages/SelectRoleRequest/Format.antt =====
-- A SelectRoleRequest that was written is read back, and has the size that is computed for it.
use jira_game.Base.{After, Text, [], arith, length, refl, subst, sym, ◌++◌, ◌∙◌, ◌≡◌}
use jira_game.Messages.Kit.{Coded, Ending}
use jira_game.Messages.Kit.Proofs.{
  Codes, IsShort, IsWord, Lawful, Merges, end-Merges, fresh-unknown, int32-Merges,
  length-int32_part, length-string_part, length-unknown, length-written, over-none, required_two-eq,
  string-Merges, written-append,
}
use jira_game.Messages.SelectRoleRequest.{
  Message, byte_size, class, merge_from, new, parser, parts, serialize,
}

-- Texts and nested messages are short enough for their lengths, numbers are words, and no unknown
-- fields are kept.
pub record Fits (W : Coded) (b : Message W.Unknown) : Type 0 where
  pub session_id : After IsShort b.session_id
  pub role_type : After IsWord b.role_type
  pub unknown : b.unknown ≡ W.no_fields

module _ (W : Coded) (laws : Lawful W) where
  merges :
      (b : Message W.Unknown)
      → Fits W b
      → (rest : Text) (m : Message W.Unknown) (r : Message W.Unknown × Ending)
      → Merges W (parser W) rest (merge_from W m b) r
      → Merges W (parser W) (serialize W b ++ rest) m r
  unfolding serialize merge_from
  merges b ok rest m r onward =
      subst (λ input. Merges W (parser W) input m r) (sym (written-append (parts W b) rest))
        (string-Merges W laws (parser W) 1 _ b.session_id _ _ _ (refl, refl) (λ m. refl)
          ok.session_id
          (int32-Merges W laws (parser W) 2 _ b.role_type _ _ _ (refl, refl) (λ m. refl)
            ok.role_type
            (end-Merges W laws (parser W) (merge_from W m b) m.unknown b.unknown rest r ok.unknown
              onward)))

  fresh : (b : Message W.Unknown) → Fits W b → merge_from W (new W) b ≡ b
  unfolding merge_from
  fresh b ok = λ i. record {
    session_id = over-none b.session_id i;
    role_type = over-none b.role_type i;
    unknown = fresh-unknown W laws b.unknown ok.unknown i;
  }

  sized : (b : Message W.Unknown) → Fits W b → length (serialize W b) ≡ byte_size W b
  unfolding serialize byte_size
  sized b ok =
      length-written (parts W b)
      ∙ omega (
        arith,
        length-string_part W laws 1 1 b.session_id (refl, refl) ok.session_id,
        length-int32_part W laws 2 1 b.role_type (refl, refl) ok.role_type,
        length-unknown W laws b.unknown ok.unknown,
        required_two-eq W.string_size [] b.session_id W.int32.size 0 b.role_type,
      )

  pub coded : Codes (class W) (Fits W)
  coded = record { merges = merges; fresh = fresh; sized = sized }
