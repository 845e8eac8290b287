-- ===== src/Messages/SelectRoleReturn/Format.antt =====
-- A SelectRoleReturn that was written is read back, and has the size that is computed for it.
use jira_game.Base.{After, Text, arith, length, refl, subst, sym, ◌++◌, ◌∙◌, ◌≡◌}
use jira_game.Messages.Kit.{Coded, Ending}
use jira_game.Messages.Kit.Proofs.{
  Codes, IsWord, Lawful, Merges, end-Merges, fresh-unknown, int32-Merges, length-int32_part,
  length-unknown, length-written, over-none, written-append,
}
use jira_game.Messages.SelectRoleReturn.{
  Message, byte_size, class, merge_from, new, parser, parts, serialize,
}

-- Texts and nested messages are short enough for their lengths, numbers are words, and no unknown
-- fields are kept.
pub record Fits (W : Coded) (b : Message W.Unknown) : Type 0 where
  pub user_id : After IsWord b.user_id
  pub unknown : b.unknown ≡ W.no_fields

module _ (W : Coded) (laws : Lawful W) where
  merges :
      (b : Message W.Unknown)
      → Fits W b
      → (rest : Text) (m : Message W.Unknown) (r : Message W.Unknown × Ending)
      → Merges W (parser W) rest (merge_from W m b) r
      → Merges W (parser W) (serialize W b ++ rest) m r
  unfolding serialize merge_from
  merges b ok rest m r onward =
      subst (λ input. Merges W (parser W) input m r) (sym (written-append (parts W b) rest))
        (int32-Merges W laws (parser W) 1 _ b.user_id _ _ _ (refl, refl) (λ m. refl) ok.user_id
          (end-Merges W laws (parser W) (merge_from W m b) m.unknown b.unknown rest r ok.unknown
            onward))

  fresh : (b : Message W.Unknown) → Fits W b → merge_from W (new W) b ≡ b
  unfolding merge_from
  fresh b ok = λ i. record {
    user_id = over-none b.user_id i;
    unknown = fresh-unknown W laws b.unknown ok.unknown i;
  }

  sized : (b : Message W.Unknown) → Fits W b → length (serialize W b) ≡ byte_size W b
  unfolding serialize byte_size
  sized b ok =
      length-written (parts W b)
      ∙ omega (
        arith,
        length-int32_part W laws 1 1 b.user_id (refl, refl) ok.user_id,
        length-unknown W laws b.unknown ok.unknown,
      )

  pub coded : Codes (class W) (Fits W)
  coded = record { merges = merges; fresh = fresh; sized = sized }
