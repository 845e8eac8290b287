-- ===== src/Messages/LoginRequest/Format.antt =====
-- A LoginRequest that was written is read back, and has the size that is computed for it.
use jira_game.Base.{After, Text, [], arith, length, refl, subst, sym, ◌++◌, ◌∙◌, ◌≡◌}
use jira_game.Messages.Kit.{Coded, Ending}
use jira_game.Messages.Kit.Proofs.{
  Codes, IsShort, Lawful, Merges, end-Merges, fresh-unknown, length-string_part, length-unknown,
  length-written, over-none, required_two-eq, string-Merges, written-append,
}
use jira_game.Messages.LoginRequest.{
  Message, byte_size, class, merge_from, new, parser, parts, serialize,
}

-- Texts and nested messages are short enough for their lengths, numbers are words, and no unknown
-- fields are kept.
pub record Fits (W : Coded) (b : Message W.Unknown) : Type 0 where
  pub user_name : After IsShort b.user_name
  pub pass_word : After IsShort b.pass_word
  pub unknown : b.unknown ≡ W.no_fields

module _ (W : Coded) (laws : Lawful W) where
  merges :
      (b : Message W.Unknown)
      → Fits W b
      → (rest : Text) (m : Message W.Unknown) (r : Message W.Unknown × Ending)
      → Merges W (parser W) rest (merge_from W m b) r
      → Merges W (parser W) (serialize W b ++ rest) m r
  unfolding serialize merge_from
  merges b ok rest m r onward =
      subst (λ input. Merges W (parser W) input m r) (sym (written-append (parts W b) rest))
        (string-Merges W laws (parser W) 1 _ b.user_name _ _ _ (refl, refl) (λ m. refl) ok.user_name
          (string-Merges W laws (parser W) 2 _ b.pass_word _ _ _ (refl, refl) (λ m. refl)
            ok.pass_word
            (end-Merges W laws (parser W) (merge_from W m b) m.unknown b.unknown rest r ok.unknown
              onward)))

  fresh : (b : Message W.Unknown) → Fits W b → merge_from W (new W) b ≡ b
  unfolding merge_from
  fresh b ok = λ i. record {
    user_name = over-none b.user_name i;
    pass_word = over-none b.pass_word i;
    unknown = fresh-unknown W laws b.unknown ok.unknown i;
  }

  sized : (b : Message W.Unknown) → Fits W b → length (serialize W b) ≡ byte_size W b
  unfolding serialize byte_size
  sized b ok =
      length-written (parts W b)
      ∙ omega (
        arith,
        length-string_part W laws 1 1 b.user_name (refl, refl) ok.user_name,
        length-string_part W laws 2 1 b.pass_word (refl, refl) ok.pass_word,
        length-unknown W laws b.unknown ok.unknown,
        required_two-eq W.string_size [] b.user_name W.string_size [] b.pass_word,
      )

  pub coded : Codes (class W) (Fits W)
  coded = record { merges = merges; fresh = fresh; sized = sized }
