-- ===== src/Messages/Position3D/Format.antt =====
-- A Position3D that was written is read back, and has the size that is computed for it.
use jira_game.Base.{After, Text, [], arith, length, refl, subst, sym, ◌++◌, ◌∙◌, ◌≡◌}
use jira_game.Messages.Kit.{Coded, Ending}
use jira_game.Messages.Kit.Proofs.{
  Codes, IsShort, Lawful, Merges, end-Merges, fresh-unknown, length-string_part, length-unknown,
  length-written, over-none, required_three-eq, string-Merges, written-append,
}
use jira_game.Messages.Position3D.{
  Message, byte_size, class, merge_from, new, parser, parts, serialize,
}

-- Texts and nested messages are short enough for their lengths, numbers are words, and no unknown
-- fields are kept.
pub record Fits (W : Coded) (b : Message W.Unknown) : Type 0 where
  pub x : After IsShort b.x
  pub y : After IsShort b.y
  pub z : After IsShort b.z
  pub unknown : b.unknown ≡ W.no_fields

module _ (W : Coded) (laws : Lawful W) where
  merges :
      (b : Message W.Unknown)
      → Fits W b
      → (rest : Text) (m : Message W.Unknown) (r : Message W.Unknown × Ending)
      → Merges W (parser W) rest (merge_from W m b) r
      → Merges W (parser W) (serialize W b ++ rest) m r
  unfolding serialize merge_from
  merges b ok rest m r onward =
      subst (λ input. Merges W (parser W) input m r) (sym (written-append (parts W b) rest))
        (string-Merges W laws (parser W) 1 _ b.x _ _ _ (refl, refl) (λ m. refl) ok.x
          (string-Merges W laws (parser W) 2 _ b.y _ _ _ (refl, refl) (λ m. refl) ok.y
            (string-Merges W laws (parser W) 3 _ b.z _ _ _ (refl, refl) (λ m. refl) ok.z
              (end-Merges W laws (parser W) (merge_from W m b) m.unknown b.unknown rest r ok.unknown
                onward))))

  fresh : (b : Message W.Unknown) → Fits W b → merge_from W (new W) b ≡ b
  unfolding merge_from
  fresh b ok = λ i. record {
    x = over-none b.x i;
    y = over-none b.y i;
    z = over-none b.z i;
    unknown = fresh-unknown W laws b.unknown ok.unknown i;
  }

  sized : (b : Message W.Unknown) → Fits W b → length (serialize W b) ≡ byte_size W b
  unfolding serialize byte_size
  sized b ok =
      length-written (parts W b)
      ∙ omega (
        arith,
        length-string_part W laws 1 1 b.x (refl, refl) ok.x,
        length-string_part W laws 2 1 b.y (refl, refl) ok.y,
        length-string_part W laws 3 1 b.z (refl, refl) ok.z,
        length-unknown W laws b.unknown ok.unknown,
        required_three-eq W.string_size [] b.x W.string_size [] b.y W.string_size [] b.z,
      )

  pub coded : Codes (class W) (Fits W)
  coded = record { merges = merges; fresh = fresh; sized = sized }
