-- ===== src/Messages/Class/Fresh.antt =====
-- Messages that are merged into new ones, and messages without unknown fields.
use jira_game.Base.{
  After, List, Option, Text, [], ap, append_assoc, length, none, refl, some, sym, ◌++◌, ◌∙◌, ◌∷◌,
  ◌≡◌,
}
use jira_game.Messages.Coded.{Coded}
use jira_game.Messages.Coded.Laws.{Lawful}
use jira_game.Messages.Class.{Class, over, over_message}
use jira_game.Messages.Class.Codes.{Codes, Nested}
use jira_game.Messages.Writer.{written, written_before}

pub written-append : (ts : List Text) (rest : Text) → written ts ++ rest ≡ written_before ts rest
written-append [] rest = refl
written-append (t ∷ ts) rest =
    append_assoc t (written ts) rest ∙ ap (λ x. t ++ x) (written-append ts rest)

-- A merge into what is not set takes what is merged.
pub over-none {ℓ} : {A : Type ℓ} (o : Option A) → over o none ≡ o
over-none none = refl
over-none (some a) = refl

pub over_message-none :
    {W : Coded} {S : Type 0} {C : Class W S} {Fits : S → Type 0}
    → Codes C Fits
    → (o : Option S) → After (Nested C Fits) o
    → over_message C.merge_from C.new o none ≡ o
over_message-none coded none ok = refl
over_message-none coded (some b) ok = ap some (coded.fresh b ok.1)

-- Where no unknown fields are kept, none are merged, written or measured.
module _ (W : Coded) (laws : Lawful W) (u : W.Unknown) (nothing : u ≡ W.no_fields) where
  pub fresh-unknown : W.merge_unknown W.no_fields u ≡ u
  fresh-unknown =
      ap (W.merge_unknown W.no_fields) nothing ∙ laws.unknown_merges W.no_fields ∙ sym nothing

  pub length-unknown : length (W.write_unknown u) ≡ W.unknown_size u
  length-unknown =
      ap length (ap W.write_unknown nothing ∙ laws.unknown_writes)
      ∙ sym (ap W.unknown_size nothing ∙ laws.unknown_sized)
