-- ===== src/Messages/Class/Codes.antt =====
-- What a class promises of the messages that fit: they are read back as they were written.
use jira_game.Base.{Text, [], ap, append-nil, arith, length, subst, suc, sym, ◌++◌, ◌∙◌, ◌≡◌}
use jira_game.Messages.Coded.{Coded}
use jira_game.Messages.Coded.Laws.{IsShort, Lawful}
use jira_game.Messages.Parser.{Ending, run_parser, whole}
use jira_game.Messages.Parser.Merging.{Merges, finish-Merges}
use jira_game.Messages.Class.{Class}

pub record Codes {W : Coded} {M : Type 0} (C : Class W M) (Fits : M → Type 0) : Type 0 where
  -- with whatever follows: they merge as `MergeFrom` does
  pub merges :
      (b : M)
      → Fits b
      → (rest : Text) (m : M) (r : M × Ending) → Merges W C.parser rest (C.merge_from m b) r
      → Merges W C.parser (C.serialize b ++ rest) m r
  pub fresh : (b : M) → Fits b → C.merge_from C.new b ≡ b
  pub sized : (b : M) → Fits b → length (C.serialize b) ≡ C.byte_size b

-- As a nested message, it also needs a length that can be written.
abbrev pub Nested : {W : Coded} {M : Type 0} → Class W M → (M → Type 0) → M → Type 0
Nested C Fits b = IsShort (C.serialize b) × Fits b

module _ (W : Coded) (laws : Lawful W) {M : Type 0} {C : Class W M} {Fits : M → Type 0}
    (coded : Codes C Fits) where
  ends : (b : M) → Fits b → (m : M) → Merges W C.parser (C.serialize b) m (C.merge_from m b, whole)
  ends b ok m =
      subst (λ input. Merges W C.parser input m (C.merge_from m b, whole))
        (append-nil (C.serialize b))
        (coded.merges b ok [] m _ (finish-Merges W laws C.parser (C.merge_from m b)))

  parsed :
      (input : Text) (m : M) (r : M × Ending)
      → Merges W C.parser input m r
      → run_parser W C.parser input m ≡ r
  unfolding run_parser
  parsed input m r h = h (suc (length input)) (omega arith)

  -- What was written merges as `MergeFrom` does.
  pub merge-serialize :
      (b : M)
      → Fits b
      → (m : M) → run_parser W C.parser (C.serialize b) m ≡ (C.merge_from m b, whole)
  merge-serialize b ok m = parsed (C.serialize b) m _ (ends b ok m)

  -- What was written is read back into a new message.
  pub parse-serialize : (b : M) → Fits b → run_parser W C.parser (C.serialize b) C.new ≡ (b, whole)
  parse-serialize b ok = merge-serialize b ok C.new ∙ ap (λ m. (m, whole)) (coded.fresh b ok)

  -- Two messages behind each other are read as one, the second merged into the first.
  pub parse-both :
      (a b : M)
      → Fits a
      → Fits b
      → run_parser W C.parser (C.serialize a ++ C.serialize b) C.new ≡ (C.merge_from a b, whole)
  parse-both a b fits_a fits_b = parsed (C.serialize a ++ C.serialize b) C.new _ (
      coded.merges a fits_a (C.serialize b) C.new _ (
        subst (λ m. Merges W C.parser (C.serialize b) m (C.merge_from a b, whole))
          (sym (coded.fresh a fits_a)) (ends b fits_b a)))
