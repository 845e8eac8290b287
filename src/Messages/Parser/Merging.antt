-- ===== src/Messages/Parser/Merging.antt =====
-- What the loop does with the fields that were written: each of them takes one round, which reads
-- back what was written.
use jira_game.Base.{
  Bool, Bool-cases, Text, [], ap, append_assoc, arith, inl, inr, length, length-append, ltb, some,
  suc, true, zero, ℕ, ◌&&◌, ◌++◌, ◌<◌, ◌∙◌, ◌≡◌,
}
use jira_game.Messages.Coded.{Coded}
use jira_game.Messages.Coded.Laws.{Lawful}
use jira_game.Messages.Parser.{
  Case, Ending, Parser, after, go_on, loop, next, on_case, on_tag, pick, round, run, stop, unusual,
  whole,
}

-- Every fuel above the length of the input gives the result.
abbrev pub Merges : (W : Coded) {M : Type 0} → Parser W.Unknown M → Text → M → M × Ending → Type 0
Merges W p input m r = (fuel : ℕ) → length input < fuel → loop W p fuel input m ≡ r

abbrev pub is_tag : ℕ → Bool
is_tag t = ltb 0 t && ltb t 16384

pub tag_range : (t : ℕ) → is_tag t ≡ true → (0 < t) × (t < 16384)
tag_range t h = (ground (arith, h), ground (arith, h))

module _ (W : Coded) (laws : Lawful W) where
  tag_takes : (t : ℕ) → is_tag t ≡ true → 0 < length (W.write_tag t)
  tag_takes t h =
      let (low, high) = tag_range t h in
      let sized = laws.tag_sized t low high in
      elim (Bool-cases (ltb t 128)) [
        | inl short ↦ let one : length (W.write_tag t) ≡ 1 = rw short at sized in omega (arith, one)
        | inr long ↦ let two : length (W.write_tag t) ≡ 2 = rw long at sized in omega (arith, two)
      ]

  module _ {M : Type 0} (p : Parser W.Unknown M) where
    round-end : (m : M) → round W p [] m ≡ stop m whole
    unfolding round unusual
    round-end m = ap (on_tag W p [] m) laws.tag_end

    pub finish-Merges : (m : M) → Merges W p [] m (m, whole)
    unfolding loop
    finish-Merges m zero h = absurd (omega (arith, h))
    finish-Merges m (suc fuel) h = ap (go_on (loop W p fuel)) (round-end m)

    round-field :
        (t : ℕ) (c : Case M) (value rest : Text) (m m' : M)
        → pick p t ≡ some c
        → is_tag t ≡ true
        → run W p c (value ++ rest) m ≡ (m', some rest)
        → round W p ((W.write_tag t ++ value) ++ rest) m ≡ next m' rest
    unfolding round
    round-field t c value rest m m' found tag ran =
        let (low, high) = tag_range t tag in
        let input = (W.write_tag t ++ value) ++ rest in
        ap (on_tag W p input m) (
          ap W.read_tag (append_assoc (W.write_tag t) value rest)
          ∙ laws.tag_reads t (value ++ rest) low high)
        ∙ ap (on_case W p input t (value ++ rest) m) found
        ∙ ap (λ (m1, behind). after m1 behind) ran

    -- One round.
    pub field-Merges :
        (t : ℕ) (c : Case M) (value rest : Text) (m m' : M) (r : M × Ending)
        → pick p t ≡ some c
        → is_tag t ≡ true
        → run W p c (value ++ rest) m ≡ (m', some rest)
        → Merges W p rest m' r
        → Merges W p ((W.write_tag t ++ value) ++ rest) m r
    unfolding loop
    field-Merges t c value rest m m' r found tag ran onward zero h = absurd (omega (arith, h))
    field-Merges t c value rest m m' r found tag ran onward (suc fuel) h =
        ap (go_on (loop W p fuel)) (round-field t c value rest m m' found tag ran)
        ∙ onward fuel (
            omega (
              arith,
              h,
              tag_takes t tag,
              length-append (W.write_tag t ++ value) rest,
              length-append (W.write_tag t) value,
            ))
