-- ===== src/Messages/Parser/Fuel.antt =====
-- The loop of the parser ends: each round takes a byte at least.
use jira_game.Base.{
  After, Bool-cases, Option, Text, [], arith, false, inl, inr, length, ltb, none, refl, some, suc,
  zero, ℕ, ◌%◌, ◌<◌, ◌==◌, ◌≡◌, ◌≤◌,
}
use jira_game.Messages.Coded.{Coded}
use jira_game.Messages.Coded.Laws.{Forward}
use jira_game.Messages.Parser.{
  Case, Ending, Parser, Round, Slot, add_merged, after, bool_case, enum_case, failed, float_case,
  go_on, int32_case, loop, nested, next, on_case, optional_case, or_default, part, pick, put_merged,
  read_enum_into, read_into, read_message_into, repeated_case, round, run, stop, string_case,
  unusual, whole,
}

-- What is left to read is at most as long.
abbrev Behind : Text → Text → Type 0
Behind input rest = length rest ≤ length input

-- A round that goes on leaves less than the input.
abbrev Less : {M : Type 0} → Text → Round M → Type 0
Less input (stop m e) = Unit
Less input (next m rest) = length rest < length input

module _ (W : Coded) (forward : Forward W) {M : Type 0} (p : Parser W.Unknown M) where
  read_into-Behind :
      {A : Type 0} (d : A) (s : Slot M A) (o : Option (A × Text)) (input : Text) (m : M)
      → After (λ (v, rest). Behind input rest) o
      → After (Behind input) (read_into W d s o m).1
  read_into-Behind d s none input m h = tt
  read_into-Behind d s (some (v, rest)) input m h = h

  read_enum_into-Behind :
      {E : Type 0} (n : ℕ) (s : Slot M E) (valid : ℕ → Option E) (o : Option (ℕ × Text))
      (input : Text) (m : M)
      → After (λ (v, rest). Behind input rest) o
      → After (Behind input) (read_enum_into W p n s valid o m).1
  read_enum_into-Behind n s valid none input m h = tt
  read_enum_into-Behind n s valid (some (v, rest)) input m h = h

  nested-Behind :
      (r : M × Ending) (behind : Option Text) (input : Text)
      → After (Behind input) behind
      → After (Behind input) (nested r behind).1
  nested-Behind (m, whole) behind input h = h
  nested-Behind (m, part) behind input h = tt
  nested-Behind (m, failed) behind input h = tt

  read_message_into-Behind :
      (touch : M → M) (merge : Text → M → M × Ending) (o : Option (Text × Option Text))
      (input : Text) (m : M)
      → After (λ (inner, behind). After (Behind input) behind) o
      → After (Behind input) (read_message_into W touch merge o m).1
  read_message_into-Behind touch merge none input m h = tt
  read_message_into-Behind touch merge (some (inner, behind)) input m h =
      nested-Behind (merge inner m) behind input h

  run-Behind : (c : Case M) (input : Text) (m : M) → After (Behind input) (run W p c input m).1
  unfolding run
  run-Behind (string_case s) input m = forward.string (or_default [] (s.get m)) input
  run-Behind (int32_case s) input m =
      read_into-Behind 0 s (W.int32.read input) input m (forward.int32 input)
  run-Behind (float_case s) input m =
      read_into-Behind 0 s (W.float.read input) input m (forward.float input)
  run-Behind (bool_case s) input m =
      read_into-Behind false s (W.bool.read input) input m (forward.bool input)
  run-Behind (enum_case n s valid) input m =
      read_enum_into-Behind n s valid (W.enum.read input) input m (forward.enum input)
  run-Behind (optional_case s new merge) input m =
      let old = or_default new (s.get m) in
      read_message_into-Behind _ (λ inner m'. put_merged s (merge inner old) m')
        (W.read_limit input) input m (forward.limit input)
  run-Behind (repeated_case s new merge) input m =
      read_message_into-Behind _ (λ inner m'. add_merged s (merge inner new) m')
        (W.read_limit input) input m (forward.limit input)

  after-Less :
      (m : M) (behind : Option Text) (rest input : Text)
      → After (Behind rest) behind
      → length rest < length input
      → Less input (after m behind)
  after-Less m none rest input h less = tt
  after-Less m (some end) rest input h less = omega (arith, h, less)

  unusual-Less :
      (tag : ℕ) (input rest : Text) (m : M)
      → (0 < tag → length rest < length input)
      → Less input (unusual W p tag input rest m)
  unfolding unusual
  unusual-Less tag input rest m less = elim (Bool-cases (tag == 0)) [
    | inl ended ↦ rw ended tt
    | inr more ↦ elim (Bool-cases (tag % 8 == 4)) [
      | inl group ↦ rw (more, group) tt
      | inr field ↦
          rw (more, field)
            (after-Less _ (W.skip_field tag rest (p.unknown m)).1 rest input
              (forward.skip tag rest (p.unknown m)) (less (ground (arith, more))))
    ]
  ]

  on_tag-Less :
      (input : Text) (m : M) (tag : ℕ) (rest : Text) (o : Option (Case M))
      → (0 < tag → length rest < length input)
      → ((c : Case M) → o ≡ some c → 0 < tag)
      → Less input (on_case W p input tag rest m o)
  on_tag-Less input m tag rest none less real = unusual-Less tag input rest m less
  on_tag-Less input m tag rest (some c) less real =
      after-Less _ (run W p c rest m).1 rest input (run-Behind c rest m) (less (real c refl))

  pick-real : (tag : ℕ) (c : Case M) → pick p tag ≡ some c → 0 < tag
  pick-real tag c found = elim (Bool-cases (ltb 0 tag)) [
    | inl real ↦ ground (arith, real)
    | inr zero_tag ↦ let no : none ≡ some c = rw zero_tag at found in absurd (cc no)
  ]

  round-Less : (input : Text) (m : M) → Less input (round W p input m)
  unfolding round
  round-Less input m =
      let t = W.read_tag input in
      on_tag-Less input m t.0 t.1 (pick p t.0) (forward.tag input) (pick-real t.0)

  same-go_on :
      (again other : Text → M → M × Ending) (input : Text) (r : Round M)
      → Less input r
      → ((rest : Text) (m : M) → length rest < length input → again rest m ≡ other rest m)
      → go_on again r ≡ go_on other r
  same-go_on again other input (stop m e) less same = refl
  same-go_on again other input (next m rest) less same = same rest m less

  -- Where reading goes forward, the loop of every class gives the same result with any two numbers of
  -- rounds above the number of bytes: it ends by itself, whatever the bytes are.
  pub loop-enough :
      (f g : ℕ) (input : Text) (m : M)
      → length input < f
      → length input < g
      → loop W p f input m ≡ loop W p g input m
  unfolding loop
  loop-enough zero g input m hf hg = absurd (omega (arith, hf))
  loop-enough (suc f) zero input m hf hg = absurd (omega (arith, hg))
  loop-enough (suc f) (suc g) input m hf hg =
      same-go_on (loop W p f) (loop W p g) input (round W p input m) (round-Less input m)
        (λ rest m' less.
          loop-enough f g rest m' (omega (arith, hf, less)) (omega (arith, hg, less)))
