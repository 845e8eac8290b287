-- ===== src/Utl/RoundTrip.antt =====
-- `string2Int` on what `int2String` writes.
use native.Mathlib.Nat.{pow-suc}
use jira_game.Base.{
  Bool-cases, Text, [], ap, append-nil, append_assoc, arith, if◌then◌else◌, inl, inr, leb, ltb,
  refl, subst, suc, sym, zero, ℕ, ◌%◌, ◌++◌, ◌+◌, ◌-◌, ◌/◌, ◌<◌, ◌^◌, ◌∙◌, ◌∷◌, ◌≡◌, ◌≤◌,
}
use jira_game.Utl.{clamp, decimal, digits_value, int2_string, signed_value, skip_space, string2_int}

-- The digits of a number are read as that number, with the reading going on behind them.
pub digits_value-decimal :
    (k n : ℕ) (t : Text) → n < 10 ^ k → digits_value 0 (decimal k n ++ t) ≡ digits_value n t
unfolding decimal digits_value
digits_value-decimal zero n t h = ap (λ m. digits_value m t) (omega arith)
digits_value-decimal (suc k) n t h = elim (Bool-cases (ltb n 10)) [
  | inl small ↦ ground arith
  | inr large ↦
      rw (large, append_assoc)
        (digits_value-decimal k (n / 10) ((48 + n % 10) ∷ t) (omega (arith, pow-suc 10 k))
          ∙ ground arith)
]

pub record StartsWithDigit (t : Text) : Type 0 where
  pub first : ℕ
  pub others : Text
  pub split : t ≡ first ∷ others
  pub low : 48 ≤ first
  pub high : first ≤ 57

pub decimal-StartsWithDigit :
    (k n : ℕ) (t : Text) → n < 10 ^ suc k → StartsWithDigit (decimal (suc k) n ++ t)
unfolding decimal
decimal-StartsWithDigit zero n t h = record {
  first = 48 + n;
  others = t;
  split = ground arith;
  low = omega arith;
  high = omega arith;
}
decimal-StartsWithDigit (suc k) n t h = elim (Bool-cases (ltb n 10)) [
  | inl small ↦ record {
    first = 48 + n;
    others = t;
    split = ground arith;
    low = omega arith;
    high = ground arith;
  }
  | inr large ↦
      rw (large, append_assoc)
        (decimal-StartsWithDigit k (n / 10) ((48 + n % 10) ∷ t) (omega (arith, pow-suc 10 (suc k))))
]

-- A text that starts with a digit has neither blanks nor a sign to skip.
pub string2_int-digit :
    (t : Text)
    → StartsWithDigit t
    → string2_int t ≡ (if leb (digits_value 0 t) 2147483647 then digits_value 0 t else 2147483647)
unfolding string2_int
string2_int-digit t d = rw d.split (unsigned d.first d.others d.low d.high)
  where
    unsigned :
        (c : ℕ) (r : Text)
        → 48 ≤ c
        → c ≤ 57
        → signed_value (skip_space (c ∷ r))
          ≡ (if leb (digits_value 0 (c ∷ r)) 2147483647 then digits_value 0 (c ∷ r) else 2147483647)
    unsigned c r lo hi = ground arith

digits_value-decimal_all : (k n : ℕ) → n < 10 ^ k → digits_value 0 (decimal k n) ≡ n
unfolding digits_value
digits_value-decimal_all k n h =
    ap (digits_value 0) (sym (append-nil (decimal k n))) ∙ digits_value-decimal k n [] h

string2_int-minus :
    (t : Text)
    → string2_int (45 ∷ t) ≡ (4294967296 - clamp 2147483648 (digits_value 0 t)) % 4294967296
unfolding string2_int
string2_int-minus t = refl

-- Every 32-bit value, as the bit pattern of the `int`, is read back from its text.
pub string2_int-int2_string : (x : ℕ) → x < 2 ^ 32 → string2_int (int2_string x) ≡ x
unfolding int2_string
string2_int-int2_string x h = elim (Bool-cases (ltb x 2147483648)) [
  | inl positive ↦ rw positive (
      string2_int-digit (decimal 10 x) (
        subst StartsWithDigit (append-nil (decimal 10 x))
          (decimal-StartsWithDigit 9 x [] (ground arith)))
      ∙ ground (arith, digits_value-decimal_all 10 x))
  | inr negative ↦
      rw
        (
          negative,
          string2_int-minus (decimal 10 (4294967296 - x)),
          digits_value-decimal_all 10 (4294967296 - x) (ground arith),
        )
        (ground arith)
]
