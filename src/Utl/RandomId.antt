-- ===== src/Utl/RandomId.antt =====
-- The range of the random ids.
use jira_game.World.{World}
use jira_game.Utl.RoundTrip.{StartsWithDigit, decimal-StartsWithDigit, string2_int-digit}
use jira_game.Base.{
  Bool-cases, Text, arith, if◌then◌else◌, inl, inr, ltb, refl, suc, true, zero, ℕ, ◌%◌, ◌*◌, ◌++◌,
  ◌+◌, ◌<◌, ◌==◌, ◌≡◌, ◌≤◌,
}
use jira_game.Utl.{
  decimal, digits_value, genrate_random_id, int2_string, random_pieces, string2_int,
}

piece_value :
    (d acc : ℕ) (t : Text)
    → 0 < d
    → d ≤ 10
    → digits_value acc (int2_string d ++ t)
      ≡ (if d == 10 then digits_value (acc * 100 + 10) t else digits_value (acc * 10 + d) t)
unfolding int2_string decimal digits_value
piece_value d acc t pos top = elim (Bool-cases (ltb d 10)) [
  | inl small ↦ rw (small, ltb_small) (ground arith)
  | inr large ↦ let e : d ≡ 10 = ground arith in rw e (ground arith)
]
  where
    ltb_small : ltb d 2147483648 ≡ true
    ltb_small = ground arith

-- The least value of k more pieces behind `acc`: every piece adds at least a digit 1.
least : ℕ → ℕ → ℕ
least zero acc = acc
least (suc k) acc = least k (acc * 10 + 1)

least_mono : (k a b : ℕ) → a ≤ b → least k a ≤ least k b
unfolding least
least_mono zero a b h = h
least_mono (suc k) a b h = least_mono k (a * 10 + 1) (b * 10 + 1) (omega arith)

least-le-digits_value :
    (k acc : ℕ) (rand_of : ℕ → ℕ) (drawn : ℕ)
    → least k acc ≤ digits_value acc (random_pieces k rand_of drawn)
unfolding least random_pieces
least-le-digits_value zero acc rand_of drawn = unfold digits_value in omega arith
least-le-digits_value (suc k) acc rand_of drawn = ground (
  arith,
  piece_value (rand_of drawn % 10 + 1) acc (random_pieces k rand_of (drawn + 1)),
  least-le-digits_value k (acc * 100 + 10) rand_of (drawn + 1),
  least-le-digits_value k (acc * 10 + (rand_of drawn % 10 + 1)) rand_of (drawn + 1),
  least_mono k (acc * 10 + 1) (acc * 100 + 10),
  least_mono k (acc * 10 + 1) (acc * 10 + (rand_of drawn % 10 + 1)),
)

least_six : least 6 0 ≡ 111111
unfolding least
least_six = refl

pieces-StartsWithDigit :
    (k : ℕ) (rand_of : ℕ → ℕ) (drawn : ℕ) → StartsWithDigit (random_pieces (suc k) rand_of drawn)
unfolding random_pieces int2_string
pieces-StartsWithDigit k rand_of drawn =
    let small : ltb (rand_of drawn % 10 + 1) 2147483648 ≡ true = ground arith in
    rw small (decimal-StartsWithDigit 9 (rand_of drawn % 10 + 1) _ (omega arith))

-- The random id, read as a number, is a positive `int` of at least six digits, whatever `rand()`
-- returns.
pub random_id_range :
    (w : World) → let id = string2_int (genrate_random_id w).0 in (111111 ≤ id) × (id ≤ 2147483647)
unfolding genrate_random_id
random_id_range w =
    let t = random_pieces 6 w.rand_of w.drawn in
    rw (string2_int-digit t (pieces-StartsWithDigit 5 w.rand_of w.drawn))
      (ground (arith, least_six, least-le-digits_value 6 0 w.rand_of w.drawn))

-- It takes six calls of `rand()`, and changes nothing else.
pub random_id_world : (w : World) → (genrate_random_id w).1 ≡ record w { drawn = w.drawn + 6 }
unfolding genrate_random_id
random_id_world w = refl
