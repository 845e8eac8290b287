-- ===== src/Utl.antt =====
-- DNW_Server/Server/Utl/Utilitys.cpp: numbers as text, and the random ids. The functions on the
-- console and on wide strings are not modelled: no scene uses what they compute.
pub mod RoundTrip
pub mod RandomId
use jira_game.Base.{
  Bool, Text, [], if◌then◌else◌, leb, ltb, suc, zero, ℕ, ◌%◌, ◌&&◌, ◌*◌, ◌++◌, ◌+◌, ◌-◌, ◌/◌, ◌==◌,
  ◌||◌, ◌∷◌,
}
use jira_game.World.{World}

-- The decimal digits of a number, with at most the given number of digits.
unfoldable pub decimal : ℕ → ℕ → Text
decimal zero n = []
decimal (suc k) n =
    let rest = decimal k (n / 10) in if ltb n 10 then (48 + n) ∷ [] else rest ++ (48 + n % 10) ∷ []

-- `sprintf_s(_chr, "%d", iValue)`
unfoldable pub int2_string : ℕ → Text
unfolding decimal
int2_string x = if ltb x 2147483648 then decimal 10 x else 45 ∷ decimal 10 (4294967296 - x)

abbrev pub is_digit : ℕ → Bool
is_digit c = leb 48 c && leb c 57

abbrev pub is_space : ℕ → Bool
is_space c = c == 32 || (leb 9 c && leb c 13)

unfoldable pub skip_space : Text → Text
skip_space [] = []
skip_space (c ∷ t) = if is_space c then skip_space t else c ∷ t

unfoldable pub digits_value : ℕ → Text → ℕ
digits_value acc [] = acc
digits_value acc (c ∷ t) =
    let rest = digits_value (acc * 10 + (c - 48)) t in if is_digit c then rest else acc

-- The C library's value of a number that is out of range is the nearest in range.
abbrev pub clamp : ℕ → ℕ → ℕ
clamp top n = if leb n top then n else top

unfoldable pub signed_value : Text → ℕ
unfolding digits_value
signed_value [] = 0
signed_value (c ∷ t) =
    if c == 45
    then (4294967296 - clamp 2147483648 (digits_value 0 t)) % 4294967296
    else if c == 43
    then clamp 2147483647 (digits_value 0 t)
    else clamp 2147483647 (digits_value 0 (c ∷ t))

-- `atoi`
unfoldable pub string2_int : Text → ℕ
unfolding skip_space signed_value
string2_int t = signed_value (skip_space t)

-- `rand() % 10 + 1` for each of the six pieces
unfoldable pub random_pieces : ℕ → (ℕ → ℕ) → ℕ → Text
unfolding int2_string
random_pieces zero rand_of drawn = []
random_pieces (suc k) rand_of drawn =
    int2_string (rand_of drawn % 10 + 1) ++ random_pieces k rand_of (drawn + 1)

unfoldable pub genrate_random_id : World → Text × World
unfolding random_pieces
genrate_random_id w = (random_pieces 6 w.rand_of w.drawn, record w { drawn = w.drawn + 6 })
