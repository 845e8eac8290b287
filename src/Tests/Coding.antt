-- ===== src/Tests/Coding.antt =====
-- A coding of values by short lists, without zeros where the texts have none, in the place of
-- protobuf's runtime: a number takes one element, one more than itself.
use jira_game.Base.{
  After, Bool, Bool-cases, Option, Text, [], ap, arith, if◌then◌else◌, inl, inr, length, ltb, none,
  refl, some, suc, zero, ℕ, ◌++◌, ◌<◌, ◌==◌, ◌∷◌, ◌≡◌, ◌≤◌,
}
use jira_game.Messages.Coded.{Codec, Coded}
use jira_game.Messages.Coded.Laws.{Forward, Lawful}

abbrev number_read : Text → Option (ℕ × Text)
number_read [] = none
number_read (zero ∷ t) = none
number_read (suc v ∷ t) = some (v, t)

abbrev numbers : Codec ℕ
numbers = record { read = number_read; write = λ v. suc v ∷ []; size = λ v. 1 }

abbrev bool_read : Text → Option (Bool × Text)
bool_read [] = none
bool_read (c ∷ t) = some (c == 2, t)

abbrev bools : Codec Bool
bools = record { read = bool_read; write = λ b. (if b then 2 else 1) ∷ []; size = λ b. 1 }

abbrev rest_of : ℕ → Text → Text
rest_of zero t = t
rest_of (suc n) [] = []
rest_of (suc n) (c ∷ t) = rest_of n t

abbrev float_read : Text → Option (ℕ × Text)
float_read [] = none
float_read (zero ∷ t) = none
float_read (suc v ∷ t) = some (v, rest_of 3 t)

abbrev floats : Codec ℕ
floats = record { read = float_read; write = λ v. suc v ∷ 1 ∷ 1 ∷ 1 ∷ []; size = λ v. 4 }

abbrev tag_read : Text → ℕ × Text
tag_read [] = (0, [])
tag_read (c ∷ t) = (c, if ltb c 128 then t else rest_of 1 t)

abbrev in_front : ℕ → Option (Text × Text) → Option (Text × Text)
in_front c none = none
in_front c (some (a, b)) = some (c ∷ a, b)

abbrev split : ℕ → Text → Option (Text × Text)
split zero t = some ([], t)
split (suc n) [] = none
split (suc n) (c ∷ t) = in_front c (split n t)

abbrev as_string : Text → Option (Text × Text) → Text × Option Text
as_string old none = (old, none)
as_string old (some (a, b)) = (a, some b)

abbrev string_read : Text → Text → Text × Option Text
string_read old [] = (old, none)
string_read old (zero ∷ t) = (old, none)
string_read old (suc n ∷ t) = as_string old (split n t)

abbrev as_limit : Text → Option (Text × Text) → Option (Text × Option Text)
as_limit t none = some (t, none)
as_limit t (some (a, b)) = some (a, some b)

abbrev limit_read : Text → Option (Text × Option Text)
limit_read [] = none
limit_read (zero ∷ t) = none
limit_read (suc n ∷ t) = as_limit t (split n t)

-- A field that is not known fails.
abbrev pub coding : Coded
coding = record {
  read_tag = tag_read;
  write_tag = λ t. if ltb t 128 then t ∷ [] else t ∷ 1 ∷ [];
  int32 = numbers;
  enum = numbers;
  bool = bools;
  float = floats;
  read_string = string_read;
  write_string = λ s. suc (length s) ∷ s;
  string_size = λ s. suc (length s);
  read_limit = limit_read;
  write_message = λ b. suc (length b) ∷ b;
  message_size = λ n. suc n;
  Unknown = Unit;
  no_fields = tt;
  add_varint = λ n v u. tt;
  skip_field = λ t input u. (tt, none);
  merge_unknown = λ u v. tt;
  write_unknown = λ u. [];
  unknown_size = λ u. 0;
}

split-append : (s rest : Text) → split (length s) (s ++ rest) ≡ some (s, rest)
split-append [] rest = refl
split-append (c ∷ s) rest = ap (in_front c) (split-append s rest)

tags :
    (t : ℕ) (rest : Text)
    → tag_read ((if ltb t 128 then t ∷ [] else t ∷ 1 ∷ []) ++ rest) ≡ (t, rest)
tags t rest = elim (Bool-cases (ltb t 128)) [
  | inl short ↦ rw short (rw short refl)
  | inr long ↦ rw long (rw long refl)
]

pub coding-Lawful : Lawful coding
coding-Lawful = record {
  tag_reads = λ t rest low high. tags t rest;
  tag_sized = λ t low high. ground arith;
  tag_end = refl;
  int32 = record { reads = λ v rest ok. refl; sized = λ v ok. refl };
  enum = record { reads = λ v rest ok. refl; sized = λ v ok. refl };
  bool = record { reads = λ b rest ok. ground arith; sized = λ b ok. refl };
  float = record { reads = λ v rest ok. refl; sized = λ v ok. refl };
  string_reads = λ s old rest ok. ap (as_string old) (split-append s rest);
  string_sized = λ s ok. refl;
  message_reads = λ b rest ok. ap (as_limit (b ++ rest)) (split-append b rest);
  message_sized = λ b ok. refl;
  bool_size = λ b. refl;
  float_size = λ v. refl;
  unknown_writes = refl;
  unknown_sized = refl;
  unknown_merges = λ u. refl;
}

length-rest_of : (n : ℕ) (t : Text) → length (rest_of n t) ≤ length t
length-rest_of zero t = omega arith
length-rest_of (suc n) [] = omega arith
length-rest_of (suc n) (c ∷ t) = omega (arith, length-rest_of n t)

number-forward : (t : Text) → After (λ (v, rest). length rest ≤ length t) (number_read t)
number-forward [] = tt
number-forward (zero ∷ t) = tt
number-forward (suc v ∷ t) = omega arith

bool-forward : (t : Text) → After (λ (v, rest). length rest ≤ length t) (bool_read t)
bool-forward [] = tt
bool-forward (c ∷ t) = omega arith

float-forward : (t : Text) → After (λ (v, rest). length rest ≤ length t) (float_read t)
float-forward [] = tt
float-forward (zero ∷ t) = tt
float-forward (suc v ∷ t) = omega (arith, length-rest_of 3 t)

tag-forward : (t : Text) → 0 < (tag_read t).0 → length (tag_read t).1 < length t
tag-forward [] h = absurd (omega (arith, h))
tag-forward (c ∷ t) h = elim (Bool-cases (ltb c 128)) [
  | inl short ↦ rw short (omega arith)
  | inr long ↦ rw long (omega (arith, length-rest_of 1 t))
]

in_front-forward :
    (c : ℕ) (t : Text) (o : Option (Text × Text))
    → After (λ (a, b). length b ≤ length t) o
    → After (λ (a, b). length b ≤ length (c ∷ t)) (in_front c o)
in_front-forward c t none h = tt
in_front-forward c t (some (a, b)) h = omega (arith, h)

split-forward : (n : ℕ) (t : Text) → After (λ (a, b). length b ≤ length t) (split n t)
split-forward zero t = omega arith
split-forward (suc n) [] = tt
split-forward (suc n) (c ∷ t) = in_front-forward c t (split n t) (split-forward n t)

as_string-forward :
    (c : ℕ) (old t : Text) (o : Option (Text × Text))
    → After (λ (a, b). length b ≤ length t) o
    → After (λ rest. length rest ≤ length (c ∷ t)) (as_string old o).1
as_string-forward c old t none h = tt
as_string-forward c old t (some (a, b)) h = omega (arith, h)

string-forward : (old t : Text) → After (λ rest. length rest ≤ length t) (string_read old t).1
string-forward old [] = tt
string-forward old (zero ∷ t) = tt
string-forward old (suc n ∷ t) = as_string-forward (suc n) old t (split n t) (split-forward n t)

as_limit-forward :
    (c : ℕ) (t : Text) (o : Option (Text × Text))
    → After (λ (a, b). length b ≤ length t) o
    → After (λ (inner, behind). After (λ rest. length rest ≤ length (c ∷ t)) behind) (as_limit t o)
as_limit-forward c t none h = tt
as_limit-forward c t (some (a, b)) h = omega (arith, h)

limit-forward :
    (t : Text)
    → After (λ (inner, behind). After (λ rest. length rest ≤ length t) behind) (limit_read t)
limit-forward [] = tt
limit-forward (zero ∷ t) = tt
limit-forward (suc n ∷ t) = as_limit-forward (suc n) t (split n t) (split-forward n t)

pub coding-Forward : Forward coding
coding-Forward = record {
  tag = tag-forward;
  int32 = number-forward;
  enum = number-forward;
  bool = bool-forward;
  float = float-forward;
  string = string-forward;
  limit = limit-forward;
  skip = λ t input u. tt;
}
