-- ===== src/Messages/Sizes.antt =====
-- The terms of the sums in the `ByteSizeLong` of DNW_Server/include/protoFiles. The first argument is
-- the number of bytes of the tag.
pub mod Parts
use jira_game.Base.{
  List, Option, [], if◌then◌else◌, is_some, length, none, some, ℕ, ◌&&◌, ◌*◌, ◌+◌, ◌∷◌,
}
use jira_game.Messages.Parser.{or_default}

abbrev pub total : List ℕ → ℕ
total [] = 0
total (n ∷ ns) = n + total ns

-- `if (has_x()) total_size += k + Size(x())`
abbrev pub part_size {ℓ} : {A : Type ℓ} → ℕ → (A → ℕ) → Option A → ℕ
part_size k size none = 0
part_size k size (some a) = k + size a

abbrev pub sizes {ℓ} : {A : Type ℓ} → (A → ℕ) → List A → ℕ
sizes size [] = 0
sizes size (a ∷ as') = size a + sizes size as'

-- The sum over a repeated field.
abbrev pub repeated_size {ℓ} : {A : Type ℓ} → ℕ → (A → ℕ) → List A → ℕ
repeated_size k size ms = k * length ms + sizes size ms

-- The required fields: the sum without tests where all are there, and
-- `RequiredFieldsByteSizeFallback` otherwise.
abbrev pub required_two : {A B : Type 0} → (A → ℕ) → A → Option A → (B → ℕ) → B → Option B → ℕ
required_two f d a g e b =
    if is_some a && is_some b
    then (1 + f (or_default d a)) + (1 + g (or_default e b))
    else part_size 1 f a + part_size 1 g b

abbrev pub required_three :
    {A B C : Type 0} → (A → ℕ) → A → Option A → (B → ℕ) → B → Option B → (C → ℕ) → C → Option C → ℕ
required_three f d a g e b h i c =
    if is_some a && (is_some b && is_some c)
    then (1 + f (or_default d a)) + ((1 + g (or_default e b)) + (1 + h (or_default i c)))
    else part_size 1 f a + (part_size 1 g b + part_size 1 h c)
