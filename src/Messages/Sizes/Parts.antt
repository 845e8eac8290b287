-- ===== src/Messages/Sizes/Parts.antt =====
-- Each part that is written has the size that is computed for it.
use jira_game.Base.{
  After, All, Bool, List, Option, Text, [], ap, ap₂, arith, if◌then◌else◌, length, length-append,
  ltb, map, none, refl, some, true, ℕ, ◌*◌, ◌+◌, ◌∙◌, ◌∷◌, ◌≡◌,
}
use jira_game.Messages.Coded.{Coded}
use jira_game.Messages.Coded.Laws.{IsShort, IsWord, Lawful}
use jira_game.Messages.Parser.Merging.{is_tag, tag_range}
use jira_game.Messages.Class.{Class}
use jira_game.Messages.Class.Codes.{Codes, Nested}
use jira_game.Messages.Writer.{
  bool_part, enum_part, field, float_part, int32_part, message_part, messages_part, string_part,
  written,
}
use jira_game.Messages.Sizes.{part_size, repeated_size, required_three, required_two, total}

pub length-written : (ts : List Text) → length (written ts) ≡ total (map length ts)
length-written [] = refl
length-written (t ∷ ts) = length-append t (written ts) ∙ ap (λ n. length t + n) (length-written ts)

pub required_two-eq :
    {A B : Type 0} (f : A → ℕ) (d : A) (a : Option A) (g : B → ℕ) (e : B) (b : Option B)
    → required_two f d a g e b ≡ part_size 1 f a + part_size 1 g b
required_two-eq f d none g e none = refl
required_two-eq f d none g e (some b) = refl
required_two-eq f d (some a) g e none = refl
required_two-eq f d (some a) g e (some b) = refl

pub required_three-eq :
    {A B C : Type 0} (f : A → ℕ) (d : A) (a : Option A) (g : B → ℕ) (e : B) (b : Option B)
    (h : C → ℕ) (i : C) (c : Option C)
    → required_three f d a g e b h i c ≡ part_size 1 f a + (part_size 1 g b + part_size 1 h c)
required_three-eq f d none g e b h i c = refl
required_three-eq f d (some a) g e none h i c = refl
required_three-eq f d (some a) g e (some b) h i none = refl
required_three-eq f d (some a) g e (some b) h i (some c) = refl

-- A tag of one byte or two.
abbrev pub TagBytes : ℕ → ℕ → Type 0
TagBytes t k = (is_tag t ≡ true) × ((if ltb t 128 then 1 else 2) ≡ k)

module _ (W : Coded) (laws : Lawful W) where
  length-field :
      (n kind k v : ℕ) (value : Text)
      → TagBytes (n * 8 + kind) k
      → length value ≡ v
      → length (field W n kind value) ≡ k + v
  length-field n kind k v value (tag, bytes) e =
      let (low, high) = tag_range (n * 8 + kind) tag in
      length-append (W.write_tag (n * 8 + kind)) value
      ∙ ap₂ (λ a b. a + b) (laws.tag_sized (n * 8 + kind) low high ∙ bytes) e

  pub length-string_part :
      (n k : ℕ) (o : Option Text)
      → TagBytes (n * 8 + 2) k
      → After IsShort o
      → length (string_part W n o) ≡ part_size k W.string_size o
  length-string_part n k none tag ok = refl
  length-string_part n k (some s) tag ok =
      length-field n 2 k (W.string_size s) (W.write_string s) tag (laws.string_sized s ok)

  pub length-int32_part :
      (n k : ℕ) (o : Option ℕ)
      → TagBytes (n * 8 + 0) k
      → After IsWord o
      → length (int32_part W n o) ≡ part_size k W.int32.size o
  length-int32_part n k none tag ok = refl
  length-int32_part n k (some v) tag ok =
      length-field n 0 k (W.int32.size v) (W.int32.write v) tag (laws.int32.sized v ok)

  pub length-float_part :
      (n k : ℕ) (o : Option ℕ)
      → TagBytes (n * 8 + 5) k
      → After IsWord o
      → length (float_part W n o) ≡ part_size k (λ v. 4) o
  length-float_part n k none tag ok = refl
  length-float_part n k (some v) tag ok =
      length-field n 5 k 4 (W.float.write v) tag (laws.float.sized v ok ∙ laws.float_size v)

  pub length-bool_part :
      (n k : ℕ) (o : Option Bool)
      → TagBytes (n * 8 + 0) k
      → length (bool_part W n o) ≡ part_size k (λ b. 1) o
  length-bool_part n k none tag = refl
  length-bool_part n k (some b) tag =
      length-field n 0 k 1 (W.bool.write b) tag (laws.bool.sized b tt ∙ laws.bool_size b)

  pub length-enum_part :
      {E : Type 0} (number : E → ℕ) (n k : ℕ) (o : Option E)
      → ((e : E) → IsWord (number e))
      → TagBytes (n * 8 + 0) k
      → length (enum_part W number n o) ≡ part_size k (λ e. W.enum.size (number e)) o
  length-enum_part number n k none word tag = refl
  length-enum_part number n k (some e) word tag =
      length-field n 0 k (W.enum.size (number e)) (W.enum.write (number e)) tag
        (laws.enum.sized (number e) (word e))

  module _ {S : Type 0} {C : Class W S} {Fits : S → Type 0} (coded : Codes C Fits) where
    length-message :
        (n k : ℕ) (b : S)
        → TagBytes (n * 8 + 2) k
        → Nested C Fits b
        → length (field W n 2 (W.write_message (C.serialize b)))
          ≡ k + W.message_size (C.byte_size b)
    length-message n k b tag ok =
        length-field n 2 k (W.message_size (C.byte_size b)) (W.write_message (C.serialize b)) tag
          (laws.message_sized (C.serialize b) ok.0 ∙ ap W.message_size (coded.sized b ok.1))

    pub length-message_part :
        (n k : ℕ) (o : Option S)
        → TagBytes (n * 8 + 2) k
        → After (Nested C Fits) o
        → length (message_part W C.serialize n o)
          ≡ part_size k (λ b. W.message_size (C.byte_size b)) o
    length-message_part n k none tag ok = refl
    length-message_part n k (some b) tag ok = length-message n k b tag ok

    pub length-messages_part :
        (n k : ℕ) (bs : List S)
        → TagBytes (n * 8 + 2) k
        → All (Nested C Fits) bs
        → length (messages_part W C.serialize n bs)
          ≡ repeated_size k (λ b. W.message_size (C.byte_size b)) bs
    length-messages_part n k [] tag ok = omega arith
    length-messages_part n k (b ∷ bs) tag ok = omega (
      arith,
      length-message n k b tag ok.0,
      length-messages_part n k bs tag ok.1,
      length-append (field W n 2 (W.write_message (C.serialize b)))
          (messages_part W C.serialize n bs),
    )
