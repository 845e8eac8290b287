-- ===== src/Messages/Coded/Laws.antt =====
-- What the generated code relies on of protobuf's runtime.
use jira_game.Base.{
  After, Bool, Text, [], if◌then◌else◌, length, ltb, some, ℕ, ◌++◌, ◌<◌, ◌^◌, ◌≡◌, ◌≤◌,
}
use jira_game.Messages.Coded.{Codec, Coded}

abbrev pub IsWord : ℕ → Type 0
IsWord v = v < 2 ^ 32

-- Short enough for a length that is a positive `int`.
abbrev pub IsShort : Text → Type 0
IsShort s = length s < 2 ^ 31

-- What was written is read again, whatever follows, and the size is the number of bytes written.
pub record CodecLaws {A : Type 0} (c : Codec A) (Ok : A → Type 0) : Type 0 where
  pub reads : (a : A) (rest : Text) → Ok a → c.read (c.write a ++ rest) ≡ some (a, rest)
  pub sized : (a : A) → Ok a → length (c.write a) ≡ c.size a

abbrev pub Anything : {A : Type 0} → A → Type 0
Anything a = Unit

pub record Lawful (W : Coded) : Type 0 where
  pub tag_reads :
      (t : ℕ) (rest : Text) → 0 < t → t < 16384 → W.read_tag (W.write_tag t ++ rest) ≡ (t, rest)
  pub tag_sized :
      (t : ℕ) → 0 < t → t < 16384 → length (W.write_tag t) ≡ (if ltb t 128 then 1 else 2)
  pub tag_end : W.read_tag [] ≡ (0, [])
  pub int32 : CodecLaws W.int32 IsWord
  pub enum : CodecLaws W.enum IsWord
  pub bool : CodecLaws W.bool Anything
  pub float : CodecLaws W.float IsWord
  pub string_reads :
      (s old rest : Text)
      → IsShort s
      → W.read_string old (W.write_string s ++ rest) ≡ (s, some rest)
  pub string_sized : (s : Text) → IsShort s → length (W.write_string s) ≡ W.string_size s
  pub message_reads :
      (b rest : Text) → IsShort b → W.read_limit (W.write_message b ++ rest) ≡ some (b, some rest)
  pub message_sized :
      (b : Text) → IsShort b → length (W.write_message b) ≡ W.message_size (length b)
  pub bool_size : (b : Bool) → W.bool.size b ≡ 1
  pub float_size : (v : ℕ) → W.float.size v ≡ 4
  pub unknown_writes : W.write_unknown W.no_fields ≡ []
  pub unknown_sized : W.unknown_size W.no_fields ≡ 0
  pub unknown_merges : (u : W.Unknown) → W.merge_unknown u W.no_fields ≡ u

-- Reading goes forward; a tag that was read takes a byte at least.
pub record Forward (W : Coded) : Type 0 where
  pub tag : (input : Text) → 0 < (W.read_tag input).0 → length (W.read_tag input).1 < length input
  pub int32 : (input : Text) → After (λ (v, rest). length rest ≤ length input) (W.int32.read input)
  pub enum : (input : Text) → After (λ (v, rest). length rest ≤ length input) (W.enum.read input)
  pub bool : (input : Text) → After (λ (v, rest). length rest ≤ length input) (W.bool.read input)
  pub float : (input : Text) → After (λ (v, rest). length rest ≤ length input) (W.float.read input)
  pub string :
      (old input : Text) → After (λ rest. length rest ≤ length input) (W.read_string old input).1
  pub limit :
      (input : Text)
      → After
          (λ (inner, behind). After (λ rest. length rest ≤ length input) behind)
          (W.read_limit input)
  pub skip :
      (t : ℕ) (input : Text) (u : W.Unknown)
      → After (λ rest. length rest ≤ length input) (W.skip_field t input u).1
