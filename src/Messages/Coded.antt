-- ===== src/Messages/Coded.antt =====
-- What the generated code (DNW_Server/include/protoFiles) calls of protobuf's runtime: the coded
-- streams, `WireFormatLite`, and the set of unknown fields. A stream is the bytes that are still to be
-- read, or the bytes that were written. An `int32`, an enum's number and a `float` are 32-bit words.
pub mod Laws
use jira_game.Base.{Bool, Option, Text, ℕ}

-- The reading, the writing and the size of one kind of value.
pub record Codec (A : Type 0) : Type 0 where
  pub read : Text → Option (A × Text)
  pub write : A → Text
  pub size : A → ℕ

pub record Coded : Type 1 where
  -- `ReadTag`, 0 at the end of the input, and `WriteTag`
  pub read_tag : Text → ℕ × Text
  pub write_tag : ℕ → Text
  pub int32 : Codec ℕ
  pub enum : Codec ℕ
  pub bool : Codec Bool
  pub float : Codec ℕ
  -- `ReadString` into a string that holds the first argument: what it holds then, and the rest of
  -- the input, if the call succeeds
  pub read_string : Text → Text → Text × Option Text
  pub write_string : Text → Text
  pub string_size : Text → ℕ
  -- what `PushLimit` lets a nested message read after its length was read, and the input behind it,
  -- if the input reaches so far
  pub read_limit : Text → Option (Text × Option Text)
  pub write_message : Text → Text
  pub message_size : ℕ → ℕ
  -- `UnknownFieldSet`
  pub Unknown : Type 0
  pub no_fields : Unknown
  pub add_varint : ℕ → ℕ → Unknown → Unknown
  pub skip_field : ℕ → Text → Unknown → Unknown × Option Text
  pub merge_unknown : Unknown → Unknown → Unknown
  pub write_unknown : Unknown → Text
  pub unknown_size : Unknown → ℕ
