-- ===== src/Messages/Class.antt =====
-- What a generated class of DNW_Server/include/protoFiles consists of, and `MergeFrom` of one field.
pub mod Codes
pub mod Fresh
use jira_game.Base.{Option, Text, none, some, ℕ}
use jira_game.Messages.Coded.{Coded}
use jira_game.Messages.Parser.{Parser, or_default}

-- A new message, the cases of `MergePartialFromCodedStream`, `SerializeWithCachedSizes`,
-- `ByteSizeLong`, and `MergeFrom`.
pub record Class (W : Coded) (M : Type 0) : Type 1 where
  pub new : M
  pub parser : Parser W.Unknown M
  pub serialize : M → Text
  pub byte_size : M → ℕ
  pub merge_from : M → M → M

-- A field is overwritten where the other message has it.
abbrev pub over {ℓ} : {A : Type ℓ} → Option A → Option A → Option A
over none old = old
over (some a) old = some a

-- A nested message is merged into the old one, or into a new one.
abbrev pub over_message : {S : Type 0} → (S → S → S) → S → Option S → Option S → Option S
over_message merge_from new none old = old
over_message merge_from new (some b) old = some (merge_from (or_default new old) b)
