-- ===== src/Messages/Writer.antt =====
-- What the lines of the `SerializeWithCachedSizes` of DNW_Server/include/protoFiles write: a field is
-- its tag and its value where the has-bit is set, and nothing otherwise. The number of the field is the
-- first argument; the tag is eight times that, and the type of the value.
use jira_game.Base.{Bool, List, Option, Text, [], none, some, ℕ, ◌*◌, ◌++◌, ◌+◌, ◌∷◌}
use jira_game.Messages.Coded.{Coded}

abbrev pub written : List Text → Text
written [] = []
written (t ∷ ts) = t ++ written ts

-- The same in front of other bytes.
abbrev pub written_before : List Text → Text → Text
written_before [] rest = rest
written_before (t ∷ ts) rest = t ++ written_before ts rest

module _ (W : Coded) where
  abbrev pub field : ℕ → ℕ → Text → Text
  field n kind value = W.write_tag (n * 8 + kind) ++ value

  abbrev pub string_part : ℕ → Option Text → Text
  string_part n none = []
  string_part n (some s) = field n 2 (W.write_string s)

  abbrev pub int32_part : ℕ → Option ℕ → Text
  int32_part n none = []
  int32_part n (some v) = field n 0 (W.int32.write v)

  abbrev pub float_part : ℕ → Option ℕ → Text
  float_part n none = []
  float_part n (some v) = field n 5 (W.float.write v)

  abbrev pub bool_part : ℕ → Option Bool → Text
  bool_part n none = []
  bool_part n (some b) = field n 0 (W.bool.write b)

  -- An enum, by its number.
  abbrev pub enum_part : {E : Type 0} → (E → ℕ) → ℕ → Option E → Text
  enum_part number n none = []
  enum_part number n (some e) = field n 0 (W.enum.write (number e))

  -- A nested message, by what it writes.
  abbrev pub message_part : {M : Type 0} → (M → Text) → ℕ → Option M → Text
  message_part serialize n none = []
  message_part serialize n (some m) = field n 2 (W.write_message (serialize m))

  -- The loop over a repeated field.
  abbrev pub messages_part : {M : Type 0} → (M → Text) → ℕ → List M → Text
  messages_part serialize n [] = []
  messages_part serialize n (m ∷ ms) =
      field n 2 (W.write_message (serialize m)) ++ messages_part serialize n ms
