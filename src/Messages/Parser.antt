-- ===== src/Messages/Parser.antt =====
-- The loop that every `MergePartialFromCodedStream` of DNW_Server/include/protoFiles is: it reads a
-- tag, runs the case of the field, or skips the field.
pub mod Merging
pub mod Fields
pub mod Fuel
use jira_game.Base.{
  Bool, List, Option, Text, [], false, if◌then◌else◌, is_empty, leb, length, ltb, none, some, suc,
  zero, ℕ, ◌%◌, ◌&&◌, ◌++◌, ◌/◌, ◌==◌, ◌∷◌,
}
use jira_game.Messages.Coded.{Coded}

-- How a call ended: at the end of the input, at a tag 0 before it or an end of a group (the call
-- returns true, but `ConsumedEntireMessage` is false), or with a failure.
pub data Ending : Type 0 where
  whole part failed : Ending

-- A field with its has-bit.
pub record Slot (M A : Type 0) : Type 0 where
  pub get : M → Option A
  pub put : Option A → M → M

-- The value of a field, the default where the has-bit is not set.
abbrev pub or_default {ℓ} : {A : Type ℓ} → A → Option A → A
or_default d none = d
or_default d (some a) = a

-- A repeated field.
pub record ListSlot (M A : Type 0) : Type 0 where
  pub elems : M → List A
  pub set_elems : List A → M → M

-- What a case of the `switch` does: it reads a value of a kind into a field.
pub data Case (M : Type 0) : Type 1 where
  string_case : Slot M Text → Case M
  int32_case : Slot M ℕ → Case M
  float_case : Slot M ℕ → Case M
  bool_case : Slot M Bool → Case M
  -- the field's number, and `IsValid` with the cast
  enum_case : {E : Type 0} → ℕ → Slot M E → (ℕ → Option E) → Case M
  -- `ReadMessageNoVirtual(input, mutable_x())` and `ReadMessageNoVirtual(input, add_x())`: a new
  -- message, and the parser of the nested message
  optional_case : {S : Type 0} → Slot M S → S → (Text → S → S × Ending) → Case M
  repeated_case : {S : Type 0} → ListSlot M S → S → (Text → S → S × Ending) → Case M

abbrev pub put_merged : {M S : Type 0} → Slot M S → S × Ending → M → M × Ending
put_merged s (x, e) m = (s.put (some x) m, e)

abbrev pub add_merged : {M S : Type 0} → ListSlot M S → S × Ending → M → M × Ending
add_merged s (x, e) m = (s.set_elems (s.elems m ++ x ∷ []) m, e)

-- The cases by the number of the field, each with the low byte of the tag that it wants, the
-- argument of `ReadTagWithCutoffNoLastTag`, and the unknown fields.
pub record Parser (U M : Type 0) : Type 1 where
  pub cutoff : ℕ
  pub table : List (ℕ × ℕ × Case M)
  pub unknown : M → U
  pub set_unknown : U → M → M

pub data Round (M : Type 0) : Type 0 where
  stop : M → Ending → Round M
  next : M → Text → Round M

abbrev pub find_case {ℓ} : {A : Type ℓ} → ℕ → List (ℕ × ℕ × A) → Option (ℕ × A)
find_case n [] = none
find_case n ((k, byte, a) ∷ rest) = if n == k then some (byte, a) else find_case n rest

abbrev pub on_byte {ℓ} : {A : Type ℓ} → ℕ → Option (ℕ × A) → Option A
on_byte tag none = none
on_byte tag (some (byte, a)) = if tag % 256 == byte then some a else none

-- The case of a tag, `none` where the code goes to `handle_unusual`.
abbrev pub pick : {U M : Type 0} → Parser U M → ℕ → Option (Case M)
pick p tag =
    if ltb 0 tag && leb tag p.cutoff then on_byte tag (find_case (tag / 8) p.table) else none

abbrev pub after : {M : Type 0} → M → Option Text → Round M
after m none = stop m failed
after m (some rest) = next m rest

-- `ReadMessageNoVirtual` fails where the nested message did not end at its limit.
abbrev pub nested : {M : Type 0} → M × Ending → Option Text → M × Option Text
nested (m, whole) behind = (m, behind)
nested (m, part) behind = (m, none)
nested (m, failed) behind = (m, none)

abbrev pub go_on : {M : Type 0} → (Text → M → M × Ending) → Round M → M × Ending
go_on again (stop m e) = (m, e)
go_on again (next m rest) = again rest m

module _ (W : Coded) where
  abbrev pub read_into : {M A : Type 0} → A → Slot M A → Option (A × Text) → M → M × Option Text
  read_into d s none m = (s.put (some (or_default d (s.get m))) m, none)
  read_into d s (some (v, rest)) m = (s.put (some v) m, some rest)

  -- A number that is not valid goes to the unknown fields.
  abbrev pub set_valid : {M E : Type 0} → Parser W.Unknown M → ℕ → Slot M E → ℕ → M → Option E → M
  set_valid p n s v m none = p.set_unknown (W.add_varint n v (p.unknown m)) m
  set_valid p n s v m (some e) = s.put (some e) m

  abbrev pub read_enum_into :
      {M E : Type 0}
      → Parser W.Unknown M
      → ℕ
      → Slot M E
      → (ℕ → Option E)
      → Option (ℕ × Text)
      → M
      → M × Option Text
  read_enum_into p n s valid none m = (m, none)
  read_enum_into p n s valid (some (v, rest)) m = (set_valid p n s v m (valid v), some rest)

  abbrev pub read_message_into :
      {M : Type 0}
      → (M → M)
      → (Text → M → M × Ending)
      → Option (Text × Option Text)
      → M
      → M × Option Text
  read_message_into touch merge none m = (touch m, none)
  read_message_into touch merge (some (inner, behind)) m = nested (merge inner m) behind

  unfoldable pub run : {M : Type 0} → Parser W.Unknown M → Case M → Text → M → M × Option Text
  run p (string_case s) input m =
      let (v, rest) = W.read_string (or_default [] (s.get m)) input in (s.put (some v) m, rest)
  run p (int32_case s) input m = read_into 0 s (W.int32.read input) m
  run p (float_case s) input m = read_into 0 s (W.float.read input) m
  run p (bool_case s) input m = read_into false s (W.bool.read input) m
  run p (enum_case n s valid) input m = read_enum_into p n s valid (W.enum.read input) m
  run p (optional_case s new merge) input m =
      let old = or_default new (s.get m) in
      read_message_into (λ m'. s.put (some old) m') (λ inner m'. put_merged s (merge inner old) m')
        (W.read_limit input) m
  run p (repeated_case s new merge) input m =
      read_message_into (λ m'. s.set_elems (s.elems m' ++ new ∷ []) m')
        (λ inner m'. add_merged s (merge inner new) m') (W.read_limit input) m

  unfoldable pub unusual : {M : Type 0} → Parser W.Unknown M → ℕ → Text → Text → M → Round M
  unusual p tag input rest m =
      let (u, behind) = W.skip_field tag rest (p.unknown m) in
      if tag == 0
      then stop m (if is_empty input then whole else part)
      else if tag % 8 == 4
      then stop m part
      else after (p.set_unknown u m) behind

  -- The body of the `switch`, for what `pick` gives.
  abbrev pub on_case :
      {M : Type 0} → Parser W.Unknown M → Text → ℕ → Text → M → Option (Case M) → Round M
  on_case p input tag rest m none = unusual p tag input rest m
  on_case p input tag rest m (some c) = let (m', behind) = run p c rest m in after m' behind

  abbrev pub on_tag : {M : Type 0} → Parser W.Unknown M → Text → M → ℕ × Text → Round M
  on_tag p input m (tag, rest) = on_case p input tag rest m (pick p tag)

  -- One round.
  unfoldable pub round : {M : Type 0} → Parser W.Unknown M → Text → M → Round M
  unfolding run unusual
  round p input m = on_tag p input m (W.read_tag input)

  unfoldable pub loop : {M : Type 0} → Parser W.Unknown M → ℕ → Text → M → M × Ending
  unfolding round
  loop p zero input m = (m, failed)
  loop p (suc fuel) input m = go_on (loop p fuel) (round p input m)

  -- Each round takes a byte at least, so one more round than there are bytes is enough.
  unfoldable pub run_parser : {M : Type 0} → Parser W.Unknown M → Text → M → M × Ending
  unfolding loop
  run_parser p input m = loop p (suc (length input)) input m
