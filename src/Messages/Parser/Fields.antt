-- ===== src/Messages/Parser/Fields.antt =====
-- Each kind of field, written and read back.
use jira_game.Base.{
  After, All, Bool, List, Option, Text, [], ap, append-nil, append_assoc, false, none, refl, some,
  subst, sym, true, ℕ, ◌*◌, ◌++◌, ◌+◌, ◌∙◌, ◌∷◌, ◌≡◌,
}
use jira_game.Messages.Coded.{Codec, Coded}
use jira_game.Messages.Coded.Laws.{Anything, CodecLaws, IsShort, IsWord, Lawful}
use jira_game.Messages.Parser.{
  Case, Ending, ListSlot, Parser, Slot, add_merged, bool_case, enum_case, float_case, int32_case,
  nested, optional_case, or_default, pick, put_merged, read_enum_into, read_into, read_message_into,
  repeated_case, run, run_parser, set_valid, string_case, whole,
}
use jira_game.Messages.Parser.Merging.{Merges, field-Merges, is_tag}
use jira_game.Messages.Class.{Class, over, over_message}
use jira_game.Messages.Class.Codes.{Codes, Nested, merge-serialize, parse-serialize}
use jira_game.Messages.Writer.{
  bool_part, enum_part, float_part, int32_part, message_part, messages_part, string_part,
}

-- A write of what is there changes nothing.
abbrev pub Keeps : {M A : Type 0} → Slot M A → Type 0
Keeps {M} s = (m : M) → s.put (s.get m) m ≡ m

-- The case of the tag, and that the tag is one.
abbrev pub Finds : {U M : Type 0} → Parser U M → ℕ → Case M → Type 1
Finds p t c = (pick p t ≡ some c) × (is_tag t ≡ true)

-- A member's number is a word, and is read as the member.
abbrev pub EnumLaws : {E : Type 0} → (E → ℕ) → (ℕ → Option E) → Type 0
EnumLaws {E} number of = (e : E) → (of (number e) ≡ some e) × IsWord (number e)

pub record ListSlotLaws {M A : Type 0} (s : ListSlot M A) : Type 0 where
  pub kept : (m : M) → s.set_elems (s.elems m) m ≡ m
  pub got : (xs : List A) (m : M) → s.elems (s.set_elems xs m) ≡ xs
  pub twice : (xs ys : List A) (m : M) → s.set_elems ys (s.set_elems xs m) ≡ s.set_elems ys m

module _ (W : Coded) (laws : Lawful W) {M : Type 0} (p : Parser W.Unknown M) where
  kept-Merges :
      {A : Type 0} (s : Slot M A) (rest : Text) (m : M) (r : M × Ending)
      → Keeps s
      → Merges W p rest (s.put (s.get m) m) r
      → Merges W p rest m r
  kept-Merges s rest m r keeps = subst (λ v. Merges W p rest v r) (keeps m)

  pub string-Merges :
      (n : ℕ) (s : Slot M Text) (o : Option Text) (rest : Text) (m : M) (r : M × Ending)
      → Finds p (n * 8 + 2) (string_case s)
      → Keeps s
      → After IsShort o
      → Merges W p rest (s.put (over o (s.get m)) m) r
      → Merges W p (string_part W n o ++ rest) m r
  unfolding run
  string-Merges n s none rest m r (found, tag) keeps ok = kept-Merges s rest m r keeps
  string-Merges n s (some v) rest m r (found, tag) keeps ok =
      field-Merges W laws p (n * 8 + 2) (string_case s) (W.write_string v) rest m (s.put (some v) m)
        r found tag (ap (λ (w, behind). (s.put (some w) m, behind)) (laws.string_reads v _ rest ok))

  read_into-Merges :
      {A : Type 0} (codec : Codec A) (Ok : A → Type 0) (d : A) (t : ℕ) (c : Case M) (s : Slot M A)
      (a : A) (rest : Text) (m : M) (r : M × Ending)
      → CodecLaws codec Ok
      → ((input : Text) → run W p c input m ≡ read_into W d s (codec.read input) m)
      → Finds p t c
      → Ok a
      → Merges W p rest (s.put (some a) m) r
      → Merges W p ((W.write_tag t ++ codec.write a) ++ rest) m r
  read_into-Merges codec Ok d t c s a rest m r good runs (found, tag) ok =
      field-Merges W laws p t c (codec.write a) rest m (s.put (some a) m) r found tag
        (runs (codec.write a ++ rest) ∙ ap (λ o. read_into W d s o m) (good.reads a rest ok))

  pub int32-Merges :
      (n : ℕ) (s : Slot M ℕ) (o : Option ℕ) (rest : Text) (m : M) (r : M × Ending)
      → Finds p (n * 8 + 0) (int32_case s)
      → Keeps s
      → After IsWord o
      → Merges W p rest (s.put (over o (s.get m)) m) r
      → Merges W p (int32_part W n o ++ rest) m r
  unfolding run
  int32-Merges n s none rest m r finds keeps ok = kept-Merges s rest m r keeps
  int32-Merges n s (some v) rest m r finds keeps ok =
      read_into-Merges W.int32 IsWord 0 (n * 8 + 0) (int32_case s) s v rest m r laws.int32
        (λ i. refl) finds ok

  pub float-Merges :
      (n : ℕ) (s : Slot M ℕ) (o : Option ℕ) (rest : Text) (m : M) (r : M × Ending)
      → Finds p (n * 8 + 5) (float_case s)
      → Keeps s
      → After IsWord o
      → Merges W p rest (s.put (over o (s.get m)) m) r
      → Merges W p (float_part W n o ++ rest) m r
  unfolding run
  float-Merges n s none rest m r finds keeps ok = kept-Merges s rest m r keeps
  float-Merges n s (some v) rest m r finds keeps ok =
      read_into-Merges W.float IsWord 0 (n * 8 + 5) (float_case s) s v rest m r laws.float
        (λ i. refl) finds ok

  pub bool-Merges :
      (n : ℕ) (s : Slot M Bool) (o : Option Bool) (rest : Text) (m : M) (r : M × Ending)
      → Finds p (n * 8 + 0) (bool_case s)
      → Keeps s
      → Merges W p rest (s.put (over o (s.get m)) m) r
      → Merges W p (bool_part W n o ++ rest) m r
  unfolding run
  bool-Merges n s none rest m r finds keeps = kept-Merges s rest m r keeps
  bool-Merges n s (some b) rest m r finds keeps =
      read_into-Merges W.bool Anything false (n * 8 + 0) (bool_case s) s b rest m r laws.bool
        (λ i. refl) finds tt

  pub enum-Merges :
      {E : Type 0} (number : E → ℕ) (of : ℕ → Option E) (n : ℕ) (s : Slot M E) (o : Option E)
      (rest : Text) (m : M) (r : M × Ending)
      → EnumLaws number of
      → Finds p (n * 8 + 0) (enum_case n s of)
      → Keeps s
      → Merges W p rest (s.put (over o (s.get m)) m) r
      → Merges W p (enum_part W number n o ++ rest) m r
  unfolding run
  enum-Merges number of n s none rest m r enum finds keeps = kept-Merges s rest m r keeps
  enum-Merges number of n s (some e) rest m r enum (found, tag) keeps =
      field-Merges W laws p (n * 8 + 0) (enum_case n s of) (W.enum.write (number e)) rest m
        (s.put (some e) m) r found tag
        (ap (λ o. read_enum_into W p n s of o m) (laws.enum.reads (number e) rest (enum e).1)
          ∙ ap (λ o. (set_valid W p n s (number e) m o, some rest)) (enum e).0)

  nested-Merges :
      (t : ℕ) (c : Case M) (touch : M → M) (merge : Text → M → M × Ending) (b rest : Text)
      (m m' : M) (r : M × Ending)
      → ((input : Text)
          → run W p c input m ≡ read_message_into W touch merge (W.read_limit input) m)
      → Finds p t c
      → IsShort b
      → merge b m ≡ (m', whole)
      → Merges W p rest m' r
      → Merges W p ((W.write_tag t ++ W.write_message b) ++ rest) m r
  nested-Merges t c touch merge b rest m m' r runs (found, tag) short merged =
      field-Merges W laws p t c (W.write_message b) rest m m' r found tag (
        runs (W.write_message b ++ rest)
        ∙ ap (λ o. read_message_into W touch merge o m) (laws.message_reads b rest short)
        ∙ ap (λ q. nested q (some rest)) merged)

  -- A nested message, whose bytes merge as `MergeFrom` does.
  pub message-Merges :
      {S : Type 0} {C : Class W S} {Fits : S → Type 0}
      → Codes C Fits
      → (n : ℕ) (s : Slot M S) (o : Option S) (rest : Text) (m : M) (r : M × Ending)
      → Finds p (n * 8 + 2) (optional_case s C.new (run_parser W C.parser))
      → Keeps s
      → After (Nested C Fits) o
      → Merges W p rest (s.put (over_message C.merge_from C.new o (s.get m)) m) r
      → Merges W p (message_part W C.serialize n o ++ rest) m r
  unfolding run
  message-Merges coded n s none rest m r finds keeps ok = kept-Merges s rest m r keeps
  message-Merges {C = C} coded n s (some b) rest m r finds keeps ok =
      nested-Merges (n * 8 + 2) (optional_case s C.new (run_parser W C.parser)) _
        (λ inner m'. put_merged s (run_parser W C.parser inner (or_default C.new (s.get m))) m')
        (C.serialize b) rest m _ r (λ i. refl) finds ok.0
        (ap (λ q. put_merged s q m)
          (merge-serialize W laws coded b ok.1 (or_default C.new (s.get m))))

  -- A repeated nested message; what is parsed into a new message is the one that was written.
  pub messages-Merges :
      {S : Type 0} {C : Class W S} {Fits : S → Type 0}
      → Codes C Fits
      → (n : ℕ) (s : ListSlot M S) (bs : List S) (rest : Text) (m : M) (r : M × Ending)
      → Finds p (n * 8 + 2) (repeated_case s C.new (run_parser W C.parser))
      → ListSlotLaws s
      → All (Nested C Fits) bs
      → Merges W p rest (s.set_elems (s.elems m ++ bs) m) r
      → Merges W p (messages_part W C.serialize n bs ++ rest) m r
  unfolding run
  messages-Merges coded n s [] rest m r finds good ok onward =
      subst (λ v. Merges W p rest v r)
        (ap (λ xs. s.set_elems xs m) (append-nil (s.elems m)) ∙ good.kept m) onward
  messages-Merges {C = C} coded n s (b ∷ bs) rest m r finds good ok onward =
      let m' = s.set_elems (s.elems m ++ b ∷ []) m in
      let one = W.write_tag (n * 8 + 2) ++ W.write_message (C.serialize b) in
      let same : s.set_elems (s.elems m ++ b ∷ bs) m ≡ s.set_elems (s.elems m' ++ bs) m' = sym (
        ap (λ xs. s.set_elems (xs ++ bs) m') (good.got (s.elems m ++ b ∷ []) m)
        ∙ good.twice (s.elems m ++ b ∷ []) ((s.elems m ++ b ∷ []) ++ bs) m
        ∙ ap (λ xs. s.set_elems xs m) (append_assoc (s.elems m) (b ∷ []) bs)) in
      subst (λ input. Merges W p input m r)
        (sym (append_assoc one (messages_part W C.serialize n bs) rest))
        (nested-Merges (n * 8 + 2) (repeated_case s C.new (run_parser W C.parser)) _
          (λ inner m1. add_merged s (run_parser W C.parser inner C.new) m1) (C.serialize b)
          (messages_part W C.serialize n bs ++ rest) m m' r (λ i. refl) finds ok.0.0
          (ap (λ q. add_merged s q m) (parse-serialize W laws coded b ok.0.1))
          (messages-Merges coded n s bs rest m' r finds good ok.1
            (subst (λ v. Merges W p rest v r) same onward)))

  -- Behind the last field: no unknown fields are written.
  pub end-Merges :
      (x : M) (old u : W.Unknown) (rest : Text) (r : M × Ending)
      → u ≡ W.no_fields
      → Merges W p rest (p.set_unknown (W.merge_unknown old u) x) r
      → Merges W p (W.write_unknown u ++ rest) (p.set_unknown old x) r
  end-Merges x old u rest r nothing onward =
      subst (λ v. Merges W p (v ++ rest) (p.set_unknown old x) r)
        (sym (ap W.write_unknown nothing ∙ laws.unknown_writes))
        (subst (λ v. Merges W p rest (p.set_unknown v x) r)
          (ap (W.merge_unknown old) nothing ∙ laws.unknown_merges old) onward)
