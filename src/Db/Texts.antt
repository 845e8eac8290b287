-- ===== src/Db/Texts.antt =====
-- The texts that the loops build, as texts of lists of pairs.
use jira_game.Base.{
  List, Text, [], ap, append-nil, append_assoc, arith, codes, get_elem?, length, map, refl, some,
  suc, sym, ℕ, ◌++◌, ◌+◌, ◌-◌, ◌>>=◌, ◌∙◌, ◌∷◌, ◌≡◌,
}
use jira_game.Db.{
  create_table_text, delete_text, pairs_from, pairs_text, select_where_text, update_text,
}

-- Every text after a separator.
abbrev pub each : Text → List Text → Text
each sep [] = []
each sep (t ∷ ts) = sep ++ t ++ each sep ts

abbrev pub pair_text : Text → Text × Text → Text
pair_text mid (k, v) = k ++ mid ++ v

-- The pairs, with a separator between them.
abbrev pub list_text : Text → Text → Text × Text → List (Text × Text) → Text
list_text sep mid p ps = pair_text mid p ++ each sep (map (pair_text mid) ps)

abbrev pub keys_of : List (Text × Text) → List Text
keys_of = map λ p. p.0

abbrev pub values_of : List (Text × Text) → List Text
values_of = map λ p. p.1

pairs_from-eq :
    (sep mid : Text) (keys values : List Text) (ps : List (Text × Text)) (i : ℕ) (t : Text)
    → ((j : ℕ) → get_elem? keys (i + j) ≡ get_elem? (keys_of ps) j)
    → ((j : ℕ) → get_elem? values (i + j) ≡ get_elem? (values_of ps) j)
    → pairs_from sep mid keys values i (length ps) t ≡ some (t ++ each sep (map (pair_text mid) ps))
unfolding pairs_from
pairs_from-eq sep mid keys values [] i t hk hv = ap some (sym (append-nil t))
pairs_from-eq sep mid keys values ((k, v) ∷ ps) i t hk hv =
    let found_k : get_elem? keys i ≡ some k = ap (get_elem? keys) (omega arith) ∙ hk 0 in
    let found_v : get_elem? values i ≡ some v = ap (get_elem? values) (omega arith) ∙ hv 0 in
    rw (found_k, found_v, ◌>>=◌)
      (pairs_from-eq sep mid keys values ps (suc i) (t ++ sep ++ k ++ mid ++ v)
          (λ j. ap (get_elem? keys) (omega arith) ∙ hk (suc j))
          (λ j. ap (get_elem? values) (omega arith) ∙ hv (suc j))
        ∙ ap some (simp append_assoc))

pairs_text-eq :
    (sep mid : Text) (p : Text × Text) (ps : List (Text × Text)) (t : Text)
    → pairs_text sep mid (keys_of (p ∷ ps)) (values_of (p ∷ ps)) (length (p ∷ ps)) t
      ≡ some (t ++ list_text sep mid p ps)
unfolding pairs_text
pairs_text-eq sep mid (k, v) ps t =
    let e : suc (length ps) - 1 ≡ length ps = omega arith in
    ap (λ n. pairs_from sep mid (k ∷ keys_of ps) (v ∷ values_of ps) 1 n (t ++ k ++ mid ++ v)) e
    ∙ pairs_from-eq sep mid (k ∷ keys_of ps) (v ∷ values_of ps) ps 1 (t ++ k ++ mid ++ v)
        (λ j. let e : 1 + j ≡ suc j = omega arith in ap (get_elem? (k ∷ keys_of ps)) e)
        (λ j. let e : 1 + j ≡ suc j = omega arith in ap (get_elem? (v ∷ values_of ps)) e)
    ∙ ap some (simp append_assoc)

-- For as many values as columns, `SelectWhere` and `Delete` build the statement whose condition is
-- all the equations, joined by `and`, and `CreateTable` the one with all columns and their types.
pub select_where_text-eq :
    (table : Text) (p : Text × Text) (ps : List (Text × Text))
    → let keys = keys_of (p ∷ ps) in
      let values = values_of (p ∷ ps) in
      let condition = list_text (codes " and ") (codes "=") p ps in
      (select_where_text table keys values (length (p ∷ ps))
        ≡ some (codes "select * from " ++ table ++ codes " where " ++ condition ++ codes ";"))
      × (delete_text table keys values (length (p ∷ ps))
          ≡ some (codes "delete from " ++ table ++ codes " where " ++ condition ++ codes ";"))
      × (create_table_text table keys values (length (p ∷ ps))
          ≡ some (
              codes "create table if not exists "
              ++ table
              ++ codes "("
              ++ list_text (codes ",") (codes " ") p ps
              ++ codes ");"))
unfolding select_where_text delete_text create_table_text
select_where_text-eq table p ps = (
  rw (pairs_text-eq (codes " and ") (codes "=") p ps, ◌>>=◌) refl,
  rw (pairs_text-eq (codes " and ") (codes "=") p ps, ◌>>=◌) refl,
  rw (pairs_text-eq (codes ",") (codes " ") p ps, ◌>>=◌) refl,
)

-- `Update` with as many columns to set as conditions builds the statement that sets all of them, with
-- no space before an `and`; the count of the columns to set has no part in it.
pub update_text-eq :
    (table : Text) (c s : Text × Text) (cs ss : List (Text × Text)) (set_count : ℕ)
    → length ss ≡ length cs
    → update_text table
        (keys_of (c ∷ cs))
        (values_of (c ∷ cs))
        (keys_of (s ∷ ss))
        (values_of (s ∷ ss))
        (length (c ∷ cs))
        set_count
      ≡ some (
          codes "update "
          ++ table
          ++ codes " set "
          ++ list_text (codes ",") (codes "=") s ss
          ++ codes " where "
          ++ list_text (codes "and ") (codes "=") c cs
          ++ codes ";")
unfolding update_text
update_text-eq table c s cs ss set_count same =
    let sets : pairs_text (codes ",") (codes "=") (keys_of (s ∷ ss)) (values_of (s ∷ ss))
          (length (c ∷ cs)) (codes "update " ++ table ++ codes " set ")
        ≡ some
            (codes "update " ++ table ++ codes " set " ++ list_text (codes ",") (codes "=") s ss) =
      ap
        (λ n.
          pairs_text (codes ",") (codes "=") (keys_of (s ∷ ss)) (values_of (s ∷ ss)) (suc n)
            (codes "update " ++ table ++ codes " set "))
        (sym same)
      ∙ pairs_text-eq (codes ",") (codes "=") s ss (codes "update " ++ table ++ codes " set ") in
    rw (sets, pairs_text-eq (codes "and ") (codes "=") c cs, ◌>>=◌) refl
