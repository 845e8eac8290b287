-- ===== src/Db/Statements.antt =====
-- The statements that the calls of sqlite hand out and give back.
use jira_game.Base.{
  After, After->>=, Bool-cases, List, Option, Option-cases, Text, arith, c_str, count, false, inl,
  inr, none, some, ℕ, ◌+◌, ◌≡◌,
}
use jira_game.Db.Library.{Sqlite}
use jira_game.Db.Calls.{
  DbServer, close_db, create_table, insert_into, insert_sql, one_if, open_db, prepare, release,
  run_sql, sql_exec, step,
}
use jira_game.Db.{create_table_text, insert_text}

-- The number of statements that are not given back.
abbrev pub Held : (L : Sqlite) → ℕ → DbServer L → Type 0
Held L n d = d.unreleased ≡ n

-- After an error of `sqlite3_prepare_v2` the statement is NULL, as sqlite documents.
module _ (L : Sqlite)
    (null_on_error : (c : Option L.Conn) (sql : Text) (lib : L.Lib)
      → (L.prepare_v2 c sql lib).1 ≡ false
      → (L.prepare_v2 c sql lib).0 ≡ none) where
  pub run_sql-Held : (n : ℕ) (sql : Text) (d : DbServer L) → Held L n d → Held L n (run_sql L sql d)
  unfolding run_sql prepare step release
  run_sql-Held n sql d h = elim (Bool-cases (L.prepare_v2 d.m_psql (c_str sql) d.lib).1) [
    | inl ok ↦ rw ok (omega (arith, h))
    | inr wrong ↦ rw wrong (omega (arith, h))
  ]

  pub release-Held :
      (n : ℕ) (stmt : Option L.Stmt) (d : DbServer L)
      → Held L (n + one_if L stmt) d
      → Held L n (release L stmt d)
  unfolding release
  release-Held n stmt d h = omega (arith, h)

  pub step-Held :
      (n : ℕ) (stmt : Option L.Stmt) (d : DbServer L) → Held L n d → Held L n (step L stmt d).1
  unfolding step
  step-Held n stmt d h = h

  pub prepare-Held :
      (n : ℕ) (sql : Text) (d : DbServer L)
      → Held L n d
      → Held L (n + one_if L (prepare L sql d).0) (prepare L sql d).2
  unfolding prepare
  prepare-Held n sql d h = omega (arith, h)

  pub insert_sql-Held :
      (n : ℕ) (sql : Text) (d : DbServer L) → Held L n d → Held L n (insert_sql L sql d).1
  unfolding insert_sql
  insert_sql-Held n sql d h =
      let p = prepare-Held n sql d h in
      elim (Option-cases (prepare L sql d).0) [
        | inl nothing ↦ rw (nothing, insert_sql) (release-Held n none _ (rw nothing at p))
        | inr (s, prepared) ↦
            rw (prepared, insert_sql)
              (release-Held n (some s) _ (step-Held _ (some s) _ (rw prepared at p)))
      ]

  pub sql_exec-Held :
      (n : ℕ) (sql : Text) (d : DbServer L)
      → Held L n d
      → Held L (n + one_if L (sql_exec L sql d).0) (sql_exec L sql d).1
  unfolding sql_exec prepare
  sql_exec-Held n sql d h = elim (Bool-cases (L.prepare_v2 d.m_psql (c_str sql) d.lib).1) [
    | inl ok ↦ rw ok (omega (arith, h))
    | inr wrong ↦ rw (wrong, null_on_error d.m_psql (c_str sql) d.lib wrong) (omega (arith, h))
  ]

  pub open_db-Held : (n : ℕ) (db : Text) (d : DbServer L) → Held L n d → Held L n (open_db L db d).1
  unfolding open_db
  open_db-Held n db d h = ground (arith, h)

  pub close_db-Held : (n : ℕ) (d : DbServer L) → Held L n d → Held L n (close_db L d)
  unfolding close_db
  close_db-Held n d h = ground (arith, h)

  pub create_table-Held :
      (n : ℕ) (table : Text) (keys types : List Text) (count : ℕ) (d : DbServer L)
      → Held L n d
      → After (Held L n) (create_table L table keys types count d)
  unfolding create_table
  create_table-Held n table keys types count d h =
      After->>= (Held L n) (create_table_text table keys types count) _
        (λ sql e. run_sql-Held n sql d h)

  pub insert_into-Held :
      (n : ℕ) (table : Text) (keys values : List Text) (count : ℕ) (d : DbServer L)
      → Held L n d
      → After (λ r. Held L n r.1) (insert_into L table keys values count d)
  unfolding insert_into
  insert_into-Held n table keys values count d h =
      After->>= (λ r. Held L n r.1) (insert_text table keys values count) _
        (λ sql e. insert_sql-Held n sql d h)

  -- A statement that is asked for, stepped and given back.
  pub asked-Held :
      (n : ℕ) (sql : Text) (d : DbServer L)
      → Held L n d
      → (let (stmt, d') = sql_exec L sql d in Held L n (release L stmt (step L stmt d').1))
  asked-Held n sql d h = release-Held n _ _ (step-Held _ _ _ (sql_exec-Held n sql d h))
