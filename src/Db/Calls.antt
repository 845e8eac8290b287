-- ===== src/Db/Calls.antt =====
-- `CDBServer` of DNW_Server/Server/DBServer/DBServer.cpp: the statements are built, prepared and stepped.
use jira_game.Base.{
  Bool, List, Option, Text, c_str, codes, count, false, if◌then◌else◌, none, some, true, ℕ, ◌++◌,
  ◌+◌, ◌-◌, ◌>>=◌,
}
use jira_game.Db.{create_table_text, delete_text, insert_text, select_where_text, update_text}
use jira_game.Db.Library.{Sqlite, StepResult, done}

-- `m_pSql` and the library. `unreleased` is not in the source: it counts the statements that sqlite
-- has handed out and has not been given back by `sqlite3_finalize`.
pub record DbServer (L : Sqlite) : Type 0 where
  pub m_psql : Option L.Conn
  pub lib : L.Lib
  pub unreleased : ℕ

module _ (L : Sqlite) where
  -- `Open`
  unfoldable pub open_db : Text → DbServer L → Bool × DbServer L
  open_db db d = elim d.m_psql [
    | some c ↦ (true, d)
    | none ↦
        let (conn, ok, lib) = L.open_v2 (codes "DB/" ++ db) d.lib in
        (ok, record d { m_psql = conn; lib = lib })
  ]

  -- `Close`
  unfoldable pub close_db : DbServer L → DbServer L
  close_db d = elim d.m_psql [
    | some c ↦ record d { m_psql = none; lib = L.close_v2 c d.lib }
    | none ↦ d
  ]

  abbrev pub one_if : Option L.Stmt → ℕ
  one_if none = 0
  one_if (some s) = 1

  -- `sqlite3_prepare_v2`: the statement that is written back, and whether the result is `SQLITE_OK`
  unfoldable pub prepare : Text → DbServer L → Option L.Stmt × Bool × DbServer L
  prepare sql d =
      let (stmt, ok, lib) = L.prepare_v2 d.m_psql (c_str sql) d.lib in
      (stmt, ok, record d { lib = lib; unreleased = d.unreleased + one_if stmt })

  -- `sqlite3_step`
  unfoldable pub step : Option L.Stmt → DbServer L → StepResult × DbServer L
  step stmt d = let (result, lib) = L.step stmt d.lib in (result, record d { lib = lib })

  -- `ReleasemStmt`, and every other `sqlite3_finalize`
  unfoldable pub release : Option L.Stmt → DbServer L → DbServer L
  release stmt d = record d { lib = L.finalize stmt d.lib; unreleased = d.unreleased - one_if stmt }

  -- `SqlExec`, and the ends of `Select` and `SelectWhere`
  unfoldable pub sql_exec : Text → DbServer L → Option L.Stmt × DbServer L
  sql_exec sql d = let (stmt, ok, d') = prepare sql d in (if ok then stmt else none, d')

  -- The ends of `CreateTable`, `DropTable`, `Delete` and `Update`.
  unfoldable pub run_sql : Text → DbServer L → DbServer L
  run_sql sql d =
      let (stmt, ok, d') = prepare sql d in release stmt (if ok then (step stmt d').1 else d')

  abbrev pub is_done : StepResult → Bool
  is_done done = true
  is_done _ = false

  -- The end of `Insert`, which looks at the statement and not at the result.
  unfoldable pub insert_sql : Text → DbServer L → Bool × DbServer L
  insert_sql sql d =
      let (stmt, ok, d') = prepare sql d in
      elim stmt [
        | none ↦ (false, release none d')
        | some s ↦ let (result, d'') = step (some s) d' in (is_done result, release (some s) d'')
      ]

  -- `none` is an array that is shorter than its count.
  unfoldable pub create_table : Text → List Text → List Text → ℕ → DbServer L → Option (DbServer L)
  create_table table keys types count d =
      create_table_text table keys types count >>= λ sql. some (run_sql sql d)

  unfoldable pub drop_table : Text → DbServer L → DbServer L
  drop_table table d = run_sql (codes "drop table " ++ table) d

  unfoldable pub insert_into :
      Text → List Text → List Text → ℕ → DbServer L → Option (Bool × DbServer L)
  insert_into table keys values count d =
      insert_text table keys values count >>= λ sql. some (insert_sql sql d)

  unfoldable pub delete : Text → List Text → List Text → ℕ → DbServer L → Option (DbServer L)
  delete table keys values count d =
      delete_text table keys values count >>= λ sql. some (run_sql sql d)

  unfoldable pub update :
      Text
      → List Text
      → List Text
      → List Text
      → List Text
      → ℕ
      → ℕ
      → DbServer L
      → Option (DbServer L)
  update table keys values set_keys set_values count set_count d =
      update_text table keys values set_keys set_values count set_count >>= λ sql.
      some (run_sql sql d)

  unfoldable pub select : Text → DbServer L → Option L.Stmt × DbServer L
  select table d = sql_exec (codes "select * from " ++ table) d

  unfoldable pub select_where :
      Text → List Text → List Text → ℕ → DbServer L → Option (Option L.Stmt × DbServer L)
  select_where table keys values count d =
      select_where_text table keys values count >>= λ sql. some (sql_exec sql d)
