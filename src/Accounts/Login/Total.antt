-- ===== src/Accounts/Login/Total.antt =====
-- When a login returns.
use jira_game.Base.{
  Option, Option-cases, Returns, Text, arith, inl, inr, refl, some, suc, zero, ℕ, ◌<◌, ◌>>=◌, ◌≡◌,
}
use jira_game.Proto.{LoginRequest, PlayerInfo}
use jira_game.Db.Library.{Sqlite, StepResult, done, failed, row, step-cases}
use jira_game.Db.Calls.{DbServer, run_sql, sql_exec, step}
use jira_game.Accounts.Rows.{read_rows, user_role}
use jira_game.World.{World}
use jira_game.Utl.{genrate_random_id}
use jira_game.Accounts.Login.{logged_in, login_logic, login_query, login_roles, role_query}
use jira_game.Accounts.Login.Outcome.{login_query-eq, new_session, session_update, update_session}

module _ (L : Sqlite) (left : L.Lib → ℕ)
    (fewer : (stmt : Option L.Stmt) (lib : L.Lib)
      → (L.step stmt lib).0 ≡ row
      → left (L.step stmt lib).1 < left lib) where
  pub read_rows_total :
      (n : ℕ) (read : L.Lib → PlayerInfo) (stmt : Option L.Stmt) (d : DbServer L)
      → left d.lib < n
      → Returns (read_rows L n read stmt d)
  unfolding read_rows step
  read_rows_total zero read stmt d small = elim small [ ]
  read_rows_total (suc n) read stmt d small = elim (step-cases (L.step stmt d.lib).0) [
    | inl more ↦
        let (r, rest) =
          read_rows_total n read stmt (record d { lib = (L.step stmt d.lib).1 })
            (omega (arith, fewer stmt d.lib more)) in
        rw (more, read_rows, rest, ◌>>=◌) (_, refl)
    | inr (inl over) ↦ rw (over, read_rows) (_, refl)
    | inr (inr wrong) ↦ rw (wrong, read_rows) (_, refl)
  ]

  login_roles_total :
      (user : Text) (d : DbServer L) → (fuel : ℕ) × Returns (login_roles L fuel user d)
  unfolding login_roles
  login_roles_total user d = elim (Option-cases (sql_exec L (role_query user) d).0) [
    | inl nothing ↦ (0, rw (nothing, login_roles) (_, refl))
    | inr (s, prepared) ↦
        let d' = (sql_exec L (role_query user) d).1 in
        let (r, read) =
          read_rows_total (suc (left d'.lib)) (user_role L (some s)) (some s) d' (omega arith) in
        (suc (left d'.lib), (r, rw (prepared, login_roles) read))
  ]

  logged_in_total :
      (socket : ℕ) (req : LoginRequest) (w : World) (d : DbServer L)
      → (fuel : ℕ) × Returns (logged_in L fuel socket req w d)
  unfolding logged_in genrate_random_id
  logged_in_total socket req w d =
      let updated = update_session L req.user_name (new_session req w) d in
      let (fuel, (r, read)) =
        login_roles_total req.user_name
          (run_sql L (session_update req.user_name (new_session req w)) d) in
      (fuel, rw (updated, ◌>>=◌, read) (_, refl))

  from_query :
      (socket : ℕ) (req : LoginRequest) (w : World) (d : DbServer L) (result : StepResult)
      (stmt : Option L.Stmt) (d1 : DbServer L)
      → login_query L req d ≡ some (result, stmt, d1)
      → (fuel : ℕ) × Returns (login_logic L fuel socket req w d)
  unfolding login_logic
  from_query socket req w d row stmt d1 asked =
      let (fuel, (r, run)) = logged_in_total socket req w d1 in
      (fuel, rw (asked, ◌>>=◌, run) (_, refl))
  from_query socket req w d done stmt d1 asked = (0, rw (asked, ◌>>=◌) (_, refl))
  from_query socket req w d failed stmt d1 asked = (0, rw (asked, ◌>>=◌) (_, refl))

  -- Where no statement gives rows without end, every login returns, within some number of rows read.
  pub login_logic_total :
      (socket : ℕ) (req : LoginRequest) (w : World) (d : DbServer L)
      → (fuel : ℕ) × Returns (login_logic L fuel socket req w d)
  login_logic_total socket req w d = from_query socket req w d _ _ _ (login_query-eq L req d)
