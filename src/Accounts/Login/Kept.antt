-- ===== src/Accounts/Login/Kept.antt =====
-- The statements that a login gets from sqlite and gives back.
use jira_game.Base.{
  After, After->>=, After-some, List, Option, Option-cases, Text, arith, false, inl, inr, none,
  some, some_inj, subst, sym, ℕ, ◌+◌, ◌>>=◌, ◌∙◌, ◌≡◌,
}
use jira_game.Proto.{LoginRequest, LoginReturn, PlayerInfo}
use jira_game.Db.Library.{Sqlite, StepResult, done, failed, row}
use jira_game.Db.Calls.{DbServer, one_if, open_db, run_sql, sql_exec}
use jira_game.Db.Statements.{
  Held, close_db-Held, open_db-Held, release-Held, run_sql-Held, sql_exec-Held, step-Held,
}
use jira_game.World.{World}
use jira_game.Utl.{genrate_random_id}
use jira_game.Accounts.Rows.{dnw_db}
use jira_game.Accounts.Statements.{read_rows-Held}
use jira_game.Accounts.Login.{
  logged_in, login_end, login_failed, login_logic, login_query, login_roles, role_query,
}
use jira_game.Accounts.Login.Query.{login_text}
use jira_game.Accounts.Login.Outcome.{login_query-eq, new_session, session_update, update_session}

module _ (L : Sqlite)
    (null_on_error : (c : Option L.Conn) (sql : Text) (lib : L.Lib)
      → (L.prepare_v2 c sql lib).1 ≡ false
      → (L.prepare_v2 c sql lib).0 ≡ none) where
  login_roles-Held :
      (n fuel : ℕ) (user : Text) (d : DbServer L)
      → Held L n d
      → After
          (λ r. Held L (n + one_if L (sql_exec L (role_query user) d).0) r.1)
          (login_roles L fuel user d)
  unfolding login_roles
  login_roles-Held n fuel user d h =
      let held = sql_exec-Held L null_on_error n (role_query user) d h in
      elim (Option-cases (sql_exec L (role_query user) d).0) [
        | inl nothing ↦ rw (nothing, login_roles) (rw nothing at held)
        | inr (s, prepared) ↦
            rw (prepared, login_roles)
              (read_rows-Held L null_on_error _ fuel _ (some s) _ (rw prepared at held))
      ]

  -- 1 where the user is found and the query for the roles gives a statement.
  abbrev pub kept : StepResult → LoginRequest → World → DbServer L → ℕ
  kept row req w d =
      let updated = run_sql L (session_update req.user_name (new_session req w)) d in
      one_if L (sql_exec L (role_query req.user_name) updated).0
  kept _ req w d = 0

  logged_in-Held :
      (n fuel socket : ℕ) (req : LoginRequest) (w : World) (d : DbServer L)
      → Held L n d
      → After
          (λ (r : LoginReturn × World × DbServer L). Held L (n + kept row req w d) r.2)
          (logged_in L fuel socket req w d)
  unfolding logged_in genrate_random_id
  logged_in-Held n fuel socket req w d h =
      let d1 = run_sql L (session_update req.user_name (new_session req w)) d in
      let h1 = run_sql-Held L null_on_error n _ d h in
      rw (update_session L req.user_name (new_session req w) d, ◌>>=◌)
        (After->>= (λ (r : LoginReturn × World × DbServer L). Held L (n + kept row req w d) r.2)
          (login_roles L fuel req.user_name d1) _
          (λ (ps, d2) e.
            After-some (λ (r : List PlayerInfo × DbServer L). Held L (n + kept row req w d) r.1) _
              (login_roles-Held n fuel req.user_name d1 h1) e))

  login_end-Held :
      (n m socket : ℕ) (stmt : Option L.Stmt) (reply : LoginReturn) (w : World) (d : DbServer L)
      → Held L (n + one_if L stmt + m) d
      → Held L (n + m) (login_end L socket stmt reply w d).1
  unfolding login_end
  login_end-Held n m socket stmt reply w d h =
      close_db-Held L null_on_error (n + m) _
        (release-Held L null_on_error (n + m) stmt d (omega (arith, h)))

  login_query-Held :
      (n : ℕ) (req : LoginRequest) (result : StepResult) (stmt : Option L.Stmt) (d d1 : DbServer L)
      → login_query L req d ≡ some (result, stmt, d1)
      → Held L n d
      → Held L (n + one_if L stmt) d1
  login_query-Held n req result stmt d d1 hq h =
      let (stmt', d2) = sql_exec L (login_text req) (open_db L dnw_db d).1 in
      let h2 =
        sql_exec-Held L null_on_error n (login_text req) _ (open_db-Held L null_on_error n _ d h) in
      let h3 = step-Held L null_on_error _ stmt' d2 h2 in
      let e = some_inj (sym (login_query-eq L req d) ∙ hq) in
      subst (λ (r : StepResult × Option L.Stmt × DbServer L). Held L (n + one_if L r.1) r.2) e h3

  -- Where sqlite gives no statement after an error of sqlite3_prepare_v2: once a login has asked
  -- for the name and the password, it gives back the statement of this query, but not that of the
  -- query for the roles: where the user is found and that query could be prepared, a login that
  -- returns leaves one statement more behind, and otherwise as many as there were.
  pub login_logic-Held :
      (n fuel socket : ℕ) (req : LoginRequest) (w : World) (result : StepResult)
      (stmt : Option L.Stmt) (d d1 : DbServer L)
      → login_query L req d ≡ some (result, stmt, d1)
      → Held L n d
      → After (λ r. Held L (n + kept result req w d1) r.1) (login_logic L fuel socket req w d)
  unfolding login_logic
  login_logic-Held n fuel socket req w done stmt d d1 hq h =
      rw (hq, ◌>>=◌, After)
        (login_end-Held n 0 socket stmt (login_failed L) w d1
          (omega (arith, login_query-Held n req done stmt d d1 hq h)))
  login_logic-Held n fuel socket req w failed stmt d d1 hq h =
      rw (hq, ◌>>=◌, After)
        (login_end-Held n 0 socket stmt (login_failed L) w d1
          (omega (arith, login_query-Held n req failed stmt d d1 hq h)))
  login_logic-Held n fuel socket req w row stmt d d1 hq h =
      let h1 = login_query-Held n req row stmt d d1 hq h in
      rw (hq, ◌>>=◌, After)
        (After->>= (λ (r : World × DbServer L). Held L (n + kept row req w d1) r.1)
          (logged_in L fuel socket req w d1) _
          (λ (reply, w', d2) e. login_end-Held n (kept row req w d1) socket stmt reply w' d2 (
            After-some
              (λ (r : LoginReturn × World × DbServer L).
                Held L (n + one_if L stmt + kept row req w d1) r.2)
              _ (logged_in-Held _ fuel socket req w d1 h1) e)))
