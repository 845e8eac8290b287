-- ===== src/Accounts/Returning.antt =====
-- When the creation and the selection of a role return.
use jira_game.Base.{
  Bool, Bool-cases, Option, Returns, Text, arith, inl, inr, is_empty, not, refl, suc, true, ℕ, ◌&&◌,
  ◌<◌, ◌>>=◌, ◌≡◌,
}
use jira_game.Proto.{CreateRoleRequest, SelectRoleRequest}
use jira_game.World.{World}
use jira_game.Cache.{check_session_valid}
use jira_game.Db.Library.{Sqlite, StepResult, done, failed, row, step-cases}
use jira_game.Db.Calls.{DbServer, create_table, insert_into, insert_sql, open_db, sql_exec, step}
use jira_game.Accounts.Rows.{dnw_db, named_role}
use jira_game.Accounts.Login.Total.{read_rows_total}
use jira_game.Accounts.SelectRole.{select_logic, select_query, select_role, selected_user}
use jira_game.Accounts.CreateRole.{
  create_for_user, create_logic, create_role, insert_role, is_row, roles_query,
}
use jira_game.Accounts.CreateRole.Stages.{
  by_session, by_type, create_table_text-players, insert_text-role, new_role_text,
}

row_of_guard : (r : StepResult) (b : Bool) → (is_row r && b) ≡ true → r ≡ row
row_of_guard row b h = refl
row_of_guard done b h = absurd (cc h)
row_of_guard failed b h = absurd (cc h)

module _ (L : Sqlite) (left : L.Lib → ℕ)
    (fewer : (stmt : Option L.Stmt) (lib : L.Lib)
      → (L.step stmt lib).0 ≡ row
      → left (L.step stmt lib).1 < left lib) where
  insert_role_total :
      (id : ℕ) (req : CreateRoleRequest) (user : Text) (d : DbServer L)
      → (fuel : ℕ) × Returns (insert_role L fuel id req user d)
  unfolding insert_role insert_into
  insert_role_total id req user d =
      let (inserted, d1) = insert_sql L (new_role_text id req) d in
      elim (Bool-cases inserted) [
        | inl ok ↦
            let (stmt, d2) = sql_exec L (roles_query user) d1 in
            let (r, read) =
              read_rows_total L left fewer (suc (left d2.lib)) (named_role L stmt) stmt d2
                (omega arith) in
            (suc (left d2.lib), rw (insert_text-role id req, ◌>>=◌, ok, read) (_, refl))
        | inr refused ↦ (0, rw (insert_text-role id req, ◌>>=◌, refused) (_, refl))
      ]

  create_for_user_total :
      (req : CreateRoleRequest) (stmt : Option L.Stmt) (d : DbServer L)
      → Returns (L.column_text stmt 1 d.lib)
      → (fuel : ℕ) × Returns (create_for_user L fuel req stmt d)
  unfolding create_for_user
  create_for_user_total req stmt d (user, text) =
      let (result, d4) = by_type L req user stmt d in
      elim (Bool-cases (is_row result)) [
        | inl has ↦ (0, rw (text, ◌>>=◌, has) (_, refl))
        | inr fresh ↦
            let (fuel, made) = insert_role_total (L.column_int stmt 0 d.lib) req user d4 in
            (fuel, rw (text, ◌>>=◌, fresh) made)
      ]

  -- The user that the creation of a role looks up by the session id has a name, if there is one.
  abbrev pub UserNamed : CreateRoleRequest → DbServer L → Type 0
  UserNamed req d =
      let (stmt, result, d3) = by_session L req d in
      result ≡ row → Returns (L.column_text stmt 1 d3.lib)

  -- The role that a selection looks up has a name, if there is one.
  abbrev pub RoleNamed : SelectRoleRequest → DbServer L → Type 0
  RoleNamed req d =
      let (stmt, d2) = sql_exec L (select_query req) (open_db L dnw_db d).1 in
      let (result, d3) = step L stmt d2 in result ≡ row → Returns (L.column_text stmt 1 d3.lib)

  create_role_total :
      (req : CreateRoleRequest) (d : DbServer L)
      → UserNamed req d
      → (fuel : ℕ) × Returns (create_role L fuel req d)
  unfolding create_role create_table
  create_role_total req d named =
      let (stmt, result, d3) = by_session L req d in
      elim (Bool-cases (is_row result && not (is_empty req.player_info.name))) [
        | inl asked ↦
            let (fuel, (r, made)) =
              create_for_user_total req stmt d3 (named (row_of_guard result _ asked)) in
            (fuel, rw (create_table_text-players, ◌>>=◌, asked, made) (_, refl))
        | inr refused ↦ (0, rw (create_table_text-players, ◌>>=◌, refused) (_, refl))
      ]

  create_logic_total :
      (socket : ℕ) (req : CreateRoleRequest) (w : World) (d : DbServer L)
      → UserNamed req d
      → (fuel : ℕ) × Returns (create_logic L fuel socket req w d)
  unfolding create_logic
  create_logic_total socket req w d named =
      elim (Bool-cases (check_session_valid socket req.session_id w.cache)) [
        | inl valid ↦
            let (fuel, (r, made)) = create_role_total req d named in
            (fuel, rw (valid, made, ◌>>=◌) (_, refl))
        | inr invalid ↦ (0, rw (invalid, ◌>>=◌) (_, refl))
      ]

  selected_user_total :
      (stmt : Option L.Stmt) (result : StepResult) (d : DbServer L)
      → (result ≡ row → Returns (L.column_text stmt 1 d.lib))
      → Returns (selected_user L stmt result d)
  unfolding selected_user
  selected_user_total stmt result d named = elim (step-cases result) [
    | inl found ↦ let (name, text) = named found in rw (found, text, ◌>>=◌) (_, refl)
    | inr (inl over) ↦ rw over (_, refl)
    | inr (inr wrong) ↦ rw wrong (_, refl)
  ]

  select_logic_total :
      (socket : ℕ) (req : SelectRoleRequest) (w : World) (d : DbServer L)
      → RoleNamed req d
      → Returns (select_logic L socket req w d)
  unfolding select_logic select_role
  select_logic_total socket req w d named =
      elim (Bool-cases (check_session_valid socket req.session_id w.cache)) [
        | inl valid ↦
            let (stmt, d2) = sql_exec L (select_query req) (open_db L dnw_db d).1 in
            let (result, d3) = step L stmt d2 in
            let (user, read) = selected_user_total stmt result d3 named in
            rw (valid, read, ◌>>=◌) (_, refl)
        | inr invalid ↦ rw invalid (_, refl)
      ]

  -- Where no statement gives rows without end: every creation of a role returns, within some number of
  -- rows read, if the row that its look-up of the session id gives has no NULL in the second column, the
  -- user's name; and every selection of a role returns, if the row that its query gives has no NULL in
  -- the second column, the role's name. A look-up without a row is no condition.
  pub roles_return :
      (socket : ℕ) (new : CreateRoleRequest) (sel : SelectRoleRequest) (w : World) (d : DbServer L)
      → UserNamed new d
      → RoleNamed sel d
      → ((fuel : ℕ) × Returns (create_logic L fuel socket new w d))
        × Returns (select_logic L socket sel w d)
  roles_return socket new sel w d user role =
      (create_logic_total socket new w d user, select_logic_total socket sel w d role)
