-- ===== src/Accounts/Statements.antt =====
-- The statements that the scenes for accounts get from sqlite and give back.
use jira_game.Base.{
  After, After->>=, After-if, After-some, Bool, Bool-cases, Option, Text, false, if◌then◌else◌, inl,
  inr, is_empty, none, not, some, suc, true, zero, ℕ, ◌&&◌, ◌+◌, ◌≡◌,
}
use jira_game.Proto.{
  CreateRoleRequest, CreateRoleReturn, PlayerInfo, RegisterRequest, SelectRoleRequest,
}
use jira_game.Db.Library.{Sqlite, step-cases}
use jira_game.Db.Calls.{
  DbServer, create_table, insert_into, one_if, open_db, release, sql_exec, step,
}
use jira_game.Accounts.Rows.{dnw_db, read_rows}
use jira_game.Accounts.Register.{
  insert_user, is_new_user, link_query, link_user, register_logic, user_query,
}
use jira_game.World.{World}
use jira_game.Cache.{check_session_valid}
use jira_game.Accounts.SelectRole.{select_logic, select_query, select_role, selected_user}
use jira_game.Accounts.CreateRole.{
  create_failed, create_for_user, create_logic, create_role, has_role_query, insert_role, is_row,
  session_query,
}
use jira_game.Db.Statements.{
  Held, asked-Held, close_db-Held, create_table-Held, insert_into-Held, open_db-Held, release-Held,
  sql_exec-Held, step-Held,
}

-- After an error of `sqlite3_prepare_v2` the statement is NULL, as sqlite documents.
module _ (L : Sqlite)
    (null_on_error : (c : Option L.Conn) (sql : Text) (lib : L.Lib)
      → (L.prepare_v2 c sql lib).1 ≡ false
      → (L.prepare_v2 c sql lib).0 ≡ none) where
  pub read_rows-Held :
      (n fuel : ℕ) (read : L.Lib → PlayerInfo) (stmt : Option L.Stmt) (d : DbServer L)
      → Held L n d
      → After (λ r. Held L n r.1) (read_rows L fuel read stmt d)
  unfolding read_rows step
  read_rows-Held n zero read stmt d h = tt
  read_rows-Held n (suc fuel) read stmt d h =
      let d' = record d { lib = (L.step stmt d.lib).1 } in
      elim (step-cases (L.step stmt d.lib).0) [
        | inl more ↦
            rw (more, read_rows, After)
              (After->>= (λ r. Held L n r.1) (read_rows L fuel read stmt d') _
                (λ r e. After-some (λ r. Held L n r.1) _ (read_rows-Held n fuel read stmt d' h) e))
        | inr (inl over) ↦ rw (over, read_rows) h
        | inr (inr wrong) ↦ rw (wrong, read_rows) h
      ]

  is_new_user-Held :
      (n : ℕ) (stmt : Option L.Stmt) (d : DbServer L)
      → Held L n d
      → Held L n (is_new_user L stmt d).1
  unfolding is_new_user
  is_new_user-Held n none d h = h
  is_new_user-Held n (some s) d h = step-Held L null_on_error n (some s) d h

  insert_user-Held :
      (n : ℕ) (req : RegisterRequest) (is_new : Bool) (d : DbServer L)
      → Held L n d
      → After (λ r. Held L n r.1) (insert_user L req is_new d)
  unfolding insert_user
  insert_user-Held n req true d h = insert_into-Held L null_on_error n _ _ _ _ d h
  insert_user-Held n req false d h = h

  link_user-Held :
      (n : ℕ) (user : Text) (d : DbServer L) → Held L n d → Held L n (link_user L user d)
  unfolding link_user
  link_user-Held n user d h = asked-Held L null_on_error n (link_query user) d h

  select_logic-Held :
      (n socket : ℕ) (req : SelectRoleRequest) (w : World) (d : DbServer L)
      → Held L n d
      → After (λ r. Held L n r.1) (select_logic L socket req w d)
  unfolding select_logic select_role
  select_logic-Held n socket req w d h =
      elim (Bool-cases (check_session_valid socket req.session_id w.cache)) [
        | inl valid ↦
            rw (valid, if◌then◌else◌)
              (After->>= (λ r. Held L n r.1) (selected_user L _ _ _) _
                (λ user e. close_db-Held L null_on_error n _ (
                  asked-Held L null_on_error n (select_query req) _
                    (open_db-Held L null_on_error n _ d h))))
        | inr wrong ↦ rw (wrong, if◌then◌else◌) h
      ]

  insert_role-Held :
      (n fuel id : ℕ) (req : CreateRoleRequest) (user : Text) (d : DbServer L)
      → Held L n d
      → After (λ r. Held L n r.1) (insert_role L fuel id req user d)
  unfolding insert_role
  insert_role-Held n fuel id req user d h =
      After->>= (λ r. Held L n r.1) (insert_into L _ _ _ _ d) _
        (λ (inserted, d1) e.
          let h1 =
            After-some (λ r. Held L n r.1) _ (insert_into-Held L null_on_error n _ _ _ _ d h) e in
          After-if (λ r. Held L n r.1) inserted _ _
            (λ yes.
              After->>= (λ r. Held L n r.1) (read_rows L fuel _ _ _) _
                (λ (ps, d2) e2. release-Held L null_on_error n _ _ (
                  After-some (λ r. Held L _ r.1) _
                    (read_rows-Held _ fuel _ _ _ (sql_exec-Held L null_on_error n _ d1 h1)) e2)))
            (λ no. h1))

  create_for_user-Held :
      (n fuel : ℕ) (req : CreateRoleRequest) (stmt : Option L.Stmt) (d : DbServer L)
      → Held L (n + one_if L stmt) d
      → After (λ r. Held L n r.1) (create_for_user L fuel req stmt d)
  unfolding create_for_user
  create_for_user-Held n fuel req stmt d h =
      After->>= (λ r. Held L n r.1) (L.column_text stmt 1 d.lib) _
        (λ user e.
          let d1 = release L stmt d in
          let sql = has_role_query req.player_info.role_type user in
          let h4 = asked-Held L null_on_error n sql d1 (release-Held L null_on_error n stmt d h) in
          let (stmt2, d2) = sql_exec L sql d1 in
          let (result, d3) = step L stmt2 d2 in
          let d4 = release L stmt2 d3 in
          let id = L.column_int stmt 0 d.lib in
          After-if (λ r. Held L n r.1) (is_row result) (some (create_failed, d4))
            (insert_role L fuel id req user d4) (λ yes. h4)
            (λ no. insert_role-Held n fuel id req user d4 h4))

  create_role-Held :
      (n fuel : ℕ) (req : CreateRoleRequest) (d : DbServer L)
      → Held L n d
      → After (λ r. Held L n r.1) (create_role L fuel req d)
  unfolding create_role
  create_role-Held n fuel req d h =
      After->>= (λ r. Held L n r.1) (create_table L _ _ _ _ (open_db L dnw_db d).1) _
        (λ d1 e1.
          let h1 =
            After-some (Held L n) _
              (create_table-Held L null_on_error n _ _ _ _ _ (open_db-Held L null_on_error n _ d h))
              e1 in
          let (stmt, d2) = sql_exec L (session_query req.session_id) d1 in
          let h2 = sql_exec-Held L null_on_error n (session_query req.session_id) d1 h1 in
          let h3 = step-Held L null_on_error _ stmt d2 h2 in
          After->>= (λ (r : CreateRoleReturn × DbServer L). Held L n r.1) _ _
            (λ (reply, d4) e4. close_db-Held L null_on_error n d4 (
              After-some (λ (r : CreateRoleReturn × DbServer L). Held L n r.1) _
                (After-if (λ (r : CreateRoleReturn × DbServer L). Held L n r.1)
                  (is_row (step L stmt d2).0 && not (is_empty req.player_info.name))
                  (create_for_user L fuel req stmt (step L stmt d2).1)
                  (some (create_failed, release L stmt (step L stmt d2).1))
                  (λ yes. create_for_user-Held n fuel req stmt _ h3)
                  (λ no. release-Held L null_on_error n stmt _ h3))
                e4)))

  create_logic-Held :
      (n fuel socket : ℕ) (req : CreateRoleRequest) (w : World) (d : DbServer L)
      → Held L n d
      → After (λ r. Held L n r.1) (create_logic L fuel socket req w d)
  unfolding create_logic
  create_logic-Held n fuel socket req w d h =
      After->>= (λ (r : World × DbServer L). Held L n r.1) _ _
        (λ (reply, d') e.
          After-some (λ (r : CreateRoleReturn × DbServer L). Held L n r.1) _
            (After-if (λ (r : CreateRoleReturn × DbServer L). Held L n r.1)
              (check_session_valid socket req.session_id w.cache) (create_role L fuel req d)
              (some (create_failed, d)) (λ yes. create_role-Held n fuel req d h) (λ no. h))
            e)

  register_logic-Held :
      (n socket : ℕ) (req : RegisterRequest) (w : World) (d : DbServer L)
      → Held L n d
      → After (λ r. Held L n r.1) (register_logic L socket req w d)
  unfolding register_logic
  register_logic-Held n socket req w d h =
      After->>= (λ r. Held L n r.1) (create_table L _ _ _ _ (open_db L dnw_db d).1) _
        (λ d1 e1.
          let h1 =
            After-some (Held L n) _
              (create_table-Held L null_on_error n _ _ _ _ _ (open_db-Held L null_on_error n _ d h))
              e1 in
          let h2 = sql_exec-Held L null_on_error n (user_query req.user_name) d1 h1 in
          let h3 = is_new_user-Held _ _ _ h2 in
          After->>= (λ r. Held L n r.1) (insert_user L req _ _) _
            (λ (inserted, d4) e4.
              let h4 = After-some (λ r. Held L _ r.1) _ (insert_user-Held _ req _ _ h3) e4 in
              close_db-Held L null_on_error n _
                (link_user-Held n req.user_name _ (release-Held L null_on_error n _ _ h4))))

  -- Where sqlite gives no statement after an error of sqlite3_prepare_v2: a registration, the selection
  -- of a role and the creation of a role, if they return, have given back every statement that they got
  -- from sqlite, whatever else it answers.
  pub accounts-Held :
      (n fuel socket : ℕ) (reg : RegisterRequest) (sel : SelectRoleRequest)
      (new : CreateRoleRequest) (w : World) (d : DbServer L)
      → Held L n d
      → After (λ r. Held L n r.1) (register_logic L socket reg w d)
        × After (λ r. Held L n r.1) (select_logic L socket sel w d)
        × After (λ r. Held L n r.1) (create_logic L fuel socket new w d)
  accounts-Held n fuel socket reg sel new w d h = (
    register_logic-Held n socket reg w d h,
    select_logic-Held n socket sel w d h,
    create_logic-Held n fuel socket new w d h,
  )
