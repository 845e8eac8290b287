-- ===== src/Accounts/CreateRole/Outcome.antt =====
-- How the creation of a role ends.
use jira_game.Base.{
  >>=-eq-some, After, After->>=, After-if, After-map, After-some, Bool-cases, Option, Text, ap,
  arith, false, if◌then◌else◌, inl, inr, is_empty, none, not, some, some_inj, subst, sym, true, ℕ,
  ◌&&◌, ◌>>=◌, ◌≡◌, ◌⊎◌,
}
use jira_game.Proto.{CreateRoleRequest, CreateRoleReturn}
use jira_game.World.{World}
use jira_game.Cache.{check_session_valid}
use jira_game.Db.Library.{Sqlite}
use jira_game.Db.Calls.{DbServer, create_table, insert_into, insert_sql, release}
use jira_game.Accounts.Rows.{read_rows}
use jira_game.Accounts.Login.Outcome.{close_db-closed}
use jira_game.JiraEvent.{send_msg}
use jira_game.Accounts.CreateRole.{
  create_failed, create_for_user, create_logic, create_packet, create_role, insert_role, is_row,
}
use jira_game.Accounts.CreateRole.Stages.{
  Created, by_session, by_type, create_table_text-players, insert_text-role, is_success,
  new_role_text,
}

module _ (L : Sqlite) where
  -- What a success of a part of the creation says.
  abbrev Implies : Type 0 → CreateRoleReturn × DbServer L → Type 0
  Implies P r = is_success r.0.return_type ≡ true → P

  insert_role-done :
      (fuel id : ℕ) (req : CreateRoleRequest) (user : Text) (d : DbServer L)
      → After
          (Implies ((insert_sql L (new_role_text id req) d).0 ≡ true))
          (insert_role L fuel id req user d)
  unfolding insert_role insert_into
  insert_role-done fuel id req user d =
      rw (insert_text-role id req, ◌>>=◌)
        (After-if (Implies ((insert_sql L (new_role_text id req) d).0 ≡ true))
          (insert_sql L (new_role_text id req) d).0 _ _
          (λ ok.
            After->>= (Implies ((insert_sql L (new_role_text id req) d).0 ≡ true))
              (read_rows L fuel _ _ _) _ (λ r e success. ok))
          (λ no success. absurd (cc success)))

  abbrev Owned : CreateRoleRequest → Option L.Stmt → DbServer L → Type 0
  Owned req stmt d =
      (user : Text) × (L.column_text stmt 1 d.lib ≡ some user)
      × (is_row (by_type L req user stmt d).0 ≡ false)
      × ((insert_sql L (new_role_text (L.column_int stmt 0 d.lib) req)
            (by_type L req user stmt d).1).0
          ≡ true)

  create_for_user-done :
      (fuel : ℕ) (req : CreateRoleRequest) (stmt : Option L.Stmt) (d : DbServer L)
      → After (Implies (Owned req stmt d)) (create_for_user L fuel req stmt d)
  unfolding create_for_user
  create_for_user-done fuel req stmt d =
      After->>= (Implies (Owned req stmt d)) (L.column_text stmt 1 d.lib) _ (λ user e.
        let (result, d4) = by_type L req user stmt d in
        let id = L.column_int stmt 0 d.lib in
        After-if (Implies (Owned req stmt d)) (is_row result) (some (create_failed, d4))
          (insert_role L fuel id req user d4) (λ has success. absurd (cc success))
          (λ fresh.
            After-map (insert_role L fuel id req user d4)
              (λ r inserted success. (user, e, fresh, inserted success))
              (insert_role-done fuel id req user d4)))

  abbrev Kept : CreateRoleRequest → DbServer L → Type 0
  Kept req d =
      (is_empty req.player_info.name ≡ false)
      × (is_row (by_session L req d).1 ≡ true)
      × Owned req (by_session L req d).0 (by_session L req d).2

  create_role-done :
      (fuel : ℕ) (req : CreateRoleRequest) (d : DbServer L)
      → After
          (λ (r : CreateRoleReturn × DbServer L). Implies (Kept req d) r × (r.1.m_psql ≡ none))
          (create_role L fuel req d)
  unfolding create_role create_table
  create_role-done fuel req d =
      let (stmt, result, d3) = by_session L req d in
      let ask = is_row result && not (is_empty req.player_info.name) in
      rw (create_table_text-players, ◌>>=◌)
        (After->>=
          (λ (r : CreateRoleReturn × DbServer L). Implies (Kept req d) r × (r.1.m_psql ≡ none))
          (if ask
            then create_for_user L fuel req stmt d3
            else some (create_failed, release L stmt d3))
          _
          (λ (reply, d4) e. (
            λ success.
                After-some (Implies (Kept req d)) _
                  (After-if (Implies (Kept req d)) ask (create_for_user L fuel req stmt d3)
                    (some (create_failed, release L stmt d3))
                    (λ asked.
                      After-map (create_for_user L fuel req stmt d3)
                        (λ r owned success.
                          (ground (arith, asked), ground (arith, asked), owned success))
                        (create_for_user-done fuel req stmt d3))
                    (λ no success. absurd (cc success)))
                  e success,
            close_db-closed L d4,
          )))

  created :
      (fuel socket : ℕ) (req : CreateRoleRequest) (w : World) (d : DbServer L)
      (r : CreateRoleReturn × DbServer L)
      → (if check_session_valid socket req.session_id w.cache
          then create_role L fuel req d
          else some (create_failed, d))
        ≡ some r
      → is_success r.0.return_type ≡ true
      → Created L socket req w d × (r.1.m_psql ≡ none)
  created fuel socket req w d r made success =
      elim (Bool-cases (check_session_valid socket req.session_id w.cache)) [
        | inl valid ↦
            let run : create_role L fuel req d ≡ some r = rw valid at made in
            let (implies, closed) =
              After-some
                (λ (r : CreateRoleReturn × DbServer L).
                  Implies (Kept req d) r × (r.1.m_psql ≡ none))
                _ (create_role-done fuel req d) run in
            let (named, known, (user, owner, fresh, inserted)) = implies success in
            (
              record {
                valid = valid;
                named = named;
                known = known;
                user = user;
                owner = owner;
                fresh = fresh;
                inserted = inserted;
              },
              closed,
            )
        | inr invalid ↦
            let run : some (create_failed, d) ≡ some r = rw invalid at made in
            (let no : false ≡ true =
                subst (λ (r : CreateRoleReturn × DbServer L). is_success r.0.return_type ≡ true)
                  (sym (some_inj run)) success in
              absurd (cc no))
      ]

  -- A creation of a role that returns sends the client one reply and changes nothing else of the world.
  -- The reply is a failure, or all was so as `Created` says, and the database is closed.
  pub create_logic-Created :
      (fuel socket : ℕ) (req : CreateRoleRequest) (w w' : World) (d d' : DbServer L)
      → create_logic L fuel socket req w d ≡ some (w', d')
      → (reply : CreateRoleReturn) × (w' ≡ send_msg socket (create_packet reply) w)
        × ((is_success reply.return_type ≡ false) ⊎ (Created L socket req w d × (d'.m_psql ≡ none)))
  unfolding create_logic
  create_logic-Created fuel socket req w w' d d' run =
      let (r, made, e) =
        >>=-eq-some
          (if check_session_valid socket req.session_id w.cache
            then create_role L fuel req d
            else some (create_failed, d))
          _ run in
      let pair = some_inj e in
      (
        r.0,
        ap (λ (p : World × DbServer L). p.0) (sym pair),
        elim (Bool-cases (is_success r.0.return_type)) [
          | inl success ↦ inr (
              subst (λ (p : World × DbServer L). Created L socket req w d × (p.1.m_psql ≡ none))
                pair (created fuel socket req w d r made success))
          | inr refused ↦ inl refused
        ],
      )
