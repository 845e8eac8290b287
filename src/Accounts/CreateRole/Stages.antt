-- ===== src/Accounts/CreateRole/Stages.antt =====
-- The stages of the creation of a role: the texts of its statements, and what they are asked.
use jira_game.Base.{
  Bool, Option, Text, [], ap, append_assoc, codes, false, is_empty, refl, some, true, ℕ, ◌++◌, ◌∷◌,
  ◌≡◌,
}
use jira_game.Proto.{CreateRoleRequest, CreateRoleReturnType, crt_fail, crt_success}
use jira_game.World.{World}
use jira_game.Cache.{check_session_valid}
use jira_game.Utl.{int2_string}
use jira_game.Db.{create_table_text, insert_text}
use jira_game.Db.Library.{Sqlite, StepResult}
use jira_game.Db.Calls.{DbServer, insert_sql, open_db, release, run_sql, sql_exec, step}
use jira_game.Accounts.Rows.{dnw_db, quoted}
use jira_game.Accounts.CreateRole.{has_role_query, is_row, player_keys, player_types, session_query}

abbrev pub is_success : CreateRoleReturnType → Bool
is_success crt_success = true
is_success crt_fail = false

abbrev pub player_table_text : Text
player_table_text =
    codes
      "create table if not exists playerInfo(roleID INTEGER,roleType INTEGER,team INTEGER NULL,name varchar(32) UNIQUE,level INTEGER NULL,hp FLOAT NULL,mp FLOAT NULL,attack FLOAT NULL,moveSpeed FLOAT NULL);"

pub create_table_text-players :
    create_table_text (codes "playerInfo") player_keys player_types 9 ≡ some player_table_text
unfolding create_table_text
create_table_text-players = refl

abbrev pub new_role_text : ℕ → CreateRoleRequest → Text
new_role_text id req =
    codes "insert into playerInfo(roleID,roleType,name) values("
    ++ (int2_string id
        ++ (codes ","
            ++ (int2_string req.player_info.role_type
                ++ (codes ",'" ++ (req.player_info.name ++ codes "');")))))

pub insert_text-role :
    (id : ℕ) (req : CreateRoleRequest)
    → insert_text
        (codes "playerInfo")
        (codes "roleID" ∷ codes "roleType" ∷ codes "name" ∷ [])
        (int2_string id ∷ int2_string req.player_info.role_type ∷ quoted req.player_info.name ∷ [])
        3
      ≡ some (new_role_text id req)
unfolding insert_text
insert_text-role id req = ap some (simp append_assoc)

module _ (L : Sqlite) where
  -- The look-up of the user by the session id.
  abbrev pub by_session : CreateRoleRequest → DbServer L → Option L.Stmt × StepResult × DbServer L
  by_session req d =
      let d1 = run_sql L player_table_text (open_db L dnw_db d).1 in
      let (stmt, d2) = sql_exec L (session_query req.session_id) d1 in
      let (result, d3) = step L stmt d2 in (stmt, result, d3)

  -- The look-up of a role of the type that was asked for.
  abbrev pub by_type :
      CreateRoleRequest → Text → Option L.Stmt → DbServer L → StepResult × DbServer L
  by_type req user stmt d =
      let (stmt2, d2) =
        sql_exec L (has_role_query req.player_info.role_type user) (release L stmt d) in
      let (result, d3) = step L stmt2 d2 in (result, release L stmt2 d3)

-- What has been so where a role is created: the session id is that of the client's entity and has a
-- user in the database, the role has a name, the user has no role of this type, and the insertion of
-- the role under the user's id is done.
pub record Created (L : Sqlite) (socket : ℕ) (req : CreateRoleRequest) (w : World) (d : DbServer L)
    : Type 0 where
  pub valid : check_session_valid socket req.session_id w.cache ≡ true
  pub named : is_empty req.player_info.name ≡ false
  pub known : is_row (by_session L req d).1 ≡ true
  pub user : Text
  pub owner : L.column_text (by_session L req d).0 1 (by_session L req d).2.lib ≡ some user
  pub fresh : is_row (by_type L req user (by_session L req d).0 (by_session L req d).2).0 ≡ false
  pub inserted :
      (insert_sql L
        (new_role_text (L.column_int (by_session L req d).0 0 (by_session L req d).2.lib) req)
        (by_type L req user (by_session L req d).0 (by_session L req d).2).1).0
      ≡ true
