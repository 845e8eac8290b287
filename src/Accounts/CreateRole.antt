-- ===== src/Accounts/CreateRole.antt =====
-- `CCreateScene::CreateLogic` of DNW_Server/Server/GameLogic/SceneChain/CreateScene.cpp.
pub mod Stages
pub mod Outcome
use jira_game.Base.{
  Bool, List, Option, Text, [], codes, false, if◌then◌else◌, is_empty, not, some, true, ℕ, ◌&&◌,
  ◌++◌, ◌>>=◌, ◌∷◌,
}
use jira_game.Proto.{
  CreateRoleRequest, CreateRoleReturn, Packet, create_role_return, create_role_scene, crt_fail,
  crt_success,
}
use jira_game.World.{World}
use jira_game.Cache.{check_session_valid}
use jira_game.Utl.{int2_string}
use jira_game.JiraEvent.{send_msg}
use jira_game.Db.Library.{Sqlite, StepResult, row}
use jira_game.Db.Calls.{
  DbServer, close_db, create_table, insert_into, open_db, release, sql_exec, step,
}
use jira_game.Accounts.Rows.{dnw_db, named_role, quoted, read_rows}

abbrev pub create_packet : CreateRoleReturn → Packet
create_packet r = record { cur_scene = create_role_scene; reply = create_role_return r }

abbrev pub create_failed : CreateRoleReturn
create_failed = record { return_type = crt_fail; player_info = [] }

abbrev pub player_keys : List Text
player_keys =
    codes "roleID"
    ∷ codes "roleType"
    ∷ codes "team"
    ∷ codes "name"
    ∷ codes "level"
    ∷ codes "hp"
    ∷ codes "mp"
    ∷ codes "attack"
    ∷ codes "moveSpeed"
    ∷ []

abbrev pub player_types : List Text
player_types =
    codes "INTEGER"
    ∷ codes "INTEGER"
    ∷ codes "INTEGER NULL"
    ∷ codes "varchar(32) UNIQUE"
    ∷ codes "INTEGER NULL"
    ∷ codes "FLOAT NULL"
    ∷ codes "FLOAT NULL"
    ∷ codes "FLOAT NULL"
    ∷ codes "FLOAT NULL"
    ∷ []

unfoldable pub session_query : Text → Text
session_query session =
    codes "select PlayerInfoID,name from userInfo where session_id='" ++ (session ++ codes "';")

unfoldable pub has_role_query : ℕ → Text → Text
has_role_query kind user =
    codes
      "select PlayerInfoID from userInfo left join playerInfo on userInfo.PlayerInfoID=playerInfo.roleID where  playerInfo.roleType="
    ++ (int2_string kind ++ (codes " and userInfo.name='" ++ (user ++ codes "';")))

unfoldable pub roles_query : Text → Text
roles_query user =
    codes
      "select roleType,playerInfo.name from userInfo left join  playerInfo on playerInfo.roleID=userInfo.PlayerInfoID where userInfo.name='"
    ++ (user ++ codes "';")

abbrev pub is_row : StepResult → Bool
is_row row = true
is_row _ = false

module _ (L : Sqlite) where
  -- Lines 112 to 146.
  unfoldable pub insert_role :
      ℕ → ℕ → CreateRoleRequest → Text → DbServer L → Option (CreateRoleReturn × DbServer L)
  insert_role fuel id req user d =
      insert_into L (codes "playerInfo") (codes "roleID" ∷ codes "roleType" ∷ codes "name" ∷ [])
        (int2_string id ∷ int2_string req.player_info.role_type ∷ quoted req.player_info.name ∷ [])
        3 d
      >>= λ (inserted, d').
          if inserted
          then (let (stmt, d'') = sql_exec L (roles_query user) d' in
              read_rows L fuel (named_role L stmt) stmt d'' >>= λ (ps, d''').
              some (record { return_type = crt_success; player_info = ps }, release L stmt d'''))
          else some (create_failed, d')

  -- Lines 76 to 152, for the row that the statement is at; a NULL name ends the process.
  unfoldable pub create_for_user :
      ℕ → CreateRoleRequest → Option L.Stmt → DbServer L → Option (CreateRoleReturn × DbServer L)
  create_for_user fuel req stmt d = L.column_text stmt 1 d.lib >>= λ user.
      let id = L.column_int stmt 0 d.lib in
      let (stmt2, d2) =
        sql_exec L (has_role_query req.player_info.role_type user) (release L stmt d) in
      let (result, d3) = step L stmt2 d2 in
      let d4 = release L stmt2 d3 in
      if is_row result then some (create_failed, d4) else insert_role fuel id req user d4

  -- Lines 35 to 160.
  unfoldable pub create_role :
      ℕ → CreateRoleRequest → DbServer L → Option (CreateRoleReturn × DbServer L)
  create_role fuel req d =
      create_table L (codes "playerInfo") player_keys player_types 9 (open_db L dnw_db d).1
      >>= λ d1.
          let (stmt, d2) = sql_exec L (session_query req.session_id) d1 in
          let (result, d3) = step L stmt d2 in
          let created =
            if is_row result && not (is_empty req.player_info.name)
            then create_for_user fuel req stmt d3
            else some (create_failed, release L stmt d3) in
          created >>= λ (reply, d4). some (reply, close_db L d4)

  unfoldable pub create_logic :
      ℕ → ℕ → CreateRoleRequest → World → DbServer L → Option (World × DbServer L)
  create_logic fuel socket req w d =
      let created =
        if check_session_valid socket req.session_id w.cache
        then create_role fuel req d
        else some (create_failed, d) in
      created >>= λ (reply, d'). some (send_msg socket (create_packet reply) w, d')
