-- ===== src/Accounts/SelectRole.antt =====
-- `CSelectScene::hallLogic` of DNW_Server/Server/GameLogic/SceneChain/SelectScene.cpp.
pub mod Outcome
use jira_game.Base.{Option, Text, codes, if◌then◌else◌, none, some, ℕ, ◌++◌, ◌>>=◌}
use jira_game.Proto.{Packet, PlayerInfo, SelectRoleRequest, select_role_return, select_role_scene}
use jira_game.World.{World, on_cache}
use jira_game.Cache.{check_session_valid, set_role_info}
use jira_game.Utl.{int2_string}
use jira_game.JiraEvent.{send_msg}
use jira_game.Db.Library.{Sqlite, StepResult, done, failed, row}
use jira_game.Db.Calls.{DbServer, close_db, open_db, release, sql_exec, step}
use jira_game.Accounts.Rows.{dnw_db}

abbrev pub select_packet : Option ℕ → Packet
select_packet user = record { cur_scene = select_role_scene; reply = select_role_return user }

unfoldable pub select_query : SelectRoleRequest → Text
select_query req =
    codes
      "select userID,playerInfo.name from userInfo left Join playerInfo on userInfo.PlayerInfoID=playerInfo.roleID where session_id='"
    ++ (req.session_id
        ++ (codes "' and playerInfo.roleType='" ++ (int2_string req.role_type ++ codes "';")))

abbrev pub set_role_type : ℕ → PlayerInfo → PlayerInfo
set_role_type kind p = record p { role_type = kind }

abbrev pub set_user : ℕ → Text → PlayerInfo → PlayerInfo
set_user id name p = record p { role_id = id; name = name }

module _ (L : Sqlite) where
  -- Lines 44 to 54: the id and the name of the role; a NULL name ends the process.
  unfoldable pub selected_user :
      Option L.Stmt → StepResult → DbServer L → Option (Option (ℕ × Text))
  selected_user stmt result d = elim result [
    | row ↦ (L.column_text stmt 1 d.lib >>= λ name. some (some (L.column_int stmt 0 d.lib, name)))
    | done ↦ some none
    | failed ↦ some none
  ]

  -- Lines 46 to 53, on the client's `PlayerInfo`, and the `userId` of the reply.
  abbrev pub found_user : Option (ℕ × Text) → PlayerInfo → PlayerInfo
  found_user none p = p
  found_user (some (id, name)) p = set_user id name p

  abbrev pub found_id : Option (ℕ × Text) → Option ℕ
  found_id none = none
  found_id (some (id, name)) = some id

  -- Lines 33 to 72. The type of the role is set before the database is asked.
  unfoldable pub select_role :
      ℕ → SelectRoleRequest → World → DbServer L → Option (World × DbServer L)
  select_role socket req w d =
      let w1 = on_cache (set_role_info socket (set_role_type req.role_type)) w in
      let (stmt, d2) = sql_exec L (select_query req) (open_db L dnw_db d).1 in
      let (result, d3) = step L stmt d2 in
      selected_user stmt result d3 >>= λ user. some (
        send_msg socket (select_packet (found_id user))
            (on_cache (set_role_info socket (found_user user)) w1),
        close_db L (release L stmt d3),
      )

  -- Where the session id is not valid, nothing is sent.
  unfoldable pub select_logic :
      ℕ → SelectRoleRequest → World → DbServer L → Option (World × DbServer L)
  select_logic socket req w d =
      if check_session_valid socket req.session_id w.cache
      then select_role socket req w d
      else some (w, d)
