-- ===== src/Accounts/Login.antt =====
-- `CLoginScene::LoginLogic` of DNW_Server/Server/GameLogic/SceneChain/LoginScene.cpp.
pub mod Query
pub mod Outcome
pub mod Total
pub mod Kept
use jira_game.Base.{List, Option, Text, [], codes, if◌then◌else◌, none, some, ℕ, ◌++◌, ◌>>=◌, ◌∷◌}
use jira_game.Proto.{
  LoginRequest, LoginReturn, LoginReturnType, Packet, PlayerInfo, fail, login_return, login_scene,
  to_create_role, to_select_role,
}
use jira_game.World.{World, on_cache}
use jira_game.Cache.{Cache, entity_is_exist, modify_entity}
use jira_game.Utl.{genrate_random_id}
use jira_game.JiraEvent.{send_msg}
use jira_game.Db.Library.{Sqlite, StepResult, done, failed, row}
use jira_game.Db.Calls.{DbServer, close_db, open_db, release, select_where, sql_exec, step, update}
use jira_game.Accounts.Rows.{dnw_db, quoted, read_rows, user_role}

abbrev pub login_packet : LoginReturn → Packet
login_packet r = record { cur_scene = login_scene; reply = login_return r }

-- `SessionID = …`, where the socket has an entity.
unfoldable pub set_session : ℕ → Text → Cache → Cache
set_session socket session c =
    if entity_is_exist socket c
    then modify_entity socket (λ e. record e { session_id = session }) c
    else c

unfoldable pub role_query : Text → Text
role_query user =
    codes
      "select roleType,playerInfo.name,userID from userInfo left join playerInfo on userInfo.PlayerInfoID=playerInfo.roleID where userInfo.name='"
    ++ (user ++ codes "' and roleID=PlayerInfoID;")

-- The first role decides.
abbrev pub login_type : List PlayerInfo → LoginReturnType
login_type [] = to_create_role
login_type (p ∷ ps) = to_select_role

module _ (L : Sqlite) where
  -- Lines 30 to 46: the query for the name and the password, and its first step.
  unfoldable pub login_query :
      LoginRequest → DbServer L → Option (StepResult × Option L.Stmt × DbServer L)
  login_query req d =
      select_where L (codes "userInfo") (codes "name" ∷ codes "password" ∷ [])
        (quoted req.user_name ∷ quoted req.pass_word ∷ []) 2 (open_db L dnw_db d).1
      >>= λ (stmt, d'). let (result, d'') = step L stmt d' in some (result, stmt, d'')

  -- Lines 66 to 114. The statement of this query is not given back.
  unfoldable pub login_roles : ℕ → Text → DbServer L → Option (List PlayerInfo × DbServer L)
  login_roles fuel user d =
      let (stmt, d') = sql_exec L (role_query user) d in
      elim stmt [
        | none ↦ some ([], d')
        | some s ↦ read_rows L fuel (user_role L (some s)) (some s) d'
      ]

  -- Lines 48 to 114, for a user that is found.
  unfoldable pub logged_in :
      ℕ → ℕ → LoginRequest → World → DbServer L → Option (LoginReturn × World × DbServer L)
  logged_in fuel socket req w d =
      let (random, w') = genrate_random_id w in
      let session = req.user_name ++ (codes "_" ++ random) in
      update L (codes "userInfo") (codes "name" ∷ []) (quoted req.user_name ∷ [])
        (codes "session_id" ∷ []) (quoted session ∷ []) 1 1 d
      >>= λ d'. login_roles fuel req.user_name d' >>= λ (ps, d''). some (
        record { session_id = some session; return_type = login_type ps; player_info = ps },
        on_cache (set_session socket session) w',
        d'',
      )

  -- Lines 121 to 139.
  unfoldable pub login_end :
      ℕ → Option L.Stmt → LoginReturn → World → DbServer L → World × DbServer L
  login_end socket stmt reply w d =
      (send_msg socket (login_packet reply) w, close_db L (release L stmt d))

  abbrev pub login_failed : LoginReturn
  login_failed = record { session_id = none; return_type = fail; player_info = [] }

  -- `fuel` bounds the rows of the roles that are read.
  unfoldable pub login_logic :
      ℕ → ℕ → LoginRequest → World → DbServer L → Option (World × DbServer L)
  login_logic fuel socket req w d = login_query req d >>= λ (result, stmt, d'). elim result [
    | row ↦
        (logged_in fuel socket req w d' >>= λ (reply, w', d'').
        some (login_end socket stmt reply w' d''))
    | done ↦ some (login_end socket stmt login_failed w d')
    | failed ↦ some (login_end socket stmt login_failed w d')
  ]
