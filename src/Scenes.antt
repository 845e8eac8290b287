-- ===== src/Scenes.antt =====
-- `CSceneFactory::ProcessMsgLogic` of DNW_Server/Server/GameLogic/SceneFactory.cpp, with the `Start` of
-- each scene, and `CClientEntity::MsgDistribute` of DNW_Server/Server/ClientEntity/ClientEntity.cpp.
-- `parse` stands for `ParseFromArray` of protobuf, whose result the server does not look at: the
-- packet that it leaves, for the bytes that it is given.
pub mod Access
pub mod Events
use jira_game.Base.{Option, Text, if◌then◌else◌, some, ℕ, ◌==◌, ◌>>=◌}
use jira_game.Proto.{CurScene, RegisterRequest, UnPacket}
use jira_game.World.{World}
use jira_game.KeepAlive.{start}
use jira_game.Hall.{hall_logic}
use jira_game.MainScene.{main_logic}
use jira_game.Db.Library.{Sqlite}
use jira_game.Db.Calls.{DbServer}
use jira_game.Accounts.Login.{login_logic}
use jira_game.Accounts.Register.{register_logic}
use jira_game.Accounts.SelectRole.{select_logic}
use jira_game.Accounts.CreateRole.{create_logic}

module _ (L : Sqlite) where
  -- The scenes that do not use the database.
  abbrev pub keep_db : DbServer L → Option World → Option (World × DbServer L)
  keep_db d run = run >>= λ w. some (w, d)

  -- `CRegisterScene::Start`; the `Start` of the other scenes has no test.
  unfoldable pub register_start :
      ℕ → RegisterRequest → World → DbServer L → Option (World × DbServer L)
  register_start socket req w d =
      if socket == 0 then some (w, d) else register_logic L socket req w d

  -- `fuel` bounds the rows that a scene reads from the database.
  unfoldable pub process_msg_logic :
      ℕ → CurScene → ℕ → UnPacket → World → DbServer L → Option (World × DbServer L)
  process_msg_logic fuel CurScene.keep_alive_scene socket p w d =
      keep_db d (start socket p.keep_alive w)
  process_msg_logic fuel CurScene.login_scene socket p w d =
      login_logic L fuel socket p.login_request w d
  process_msg_logic fuel CurScene.create_role_scene socket p w d =
      create_logic L fuel socket p.create_role_request w d
  process_msg_logic fuel CurScene.register_scene socket p w d =
      register_start socket p.register_request w d
  process_msg_logic fuel CurScene.select_role_scene socket p w d =
      select_logic L socket p.select_role_request w d
  process_msg_logic fuel CurScene.wait_room socket p w d =
      keep_db d (hall_logic socket p.hall_request w)
  process_msg_logic fuel CurScene.main_scene socket p w d =
      keep_db d (main_logic socket p.game_main_request w)
  process_msg_logic fuel _ socket p w d = some (w, d)

  unfoldable pub msg_distribute :
      (Text → UnPacket) → ℕ → ℕ → Text → World → DbServer L → Option (World × DbServer L)
  msg_distribute parse fuel socket bytes w d =
      let p = parse bytes in process_msg_logic fuel p.cur_scene socket p w d
