-- ===== src/Accounts/Register.antt =====
-- `CRegisterScene::RegisterLogic` of DNW_Server/Server/GameLogic/SceneChain/RegisterScene.cpp.
pub mod Outcome
use jira_game.Base.{
  Bool, List, Option, Text, [], codes, false, if◌then◌else◌, none, some, true, ℕ, ◌++◌, ◌>>=◌, ◌∷◌,
}
use jira_game.Proto.{
  Packet, RegisterRequest, RegisterReturnType, register_return, register_scene, rt_fail, rt_success,
}
use jira_game.World.{World}
use jira_game.JiraEvent.{send_msg}
use jira_game.Db.Library.{Sqlite, done, failed, row}
use jira_game.Db.Calls.{
  DbServer, close_db, create_table, insert_into, open_db, release, sql_exec, step,
}
use jira_game.Accounts.Rows.{dnw_db, quoted}

abbrev pub register_packet : RegisterReturnType → Packet
register_packet r = record { cur_scene = register_scene; reply = register_return r }

abbrev pub user_keys : List Text
user_keys =
    codes "userID"
    ∷ codes "PlayerInfoID"
    ∷ codes "session_id"
    ∷ codes "name"
    ∷ codes "password"
    ∷ []

abbrev pub user_types : List Text
user_types =
    codes "INTEGER PRIMARY KEY AUTOINCREMENT"
    ∷ codes "INTEGER NULL"
    ∷ codes "varchar(32) NULL"
    ∷ codes "varchar(32) UNIQUE"
    ∷ codes "varchar(16)"
    ∷ []

unfoldable pub user_query : Text → Text
user_query user = codes "select * from userInfo where name='" ++ (user ++ codes "';")

unfoldable pub link_query : Text → Text
link_query user =
    codes "update userInfo set PlayerInfoID=userID where name='" ++ (user ++ codes "';")

abbrev pub register_type : Bool → RegisterReturnType
register_type true = rt_success
register_type false = rt_fail

module _ (L : Sqlite) where
  -- Line 72: the name is new if the query could be prepared and its step is no row.
  unfoldable pub is_new_user : Option L.Stmt → DbServer L → Bool × DbServer L
  is_new_user stmt d = elim stmt [
    | none ↦ (false, d)
    | some s ↦
        let (result, d') = step L (some s) d in
        (elim result [ row ↦ false | done ↦ true | failed ↦ true ], d')
  ]

  -- Lines 56 to 86.
  unfoldable pub insert_user : RegisterRequest → Bool → DbServer L → Option (Bool × DbServer L)
  insert_user req is_new d =
      if is_new
      then insert_into L (codes "userInfo") (codes "name" ∷ codes "password" ∷ [])
          (quoted req.user_name ∷ quoted req.pass_word ∷ []) 2 d
      else some (false, d)

  -- Lines 92 to 101: the new user's `PlayerInfoID`.
  unfoldable pub link_user : Text → DbServer L → DbServer L
  link_user user d =
      let (stmt, d') = sql_exec L (link_query user) d in release L stmt (step L stmt d').1

  unfoldable pub register_logic :
      ℕ → RegisterRequest → World → DbServer L → Option (World × DbServer L)
  register_logic socket req w d =
      create_table L (codes "userInfo") user_keys user_types 5 (open_db L dnw_db d).1 >>= λ d1.
      let (stmt, d2) = sql_exec L (user_query req.user_name) d1 in
      let (is_new, d3) = is_new_user stmt d2 in
      insert_user req is_new d3 >>= λ (inserted, d4).
      let d5 = close_db L (link_user req.user_name (release L stmt d4)) in
      some (send_msg socket (register_packet (register_type inserted)) w, d5)
