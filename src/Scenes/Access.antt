-- ===== src/Scenes/Access.antt =====
-- What a login gives a client access to.
use jira_game.Base.{
  ==_refl, Bool-cases, Option, if◌then◌else◌, inl, inr, refl, some, text_eq, ℕ, ◌∙◌, ◌≡◌,
}
use jira_game.Proto.{UnPacket, login_scene, wait_room}
use jira_game.World.{World}
use jira_game.Cache.{Entity, get_entity}
use jira_game.Hall.{dispatch, hall_logic}
use jira_game.Db.Library.{Sqlite, row}
use jira_game.Db.Calls.{DbServer}
use jira_game.Accounts.Login.{login_query}
use jira_game.Accounts.Login.Outcome.{login_logic-LoginDone, new_session}
use jira_game.Session.{valid_of_entity}
use jira_game.Scenes.{keep_db, process_msg_logic}

module _ (L : Sqlite) where
  -- A client that has an entity, and whose login message finds a row for its name and its password,
  -- passes the check afterwards with the session id that this login has made up and told it, and with
  -- no other session id: of its messages to the hall after that, exactly those with that session id
  -- reach the operations of the hall.
  pub process_msg_logic-login :
      (fuel socket : ℕ) (p q : UnPacket) (w w' : World) (stmt : Option L.Stmt)
      (d d1 d' : DbServer L) (e : Entity)
      → get_entity socket w.cache ≡ some e
      → login_query L p.login_request d ≡ some (row, stmt, d1)
      → process_msg_logic L fuel login_scene socket p w d ≡ some (w', d')
      → process_msg_logic L fuel wait_room socket q w' d' ≡ (
          if text_eq (new_session p.login_request w) q.hall_request.session_id
          then keep_db L d' (dispatch q.hall_request.msg_type socket q.hall_request w')
          else some (w', d'))
  unfolding process_msg_logic hall_logic
  process_msg_logic-login fuel socket p q w w' stmt d d1 d' e known asked run =
      let over =
        login_logic-LoginDone L fuel socket p.login_request w w' row stmt d d1 d' asked run in
      let renewed = record e { session_id = new_session p.login_request w } in
      let found : get_entity socket w'.cache ≡ some renewed =
        over.entities socket ∙ rw (==_refl socket, known) refl in
      let check = valid_of_entity socket q.hall_request.session_id renewed w'.cache found in
      rw check
        (elim (Bool-cases (text_eq (new_session p.login_request w) q.hall_request.session_id)) [
          | inl same ↦ rw same refl
          | inr other ↦ rw other refl
        ])
