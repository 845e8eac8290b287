-- ===== src/Scenes/Events.antt =====
-- The messages of all scenes as events of the rooms.
use jira_game.Base.{
  After, After->>=, After-if, After-some, Bool-cases, Option, ap, arith, if◌then◌else◌, inl, inr,
  refl, some, ℕ, ◌==◌, ◌∙◌, ◌≡◌,
}
use jira_game.Proto.{
  CreateRoleRequest, CurScene, LoginRequest, Packet, RegisterRequest, SelectRoleRequest, UnPacket,
}
use jira_game.World.{World}
use jira_game.Cache.{check_session_valid, find_entity_room}
use jira_game.Cache.Laws.{find_entity_room-set_role_info}
use jira_game.JiraEvent.{send_msg}
use jira_game.JiraEvent.Laws.{send_msg-cache}
use jira_game.Db.Library.{Sqlite}
use jira_game.Db.Calls.{DbServer, create_table, open_db}
use jira_game.Accounts.Login.{login_logic}
use jira_game.Accounts.Login.Outcome.{login_logic-LoginDone, login_query-eq}
use jira_game.Accounts.Rows.{dnw_db}
use jira_game.Accounts.Register.{insert_user, register_logic, register_packet, register_type}
use jira_game.Accounts.SelectRole.{
  found_id, select_logic, select_packet, select_role, selected_user,
}
use jira_game.Accounts.CreateRole.{create_failed, create_logic, create_packet, create_role}
use jira_game.Rooms.Events.{SameRooms, Step, game_message, hall_message, heartbeat, other_event}
use jira_game.Scenes.{keep_db, process_msg_logic, register_start}

module _ (L : Sqlite) where
  abbrev Same : World → World × DbServer L → Type 0
  Same w r = SameRooms w r.0

  sent : (socket : ℕ) (p : Packet) (w : World) (d : DbServer L) → Same w (send_msg socket p w, d)
  sent socket p w d j = ap (find_entity_room j) (send_msg-cache socket p w)

  register_logic-SameRooms :
      (socket : ℕ) (req : RegisterRequest) (w : World) (d : DbServer L)
      → After (Same w) (register_logic L socket req w d)
  unfolding register_logic
  register_logic-SameRooms socket req w d =
      After->>= (Same w) (create_table L _ _ _ _ (open_db L dnw_db d).1) _ (λ d1 e1.
        After->>= (Same w) (insert_user L req _ _) _
          (λ (inserted, d4) e4. sent socket (register_packet (register_type inserted)) w d))

  create_logic-SameRooms :
      (fuel socket : ℕ) (req : CreateRoleRequest) (w : World) (d : DbServer L)
      → After (Same w) (create_logic L fuel socket req w d)
  unfolding create_logic
  create_logic-SameRooms fuel socket req w d =
      After->>= (Same w)
        (if check_session_valid socket req.session_id w.cache
          then create_role L fuel req d
          else some (create_failed, d))
        _ (λ (reply, d') e. sent socket (create_packet reply) w d')

  select_logic-SameRooms :
      (socket : ℕ) (req : SelectRoleRequest) (w : World) (d : DbServer L)
      → After (Same w) (select_logic L socket req w d)
  unfolding select_logic select_role
  select_logic-SameRooms socket req w d =
      elim (Bool-cases (check_session_valid socket req.session_id w.cache)) [
        | inl valid ↦
            rw (valid, if◌then◌else◌)
              (After->>= (Same w) (selected_user L _ _ _) _ (λ user e j.
                sent socket (select_packet (found_id L user)) _ d j
                ∙ find_entity_room-set_role_info j socket _ _
                ∙ find_entity_room-set_role_info j socket _ w.cache))
        | inr wrong ↦ rw (wrong, if◌then◌else◌) (λ j. refl)
      ]

  login_logic-SameRooms :
      (fuel socket : ℕ) (req : LoginRequest) (w w' : World) (d d' : DbServer L)
      → login_logic L fuel socket req w d ≡ some (w', d')
      → Same w (w', d')
  login_logic-SameRooms fuel socket req w w' d d' e =
      (login_logic-LoginDone L fuel socket req w w' _ _ d _ d' (login_query-eq L req d) e).rooms

  kept_db :
      (d : DbServer L) (run : Option World) (r : World × DbServer L)
      → keep_db L d run ≡ some r
      → run ≡ some r.0
  kept_db d run r e = ground (arith, e)

  same-Step :
      (w : World) (m : Option (World × DbServer L)) (r : World × DbServer L)
      → After (Same w) m
      → m ≡ some r
      → Step w r.0
  same-Step w m r h e = other_event (After-some (Same w) m h e)

  -- Every message is, for the rooms, an event.
  pub process_msg_logic-Step :
      (fuel : ℕ) (scene : CurScene) (socket : ℕ) (p : UnPacket) (w : World) (d : DbServer L)
      (r : World × DbServer L)
      → process_msg_logic L fuel scene socket p w d ≡ some r
      → Step w r.0
  unfolding process_msg_logic register_start
  process_msg_logic-Step fuel CurScene.keep_alive_scene socket p w d r e =
      heartbeat socket p.keep_alive (kept_db d _ r e)
  process_msg_logic-Step fuel CurScene.login_scene socket p w d r e =
      other_event (login_logic-SameRooms fuel socket p.login_request w r.0 d r.1 e)
  process_msg_logic-Step fuel CurScene.create_role_scene socket p w d r e =
      same-Step w _ r (create_logic-SameRooms fuel socket p.create_role_request w d) e
  process_msg_logic-Step fuel CurScene.register_scene socket p w d r e =
      same-Step w _ r
        (After-if (Same w) (socket == 0) _ _ (λ nobody j. refl)
          (λ other. register_logic-SameRooms socket p.register_request w d))
        e
  process_msg_logic-Step fuel CurScene.select_role_scene socket p w d r e =
      same-Step w _ r (select_logic-SameRooms socket p.select_role_request w d) e
  process_msg_logic-Step fuel CurScene.wait_room socket p w d r e =
      hall_message socket p.hall_request (kept_db d _ r e)
  process_msg_logic-Step fuel CurScene.main_scene socket p w d r e =
      game_message socket p.game_main_request (kept_db d _ r e)
  process_msg_logic-Step fuel _ socket p w d r e = same-Step w (some (w, d)) r (λ j. refl) e
