-- ===== src/Rooms/Total.antt =====
-- When the messages of the hall, DNW_Server/Server/GameLogic/SceneChain/HallScene.cpp, return, from
-- what the code relies on without a check.
use jira_game.Base.{
  All, Bool-cases, Dict, List, Option-cases, Returns, [], ap, false, get_elem?, inl, inr, is_empty,
  is_some, none, not, refl, some, subst, sym, true, ℕ, ◌<◌, ◌==◌, ◌>>=◌, ◌∙◌, ◌∷◌, ◌≡◌,
}
use jira_game.Proto.{HallMsgType, HallRequest, PlayerInfo, RoomInfo}
use jira_game.World.{World}
use jira_game.Cache.{Entity, check_session_valid, find_entity_room, get_entity}
use jira_game.Session.{session_of_valid}
use jira_game.JiraEvent.{send_msg}
use jira_game.JiraEvent.Laws.{send_msg-cache}
use jira_game.Hall.{dispatch, hall_logic}
use jira_game.Hall.Create.{create_room, found_room}
use jira_game.Hall.RoomId.Fresh.{candidate, genrate_only_room_id_total, is_free}
use jira_game.Hall.Seats.{first_seat, idle_seats}
use jira_game.Hall.Seats.Idle.{first_seat-idle_seats, free_seat}
use jira_game.Hall.Join.{enter_room, find_role, join_room}
use jira_game.Hall.JoinTeam.{join_team, members_but, request_team}
use jira_game.Hall.Leave.{depart, leave_room}
use jira_game.Hall.Ready.{game_waite}
use jira_game.Hall.Listing.{get_room_list, room_entries, room_entry}
use jira_game.Rooms.Online.{Online, depart_total, game_start_total}

-- A room that has a player.
abbrev pub Inhabited : ℕ × RoomInfo → Type 0
Inhabited (id, room) = (p : PlayerInfo) × (get_elem? room.players 0 ≡ some p)

-- The room of a client is there, and every member of it has an entity.
abbrev pub RoomOnline : World → Entity → Type 0
RoomOnline w e =
    (room : RoomInfo) × (find_entity_room e.role_info.room_id w.cache ≡ some room)
    × Online w.cache room.players

-- What the code relies on: a new room needs a free random id within the depth of the stack, an
-- accepted invitation its room, the list of rooms a first player in each of them, waiting and the
-- start of a game the player's room, and leaving and starting the entities of the members.
abbrev pub Served : HallMsgType → HallRequest → World → Entity → Type 0
Served HallMsgType.create_room req w e =
    (k : ℕ) × (k < w.stack) × (is_free (candidate k w) w ≡ true)
Served HallMsgType.join_team req w e = Returns (find_entity_room req.invite_info.room_id w.cache)
Served HallMsgType.get_room_list req w e = All Inhabited w.cache.rooms
Served HallMsgType.leave_room req w e =
    (room : RoomInfo)
    → find_entity_room e.role_info.room_id w.cache ≡ some room
    → Online w.cache room.players
Served HallMsgType.game_waite req w e = Returns (find_entity_room e.role_info.room_id w.cache)
Served HallMsgType.game_start req w e = RoomOnline w e
Served _ req w e = Unit

seat_of_idle :
    (ps : List PlayerInfo) → is_empty (idle_seats ps) ≡ false → Returns (first_seat (idle_seats ps))
seat_of_idle ps more =
    let (first, empty) = first_seat-idle_seats ps in
    elim (Option-cases (free_seat ps)) [
      | inl full ↦
          let no : false ≡ true = sym more ∙ empty ∙ ap (λ o. not (is_some o)) full in
          absurd (cc no)
      | inr (seat, free) ↦ (seat, first ∙ free)
    ]

room_entries_total : (rooms : Dict RoomInfo) → All Inhabited rooms → Returns (room_entries rooms)
unfolding room_entries room_entry
room_entries_total [] h = ([], refl)
room_entries_total ((id, room) ∷ rooms) h =
    let (rs, rest) = room_entries_total rooms h.1 in rw (h.0.1, ◌>>=◌, rest) (_, refl)

module _ (s : ℕ) (req : HallRequest) (w : World) (e : Entity)
    (known : get_entity s w.cache ≡ some e) where
  create_room_total : Served HallMsgType.create_room req w e → Returns (create_room s req w)
  unfolding create_room found_room
  create_room_total (k, deep, free) = elim (Bool-cases (is_empty req.room_name)) [
    | inl unnamed ↦ rw unnamed (w, refl)
    | inr named ↦ elim (Bool-cases (e.role_info.room_id == 0)) [
      | inl outside ↦
          let (r, made) = genrate_only_room_id_total w.stack k w deep free in
          rw (named, known, ◌>>=◌, outside, made) (_, refl)
      | inr inside ↦ rw (named, known, ◌>>=◌, inside) (w, refl)
    ]
  ]

  enter_room_total : (id : ℕ) (room : RoomInfo) → Returns (enter_room s id e.role_info room w)
  unfolding enter_room
  enter_room_total id room = elim (Option-cases (find_role e.role_info.role_id room.players)) [
    | inr (mine, here) ↦ rw (here, enter_room) (_, refl)
    | inl new ↦ elim (Bool-cases (is_empty (idle_seats room.players))) [
      | inl full ↦ rw (new, enter_room, full) (w, refl)
      | inr more ↦
          let (seat, first) = seat_of_idle room.players more in
          rw (new, enter_room, more, first, ◌>>=◌) (_, refl)
    ]
  ]

  join_room_total : Returns (join_room s req w)
  unfolding join_room
  join_room_total = elim (Option-cases (find_entity_room req.invite_info.room_id w.cache)) [
    | inl missing ↦ rw (missing, join_room) (w, refl)
    | inr (room, found) ↦
        let (w', run) = enter_room_total req.invite_info.room_id room in
        (w', rw (found, join_room, known, ◌>>=◌) run)
  ]

  join_team_total : Served HallMsgType.join_team req w e → Returns (join_team s req w)
  unfolding join_team
  join_team_total (room, found) =
      elim (Option-cases (members_but req.invite_info.team req.invite_info.team_id room.players)) [
        | inl taken ↦ rw (found, ◌>>=◌, taken) (_, refl)
        | inr (ms, free) ↦ rw (found, ◌>>=◌, free, known) (_, refl)
      ]

  depart-Served :
      (told : World)
      → w.cache ≡ told.cache
      → Served HallMsgType.leave_room req w e
      → Returns (depart s told)
  depart-Served told same online =
      let there = subst (λ c. get_entity s c ≡ some e) same known in
      elim (Option-cases (find_entity_room e.role_info.room_id w.cache)) [
        | inl missing ↦
            let gone = subst (λ c. find_entity_room e.role_info.room_id c ≡ none) same missing in
            unfold depart in rw (there, ◌>>=◌, gone) (told, refl)
        | inr (room, found) ↦
            depart_total s e room told there
              (subst (λ c. find_entity_room e.role_info.room_id c ≡ some room) same found)
              (subst (λ c. Online c room.players) same (online room found))
      ]

  leave_room_total : Served HallMsgType.leave_room req w e → Returns (leave_room s w)
  unfolding leave_room
  leave_room_total = depart-Served (send_msg s _ w) (sym (send_msg-cache s _ w))

  dispatch_total : (m : HallMsgType) → Served m req w e → Returns (dispatch m s req w)
  unfolding dispatch request_team game_waite get_room_list
  dispatch_total HallMsgType.create_room h = create_room_total h
  dispatch_total HallMsgType.online_friend h = (_, refl)
  dispatch_total HallMsgType.request_team h = rw (known, ◌>>=◌) (_, refl)
  dispatch_total HallMsgType.join_team h = join_team_total h
  dispatch_total HallMsgType.join_room h = join_room_total
  dispatch_total HallMsgType.get_room_list h =
      let (rs, all) = room_entries_total w.cache.rooms h in rw (all, ◌>>=◌) (_, refl)
  dispatch_total HallMsgType.leave_room h = leave_room_total h
  dispatch_total HallMsgType.game_waite (room, found) = rw (known, ◌>>=◌, found) (_, refl)
  dispatch_total HallMsgType.game_start (room, found, online) =
      game_start_total s e room w known found online
  dispatch_total _ h = (w, refl)

-- Every hall message returns where, if its client has an entity, what its type needs is there: for a
-- new room a free random id within the depth of the stack, for an accepted invitation its room, for
-- the list of rooms a first player in each of them, for waiting and for the start of a game the
-- player's room, and for leaving and starting an entity of each member of the player's room.
pub hall_logic_total :
    (s : ℕ) (req : HallRequest) (w : World)
    → ((e : Entity) → get_entity s w.cache ≡ some e → Served req.msg_type req w e)
    → Returns (hall_logic s req w)
unfolding hall_logic
hall_logic_total s req w served = elim (Bool-cases (check_session_valid s req.session_id w.cache)) [
  | inl valid ↦
      let (e, known, own) = session_of_valid s req.session_id w.cache valid in
      let (w', run) = dispatch_total s req w e known req.msg_type (served e known) in
      (w', rw valid run)
  | inr invalid ↦ rw invalid (w, refl)
]
