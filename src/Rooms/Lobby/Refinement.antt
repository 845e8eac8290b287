-- ===== src/Rooms/Lobby/Refinement.antt =====
-- The messages of the hall as steps of the lobby.
use jira_game.Base.{
  After, After->>=, After-if, After-map, After-some, Bool-cases, Option-cases, ap, inl, inr,
  is_empty, refl, some, ℕ, ◌==◌, ◌>>=◌, ◌∙◌, ◌≡◌,
}
use jira_game.Proto.{HallMsgType, HallRequest, RoomInfo, TeamType}
use jira_game.World.{World, on_cache}
use jira_game.Cache.{
  Entity, check_session_valid, find_entity_room, get_entity, get_entity_socket, set_role_info,
}
use jira_game.Hall.Replies.{sockets}
use jira_game.JiraEvent.Laws.{send_all-cache, send_msg-cache}
use jira_game.Hall.RoomId.{genrate_only_room_id}
use jira_game.Hall.RoomId.Fresh.{genrate_only_room_id-Generated}
use jira_game.Hall.Create.{create_room, found_room}
use jira_game.Hall.Leave.{depart, leave_room}
use jira_game.Hall.Join.{enter_room, find_role, join_room, joiner, take_seat}
use jira_game.Rooms.Changes.{Rooms}
use jira_game.Rooms.WellFormed.{RoomOk}
use jira_game.Rooms.Balance.{IsBalanced, IsRegular}
use jira_game.Hall.JoinTeam.{accept_seat, invited, join_team, members_but, request_team}
use jira_game.Hall.Ready.{all_player_waite, game_start, game_waite}
use jira_game.Hall.Listing.{get_room_list, online_friend, room_entries}
use jira_game.Hall.Seats.{first_seat, idle_seats}
use jira_game.JiraEvent.{send_msg}
use jira_game.Cache.Laws.{find_entity_room-set_role_info}
use jira_game.Rooms.Lobby.{Departs, Departs-LobbyStep, LobbyStep, idle, lobby, nobody, roll}
use jira_game.Rooms.Lobby.Departure.{depart-Departs}
use jira_game.Rooms.Lobby.Rejoin.{rejoin-Refined}
use jira_game.Rooms.Lobby.Steps.{
  FewMembers, Lawful, Refined, entered, quiet, quiet_all, quiet_msg, stored_new,
}
use jira_game.Hall.{dispatch, hall_logic}

module _ (s : ℕ) (req : HallRequest) (w : World) (e : Entity)
    (known : get_entity s w.cache ≡ some e) (lawful : Rooms Lawful w) where
  abbrev who : ℕ
  who = e.role_info.role_id

  abbrev Refines : World → Type 0
  Refines = Refined who w

  found_room-Refines : After Refines (found_room s req e.role_info w)
  unfolding found_room
  found_room-Refines = After->>= Refines (genrate_only_room_id w.stack w) _ (λ (id, w1) run.
      stored_new who s id req _ _ _ w w1
        (ap (λ v. v.cache) ((genrate_only_room_id-Generated w.stack w run).only_draws.1)) refl)

  create_room-Refines : After Refines (create_room s req w)
  unfolding create_room
  create_room-Refines =
      After-if Refines (is_empty req.room_name) _ _ (λ _. quiet who w w refl)
        (λ _.
          rw (known, ◌>>=◌)
            (After-if Refines (e.role_info.room_id == 0) _ _ (λ _. found_room-Refines)
              (λ _. quiet who w w refl)))

  departure-Refines :
      IsRegular s req w → (w1 : World) → w1.cache ≡ w.cache → After Refines (depart s w1)
  departure-Refines reg w1 same =
      After-map {P = λ w'. Departs who (lobby w) (lobby w')} (depart s w1)
        (λ w' out. Departs-LobbyStep out)
        (depart-Departs s w e known lawful (λ room. reg.member e room known) w1 same)

  leave_room-Refines : IsRegular s req w → After Refines (leave_room s w)
  unfolding leave_room
  leave_room-Refines reg = departure-Refines reg (send_msg s _ w) (send_msg-cache s _ w)

  take_seat-Refines :
      (id : ℕ) (room : RoomInfo) (seat : TeamType × ℕ)
      → find_entity_room id w.cache ≡ some room
      → Refines (take_seat s id e.role_info room seat w)
  unfolding take_seat joiner
  take_seat-Refines id room (team, seat) found = entered who id s room _ _ _ _ w found refl

  enter_room-Refines :
      (id : ℕ) (room : RoomInfo)
      → find_entity_room id w.cache ≡ some room
      → After Refines (enter_room s id e.role_info room w)
  unfolding enter_room
  enter_room-Refines id room found = elim (Option-cases (find_role who room.players)) [
    | inr (mine, here) ↦
        rw (here, enter_room)
          (rejoin-Refined s id room mine w e.role_info.role_id (lawful id room found) found here)
    | inl new ↦
        rw (new, enter_room)
          (After-if Refines (is_empty (idle_seats room.players)) _ _ (λ _. quiet who w w refl)
            (λ _.
              After->>= Refines (first_seat (idle_seats room.players)) _
                λ seat free. take_seat-Refines id room seat found))
  ]

  join_room-Refines : After Refines (join_room s req w)
  unfolding join_room
  join_room-Refines = elim (Option-cases (find_entity_room req.invite_info.room_id w.cache)) [
    | inl missing ↦ rw (missing, join_room) (quiet who w w refl)
    | inr (room, found) ↦
        rw (found, join_room, known, ◌>>=◌) (enter_room-Refines req.invite_info.room_id room found)
  ]

  join_team-Refines : After Refines (join_team s req w)
  unfolding join_team accept_seat invited
  join_team-Refines =
      After->>= Refines (find_entity_room req.invite_info.room_id w.cache) _ λ room found.
        elim (Option-cases
          (members_but req.invite_info.team req.invite_info.team_id room.players)) [
            | inl taken ↦ rw taken (quiet_all who _ _ w)
            | inr (ms, free) ↦
                rw (free, known, ◌>>=◌)
                  (entered who req.invite_info.room_id s room _ _ _ _ w found refl)
          ]

  request_team-Refines : After Refines (request_team s req w)
  unfolding request_team
  request_team-Refines = After->>= Refines (get_entity s w.cache) _ λ _ _.
      elim (Bool-cases (get_entity_socket req.invite_info.rev_user_id w.cache == 0)) [
        | inl nobody ↦ rw nobody (quiet who w w refl)
        | inr found ↦ rw found (quiet_msg who _ _ w)
      ]

  game_waite-Refines : After Refines (game_waite s w)
  unfolding game_waite
  game_waite-Refines = After->>= Refines (get_entity s w.cache) _ λ e1 _.
      After->>= Refines (find_entity_room e1.role_info.room_id w.cache) _ λ room _. idle (λ j.
        ap roll (
          ap (find_entity_room j)
            (send_all-cache (sockets room.players) _ (on_cache (set_role_info s _) w))
          ∙ find_entity_room-set_role_info j s _ w.cache))

  game_start-Refines : After Refines (game_start s w)
  unfolding game_start
  game_start-Refines = After->>= Refines (get_entity s w.cache) _ λ e1 _.
      After->>= Refines (find_entity_room e1.role_info.room_id w.cache) _ λ room _.
        After->>= Refines (all_player_waite e1.role_info.role_id room.players w.cache) _
          λ ready _. quiet_all who _ _ w

  get_room_list-Refines : After Refines (get_room_list s w)
  unfolding get_room_list
  get_room_list-Refines =
      After->>= Refines (room_entries w.cache.rooms) _ λ rs _. quiet_msg who s _ w

  online_friend-Refines : Refines (online_friend s req w)
  unfolding online_friend
  online_friend-Refines = quiet_msg who s _ w

  dispatch-Refines : IsRegular s req w → (m : HallMsgType) → After Refines (dispatch m s req w)
  unfolding dispatch
  dispatch-Refines reg HallMsgType.create_room = create_room-Refines
  dispatch-Refines reg HallMsgType.online_friend = online_friend-Refines
  dispatch-Refines reg HallMsgType.request_team = request_team-Refines
  dispatch-Refines reg HallMsgType.join_team = join_team-Refines
  dispatch-Refines reg HallMsgType.join_room = join_room-Refines
  dispatch-Refines reg HallMsgType.get_room_list = get_room_list-Refines
  dispatch-Refines reg HallMsgType.leave_room = leave_room-Refines reg
  dispatch-Refines reg HallMsgType.game_waite = game_waite-Refines
  dispatch-Refines reg HallMsgType.game_start = game_start-Refines
  dispatch-Refines reg _ = quiet who w w refl

-- Where every room is under its own id, for six, balanced and of fewer than 2^32 members, and the
-- client is regular: each message of the hall that returns is, in the lobby that the players see, one
-- step of the player whose client sends it, which does nothing, opens a room, enters a room, leaves a
-- room, or closes a room in which nobody else is. It moves no other player, and at most one room.
pub hall_logic-LobbyStep :
    (s : ℕ) (req : HallRequest) (w w' : World) (e : Entity)
    → get_entity s w.cache ≡ some e
    → Rooms RoomOk w
    → Rooms IsBalanced w
    → Rooms FewMembers w
    → IsRegular s req w
    → hall_logic s req w ≡ some w'
    → LobbyStep e.role_info.role_id (lobby w) (lobby w')
unfolding hall_logic
hall_logic-LobbyStep s req w w' e known ok balanced few reg run =
    let who = e.role_info.role_id in
    let lawful : Rooms Lawful w =
      λ id room found. (ok id room found, balanced id room found, few id room found) in
    After-some (Refined who w) (hall_logic s req w)
      (After-if (Refined who w) (check_session_valid s req.session_id w.cache) _ _
        (λ _. dispatch-Refines s req w e known lawful reg req.msg_type) (λ _. quiet who w w refl))
      run
