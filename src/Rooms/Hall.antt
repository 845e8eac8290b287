-- ===== src/Rooms/Hall.antt =====
-- A property of all rooms under every message of the hall.
use jira_game.Base.{
  ==_iff, After, After->>=, After-if, Bool-cases, List, Option-cases, [], ap, inl, inr, is_empty,
  refl, some, some_inj, subst, sym, ℕ, ◌==◌, ◌∙◌, ◌∷◌, ◌≡◌,
}
use jira_game.Proto.{
  HallMsgType, HallRequest, Packet, PlayerInfo, RoomInfo, TeamType, empty_hall_return,
}
use jira_game.World.{World}
use jira_game.Cache.{add_player, find_entity_room, get_entity, get_entity_socket}
use jira_game.Cache.EveryRoom.{set_role_info-EveryRoom}
use jira_game.JiraEvent.{send_msg}
use jira_game.JiraEvent.Laws.{send_msg-cache}
use jira_game.Hall.Replies.{hall_packet}
use jira_game.Hall.Seats.{first_seat, idle_seats}
use jira_game.Hall.Create.{create_room}
use jira_game.Hall.Leave.{leave_room}
use jira_game.Hall.Join.{enter_room, find_role, join_room, joiner, less_free, take_seat}
use jira_game.Hall.JoinTeam.{accept_seat, join_team, members_but, request_team}
use jira_game.Hall.Ready.{all_player_waite, game_start, game_waite}
use jira_game.Hall.Listing.{get_room_list, online_friend, room_entries}
use jira_game.Hall.{dispatch}
use jira_game.Rooms.Changes.{Rooms, enter-EveryRoom, sent_all, sent_msg}
use jira_game.Rooms.Operations.{Stores, depart-Rooms, found_room-Rooms, rejoin-Rooms}

pub find_role-role_id :
    (role : ℕ) (ps : List PlayerInfo) {p : PlayerInfo}
    → find_role role ps ≡ some p
    → p.role_id ≡ role
unfolding find_role
find_role-role_id role [] h = absurd (cc h)
find_role-role_id role (q ∷ ps) h = elim (Bool-cases (q.role_id == role)) [
  | inl hit ↦
      let e : some q ≡ some _ = rw hit at h in
      subst (λ p. p.role_id ≡ role) (some_inj e) ((==_iff q.role_id role).0 hit)
  | inr miss ↦ find_role-role_id role ps (rw miss at h)
]

module _ (P : ℕ → RoomInfo → Type 0) (s : ℕ) (req : HallRequest) (w : World) (m : HallMsgType)
    (stores : Stores P s req w m) (h : Rooms P w) where
  create_room-Rooms : After (Rooms P) (create_room s req w)
  unfolding create_room
  create_room-Rooms =
      After-if (Rooms P) (is_empty req.room_name) _ _ (λ _. h)
        (λ _. After->>= (Rooms P) (get_entity s w.cache) _ λ e _.
          After-if (Rooms P) (e.role_info.room_id == 0) _ _
            (λ _. found_room-Rooms P s req e.role_info w (λ id. stores.created id e.role_info) h)
            (λ _. h))

  leave_room-Rooms : After (Rooms P) (leave_room s w)
  unfolding leave_room
  leave_room-Rooms =
      depart-Rooms P s (send_msg s packet w)
        (λ e room he hr.
          stores.left e room (ap (get_entity s) (sym (send_msg-cache s packet w)) ∙ he)
            (ap (find_entity_room e.role_info.room_id) (sym (send_msg-cache s packet w)) ∙ hr))
        (sent_msg P s packet w h)
    where
      packet : Packet
      packet = hall_packet (record empty_hall_return { msg_type = some HallMsgType.leave_room })

  take_seat-Rooms :
      (id : ℕ) (me : PlayerInfo) (room : RoomInfo) (seat : TeamType × ℕ)
      → find_entity_room id w.cache ≡ some room
      → P id (add_player (joiner s room me seat) (less_free room))
      → Rooms P (take_seat s id me room seat w)
  unfolding take_seat
  take_seat-Rooms id me room seat found new =
      sent_all P _ _ _ (enter-EveryRoom P s id room _ _ w.cache found new h)

  enter_room-Rooms :
      (id : ℕ) (me : PlayerInfo) (room : RoomInfo)
      → find_entity_room id w.cache ≡ some room
      → After (Rooms P) (enter_room s id me room w)
  unfolding enter_room
  enter_room-Rooms id me room found = elim (Option-cases (find_role me.role_id room.players)) [
    | inr (mine, e) ↦
        rw (e, enter_room)
          (rejoin-Rooms P s mine room w
            (stores.rejoined id room mine found (
              subst (λ k. find_role k room.players ≡ some mine)
                (sym (find_role-role_id me.role_id room.players e)) e))
            h)
    | inl new ↦
        rw (new, enter_room)
          (After-if (Rooms P) (is_empty (idle_seats room.players)) _ _ (λ _. h)
            (λ _. After->>= (Rooms P) (first_seat (idle_seats room.players)) _ λ seat free.
              take_seat-Rooms id me room seat found (stores.seated id me room seat found new free)))
  ]

  join_room-Rooms : After (Rooms P) (join_room s req w)
  unfolding join_room
  join_room-Rooms = elim (Option-cases (find_entity_room req.invite_info.room_id w.cache)) [
    | inl missing ↦ rw (missing, join_room) h
    | inr (room, found) ↦
        rw (found, join_room)
          (After->>= (Rooms P) (get_entity s w.cache) _
            λ e _. enter_room-Rooms req.invite_info.room_id e.role_info room found)
  ]

  join_team-Rooms : m ≡ HallMsgType.join_team → After (Rooms P) (join_team s req w)
  unfolding join_team accept_seat
  join_team-Rooms hm =
      After->>= (Rooms P) (find_entity_room req.invite_info.room_id w.cache) _ λ room found.
        elim (Option-cases
          (members_but req.invite_info.team req.invite_info.team_id room.players)) [
            | inl taken ↦ rw taken (sent_all P _ _ w h)
            | inr (ms, free) ↦ rw free (
                After->>= (Rooms P) (get_entity s w.cache) _ λ e he. sent_all P _ _ _ (
                  enter-EveryRoom P s req.invite_info.room_id room _ _ w.cache found
                    (stores.accepted e room ms hm he found free) h))
          ]

  request_team-Rooms : After (Rooms P) (request_team s req w)
  unfolding request_team
  request_team-Rooms = After->>= (Rooms P) (get_entity s w.cache) _ λ e _.
      elim (Bool-cases (get_entity_socket req.invite_info.rev_user_id w.cache == 0)) [
        | inl nobody ↦ rw nobody h
        | inr found ↦ rw found (sent_msg P _ _ w h)
      ]

  game_waite-Rooms : After (Rooms P) (game_waite s w)
  unfolding game_waite
  game_waite-Rooms = After->>= (Rooms P) (get_entity s w.cache) _ λ e _.
      After->>= (Rooms P) (find_entity_room e.role_info.room_id w.cache) _
        λ room _. sent_all P _ _ _ (set_role_info-EveryRoom P s _ w.cache h)

  game_start-Rooms : After (Rooms P) (game_start s w)
  unfolding game_start
  game_start-Rooms = After->>= (Rooms P) (get_entity s w.cache) _ λ e _.
      After->>= (Rooms P) (find_entity_room e.role_info.room_id w.cache) _ λ room _.
        After->>= (Rooms P) (all_player_waite e.role_info.role_id room.players w.cache) _
          λ ready _. sent_all P _ _ w h

  get_room_list-Rooms : After (Rooms P) (get_room_list s w)
  unfolding get_room_list
  get_room_list-Rooms =
      After->>= (Rooms P) (room_entries w.cache.rooms) _ λ rs _. sent_msg P _ _ w h

  online_friend-Rooms : Rooms P (online_friend s req w)
  unfolding online_friend
  online_friend-Rooms = sent_msg P _ _ w h

-- Whatever the message, only the rooms that an operation stores have to be looked at.
pub dispatch-Rooms :
    (P : ℕ → RoomInfo → Type 0) (s : ℕ) (req : HallRequest) (w : World) (m : HallMsgType)
    → Stores P s req w m
    → Rooms P w
    → After (Rooms P) (dispatch m s req w)
unfolding dispatch
dispatch-Rooms P s req w HallMsgType.create_room st h =
    create_room-Rooms P s req w HallMsgType.create_room st h
dispatch-Rooms P s req w HallMsgType.online_friend st h =
    online_friend-Rooms P s req w HallMsgType.online_friend st h
dispatch-Rooms P s req w HallMsgType.request_team st h =
    request_team-Rooms P s req w HallMsgType.request_team st h
dispatch-Rooms P s req w HallMsgType.join_team st h =
    join_team-Rooms P s req w HallMsgType.join_team st h refl
dispatch-Rooms P s req w HallMsgType.join_room st h =
    join_room-Rooms P s req w HallMsgType.join_room st h
dispatch-Rooms P s req w HallMsgType.get_room_list st h =
    get_room_list-Rooms P s req w HallMsgType.get_room_list st h
dispatch-Rooms P s req w HallMsgType.leave_room st h =
    leave_room-Rooms P s req w HallMsgType.leave_room st h
dispatch-Rooms P s req w HallMsgType.game_waite st h =
    game_waite-Rooms P s req w HallMsgType.game_waite st h
dispatch-Rooms P s req w HallMsgType.game_start st h =
    game_start-Rooms P s req w HallMsgType.game_start st h
dispatch-Rooms P s req w _ st h = h
