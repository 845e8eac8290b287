-- ===== src/Hall/Join.antt =====
-- `CHallScene::JoinRoom` of DNW_Server/Server/GameLogic/SceneChain/HallScene.cpp. A player who is
-- in the room already is taken out of it instead.
pub mod Outcome
use jira_game.Base.{
  Bool, List, Option, [], dec32, false, if◌then◌else◌, inc32, is_empty, none, not, some, ℕ, ◌&&◌,
  ◌++◌, ◌==◌, ◌>>=◌, ◌||◌, ◌∷◌,
}
use jira_game.World.{World, on_cache}
use jira_game.Cache.{
  Cache, entity_room_add_member, find_entity_room, get_entity, modify_room, set_role_info,
}
use jira_game.Proto.{
  HallMsgType, HallRequest, HallReturn, PlayerInfo, RoomInfo, TeamType, default_player,
  empty_hall_return, rt_join_room,
}
use jira_game.JiraEvent.{send_all}
use jira_game.Hall.Replies.{hall_packet, sockets}
use jira_game.Hall.Seats.{first_seat, idle_seats}
use jira_game.Hall.Leave.{close_room, left_reply, replace_room, room_after, set_idle, take_control}

-- The first player with the role id (the loop from line 445 on).
unfoldable pub find_role : ℕ → List PlayerInfo → Option PlayerInfo
find_role role [] = none
find_role role (p ∷ ps) = if p.role_id == role then some p else find_role role ps

-- The loop of lines 488 to 523: it learns that the leaver is the captain when it passes the
-- leaver's entry, and `leader` says that the control has been handed on.
unfoldable pub remaining : ℕ → Bool → Bool → List PlayerInfo → List PlayerInfo × Option PlayerInfo
remaining role captain leader [] = ([], none)
remaining role captain leader (p ∷ ps) =
    let gone = p.role_id == role in
    let heir_here = not gone && captain && not leader in
    let (qs, heir) = remaining role (captain || (gone && p.is_room_ctl)) (leader || heir_here) ps in
    if gone
    then (qs, heir)
    else if captain && not leader
    then (take_control p ∷ qs, some (take_control p))
    else (p ∷ qs, heir)

-- The entity of the heir, where there is one.
unfoldable pub promote_checked : Option PlayerInfo → Cache → Cache
promote_checked none c = c
promote_checked (some p) c = set_role_info p.socket take_control c

-- Lines 454 to 550, for the entry `mine` of the player who is in the room already.
unfoldable pub rejoin : ℕ → PlayerInfo → RoomInfo → World → World
unfolding remaining promote_checked replace_room close_room room_after left_reply
rejoin socket mine room w =
    let (staying, heir) = remaining mine.role_id false false room.players in
    if room.person_count == inc32 room.free_person_count
    then on_cache (close_room socket room.room_id) w
    else on_cache (set_role_info socket set_idle) (
        send_all (sockets staying) (hall_packet (left_reply mine heir)) (
          on_cache
            (λ c. replace_room room.room_id (room_after room staying) (promote_checked heir c)) w))

-- The entry of the new player.
unfoldable pub joiner : ℕ → RoomInfo → PlayerInfo → TeamType × ℕ → PlayerInfo
joiner socket room me (team, seat) = record default_player {
  room_id = room.room_id;
  is_room_ctl = false;
  socket = socket;
  role_id = me.role_id;
  name = me.name;
  role_type = me.role_type;
  room_state = rt_join_room;
  team = team;
  team_id = seat;
}

-- The writes to the joining player's own `PlayerInfo`.
unfoldable pub enter_joined : ℕ → TeamType × ℕ → PlayerInfo → PlayerInfo
enter_joined id (team, seat) me = record me {
  room_state = rt_join_room;
  room_id = id;
  team = team;
  team_id = seat;
}

abbrev pub less_free : RoomInfo → RoomInfo
less_free room = record room { free_person_count = dec32 room.free_person_count }

unfoldable pub joined_reply : RoomInfo → List PlayerInfo → HallReturn
joined_reply room members = record empty_hall_return {
  msg_type = some HallMsgType.join_team;
  room_id = some room.room_id;
  room_name = some room.room_name;
  friend_list = members;
}

-- Lines 573 to 630; `id` is the request's room id, under which the room was found.
unfoldable pub take_seat : ℕ → ℕ → PlayerInfo → RoomInfo → TeamType × ℕ → World → World
unfolding joiner enter_joined joined_reply
take_seat socket id me room seat w =
    let new = joiner socket room me seat in
    let members = room.players ++ new ∷ [] in
    send_all (sockets members) (hall_packet (joined_reply room members)) (
      on_cache
        (λ c.
          entity_room_add_member id new
            (set_role_info socket (enter_joined room.room_id seat) (modify_room id less_free c)))
        w)

unfoldable pub enter_room : ℕ → ℕ → PlayerInfo → RoomInfo → World → Option World
unfolding idle_seats first_seat rejoin take_seat find_role
enter_room socket id me room w =
    let idle = idle_seats room.players in
    elim (find_role me.role_id room.players) [
      | some mine ↦ some (rejoin socket mine room w)
      | none ↦
          if is_empty idle
          then some w
          else (first_seat idle >>= λ seat. some (take_seat socket id me room seat w))
    ]

unfoldable pub join_room : ℕ → HallRequest → World → Option World
unfolding enter_room
join_room socket req w =
    let id = req.invite_info.room_id in
    elim (find_entity_room id w.cache) [
      | none ↦ some w
      | some room ↦ (get_entity socket w.cache >>= λ e. enter_room socket id e.role_info room w)
    ]
