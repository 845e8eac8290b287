-- ===== src/Hall/Leave.antt =====
-- `CHallScene::LeaveRoom` of DNW_Server/Server/GameLogic/SceneChain/HallScene.cpp. From line 656 on
-- it is the same code as `CKeepAliveInfo::LeaveRoom` of KeepAlive.cpp: `depart`.
pub mod Replaced
pub mod Players
pub mod Outcome
use jira_game.Base.{
  Bool, List, Option, [], if◌then◌else◌, inc32, none, some, true, ℕ, ◌&&◌, ◌==◌, ◌>>=◌, ◌∷◌,
}
use jira_game.World.{World, on_cache}
use jira_game.Cache.{
  Cache, create_room, entity_room_remove_member, find_entity_room, get_entity, set_role_info,
}
use jira_game.Proto.{
  HallMsgType, HallReturn, PlayerInfo, RoomInfo, default_player, empty_hall_return, rt_idle,
}
use jira_game.JiraEvent.{send_all, send_msg}
use jira_game.Hall.Replies.{hall_packet, sockets}

abbrev pub take_control : PlayerInfo → PlayerInfo
take_control p = record p { is_room_ctl = true }

-- `set_roomid(0); set_roomstate(RT_Idle);`
abbrev pub set_idle : PlayerInfo → PlayerInfo
set_idle p = record p { room_id = 0; room_state = rt_idle }

-- The loop that copies the players that stay: those with another role id than the leaver. While
-- `promote` holds (`isroomctl() && leader == false`) the next that stays takes over the control;
-- that player is the second result.
unfoldable pub stayers : ℕ → Bool → List PlayerInfo → List PlayerInfo × Option PlayerInfo
stayers role promote [] = ([], none)
stayers role promote (p ∷ ps) =
    let gone = p.role_id == role in
    let (qs, heir) = stayers role (promote && gone) ps in
    if gone
    then (qs, heir)
    else if promote
    then (take_control p ∷ qs, some (take_control p))
    else (p ∷ qs, heir)

-- The new room, a copy with one more free place.
unfoldable pub room_after : RoomInfo → List PlayerInfo → RoomInfo
room_after room players = record {
  room_id = room.room_id;
  room_name = room.room_name;
  person_count = room.person_count;
  free_person_count = inc32 room.free_person_count;
  players = players;
}

-- The first entry of the reply stands for the leaver.
unfoldable pub leaver_info : PlayerInfo → PlayerInfo
leaver_info me = record default_player {
  role_id = me.role_id;
  is_room_ctl = me.is_room_ctl;
  team = me.team;
  team_id = me.team_id;
}

abbrev pub heir_list : Option PlayerInfo → List PlayerInfo
heir_list none = []
heir_list (some p) = p ∷ []

unfoldable pub left_reply : PlayerInfo → Option PlayerInfo → HallReturn
unfolding leaver_info
left_reply leaver heir = record empty_hall_return {
  msg_type = some HallMsgType.leave_room;
  friend_list = leaver ∷ heir_list heir;
}

-- `GetEntity(_playerInfo->socket())->getRoleInfo()->set_isroomctl(true)`, without a null check
unfoldable pub promote_entity : Option PlayerInfo → Cache → Option Cache
promote_entity none c = some c
promote_entity (some p) c =
    get_entity p.socket c >>= λ _. some (set_role_info p.socket take_control c)

-- `EntityRoomRemoveMember(id); CreateRoom(id, newRoomInfo);`
unfoldable pub replace_room : ℕ → RoomInfo → Cache → Cache
replace_room id room c = create_room id room (entity_room_remove_member id c)

-- The leaver was the last one.
unfoldable pub close_room : ℕ → ℕ → Cache → Cache
close_room socket id c = set_role_info socket set_idle (entity_room_remove_member id c)

-- Lines 676 to 738, for the players that stay and the one of them that takes over the control.
unfoldable pub leave_others :
    ℕ → PlayerInfo → RoomInfo → List PlayerInfo → Option PlayerInfo → World → Option World
unfolding room_after leaver_info left_reply promote_entity replace_room
leave_others socket me room staying heir w = promote_entity heir w.cache >>= λ c.
    let c' = replace_room me.room_id (room_after room staying) (set_role_info socket set_idle c) in
    some (
      send_all (sockets staying) (hall_packet (left_reply (leaver_info me) heir))
        (record w { cache = c' }))

unfoldable pub depart_room : ℕ → PlayerInfo → RoomInfo → World → Option World
unfolding stayers leave_others close_room
depart_room socket me room w =
    let (staying, heir) = stayers me.role_id me.is_room_ctl room.players in
    if room.person_count == inc32 room.free_person_count
    then some (on_cache (close_room socket me.room_id) w)
    else leave_others socket me room staying heir w

unfoldable pub depart : ℕ → World → Option World
unfolding depart_room
depart socket w = get_entity socket w.cache >>= λ e.
    elim (find_entity_room e.role_info.room_id w.cache) [
      | none ↦ some w
      | some room ↦ depart_room socket e.role_info room w
    ]

-- The leaver is told first, whatever happens then.
unfoldable pub leave_room : ℕ → World → Option World
unfolding depart
leave_room socket w = depart socket (
    send_msg socket
      (hall_packet (record empty_hall_return { msg_type = some HallMsgType.leave_room })) w)
