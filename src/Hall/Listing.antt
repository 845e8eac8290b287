-- ===== src/Hall/Listing.antt =====
-- `CHallScene::OnlineFriend` and `CHallScene::GetRoomList` of
-- DNW_Server/Server/GameLogic/SceneChain/HallScene.cpp.
use jira_game.Base.{Dict, List, Option, [], get_elem?, if◌then◌else◌, some, ℕ, ◌==◌, ◌>>=◌, ◌∷◌}
use jira_game.World.{World}
use jira_game.Cache.{Entity}
use jira_game.Proto.{
  HallMsgType, HallRequest, PlayerInfo, RoomInfo, default_player, empty_hall_return,
}
use jira_game.JiraEvent.{send_msg}
use jira_game.Hall.Replies.{hall_packet}

unfoldable pub friend_info : PlayerInfo → PlayerInfo
friend_info p = record default_player {
  role_id = p.role_id;
  name = p.name;
  room_state = p.room_state;
}

-- The entities that are not broken and play another role than the one asked for.
unfoldable pub online_friends : ℕ → Dict Entity → List PlayerInfo
unfolding friend_info
online_friends user [] = []
online_friends user ((s, e) ∷ es) =
    let rest = online_friends user es in
    if e.is_broken
    then rest
    else if e.role_info.role_id == user
    then rest
    else friend_info e.role_info ∷ rest

unfoldable pub online_friend : ℕ → HallRequest → World → World
unfolding online_friends
online_friend socket req w =
    send_msg socket
      (hall_packet (record empty_hall_return {
        friend_list = online_friends req.user_id w.cache.entities;
        msg_type = some HallMsgType.online_friend;
      }))
      w

-- One entry of the list: the counts of the room, and the state of its first player, which is read
-- without a check that there is one.
unfoldable pub room_entry : ℕ → RoomInfo → Option RoomInfo
room_entry id room = get_elem? room.players 0 >>= λ p. some (record {
  room_id = id;
  room_name = room.room_name;
  person_count = room.person_count;
  free_person_count = room.free_person_count;
  players = record default_player { room_state = p.room_state } ∷ [];
})

unfoldable pub room_entries : Dict RoomInfo → Option (List RoomInfo)
unfolding room_entry
room_entries [] = some []
room_entries ((id, room) ∷ rooms) =
    room_entry id room >>= λ r. (room_entries rooms >>= λ rs. some (r ∷ rs))

unfoldable pub get_room_list : ℕ → World → Option World
unfolding room_entries
get_room_list socket w = room_entries w.cache.rooms >>= λ rs. some (
    send_msg socket
      (hall_packet (record empty_hall_return {
        msg_type = some HallMsgType.get_room_list;
        hall_info = some rs;
      }))
      w)
