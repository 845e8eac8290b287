-- ===== src/Hall/Create.antt =====
-- `CHallScene::CreateRoom` of DNW_Server/Server/GameLogic/SceneChain/HallScene.cpp.
use jira_game.Base.{Option, [], if◌then◌else◌, is_empty, some, true, ℕ, ◌==◌, ◌>>=◌, ◌∷◌}
use jira_game.World.{World, on_cache}
use jira_game.Cache.{get_entity, set_role_info, create_room as store_room}
use jira_game.Proto.{
  HallMsgType, HallRequest, HallReturn, PlayerInfo, RoomInfo, default_player, empty_hall_return,
  rt_join_room, team_a,
}
use jira_game.JiraEvent.{send_msg}
use jira_game.Hall.RoomId.{genrate_only_room_id}
use jira_game.Hall.Replies.{hall_packet}

-- The player that the room is given: the creator, as its controller, on seat 0 of team A.
unfoldable pub first_member : ℕ → PlayerInfo → PlayerInfo
first_member socket me = record default_player {
  role_id = me.role_id;
  is_room_ctl = true;
  socket = socket;
  name = me.name;
  role_type = me.role_type;
  team = team_a;
  team_id = 0;
  room_state = rt_join_room;
}

unfoldable pub new_room : ℕ → HallRequest → PlayerInfo → RoomInfo
new_room id req member = record {
  room_id = id;
  room_name = req.room_name;
  person_count = 6;
  free_person_count = 5;
  players = member ∷ [];
}

-- The writes to the creator's own `PlayerInfo`.
unfoldable pub enter_created : ℕ → PlayerInfo → PlayerInfo
enter_created id me = record me {
  is_room_ctl = true;
  room_id = id;
  team = team_a;
  team_id = 0;
  room_state = rt_join_room;
}

unfoldable pub created_reply : ℕ → HallRequest → PlayerInfo → HallReturn
created_reply id req member = record empty_hall_return {
  room_name = some req.room_name;
  room_id = some id;
  msg_type = some HallMsgType.create_room;
  friend_list =
      record default_player {
        is_room_ctl = true;
        role_id = member.role_id;
        name = member.name;
        role_type = member.role_type;
        room_state = member.room_state;
      }
      ∷ [];
}

-- From `GenrateOnlyRoomID` on, for a creator that is in no room.
unfoldable pub found_room : ℕ → HallRequest → PlayerInfo → World → Option World
unfolding first_member new_room enter_created created_reply
found_room socket req me w = do
  (id, w') ← genrate_only_room_id w.stack w
  let member = first_member socket me
  let w'' =
      on_cache
        (λ c. set_role_info socket (enter_created id) (store_room id (new_room id req member) c)) w'
  some (send_msg socket (hall_packet (created_reply id req member)) w'')

unfoldable pub create_room : ℕ → HallRequest → World → Option World
unfolding found_room
create_room socket req w =
    if is_empty req.room_name
    then some w
    else (get_entity socket w.cache >>= λ e.
        if e.role_info.room_id == 0 then found_room socket req e.role_info w else some w)
