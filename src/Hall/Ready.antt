-- ===== src/Hall/Ready.antt =====
-- `CHallScene::GameWaite` and `CHallScene::GameStart` of
-- DNW_Server/Server/GameLogic/SceneChain/HallScene.cpp.
pub mod Outcome
use jira_game.Base.{
  Bool, List, Option, [], false, if◌then◌else◌, none, not, some, true, ℕ, ◌==◌, ◌>>=◌, ◌∷◌,
}
use jira_game.World.{World, on_cache}
use jira_game.Cache.{Cache, find_entity_room, get_entity, set_role_info}
use jira_game.Proto.{
  HallMsgType, HallReturn, PlayerInfo, RoomInfo, default_player, empty_hall_return, rt_join_room,
  rt_wait,
}
use jira_game.JiraEvent.{send_all}
use jira_game.Hall.Replies.{hall_packet, sockets}
use jira_game.Hall.Join.{find_role}

-- The reply's one entry: the new state of waiting, and the seat of the first member with the
-- player's role.
unfoldable pub waite_info : Bool → Option PlayerInfo → PlayerInfo
waite_info waite none = record default_player { game_waite = waite }
waite_info waite (some p) = record default_player {
  game_waite = waite;
  room_state = if waite then rt_wait else rt_join_room;
  team = p.team;
  team_id = p.team_id;
}

abbrev pub set_waite : Bool → PlayerInfo → PlayerInfo
set_waite waite p = record p { game_waite = waite }

-- The room is not checked: where the player is in none, line 758 reads through the null pointer.
unfoldable pub game_waite : ℕ → World → Option World
unfolding find_role waite_info
game_waite socket w = get_entity socket w.cache >>= λ e.
    let me = e.role_info in
    let waite = not me.game_waite in
    find_entity_room me.room_id w.cache >>= λ room.
    let reply = record empty_hall_return {
      msg_type = some HallMsgType.game_waite;
      friend_list = waite_info waite (find_role me.role_id room.players) ∷ [];
    } in
    some (
      send_all (sockets room.players) (hall_packet reply)
        (on_cache (set_role_info socket (set_waite waite)) w))

-- Whether every other member waits. The entity of a member is not checked for null.
unfoldable pub all_player_waite : ℕ → List PlayerInfo → Cache → Option Bool
all_player_waite role [] c = some true
all_player_waite role (p ∷ ps) c =
    let rest = all_player_waite role ps c in
    if p.role_id == role
    then rest
    else (get_entity p.socket c >>= λ e. if e.role_info.game_waite then rest else some false)

unfoldable pub start_reply : Bool → RoomInfo → HallReturn
start_reply ready room = record empty_hall_return {
  msg_type = some HallMsgType.game_start;
  friend_list = if ready then room.players else [];
}

unfoldable pub game_start : ℕ → World → Option World
unfolding all_player_waite start_reply
game_start socket w = get_entity socket w.cache >>= λ e.
    find_entity_room e.role_info.room_id w.cache >>= λ room.
    all_player_waite e.role_info.role_id room.players w.cache >>= λ ready.
    some (send_all (sockets room.players) (hall_packet (start_reply ready room)) w)
