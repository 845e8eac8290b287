-- ===== src/Messages/Enums.antt =====
-- The enums of DNW_Server/protoc/proto/scene.txt and command.txt by their numbers: the `IsValid` and
-- the cast of DNW_Server/include/protoFiles.
pub mod Known
use jira_game.Base.{List, Option, [], if◌then◌else◌, none, some, ℕ, ◌==◌, ◌∷◌}
use jira_game.Proto.{
  CreateRoleReturnType, CurScene, GameMainMsgType, HallMsgType, LoginReturnType, PlayerStatus,
  RegisterReturnType, RoomType, TeamType, break_line_scene, create_role_scene, crt_fail,
  crt_success, fail, keep_alive_scene, login_scene, main_scene, no_scene, ps_cding, ps_death, ps_e,
  ps_idle, ps_none, ps_q, ps_r, ps_run, ps_w, register_scene, rt_fail, rt_idle, rt_join_room, rt_ok,
  rt_success, rt_wait, select_role_scene, team_a, team_b, to_create_role, to_select_role, wait_room,
}

pub data MessageType : Type 0 where
  id_info create_info text_info move_info destroy_info asyn_info : MessageType

-- The member with a number.
abbrev pub value_of : {E : Type 0} → (E → ℕ) → List E → ℕ → Option E
value_of number [] v = none
value_of number (e ∷ es) v = if v == number e then some e else value_of number es v

abbrev pub team_type_number : TeamType → ℕ
team_type_number team_a = 1
team_type_number team_b = 2

abbrev pub team_type : ℕ → Option TeamType
team_type = value_of team_type_number (team_a ∷ team_b ∷ [])

abbrev pub room_type_number : RoomType → ℕ
room_type_number rt_idle = 1
room_type_number rt_join_room = 2
room_type_number rt_wait = 3
room_type_number rt_ok = 4

abbrev pub room_type : ℕ → Option RoomType
room_type = value_of room_type_number (rt_idle ∷ rt_join_room ∷ rt_wait ∷ rt_ok ∷ [])

abbrev pub player_status_number : PlayerStatus → ℕ
player_status_number ps_none = 0
player_status_number ps_idle = 1
player_status_number ps_run = 2
player_status_number ps_q = 3
player_status_number ps_w = 4
player_status_number ps_e = 5
player_status_number ps_r = 6
player_status_number ps_death = 7
player_status_number ps_cding = 8

abbrev pub player_status : ℕ → Option PlayerStatus
player_status =
    value_of player_status_number
      (ps_none ∷ ps_idle ∷ ps_run ∷ ps_q ∷ ps_w ∷ ps_e ∷ ps_r ∷ ps_death ∷ ps_cding ∷ [])

abbrev pub cur_scene_number : CurScene → ℕ
cur_scene_number no_scene = 0
cur_scene_number login_scene = 1
cur_scene_number register_scene = 2
cur_scene_number create_role_scene = 3
cur_scene_number select_role_scene = 4
cur_scene_number wait_room = 5
cur_scene_number main_scene = 6
cur_scene_number keep_alive_scene = 7
cur_scene_number break_line_scene = 8

abbrev pub cur_scene : ℕ → Option CurScene
cur_scene = value_of cur_scene_number (
    no_scene ∷ login_scene ∷ register_scene ∷ create_role_scene ∷ select_role_scene ∷ wait_room
    ∷ main_scene ∷ keep_alive_scene ∷ break_line_scene ∷ [])

abbrev pub message_type_number : MessageType → ℕ
message_type_number id_info = 0
message_type_number create_info = 1
message_type_number text_info = 2
message_type_number move_info = 3
message_type_number destroy_info = 4
message_type_number asyn_info = 5

abbrev pub message_type : ℕ → Option MessageType
message_type =
    value_of message_type_number
      (id_info ∷ create_info ∷ text_info ∷ move_info ∷ destroy_info ∷ asyn_info ∷ [])

abbrev pub login_return_type_number : LoginReturnType → ℕ
login_return_type_number fail = 0
login_return_type_number to_create_role = 1
login_return_type_number to_select_role = 2

abbrev pub login_return_type : ℕ → Option LoginReturnType
login_return_type = value_of login_return_type_number (fail ∷ to_create_role ∷ to_select_role ∷ [])

abbrev pub register_return_type_number : RegisterReturnType → ℕ
register_return_type_number rt_fail = 0
register_return_type_number rt_success = 1

abbrev pub register_return_type : ℕ → Option RegisterReturnType
register_return_type = value_of register_return_type_number (rt_fail ∷ rt_success ∷ [])

abbrev pub create_role_return_type_number : CreateRoleReturnType → ℕ
create_role_return_type_number crt_fail = 0
create_role_return_type_number crt_success = 1

abbrev pub create_role_return_type : ℕ → Option CreateRoleReturnType
create_role_return_type = value_of create_role_return_type_number (crt_fail ∷ crt_success ∷ [])

abbrev pub hall_msg_type_number : HallMsgType → ℕ
hall_msg_type_number HallMsgType.auto_match = 0
hall_msg_type_number HallMsgType.create_room = 1
hall_msg_type_number HallMsgType.get_room_list = 2
hall_msg_type_number HallMsgType.join_room = 3
hall_msg_type_number HallMsgType.game_start = 4
hall_msg_type_number HallMsgType.wait_timeout = 5
hall_msg_type_number HallMsgType.leave_room = 6
hall_msg_type_number HallMsgType.create_room_fail = 7
hall_msg_type_number HallMsgType.online_friend = 8
hall_msg_type_number HallMsgType.request_team = 9
hall_msg_type_number HallMsgType.join_team = 10
hall_msg_type_number HallMsgType.game_waite = 11
hall_msg_type_number HallMsgType.keep_alive = 12

abbrev pub hall_msg_type : ℕ → Option HallMsgType
hall_msg_type = value_of hall_msg_type_number (
    HallMsgType.auto_match ∷ HallMsgType.create_room ∷ HallMsgType.get_room_list
    ∷ HallMsgType.join_room ∷ HallMsgType.game_start ∷ HallMsgType.wait_timeout
    ∷ HallMsgType.leave_room ∷ HallMsgType.create_room_fail ∷ HallMsgType.online_friend
    ∷ HallMsgType.request_team ∷ HallMsgType.join_team ∷ HallMsgType.game_waite
    ∷ HallMsgType.keep_alive ∷ [])

abbrev pub game_main_msg_type_number : GameMainMsgType → ℕ
game_main_msg_type_number GameMainMsgType.keep_alive = 0
game_main_msg_type_number GameMainMsgType.rsync_attr = 1
game_main_msg_type_number GameMainMsgType.rsync_status = 2
game_main_msg_type_number GameMainMsgType.game_over = 3
game_main_msg_type_number GameMainMsgType.break_line = 4

abbrev pub game_main_msg_type : ℕ → Option GameMainMsgType
game_main_msg_type = value_of game_main_msg_type_number (
    GameMainMsgType.keep_alive ∷ GameMainMsgType.rsync_attr ∷ GameMainMsgType.rsync_status
    ∷ GameMainMsgType.game_over ∷ GameMainMsgType.break_line ∷ [])
