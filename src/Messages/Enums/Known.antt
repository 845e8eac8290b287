-- ===== src/Messages/Enums/Known.antt =====
-- A number that was written for a member of an enum is read as that member.
use jira_game.Base.{arith, refl}
use jira_game.Proto.{
  GameMainMsgType, HallMsgType, break_line_scene, create_role_scene, crt_fail, crt_success, fail,
  keep_alive_scene, login_scene, main_scene, no_scene, ps_cding, ps_death, ps_e, ps_idle, ps_none,
  ps_q, ps_r, ps_run, ps_w, register_scene, rt_fail, rt_idle, rt_join_room, rt_ok, rt_success,
  rt_wait, select_role_scene, team_a, team_b, to_create_role, to_select_role, wait_room,
}
use jira_game.Messages.Parser.Fields.{EnumLaws}
use jira_game.Messages.Enums.{
  asyn_info, create_info, create_role_return_type, create_role_return_type_number, cur_scene,
  cur_scene_number, destroy_info, game_main_msg_type, game_main_msg_type_number, hall_msg_type,
  hall_msg_type_number, id_info, login_return_type, login_return_type_number, message_type,
  message_type_number, move_info, player_status, player_status_number, register_return_type,
  register_return_type_number, room_type, room_type_number, team_type, team_type_number, text_info,
}

pub team_type_lem : EnumLaws team_type_number team_type
team_type_lem team_a = (refl, omega arith)
team_type_lem team_b = (refl, omega arith)

pub room_type_lem : EnumLaws room_type_number room_type
room_type_lem rt_idle = (refl, omega arith)
room_type_lem rt_join_room = (refl, omega arith)
room_type_lem rt_wait = (refl, omega arith)
room_type_lem rt_ok = (refl, omega arith)

pub player_status_lem : EnumLaws player_status_number player_status
player_status_lem ps_none = (refl, omega arith)
player_status_lem ps_idle = (refl, omega arith)
player_status_lem ps_run = (refl, omega arith)
player_status_lem ps_q = (refl, omega arith)
player_status_lem ps_w = (refl, omega arith)
player_status_lem ps_e = (refl, omega arith)
player_status_lem ps_r = (refl, omega arith)
player_status_lem ps_death = (refl, omega arith)
player_status_lem ps_cding = (refl, omega arith)

pub cur_scene_lem : EnumLaws cur_scene_number cur_scene
cur_scene_lem no_scene = (refl, omega arith)
cur_scene_lem login_scene = (refl, omega arith)
cur_scene_lem register_scene = (refl, omega arith)
cur_scene_lem create_role_scene = (refl, omega arith)
cur_scene_lem select_role_scene = (refl, omega arith)
cur_scene_lem wait_room = (refl, omega arith)
cur_scene_lem main_scene = (refl, omega arith)
cur_scene_lem keep_alive_scene = (refl, omega arith)
cur_scene_lem break_line_scene = (refl, omega arith)

pub message_type_lem : EnumLaws message_type_number message_type
message_type_lem id_info = (refl, omega arith)
message_type_lem create_info = (refl, omega arith)
message_type_lem text_info = (refl, omega arith)
message_type_lem move_info = (refl, omega arith)
message_type_lem destroy_info = (refl, omega arith)
message_type_lem asyn_info = (refl, omega arith)

pub login_return_type_lem : EnumLaws login_return_type_number login_return_type
login_return_type_lem fail = (refl, omega arith)
login_return_type_lem to_create_role = (refl, omega arith)
login_return_type_lem to_select_role = (refl, omega arith)

pub register_return_type_lem : EnumLaws register_return_type_number register_return_type
register_return_type_lem rt_fail = (refl, omega arith)
register_return_type_lem rt_success = (refl, omega arith)

pub create_role_return_type_lem : EnumLaws create_role_return_type_number create_role_return_type
create_role_return_type_lem crt_fail = (refl, omega arith)
create_role_return_type_lem crt_success = (refl, omega arith)

pub hall_msg_type_lem : EnumLaws hall_msg_type_number hall_msg_type
hall_msg_type_lem HallMsgType.auto_match = (refl, omega arith)
hall_msg_type_lem HallMsgType.create_room = (refl, omega arith)
hall_msg_type_lem HallMsgType.get_room_list = (refl, omega arith)
hall_msg_type_lem HallMsgType.join_room = (refl, omega arith)
hall_msg_type_lem HallMsgType.game_start = (refl, omega arith)
hall_msg_type_lem HallMsgType.wait_timeout = (refl, omega arith)
hall_msg_type_lem HallMsgType.leave_room = (refl, omega arith)
hall_msg_type_lem HallMsgType.create_room_fail = (refl, omega arith)
hall_msg_type_lem HallMsgType.online_friend = (refl, omega arith)
hall_msg_type_lem HallMsgType.request_team = (refl, omega arith)
hall_msg_type_lem HallMsgType.join_team = (refl, omega arith)
hall_msg_type_lem HallMsgType.game_waite = (refl, omega arith)
hall_msg_type_lem HallMsgType.keep_alive = (refl, omega arith)

pub game_main_msg_type_lem : EnumLaws game_main_msg_type_number game_main_msg_type
game_main_msg_type_lem GameMainMsgType.keep_alive = (refl, omega arith)
game_main_msg_type_lem GameMainMsgType.rsync_attr = (refl, omega arith)
game_main_msg_type_lem GameMainMsgType.rsync_status = (refl, omega arith)
game_main_msg_type_lem GameMainMsgType.game_over = (refl, omega arith)
game_main_msg_type_lem GameMainMsgType.break_line = (refl, omega arith)
