-- ===== src/Proto.antt =====
-- The messages of DNW_Server/protoc/proto/scene.txt and command.txt, as the accessors of the
-- generated code read them. A player's fields and a request's fields hold the value that the
-- accessor returns, the default where the field is unset; the replies of the hall keep which of
-- their fields are set. An `int32` is its bit pattern, a `float` too, since the server copies
-- floats and computes nothing with them.
use jira_game.Base.{Bool, List, Option, Text, [], false, none, ℕ}

pub data TeamType : Type 0 where
  team_a team_b : TeamType

pub data RoomType : Type 0 where
  rt_idle rt_join_room rt_wait rt_ok : RoomType

pub data PlayerStatus : Type 0 where
  ps_none ps_idle ps_run ps_q ps_w ps_e ps_r ps_death ps_cding : PlayerStatus

pub record Position3D : Type 0 where
  pub x : Text
  pub y : Text
  pub z : Text

pub record PlayerInfo : Type 0 where
  pub socket : ℕ
  pub is_room_ctl : Bool
  pub role_id : ℕ
  pub role_type : ℕ
  pub name : Text
  pub level : ℕ
  pub hp : ℕ
  pub mp : ℕ
  pub attack : ℕ
  pub move_speed : ℕ
  pub team : TeamType
  pub room_state : RoomType
  pub room_id : ℕ
  pub team_id : ℕ
  pub game_waite : Bool
  pub position : Position3D
  pub rotation : Position3D
  pub scale : Position3D
  pub player_status : PlayerStatus

abbrev pub default_position : Position3D
default_position = record { x = []; y = []; z = [] }

-- `new PBMessage::PlayerInfo()`, and what `add_playerinfo` and `add_friendlist` append
abbrev pub default_player : PlayerInfo
default_player = record {
  socket = 0;
  is_room_ctl = false;
  role_id = 0;
  role_type = 0;
  name = [];
  level = 0;
  hp = 0;
  mp = 0;
  attack = 0;
  move_speed = 0;
  team = team_a;
  room_state = rt_idle;
  room_id = 0;
  team_id = 0;
  game_waite = false;
  position = default_position;
  rotation = default_position;
  scale = default_position;
  player_status = ps_none;
}

pub record RoomInfo : Type 0 where
  pub room_id : ℕ
  pub room_name : Text
  pub person_count : ℕ
  pub free_person_count : ℕ
  pub players : List PlayerInfo

pub record InviteInfo : Type 0 where
  pub room_id : ℕ
  pub req_user_id : ℕ
  pub req_user_name : Text
  pub rev_user_id : ℕ
  pub team : TeamType
  pub team_id : ℕ

pub data CurScene : Type 0 where
  no_scene login_scene register_scene create_role_scene select_role_scene wait_room : CurScene
  main_scene keep_alive_scene break_line_scene : CurScene

pub data HallMsgType : Type 0 where
  auto_match create_room get_room_list join_room game_start wait_timeout leave_room : HallMsgType
  create_room_fail online_friend request_team join_team game_waite keep_alive : HallMsgType

pub data GameMainMsgType : Type 0 where
  keep_alive rsync_attr rsync_status game_over break_line : GameMainMsgType

pub record HallRequest : Type 0 where
  pub session_id : Text
  pub msg_type : HallMsgType
  pub room_name : Text
  pub user_id : ℕ
  pub invite_info : InviteInfo

pub record HallReturn : Type 0 where
  pub hall_info : Option (List RoomInfo)
  pub msg_type : Option HallMsgType
  pub room_name : Option Text
  pub room_id : Option ℕ
  pub friend_list : List PlayerInfo
  pub invite_info : Option InviteInfo

-- A cleared reply.
abbrev pub empty_hall_return : HallReturn
empty_hall_return = record {
  hall_info = none;
  msg_type = none;
  room_name = none;
  room_id = none;
  friend_list = [];
  invite_info = none;
}

pub record GameMainRequest : Type 0 where
  pub session_id : Text
  pub msg_type : GameMainMsgType
  pub player_info : PlayerInfo

pub record GameMainReturn : Type 0 where
  pub msg_type : GameMainMsgType
  pub friend_list : List PlayerInfo

pub record LoginRequest : Type 0 where
  pub user_name : Text
  pub pass_word : Text

pub data LoginReturnType : Type 0 where
  fail to_create_role to_select_role : LoginReturnType

pub record LoginReturn : Type 0 where
  pub session_id : Option Text
  pub return_type : LoginReturnType
  pub player_info : List PlayerInfo

pub record RegisterRequest : Type 0 where
  pub user_name : Text
  pub pass_word : Text

pub data RegisterReturnType : Type 0 where
  rt_fail rt_success : RegisterReturnType

pub record CreateRoleRequest : Type 0 where
  pub session_id : Text
  pub player_info : PlayerInfo

pub data CreateRoleReturnType : Type 0 where
  crt_fail crt_success : CreateRoleReturnType

pub record CreateRoleReturn : Type 0 where
  pub return_type : CreateRoleReturnType
  pub player_info : List PlayerInfo

pub record SelectRoleRequest : Type 0 where
  pub session_id : Text
  pub role_type : ℕ

-- `Packet`: the scene, and the one reply that the server allocates in it.
pub data Reply : Type 0 where
  login_return : LoginReturn → Reply
  register_return : RegisterReturnType → Reply
  create_role_return : CreateRoleReturn → Reply
  -- the `userId`, if it is set
  select_role_return : Option ℕ → Reply
  hall_return : HallReturn → Reply
  game_main_return : GameMainReturn → Reply

pub record Packet : Type 0 where
  pub cur_scene : CurScene
  pub reply : Reply

-- `UnPacket`: the scene and the requests that the server reads.
pub record UnPacket : Type 0 where
  pub cur_scene : CurScene
  pub login_request : LoginRequest
  pub register_request : RegisterRequest
  pub create_role_request : CreateRoleRequest
  pub select_role_request : SelectRoleRequest
  pub hall_request : HallRequest
  pub game_main_request : GameMainRequest
  -- `keepalive().curscene()`
  pub keep_alive : CurScene
