-- ===== src/Messages/View.antt =====
-- The requests as the accessors of DNW_Server/include/protoFiles give them to the scenes: the value of
-- a field, the default where its has-bit is not set. Of a nested message that is not set, the accessors
-- give the fields of the default instance, which is a new one.
use jira_game.Base.{Option, Text, [], false}
use jira_game.Proto.{
  CreateRoleRequest, GameMainMsgType, GameMainRequest, HallMsgType, HallRequest, InviteInfo,
  LoginRequest, PlayerInfo, Position3D, RegisterRequest, SelectRoleRequest, UnPacket, no_scene,
  ps_none, rt_idle, team_a,
}
use jira_game.Messages.Coded.{Coded}
use jira_game.Messages.Parser.{or_default, run_parser}
use jira_game.Messages.Position3D as PositionClass
use jira_game.Messages.PlayerInfo as PlayerInfoClass
use jira_game.Messages.InviteInfo as InviteInfoClass
use jira_game.Messages.KeepAliveMsg
use jira_game.Messages.LoginRequest as LoginRequestClass
use jira_game.Messages.RegisterRequest as RegisterRequestClass
use jira_game.Messages.CreateRoleRequest as CreateRoleRequestClass
use jira_game.Messages.SelectRoleRequest as SelectRoleRequestClass
use jira_game.Messages.HallRequest as HallRequestClass
use jira_game.Messages.GameMainRequest as GameMainRequestClass
use jira_game.Messages.UnPacket as UnPacketClass

module _ (W : Coded) where
  abbrev position_of : Option (PositionClass.Message W.Unknown) → Position3D
  position_of o =
      let p = or_default (PositionClass.new W) o in
      record { x = or_default [] p.x; y = or_default [] p.y; z = or_default [] p.z }

  unfoldable pub player_of : PlayerInfoClass.Message W.Unknown → PlayerInfo
  player_of p = record {
    socket = or_default 0 p.socket;
    is_room_ctl = or_default false p.is_room_ctl;
    role_id = or_default 0 p.role_id;
    role_type = or_default 0 p.role_type;
    name = or_default [] p.name;
    level = or_default 0 p.level;
    hp = or_default 0 p.hp;
    mp = or_default 0 p.mp;
    attack = or_default 0 p.attack;
    move_speed = or_default 0 p.move_speed;
    team = or_default team_a p.team;
    room_state = or_default rt_idle p.room_state;
    room_id = or_default 0 p.room_id;
    team_id = or_default 0 p.team_id;
    game_waite = or_default false p.game_waite;
    position = position_of p.pos;
    rotation = position_of p.rot;
    scale = position_of p.scale;
    player_status = or_default ps_none p.player_status;
  }

  unfoldable pub invite_of : InviteInfoClass.Message W.Unknown → InviteInfo
  invite_of i = record {
    room_id = or_default 0 i.room_id;
    req_user_id = or_default 0 i.req_user_id;
    req_user_name = or_default [] i.req_user_name;
    rev_user_id = or_default 0 i.rev_user_id;
    team = or_default team_a i.team;
    team_id = or_default 0 i.team_id;
  }

  unfoldable pub hall_request_of : HallRequestClass.Message W.Unknown → HallRequest
  unfolding invite_of
  hall_request_of r = record {
    session_id = or_default [] r.session_id;
    msg_type = or_default HallMsgType.auto_match r.msg_type;
    room_name = or_default [] r.room_name;
    user_id = or_default 0 r.user_id;
    invite_info = invite_of (or_default (InviteInfoClass.new W) r.invite_info);
  }

  unfoldable pub game_main_request_of : GameMainRequestClass.Message W.Unknown → GameMainRequest
  unfolding player_of
  game_main_request_of r = record {
    session_id = or_default [] r.session_id;
    msg_type = or_default GameMainMsgType.keep_alive r.msg_type;
    player_info = player_of (or_default (PlayerInfoClass.new W) r.player_info);
  }

  unfoldable pub create_role_request_of :
      CreateRoleRequestClass.Message W.Unknown → CreateRoleRequest
  unfolding player_of
  create_role_request_of r = record {
    session_id = or_default [] r.session_id;
    player_info = player_of (or_default (PlayerInfoClass.new W) r.player_info);
  }

  abbrev login_request_of : LoginRequestClass.Message W.Unknown → LoginRequest
  login_request_of r = record {
    user_name = or_default [] r.user_name;
    pass_word = or_default [] r.pass_word;
  }

  abbrev register_request_of : RegisterRequestClass.Message W.Unknown → RegisterRequest
  register_request_of r = record {
    user_name = or_default [] r.user_name;
    pass_word = or_default [] r.pass_word;
  }

  abbrev select_role_request_of : SelectRoleRequestClass.Message W.Unknown → SelectRoleRequest
  select_role_request_of r = record {
    session_id = or_default [] r.session_id;
    role_type = or_default 0 r.role_type;
  }

  unfoldable pub un_packet_of : UnPacketClass.Message W.Unknown → UnPacket
  unfolding hall_request_of game_main_request_of create_role_request_of
  un_packet_of p = record {
    cur_scene = or_default no_scene p.cur_scene;
    login_request = login_request_of (or_default (LoginRequestClass.new W) p.login_request);
    register_request =
        register_request_of (or_default (RegisterRequestClass.new W) p.register_request);
    create_role_request =
        create_role_request_of (or_default (CreateRoleRequestClass.new W) p.create_role_request);
    select_role_request =
        select_role_request_of (or_default (SelectRoleRequestClass.new W) p.select_role_request);
    hall_request = hall_request_of (or_default (HallRequestClass.new W) p.hall_request);
    game_main_request =
        game_main_request_of (or_default (GameMainRequestClass.new W) p.game_main_request);
    keep_alive = or_default no_scene (or_default (KeepAliveMsg.new W) p.keep_alive).cur_scene;
  }

  -- `ParseFromArray` into a new message. Its result, which also says whether required fields are
  -- missing, is not looked at.
  unfoldable pub parse_request : Text → UnPacket
  unfolding un_packet_of
  parse_request bytes =
      un_packet_of (run_parser W (UnPacketClass.parser W) bytes (UnPacketClass.new W)).0
