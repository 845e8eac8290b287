-- ===== src/Messages/UnPacket.antt =====
-- The message UnPacket of DNW_Server/protoc/proto/command.txt, as the generated class of
-- DNW_Server/include/protoFiles/command.txt.pb.cc.
pub mod Format
use jira_game.Base.{List, Option, Text, [], none, ℕ, ◌∷◌}
use jira_game.Proto.{
  CurScene, create_role_return, game_main_return, hall_return, keep_alive, login_return,
  register_return, select_role_return,
}
use jira_game.Messages.Kit.{
  Class, Coded, MessageType, Parser, cur_scene, cur_scene_number, enum_case, enum_part,
  message_part, message_type, message_type_number, optional_case, over, over_message, part_size,
  run_parser, total, written,
}
use jira_game.Messages.LoginRequest
use jira_game.Messages.LoginReturn
use jira_game.Messages.RegisterRequest
use jira_game.Messages.RegisterReturn
use jira_game.Messages.CreateRoleRequest
use jira_game.Messages.CreateRoleReturn
use jira_game.Messages.SelectRoleRequest
use jira_game.Messages.SelectRoleReturn
use jira_game.Messages.HallRequest
use jira_game.Messages.HallReturn
use jira_game.Messages.GameMainRequest
use jira_game.Messages.GameMainReturn
use jira_game.Messages.KeepAliveMsg

pub record Message (U : Type 0) : Type 0 where
  pub cur_scene : Option CurScene
  pub msg_type : Option MessageType
  pub login_request : Option (LoginRequest.Message U)
  pub login_return : Option (LoginReturn.Message U)
  pub register_request : Option (RegisterRequest.Message U)
  pub register_return : Option (RegisterReturn.Message U)
  pub create_role_request : Option (CreateRoleRequest.Message U)
  pub create_role_return : Option (CreateRoleReturn.Message U)
  pub select_role_request : Option (SelectRoleRequest.Message U)
  pub select_role_return : Option (SelectRoleReturn.Message U)
  pub hall_request : Option (HallRequest.Message U)
  pub hall_return : Option (HallReturn.Message U)
  pub game_main_request : Option (GameMainRequest.Message U)
  pub game_main_return : Option (GameMainReturn.Message U)
  pub keep_alive : Option (KeepAliveMsg.Message U)
  pub unknown : U

abbrev pub new : (W : Coded) → Message W.Unknown
new W = record {
  cur_scene = none;
  msg_type = none;
  login_request = none;
  login_return = none;
  register_request = none;
  register_return = none;
  create_role_request = none;
  create_role_return = none;
  select_role_request = none;
  select_role_return = none;
  hall_request = none;
  hall_return = none;
  game_main_request = none;
  game_main_return = none;
  keep_alive = none;
  unknown = W.no_fields;
}

abbrev pub parser : (W : Coded) → Parser W.Unknown (Message W.Unknown)
parser W = record {
  cutoff = 127;
  table =
      (
        1,
        8,
        enum_case 1 (record { get = λ m. m.cur_scene; put = λ v m. record m { cur_scene = v } })
            cur_scene,
      )
      ∷ (
        2,
        16,
        enum_case 2 (record { get = λ m. m.msg_type; put = λ v m. record m { msg_type = v } })
            message_type,
      )
      ∷ (
        3,
        26,
        optional_case
            (record { get = λ m. m.login_request; put = λ v m. record m { login_request = v } })
            (LoginRequest.new W) (run_parser W (LoginRequest.parser W)),
      )
      ∷ (
        4,
        34,
        optional_case
            (record { get = λ m. m.login_return; put = λ v m. record m { login_return = v } })
            (LoginReturn.new W) (run_parser W (LoginReturn.parser W)),
      )
      ∷ (
        5,
        42,
        optional_case
            (record {
              get = λ m. m.register_request;
              put = λ v m. record m { register_request = v };
            })
            (RegisterRequest.new W) (run_parser W (RegisterRequest.parser W)),
      )
      ∷ (
        6,
        50,
        optional_case
            (record { get = λ m. m.register_return; put = λ v m. record m { register_return = v } })
            (RegisterReturn.new W) (run_parser W (RegisterReturn.parser W)),
      )
      ∷ (
        7,
        58,
        optional_case
            (record {
              get = λ m. m.create_role_request;
              put = λ v m. record m { create_role_request = v };
            })
            (CreateRoleRequest.new W) (run_parser W (CreateRoleRequest.parser W)),
      )
      ∷ (
        8,
        66,
        optional_case
            (record {
              get = λ m. m.create_role_return;
              put = λ v m. record m { create_role_return = v };
            })
            (CreateRoleReturn.new W) (run_parser W (CreateRoleReturn.parser W)),
      )
      ∷ (
        9,
        74,
        optional_case
            (record {
              get = λ m. m.select_role_request;
              put = λ v m. record m { select_role_request = v };
            })
            (SelectRoleRequest.new W) (run_parser W (SelectRoleRequest.parser W)),
      )
      ∷ (
        10,
        82,
        optional_case
            (record {
              get = λ m. m.select_role_return;
              put = λ v m. record m { select_role_return = v };
            })
            (SelectRoleReturn.new W) (run_parser W (SelectRoleReturn.parser W)),
      )
      ∷ (
        11,
        90,
        optional_case
            (record { get = λ m. m.hall_request; put = λ v m. record m { hall_request = v } })
            (HallRequest.new W) (run_parser W (HallRequest.parser W)),
      )
      ∷ (
        12,
        98,
        optional_case
            (record { get = λ m. m.hall_return; put = λ v m. record m { hall_return = v } })
            (HallReturn.new W) (run_parser W (HallReturn.parser W)),
      )
      ∷ (
        13,
        106,
        optional_case
            (record {
              get = λ m. m.game_main_request;
              put = λ v m. record m { game_main_request = v };
            })
            (GameMainRequest.new W) (run_parser W (GameMainRequest.parser W)),
      )
      ∷ (
        14,
        114,
        optional_case
            (record {
              get = λ m. m.game_main_return;
              put = λ v m. record m { game_main_return = v };
            })
            (GameMainReturn.new W) (run_parser W (GameMainReturn.parser W)),
      )
      ∷ (
        15,
        122,
        optional_case (record { get = λ m. m.keep_alive; put = λ v m. record m { keep_alive = v } })
            (KeepAliveMsg.new W) (run_parser W (KeepAliveMsg.parser W)),
      )
      ∷ [];
  unknown = λ m. m.unknown;
  set_unknown = λ u m. record m { unknown = u };
}

-- What is written, in this order.
abbrev pub parts : (W : Coded) → Message W.Unknown → List Text
parts W m =
    enum_part W cur_scene_number 1 m.cur_scene
    ∷ enum_part W message_type_number 2 m.msg_type
    ∷ message_part W (LoginRequest.serialize W) 3 m.login_request
    ∷ message_part W (LoginReturn.serialize W) 4 m.login_return
    ∷ message_part W (RegisterRequest.serialize W) 5 m.register_request
    ∷ message_part W (RegisterReturn.serialize W) 6 m.register_return
    ∷ message_part W (CreateRoleRequest.serialize W) 7 m.create_role_request
    ∷ message_part W (CreateRoleReturn.serialize W) 8 m.create_role_return
    ∷ message_part W (SelectRoleRequest.serialize W) 9 m.select_role_request
    ∷ message_part W (SelectRoleReturn.serialize W) 10 m.select_role_return
    ∷ message_part W (HallRequest.serialize W) 11 m.hall_request
    ∷ message_part W (HallReturn.serialize W) 12 m.hall_return
    ∷ message_part W (GameMainRequest.serialize W) 13 m.game_main_request
    ∷ message_part W (GameMainReturn.serialize W) 14 m.game_main_return
    ∷ message_part W (KeepAliveMsg.serialize W) 15 m.keep_alive
    ∷ W.write_unknown m.unknown
    ∷ []

unfoldable pub serialize : (W : Coded) → Message W.Unknown → Text
serialize W m = written (parts W m)

unfoldable pub byte_size : (W : Coded) → Message W.Unknown → ℕ
byte_size W m = total (
    W.unknown_size m.unknown
    ∷ part_size 1 (λ e. W.enum.size (cur_scene_number e)) m.cur_scene
    ∷ part_size 1 (λ b. W.message_size (LoginRequest.byte_size W b)) m.login_request
    ∷ part_size 1 (λ b. W.message_size (LoginReturn.byte_size W b)) m.login_return
    ∷ part_size 1 (λ b. W.message_size (RegisterRequest.byte_size W b)) m.register_request
    ∷ part_size 1 (λ b. W.message_size (RegisterReturn.byte_size W b)) m.register_return
    ∷ part_size 1 (λ b. W.message_size (CreateRoleRequest.byte_size W b)) m.create_role_request
    ∷ part_size 1 (λ b. W.message_size (CreateRoleReturn.byte_size W b)) m.create_role_return
    ∷ part_size 1 (λ b. W.message_size (SelectRoleRequest.byte_size W b)) m.select_role_request
    ∷ part_size 1 (λ b. W.message_size (SelectRoleReturn.byte_size W b)) m.select_role_return
    ∷ part_size 1 (λ b. W.message_size (HallRequest.byte_size W b)) m.hall_request
    ∷ part_size 1 (λ b. W.message_size (HallReturn.byte_size W b)) m.hall_return
    ∷ part_size 1 (λ b. W.message_size (GameMainRequest.byte_size W b)) m.game_main_request
    ∷ part_size 1 (λ b. W.message_size (GameMainReturn.byte_size W b)) m.game_main_return
    ∷ part_size 1 (λ b. W.message_size (KeepAliveMsg.byte_size W b)) m.keep_alive
    ∷ part_size 1 (λ e. W.enum.size (message_type_number e)) m.msg_type
    ∷ [])

unfoldable pub merge_from : (W : Coded) → Message W.Unknown → Message W.Unknown → Message W.Unknown
merge_from W m from = record {
  cur_scene = over from.cur_scene m.cur_scene;
  msg_type = over from.msg_type m.msg_type;
  login_request =
      over_message (LoginRequest.merge_from W) (LoginRequest.new W) from.login_request
        m.login_request;
  login_return =
      over_message (LoginReturn.merge_from W) (LoginReturn.new W) from.login_return m.login_return;
  register_request =
      over_message (RegisterRequest.merge_from W) (RegisterRequest.new W) from.register_request
        m.register_request;
  register_return =
      over_message (RegisterReturn.merge_from W) (RegisterReturn.new W) from.register_return
        m.register_return;
  create_role_request =
      over_message (CreateRoleRequest.merge_from W) (CreateRoleRequest.new W)
        from.create_role_request m.create_role_request;
  create_role_return =
      over_message (CreateRoleReturn.merge_from W) (CreateRoleReturn.new W) from.create_role_return
        m.create_role_return;
  select_role_request =
      over_message (SelectRoleRequest.merge_from W) (SelectRoleRequest.new W)
        from.select_role_request m.select_role_request;
  select_role_return =
      over_message (SelectRoleReturn.merge_from W) (SelectRoleReturn.new W) from.select_role_return
        m.select_role_return;
  hall_request =
      over_message (HallRequest.merge_from W) (HallRequest.new W) from.hall_request m.hall_request;
  hall_return =
      over_message (HallReturn.merge_from W) (HallReturn.new W) from.hall_return m.hall_return;
  game_main_request =
      over_message (GameMainRequest.merge_from W) (GameMainRequest.new W) from.game_main_request
        m.game_main_request;
  game_main_return =
      over_message (GameMainReturn.merge_from W) (GameMainReturn.new W) from.game_main_return
        m.game_main_return;
  keep_alive =
      over_message (KeepAliveMsg.merge_from W) (KeepAliveMsg.new W) from.keep_alive m.keep_alive;
  unknown = W.merge_unknown m.unknown from.unknown;
}

abbrev pub class : (W : Coded) → Class W (Message W.Unknown)
class W = record {
  new = new W;
  parser = parser W;
  serialize = serialize W;
  byte_size = byte_size W;
  merge_from = merge_from W;
}
