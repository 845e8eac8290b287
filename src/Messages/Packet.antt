-- ===== src/Messages/Packet.antt =====
-- The message Packet of DNW_Server/protoc/proto/command.txt, as the generated class in
-- DNW_Server/include/protoFiles/command.txt.pb.cc writes and measures it; the server parses
-- none.
pub mod Format
use jira_game.Base.{List, Option, Text, [], ℕ, ◌∷◌}
use jira_game.Proto.{
  CurScene, create_role_return, game_main_return, hall_return, keep_alive, login_return,
  register_return, select_role_return,
}
use jira_game.Messages.Kit.{
  Coded, MessageType, cur_scene, cur_scene_number, enum_part, message_part, message_type_number,
  part_size, total, written,
}
use jira_game.Messages.LoginRequest
use jira_game.Messages.LoginReturn
use jira_game.Messages.RegisterRequest
use jira_game.Messages.RegisterReturn
use jira_game.Messages.CreateRoleRequest
use jira_game.Messages.CreateRoleReturn
use jira_game.Messages.SelectRoleRequest
use jira_game.Messages.SelectRoleReturn
use jira_game.Messages.HallRequest
use jira_game.Messages.HallReturn
use jira_game.Messages.GameMainRequest
use jira_game.Messages.GameMainReturn
use jira_game.Messages.KeepAliveMsg

pub record Message (U : Type 0) : Type 0 where
  pub cur_scene : Option CurScene
  pub msg_type : Option MessageType
  pub login_request : Option (LoginRequest.Message U)
  pub login_return : Option (LoginReturn.Message U)
  pub register_request : Option (RegisterRequest.Message U)
  pub register_return : Option (RegisterReturn.Message U)
  pub create_role_request : Option (CreateRoleRequest.Message U)
  pub create_role_return : Option (CreateRoleReturn.Message U)
  pub select_role_request : Option (SelectRoleRequest.Message U)
  pub select_role_return : Option (SelectRoleReturn.Message U)
  pub hall_request : Option (HallRequest.Message U)
  pub hall_return : Option (HallReturn.Message U)
  pub game_main_request : Option (GameMainRequest.Message U)
  pub game_main_return : Option (GameMainReturn.Message U)
  pub keep_alive : Option (KeepAliveMsg.Message U)
  pub unknown : U

-- What is written, in this order.
abbrev pub parts : (W : Coded) → Message W.Unknown → List Text
parts W m =
    enum_part W cur_scene_number 1 m.cur_scene
    ∷ enum_part W message_type_number 2 m.msg_type
    ∷ message_part W (LoginRequest.serialize W) 3 m.login_request
    ∷ message_part W (LoginReturn.serialize W) 4 m.login_return
    ∷ message_part W (RegisterRequest.serialize W) 5 m.register_request
    ∷ message_part W (RegisterReturn.serialize W) 6 m.register_return
    ∷ message_part W (CreateRoleRequest.serialize W) 7 m.create_role_request
    ∷ message_part W (CreateRoleReturn.serialize W) 8 m.create_role_return
    ∷ message_part W (SelectRoleRequest.serialize W) 9 m.select_role_request
    ∷ message_part W (SelectRoleReturn.serialize W) 10 m.select_role_return
    ∷ message_part W (HallRequest.serialize W) 11 m.hall_request
    ∷ message_part W (HallReturn.serialize W) 12 m.hall_return
    ∷ message_part W (GameMainRequest.serialize W) 13 m.game_main_request
    ∷ message_part W (GameMainReturn.serialize W) 14 m.game_main_return
    ∷ message_part W (KeepAliveMsg.serialize W) 15 m.keep_alive
    ∷ W.write_unknown m.unknown
    ∷ []

unfoldable pub serialize : (W : Coded) → Message W.Unknown → Text
serialize W m = written (parts W m)

unfoldable pub byte_size : (W : Coded) → Message W.Unknown → ℕ
byte_size W m = total (
    W.unknown_size m.unknown
    ∷ part_size 1 (λ e. W.enum.size (cur_scene_number e)) m.cur_scene
    ∷ part_size 1 (λ b. W.message_size (LoginRequest.byte_size W b)) m.login_request
    ∷ part_size 1 (λ b. W.message_size (LoginReturn.byte_size W b)) m.login_return
    ∷ part_size 1 (λ b. W.message_size (RegisterRequest.byte_size W b)) m.register_request
    ∷ part_size 1 (λ b. W.message_size (RegisterReturn.byte_size W b)) m.register_return
    ∷ part_size 1 (λ b. W.message_size (CreateRoleRequest.byte_size W b)) m.create_role_request
    ∷ part_size 1 (λ b. W.message_size (CreateRoleReturn.byte_size W b)) m.create_role_return
    ∷ part_size 1 (λ b. W.message_size (SelectRoleRequest.byte_size W b)) m.select_role_request
    ∷ part_size 1 (λ b. W.message_size (SelectRoleReturn.byte_size W b)) m.select_role_return
    ∷ part_size 1 (λ b. W.message_size (HallRequest.byte_size W b)) m.hall_request
    ∷ part_size 1 (λ b. W.message_size (HallReturn.byte_size W b)) m.hall_return
    ∷ part_size 1 (λ b. W.message_size (GameMainRequest.byte_size W b)) m.game_main_request
    ∷ part_size 1 (λ b. W.message_size (GameMainReturn.byte_size W b)) m.game_main_return
    ∷ part_size 1 (λ b. W.message_size (KeepAliveMsg.byte_size W b)) m.keep_alive
    ∷ part_size 1 (λ e. W.enum.size (message_type_number e)) m.msg_type
    ∷ [])
