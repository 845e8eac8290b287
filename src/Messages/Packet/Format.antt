-- ===== src/Messages/Packet/Format.antt =====
-- A Packet that was written has the size that is computed for it.
use jira_game.Base.{After, arith, length, refl, ◌∙◌, ◌≡◌}
use jira_game.Messages.Kit.{Coded, cur_scene_number, message_type_number}
use jira_game.Messages.Kit.Proofs.{
  Lawful, Nested, cur_scene_lem, length-enum_part, length-message_part, length-unknown,
  length-written, message_type_lem,
}
use jira_game.Messages.LoginRequest
use jira_game.Messages.LoginRequest.Format as LoginRequestFormat
use jira_game.Messages.LoginReturn
use jira_game.Messages.LoginReturn.Format as LoginReturnFormat
use jira_game.Messages.RegisterRequest
use jira_game.Messages.RegisterRequest.Format as RegisterRequestFormat
use jira_game.Messages.RegisterReturn
use jira_game.Messages.RegisterReturn.Format as RegisterReturnFormat
use jira_game.Messages.CreateRoleRequest
use jira_game.Messages.CreateRoleRequest.Format as CreateRoleRequestFormat
use jira_game.Messages.CreateRoleReturn
use jira_game.Messages.CreateRoleReturn.Format as CreateRoleReturnFormat
use jira_game.Messages.SelectRoleRequest
use jira_game.Messages.SelectRoleRequest.Format as SelectRoleRequestFormat
use jira_game.Messages.SelectRoleReturn
use jira_game.Messages.SelectRoleReturn.Format as SelectRoleReturnFormat
use jira_game.Messages.HallRequest
use jira_game.Messages.HallRequest.Format as HallRequestFormat
use jira_game.Messages.HallReturn
use jira_game.Messages.HallReturn.Format as HallReturnFormat
use jira_game.Messages.GameMainRequest
use jira_game.Messages.GameMainRequest.Format as GameMainRequestFormat
use jira_game.Messages.GameMainReturn
use jira_game.Messages.GameMainReturn.Format as GameMainReturnFormat
use jira_game.Messages.KeepAliveMsg
use jira_game.Messages.KeepAliveMsg.Format as KeepAliveMsgFormat
use jira_game.Messages.Packet.{Message, byte_size, parts, serialize}

-- Texts and nested messages are short enough for their lengths, numbers are words, and no unknown
-- fields are kept.
pub record Fits (W : Coded) (b : Message W.Unknown) : Type 0 where
  pub login_request :
      After (Nested (LoginRequest.class W) (LoginRequestFormat.Fits W)) b.login_request
  pub login_return : After (Nested (LoginReturn.class W) (LoginReturnFormat.Fits W)) b.login_return
  pub register_request :
      After (Nested (RegisterRequest.class W) (RegisterRequestFormat.Fits W)) b.register_request
  pub register_return :
      After (Nested (RegisterReturn.class W) (RegisterReturnFormat.Fits W)) b.register_return
  pub create_role_request :
      After
        (Nested (CreateRoleRequest.class W) (CreateRoleRequestFormat.Fits W))
        b.create_role_request
  pub create_role_return :
      After (Nested (CreateRoleReturn.class W) (CreateRoleReturnFormat.Fits W)) b.create_role_return
  pub select_role_request :
      After
        (Nested (SelectRoleRequest.class W) (SelectRoleRequestFormat.Fits W))
        b.select_role_request
  pub select_role_return :
      After (Nested (SelectRoleReturn.class W) (SelectRoleReturnFormat.Fits W)) b.select_role_return
  pub hall_request : After (Nested (HallRequest.class W) (HallRequestFormat.Fits W)) b.hall_request
  pub hall_return : After (Nested (HallReturn.class W) (HallReturnFormat.Fits W)) b.hall_return
  pub game_main_request :
      After (Nested (GameMainRequest.class W) (GameMainRequestFormat.Fits W)) b.game_main_request
  pub game_main_return :
      After (Nested (GameMainReturn.class W) (GameMainReturnFormat.Fits W)) b.game_main_return
  pub keep_alive : After (Nested (KeepAliveMsg.class W) (KeepAliveMsgFormat.Fits W)) b.keep_alive
  pub unknown : b.unknown ≡ W.no_fields

module _ (W : Coded) (laws : Lawful W) where
  -- Where the runtime of protobuf reports the sizes of what it writes: the size that is computed for a
  -- reply is the number of bytes that are written for it, where its numbers are words, its texts and
  -- nested messages are short enough for their lengths, and it keeps no unknown fields.
  pub length-serialize : (b : Message W.Unknown) → Fits W b → length (serialize W b) ≡ byte_size W b
  unfolding serialize byte_size
  length-serialize b ok =
      length-written (parts W b)
      ∙ omega (
        arith,
        length-enum_part W laws cur_scene_number 1 1 b.cur_scene (λ e. (cur_scene_lem e).1)
            (refl, refl),
        length-enum_part W laws message_type_number 2 1 b.msg_type (λ e. (message_type_lem e).1)
            (refl, refl),
        length-message_part W laws (LoginRequestFormat.coded W laws) 3 1 b.login_request
            (refl, refl) ok.login_request,
        length-message_part W laws (LoginReturnFormat.coded W laws) 4 1 b.login_return (refl, refl)
            ok.login_return,
        length-message_part W laws (RegisterRequestFormat.coded W laws) 5 1 b.register_request
            (refl, refl) ok.register_request,
        length-message_part W laws (RegisterReturnFormat.coded W laws) 6 1 b.register_return
            (refl, refl) ok.register_return,
        length-message_part W laws (CreateRoleRequestFormat.coded W laws) 7 1 b.create_role_request
            (refl, refl) ok.create_role_request,
        length-message_part W laws (CreateRoleReturnFormat.coded W laws) 8 1 b.create_role_return
            (refl, refl) ok.create_role_return,
        length-message_part W laws (SelectRoleRequestFormat.coded W laws) 9 1 b.select_role_request
            (refl, refl) ok.select_role_request,
        length-message_part W laws (SelectRoleReturnFormat.coded W laws) 10 1 b.select_role_return
            (refl, refl) ok.select_role_return,
        length-message_part W laws (HallRequestFormat.coded W laws) 11 1 b.hall_request (refl, refl)
            ok.hall_request,
        length-message_part W laws (HallReturnFormat.coded W laws) 12 1 b.hall_return (refl, refl)
            ok.hall_return,
        length-message_part W laws (GameMainRequestFormat.coded W laws) 13 1 b.game_main_request
            (refl, refl) ok.game_main_request,
        length-message_part W laws (GameMainReturnFormat.coded W laws) 14 1 b.game_main_return
            (refl, refl) ok.game_main_return,
        length-message_part W laws (KeepAliveMsgFormat.coded W laws) 15 1 b.keep_alive (refl, refl)
            ok.keep_alive,
        length-unknown W laws b.unknown ok.unknown,
      )
