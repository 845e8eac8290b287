-- ===== src/Messages/UnPacket/Format.antt =====
-- A UnPacket that was written is read back, and has the size that is computed for it.
use jira_game.Base.{After, Text, arith, length, refl, subst, sym, ◌++◌, ◌∙◌, ◌≡◌}
use jira_game.Messages.Kit.{
  Coded, Ending, cur_scene, cur_scene_number, message_type, message_type_number,
}
use jira_game.Messages.Kit.Proofs.{
  Codes, Lawful, Merges, Nested, cur_scene_lem, end-Merges, enum-Merges, fresh-unknown,
  length-enum_part, length-message_part, length-unknown, length-written, message-Merges,
  message_type_lem, over_message-none, over-none, written-append,
}
use jira_game.Messages.LoginRequest
use jira_game.Messages.LoginRequest.Format as LoginRequestFormat
use jira_game.Messages.LoginReturn
use jira_game.Messages.LoginReturn.Format as LoginReturnFormat
use jira_game.Messages.RegisterRequest
use jira_game.Messages.RegisterRequest.Format as RegisterRequestFormat
use jira_game.Messages.RegisterReturn
use jira_game.Messages.RegisterReturn.Format as RegisterReturnFormat
use jira_game.Messages.CreateRoleRequest
use jira_game.Messages.CreateRoleRequest.Format as CreateRoleRequestFormat
use jira_game.Messages.CreateRoleReturn
use jira_game.Messages.CreateRoleReturn.Format as CreateRoleReturnFormat
use jira_game.Messages.SelectRoleRequest
use jira_game.Messages.SelectRoleRequest.Format as SelectRoleRequestFormat
use jira_game.Messages.SelectRoleReturn
use jira_game.Messages.SelectRoleReturn.Format as SelectRoleReturnFormat
use jira_game.Messages.HallRequest
use jira_game.Messages.HallRequest.Format as HallRequestFormat
use jira_game.Messages.HallReturn
use jira_game.Messages.HallReturn.Format as HallReturnFormat
use jira_game.Messages.GameMainRequest
use jira_game.Messages.GameMainRequest.Format as GameMainRequestFormat
use jira_game.Messages.GameMainReturn
use jira_game.Messages.GameMainReturn.Format as GameMainReturnFormat
use jira_game.Messages.KeepAliveMsg
use jira_game.Messages.KeepAliveMsg.Format as KeepAliveMsgFormat
use jira_game.Messages.UnPacket.{
  Message, byte_size, class, merge_from, new, parser, parts, serialize,
}

-- Texts and nested messages are short enough for their lengths, numbers are words, and no unknown
-- fields are kept.
pub record Fits (W : Coded) (b : Message W.Unknown) : Type 0 where
  pub login_request :
      After (Nested (LoginRequest.class W) (LoginRequestFormat.Fits W)) b.login_request
  pub login_return : After (Nested (LoginReturn.class W) (LoginReturnFormat.Fits W)) b.login_return
  pub register_request :
      After (Nested (RegisterRequest.class W) (RegisterRequestFormat.Fits W)) b.register_request
  pub register_return :
      After (Nested (RegisterReturn.class W) (RegisterReturnFormat.Fits W)) b.register_return
  pub create_role_request :
      After
        (Nested (CreateRoleRequest.class W) (CreateRoleRequestFormat.Fits W))
        b.create_role_request
  pub create_role_return :
      After (Nested (CreateRoleReturn.class W) (CreateRoleReturnFormat.Fits W)) b.create_role_return
  pub select_role_request :
      After
        (Nested (SelectRoleRequest.class W) (SelectRoleRequestFormat.Fits W))
        b.select_role_request
  pub select_role_return :
      After (Nested (SelectRoleReturn.class W) (SelectRoleReturnFormat.Fits W)) b.select_role_return
  pub hall_request : After (Nested (HallRequest.class W) (HallRequestFormat.Fits W)) b.hall_request
  pub hall_return : After (Nested (HallReturn.class W) (HallReturnFormat.Fits W)) b.hall_return
  pub game_main_request :
      After (Nested (GameMainRequest.class W) (GameMainRequestFormat.Fits W)) b.game_main_request
  pub game_main_return :
      After (Nested (GameMainReturn.class W) (GameMainReturnFormat.Fits W)) b.game_main_return
  pub keep_alive : After (Nested (KeepAliveMsg.class W) (KeepAliveMsgFormat.Fits W)) b.keep_alive
  pub unknown : b.unknown ≡ W.no_fields

module _ (W : Coded) (laws : Lawful W) where
  merges :
      (b : Message W.Unknown)
      → Fits W b
      → (rest : Text) (m : Message W.Unknown) (r : Message W.Unknown × Ending)
      → Merges W (parser W) rest (merge_from W m b) r
      → Merges W (parser W) (serialize W b ++ rest) m r
  unfolding serialize merge_from
  merges b ok rest m r onward =
      subst (λ input. Merges W (parser W) input m r) (sym (written-append (parts W b) rest))
        (enum-Merges W laws (parser W) cur_scene_number cur_scene 1 _ b.cur_scene _ _ _
          cur_scene_lem (refl, refl) (λ m. refl)
          (enum-Merges W laws (parser W) message_type_number message_type 2 _ b.msg_type _ _ _
            message_type_lem (refl, refl) (λ m. refl)
            (message-Merges W laws (parser W) (LoginRequestFormat.coded W laws) 3 _ b.login_request
              _ _ _ (refl, refl) (λ m. refl) ok.login_request
              (message-Merges W laws (parser W) (LoginReturnFormat.coded W laws) 4 _ b.login_return
                _ _ _ (refl, refl) (λ m. refl) ok.login_return
                (message-Merges W laws (parser W) (RegisterRequestFormat.coded W laws) 5 _
                  b.register_request _ _ _ (refl, refl) (λ m. refl) ok.register_request
                  (message-Merges W laws (parser W) (RegisterReturnFormat.coded W laws) 6 _
                    b.register_return _ _ _ (refl, refl) (λ m. refl) ok.register_return
                    (message-Merges W laws (parser W) (CreateRoleRequestFormat.coded W laws) 7 _
                      b.create_role_request _ _ _ (refl, refl) (λ m. refl) ok.create_role_request
                      (message-Merges W laws (parser W) (CreateRoleReturnFormat.coded W laws) 8 _
                        b.create_role_return _ _ _ (refl, refl) (λ m. refl) ok.create_role_return
                        (message-Merges W laws (parser W) (SelectRoleRequestFormat.coded W laws) 9 _
                          b.select_role_request _ _ _ (refl, refl) (λ m. refl)
                          ok.select_role_request
                          (message-Merges W laws (parser W) (SelectRoleReturnFormat.coded W laws) 10
                            _ b.select_role_return _ _ _ (refl, refl) (λ m. refl)
                            ok.select_role_return
                            (message-Merges W laws (parser W) (HallRequestFormat.coded W laws) 11 _
                              b.hall_request _ _ _ (refl, refl) (λ m. refl) ok.hall_request
                              (message-Merges W laws (parser W) (HallReturnFormat.coded W laws) 12 _
                                b.hall_return _ _ _ (refl, refl) (λ m. refl) ok.hall_return
                                (message-Merges W laws (parser W)
                                  (GameMainRequestFormat.coded W laws) 13 _ b.game_main_request _ _
                                  _ (refl, refl) (λ m. refl) ok.game_main_request
                                  (message-Merges W laws (parser W)
                                    (GameMainReturnFormat.coded W laws) 14 _ b.game_main_return _ _
                                    _ (refl, refl) (λ m. refl) ok.game_main_return
                                    (message-Merges W laws (parser W)
                                      (KeepAliveMsgFormat.coded W laws) 15 _ b.keep_alive _ _ _
                                      (refl, refl) (λ m. refl) ok.keep_alive
                                      (end-Merges W laws (parser W) (merge_from W m b) m.unknown
                                        b.unknown rest r ok.unknown onward))))))))))))))))

  fresh : (b : Message W.Unknown) → Fits W b → merge_from W (new W) b ≡ b
  unfolding merge_from
  fresh b ok = λ i. record {
    cur_scene = over-none b.cur_scene i;
    msg_type = over-none b.msg_type i;
    login_request =
        over_message-none (LoginRequestFormat.coded W laws) b.login_request ok.login_request i;
    login_return =
        over_message-none (LoginReturnFormat.coded W laws) b.login_return ok.login_return i;
    register_request =
        over_message-none (RegisterRequestFormat.coded W laws) b.register_request
          ok.register_request i;
    register_return =
        over_message-none (RegisterReturnFormat.coded W laws) b.register_return ok.register_return
          i;
    create_role_request =
        over_message-none (CreateRoleRequestFormat.coded W laws) b.create_role_request
          ok.create_role_request i;
    create_role_return =
        over_message-none (CreateRoleReturnFormat.coded W laws) b.create_role_return
          ok.create_role_return i;
    select_role_request =
        over_message-none (SelectRoleRequestFormat.coded W laws) b.select_role_request
          ok.select_role_request i;
    select_role_return =
        over_message-none (SelectRoleReturnFormat.coded W laws) b.select_role_return
          ok.select_role_return i;
    hall_request =
        over_message-none (HallRequestFormat.coded W laws) b.hall_request ok.hall_request i;
    hall_return = over_message-none (HallReturnFormat.coded W laws) b.hall_return ok.hall_return i;
    game_main_request =
        over_message-none (GameMainRequestFormat.coded W laws) b.game_main_request
          ok.game_main_request i;
    game_main_return =
        over_message-none (GameMainReturnFormat.coded W laws) b.game_main_return ok.game_main_return
          i;
    keep_alive = over_message-none (KeepAliveMsgFormat.coded W laws) b.keep_alive ok.keep_alive i;
    unknown = fresh-unknown W laws b.unknown ok.unknown i;
  }

  sized : (b : Message W.Unknown) → Fits W b → length (serialize W b) ≡ byte_size W b
  unfolding serialize byte_size
  sized b ok =
      length-written (parts W b)
      ∙ omega (
        arith,
        length-enum_part W laws cur_scene_number 1 1 b.cur_scene (λ e. (cur_scene_lem e).1)
            (refl, refl),
        length-enum_part W laws message_type_number 2 1 b.msg_type (λ e. (message_type_lem e).1)
            (refl, refl),
        length-message_part W laws (LoginRequestFormat.coded W laws) 3 1 b.login_request
            (refl, refl) ok.login_request,
        length-message_part W laws (LoginReturnFormat.coded W laws) 4 1 b.login_return (refl, refl)
            ok.login_return,
        length-message_part W laws (RegisterRequestFormat.coded W laws) 5 1 b.register_request
            (refl, refl) ok.register_request,
        length-message_part W laws (RegisterReturnFormat.coded W laws) 6 1 b.register_return
            (refl, refl) ok.register_return,
        length-message_part W laws (CreateRoleRequestFormat.coded W laws) 7 1 b.create_role_request
            (refl, refl) ok.create_role_request,
        length-message_part W laws (CreateRoleReturnFormat.coded W laws) 8 1 b.create_role_return
            (refl, refl) ok.create_role_return,
        length-message_part W laws (SelectRoleRequestFormat.coded W laws) 9 1 b.select_role_request
            (refl, refl) ok.select_role_request,
        length-message_part W laws (SelectRoleReturnFormat.coded W laws) 10 1 b.select_role_return
            (refl, refl) ok.select_role_return,
        length-message_part W laws (HallRequestFormat.coded W laws) 11 1 b.hall_request (refl, refl)
            ok.hall_request,
        length-message_part W laws (HallReturnFormat.coded W laws) 12 1 b.hall_return (refl, refl)
            ok.hall_return,
        length-message_part W laws (GameMainRequestFormat.coded W laws) 13 1 b.game_main_request
            (refl, refl) ok.game_main_request,
        length-message_part W laws (GameMainReturnFormat.coded W laws) 14 1 b.game_main_return
            (refl, refl) ok.game_main_return,
        length-message_part W laws (KeepAliveMsgFormat.coded W laws) 15 1 b.keep_alive (refl, refl)
            ok.keep_alive,
        length-unknown W laws b.unknown ok.unknown,
      )

  pub coded : Codes (class W) (Fits W)
  coded = record { merges = merges; fresh = fresh; sized = sized }
