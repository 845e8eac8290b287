-- ===== src/Messages/PlayerInfo/Format.antt =====
-- A PlayerInfo that was written is read back, and has the size that is computed for it.
use jira_game.Base.{After, Text, arith, length, refl, subst, sym, ◌++◌, ◌∙◌, ◌≡◌}
use jira_game.Messages.Kit.{
  Coded, Ending, player_status, player_status_number, room_type, room_type_number, team_type,
  team_type_number,
}
use jira_game.Messages.Kit.Proofs.{
  Codes, IsShort, IsWord, Lawful, Merges, Nested, bool-Merges, end-Merges, enum-Merges,
  float-Merges, fresh-unknown, int32-Merges, length-bool_part, length-enum_part, length-float_part,
  length-int32_part, length-message_part, length-string_part, length-unknown, length-written,
  message-Merges, over_message-none, over-none, player_status_lem, room_type_lem, string-Merges,
  team_type_lem, written-append,
}
use jira_game.Messages.Position3D
use jira_game.Messages.Position3D.Format as Position3DFormat
use jira_game.Messages.PlayerInfo.{
  Message, byte_size, class, merge_from, new, parser, parts, serialize,
}

-- Texts and nested messages are short enough for their lengths, numbers are words, and no unknown
-- fields are kept.
pub record Fits (W : Coded) (b : Message W.Unknown) : Type 0 where
  pub socket : After IsWord b.socket
  pub role_id : After IsWord b.role_id
  pub role_type : After IsWord b.role_type
  pub name : After IsShort b.name
  pub level : After IsWord b.level
  pub hp : After IsWord b.hp
  pub mp : After IsWord b.mp
  pub attack : After IsWord b.attack
  pub move_speed : After IsWord b.move_speed
  pub room_id : After IsWord b.room_id
  pub team_id : After IsWord b.team_id
  pub pos : After (Nested (Position3D.class W) (Position3DFormat.Fits W)) b.pos
  pub rot : After (Nested (Position3D.class W) (Position3DFormat.Fits W)) b.rot
  pub scale : After (Nested (Position3D.class W) (Position3DFormat.Fits W)) b.scale
  pub unknown : b.unknown ≡ W.no_fields

module _ (W : Coded) (laws : Lawful W) where
  merges :
      (b : Message W.Unknown)
      → Fits W b
      → (rest : Text) (m : Message W.Unknown) (r : Message W.Unknown × Ending)
      → Merges W (parser W) rest (merge_from W m b) r
      → Merges W (parser W) (serialize W b ++ rest) m r
  unfolding serialize merge_from
  merges b ok rest m r onward =
      subst (λ input. Merges W (parser W) input m r) (sym (written-append (parts W b) rest))
        (int32-Merges W laws (parser W) 1 _ b.socket _ _ _ (refl, refl) (λ m. refl) ok.socket
          (bool-Merges W laws (parser W) 2 _ b.is_room_ctl _ _ _ (refl, refl) (λ m. refl)
            (int32-Merges W laws (parser W) 3 _ b.role_id _ _ _ (refl, refl) (λ m. refl) ok.role_id
              (int32-Merges W laws (parser W) 4 _ b.role_type _ _ _ (refl, refl) (λ m. refl)
                ok.role_type
                (string-Merges W laws (parser W) 5 _ b.name _ _ _ (refl, refl) (λ m. refl) ok.name
                  (int32-Merges W laws (parser W) 6 _ b.level _ _ _ (refl, refl) (λ m. refl)
                    ok.level
                    (float-Merges W laws (parser W) 7 _ b.hp _ _ _ (refl, refl) (λ m. refl) ok.hp
                      (float-Merges W laws (parser W) 8 _ b.mp _ _ _ (refl, refl) (λ m. refl) ok.mp
                        (float-Merges W laws (parser W) 9 _ b.attack _ _ _ (refl, refl) (λ m. refl)
                          ok.attack
                          (float-Merges W laws (parser W) 10 _ b.move_speed _ _ _ (refl, refl)
                            (λ m. refl) ok.move_speed
                            (enum-Merges W laws (parser W) team_type_number team_type 11 _ b.team _
                              _ _ team_type_lem (refl, refl) (λ m. refl)
                              (enum-Merges W laws (parser W) room_type_number room_type 12 _
                                b.room_state _ _ _ room_type_lem (refl, refl) (λ m. refl)
                                (int32-Merges W laws (parser W) 13 _ b.room_id _ _ _ (refl, refl)
                                  (λ m. refl) ok.room_id
                                  (int32-Merges W laws (parser W) 14 _ b.team_id _ _ _ (refl, refl)
                                    (λ m. refl) ok.team_id
                                    (bool-Merges W laws (parser W) 15 _ b.game_waite _ _ _
                                      (refl, refl) (λ m. refl)
                                      (message-Merges W laws (parser W)
                                        (Position3DFormat.coded W laws) 16 _ b.pos _ _ _
                                        (refl, refl) (λ m. refl) ok.pos
                                        (message-Merges W laws (parser W)
                                          (Position3DFormat.coded W laws) 17 _ b.rot _ _ _
                                          (refl, refl) (λ m. refl) ok.rot
                                          (message-Merges W laws (parser W)
                                            (Position3DFormat.coded W laws) 18 _ b.scale _ _ _
                                            (refl, refl) (λ m. refl) ok.scale
                                            (enum-Merges W laws (parser W) player_status_number
                                              player_status 19 _ b.player_status _ _ _
                                              player_status_lem (refl, refl) (λ m. refl)
                                              (end-Merges W laws (parser W) (merge_from W m b)
                                                m.unknown b.unknown rest r ok.unknown
                                                onward))))))))))))))))))))

  fresh : (b : Message W.Unknown) → Fits W b → merge_from W (new W) b ≡ b
  unfolding merge_from
  fresh b ok = λ i. record {
    socket = over-none b.socket i;
    is_room_ctl = over-none b.is_room_ctl i;
    role_id = over-none b.role_id i;
    role_type = over-none b.role_type i;
    name = over-none b.name i;
    level = over-none b.level i;
    hp = over-none b.hp i;
    mp = over-none b.mp i;
    attack = over-none b.attack i;
    move_speed = over-none b.move_speed i;
    team = over-none b.team i;
    room_state = over-none b.room_state i;
    room_id = over-none b.room_id i;
    team_id = over-none b.team_id i;
    game_waite = over-none b.game_waite i;
    pos = over_message-none (Position3DFormat.coded W laws) b.pos ok.pos i;
    rot = over_message-none (Position3DFormat.coded W laws) b.rot ok.rot i;
    scale = over_message-none (Position3DFormat.coded W laws) b.scale ok.scale i;
    player_status = over-none b.player_status i;
    unknown = fresh-unknown W laws b.unknown ok.unknown i;
  }

  sized : (b : Message W.Unknown) → Fits W b → length (serialize W b) ≡ byte_size W b
  unfolding serialize byte_size
  sized b ok =
      length-written (parts W b)
      ∙ omega (
        arith,
        length-int32_part W laws 1 1 b.socket (refl, refl) ok.socket,
        length-bool_part W laws 2 1 b.is_room_ctl (refl, refl),
        length-int32_part W laws 3 1 b.role_id (refl, refl) ok.role_id,
        length-int32_part W laws 4 1 b.role_type (refl, refl) ok.role_type,
        length-string_part W laws 5 1 b.name (refl, refl) ok.name,
        length-int32_part W laws 6 1 b.level (refl, refl) ok.level,
        length-float_part W laws 7 1 b.hp (refl, refl) ok.hp,
        length-float_part W laws 8 1 b.mp (refl, refl) ok.mp,
        length-float_part W laws 9 1 b.attack (refl, refl) ok.attack,
        length-float_part W laws 10 1 b.move_speed (refl, refl) ok.move_speed,
        length-enum_part W laws team_type_number 11 1 b.team (λ e. (team_type_lem e).1)
            (refl, refl),
        length-enum_part W laws room_type_number 12 1 b.room_state (λ e. (room_type_lem e).1)
            (refl, refl),
        length-int32_part W laws 13 1 b.room_id (refl, refl) ok.room_id,
        length-int32_part W laws 14 1 b.team_id (refl, refl) ok.team_id,
        length-bool_part W laws 15 1 b.game_waite (refl, refl),
        length-message_part W laws (Position3DFormat.coded W laws) 16 2 b.pos (refl, refl) ok.pos,
        length-message_part W laws (Position3DFormat.coded W laws) 17 2 b.rot (refl, refl) ok.rot,
        length-message_part W laws (Position3DFormat.coded W laws) 18 2 b.scale (refl, refl)
            ok.scale,
        length-enum_part W laws player_status_number 19 2 b.player_status
            (λ e. (player_status_lem e).1) (refl, refl),
        length-unknown W laws b.unknown ok.unknown,
      )

  pub coded : Codes (class W) (Fits W)
  coded = record { merges = merges; fresh = fresh; sized = sized }
