-- ===== src/Messages/PlayerInfo.antt =====
-- The message PlayerInfo of DNW_Server/protoc/proto/scene.txt, as the generated class of
-- DNW_Server/include/protoFiles/scene.txt.pb.cc.
pub mod Format
use jira_game.Base.{Bool, List, Option, Text, [], none, ℕ, ◌∷◌}
use jira_game.Proto.{PlayerStatus, RoomType, TeamType, game_waite}
use jira_game.Messages.Kit.{
  Class, Coded, Parser, bool_case, bool_part, enum_case, enum_part, float_case, float_part,
  int32_case, int32_part, message_part, optional_case, over, over_message, part_size, player_status,
  player_status_number, room_type, room_type_number, run_parser, string_case, string_part,
  team_type, team_type_number, total, written,
}
use jira_game.Messages.Position3D

pub record Message (U : Type 0) : Type 0 where
  pub socket : Option ℕ
  pub is_room_ctl : Option Bool
  pub role_id : Option ℕ
  pub role_type : Option ℕ
  pub name : Option Text
  pub level : Option ℕ
  pub hp : Option ℕ
  pub mp : Option ℕ
  pub attack : Option ℕ
  pub move_speed : Option ℕ
  pub team : Option TeamType
  pub room_state : Option RoomType
  pub room_id : Option ℕ
  pub team_id : Option ℕ
  pub game_waite : Option Bool
  pub pos : Option (Position3D.Message U)
  pub rot : Option (Position3D.Message U)
  pub scale : Option (Position3D.Message U)
  pub player_status : Option PlayerStatus
  pub unknown : U

abbrev pub new : (W : Coded) → Message W.Unknown
new W = record {
  socket = none;
  is_room_ctl = none;
  role_id = none;
  role_type = none;
  name = none;
  level = none;
  hp = none;
  mp = none;
  attack = none;
  move_speed = none;
  team = none;
  room_state = none;
  room_id = none;
  team_id = none;
  game_waite = none;
  pos = none;
  rot = none;
  scale = none;
  player_status = none;
  unknown = W.no_fields;
}

abbrev pub parser : (W : Coded) → Parser W.Unknown (Message W.Unknown)
parser W = record {
  cutoff = 16383;
  table =
      (1, 8, int32_case (record { get = λ m. m.socket; put = λ v m. record m { socket = v } }))
      ∷ (
        2,
        16,
        bool_case (record { get = λ m. m.is_room_ctl; put = λ v m. record m { is_room_ctl = v } }),
      )
      ∷ (3, 24, int32_case (record { get = λ m. m.role_id; put = λ v m. record m { role_id = v } }))
      ∷ (
        4,
        32,
        int32_case (record { get = λ m. m.role_type; put = λ v m. record m { role_type = v } }),
      )
      ∷ (5, 42, string_case (record { get = λ m. m.name; put = λ v m. record m { name = v } }))
      ∷ (6, 48, int32_case (record { get = λ m. m.level; put = λ v m. record m { level = v } }))
      ∷ (7, 61, float_case (record { get = λ m. m.hp; put = λ v m. record m { hp = v } }))
      ∷ (8, 69, float_case (record { get = λ m. m.mp; put = λ v m. record m { mp = v } }))
      ∷ (9, 77, float_case (record { get = λ m. m.attack; put = λ v m. record m { attack = v } }))
      ∷ (
        10,
        85,
        float_case (record { get = λ m. m.move_speed; put = λ v m. record m { move_speed = v } }),
      )
      ∷ (
        11,
        88,
        enum_case 11 (record { get = λ m. m.team; put = λ v m. record m { team = v } }) team_type,
      )
      ∷ (
        12,
        96,
        enum_case 12 (record { get = λ m. m.room_state; put = λ v m. record m { room_state = v } })
            room_type,
      )
      ∷ (
        13,
        104,
        int32_case (record { get = λ m. m.room_id; put = λ v m. record m { room_id = v } }),
      )
      ∷ (
        14,
        112,
        int32_case (record { get = λ m. m.team_id; put = λ v m. record m { team_id = v } }),
      )
      ∷ (
        15,
        120,
        bool_case (record { get = λ m. m.game_waite; put = λ v m. record m { game_waite = v } }),
      )
      ∷ (
        16,
        130,
        optional_case (record { get = λ m. m.pos; put = λ v m. record m { pos = v } })
            (Position3D.new W) (run_parser W (Position3D.parser W)),
      )
      ∷ (
        17,
        138,
        optional_case (record { get = λ m. m.rot; put = λ v m. record m { rot = v } })
            (Position3D.new W) (run_parser W (Position3D.parser W)),
      )
      ∷ (
        18,
        146,
        optional_case (record { get = λ m. m.scale; put = λ v m. record m { scale = v } })
            (Position3D.new W) (run_parser W (Position3D.parser W)),
      )
      ∷ (
        19,
        152,
        enum_case 19
            (record { get = λ m. m.player_status; put = λ v m. record m { player_status = v } })
            player_status,
      )
      ∷ [];
  unknown = λ m. m.unknown;
  set_unknown = λ u m. record m { unknown = u };
}

-- What is written, in this order.
abbrev pub parts : (W : Coded) → Message W.Unknown → List Text
parts W m =
    int32_part W 1 m.socket
    ∷ bool_part W 2 m.is_room_ctl
    ∷ int32_part W 3 m.role_id
    ∷ int32_part W 4 m.role_type
    ∷ string_part W 5 m.name
    ∷ int32_part W 6 m.level
    ∷ float_part W 7 m.hp
    ∷ float_part W 8 m.mp
    ∷ float_part W 9 m.attack
    ∷ float_part W 10 m.move_speed
    ∷ enum_part W team_type_number 11 m.team
    ∷ enum_part W room_type_number 12 m.room_state
    ∷ int32_part W 13 m.room_id
    ∷ int32_part W 14 m.team_id
    ∷ bool_part W 15 m.game_waite
    ∷ message_part W (Position3D.serialize W) 16 m.pos
    ∷ message_part W (Position3D.serialize W) 17 m.rot
    ∷ message_part W (Position3D.serialize W) 18 m.scale
    ∷ enum_part W player_status_number 19 m.player_status
    ∷ W.write_unknown m.unknown
    ∷ []

unfoldable pub serialize : (W : Coded) → Message W.Unknown → Text
serialize W m = written (parts W m)

unfoldable pub byte_size : (W : Coded) → Message W.Unknown → ℕ
byte_size W m = total (
    W.unknown_size m.unknown
    ∷ part_size 1 W.string_size m.name
    ∷ part_size 2 (λ b. W.message_size (Position3D.byte_size W b)) m.pos
    ∷ part_size 2 (λ b. W.message_size (Position3D.byte_size W b)) m.rot
    ∷ part_size 2 (λ b. W.message_size (Position3D.byte_size W b)) m.scale
    ∷ part_size 1 W.int32.size m.socket
    ∷ part_size 1 W.int32.size m.role_id
    ∷ part_size 1 W.int32.size m.role_type
    ∷ part_size 1 W.int32.size m.level
    ∷ part_size 1 (λ v. 4) m.hp
    ∷ part_size 1 (λ v. 4) m.mp
    ∷ part_size 1 (λ b. 1) m.is_room_ctl
    ∷ part_size 1 (λ b. 1) m.game_waite
    ∷ part_size 1 (λ v. 4) m.attack
    ∷ part_size 1 (λ v. 4) m.move_speed
    ∷ part_size 1 W.int32.size m.room_id
    ∷ part_size 1 W.int32.size m.team_id
    ∷ part_size 2 (λ e. W.enum.size (player_status_number e)) m.player_status
    ∷ part_size 1 (λ e. W.enum.size (team_type_number e)) m.team
    ∷ part_size 1 (λ e. W.enum.size (room_type_number e)) m.room_state
    ∷ [])

unfoldable pub merge_from : (W : Coded) → Message W.Unknown → Message W.Unknown → Message W.Unknown
merge_from W m from = record {
  socket = over from.socket m.socket;
  is_room_ctl = over from.is_room_ctl m.is_room_ctl;
  role_id = over from.role_id m.role_id;
  role_type = over from.role_type m.role_type;
  name = over from.name m.name;
  level = over from.level m.level;
  hp = over from.hp m.hp;
  mp = over from.mp m.mp;
  attack = over from.attack m.attack;
  move_speed = over from.move_speed m.move_speed;
  team = over from.team m.team;
  room_state = over from.room_state m.room_state;
  room_id = over from.room_id m.room_id;
  team_id = over from.team_id m.team_id;
  game_waite = over from.game_waite m.game_waite;
  pos = over_message (Position3D.merge_from W) (Position3D.new W) from.pos m.pos;
  rot = over_message (Position3D.merge_from W) (Position3D.new W) from.rot m.rot;
  scale = over_message (Position3D.merge_from W) (Position3D.new W) from.scale m.scale;
  player_status = over from.player_status m.player_status;
  unknown = W.merge_unknown m.unknown from.unknown;
}

abbrev pub class : (W : Coded) → Class W (Message W.Unknown)
class W = record {
  new = new W;
  parser = parser W;
  serialize = serialize W;
  byte_size = byte_size W;
  merge_from = merge_from W;
}
