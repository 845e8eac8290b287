-- ===== src/Messages/InviteInfo.antt =====
-- The message InviteInfo of DNW_Server/protoc/proto/scene.txt, as the generated class of
-- DNW_Server/include/protoFiles/scene.txt.pb.cc.
pub mod Format
use jira_game.Base.{List, Option, Text, [], none, ℕ, ◌∷◌}
use jira_game.Proto.{TeamType}
use jira_game.Messages.Kit.{
  Class, Coded, Parser, enum_case, enum_part, int32_case, int32_part, over, part_size, string_case,
  string_part, team_type, team_type_number, total, written,
}

pub record Message (U : Type 0) : Type 0 where
  pub room_id : Option ℕ
  pub req_user_id : Option ℕ
  pub req_user_name : Option Text
  pub rev_user_id : Option ℕ
  pub team : Option TeamType
  pub team_id : Option ℕ
  pub unknown : U

abbrev pub new : (W : Coded) → Message W.Unknown
new W = record {
  room_id = none;
  req_user_id = none;
  req_user_name = none;
  rev_user_id = none;
  team = none;
  team_id = none;
  unknown = W.no_fields;
}

abbrev pub parser : (W : Coded) → Parser W.Unknown (Message W.Unknown)
parser W = record {
  cutoff = 127;
  table =
      (1, 8, int32_case (record { get = λ m. m.room_id; put = λ v m. record m { room_id = v } }))
      ∷ (
        2,
        16,
        int32_case (record { get = λ m. m.req_user_id; put = λ v m. record m { req_user_id = v } }),
      )
      ∷ (
        3,
        26,
        string_case
            (record { get = λ m. m.req_user_name; put = λ v m. record m { req_user_name = v } }),
      )
      ∷ (
        4,
        32,
        int32_case (record { get = λ m. m.rev_user_id; put = λ v m. record m { rev_user_id = v } }),
      )
      ∷ (
        5,
        40,
        enum_case 5 (record { get = λ m. m.team; put = λ v m. record m { team = v } }) team_type,
      )
      ∷ (6, 48, int32_case (record { get = λ m. m.team_id; put = λ v m. record m { team_id = v } }))
      ∷ [];
  unknown = λ m. m.unknown;
  set_unknown = λ u m. record m { unknown = u };
}

-- What is written, in this order.
abbrev pub parts : (W : Coded) → Message W.Unknown → List Text
parts W m =
    int32_part W 1 m.room_id
    ∷ int32_part W 2 m.req_user_id
    ∷ string_part W 3 m.req_user_name
    ∷ int32_part W 4 m.rev_user_id
    ∷ enum_part W team_type_number 5 m.team
    ∷ int32_part W 6 m.team_id
    ∷ W.write_unknown m.unknown
    ∷ []

unfoldable pub serialize : (W : Coded) → Message W.Unknown → Text
serialize W m = written (parts W m)

unfoldable pub byte_size : (W : Coded) → Message W.Unknown → ℕ
byte_size W m = total (
    W.unknown_size m.unknown
    ∷ part_size 1 W.string_size m.req_user_name
    ∷ part_size 1 W.int32.size m.room_id
    ∷ part_size 1 W.int32.size m.req_user_id
    ∷ part_size 1 W.int32.size m.rev_user_id
    ∷ part_size 1 W.int32.size m.team_id
    ∷ part_size 1 (λ e. W.enum.size (team_type_number e)) m.team
    ∷ [])

unfoldable pub merge_from : (W : Coded) → Message W.Unknown → Message W.Unknown → Message W.Unknown
merge_from W m from = record {
  room_id = over from.room_id m.room_id;
  req_user_id = over from.req_user_id m.req_user_id;
  req_user_name = over from.req_user_name m.req_user_name;
  rev_user_id = over from.rev_user_id m.rev_user_id;
  team = over from.team m.team;
  team_id = over from.team_id m.team_id;
  unknown = W.merge_unknown m.unknown from.unknown;
}

abbrev pub class : (W : Coded) → Class W (Message W.Unknown)
class W = record {
  new = new W;
  parser = parser W;
  serialize = serialize W;
  byte_size = byte_size W;
  merge_from = merge_from W;
}
