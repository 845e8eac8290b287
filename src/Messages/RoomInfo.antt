-- ===== src/Messages/RoomInfo.antt =====
-- The message RoomInfo of DNW_Server/protoc/proto/scene.txt, as the generated class of
-- DNW_Server/include/protoFiles/scene.txt.pb.cc.
pub mod Format
use jira_game.Base.{List, Option, Text, [], none, ℕ, ◌++◌, ◌∷◌}
use jira_game.Messages.Kit.{
  Class, Coded, Parser, int32_case, int32_part, messages_part, over, part_size, repeated_case,
  repeated_size, required_three, run_parser, string_case, string_part, total, written,
}
use jira_game.Messages.PlayerInfo

pub record Message (U : Type 0) : Type 0 where
  pub room_id : Option ℕ
  pub room_name : Option Text
  pub person_count : Option ℕ
  pub free_person_count : Option ℕ
  pub player_info : List (PlayerInfo.Message U)
  pub unknown : U

abbrev pub new : (W : Coded) → Message W.Unknown
new W = record {
  room_id = none;
  room_name = none;
  person_count = none;
  free_person_count = none;
  player_info = [];
  unknown = W.no_fields;
}

abbrev pub parser : (W : Coded) → Parser W.Unknown (Message W.Unknown)
parser W = record {
  cutoff = 127;
  table =
      (1, 8, int32_case (record { get = λ m. m.room_id; put = λ v m. record m { room_id = v } }))
      ∷ (
        2,
        18,
        string_case (record { get = λ m. m.room_name; put = λ v m. record m { room_name = v } }),
      )
      ∷ (
        3,
        24,
        int32_case
            (record { get = λ m. m.person_count; put = λ v m. record m { person_count = v } }),
      )
      ∷ (
        4,
        32,
        int32_case (record {
          get = λ m. m.free_person_count;
          put = λ v m. record m { free_person_count = v };
        }),
      )
      ∷ (
        5,
        42,
        repeated_case
            (record {
              elems = λ m. m.player_info;
              set_elems = λ xs m. record m { player_info = xs };
            })
            (PlayerInfo.new W) (run_parser W (PlayerInfo.parser W)),
      )
      ∷ [];
  unknown = λ m. m.unknown;
  set_unknown = λ u m. record m { unknown = u };
}

-- What is written, in this order.
abbrev pub parts : (W : Coded) → Message W.Unknown → List Text
parts W m =
    int32_part W 1 m.room_id
    ∷ string_part W 2 m.room_name
    ∷ int32_part W 3 m.person_count
    ∷ int32_part W 4 m.free_person_count
    ∷ messages_part W (PlayerInfo.serialize W) 5 m.player_info
    ∷ W.write_unknown m.unknown
    ∷ []

unfoldable pub serialize : (W : Coded) → Message W.Unknown → Text
serialize W m = written (parts W m)

unfoldable pub byte_size : (W : Coded) → Message W.Unknown → ℕ
byte_size W m = total (
    W.unknown_size m.unknown
    ∷ required_three W.string_size [] m.room_name W.int32.size 0 m.person_count W.int32.size 0
        m.free_person_count
    ∷ repeated_size 1 (λ b. W.message_size (PlayerInfo.byte_size W b)) m.player_info
    ∷ part_size 1 W.int32.size m.room_id
    ∷ [])

unfoldable pub merge_from : (W : Coded) → Message W.Unknown → Message W.Unknown → Message W.Unknown
merge_from W m from = record {
  room_id = over from.room_id m.room_id;
  room_name = over from.room_name m.room_name;
  person_count = over from.person_count m.person_count;
  free_person_count = over from.free_person_count m.free_person_count;
  player_info = m.player_info ++ from.player_info;
  unknown = W.merge_unknown m.unknown from.unknown;
}

abbrev pub class : (W : Coded) → Class W (Message W.Unknown)
class W = record {
  new = new W;
  parser = parser W;
  serialize = serialize W;
  byte_size = byte_size W;
  merge_from = merge_from W;
}
