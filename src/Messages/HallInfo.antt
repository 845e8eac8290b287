-- ===== src/Messages/HallInfo.antt =====
-- The message HallInfo of DNW_Server/protoc/proto/scene.txt, as the generated class of
-- DNW_Server/include/protoFiles/scene.txt.pb.cc.
pub mod Format
use jira_game.Base.{List, Text, [], ℕ, ◌++◌, ◌∷◌}
use jira_game.Messages.Kit.{
  Class, Coded, Parser, messages_part, repeated_case, repeated_size, run_parser, total, written,
}
use jira_game.Messages.RoomInfo

pub record Message (U : Type 0) : Type 0 where
  pub room_info : List (RoomInfo.Message U)
  pub unknown : U

abbrev pub new : (W : Coded) → Message W.Unknown
new W = record { room_info = []; unknown = W.no_fields }

abbrev pub parser : (W : Coded) → Parser W.Unknown (Message W.Unknown)
parser W = record {
  cutoff = 127;
  table =
      (
        1,
        10,
        repeated_case
            (record { elems = λ m. m.room_info; set_elems = λ xs m. record m { room_info = xs } })
            (RoomInfo.new W) (run_parser W (RoomInfo.parser W)),
      )
      ∷ [];
  unknown = λ m. m.unknown;
  set_unknown = λ u m. record m { unknown = u };
}

-- What is written, in this order.
abbrev pub parts : (W : Coded) → Message W.Unknown → List Text
parts W m = messages_part W (RoomInfo.serialize W) 1 m.room_info ∷ W.write_unknown m.unknown ∷ []

unfoldable pub serialize : (W : Coded) → Message W.Unknown → Text
serialize W m = written (parts W m)

unfoldable pub byte_size : (W : Coded) → Message W.Unknown → ℕ
byte_size W m = total (
    W.unknown_size m.unknown
    ∷ repeated_size 1 (λ b. W.message_size (RoomInfo.byte_size W b)) m.room_info
    ∷ [])

unfoldable pub merge_from : (W : Coded) → Message W.Unknown → Message W.Unknown → Message W.Unknown
merge_from W m from = record {
  room_info = m.room_info ++ from.room_info;
  unknown = W.merge_unknown m.unknown from.unknown;
}

abbrev pub class : (W : Coded) → Class W (Message W.Unknown)
class W = record {
  new = new W;
  parser = parser W;
  serialize = serialize W;
  byte_size = byte_size W;
  merge_from = merge_from W;
}
