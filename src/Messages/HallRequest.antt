-- ===== src/Messages/HallRequest.antt =====
-- The message HallRequest of DNW_Server/protoc/proto/command.txt, as the generated class of
-- DNW_Server/include/protoFiles/command.txt.pb.cc.
pub mod Format
use jira_game.Base.{List, Option, Text, [], none, ℕ, ◌∷◌}
use jira_game.Proto.{HallMsgType}
use jira_game.Messages.Kit.{
  Class, Coded, Parser, enum_case, enum_part, hall_msg_type, hall_msg_type_number, int32_case,
  int32_part, message_part, optional_case, over, over_message, part_size, required_two, run_parser,
  string_case, string_part, total, written,
}
use jira_game.Messages.InviteInfo

pub record Message (U : Type 0) : Type 0 where
  pub session_id : Option Text
  pub msg_type : Option HallMsgType
  pub room_name : Option Text
  pub user_id : Option ℕ
  pub invite_info : Option (InviteInfo.Message U)
  pub unknown : U

abbrev pub new : (W : Coded) → Message W.Unknown
new W = record {
  session_id = none;
  msg_type = none;
  room_name = none;
  user_id = none;
  invite_info = none;
  unknown = W.no_fields;
}

abbrev pub parser : (W : Coded) → Parser W.Unknown (Message W.Unknown)
parser W = record {
  cutoff = 127;
  table =
      (
        1,
        10,
        string_case (record { get = λ m. m.session_id; put = λ v m. record m { session_id = v } }),
      )
      ∷ (
        2,
        16,
        enum_case 2 (record { get = λ m. m.msg_type; put = λ v m. record m { msg_type = v } })
            hall_msg_type,
      )
      ∷ (
        3,
        26,
        string_case (record { get = λ m. m.room_name; put = λ v m. record m { room_name = v } }),
      )
      ∷ (4, 32, int32_case (record { get = λ m. m.user_id; put = λ v m. record m { user_id = v } }))
      ∷ (
        5,
        42,
        optional_case
            (record { get = λ m. m.invite_info; put = λ v m. record m { invite_info = v } })
            (InviteInfo.new W) (run_parser W (InviteInfo.parser W)),
      )
      ∷ [];
  unknown = λ m. m.unknown;
  set_unknown = λ u m. record m { unknown = u };
}

-- What is written, in this order.
abbrev pub parts : (W : Coded) → Message W.Unknown → List Text
parts W m =
    string_part W 1 m.session_id
    ∷ enum_part W hall_msg_type_number 2 m.msg_type
    ∷ string_part W 3 m.room_name
    ∷ int32_part W 4 m.user_id
    ∷ message_part W (InviteInfo.serialize W) 5 m.invite_info
    ∷ W.write_unknown m.unknown
    ∷ []

unfoldable pub serialize : (W : Coded) → Message W.Unknown → Text
serialize W m = written (parts W m)

unfoldable pub byte_size : (W : Coded) → Message W.Unknown → ℕ
byte_size W m = total (
    W.unknown_size m.unknown
    ∷ required_two W.string_size [] m.session_id (λ e. W.enum.size (hall_msg_type_number e))
        HallMsgType.auto_match m.msg_type
    ∷ part_size 1 W.string_size m.room_name
    ∷ part_size 1 (λ b. W.message_size (InviteInfo.byte_size W b)) m.invite_info
    ∷ part_size 1 W.int32.size m.user_id
    ∷ [])

unfoldable pub merge_from : (W : Coded) → Message W.Unknown → Message W.Unknown → Message W.Unknown
merge_from W m from = record {
  session_id = over from.session_id m.session_id;
  msg_type = over from.msg_type m.msg_type;
  room_name = over from.room_name m.room_name;
  user_id = over from.user_id m.user_id;
  invite_info =
      over_message (InviteInfo.merge_from W) (InviteInfo.new W) from.invite_info m.invite_info;
  unknown = W.merge_unknown m.unknown from.unknown;
}

abbrev pub class : (W : Coded) → Class W (Message W.Unknown)
class W = record {
  new = new W;
  parser = parser W;
  serialize = serialize W;
  byte_size = byte_size W;
  merge_from = merge_from W;
}
