-- ===== src/Messages/SelectRoleRequest.antt =====
-- The message SelectRoleRequest of DNW_Server/protoc/proto/command.txt, as the generated class of
-- DNW_Server/include/protoFiles/command.txt.pb.cc.
pub mod Format
use jira_game.Base.{List, Option, Text, [], none, ℕ, ◌∷◌}
use jira_game.Messages.Kit.{
  Class, Coded, Parser, int32_case, int32_part, over, required_two, string_case, string_part, total,
  written,
}

pub record Message (U : Type 0) : Type 0 where
  pub session_id : Option Text
  pub role_type : Option ℕ
  pub unknown : U

abbrev pub new : (W : Coded) → Message W.Unknown
new W = record { session_id = none; role_type = none; unknown = W.no_fields }

abbrev pub parser : (W : Coded) → Parser W.Unknown (Message W.Unknown)
parser W = record {
  cutoff = 127;
  table =
      (
        1,
        10,
        string_case (record { get = λ m. m.session_id; put = λ v m. record m { session_id = v } }),
      )
      ∷ (
        2,
        16,
        int32_case (record { get = λ m. m.role_type; put = λ v m. record m { role_type = v } }),
      )
      ∷ [];
  unknown = λ m. m.unknown;
  set_unknown = λ u m. record m { unknown = u };
}

-- What is written, in this order.
abbrev pub parts : (W : Coded) → Message W.Unknown → List Text
parts W m =
    string_part W 1 m.session_id ∷ int32_part W 2 m.role_type ∷ W.write_unknown m.unknown ∷ []

unfoldable pub serialize : (W : Coded) → Message W.Unknown → Text
serialize W m = written (parts W m)

unfoldable pub byte_size : (W : Coded) → Message W.Unknown → ℕ
byte_size W m = total (
    W.unknown_size m.unknown
    ∷ required_two W.string_size [] m.session_id W.int32.size 0 m.role_type
    ∷ [])

unfoldable pub merge_from : (W : Coded) → Message W.Unknown → Message W.Unknown → Message W.Unknown
merge_from W m from = record {
  session_id = over from.session_id m.session_id;
  role_type = over from.role_type m.role_type;
  unknown = W.merge_unknown m.unknown from.unknown;
}

abbrev pub class : (W : Coded) → Class W (Message W.Unknown)
class W = record {
  new = new W;
  parser = parser W;
  serialize = serialize W;
  byte_size = byte_size W;
  merge_from = merge_from W;
}
