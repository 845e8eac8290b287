-- ===== src/Messages/RegisterReturn.antt =====
-- The message RegisterReturn of DNW_Server/protoc/proto/command.txt, as the generated class of
-- DNW_Server/include/protoFiles/command.txt.pb.cc.
pub mod Format
use jira_game.Base.{List, Option, Text, [], none, ℕ, ◌∷◌}
use jira_game.Proto.{RegisterReturnType}
use jira_game.Messages.Kit.{
  Class, Coded, Parser, enum_case, enum_part, over, part_size, register_return_type,
  register_return_type_number, total, written,
}

pub record Message (U : Type 0) : Type 0 where
  pub return_type : Option RegisterReturnType
  pub unknown : U

abbrev pub new : (W : Coded) → Message W.Unknown
new W = record { return_type = none; unknown = W.no_fields }

abbrev pub parser : (W : Coded) → Parser W.Unknown (Message W.Unknown)
parser W = record {
  cutoff = 127;
  table =
      (
        1,
        8,
        enum_case 1 (record { get = λ m. m.return_type; put = λ v m. record m { return_type = v } })
            register_return_type,
      )
      ∷ [];
  unknown = λ m. m.unknown;
  set_unknown = λ u m. record m { unknown = u };
}

-- What is written, in this order.
abbrev pub parts : (W : Coded) → Message W.Unknown → List Text
parts W m = enum_part W register_return_type_number 1 m.return_type ∷ W.write_unknown m.unknown ∷ []

unfoldable pub serialize : (W : Coded) → Message W.Unknown → Text
serialize W m = written (parts W m)

unfoldable pub byte_size : (W : Coded) → Message W.Unknown → ℕ
byte_size W m = total (
    W.unknown_size m.unknown
    ∷ part_size 1 (λ e. W.enum.size (register_return_type_number e)) m.return_type
    ∷ [])

unfoldable pub merge_from : (W : Coded) → Message W.Unknown → Message W.Unknown → Message W.Unknown
merge_from W m from = record {
  return_type = over from.return_type m.return_type;
  unknown = W.merge_unknown m.unknown from.unknown;
}

abbrev pub class : (W : Coded) → Class W (Message W.Unknown)
class W = record {
  new = new W;
  parser = parser W;
  serialize = serialize W;
  byte_size = byte_size W;
  merge_from = merge_from W;
}
