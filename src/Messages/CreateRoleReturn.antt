-- ===== src/Messages/CreateRoleReturn.antt =====
-- The message CreateRoleReturn of DNW_Server/protoc/proto/command.txt, as the generated class of
-- DNW_Server/include/protoFiles/command.txt.pb.cc.
pub mod Format
use jira_game.Base.{List, Option, Text, [], none, ℕ, ◌++◌, ◌∷◌}
use jira_game.Proto.{CreateRoleReturnType}
use jira_game.Messages.Kit.{
  Class, Coded, Parser, create_role_return_type, create_role_return_type_number, enum_case,
  enum_part, messages_part, over, part_size, repeated_case, repeated_size, run_parser, total,
  written,
}
use jira_game.Messages.PlayerInfo

pub record Message (U : Type 0) : Type 0 where
  pub return_type : Option CreateRoleReturnType
  pub player_info : List (PlayerInfo.Message U)
  pub unknown : U

abbrev pub new : (W : Coded) → Message W.Unknown
new W = record { return_type = none; player_info = []; unknown = W.no_fields }

abbrev pub parser : (W : Coded) → Parser W.Unknown (Message W.Unknown)
parser W = record {
  cutoff = 127;
  table =
      (
        1,
        8,
        enum_case 1 (record { get = λ m. m.return_type; put = λ v m. record m { return_type = v } })
            create_role_return_type,
      )
      ∷ (
        2,
        18,
        repeated_case
            (record {
              elems = λ m. m.player_info;
              set_elems = λ xs m. record m { player_info = xs };
            })
            (PlayerInfo.new W) (run_parser W (PlayerInfo.parser W)),
      )
      ∷ [];
  unknown = λ m. m.unknown;
  set_unknown = λ u m. record m { unknown = u };
}

-- What is written, in this order.
abbrev pub parts : (W : Coded) → Message W.Unknown → List Text
parts W m =
    enum_part W create_role_return_type_number 1 m.return_type
    ∷ messages_part W (PlayerInfo.serialize W) 2 m.player_info
    ∷ W.write_unknown m.unknown
    ∷ []

unfoldable pub serialize : (W : Coded) → Message W.Unknown → Text
serialize W m = written (parts W m)

unfoldable pub byte_size : (W : Coded) → Message W.Unknown → ℕ
byte_size W m = total (
    W.unknown_size m.unknown
    ∷ part_size 1 (λ e. W.enum.size (create_role_return_type_number e)) m.return_type
    ∷ repeated_size 1 (λ b. W.message_size (PlayerInfo.byte_size W b)) m.player_info
    ∷ [])

unfoldable pub merge_from : (W : Coded) → Message W.Unknown → Message W.Unknown → Message W.Unknown
merge_from W m from = record {
  return_type = over from.return_type m.return_type;
  player_info = m.player_info ++ from.player_info;
  unknown = W.merge_unknown m.unknown from.unknown;
}

abbrev pub class : (W : Coded) → Class W (Message W.Unknown)
class W = record {
  new = new W;
  parser = parser W;
  serialize = serialize W;
  byte_size = byte_size W;
  merge_from = merge_from W;
}
