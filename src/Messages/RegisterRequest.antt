-- ===== src/Messages/RegisterRequest.antt =====
-- The message RegisterRequest of DNW_Server/protoc/proto/command.txt, as the generated class of
-- DNW_Server/include/protoFiles/command.txt.pb.cc.
pub mod Format
use jira_game.Base.{List, Option, Text, [], none, ℕ, ◌∷◌}
use jira_game.Messages.Kit.{
  Class, Coded, Parser, over, required_two, string_case, string_part, total, written,
}

pub record Message (U : Type 0) : Type 0 where
  pub user_name : Option Text
  pub pass_word : Option Text
  pub unknown : U

abbrev pub new : (W : Coded) → Message W.Unknown
new W = record { user_name = none; pass_word = none; unknown = W.no_fields }

abbrev pub parser : (W : Coded) → Parser W.Unknown (Message W.Unknown)
parser W = record {
  cutoff = 127;
  table =
      (
        1,
        10,
        string_case (record { get = λ m. m.user_name; put = λ v m. record m { user_name = v } }),
      )
      ∷ (
        2,
        18,
        string_case (record { get = λ m. m.pass_word; put = λ v m. record m { pass_word = v } }),
      )
      ∷ [];
  unknown = λ m. m.unknown;
  set_unknown = λ u m. record m { unknown = u };
}

-- What is written, in this order.
abbrev pub parts : (W : Coded) → Message W.Unknown → List Text
parts W m =
    string_part W 1 m.user_name ∷ string_part W 2 m.pass_word ∷ W.write_unknown m.unknown ∷ []

unfoldable pub serialize : (W : Coded) → Message W.Unknown → Text
serialize W m = written (parts W m)

unfoldable pub byte_size : (W : Coded) → Message W.Unknown → ℕ
byte_size W m = total (
    W.unknown_size m.unknown
    ∷ required_two W.string_size [] m.user_name W.string_size [] m.pass_word
    ∷ [])

unfoldable pub merge_from : (W : Coded) → Message W.Unknown → Message W.Unknown → Message W.Unknown
merge_from W m from = record {
  user_name = over from.user_name m.user_name;
  pass_word = over from.pass_word m.pass_word;
  unknown = W.merge_unknown m.unknown from.unknown;
}

abbrev pub class : (W : Coded) → Class W (Message W.Unknown)
class W = record {
  new = new W;
  parser = parser W;
  serialize = serialize W;
  byte_size = byte_size W;
  merge_from = merge_from W;
}
