-- ===== src/Messages/Position3D.antt =====
-- The message Position3D of DNW_Server/protoc/proto/scene.txt, as the generated class of
-- DNW_Server/include/protoFiles/scene.txt.pb.cc.
pub mod Format
use jira_game.Base.{List, Option, Text, [], none, ℕ, ◌∷◌}
use jira_game.Messages.Kit.{
  Class, Coded, Parser, over, required_three, string_case, string_part, total, written,
}

pub record Message (U : Type 0) : Type 0 where
  pub x : Option Text
  pub y : Option Text
  pub z : Option Text
  pub unknown : U

abbrev pub new : (W : Coded) → Message W.Unknown
new W = record { x = none; y = none; z = none; unknown = W.no_fields }

abbrev pub parser : (W : Coded) → Parser W.Unknown (Message W.Unknown)
parser W = record {
  cutoff = 127;
  table =
      (1, 10, string_case (record { get = λ m. m.x; put = λ v m. record m { x = v } }))
      ∷ (2, 18, string_case (record { get = λ m. m.y; put = λ v m. record m { y = v } }))
      ∷ (3, 26, string_case (record { get = λ m. m.z; put = λ v m. record m { z = v } }))
      ∷ [];
  unknown = λ m. m.unknown;
  set_unknown = λ u m. record m { unknown = u };
}

-- What is written, in this order.
abbrev pub parts : (W : Coded) → Message W.Unknown → List Text
parts W m =
    string_part W 1 m.x ∷ string_part W 2 m.y ∷ string_part W 3 m.z ∷ W.write_unknown m.unknown ∷ []

unfoldable pub serialize : (W : Coded) → Message W.Unknown → Text
serialize W m = written (parts W m)

unfoldable pub byte_size : (W : Coded) → Message W.Unknown → ℕ
byte_size W m = total (
    W.unknown_size m.unknown
    ∷ required_three W.string_size [] m.x W.string_size [] m.y W.string_size [] m.z
    ∷ [])

unfoldable pub merge_from : (W : Coded) → Message W.Unknown → Message W.Unknown → Message W.Unknown
merge_from W m from = record {
  x = over from.x m.x;
  y = over from.y m.y;
  z = over from.z m.z;
  unknown = W.merge_unknown m.unknown from.unknown;
}

abbrev pub class : (W : Coded) → Class W (Message W.Unknown)
class W = record {
  new = new W;
  parser = parser W;
  serialize = serialize W;
  byte_size = byte_size W;
  merge_from = merge_from W;
}
