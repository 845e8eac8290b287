-- ===== src/Messages/KeepAliveMsg.antt =====
-- The message KeepAliveMsg of DNW_Server/protoc/proto/command.txt, as the generated class of
-- DNW_Server/include/protoFiles/command.txt.pb.cc.
pub mod Format
use jira_game.Base.{List, Option, Text, [], none, ℕ, ◌∷◌}
use jira_game.Proto.{CurScene}
use jira_game.Messages.Kit.{
  Class, Coded, Parser, cur_scene, cur_scene_number, enum_case, enum_part, over, part_size, total,
  written,
}

pub record Message (U : Type 0) : Type 0 where
  pub cur_scene : Option CurScene
  pub unknown : U

abbrev pub new : (W : Coded) → Message W.Unknown
new W = record { cur_scene = none; unknown = W.no_fields }

abbrev pub parser : (W : Coded) → Parser W.Unknown (Message W.Unknown)
parser W = record {
  cutoff = 127;
  table =
      (
        1,
        8,
        enum_case 1 (record { get = λ m. m.cur_scene; put = λ v m. record m { cur_scene = v } })
            cur_scene,
      )
      ∷ [];
  unknown = λ m. m.unknown;
  set_unknown = λ u m. record m { unknown = u };
}

-- What is written, in this order.
abbrev pub parts : (W : Coded) → Message W.Unknown → List Text
parts W m = enum_part W cur_scene_number 1 m.cur_scene ∷ W.write_unknown m.unknown ∷ []

unfoldable pub serialize : (W : Coded) → Message W.Unknown → Text
serialize W m = written (parts W m)

unfoldable pub byte_size : (W : Coded) → Message W.Unknown → ℕ
byte_size W m = total (
    W.unknown_size m.unknown ∷ part_size 1 (λ e. W.enum.size (cur_scene_number e)) m.cur_scene ∷ [])

unfoldable pub merge_from : (W : Coded) → Message W.Unknown → Message W.Unknown → Message W.Unknown
merge_from W m from = record {
  cur_scene = over from.cur_scene m.cur_scene;
  unknown = W.merge_unknown m.unknown from.unknown;
}

abbrev pub class : (W : Coded) → Class W (Message W.Unknown)
class W = record {
  new = new W;
  parser = parser W;
  serialize = serialize W;
  byte_size = byte_size W;
  merge_from = merge_from W;
}
