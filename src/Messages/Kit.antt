-- ===== src/Messages/Kit.antt =====
-- The names that the message classes share.
pub mod Proofs
pub use jira_game.Messages.Coded.{Coded}
pub use jira_game.Messages.Parser.{
  Ending, Slot, ListSlot, Case, string_case, int32_case, float_case, bool_case, enum_case,
  optional_case, repeated_case, Parser, run_parser, whole,
}
pub use jira_game.Messages.Class.{Class, over, over_message}
pub use jira_game.Messages.Writer.{
  written, string_part, int32_part, float_part, bool_part, enum_part, message_part, messages_part,
}
pub use jira_game.Messages.Sizes.{total, part_size, repeated_size, required_two, required_three}
pub use jira_game.Messages.Enums.{
  MessageType, team_type, team_type_number, room_type, room_type_number, player_status,
  player_status_number, cur_scene, cur_scene_number, message_type, message_type_number,
  login_return_type, login_return_type_number, register_return_type, register_return_type_number,
  create_role_return_type, create_role_return_type_number, hall_msg_type, hall_msg_type_number,
  game_main_msg_type, game_main_msg_type_number,
}
