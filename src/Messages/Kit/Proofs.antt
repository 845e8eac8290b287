-- ===== src/Messages/Kit/Proofs.antt =====
-- The names that the proofs about the message classes share.
pub use jira_game.Messages.Coded.Laws.{IsShort, IsWord, Lawful}
pub use jira_game.Messages.Parser.Merging.{Merges}
pub use jira_game.Messages.Parser.Fields.{
  string-Merges, int32-Merges, float-Merges, bool-Merges, enum-Merges, message-Merges,
  messages-Merges, end-Merges,
}
pub use jira_game.Messages.Class.Fresh.{
  written-append, over-none, over_message-none, fresh-unknown, length-unknown,
}
pub use jira_game.Messages.Class.Codes.{Codes, Nested}
pub use jira_game.Messages.Sizes.Parts.{
  length-written, length-string_part, length-int32_part, length-float_part, length-bool_part,
  length-enum_part, length-message_part, length-messages_part, required_two-eq, required_three-eq,
}
pub use jira_game.Messages.Enums.Known.{
  team_type_lem, room_type_lem, player_status_lem, cur_scene_lem, message_type_lem,
  login_return_type_lem, register_return_type_lem, create_role_return_type_lem, hall_msg_type_lem,
  game_main_msg_type_lem,
}
