-- ===== src/Tests/Replies.antt =====
-- A reply in the buffer that it is sent from.
use jira_game.Base.{
  Text, arith, drop, length, length-replicate, none, refl, replicate, some, ℕ, ◌<◌, ◌≡◌, ◌≤◌, ◌⊎◌,
}
use jira_game.Proto.{select_role_scene, wait_room}
use jira_game.Messages.HallReturn as Hall
use jira_game.Messages.SelectRoleReturn as Selected
use jira_game.Messages.Packet as Replies
use jira_game.Messages.Packet.Format as RepliesFormat
use jira_game.Messages.SendBuffer.{fill_send_buffer, fill_send_buffer-sends, notify_bytes}
use jira_game.Worker.{msgsize}
use jira_game.Tests.Coding.{coding, coding-Lawful}

abbrev reply : Replies.Message Unit
reply = record {
  cur_scene = some select_role_scene;
  msg_type = none;
  login_request = none;
  login_return = none;
  register_request = none;
  register_return = none;
  create_role_request = none;
  create_role_return = none;
  select_role_request = none;
  select_role_return = some (record (Selected.new coding) { user_id = some 7 });
  hall_request = none;
  hall_return = none;
  game_main_request = none;
  game_main_return = none;
  keep_alive = none;
  unknown = tt;
}

reply-Fits : RepliesFormat.Fits coding reply
unfolding Selected.serialize
reply-Fits = record {
  login_request = tt;
  login_return = tt;
  register_request = tt;
  register_return = tt;
  create_role_request = tt;
  create_role_return = tt;
  select_role_request = tt;
  select_role_return = (omega arith, record { user_id = omega arith; unknown = refl });
  hall_request = tt;
  hall_return = tt;
  game_main_request = tt;
  game_main_return = tt;
  keep_alive = tt;
  unknown = refl;
}

abbrev old : Text
old = replicate msgsize 9

fill_send_buffer-sends_example :
    ((length (Replies.serialize coding reply) ≤ msgsize)
      × ((buffer : Text) × (size : ℕ) × (fill_send_buffer coding reply old ≡ some (buffer, size))
          × (notify_bytes buffer size ≡ Replies.serialize coding reply)
          × (drop size buffer ≡ drop size old)
          × (length buffer ≡ msgsize)))
    ⊎ ((msgsize < length (Replies.serialize coding reply))
        × (fill_send_buffer coding reply old ≡ none))
fill_send_buffer-sends_example =
    fill_send_buffer-sends coding coding-Lawful reply old reply-Fits
      (length-replicate {A = ℕ} msgsize 9)

-- A reply with a room name of the array's length does not fit.
abbrev long_reply : Replies.Message Unit
long_reply = record reply {
  cur_scene = some wait_room;
  hall_return = some (record (Hall.new coding) { room_name = some old });
}

long_reply_overflows : fill_send_buffer coding long_reply old ≡ none
unfolding fill_send_buffer Replies.serialize Replies.byte_size Hall.byte_size Selected.byte_size
long_reply_overflows = refl
