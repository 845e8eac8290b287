-- ===== src/Tests/Requests.antt =====
-- Bob's request to join Ann's room, from its bytes on.
use jira_game.Base.{
  ==_iff, Bool, Bool-cases, Text, [], arith, false, inl, inr, lookup, not, refl, some, sym, true,
  ◌&&◌, ◌++◌, ◌==◌, ◌∙◌, ◌∷◌, ◌≡◌,
}
use jira_game.Proto.{HallMsgType, wait_room}
use jira_game.Cache.{get_entity}
use jira_game.Messages.Parser.{loop, run_parser, whole}
use jira_game.Messages.Parser.Fuel.{loop-enough}
use jira_game.Messages.View.{hall_request_of, invite_of, parse_request, un_packet_of}
use jira_game.Messages.InviteInfo as Invite
use jira_game.Messages.InviteInfo.Format as InviteFormat
use jira_game.Messages.HallRequest as Hall
use jira_game.Messages.HallRequest.Format as HallFormat
use jira_game.Messages.UnPacket as Packets
use jira_game.Messages.UnPacket.Format as PacketsFormat
use jira_game.Messages.Requests.{handled, handle-both, handle-serialize, packet-parse}
use jira_game.Worker.{bytes, handle}
use jira_game.Worker.Messages.{NoNul}
use jira_game.Tests.Coding.{coding, coding-Forward, coding-Lawful}
use jira_game.Tests.Sqlite.{one_row}
use jira_game.Tests.Worker.{copies, copy, site}
use jira_game.Tests.Worlds.{bob, bob_joins, bob_session, entity}

abbrev invite : Invite.Message Unit
invite = record (Invite.new coding) { room_id = some 500123 }

abbrev join : Hall.Message Unit
join = record (Hall.new coding) {
  session_id = some bob_session;
  msg_type = some HallMsgType.join_room;
  invite_info = some invite;
}

abbrev packet : Packets.Message Unit
packet = record (Packets.new coding) { cur_scene = some wait_room; hall_request = some join }

invite-Fits : InviteFormat.Fits coding invite
invite-Fits = record {
  room_id = omega arith;
  req_user_id = tt;
  req_user_name = tt;
  rev_user_id = tt;
  team_id = tt;
  unknown = refl;
}

join-Fits : HallFormat.Fits coding join
unfolding Invite.serialize
join-Fits = record {
  session_id = omega arith;
  room_name = tt;
  user_id = tt;
  invite_info = (omega arith, invite-Fits);
  unknown = refl;
}

packet-Fits : PacketsFormat.Fits coding packet
unfolding Hall.serialize Invite.serialize
packet-Fits = record {
  login_request = tt;
  login_return = tt;
  register_request = tt;
  register_return = tt;
  create_role_request = tt;
  create_role_return = tt;
  select_role_request = tt;
  select_role_return = tt;
  hall_request = (omega arith, join-Fits);
  hall_return = tt;
  game_main_request = tt;
  game_main_return = tt;
  keep_alive = tt;
  unknown = refl;
}

packet-parse_example :
    run_parser coding (Packets.parser coding) (Packets.serialize coding packet) (Packets.new coding)
    ≡ (packet, whole)
packet-parse_example = packet-parse coding coding-Lawful packet packet-Fits

abbrev no_zero : Text → Bool
no_zero [] = true
no_zero (c ∷ t) = not (c == 0) && no_zero t

plain : (t : Text) → no_zero t ≡ true → NoNul t
plain [] h = tt
plain (c ∷ t) h = elim (Bool-cases (c == 0)) [
  | inl nul ↦ let no : false ≡ true = rw nul at h in absurd (cc no)
  | inr other ↦
      let onward : no_zero t ≡ true = rw other at h in
      ((λ e. absurd (cc (sym other ∙ (==_iff c 0).1 e))), plain t onward)
]

abbrev packet_bytes : Text
packet_bytes = Packets.serialize coding packet

handle-serialize_example :
    handle one_row copy (parse_request coding) 5 1 20 (bytes packet_bytes) site
    ≡ handled coding one_row copy 5 20
        (entity 20 bob_session bob)
        packet_bytes
        (un_packet_of coding packet)
        site
unfolding get_entity lookup Packets.serialize Hall.serialize Invite.serialize
handle-serialize_example =
    handle-serialize coding coding-Lawful one_row copy copies 5 1 20 site
      (entity 20 bob_session bob) refl packet packet-Fits (plain packet_bytes refl) (omega arith)
      (omega arith)

loop-enough_example :
    loop coding (Packets.parser coding) 50 packet_bytes (Packets.new coding)
    ≡ loop coding (Packets.parser coding) 60 packet_bytes (Packets.new coding)
unfolding Packets.serialize Hall.serialize Invite.serialize
loop-enough_example =
    loop-enough coding coding-Forward (Packets.parser coding) 50 60 packet_bytes
      (Packets.new coding) (omega arith) (omega arith)

-- Behind it, a request for the list of the friends that are online.
abbrev friends : Packets.Message Unit
friends = record (Packets.new coding) {
  cur_scene = some wait_room;
  hall_request = some (record (Hall.new coding) { msg_type = some HallMsgType.online_friend });
}

friends-Fits : PacketsFormat.Fits coding friends
unfolding Hall.serialize
friends-Fits = record {
  login_request = tt;
  login_return = tt;
  register_request = tt;
  register_return = tt;
  create_role_request = tt;
  create_role_return = tt;
  select_role_request = tt;
  select_role_return = tt;
  hall_request = (
    omega arith,
    record { session_id = tt; room_name = tt; user_id = tt; invite_info = tt; unknown = refl },
  );
  hall_return = tt;
  game_main_request = tt;
  game_main_return = tt;
  keep_alive = tt;
  unknown = refl;
}

abbrev both_bytes : Text
both_bytes = packet_bytes ++ Packets.serialize coding friends

handle-both_example :
    handle one_row copy (parse_request coding) 5 1 20 (bytes both_bytes) site
    ≡ handled coding one_row copy 5 20
        (entity 20 bob_session bob)
        both_bytes
        (un_packet_of coding (Packets.merge_from coding packet friends))
        site
unfolding get_entity lookup Packets.serialize Hall.serialize Invite.serialize
handle-both_example =
    handle-both coding coding-Lawful one_row copy copies 5 1 20 site (entity 20 bob_session bob)
      refl packet friends both_bytes packet-Fits friends-Fits refl (plain both_bytes refl)
      (omega arith) (omega arith)

-- What it is read as asks for the friends, with the session and the invitation of the first.
merged_request :
    (un_packet_of coding (Packets.merge_from coding packet friends)).hall_request
    ≡ record bob_joins { msg_type = HallMsgType.online_friend; room_name = [] }
unfolding un_packet_of hall_request_of invite_of Packets.merge_from Hall.merge_from
merged_request = refl
