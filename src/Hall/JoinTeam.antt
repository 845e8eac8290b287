-- ===== src/Hall/JoinTeam.antt =====
-- `CHallScene::RequestTeam` and `CHallScene::JoinTeam` of
-- DNW_Server/Server/GameLogic/SceneChain/HallScene.cpp: an invitation, and its acceptance, where
-- the client names the room and the seat.
pub mod Outcome
use jira_game.Base.{
  Bool, List, Option, [], false, if◌then◌else◌, keep, none, not, some, ℕ, ◌&&◌, ◌++◌, ◌==◌, ◌>>=◌,
  ◌∷◌,
}
use jira_game.World.{World, on_cache}
use jira_game.Cache.{
  entity_room_add_member, find_entity_room, get_entity, get_entity_socket, modify_room,
  set_role_info,
}
use jira_game.Proto.{
  HallMsgType, HallRequest, PlayerInfo, RoomInfo, TeamType, default_player, empty_hall_return,
  rt_join_room,
}
use jira_game.JiraEvent.{send_all, send_msg}
use jira_game.Hall.Replies.{hall_packet, sockets}
use jira_game.Hall.Seats.{team_key}
use jira_game.Hall.Join.{enter_joined, joined_reply, less_free}

-- The invitation goes to the socket of the invited role, with the name of the one who invites.
unfoldable pub request_team : ℕ → HallRequest → World → Option World
request_team socket req w =
    let target = get_entity_socket req.invite_info.rev_user_id w.cache in
    get_entity socket w.cache >>= λ e.
    let invite = record req.invite_info { req_user_name = e.role_info.name } in
    let reply = record empty_hall_return {
      invite_info = some invite;
      msg_type = some HallMsgType.request_team;
    } in
    some (if target == 0 then w else send_msg target (hall_packet reply) w)

abbrev pub has_seat : TeamType → ℕ → PlayerInfo → Bool
has_seat team seat p = team_key p.team == team_key team && p.team_id == seat

-- What the reply tells of a member.
unfoldable pub member_info : PlayerInfo → PlayerInfo
member_info p = record default_player {
  is_room_ctl = p.is_room_ctl;
  role_id = p.role_id;
  name = p.name;
  role_type = p.role_type;
  room_state = p.room_state;
  team = p.team;
  team_id = p.team_id;
}

-- The loop over the members; `none` where one of them has the seat.
unfoldable pub members_but : TeamType → ℕ → List PlayerInfo → Option (List PlayerInfo)
unfolding member_info
members_but team seat [] = some []
members_but team seat (p ∷ ps) =
    let rest = members_but team seat ps in
    if has_seat team seat p then none else (rest >>= λ ms. some (member_info p ∷ ms))

-- The entry of the new player; unlike `JoinRoom`, it does not get the room's id.
unfoldable pub invited : ℕ → PlayerInfo → TeamType × ℕ → PlayerInfo
invited socket me (team, seat) = record default_player {
  is_room_ctl = false;
  socket = socket;
  role_id = me.role_id;
  name = me.name;
  role_type = me.role_type;
  room_state = rt_join_room;
  team = team;
  team_id = seat;
}

-- The sockets of the other members, then the player's own.
abbrev pub others_first : ℕ → List PlayerInfo → List ℕ
others_first socket ps = keep (λ s. not (s == socket)) (sockets ps) ++ socket ∷ []

unfoldable pub accept_seat :
    ℕ → ℕ → PlayerInfo → RoomInfo → TeamType × ℕ → List PlayerInfo → World → World
unfolding invited enter_joined joined_reply
accept_seat socket id me room seat members w =
    let new = invited socket me seat in
    send_all (others_first socket (room.players ++ new ∷ []))
      (hall_packet (joined_reply room (members ++ new ∷ [])))
      (on_cache
        (λ c.
          entity_room_add_member id new
            (set_role_info socket (enter_joined room.room_id seat) (modify_room id less_free c)))
        w)

-- Where the room is missing, line 298 reads through the null pointer. Where the seat is taken, the
-- cleared reply is sent.
unfoldable pub join_team : ℕ → HallRequest → World → Option World
unfolding members_but accept_seat
join_team socket req w =
    let id = req.invite_info.room_id in
    let seat : TeamType × ℕ = (req.invite_info.team, req.invite_info.team_id) in
    find_entity_room id w.cache >>= λ room.
    elim (members_but req.invite_info.team req.invite_info.team_id room.players) [
      | none ↦ some (send_all (others_first socket room.players) (hall_packet empty_hall_return) w)
      | some members ↦
          (get_entity socket w.cache >>= λ e.
          some (accept_seat socket id e.role_info room seat members w))
    ]
