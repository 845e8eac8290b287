-- ===== src/Tests/Hall.antt =====
-- The theorems on the hall, on the lobby.
use jira_game.Base.{
  [], false, if◌then◌else◌, is_empty, lookup, ltb, refl, some, text_eq, ◌∷◌, ◌≡◌, ◌⊎◌,
}
use jira_game.Proto.{HallMsgType, HallRequest, RoomInfo, empty_hall_return, team_a}
use jira_game.Cache.{
  Entity, check_entity_room_is_only, check_session_valid, find_entity_room, get_entity,
}
use jira_game.World.{World}
use jira_game.Tests.Worlds.{
  ann, ann_session, bob, bob_inside, bob_joins, bob_session, entity, hall_request, lobby, or_same,
  pair, pair_room, small_room, world_of,
}
use jira_game.Hall.{dispatch, hall_logic}
use jira_game.Hall.Join.{find_role, join_room}
use jira_game.Hall.Join.Outcome.{Joined, join_room_new}
use jira_game.Hall.Seats.{first_seat, idle_seats}
use jira_game.Hall.Seats.Idle.{first_seat-idle_seats}
use jira_game.Hall.JoinTeam.{join_team}
use jira_game.Hall.JoinTeam.Outcome.{join_team_again}
use jira_game.Hall.Leave.{depart, depart_room, leave_others, promote_entity, stayers}
use jira_game.Hall.Leave.Outcome.{Left, depart-Left}
use jira_game.Hall.Ready.{all_player_waite, game_start}
use jira_game.Hall.Ready.Outcome.{OthersWait, game_start-OthersWait, start_packet}
use jira_game.Hall.Replies.{hall_packet}
use jira_game.Hall.RoomId.{genrate_only_room_id}
use jira_game.Hall.RoomId.Fresh.{Generated, genrate_only_room_id-Generated}
use jira_game.JiraEvent.{send_all}
use jira_game.JiraEvent.Laws.{deliveries, send_all-sent}
use jira_game.Session.{hall_needs_session}
use jira_game.Utl.{
  decimal, digits_value, genrate_random_id, int2_string, random_pieces, signed_value, skip_space,
  string2_int,
}
use jira_game.Rooms.Roles.{count_role}

join_room_new_example :
    (w' : World) × (join_room 20 bob_joins lobby ≡ some w')
    × Joined 20 500123 bob small_room (some (team_a, 1)) lobby w'
unfolding get_entity find_entity_room lookup find_role
join_room_new_example =
    join_room_new 20 bob_joins lobby (entity 20 bob_session bob) small_room refl refl refl

abbrev ann_gone : World
ann_gone = or_same (depart 10 pair) pair

depart-Left_example : Left 10 ann pair_room pair ann_gone
unfolding depart depart_room stayers leave_others promote_entity get_entity find_entity_room lookup
depart-Left_example =
    depart-Left 10 (entity 10 ann_session ann) pair_room pair ann_gone refl refl refl

first_seat-idle_seats_example :
    (first_seat (idle_seats pair_room.players) ≡ some (team_a, 2))
    × (is_empty (idle_seats pair_room.players) ≡ false)
first_seat-idle_seats_example = first_seat-idle_seats pair_room.players

-- An invitation to a room that is not there.
abbrev astray : HallRequest
astray = hall_request bob_session HallMsgType.join_team 7

hall_needs_session_example :
    (e : Entity) × (get_entity 20 lobby.cache ≡ some e) × (e.session_id ≡ bob_session)
unfolding hall_logic dispatch check_session_valid lookup text_eq join_team find_entity_room
hall_needs_session_example = hall_needs_session 20 astray lobby (λ h. cc h)

abbrev to_taken_seat : HallRequest
to_taken_seat = hall_request bob_session HallMsgType.join_team 500123

-- Bob, who is in the room, accepts an invitation to a third seat of it.
abbrev to_third_seat : HallRequest
to_third_seat = record to_taken_seat {
  invite_info = record to_taken_seat.invite_info { team_id = 2 };
}

join_team_again_example :
    (w' : World) × (room' : RoomInfo) × (join_team 20 to_third_seat pair ≡ some w')
    × (find_entity_room 500123 w'.cache ≡ some room')
    × (count_role 2 room'.players ≡ 2)
    × (room'.free_person_count ≡ 3)
unfolding get_entity find_entity_room lookup
join_team_again_example =
    join_team_again 20 to_third_seat pair (entity 20 bob_session bob_inside) pair_room refl refl
      refl

abbrev started : World
started = or_same (game_start 10 pair) pair

game_start-OthersWait_example :
    (started.cache ≡ pair.cache)
    × (((OthersWait 1 pair.cache pair_room.players)
          × (started.sent
              ≡ deliveries pair.listeners (start_packet pair_room.players) (10 ∷ 20 ∷ [])))
        ⊎ ((¬ OthersWait 1 pair.cache pair_room.players)
            × (started.sent ≡ deliveries pair.listeners (start_packet []) (10 ∷ 20 ∷ []))))
unfolding game_start all_player_waite get_entity find_entity_room lookup
game_start-OthersWait_example =
    game_start-OthersWait 10 pair started (entity 10 ann_session ann) pair_room refl refl refl

-- The first id that comes up, 555555, is in use.
abbrev taken_id : World
taken_id = record (world_of ((555555, small_room) ∷ []) []) {
  rand_of = λ n. if ltb n 6 then 4 else 5;
}

abbrev drawn_twice : World
drawn_twice = record taken_id { drawn = 12 }

genrate_only_room_id-Generated_example : Generated taken_id (0, drawn_twice)
unfolding genrate_only_room_id genrate_random_id random_pieces int2_string decimal string2_int
    skip_space signed_value digits_value check_entity_room_is_only lookup
genrate_only_room_id-Generated_example = genrate_only_room_id-Generated 3 taken_id refl

send_all-sent_example :
    (send_all (20 ∷ 30 ∷ 10 ∷ []) (hall_packet empty_hall_return) lobby).sent
    ≡ (20, hall_packet empty_hall_return) ∷ (10, hall_packet empty_hall_return) ∷ []
unfolding lookup
send_all-sent_example = send_all-sent (20 ∷ 30 ∷ 10 ∷ []) (hall_packet empty_hall_return) lobby
