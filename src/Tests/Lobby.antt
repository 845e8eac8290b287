-- ===== src/Tests/Lobby.antt =====
-- Steps of the lobby: Bob joins Ann's room, and a timer takes him out of it.
use jira_game.Base.{
  Dict, [], arith, lookup, none, refl, some, some_inj, subst, text_eq, true, ◌∷◌, ℕ, ◌≡◌, ◌⊎◌, ◌≢◌,
}
use jira_game.Proto.{GameMainMsgType, GameMainRequest, default_player, rt_join_room, wait_room}
use jira_game.World.{World}
use jira_game.Hall.Leave.{depart, depart_room}
use jira_game.Hall.Join.{find_role}
use jira_game.KeepAlive.{miss_few, timer_func, timer_of, timer_round}
use jira_game.Rooms.WellFormed.{RoomOk}
use jira_game.Rooms.Balance.{IsBalanced, IsRegular}
use jira_game.Rooms.Lobby.Departure.{Inside}
use jira_game.Rooms.Lobby.Timers.{timer_round-Departs}
use jira_game.Cache.{
  Entity, check_entity_room_is_only, check_session_valid, find_entity_room, get_entity,
}
use jira_game.Hall.{hall_logic}
use jira_game.Hall.Create.{create_room, found_room}
use jira_game.Hall.RoomId.{genrate_only_room_id}
use jira_game.MainScene.{dispatch, main_logic}
use jira_game.MainScene.GameOver.{game_over, reset_members}
use jira_game.Server.{accept_client}
use jira_game.Utl.{
  decimal, digits_value, genrate_random_id, int2_string, random_pieces, signed_value, skip_space,
  string2_int,
}
use jira_game.Rooms.Events.{no_rooms}
use jira_game.Rooms.Lobby.Play.{
  Follows, Played, Played-Follows, begun, game_message, hall_message, has_asked, new_client,
  went_on,
}
use jira_game.Rooms.Lobby.{Departs, LobbyStep, lobby as lobby_of, places}
use jira_game.Rooms.Changes.{Rooms}
use jira_game.Rooms.Lobby.Steps.{FewMembers}
use jira_game.Rooms.Lobby.Refinement.{hall_logic-LobbyStep}
use jira_game.Tests.Worlds.{
  ann, ann_session, game_request, bob, bob_inside, bob_joins, bob_session, clients, entity, lobby,
  or_same, pair, pair_room, small_room,
}
use jira_game.Tests.Rooms.{
  ann_creates, ann_creates_runs, bob_joins-IsRegular, bob_joins_runs, created, entrance, joined,
  lobby-IsBalanced, lobby-RoomOk, one_room,
}

lobby-FewMembers : Rooms FewMembers lobby
lobby-FewMembers = one_room FewMembers 500123 small_room clients (omega arith)

hall_logic-LobbyStep_example : LobbyStep 2 (lobby_of lobby) (lobby_of joined)
unfolding get_entity lookup
hall_logic-LobbyStep_example =
    hall_logic-LobbyStep 20 bob_joins lobby joined (entity 20 bob_session bob) refl lobby-RoomOk
      lobby-IsBalanced lobby-FewMembers bob_joins-IsRegular bob_joins_runs

-- Bob sits with Ann in the room, and five of his heartbeats are missing.
abbrev bob_silent : Entity
bob_silent = record (entity 20 bob_session bob_inside) {
  has_thread = true;
  timer = some 2;
  delta_time = 1;
  send_msg_count = 5;
}

abbrev waiting_pair : World
waiting_pair = record pair {
  cache = record {
    rooms = (500123, pair_room) ∷ [];
    entities = (10, entity 10 ann_session ann) ∷ (20, bob_silent) ∷ [];
  };
  heap = (2, record { client_socket = 20; cur_scene = wait_room }) ∷ [];
  pre_time = some 1000;
}

abbrev after_timer : World
after_timer = or_same (timer_round 20 1002 1002 waiting_pair) waiting_pair

waiting_pair-runs : timer_round 20 1002 1002 waiting_pair ≡ some after_timer
unfolding timer_round timer_func timer_of miss_few depart depart_room get_entity find_entity_room
    lookup
waiting_pair-runs = refl

abbrev people : Dict Entity
people = (10, entity 10 ann_session ann) ∷ (20, bob_silent) ∷ []

pair_room-RoomOk : Rooms RoomOk waiting_pair
pair_room-RoomOk =
    one_room RoomOk 500123 pair_room people
      (record { named = refl; six = refl; seats = (refl, (refl, tt)) })

pair_room-IsBalanced : Rooms IsBalanced waiting_pair
unfolding find_role
pair_room-IsBalanced =
    one_room IsBalanced 500123 pair_room people
      (record { total = refl; roles = (refl, (refl, tt)) })

pair_room-FewMembers : Rooms FewMembers waiting_pair
pair_room-FewMembers = one_room FewMembers 500123 pair_room people (omega arith)

bob_silent-Inside : Inside bob_silent waiting_pair
unfolding find_role find_entity_room lookup
bob_silent-Inside room found =
    let here : some pair_room ≡ some room = found in
    subst (λ r. find_role 2 r.players ≢ none) (some_inj here) (λ e. absurd (cc e))

timer_round-Departs_example : Departs 2 (lobby_of waiting_pair) (lobby_of after_timer)
unfolding get_entity lookup
timer_round-Departs_example =
    timer_round-Departs 20 1002 1002 2 wait_room bob_silent waiting_pair after_timer refl refl refl
      pair_room-RoomOk pair_room-IsBalanced pair_room-FewMembers bob_silent-Inside waiting_pair-runs

-- Ann opens a room, ends its game, and a new client comes.
abbrev ann_ends : GameMainRequest
ann_ends = game_request ann_session GameMainMsgType.game_over default_player

abbrev ended : World
ended = or_same (main_logic 10 ann_ends created) created

ann_ends_runs : main_logic 10 ann_ends created ≡ some ended
unfolding main_logic dispatch game_over reset_members check_session_valid lookup text_eq hall_logic
    create_room found_room genrate_only_room_id genrate_random_id random_pieces int2_string decimal
    string2_int skip_space signed_value digits_value check_entity_room_is_only get_entity
    find_entity_room jira_game.Hall.dispatch jira_game.JiraEvent.send_msg
    jira_game.Cache.set_role_info jira_game.Base.modify jira_game.Cache.create_room
    jira_game.Base.insert
ann_ends_runs = refl

abbrev creator : Entity
creator =
    entity 10 ann_session
      (record bob { is_room_ctl = true; room_id = 555555; room_state = rt_join_room })

creator_lem : get_entity 10 created.cache ≡ some creator
unfolding check_session_valid lookup text_eq hall_logic create_room found_room genrate_only_room_id
    genrate_random_id random_pieces int2_string decimal string2_int skip_space signed_value
    digits_value check_entity_room_is_only get_entity find_entity_room jira_game.Hall.dispatch
    jira_game.JiraEvent.send_msg jira_game.Cache.set_role_info jira_game.Base.modify
    jira_game.Cache.create_room jira_game.Base.insert
creator_lem = refl

ann_creates-IsRegular : IsRegular 10 ann_creates entrance
unfolding find_entity_room lookup
ann_creates-IsRegular = record {
  member = λ e room he hr. absurd (cc hr);
  newcomer = λ e room he hr m. absurd (cc hr);
}

abbrev evening : Played entrance (accept_client 30 ended)
unfolding get_entity lookup
evening =
    went_on
      (went_on
        (went_on begun (
          hall_message 10 ann_creates (entity 10 ann_session bob) refl
            (no_rooms FewMembers entrance refl) ann_creates-IsRegular ann_creates_runs))
        (game_message 10 ann_ends creator creator_lem ann_ends_runs))
      (new_client 30 ended)

Played-Follows_example :
    Follows evening
    × ((id role : ℕ)
        → (places role (lobby_of (accept_client 30 ended) id) ≡ 0)
          ⊎ (has_asked role evening ≡ true))
Played-Follows_example = Played-Follows entrance (accept_client 30 ended) evening refl
