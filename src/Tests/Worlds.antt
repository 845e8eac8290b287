-- ===== src/Tests/Worlds.antt =====
-- A lobby of two clients, in which the first has made a room, and requests to it.
use jira_game.Base.{List, Option, Text, [], codes, false, none, some, true, ℕ, ◌∷◌}
use jira_game.Proto.{
  GameMainMsgType, GameMainRequest, HallMsgType, HallRequest, PlayerInfo, RoomInfo, default_player,
  team_a,
}
use jira_game.Cache.{Entity}
use jira_game.World.{World}

abbrev pub entity : ℕ → Text → PlayerInfo → Entity
entity socket session info = record {
  session_id = session;
  sock_client = socket;
  thread_power = false;
  has_thread = false;
  delta_time = 0;
  timer = none;
  send_msg_count = 0;
  is_broken = false;
  role_info = info;
}

abbrev pub player : ℕ → ℕ → PlayerInfo
player socket role = record default_player { socket = socket; role_id = role }

-- Role 1 on socket 10, the controller of room 500123.
abbrev pub ann : PlayerInfo
ann = record (player 10 1) { is_room_ctl = true; room_id = 500123 }

-- Role 2 on socket 20, in no room.
abbrev pub bob : PlayerInfo
bob = player 20 2

abbrev pub ann_session : Text
ann_session = codes "ann_1"

abbrev pub bob_session : Text
bob_session = codes "bob_2"

abbrev pub small_room : RoomInfo
small_room = record {
  room_id = 500123;
  room_name = codes "r";
  person_count = 6;
  free_person_count = 5;
  players = ann ∷ [];
}

abbrev pub world_of : List (ℕ × RoomInfo) → List (ℕ × Entity) → World
world_of rooms entities = record {
  cache = record { rooms = rooms; entities = entities };
  listeners = (10, some 10) ∷ (20, some 20) ∷ [];
  keep_alive_info_map = [];
  heap = [];
  next_address = 1;
  pre_time = none;
  rand_of = λ n. 4;
  drawn = 0;
  stack = 100;
  sent = [];
}

abbrev pub clients : List (ℕ × Entity)
clients = (10, entity 10 ann_session ann) ∷ (20, entity 20 bob_session bob) ∷ []

abbrev pub lobby : World
lobby = world_of ((500123, small_room) ∷ []) clients

-- The same with both clients in the room.
abbrev pub bob_inside : PlayerInfo
bob_inside = record bob { room_id = 500123; team_id = 1; game_waite = true }

abbrev pub pair_room : RoomInfo
pair_room = record small_room { free_person_count = 4; players = ann ∷ bob_inside ∷ [] }

abbrev pub pair : World
pair =
    world_of ((500123, pair_room) ∷ [])
      ((10, entity 10 ann_session ann) ∷ (20, entity 20 bob_session bob_inside) ∷ [])

abbrev pub hall_request : Text → HallMsgType → ℕ → HallRequest
hall_request session kind id = record {
  session_id = session;
  msg_type = kind;
  room_name = codes "new";
  user_id = 0;
  invite_info = record {
    room_id = id;
    req_user_id = 0;
    req_user_name = [];
    rev_user_id = 0;
    team = team_a;
    team_id = 0;
  };
}

abbrev pub bob_joins : HallRequest
bob_joins = hall_request bob_session HallMsgType.join_room 500123

abbrev pub game_request : Text → GameMainMsgType → PlayerInfo → GameMainRequest
game_request session kind info = record {
  session_id = session;
  msg_type = kind;
  player_info = info;
}

-- What a call leads to, or the world before it where it does not return.
abbrev pub or_same : Option World → World → World
or_same none w = w
or_same (some v) w = v
