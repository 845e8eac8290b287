-- ===== src/Tests/Worker.antt =====
-- The theorems on the worker and on the dispatch of the messages, for a site of two clients.
use jira_game.Base.{
  Option, Text, [], ap, arith, codes, drop, if◌then◌else◌, length, lookup, none, refl, some, suc,
  take, text_eq, zero, ℕ, ◌++◌, ◌<◌, ◌∷◌, ◌≡◌, ◌≤◌,
}
use jira_game.Proto.{
  CurScene, GameMainMsgType, HallMsgType, HallRequest, UnPacket, default_player, login_scene,
  no_scene, wait_room,
}
use jira_game.Cache.{get_entity}
use jira_game.Server.{accept_round, fd_setsize}
use jira_game.Hall.{dispatch}
use jira_game.Scenes.{keep_db, process_msg_logic}
use jira_game.Scenes.Access.{process_msg_logic-login}
use jira_game.Accounts.Login.Outcome.{new_session}
use jira_game.Rooms.Changes.{Rooms}
use jira_game.Rooms.WellFormed.{RoomOk}
use jira_game.Worker.{
  Received, Site, accept_site, bytes, handle, msgsize, reset, serve, worker_round,
}
use jira_game.Worker.Messages.{handle-nul}
use jira_game.Worker.Turns.{serve_enough}
use jira_game.Worker.Runs.{Runs, Runs-Ok, accepted, received, started, stepped}
use jira_game.Tests.Worlds.{ann, ann_session, bob_joins, clients, entity, lobby, world_of}
use jira_game.Tests.Sqlite.{ann_login, asked, closed, one_row}
use jira_game.Tests.Accounts.{asks, inside, logs_in}

abbrev pub copy : Text → Text → Text
copy old t = t ++ 0 ∷ drop (suc (length t)) old

take-front : (t r : Text) → take (suc (length t)) (t ++ 0 ∷ r) ≡ t ++ 0 ∷ []
take-front [] r = refl
take-front (c ∷ t) r = ap (λ s. c ∷ s) (take-front t r)

pub copies : (old t : Text) → length t < msgsize → take (suc (length t)) (copy old t) ≡ t ++ 0 ∷ []
copies old t h = take-front t (drop (suc (length t)) old)

-- A packet for the scene and with the request to the hall.
abbrev packet : CurScene → HallRequest → UnPacket
packet scene req = record {
  cur_scene = scene;
  login_request = ann_login;
  register_request = record { user_name = []; pass_word = [] };
  create_role_request = record { session_id = []; player_info = default_player };
  select_role_request = record { session_id = []; role_type = 0 };
  hall_request = req;
  game_main_request = record {
    session_id = [];
    msg_type = GameMainMsgType.keep_alive;
    player_info = default_player;
  };
  keep_alive = no_scene;
}

-- Every message is Bob's request to join Ann's room.
abbrev parse : Text → UnPacket
parse bs = packet wait_room bob_joins

abbrev pub site : Site one_row
site = record {
  server = record { world = lobby; cli_sockets = 10 ∷ 20 ∷ [] };
  db = closed;
  rev_buffers = [];
}

handle-nul_example :
    handle one_row copy parse 5 1 20 (bytes (7 ∷ 0 ∷ 8 ∷ [])) site
    ≡ handle one_row copy parse 5 1 20 (bytes (7 ∷ 0 ∷ 9 ∷ [])) site
handle-nul_example = handle-nul one_row copy parse 5 1 20 site (7 ∷ []) (8 ∷ []) (9 ∷ []) refl

-- Bob's socket is closed in the second turn.
abbrev got : ℕ → Option Received
got zero = none
got (suc n) = some reset

serve_enough_example :
    serve one_row copy parse 5 7 0 got site ≡ serve one_row copy parse 5 2 0 got site
serve_enough_example = serve_enough one_row copy parse 5 7 2 0 got site (omega arith) (omega arith)

abbrev or_site : Option (Site one_row) → Site one_row
or_site none = site
or_site (some st) = st

-- A server on which nobody has made a room, after a client is accepted and a round has closed it.
abbrev empty_site : Site one_row
empty_site = record {
  server = record { world = world_of [] clients; cli_sockets = [] };
  db = closed;
  rev_buffers = [];
}

abbrev with_client : Site one_row
with_client = or_site (accept_site one_row copy parse 30 empty_site)

abbrev hung_up : ℕ → Option Received
hung_up n = some (bytes [])

abbrev without_client : Site one_row
without_client = or_site (worker_round one_row copy parse 5 hung_up with_client)

accepts : accept_site one_row copy parse 30 empty_site ≡ some with_client
unfolding accept_site accept_round
accepts = refl

hangs_up : worker_round one_row copy parse 5 hung_up with_client ≡ some without_client
unfolding accept_site accept_round worker_round serve handle
hangs_up = refl

runs : Runs one_row copy parse without_client
runs =
    stepped (stepped (started empty_site refl refl) (accepted 30 accepts))
      (received 5 hung_up hangs_up)

Runs-Ok_example :
    Rooms RoomOk without_client.server.world
    × (length without_client.server.cli_sockets ≤ fd_setsize)
Runs-Ok_example = Runs-Ok one_row copy parse without_client runs

process_msg_logic-login_example :
    process_msg_logic one_row 5 wait_room 10 (packet wait_room bob_joins) inside.0 inside.1 ≡ (
      if text_eq (new_session ann_login lobby) (codes "bob_2")
      then keep_db one_row inside.1 (dispatch HallMsgType.join_room 10 bob_joins inside.0)
      else some inside)
unfolding get_entity lookup process_msg_logic
process_msg_logic-login_example =
    process_msg_logic-login one_row 5 10 (packet login_scene bob_joins) (packet wait_room bob_joins)
      lobby inside.0 (some 0) closed asked inside.1 (entity 10 ann_session ann) refl asks logs_in
