-- ===== src/Tests/KeepAlive.antt =====
-- The theorems on the heartbeat, for two clients with timers.
use jira_game.Base.{[], arith, count, lookup, modify, none, refl, some, true, ℕ, ◌∷◌, ◌≡◌}
use jira_game.Proto.{main_scene, wait_room}
use jira_game.Cache.{Entity, get_entity, modify_entity, new_entity, set_entity}
use jira_game.World.{World, on_cache}
use jira_game.Tests.Worlds.{
  ann, ann_session, bob_inside, bob_session, entity, or_same, pair_room, world_of,
}
use jira_game.KeepAlive.{answer, start, timer_func, timer_of, timer_round}
use jira_game.KeepAlive.Silence.{Watched}
use jira_game.KeepAlive.Removal.{Removed, rounds, silent_client-Removed, start_after_removal}
use jira_game.KeepAlive.Clock.{timer_round_shared}
use jira_game.JiraEvent.{send_msg}

-- A client whose timer was set with the info at an address, with some heartbeats missing.
abbrev timed : Entity → ℕ → ℕ → Entity
timed e address count = record e {
  has_thread = true;
  delta_time = 1;
  timer = some address;
  send_msg_count = count;
}

-- Ann's info is at address 1 and Bob's at address 2; the last heartbeats came from a game.
abbrev playing : ℕ → World
playing count =
    record (world_of ((500123, pair_room) ∷ []) (
      (10, timed (entity 10 ann_session ann) 1 count)
      ∷ (20, timed (entity 20 bob_session bob_inside) 2 count)
      ∷ [])) {
        heap =
            (1, record { client_socket = 10; cur_scene = main_scene })
            ∷ (2, record { client_socket = 20; cur_scene = main_scene })
            ∷ [];
        next_address = 3;
        keep_alive_info_map = (10, 1) ∷ (20, 2) ∷ [];
        pre_time = some 1000;
      }

bob-Watched : (n : ℕ) → Watched 2 20 main_scene n (playing n)
unfolding lookup get_entity
bob-Watched n = record { info = refl; counted = refl }

silent_client-Removed_example :
    (v w' : World) × (rounds 20 2 (playing 10) ≡ some v)
    × Watched 2 20 main_scene 30 v
    × (rounds 21 2 (playing 10) ≡ some w')
    × Removed 2 20 v w'
silent_client-Removed_example =
    silent_client-Removed 2 20 10 20 main_scene (playing 10) (omega arith) refl (bob-Watched 10)

start_after_removal_example :
    (w' : World) × (timer_func 2 (playing 30) ≡ some w')
    × (start 20 wait_room (on_cache (set_entity 20 (new_entity 20)) w') ≡ none)
unfolding lookup
start_after_removal_example =
    start_after_removal 2 20 main_scene wait_room 30 (playing 30) (bob-Watched 30) (omega arith)
      refl refl

abbrev fired : World
fired = or_same (timer_round 10 1002 1002 (playing 0)) (playing 0)

timer_round_shared_example : timer_round 20 1003 1003 fired ≡ some fired
unfolding timer_round timer_func timer_of answer send_msg modify_entity modify get_entity lookup
timer_round_shared_example =
    timer_round_shared 10 20 1002 1002 1003 1003 (playing 0) fired
      (timed (entity 10 ann_session ann) 1 0) (timed (entity 20 bob_session bob_inside) 2 0) 1 2
      refl refl (omega arith) refl refl (omega arith) (omega arith)
