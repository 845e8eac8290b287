-- ===== src/KeepAlive.antt =====
-- The heartbeat: DNW_Server/Server/GameLogic/SceneChain/KeepAlive.cpp, and the timer of
-- DNW_Server/Server/ClientEntity/ClientEntity.cpp. Of the message that a `CKeepAliveInfo` keeps only
-- the scene is read. A timer's thread is a sequence of rounds of its loop, `timer_round`; a round
-- runs as a whole between two messages, while the server has not been told to exit.
pub mod Silence
pub mod Removal
pub mod Clock
use jira_game.Base.{
  Bool, Option, [], contains, erase, false, if◌then◌else◌, insert, keep, lookup, ltb, modify, none,
  not, some, true, ℕ, ◌%◌, ◌&&◌, ◌+◌, ◌==◌, ◌>>=◌, ◌||◌, ◌∷◌,
}
use jira_game.World.{World, on_cache}
use jira_game.Cache.{Cache, Entity, erase_entity, find_entity_room, get_entity, modify_entity}
use jira_game.Proto.{
  CurScene, GameMainMsgType, GameMainReturn, HallMsgType, PlayerInfo, default_player,
  empty_hall_return, main_scene, wait_room,
}
use jira_game.JiraEvent.{remover_listenner, send_all, send_msg}
use jira_game.Hall.Replies.{hall_packet, sockets}
use jira_game.Hall.Leave.{depart}
use jira_game.MainScene.Rsync.{main_packet}

-- `CClientEntity::StopTimerMutex`
unfoldable pub stop_timer_mutex : Entity → Entity
stop_timer_mutex e = record e { thread_power = true; send_msg_count = 0 }

-- `CClientEntity::SetTimerMutex`; the thread that it starts runs `timer_round`.
unfoldable pub set_timer_mutex : ℕ → ℕ → Entity → Entity
set_timer_mutex delta address e = record e {
  timer = some address;
  delta_time = delta;
  has_thread = true;
  thread_power = false;
}

-- `m_iSendMsgCount = 0; setIsBroken(false);`
abbrev pub set_alive : Entity → Entity
set_alive e = record e { send_msg_count = 0; is_broken = false }

abbrev pub set_broken : Bool → Entity → Entity
set_broken b e = record e { is_broken = b }

abbrev pub is_wait_room : CurScene → Bool
is_wait_room wait_room = true
is_wait_room _ = false

abbrev pub is_main_scene : CurScene → Bool
is_main_scene main_scene = true
is_main_scene _ = false

-- `keepAliveInfoMap[clientSocket]->RecMessage = RecMessage`, where the map has the socket. The write
-- goes to the heap through the pointer; `none` where that memory has been freed.
unfoldable pub update_info : ℕ → CurScene → World → Option World
update_info socket scene w = elim (lookup socket w.keep_alive_info_map) [
  | none ↦ some w
  | some address ↦
      if contains address w.heap
      then some (record w { heap = modify address (λ i. record i { cur_scene = scene }) w.heap })
      else none
]

-- `new CKeepAliveInfo()`, its entry in the map, and the timer.
unfoldable pub start_timer : ℕ → CurScene → World → World
unfolding set_timer_mutex
start_timer socket scene w = record w {
  heap = insert w.next_address (record { client_socket = socket; cur_scene = scene }) w.heap;
  next_address = w.next_address + 1;
  keep_alive_info_map = insert socket w.next_address w.keep_alive_info_map;
  cache = modify_entity socket (set_timer_mutex 1 w.next_address) w.cache;
}

-- `CKeepAlive::Start`
unfoldable pub start : ℕ → CurScene → World → Option World
unfolding update_info start_timer
start socket scene w = elim (get_entity socket w.cache) [
  | none ↦ some w
  | some e ↦
      ((if is_wait_room scene || is_main_scene scene then update_info socket scene w else some w)
        >>= λ w'.
            let w'' = on_cache (modify_entity socket set_alive) w' in
            some (if e.has_thread then w'' else start_timer socket scene w''))
]

-- The other members of the player's room are told that the player's line is broken.
unfoldable pub notify_break_line : ℕ → PlayerInfo → World → World
notify_break_line socket me w = elim (find_entity_room me.room_id w.cache) [
  | none ↦ w
  | some room ↦
      let reply : GameMainReturn = record {
        msg_type = GameMainMsgType.break_line;
        friend_list = record default_player { name = me.name } ∷ [];
      } in
      send_all (keep (λ s. not (s == socket)) (sockets room.players)) (main_packet reply) w
]

-- Three to nine heartbeats are missing: the player leaves the room, once.
unfoldable pub miss_few : ℕ → CurScene → Entity → World → Option World
miss_few socket scene e w =
    (if not e.is_broken && is_wait_room scene then depart socket w else some w) >>= λ w'.
    some (on_cache (modify_entity socket (set_broken true)) w')

-- Ten to twenty-nine: the others are told, once.
unfoldable pub miss_many : ℕ → CurScene → Entity → World → World
unfolding notify_break_line
miss_many socket scene e w =
    on_cache (modify_entity socket (set_broken false))
      (if e.is_broken && is_main_scene scene then notify_break_line socket e.role_info w else w)

-- Thirty: the entity, its observer and the info are removed. `StopTimerMutex` then ends the thread
-- of the entity, which is in no map any more.
unfoldable pub remove_client : ℕ → ℕ → World → World
remove_client socket address w =
    record (remover_listenner socket (on_cache (erase_entity socket) w)) {
      heap = erase address w.heap;
    }

-- The answer to the client, and the count of the missing heartbeats.
unfoldable pub answer : ℕ → CurScene → World → World
answer socket scene w =
    let hall = hall_packet (record empty_hall_return { msg_type = some HallMsgType.keep_alive }) in
    let game = main_packet (record { msg_type = GameMainMsgType.keep_alive; friend_list = [] }) in
    on_cache (modify_entity socket (λ e. record e { send_msg_count = e.send_msg_count + 1 })) (
      if is_wait_room scene
      then send_msg socket hall w
      else if is_main_scene scene
      then send_msg socket game w
      else w)

-- `CKeepAlive::TimerFunc` on the info at an address; `none` where that memory has been freed.
unfoldable pub timer_func : ℕ → World → Option World
unfolding miss_few miss_many remove_client answer
timer_func address w = lookup address w.heap >>= λ info.
    elim (get_entity info.client_socket w.cache) [
      | none ↦ some w
      | some e ↦
          let socket = info.client_socket in
          let scene = info.cur_scene in
          if ltb e.send_msg_count 3
          then some (answer socket scene w)
          else if ltb e.send_msg_count 10
          then (miss_few socket scene e w >>= λ w'. some (answer socket scene w'))
          else if ltb e.send_msg_count 30
          then some (answer socket scene (miss_many socket scene e w))
          else some (remove_client socket address w)
    ]

abbrev pub or_else : Option ℕ → ℕ → ℕ
or_else none d = d
or_else (some a) d = a

-- The entity of a socket, and the info that its timer was set with.
unfoldable pub timer_of : ℕ → Cache → Option (Entity × ℕ)
timer_of socket c = get_entity socket c >>= λ e. (e.timer >>= λ address. some (e, address))

-- One round of the loop of `CClientEntity::SetTimerMutexThread` for the entity of a socket, which
-- reads the clock as `now`, and as `later` when the timer's function has returned. `preTime` is one
-- variable for the threads of all entities. An entity that is gone has no thread any more, and one
-- whose timer was never set has none yet.
unfoldable pub timer_round : ℕ → ℕ → ℕ → World → Option World
unfolding timer_func timer_of
timer_round socket now later w = elim (timer_of socket w.cache) [
  | none ↦ some w
  | some (e, address) ↦
      let pre = or_else w.pre_time (now % 4294967296) in
      let w' = record w { pre_time = some pre } in
      let fired =
        (timer_func address w' >>= λ w''.
        some (record w'' { pre_time = some (later % 4294967296) })) in
      if e.thread_power
      then some w
      else if ltb ((pre + e.delta_time) % 4294967296) now
      then fired
      else some w'
]
