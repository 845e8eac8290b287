-- ===== src/Server.antt =====
-- DNW_Server/Server/Server/Server.cpp: the acceptance of a client, lines 186 to 223, and the closing of
-- a socket. The sockets that are stored are the first `g_iTotalConn` entries of `g_CliSocketArr`.
pub mod Sockets
use jira_game.Base.{
  List, Option, [], false, if◌then◌else◌, length, ltb, none, some, ℕ, ◌++◌, ◌==◌, ◌∷◌,
}
use jira_game.World.{World, on_cache}
use jira_game.Cache.{Entity, get_entity, modify_entity, new_entity, set_entity}
use jira_game.JiraEvent.{add_listenner}
use jira_game.Hall.Seats.{set}
use jira_game.KeepAlive.{stop_timer_mutex}

-- `setIsBroken(false); m_HasThread = false; StopTimerMutex();`
unfoldable pub restart_entity : Entity → Entity
unfolding stop_timer_mutex
restart_entity e = stop_timer_mutex (record e { is_broken = false; has_thread = false })

-- A new entity and its observer, or, where the socket has an entity already, its restart.
unfoldable pub accept_client : ℕ → World → World
unfolding restart_entity
accept_client socket w = elim (get_entity socket w.cache) [
  | none ↦ add_listenner socket socket (on_cache (set_entity socket (new_entity socket)) w)
  | some e ↦ on_cache (modify_entity socket restart_entity) w
]

-- `FD_SETSIZE`
abbrev pub fd_setsize : ℕ
fd_setsize = 64

-- `INVALID_SOCKET`
abbrev pub invalid_socket : ℕ
invalid_socket = 4294967295

pub record Server : Type 0 where
  pub world : World
  pub cli_sockets : List ℕ

-- One round of the loop, for what `accept` returned; `none` is a write past the array.
unfoldable pub accept_round : ℕ → Server → Option Server
unfolding accept_client
accept_round socket sv =
    let w = accept_client socket sv.world in
    if socket == invalid_socket
    then some (record sv { world = w })
    else if ltb (length sv.cli_sockets) fd_setsize
    then some (record { world = w; cli_sockets = sv.cli_sockets ++ socket ∷ [] })
    else none

-- The last stored socket, and the array without it.
abbrev pub last_socket : ℕ → List ℕ → ℕ
last_socket d [] = d
last_socket d (k ∷ ks) = last_socket k ks

abbrev pub without_last : List ℕ → List ℕ
without_last [] = []
without_last (k ∷ []) = []
without_last (k ∷ l ∷ ks) = k ∷ without_last (l ∷ ks)

-- `g_CliSocketArr[i] = g_CliSocketArr[--g_iTotalConn]`
unfoldable pub drop_socket : ℕ → List ℕ → List ℕ
drop_socket i ks = without_last (set ks i (last_socket 0 ks))

-- The closing of the i-th socket (lines 83 to 106). The broadcast sends nothing, and the entity, the
-- observer and the timer of the client stay.
unfoldable pub close_socket : ℕ → Server → Server
unfolding drop_socket
close_socket i sv = record sv { cli_sockets = drop_socket i sv.cli_sockets }
