-- ===== src/Worker.antt =====
-- `WorkerThread` of DNW_Server/Server/Server/Server.cpp, lines 29 to 137: the loop that receives the
-- clients' messages. `strcpy_s` (the old contents of the destination, the source up to its NUL byte)
-- stands for the C library's function, and `parse` for protobuf's `ParseFromArray`.
pub mod Messages
pub mod Turns
pub mod Runs
use jira_game.Base.{
  Dict, List, Option, Text, [], c_str, count, erase, get_elem?, if◌then◌else◌, insert, length,
  lookup, ltb, none, replicate, some, suc, take, zero, ℕ, ◌++◌, ◌+◌, ◌-◌, ◌==◌, ◌>>=◌, ◌∷◌,
}
use jira_game.Proto.{UnPacket}
use jira_game.World.{World}
use jira_game.Cache.{entity_is_exist, get_entity}
use jira_game.KeepAlive.{timer_round}
use jira_game.Server.{Server, accept_round, close_socket, fd_setsize}
use jira_game.Db.Library.{Sqlite}
use jira_game.Db.Calls.{DbServer}
use jira_game.Scenes.{msg_distribute}

-- `MSGSIZE`
abbrev pub msgsize : ℕ
msgsize = 8192

-- What `recv` returns: at most `MSGSIZE` bytes, or `SOCKET_ERROR`, with `WSAECONNRESET` or another
-- error.
pub data Received : Type 0 where
  bytes : Text → Received
  reset broken : Received

-- The server, its database, and `revBuffer` of the entities, where it has been written.
pub record Site (L : Sqlite) : Type 0 where
  pub server : Server
  pub db : DbServer L
  pub rev_buffers : Dict Text

-- `Buffer` up to the NUL byte that is put behind the bytes.
abbrev pub terminated : Text → Text
terminated bs = if ltb (length bs) msgsize then bs ++ 0 ∷ [] else take (msgsize - 1) bs ++ 0 ∷ []

-- How many sockets `FD_SET` puts into an empty set: none twice.
abbrev pub fd_count : List ℕ → ℕ
fd_count [] = 0
fd_count (k ∷ ks) = if count (λ l. l == k) ks == 0 then fd_count ks + 1 else fd_count ks

module _ (L : Sqlite) (strcpy_s : Text → Text → Text) (parse : Text → UnPacket) where
  abbrev pub with_world : Server → World → Server
  with_world sv w = record sv { world = w }

  abbrev pub rev_buffer : ℕ → Site L → Text
  rev_buffer socket st = elim (lookup socket st.rev_buffers) [
    | none ↦ replicate msgsize 0
    | some t ↦ t
  ]

  -- Lines 120 to 130: `Buffer`, as a C string, goes to the `revBuffer` of the client's entity, and
  -- `size` bytes of that go to the parser.
  unfoldable pub deliver : ℕ → ℕ → ℕ → Text → Site L → Option (Site L)
  deliver fuel socket size source st = elim (get_entity socket st.server.world.cache) [
    | none ↦ some st
    | some e ↦
        let rev = strcpy_s (rev_buffer socket st) source in
        (msg_distribute L parse fuel e.sock_client (take size rev) st.server.world st.db
          >>= λ (w, d). some (record {
            server = with_world st.server w;
            db = d;
            rev_buffers = insert socket rev st.rev_buffers;
          }))
  ]

  -- Lines 109 to 130.
  unfoldable pub receive : ℕ → ℕ → Text → Site L → Option (Site L)
  receive fuel socket bs st = deliver fuel socket (length bs) (c_str (terminated bs)) st

  -- Lines 72 to 131, for the i-th socket. A `recv` that fails with another error than
  -- `WSAECONNRESET` returns -1, and `Buffer[-1]` is written.
  unfoldable pub handle : ℕ → ℕ → ℕ → Received → Site L → Option (Site L)
  handle fuel i socket (bytes []) st = some (record st { server = close_socket i st.server })
  handle fuel i socket (bytes (b ∷ bs)) st = receive fuel socket (b ∷ bs) st
  handle fuel i socket reset st = some (record st { server = close_socket i st.server })
  handle fuel i socket broken st = none

  -- Lines 64 to 133, from the i-th turn on: `got` is what `FD_ISSET` and `recv` give in each turn.
  unfoldable pub serve : ℕ → ℕ → ℕ → (ℕ → Option Received) → Site L → Option (Site L)
  serve fuel zero i got st = some st
  serve fuel (suc n) i got st = elim (get_elem? st.server.cli_sockets i) [
    | none ↦ some st
    | some socket ↦
        (elim (got i) [ none ↦ some st | some r ↦ handle fuel i socket r st ] >>= λ st'.
        serve fuel n (i + 1) got st')
  ]

  -- One round of the loop.
  unfoldable pub worker_round : ℕ → (ℕ → Option Received) → Site L → Option (Site L)
  worker_round fuel got st =
      let ks = st.server.cli_sockets in
      if ltb (fd_count ks) fd_setsize then serve fuel (length ks) 0 got st else some st

  -- One round of the main thread, lines 186 to 223: a new entity has a new `revBuffer`.
  unfoldable pub accept_site : ℕ → Site L → Option (Site L)
  accept_site socket st = accept_round socket st.server >>= λ sv. some (record {
    server = sv;
    db = st.db;
    rev_buffers =
        if entity_is_exist socket st.server.world.cache
        then st.rev_buffers
        else erase socket st.rev_buffers;
  })

  -- One round of the timer of a client.
  unfoldable pub timer_site : ℕ → ℕ → ℕ → Site L → Option (Site L)
  timer_site socket now later st = timer_round socket now later st.server.world >>= λ w.
      some (record st { server = with_world st.server w })
