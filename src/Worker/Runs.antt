-- ===== src/Worker/Runs.antt =====
-- The runs of the server: rounds of the worker, of the main thread and of the clients' timers, in any
-- order, each as a whole.
use jira_game.Base.{
  After, After->>=, After-some, Option, Text, [], arith, length, some, subst, ℕ, ◌≡◌, ◌≤◌,
}
use jira_game.Proto.{UnPacket}
use jira_game.KeepAlive.{timer_round}
use jira_game.Server.{Server, accept_client, accept_round, fd_setsize}
use jira_game.Server.Sockets.{accept_round-length}
use jira_game.Rooms.Changes.{Rooms}
use jira_game.Rooms.WellFormed.{RoomOk}
use jira_game.Rooms.Events.{Step-RoomOk, new_client, no_rooms, timer}
use jira_game.Db.Library.{Sqlite}
use jira_game.Db.Calls.{step}
use jira_game.Scenes.Events.{process_msg_logic-Step}
use jira_game.Worker.{Received, Site, accept_site, timer_site, worker_round}
use jira_game.Worker.Turns.{Ok, worker_round-Ok}

module _ (L : Sqlite) (strcpy_s : Text → Text → Text) (parse : Text → UnPacket) where
  pub data SiteStep : Site L → Site L → Type 0 where
    received :
        (fuel : ℕ) (got : ℕ → Option Received) {st st' : Site L}
        → worker_round L strcpy_s parse fuel got st ≡ some st'
        → SiteStep st st'
    accepted :
        (socket : ℕ) {st st' : Site L}
        → accept_site L strcpy_s parse socket st ≡ some st'
        → SiteStep st st'
    timed :
        (socket now later : ℕ) {st st' : Site L}
        → timer_site L strcpy_s parse socket now later st ≡ some st'
        → SiteStep st st'

  -- From a server without rooms and without sockets, whatever its entities and its database.
  pub data Runs : Site L → Type 0 where
    started :
        (st : Site L) → st.server.world.cache.rooms ≡ [] → st.server.cli_sockets ≡ [] → Runs st
    stepped : {st st' : Site L} → Runs st → SiteStep st st' → Runs st'

accept_round-world :
    (s : ℕ) (sv sv' : Server) → accept_round s sv ≡ some sv' → accept_client s sv.world ≡ sv'.world
unfolding accept_round
accept_round-world s sv sv' h = ground (arith, h)

module _ (L : Sqlite) (strcpy_s : Text → Text → Text) (parse : Text → UnPacket) where
  abbrev SiteOk : Site L → Type 0
  SiteOk = Ok (Rooms RoomOk) fd_setsize

  accept_site-Ok :
      (socket : ℕ) (st : Site L) → SiteOk st → After SiteOk (accept_site L strcpy_s parse socket st)
  unfolding accept_site
  accept_site-Ok socket st h = After->>= SiteOk (accept_round socket st.server) _ (λ sv e. (
    subst (Rooms RoomOk) (accept_round-world socket st.server sv e)
        (Step-RoomOk (new_client socket st.server.world) h.0),
    (accept_round-length socket st.server sv h.1 e).0,
  ))

  timer_site-Ok :
      (socket now later : ℕ) (st : Site L)
      → SiteOk st
      → After SiteOk (timer_site L strcpy_s parse socket now later st)
  unfolding timer_site
  timer_site-Ok socket now later st h =
      After->>= SiteOk (timer_round socket now later st.server.world) _
        (λ w e. (Step-RoomOk (timer socket now later e) h.0, h.1))

  SiteStep-Ok : {st st' : Site L} → SiteStep L strcpy_s parse st st' → SiteOk st → SiteOk st'
  SiteStep-Ok (received fuel got e) h =
      After-some SiteOk _
        (worker_round-Ok L strcpy_s parse (Rooms RoomOk)
          (λ fuel scene socket p w d r run ok.
            Step-RoomOk (process_msg_logic-Step L fuel scene socket p w d r run) ok)
          fd_setsize fuel got _ h)
        e
  SiteStep-Ok (accepted socket e) h = After-some SiteOk _ (accept_site-Ok socket _ h) e
  SiteStep-Ok (timed socket now later e) h =
      After-some SiteOk _ (timer_site-Ok socket now later _ h) e

  -- Whatever the clients send and whatever sqlite and the parser answer: in every state that rounds of
  -- the worker, of the main thread and of the timers lead to from a server without rooms and sockets,
  -- every room is stored under its own id, is made for six and has no two members on one seat, and at
  -- most 64 sockets are stored.
  pub Runs-Ok :
      (st : Site L)
      → Runs L strcpy_s parse st
      → Rooms RoomOk st.server.world × (length st.server.cli_sockets ≤ fd_setsize)
  Runs-Ok st (started _ empty nobody) =
      (no_rooms RoomOk st.server.world empty, rw nobody (omega arith))
  Runs-Ok st (stepped run step) = SiteStep-Ok step (Runs-Ok _ run)
