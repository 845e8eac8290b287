-- ===== src/Rooms/Events.antt =====
-- Rooms under everything that happens to the server: messages of the hall and of a game, heartbeats,
-- timers, new clients, and whatever leaves the rooms alone.
use jira_game.Base.{
  After-some, Bool, Option-cases, [], ap, inl, inr, lookup, none, some, sym, ℕ, ◌∙◌, ◌≡◌,
}
use jira_game.Proto.{CurScene, GameMainRequest, HallRequest, RoomInfo}
use jira_game.World.{World}
use jira_game.Cache.{find_entity_room, get_entity}
use jira_game.Hall.{hall_logic}
use jira_game.MainScene.{main_logic}
use jira_game.Rooms.Thins.{stayers-Thins}
use jira_game.Hall.Leave.{room_after, stayers}
use jira_game.Cache.Laws.{find_entity_room-set_entity}
use jira_game.KeepAlive.{start, timer_round}
use jira_game.Server.{accept_client}
use jira_game.Rooms.Changes.{Rooms}
use jira_game.JiraEvent.{add_listenner}
use jira_game.Rooms.WellFormed.{RoomOk, hall_logic-RoomOk, room_after-RoomOk}
use jira_game.Rooms.Game.{main_logic-Rooms}
use jira_game.Rooms.Heartbeat.{modified, start-Rooms, timer_round-Rooms}

abbrev pub SameRooms : World → World → Type 0
SameRooms w w' = (j : ℕ) → find_entity_room j w'.cache ≡ find_entity_room j w.cache

-- One event; `other_event` is any that leaves the rooms as they are.
pub data Step : World → World → Type 0 where
  hall_message :
      (s : ℕ) (req : HallRequest) {w w' : World} → hall_logic s req w ≡ some w' → Step w w'
  game_message :
      (s : ℕ) (req : GameMainRequest) {w w' : World} → main_logic s req w ≡ some w' → Step w w'
  heartbeat : (s : ℕ) (scene : CurScene) {w w' : World} → start s scene w ≡ some w' → Step w w'
  timer : (s now later : ℕ) {w w' : World} → timer_round s now later w ≡ some w' → Step w w'
  new_client : (s : ℕ) (w : World) → Step w (accept_client s w)
  other_event : {w w' : World} → SameRooms w w' → Step w w'

-- What a sequence of events leads to, from a server without rooms.
pub data Reachable : World → Type 0 where
  at_start : (w : World) → w.cache.rooms ≡ [] → Reachable w
  after : {w w' : World} → Reachable w → Step w w' → Reachable w'

module _ (P : ℕ → RoomInfo → Type 0) where
  accept_client-Rooms : (s : ℕ) (w : World) → Rooms P w → Rooms P (accept_client s w)
  unfolding accept_client add_listenner
  accept_client-Rooms s w h = elim (Option-cases (get_entity s w.cache)) [
    | inl new ↦
        rw (new, accept_client)
          (λ j room found. h j room (sym (find_entity_room-set_entity j s _ w.cache) ∙ found))
    | inr (e, known) ↦ rw (known, accept_client) (modified P s _ w h)
  ]

left-RoomOk :
    (id : ℕ) (room : RoomInfo) (role : ℕ) (control : Bool)
    → RoomOk id room
    → RoomOk id (room_after room (stayers role control room.players).0)
left-RoomOk id room role control ok =
    room_after-RoomOk id id room _ ok ok.named (stayers-Thins role control room.players)

pub Step-RoomOk : {w w' : World} → Step w w' → Rooms RoomOk w → Rooms RoomOk w'
Step-RoomOk (hall_message s req e) h = hall_logic-RoomOk s req _ _ h e
Step-RoomOk (game_message s req e) h =
    After-some (Rooms RoomOk) _ (main_logic-Rooms RoomOk s req _ h) e
Step-RoomOk (heartbeat s scene e) h = After-some (Rooms RoomOk) _ (start-Rooms RoomOk s scene _ h) e
Step-RoomOk (timer s now later e) h =
    After-some (Rooms RoomOk) _
      (timer_round-Rooms RoomOk s now later _
        (λ _ _ info _ _ e room he found. left-RoomOk _ room _ _ (h _ room found)) h)
      e
Step-RoomOk (new_client s w) h = accept_client-Rooms RoomOk s w h
Step-RoomOk (other_event same) h = λ j room found. h j room (sym (same j) ∙ found)

pub no_rooms : (P : ℕ → RoomInfo → Type 0) (w : World) → w.cache.rooms ≡ [] → Rooms P w
unfolding find_entity_room lookup
no_rooms P w empty id room found =
    let no : none ≡ some room = rw (ap (lookup id) empty) at found in absurd (cc no)

-- In every world that events lead to from a server without rooms, every room is stored under its own
-- id, is made for six, and has no two members on one seat.
pub Reachable-RoomOk : (w : World) → Reachable w → Rooms RoomOk w
Reachable-RoomOk w (at_start _ empty) = no_rooms RoomOk w empty
Reachable-RoomOk w (after r step) = Step-RoomOk step (Reachable-RoomOk _ r)
