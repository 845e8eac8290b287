-- ===== src/Rooms/Lobby/Play.antt =====
-- What happens to the server while its clients are regular, event by event, as the lobby sees it.
use jira_game.Base.{
  After-some, Bool, [], ap, arith, false, inl, inr, lookup, refl, some, some_inj, subst, sym, true,
  ℕ, ◌==◌, ◌||◌, ◌∙◌, ◌≡◌, ◌≤◌, ◌⊎◌,
}
use jira_game.Proto.{CurScene, GameMainRequest, HallRequest}
use jira_game.World.{KeepAliveInfo, World}
use jira_game.Cache.{Entity, find_entity_room, get_entity}
use jira_game.Hall.{hall_logic}
use jira_game.MainScene.{main_logic}
use jira_game.KeepAlive.{start, timer_of, timer_round}
use jira_game.Server.{accept_client}
use jira_game.Rooms.Changes.{Rooms}
use jira_game.Rooms.WellFormed.{RoomOk}
use jira_game.Rooms.Balance.{IsBalanced, IsRegular, hall_logic-IsBalanced, leaves-IsBalanced}
use jira_game.Rooms.Game.{main_logic-Rooms}
use jira_game.Rooms.Heartbeat.{LeavesOk, start-Rooms, timer_round-Rooms}
use jira_game.Rooms.Events.{SameRooms, Step, Step-RoomOk, no_rooms}
use jira_game.Rooms.Lobby.{Departs, Ends, Lobby, LobbyStep, lobby, places, roll}
use jira_game.Rooms.Lobby.Growth.{Departs-places, Ends-places, LobbyStep-places}
use jira_game.Rooms.Lobby.Steps.{FewMembers}
use jira_game.Rooms.Lobby.Departure.{Inside}
use jira_game.Rooms.Lobby.Refinement.{hall_logic-LobbyStep}
use jira_game.Rooms.Lobby.Timers.{timer_round-Departs, timer_set}
use jira_game.Rooms.Lobby.Game.{accept_client-SameRooms, main_logic-Ends, start-SameRooms}

-- One event at a server whose clients are regular: before a message of the hall or the run of a timer,
-- no room has 2 ^ 32 members, and the client's player is where its `PlayerInfo` says.
pub data RegularStep : World → World → Type 0 where
  hall_message :
      (s : ℕ) (req : HallRequest) (e : Entity) {w w' : World}
      → get_entity s w.cache ≡ some e
      → Rooms FewMembers w
      → IsRegular s req w
      → hall_logic s req w ≡ some w'
      → RegularStep w w'
  game_message :
      (s : ℕ) (req : GameMainRequest) (e : Entity) {w w' : World}
      → get_entity s w.cache ≡ some e
      → main_logic s req w ≡ some w'
      → RegularStep w w'
  heartbeat :
      (s : ℕ) (scene : CurScene) {w w' : World} → start s scene w ≡ some w' → RegularStep w w'
  timer :
      (s now later a : ℕ) (scene : CurScene) (e : Entity) {w w' : World}
      → get_entity s w.cache ≡ some e
      → e.timer ≡ some a
      → lookup a w.heap ≡ some (record { client_socket = s; cur_scene = scene })
      → Rooms FewMembers w
      → Inside e w
      → timer_round s now later w ≡ some w'
      → RegularStep w w'
  new_client : (s : ℕ) (w : World) → RegularStep w (accept_client s w)
  other_event : {w w' : World} → SameRooms w w' → RegularStep w w'

pub data Played (w0 : World) : World → Type 0 where
  begun : Played w0 w0
  went_on : {w w' : World} → Played w0 w → RegularStep w w' → Played w0 w'

-- Who or what an event comes from: a player that asks for something in the hall, the timer of a player
-- that is silent, a game in a room, or none of these.
pub data Cause : Type 0 where
  asks silent : ℕ → Cause
  game : ℕ → Cause
  unseen : Cause

abbrev pub cause : {w w' : World} → RegularStep w w' → Cause
cause (hall_message s req e known few reg run) = asks e.role_info.role_id
cause (game_message s req e known run) = game e.role_info.room_id
cause (heartbeat s scene run) = unseen
cause (timer s now later a scene e known set info few inside run) = silent e.role_info.role_id
cause (new_client s w) = unseen
cause (other_event same) = unseen

-- What the players see of one event: a step of the player that asks, a departure of the silent one, or
-- the end of the game in that room.
abbrev pub Sees : Cause → Lobby → Lobby → Type 0
Sees (asks who) l l' = LobbyStep who l l'
Sees (silent who) l l' = Departs who l l'
Sees (game id) l l' = Ends id l l'
Sees unseen l l' = (j : ℕ) → l' j ≡ l j

-- Each event of a run, between the lobbies before and after it.
abbrev pub Follows : {w0 w : World} → Played w0 w → Type 0
Follows begun = Unit
Follows (went_on {w} {w'} p step) = Follows p × Sees (cause step) (lobby w) (lobby w')

abbrev pub is_from : ℕ → Cause → Bool
is_from role (asks who) = who == role
is_from role _ = false

-- Whether a role has asked for anything in a run.
abbrev pub has_asked : ℕ → {w0 w : World} → Played w0 w → Bool
has_asked role begun = false
has_asked role (went_on p step) = is_from role (cause step) || has_asked role p

RegularStep-Step : {w w' : World} → RegularStep w w' → Step w w'
RegularStep-Step (hall_message s req e known few reg run) = Step.hall_message s req run
RegularStep-Step (game_message s req e known run) = Step.game_message s req run
RegularStep-Step (heartbeat s scene run) = Step.heartbeat s scene run
RegularStep-Step (timer s now later a scene e known set info few inside run) =
    Step.timer s now later run
RegularStep-Step (new_client s w) = Step.new_client s w
RegularStep-Step (other_event same) = Step.other_event same

RegularStep-Sees :
    {w w' : World} (step : RegularStep w w')
    → Rooms RoomOk w
    → Rooms IsBalanced w
    → Sees (cause step) (lobby w) (lobby w')
RegularStep-Sees (hall_message s req e known few reg run) ok balanced =
    hall_logic-LobbyStep s req _ _ e known ok balanced few reg run
RegularStep-Sees {w} (game_message s req e known run) ok balanced =
    After-some _ (main_logic s req w) (main_logic-Ends s w e known req) run
RegularStep-Sees {w} (heartbeat s scene run) ok balanced =
    λ j. ap roll (After-some (SameRooms w) (start s scene w) (start-SameRooms s scene w) run j)
RegularStep-Sees (timer s now later a scene e known set info few inside run) ok balanced =
    timer_round-Departs s now later a scene e _ _ known set info ok balanced few inside run
RegularStep-Sees (new_client s w) ok balanced = λ j. ap roll (accept_client-SameRooms s w j)
RegularStep-Sees (other_event same) ok balanced = λ j. ap roll (same j)

-- The timer of a client takes no one else out of a room.
timer-LeavesOk :
    (s a : ℕ) (scene : CurScene) (e : Entity) (w : World)
    → get_entity s w.cache ≡ some e
    → e.timer ≡ some a
    → lookup a w.heap ≡ some (record { client_socket = s; cur_scene = scene })
    → Inside e w
    → Rooms IsBalanced w
    → (e' : Entity) (a' : ℕ) (info : KeepAliveInfo) → timer_of s w.cache ≡ some (e', a')
    → lookup a' w.heap ≡ some info
    → LeavesOk IsBalanced info.client_socket w
timer-LeavesOk s a scene e w known set heap inside balanced e' a' info timed found =
    let same : a' ≡ a = ap (λ v. v.1) (some_inj (sym timed ∙ timer_set s a e w known set)) in
    let it : info ≡ record { client_socket = s; cur_scene = scene } =
      some_inj (sym found ∙ ap (λ v. lookup v w.heap) same ∙ heap) in
    subst (λ v. LeavesOk IsBalanced v w) (sym (ap (λ v. v.client_socket) it))
      λ e1 room known1 there.
        let member = subst (λ v. Inside v w) (some_inj (sym known ∙ known1)) inside room there in
        leaves-IsBalanced e1.role_info.room_id room e1.role_info.role_id e1.role_info.is_room_ctl
          (balanced _ room there) member

RegularStep-IsBalanced :
    {w w' : World} → RegularStep w w' → Rooms IsBalanced w → Rooms IsBalanced w'
RegularStep-IsBalanced (hall_message s req e known few reg run) h =
    hall_logic-IsBalanced s req _ _ h reg run
RegularStep-IsBalanced {w} (game_message s req e known run) h =
    After-some (Rooms IsBalanced) _ (main_logic-Rooms IsBalanced s req w h) run
RegularStep-IsBalanced {w} (heartbeat s scene run) h =
    After-some (Rooms IsBalanced) _ (start-Rooms IsBalanced s scene w h) run
RegularStep-IsBalanced {w} (timer s now later a scene e known set info few inside run) h =
    After-some (Rooms IsBalanced) _
      (timer_round-Rooms IsBalanced s now later w
        (timer-LeavesOk s a scene e w known set info inside h) h)
      run
RegularStep-IsBalanced (new_client s w) h =
    λ j room found. h j room (sym (accept_client-SameRooms s w j) ∙ found)
RegularStep-IsBalanced (other_event same) h = λ j room found. h j room (sym (same j) ∙ found)

-- Only a player that asks gets a place.
places_grow :
    (role id : ℕ) (c : Cause) (l l' : Lobby)
    → Sees c l l'
    → (is_from role c ≡ true) ⊎ (places role (l' id) ≤ places role (l id))
places_grow role id (asks who) l l' seen = LobbyStep-places role id who l l' seen
places_grow role id (silent who) l l' seen = inr (Departs-places role id who l l' seen)
places_grow role id (game room) l l' seen = inr (Ends-places role id room l l' seen)
places_grow role id unseen l l' seen = inr (omega (arith, ap (places role) (seen id)))

Played-Ok : {w0 w : World} → w0.cache.rooms ≡ [] → Played w0 w → Rooms RoomOk w × Rooms IsBalanced w
Played-Ok {w0} empty begun = (no_rooms RoomOk w0 empty, no_rooms IsBalanced w0 empty)
Played-Ok empty (went_on p step) =
    let (ok, balanced) = Played-Ok empty p in
    (Step-RoomOk (RegularStep-Step step) ok, RegularStep-IsBalanced step balanced)

Played-seen : {w0 w : World} → w0.cache.rooms ≡ [] → (p : Played w0 w) → Follows p
Played-seen empty begun = tt
Played-seen empty (went_on p step) =
    let (ok, balanced) = Played-Ok empty p in
    (Played-seen empty p, RegularStep-Sees step ok balanced)

lobby_empty : (w0 : World) → w0.cache.rooms ≡ [] → (id role : ℕ) → places role (lobby w0 id) ≡ 0
unfolding find_entity_room lookup
lobby_empty w0 empty id role = ap (λ rs. places role (roll (lookup id rs))) empty

or_true : (b c : Bool) → c ≡ true → (b || c) ≡ true
or_true true c h = refl
or_true false c h = h

Played-asked :
    {w0 w : World}
    → w0.cache.rooms ≡ []
    → (p : Played w0 w) (id role : ℕ) → (places role (lobby w id) ≡ 0) ⊎ (has_asked role p ≡ true)
Played-asked {w0} empty begun id role = inl (lobby_empty w0 empty id role)
Played-asked {w0} empty (went_on {w} {w'} p step) id role =
    let (ok, balanced) = Played-Ok empty p in
    elim (places_grow role id (cause step) (lobby w) (lobby w')
      (RegularStep-Sees step ok balanced)) [
        | inl his ↦ inr (rw his refl)
        | inr fewer ↦ elim (Played-asked empty p id role) [
          | inl out ↦ inl (omega arith)
          | inr asked ↦ inr (or_true (is_from role (cause step)) _ asked)
        ]
      ]

-- From a server without rooms, while the clients are regular: before each message of the hall and each
-- run of a timer no room has 2 ^ 32 members, a client whose `PlayerInfo` names a room is in it, one that
-- accepts an invitation is not in that room yet, and a timer has an info of its own client. Then each
-- event of the run changes the lobby that the players see from what it was before the event as `Sees`
-- says: a message of the hall is one step of the player whose client sends it, a timer leaves the lobby
-- or takes its player out of one room or closes a room that nobody else is in, a message of a game
-- leaves the lobby or ends the game of the room that the client's `PlayerInfo` names, and nothing else
-- changes it. And a role that is in a room at the end has sent a message of the hall in the run.
pub Played-Follows :
    (w0 w : World) (p : Played w0 w)
    → w0.cache.rooms ≡ []
    → Follows p × ((id role : ℕ) → (places role (lobby w id) ≡ 0) ⊎ (has_asked role p ≡ true))
Played-Follows w0 w p empty = (Played-seen empty p, Played-asked empty p)
