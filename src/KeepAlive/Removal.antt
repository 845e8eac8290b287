-- ===== src/KeepAlive/Removal.antt =====
-- The removal of a client that sends no heartbeat any more, and a new client on its socket.
use jira_game.Base.{
  ==_refl, >>=-eq-some, Option, ap, arith, contains, count, false, if◌then◌else◌, lookup,
  lookup-erase, ltb, none, refl, some, some_inj, subst, suc, true, zero, ℕ, ◌+◌, ◌==◌, ◌>>=◌, ◌||◌,
  ◌∙◌, ◌≡◌, ◌≤◌,
}
use jira_game.World.{World, on_cache}
use jira_game.Cache.{Entity, find_entity_room, get_entity, new_entity, set_entity}
use jira_game.Cache.Laws.{
  find_entity_room-erase_entity, get_entity-erase_entity, get_entity-set_entity,
}
use jira_game.Proto.{CurScene}
use jira_game.KeepAlive.{is_main_scene, is_wait_room, remove_client, start, timer_func, update_info}
use jira_game.JiraEvent.{remover_listenner}
use jira_game.KeepAlive.Silence.{Watched, entity_of_missing, one_round}

-- The timer's function, a number of times.
abbrev pub rounds : ℕ → ℕ → World → Option World
rounds zero a w = some w
rounds (suc n) a w = timer_func a w >>= λ w'. rounds n a w'

to_thirty :
    (m a s n : ℕ) (scene : CurScene) (w : World)
    → n + m ≡ 30
    → is_wait_room scene ≡ false
    → Watched a s scene n w
    → (w' : World) × (rounds m a w ≡ some w') × Watched a s scene 30 w'
to_thirty zero a s n scene w sum out h =
    (w, refl, subst (λ k. Watched a s scene k w) (omega arith) h)
to_thirty (suc m) a s n scene w sum out h =
    let (v, run, k) = one_round a s n scene w (omega arith) out h in
    let (w', rest, k') = to_thirty m a s (n + 1) scene v (omega arith) out k in
    (w', rw (run, ◌>>=◌) rest, k')

rounds-suc :
    (m a : ℕ) (w v w' : World)
    → rounds m a w ≡ some v
    → timer_func a v ≡ some w'
    → rounds (suc m) a w ≡ some w'
rounds-suc zero a w v w' run last = let e : w ≡ v = some_inj run in rw (e, last, ◌>>=◌) refl
rounds-suc (suc m) a w v w' run last =
    let (u, first, rest) = >>=-eq-some (timer_func a w) _ run in
    rw (first, ◌>>=◌) (rounds-suc m a u v w' rest last)

-- What the removal of a client leaves: no entity and no observer for its socket, and its info
-- freed; the map of the infos keeps the address, and no room changes.
pub record Removed (a s : ℕ) (w w' : World) : Type 0 where
  pub entities : (j : ℕ) → get_entity j w'.cache ≡ (if s == j then none else get_entity j w.cache)
  pub listeners : (j : ℕ) → lookup j w'.listeners ≡ (if s == j then none else lookup j w.listeners)
  pub freed : (j : ℕ) → lookup j w'.heap ≡ (if a == j then none else lookup j w.heap)
  pub infos : w'.keep_alive_info_map ≡ w.keep_alive_info_map
  pub rooms : (j : ℕ) → find_entity_room j w'.cache ≡ find_entity_room j w.cache
  pub sent : w'.sent ≡ w.sent

-- With thirty heartbeats missing, in whatever scene, the next call of the timer's function removes
-- the client, and sends nothing.
pub timer_func-Removed :
    (a s : ℕ) (scene : CurScene) (n : ℕ) (w : World)
    → Watched a s scene n w
    → 30 ≤ n
    → (w' : World) × (timer_func a w ≡ some w') × Removed a s w w'
unfolding timer_func remove_client remover_listenner
timer_func-Removed a s scene n w h full =
    let (e, found, count) = entity_of_missing s n w.cache h.counted in
    (
      remove_client s a w,
      rw (h.info, ◌>>=◌, found, count, not_three, not_ten, not_thirty) refl,
      record {
        entities = λ j. get_entity-erase_entity j s w.cache;
        listeners = λ j. lookup-erase j s w.listeners;
        freed = λ j. lookup-erase j a w.heap;
        infos = refl;
        rooms = λ j. find_entity_room-erase_entity j s w.cache;
        sent = refl;
      },
    )
  where
    not_three : ltb n 3 ≡ false
    not_three = ground arith

    not_ten : ltb n 10 ≡ false
    not_ten = ground arith

    not_thirty : ltb n 30 ≡ false
    not_thirty = ground arith

-- A client outside the hall with n missing heartbeats, 30 at most, that sends no more: the timer's
-- function returns 30 - n times in a row and leaves it with thirty missing, and the next call returns
-- and has removed it, as `Removed` says.
pub silent_client-Removed :
    (a s n m : ℕ) (scene : CurScene) (w : World)
    → n + m ≡ 30
    → is_wait_room scene ≡ false
    → Watched a s scene n w
    → (v w' : World) × (rounds m a w ≡ some v)
      × Watched a s scene 30 v
      × (rounds (suc m) a w ≡ some w')
      × Removed a s v w'
silent_client-Removed a s n m scene w sum out h =
    let (v, run, k) = to_thirty m a s n scene w sum out h in
    let (w', last, gone) = timer_func-Removed a s scene 30 v k (omega arith) in
    (v, w', run, k, rounds-suc m a w v w' run last, gone)

start_dangling :
    (a s : ℕ) (next : CurScene) (e : Entity) (w : World)
    → get_entity s w.cache ≡ some e
    → (is_wait_room next || is_main_scene next) ≡ true
    → lookup s w.keep_alive_info_map ≡ some a
    → lookup a w.heap ≡ none
    → start s next w ≡ none
unfolding start update_info contains
start_dangling a s next e w found seen mapped freed =
    rw (found, start, seen, update_info, mapped, contains, freed) refl

-- A new client on the socket of a removed one: its first heartbeat from the hall or from a game
-- writes to the freed info, which the map still has.
pub start_after_removal :
    (a s : ℕ) (scene next : CurScene) (n : ℕ) (w : World)
    → Watched a s scene n w
    → 30 ≤ n
    → lookup s w.keep_alive_info_map ≡ some a
    → (is_wait_room next || is_main_scene next) ≡ true
    → (w' : World) × (timer_func a w ≡ some w')
      × (start s next (on_cache (set_entity s (new_entity s)) w') ≡ none)
start_after_removal a s scene next n w h full mapped seen =
    let (w', run, gone) = timer_func-Removed a s scene n w h full in
    let again : get_entity s (set_entity s (new_entity s) w'.cache) ≡ some (new_entity s) =
      get_entity-set_entity s s (new_entity s) w'.cache
      ∙ rw (==_refl s, gone.entities s, ==_refl s) refl in
    let dangling : lookup a w'.heap ≡ none = gone.freed a ∙ rw (==_refl a) refl in
    let still : lookup s w'.keep_alive_info_map ≡ some a = ap (lookup s) gone.infos ∙ mapped in
    (
      w',
      run,
      start_dangling a s next (new_entity s) (on_cache (set_entity s (new_entity s)) w') again seen
          still dangling,
    )
