-- ===== src/Rooms/Heartbeat.antt =====
-- A property of all rooms under the heartbeats and the timers.
use jira_game.Base.{
  After, After->>=, After-if, After-some, Bool-cases, Option-cases, contains, if◌then◌else◌, inl,
  inr, lookup, ltb, not, some, subst, sym, true, ℕ, ◌%◌, ◌&&◌, ◌+◌, ◌||◌, ◌∙◌, ◌≡◌,
}
use jira_game.Proto.{CurScene, RoomInfo}
use jira_game.World.{KeepAliveInfo, World, on_cache}
use jira_game.Cache.{Entity, find_entity_room, get_entity, modify_entity}
use jira_game.Cache.EveryRoom.{EveryRoom, modify_entity-EveryRoom}
use jira_game.KeepAlive.Silence.{answer-keeps, notify-keeps, one_more}
use jira_game.Hall.Leave.{depart, room_after, stayers}
use jira_game.Cache.Laws.{find_entity_room-erase_entity}
use jira_game.KeepAlive.{
  answer, is_main_scene, is_wait_room, miss_few, miss_many, or_else, remove_client, set_alive,
  set_broken, start, start_timer, timer_func, timer_of, timer_round, update_info,
}
use jira_game.Rooms.Changes.{Rooms}
use jira_game.JiraEvent.{remover_listenner}
use jira_game.Rooms.Operations.{depart-Rooms}

module _ (P : ℕ → RoomInfo → Type 0) where
  pub modified :
      (s : ℕ) (f : Entity → Entity) (w : World)
      → Rooms P w
      → Rooms P (on_cache (modify_entity s f) w)
  modified s f w h = modify_entity-EveryRoom P s f w.cache h

  update_info-Rooms :
      (s : ℕ) (scene : CurScene) (w : World) → Rooms P w → After (Rooms P) (update_info s scene w)
  unfolding update_info
  update_info-Rooms s scene w h = elim (Option-cases (lookup s w.keep_alive_info_map)) [
    | inl new ↦ rw (new, update_info) h
    | inr (address, known) ↦
        rw (known, update_info)
          (After-if (Rooms P) (contains address w.heap) _ _ (λ _. h) (λ _. tt))
  ]

  pub start-Rooms :
      (s : ℕ) (scene : CurScene) (w : World) → Rooms P w → After (Rooms P) (start s scene w)
  unfolding start start_timer
  start-Rooms s scene w h = elim (Option-cases (get_entity s w.cache)) [
    | inl gone ↦ rw (gone, start) h
    | inr (e, found) ↦
        rw (found, start)
          (After->>= (Rooms P)
            (if is_wait_room scene || is_main_scene scene then update_info s scene w else some w) _
            λ w' run.
              let h' : Rooms P w' =
                After-some (Rooms P) _
                  (After-if (Rooms P) (is_wait_room scene || is_main_scene scene) _ _
                    (λ _. update_info-Rooms s scene w h) (λ _. h))
                  run in
              elim (Bool-cases e.has_thread) [
                | inl has ↦ rw has (modified s set_alive w' h')
                | inr new ↦ rw new (modify_entity-EveryRoom P s _ _ (modified s set_alive w' h'))
              ])
  ]

  answer-Rooms : (s : ℕ) (scene : CurScene) (w : World) → Rooms P w → Rooms P (answer s scene w)
  answer-Rooms s scene w h =
      subst (EveryRoom P) (sym (answer-keeps s scene w).1)
        (modify_entity-EveryRoom P s one_more w.cache h)

  miss_many-Rooms :
      (s : ℕ) (scene : CurScene) (e : Entity) (w : World)
      → Rooms P w
      → Rooms P (miss_many s scene e w)
  unfolding miss_many
  miss_many-Rooms s scene e w h = elim (Bool-cases (e.is_broken && is_main_scene scene)) [
    | inl tell ↦
        rw (tell, miss_many)
          (modify_entity-EveryRoom P s _ _
            (subst (EveryRoom P) (sym (notify-keeps s e.role_info w).1) h))
    | inr quiet ↦ rw (quiet, miss_many) (modify_entity-EveryRoom P s _ _ h)
  ]

  remove_client-Rooms : (s a : ℕ) (w : World) → Rooms P w → Rooms P (remove_client s a w)
  unfolding remove_client remover_listenner
  remove_client-Rooms s a w h j room found =
      h j room (sym (find_entity_room-erase_entity j s w.cache) ∙ found)

-- The copy of its room without the player of a client has the property.
abbrev pub LeavesOk : (ℕ → RoomInfo → Type 0) → ℕ → World → Type 0
LeavesOk P s w =
    (e : Entity) (room : RoomInfo)
    → get_entity s w.cache ≡ some e
    → find_entity_room e.role_info.room_id w.cache ≡ some room
    → (let me = e.role_info in
        P me.room_id (room_after room (stayers me.role_id me.is_room_ctl room.players).0))

-- The timer, for a property that such copies have.
module _ (P : ℕ → RoomInfo → Type 0) where
  miss_few-Rooms :
      (s : ℕ) (scene : CurScene) (e : Entity) (w : World)
      → LeavesOk P s w
      → Rooms P w
      → After (Rooms P) (miss_few s scene e w)
  unfolding miss_few
  miss_few-Rooms s scene e w leaves h =
      After->>= (Rooms P) (if not e.is_broken && is_wait_room scene then depart s w else some w) _
        λ w' run. modified P s (set_broken true) w' (
          After-some (Rooms P) _
            (After-if (Rooms P) (not e.is_broken && is_wait_room scene) _ _
              (λ _. depart-Rooms P s w leaves h) (λ _. h))
            run)

  timer_func-Rooms :
      (a : ℕ) (w : World)
      → ((info : KeepAliveInfo) → lookup a w.heap ≡ some info → LeavesOk P info.client_socket w)
      → Rooms P w
      → After (Rooms P) (timer_func a w)
  unfolding timer_func
  timer_func-Rooms a w leaves h = After->>= (Rooms P) (lookup a w.heap) _ λ info hi.
      let s = info.client_socket in
      let scene = info.cur_scene in
      elim (Option-cases (get_entity s w.cache)) [
        | inl gone ↦ rw gone h
        | inr (e, found) ↦ rw found (
            After-if (Rooms P) (ltb e.send_msg_count 3) _ _ (λ _. answer-Rooms P s scene w h)
              λ _.
                After-if (Rooms P) (ltb e.send_msg_count 10) _ _
                  (λ _. After->>= (Rooms P) (miss_few s scene e w) _ λ w' run.
                    answer-Rooms P s scene w'
                      (After-some (Rooms P) _ (miss_few-Rooms s scene e w (leaves info hi) h) run))
                  λ _.
                    After-if (Rooms P) (ltb e.send_msg_count 30) _ _
                      (λ _. answer-Rooms P s scene _ (miss_many-Rooms P s scene e w h))
                      (λ _. remove_client-Rooms P s a w h))
      ]

  pub timer_round-Rooms :
      (s now later : ℕ) (w : World)
      → ((e : Entity) (a : ℕ) (info : KeepAliveInfo)
          → timer_of s w.cache ≡ some (e, a)
          → lookup a w.heap ≡ some info
          → LeavesOk P info.client_socket w)
      → Rooms P w
      → After (Rooms P) (timer_round s now later w)
  unfolding timer_round
  timer_round-Rooms s now later w leaves h = elim (Option-cases (timer_of s w.cache)) [
    | inl gone ↦ rw (gone, timer_round) h
    | inr ((e, a), found) ↦
        let pre = or_else w.pre_time (now % 4294967296) in
        rw (found, timer_round)
          (After-if (Rooms P) e.thread_power _ _ (λ _. h)
            λ _.
              After-if (Rooms P) (ltb ((pre + e.delta_time) % 4294967296) now) _ _
                (λ _.
                  After->>= (Rooms P) (timer_func a (record w { pre_time = some pre })) _ λ w' run.
                    After-some (Rooms P) _
                      (timer_func-Rooms a (record w { pre_time = some pre })
                        (λ info. leaves e a info found) h)
                      run)
                (λ _. h))
  ]
