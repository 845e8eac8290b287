-- ===== src/Rooms/Lobby/Timers.antt =====
-- The timers of the heartbeat (GameLogic/SceneChain/KeepAlive.cpp of DNW_Server/Server) as steps of
-- the lobby.
use jira_game.Base.{
  After, After->>=, After-if, After-some, Bool-cases, ap, fun_ext, if◌then◌else◌, inl, inr, lookup,
  ltb, not, refl, some, subst, sym, true, ℕ, ◌%◌, ◌&&◌, ◌+◌, ◌>>=◌, ◌≡◌,
}
use jira_game.Proto.{CurScene}
use jira_game.World.{World, on_cache}
use jira_game.Cache.{Entity, find_entity_room, get_entity, modify_entity}
use jira_game.Cache.Laws.{find_entity_room-erase_entity}
use jira_game.JiraEvent.{remover_listenner}
use jira_game.Hall.Leave.{depart}
use jira_game.KeepAlive.{
  answer, is_main_scene, is_wait_room, miss_few, miss_many, or_else, remove_client, set_broken,
  timer_func, timer_of, timer_round,
}
use jira_game.KeepAlive.Silence.{answer-keeps, notify-keeps}
use jira_game.Rooms.Changes.{Rooms}
use jira_game.Rooms.Events.{SameRooms}
use jira_game.Rooms.WellFormed.{RoomOk}
use jira_game.Rooms.Balance.{IsBalanced}
use jira_game.Rooms.Lobby.{Departs, lobby, remains, roll}
use jira_game.Rooms.Lobby.Departure.{Inside, depart-Departs}
use jira_game.Rooms.Lobby.Steps.{FewMembers, Lawful}

modified-SameRooms :
    (s : ℕ) (f : Entity → Entity) (w : World) → SameRooms w (on_cache (modify_entity s f) w)
unfolding modify_entity find_entity_room
modified-SameRooms s f w j = refl

answer-SameRooms : (s : ℕ) (scene : CurScene) (w : World) → SameRooms w (answer s scene w)
unfolding modify_entity find_entity_room
answer-SameRooms s scene w j = ap (find_entity_room j) (answer-keeps s scene w).1

miss_many-SameRooms :
    (s : ℕ) (scene : CurScene) (e : Entity) (w : World) → SameRooms w (miss_many s scene e w)
unfolding miss_many modify_entity find_entity_room
miss_many-SameRooms s scene e w j = elim (Bool-cases (e.is_broken && is_main_scene scene)) [
  | inl tell ↦ rw tell (ap (find_entity_room j) (notify-keeps s e.role_info w).1)
  | inr not_told ↦ rw not_told refl
]

remove_client-SameRooms : (s a : ℕ) (w : World) → SameRooms w (remove_client s a w)
unfolding remove_client remover_listenner
remove_client-SameRooms s a w j = find_entity_room-erase_entity j s w.cache

module _ (w : World) (lawful : Rooms Lawful w) where
  module _ (s : ℕ) (e : Entity) (known : get_entity s w.cache ≡ some e) (inside : Inside e w) where
    abbrev Out : World → Type 0
    Out w' = Departs e.role_info.role_id (lobby w) (lobby w')

    still : (w' : World) → SameRooms w w' → Out w'
    still w' same = remains (λ j. ap roll (same j))

    and_then : (w1 w2 : World) → SameRooms w1 w2 → Out w1 → Out w2
    and_then w1 w2 same =
        subst (Departs e.role_info.role_id (lobby w)) (fun_ext (λ j. ap roll (sym (same j))))

    miss_few-Out : (scene : CurScene) → After Out (miss_few s scene e w)
    unfolding miss_few
    miss_few-Out scene =
        After->>= Out (if not e.is_broken && is_wait_room scene then depart s w else some w) _
          λ w1 run.
            and_then w1 (on_cache (modify_entity s (set_broken true)) w1)
              (modified-SameRooms s (set_broken true) w1)
              (After-some Out _
                (After-if Out (not e.is_broken && is_wait_room scene) _ _
                  (λ _. depart-Departs s w e known lawful inside w refl) (λ _. still w (λ j. refl)))
                run)

    timer_func-Out :
        (a : ℕ) (scene : CurScene)
        → lookup a w.heap ≡ some (record { client_socket = s; cur_scene = scene })
        → After Out (timer_func a w)
    unfolding timer_func
    timer_func-Out a scene info =
        rw (info, ◌>>=◌, known)
          (After-if Out (ltb e.send_msg_count 3) _ _
            (λ _. still (answer s scene w) (answer-SameRooms s scene w))
            λ _.
              After-if Out (ltb e.send_msg_count 10) _ _
                (λ _. After->>= Out (miss_few s scene e w) _ λ w1 run.
                  and_then w1 (answer s scene w1) (answer-SameRooms s scene w1)
                    (After-some Out _ (miss_few-Out scene) run))
                λ _.
                  After-if Out (ltb e.send_msg_count 30) _ _
                    (λ _.
                      and_then (miss_many s scene e w) (answer s scene (miss_many s scene e w))
                        (answer-SameRooms s scene (miss_many s scene e w))
                        (still (miss_many s scene e w) (miss_many-SameRooms s scene e w)))
                    (λ _. still (remove_client s a w) (remove_client-SameRooms s a w)))

pub timer_set :
    (s a : ℕ) (e : Entity) (w : World)
    → get_entity s w.cache ≡ some e
    → e.timer ≡ some a
    → timer_of s w.cache ≡ some (e, a)
unfolding timer_of
timer_set s a e w known set = rw (known, ◌>>=◌, set) refl

-- Where every room is under its own id, for six, balanced and of fewer than 2^32 members, the player
-- of a client is in the room that it names, if there is one, and the client's timer was set with an
-- info of the client: each round of that timer that returns leaves the rooms as the players see them,
-- or takes the client's player out of one room, or closes a room in which nobody else is.
pub timer_round-Departs :
    (s now later a : ℕ) (scene : CurScene) (e : Entity) (w w' : World)
    → get_entity s w.cache ≡ some e
    → e.timer ≡ some a
    → lookup a w.heap ≡ some (record { client_socket = s; cur_scene = scene })
    → Rooms RoomOk w
    → Rooms IsBalanced w
    → Rooms FewMembers w
    → Inside e w
    → timer_round s now later w ≡ some w'
    → Departs e.role_info.role_id (lobby w) (lobby w')
unfolding timer_round
timer_round-Departs s now later a scene e w w' known set info ok balanced few inside run =
    let lawful : Rooms Lawful w =
      λ id room found. (ok id room found, balanced id room found, few id room found) in
    let pre = or_else w.pre_time (now % 4294967296) in
    let started = record w { pre_time = some pre } in
    let Away = Out w lawful s e known inside in
    After-some Away (timer_round s now later w)
      (rw (timer_set s a e w known set, timer_round)
        (After-if Away e.thread_power _ _ (λ _. still w lawful s e known inside w (λ j. refl))
          λ _.
            After-if Away (ltb ((pre + e.delta_time) % 4294967296) now) _ _
              (λ _. After->>= Away (timer_func a started) _ λ w1 fired.
                After-some Away _ (timer_func-Out started lawful s e known inside a scene info)
                  fired)
              (λ _. still w lawful s e known inside started (λ j. refl))))
      run
