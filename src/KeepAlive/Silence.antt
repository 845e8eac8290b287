-- ===== src/KeepAlive/Silence.antt =====
-- A client that sends no heartbeat any more, through the rounds of its timer.
use jira_game.Base.{
  ==_refl, Bool, Bool-cases, Option, Option-cases, ap, arith, count, false, inl, inr, lookup, ltb,
  map_some, none, not, refl, some, some_inj, true, ℕ, ◌&&◌, ◌+◌, ◌<◌, ◌>>=◌, ◌∙◌, ◌≡◌,
}
use jira_game.World.{World, on_cache}
use jira_game.Cache.{Cache, Entity, find_entity_room, get_entity, modify_entity}
use jira_game.Cache.Laws.{get_entity-modify_entity}
use jira_game.Proto.{CurScene, PlayerInfo}
use jira_game.JiraEvent.Laws.{send_all-cache, send_all-heap, send_msg-cache, send_msg-heap}
use jira_game.KeepAlive.{
  answer, is_main_scene, is_wait_room, miss_few, miss_many, notify_break_line, set_broken,
  timer_func,
}

abbrev pub count_of : Option Entity → Option ℕ
count_of none = none
count_of (some e) = some e.send_msg_count

-- How many heartbeats of a client are missing, if it has an entity.
abbrev pub missing : ℕ → Cache → Option ℕ
missing s c = count_of (get_entity s c)

-- The info at an address is the one of a socket, in a scene, and n heartbeats are missing.
pub record Watched (a s : ℕ) (scene : CurScene) (n : ℕ) (w : World) : Type 0 where
  pub info : lookup a w.heap ≡ some (record { client_socket = s; cur_scene = scene })
  pub counted : missing s w.cache ≡ some n

missing-modify :
    (s n k : ℕ) (f : Entity → Entity) (c : Cache)
    → ((e : Entity) → e.send_msg_count ≡ n → (f e).send_msg_count ≡ k)
    → missing s c ≡ some n
    → missing s (modify_entity s f c) ≡ some k
missing-modify s n k f c step h =
    ap count_of (get_entity-modify_entity s s f c ∙ rw (==_refl s) refl)
    ∙ of_entity (get_entity s c) h
  where
    of_entity : (o : Option Entity) → count_of o ≡ some n → count_of (map_some f o) ≡ some k
    of_entity none e = absurd (cc e)
    of_entity (some e') e = ap some (step e' (some_inj e))

pub entity_of_missing :
    (s n : ℕ) (c : Cache)
    → missing s c ≡ some n
    → (e : Entity) × (get_entity s c ≡ some e) × (e.send_msg_count ≡ n)
entity_of_missing s n c h = elim (Option-cases (get_entity s c)) [
  | inl gone ↦ let no : none ≡ some n = rw gone at h in absurd (cc no)
  | inr (e, found) ↦
      let k : some e.send_msg_count ≡ some n = rw found at h in (e, found, some_inj k)
]

-- Two worlds that agree on the heap, where the second has the first's cache changed by one entity.
carry :
    (a s n k : ℕ) (scene : CurScene) (f : Entity → Entity) (w w' : World)
    → ((e : Entity) → e.send_msg_count ≡ n → (f e).send_msg_count ≡ k)
    → w'.heap ≡ w.heap
    → w'.cache ≡ modify_entity s f w.cache
    → Watched a s scene n w
    → Watched a s scene k w'
carry a s n k scene f w w' step heap cache h = record {
  info = ap (lookup a) heap ∙ h.info;
  counted = ap (missing s) cache ∙ missing-modify s n k f w.cache step h.counted;
}

abbrev pub one_more : Entity → Entity
one_more e = record e { send_msg_count = e.send_msg_count + 1 }

pub answer-keeps :
    (s : ℕ) (scene : CurScene) (w : World)
    → ((answer s scene w).heap ≡ w.heap)
      × ((answer s scene w).cache ≡ modify_entity s one_more w.cache)
unfolding answer
answer-keeps s scene w = elim (Bool-cases (is_wait_room scene)) [
  | inl hall ↦ rw hall (send_msg-heap s _ w, ap (modify_entity s one_more) (send_msg-cache s _ w))
  | inr elsewhere ↦ elim (Bool-cases (is_main_scene scene)) [
    | inl game ↦
        rw (elsewhere, game)
          (send_msg-heap s _ w, ap (modify_entity s one_more) (send_msg-cache s _ w))
    | inr neither ↦ rw (elsewhere, neither) (refl, refl)
  ]
]

pub notify-keeps :
    (s : ℕ) (me : PlayerInfo) (w : World)
    → ((notify_break_line s me w).heap ≡ w.heap) × ((notify_break_line s me w).cache ≡ w.cache)
unfolding notify_break_line
notify-keeps s me w = elim (Option-cases (find_entity_room me.room_id w.cache)) [
  | inl gone ↦ rw (gone, notify_break_line) (refl, refl)
  | inr (room, found) ↦ rw (found, notify_break_line) (send_all-heap _ _ w, send_all-cache _ _ w)
]

answered :
    (a s n : ℕ) (scene : CurScene) (w : World)
    → Watched a s scene n w
    → Watched a s scene (n + 1) (answer s scene w)
answered a s n scene w h =
    carry a s n (n + 1) scene one_more w (answer s scene w) (λ e k. ap (λ m. m + 1) k)
      (answer-keeps s scene w).0 (answer-keeps s scene w).1 h

missed_many :
    (a s n : ℕ) (scene : CurScene) (e : Entity) (w : World)
    → Watched a s scene n w
    → Watched a s scene n (miss_many s scene e w)
unfolding miss_many
missed_many a s n scene e w h = elim (Bool-cases (e.is_broken && is_main_scene scene)) [
  | inl tell ↦ rw tell (
      carry a s n n scene (set_broken false) w _ (λ e k. k) (notify-keeps s e.role_info w).0
        (ap (modify_entity s (set_broken false)) (notify-keeps s e.role_info w).1) h)
  | inr quiet ↦ rw quiet (carry a s n n scene (set_broken false) w _ (λ e k. k) refl refl h)
]

-- Outside the hall nobody is taken out of a room.
missed_few :
    (a s n : ℕ) (scene : CurScene) (e : Entity) (w : World)
    → is_wait_room scene ≡ false
    → Watched a s scene n w
    → (w' : World) × (miss_few s scene e w ≡ some w') × Watched a s scene n w'
unfolding miss_few
missed_few a s n scene e w out h = (
  on_cache (modify_entity s (set_broken true)) w,
  rw (out, and_false (not e.is_broken)) refl,
  carry a s n n scene (set_broken true) w _ (λ e k. k) refl refl h,
)
  where
    and_false : (b : Bool) → (b && false) ≡ false
    and_false true = refl
    and_false false = refl

pub one_round :
    (a s n : ℕ) (scene : CurScene) (w : World)
    → n < 30
    → is_wait_room scene ≡ false
    → Watched a s scene n w
    → (w' : World) × (timer_func a w ≡ some w') × Watched a s scene (n + 1) w'
unfolding timer_func
one_round a s n scene w low out h =
    let (e, found, count) = entity_of_missing s n w.cache h.counted in
    elim (Bool-cases (ltb n 3)) [
      | inl fresh ↦
          (answer s scene w, rw (h.info, ◌>>=◌, found, count, fresh) refl, answered a s n scene w h)
      | inr stale ↦ elim (Bool-cases (ltb n 10)) [
        | inl few ↦
            let (w', run, k) = missed_few a s n scene e w out h in
            (
              answer s scene w',
              rw (h.info, ◌>>=◌, found, count, stale, few, run) refl,
              answered a s n scene w' k,
            )
        | inr more ↦ (
          answer s scene (miss_many s scene e w),
          rw (h.info, ◌>>=◌, found, count, stale, more, below) refl,
          answered a s n scene _ (missed_many a s n scene e w h),
        )
      ]
    ]
  where
    below : ltb n 30 ≡ true
    below = ground arith
