-- ===== src/Hall/Leave/Replaced.antt =====
-- What leaving a room comes to, by what the copying loop gives.
use jira_game.Base.{
  ==_refl, >>=-eq-some, Bool, Bool-cases, List, Option, [], ap, arith, false, if◌then◌else◌, inc32,
  inl, inr, keep, none, not, refl, some, some_inj, subst, sym, true, ℕ, ◌++◌, ◌==◌, ◌>>=◌, ◌∙◌, ◌∷◌,
  ◌≡◌,
}
use jira_game.Proto.{PlayerInfo, RoomInfo}
use jira_game.Cache.{
  Cache, Entity, check_entity_room_is_only, entity_room_remove_member, find_entity_room, get_entity,
  set_role_info,
}
use jira_game.Hall.Leave.{
  close_room, depart, depart_room, leave_others, leaver_info, left_reply, promote_entity,
  replace_room, room_after, set_idle, stayers, take_control,
}
use jira_game.World.{World, on_cache}
use jira_game.Cache.Laws.{
  find_entity_room-create_room, find_entity_room-remove, find_entity_room-set_role_info,
}
use jira_game.JiraEvent.{send_all}
use jira_game.JiraEvent.Laws.{deliveries, send_all-cache, send_all-sent}
use jira_game.Hall.Replies.{hall_packet, sockets}

-- Without a change of control the loop only leaves out the leaver's role; with one, the first that
-- stays gets the control, the others are copied, and the reply names the new controller.
pub stayers_control :
    (role : ℕ) (ps : List PlayerInfo)
    → let others = keep (λ p. not (p.role_id == role)) ps in
      (stayers role false ps ≡ (others, none))
      × (stayers role true ps
          ≡ elim others [ [] ↦ ([], none) | q ∷ qs ↦ (take_control q ∷ qs, some (take_control q)) ])
unfolding stayers
stayers_control role [] = (refl, refl)
stayers_control role (p ∷ ps) = elim (Bool-cases (p.role_id == role)) [
  | inl gone ↦ rw gone (stayers_control role ps)
  | inr here ↦ rw here (ground (arith, stayers_control role ps))
]

pub is_only_of_none :
    (id : ℕ) (c : Cache) → find_entity_room id c ≡ none → check_entity_room_is_only id c ≡ true
unfolding check_entity_room_is_only find_entity_room
is_only_of_none id c h = rw (h, check_entity_room_is_only) refl

free_after_remove :
    (id : ℕ) (c : Cache) → check_entity_room_is_only id (entity_room_remove_member id c) ≡ true
free_after_remove id c =
    is_only_of_none id _ (rw (find_entity_room-remove id id c, ==_refl id) refl)

-- The new room stands in the place of the old one, and no other room is touched.
pub find_entity_room-replace_room :
    (j id : ℕ) (room : RoomInfo) (c : Cache)
    → find_entity_room j (replace_room id room c)
      ≡ (if id == j then some room else find_entity_room j c)
unfolding replace_room
find_entity_room-replace_room j id room c = elim (Bool-cases (id == j)) [
  | inl same ↦
      rw
        (
          find_entity_room-create_room j id room (entity_room_remove_member id c),
          same,
          free_after_remove id c,
        )
        refl
  | inr other ↦
      rw
        (
          find_entity_room-create_room j id room (entity_room_remove_member id c),
          find_entity_room-remove j id c,
          other,
        )
        refl
]

-- The players that stay, and the one of them that is given the control.
abbrev staying : PlayerInfo → RoomInfo → List PlayerInfo × Option PlayerInfo
staying me room = stayers me.role_id me.is_room_ctl room.players

-- The test of the source for the last member: all places are free but one.
abbrev pub is_last : RoomInfo → Bool
is_last room = room.person_count == inc32 room.free_person_count

-- How leaving ends, for a player whose `PlayerInfo` is `me` in the room. With the last free place
-- the room is removed and nothing is sent. Otherwise the room is replaced by a copy without the
-- leaver and with one more free place; each member that stays and has an observer is sent the
-- leaver and the new controller, if there is one.
pub record Replaced (s : ℕ) (me : PlayerInfo) (room : RoomInfo) (w w' : World) : Type 0 where
  pub rooms :
      (j : ℕ)
      → find_entity_room j w'.cache ≡ (
          if me.room_id == j
          then if is_last room then none else some (room_after room (staying me room).0)
          else find_entity_room j w.cache)
  pub told : w'.sent ≡ (
      if is_last room
      then w.sent
      else w.sent
        ++ deliveries w.listeners
            (hall_packet (left_reply (leaver_info me) (staying me room).1))
            (sockets (staying me room).0))

promote_entity-rooms :
    (heir : Option PlayerInfo) (c c' : Cache) (j : ℕ)
    → promote_entity heir c ≡ some c'
    → find_entity_room j c' ≡ find_entity_room j c
unfolding promote_entity
promote_entity-rooms none c c' j h = ap (find_entity_room j) (sym (some_inj h))
promote_entity-rooms (some p) c c' j h =
    let (_, _, e) = >>=-eq-some (get_entity p.socket c) _ h in
    ap (find_entity_room j) (sym (some_inj e))
    ∙ find_entity_room-set_role_info j p.socket take_control c

closed-Replaced :
    (s : ℕ) (me : PlayerInfo) (room : RoomInfo) (w : World)
    → is_last room ≡ true
    → Replaced s me room w (on_cache (close_room s me.room_id) w)
unfolding close_room
closed-Replaced s me room w last = record {
  rooms = λ j.
      find_entity_room-set_role_info j s set_idle _
      ∙ rw (find_entity_room-remove j me.room_id w.cache, last) refl;
  told = rw last refl;
}

kept-Replaced :
    (s : ℕ) (me : PlayerInfo) (room : RoomInfo) (w w' : World)
    → is_last room ≡ false
    → leave_others s me room (staying me room).0 (staying me room).1 w ≡ some w'
    → Replaced s me room w w'
unfolding leave_others
kept-Replaced s me room w w' more h =
    let (c, he, e) = >>=-eq-some (promote_entity (staying me room).1 w.cache) _ h in
    subst (Replaced s me room w) (some_inj e) (kept_at c he)
  where
    kept_at :
        (c : Cache)
        → promote_entity (staying me room).1 w.cache ≡ some c
        → Replaced s me room w (
            send_all
              (sockets (staying me room).0)
              (hall_packet (left_reply (leaver_info me) (staying me room).1))
              (record w {
                cache =
                    replace_room me.room_id
                      (room_after room (staying me room).0)
                      (set_role_info s set_idle c);
              }))
    kept_at c he = record {
      rooms = λ j.
          ap (find_entity_room j) (send_all-cache _ _ _)
          ∙ find_entity_room-replace_room j me.room_id _ _
          ∙ rw
              (
                find_entity_room-set_role_info j s set_idle c,
                promote_entity-rooms (staying me room).1 w.cache c j he,
                more,
              )
              refl;
      told = send_all-sent _ _ _ ∙ rw more refl;
    }

pub depart_found :
    (s : ℕ) (e : Entity) (room : RoomInfo) (w : World)
    → get_entity s w.cache ≡ some e
    → find_entity_room e.role_info.room_id w.cache ≡ some room
    → depart s w ≡ depart_room s e.role_info room w
unfolding depart
depart_found s e room w he hr = rw (he, ◌>>=◌, hr) refl

pub depart_room-Replaced :
    (s : ℕ) (me : PlayerInfo) (room : RoomInfo) (w w' : World)
    → depart_room s me room w ≡ some w'
    → Replaced s me room w w'
unfolding depart_room
depart_room-Replaced s me room w w' h = elim (Bool-cases (is_last room)) [
  | inl last ↦
      let k : some (on_cache (close_room s me.room_id) w) ≡ some w' = rw last at h in
      subst (Replaced s me room w) (some_inj k) (closed-Replaced s me room w last)
  | inr more ↦ kept-Replaced s me room w w' more (rw more at h)
]

pub depart-Replaced :
    (s : ℕ) (e : Entity) (room : RoomInfo) (w w' : World)
    → get_entity s w.cache ≡ some e
    → find_entity_room e.role_info.room_id w.cache ≡ some room
    → depart s w ≡ some w'
    → Replaced s e.role_info room w w'
depart-Replaced s e room w w' he hr h =
    depart_room-Replaced s e.role_info room w w' (sym (depart_found s e room w he hr) ∙ h)
