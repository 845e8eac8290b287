-- ===== src/Hall/Leave/Players.antt =====
-- What the clients' players hold after a departure.
use jira_game.Base.{
  >>=-eq-some, Bool, Bool-cases, List, Option, [], ap, arith, false, if◌then◌else◌, inl, inr,
  map_some, refl, none, some, some_inj, sym, true, ℕ, ◌==◌, ◌∙◌, ◌∷◌, ◌≡◌,
}
use jira_game.Proto.{PlayerInfo, RoomInfo}
use jira_game.World.{World, on_cache}
use jira_game.Cache.{Cache, Entity, create_room, get_entity, set_role_info}
use jira_game.Cache.Laws.{get_entity-remove_member, get_entity-set_role_info}
use jira_game.JiraEvent.Laws.{send_all-cache}
use jira_game.Hall.Leave.{
  close_room, depart_room, heir_list, leave_others, promote_entity, replace_room, set_idle, stayers,
  take_control,
}
use jira_game.Hall.Leave.Replaced.{is_last}

-- The entity of the socket j, where the player of one socket is changed.
abbrev pub at_socket : ℕ → ℕ → (PlayerInfo → PlayerInfo) → Entity → Entity
at_socket s j f e = if s == j then record e { role_info = f e.role_info } else e

abbrev pub take_charge : List PlayerInfo → ℕ → Entity → Entity
take_charge [] j e = e
take_charge (h ∷ hs) j e = at_socket h.socket j (λ p. record p { is_room_ctl = true }) e

map_some_same : (o : Option Entity) → map_some (λ e. e) o ≡ o
map_some_same none = refl
map_some_same (some e) = refl

map_some_twice :
    (f g : Entity → Entity) (o : Option Entity)
    → map_some g (map_some f o) ≡ map_some (λ e. g (f e)) o
map_some_twice f g none = refl
map_some_twice f g (some e) = refl

chosen_at :
    (here : Bool) (f : PlayerInfo → PlayerInfo) (o : Option Entity)
    → (if here then map_some (λ e. record e { role_info = f e.role_info }) o else o)
      ≡ map_some (λ e. if here then record e { role_info = f e.role_info } else e) o
chosen_at true f o = refl
chosen_at false f o = sym (map_some_same o)

set_at_socket :
    (j s : ℕ) (f : PlayerInfo → PlayerInfo) (c : Cache)
    → get_entity j (set_role_info s f c) ≡ map_some (at_socket s j f) (get_entity j c)
set_at_socket j s f c = get_entity-set_role_info j s f c ∙ chosen_at (s == j) f (get_entity j c)

get_entity-replace_room :
    (j id : ℕ) (room : RoomInfo) (c : Cache)
    → get_entity j (replace_room id room c) ≡ get_entity j c
unfolding replace_room create_room get_entity
get_entity-replace_room j id room c = ground (arith, get_entity-remove_member j id c)

promote_entity-players :
    (heir : Option PlayerInfo) (c c' : Cache) (j : ℕ)
    → promote_entity heir c ≡ some c'
    → get_entity j c' ≡ map_some (take_charge (heir_list heir) j) (get_entity j c)
unfolding promote_entity
promote_entity-players none c c' j h =
    ap (get_entity j) (sym (some_inj h)) ∙ sym (map_some_same (get_entity j c))
promote_entity-players (some p) c c' j h =
    let (_, _, e) = >>=-eq-some (get_entity p.socket c) _ h in
    ap (get_entity j) (sym (some_inj e)) ∙ set_at_socket j p.socket take_control c

leave_others-players :
    (s : ℕ) (me : PlayerInfo) (room : RoomInfo) (staying : List PlayerInfo)
    (heir : Option PlayerInfo) (w w' : World) (j : ℕ)
    → leave_others s me room staying heir w ≡ some w'
    → get_entity j w'.cache
      ≡ map_some
          (λ e. at_socket s j set_idle (take_charge (heir_list heir) j e))
          (get_entity j w.cache)
unfolding leave_others
leave_others-players s me room staying heir w w' j h =
    let (c, promoted, e) = >>=-eq-some (promote_entity heir w.cache) _ h in
    ap (λ v. get_entity j v.cache) (sym (some_inj e))
    ∙ ap (get_entity j) (send_all-cache _ _ _)
    ∙ get_entity-replace_room j me.room_id _ _
    ∙ set_at_socket j s set_idle c
    ∙ ap (map_some (at_socket s j set_idle)) (promote_entity-players heir w.cache c j promoted)
    ∙ map_some_twice (take_charge (heir_list heir) j) (at_socket s j set_idle)
        (get_entity j w.cache)

pub depart_room-players :
    (s : ℕ) (me : PlayerInfo) (room : RoomInfo) (w w' : World) (j : ℕ)
    → depart_room s me room w ≡ some w'
    → get_entity j w'.cache
      ≡ map_some
          (λ e. at_socket s j set_idle (
            if is_last room
            then e
            else take_charge (heir_list (stayers me.role_id me.is_room_ctl room.players).1) j e))
          (get_entity j w.cache)
unfolding depart_room close_room
depart_room-players s me room w w' j h = elim (Bool-cases (is_last room)) [
  | inl last ↦
      let k : some (on_cache (close_room s me.room_id) w) ≡ some w' = rw last at h in
      ap (λ v. get_entity j v.cache) (sym (some_inj k))
      ∙ set_at_socket j s set_idle _
      ∙ ap (map_some (at_socket s j set_idle)) (get_entity-remove_member j me.room_id w.cache)
      ∙ rw last refl
  | inr more ↦ leave_others-players s me room _ _ w w' j (rw more at h) ∙ rw more refl
]
