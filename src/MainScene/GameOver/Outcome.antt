-- ===== src/MainScene/GameOver/Outcome.antt =====
-- What the end of a game leaves.
use jira_game.Base.{
  ==_refl, >>=-eq-some, All, All-map, Bool-cases, List, Option, Option-cases, [], ap, inl, inr,
  map_some, none, refl, some, some_inj, subst, sym, ℕ, ◌==◌, ◌>>=◌, ◌∙◌, ◌∷◌, ◌≡◌,
}
use jira_game.Proto.{PlayerInfo, RoomInfo}
use jira_game.World.{World}
use jira_game.Cache.{
  Cache, Entity, entity_room_remove_member, find_entity_room, get_entity, set_role_info,
}
use jira_game.Cache.Laws.{
  find_entity_room-remove, get_entity-remove_member, get_entity-set_role_info,
}
use jira_game.MainScene.GameOver.{game_over, out_of_room, reset_members}

-- The entity of a socket, where there is one, names no room.
abbrev pub Released : ℕ → Cache → Type 0
Released s c = (e : Entity) → get_entity s c ≡ some e → e.role_info.room_id ≡ 0

Released-set : (j s : ℕ) (c : Cache) → Released j c → Released j (set_role_info s out_of_room c)
Released-set j s c h e he = elim (Bool-cases (s == j)) [
  | inl same ↦ of_map (get_entity j c) (rw (get_entity-set_role_info j s out_of_room c, same) at he)
  | inr other ↦ h e (rw (get_entity-set_role_info j s out_of_room c, other) at he)
]
  where
    of_map :
        (o : Option Entity)
        → map_some (λ e. record e { role_info = out_of_room e.role_info }) o ≡ some e
        → e.role_info.room_id ≡ 0
    of_map none k = absurd (cc k)
    of_map (some e') k = ap (λ v. v.role_info.room_id) (sym (some_inj k))

Released-self : (s : ℕ) (c : Cache) → Released s (set_role_info s out_of_room c)
Released-self s c e he =
    of_map (get_entity s c) (rw (get_entity-set_role_info s s out_of_room c, ==_refl s) at he)
  where
    of_map :
        (o : Option Entity)
        → map_some (λ e. record e { role_info = out_of_room e.role_info }) o ≡ some e
        → e.role_info.room_id ≡ 0
    of_map none k = absurd (cc k)
    of_map (some e') k = ap (λ v. v.role_info.room_id) (sym (some_inj k))

reset_members_keeps :
    (j : ℕ) (ps : List PlayerInfo) (c : Cache) {c' : Cache}
    → reset_members ps c ≡ some c'
    → Released j c
    → Released j c'
unfolding reset_members
reset_members_keeps j [] c h r = subst (Released j) (some_inj h) r
reset_members_keeps j (p ∷ ps) c h r = elim (Option-cases (get_entity p.socket c)) [
  | inl missing ↦ let no : none ≡ some _ = rw (missing, reset_members) at h in absurd (cc no)
  | inr (e, found) ↦
      reset_members_keeps j ps (set_role_info p.socket out_of_room c)
        (rw (found, reset_members) at h) (Released-set j p.socket c r)
]

reset_members-Released :
    (ps : List PlayerInfo) (c : Cache) {c' : Cache}
    → reset_members ps c ≡ some c'
    → All (λ p. Released p.socket c') ps
unfolding reset_members
reset_members-Released [] c h = tt
reset_members-Released (p ∷ ps) c {c'} h = elim (Option-cases (get_entity p.socket c)) [
  | inl missing ↦ let no : none ≡ some c' = rw (missing, reset_members) at h in absurd (cc no)
  | inr (e, found) ↦
      let rest : reset_members ps (set_role_info p.socket out_of_room c) ≡ some c' =
        rw (found, reset_members) at h in
      (
        reset_members_keeps p.socket ps _ rest (Released-self p.socket c),
        reset_members-Released ps _ rest,
      )
]

Released-remove :
    (j id : ℕ) (c : Cache) → Released j c → Released j (entity_room_remove_member id c)
Released-remove j id c h e he = h e (sym (get_entity-remove_member j id c) ∙ he)

-- A game that ends without a fault, for a client whose `PlayerInfo` names a room: the room is gone,
-- no member's entity names a room any more, and nothing is sent.
pub game_over-Released :
    (s : ℕ) (w w' : World) (e : Entity) (room : RoomInfo)
    → get_entity s w.cache ≡ some e
    → find_entity_room e.role_info.room_id w.cache ≡ some room
    → game_over s w ≡ some w'
    → (find_entity_room e.role_info.room_id w'.cache ≡ none)
      × All (λ p. Released p.socket w'.cache) room.players
      × (w'.sent ≡ w.sent)
unfolding game_over
game_over-Released s w w' e room he hr h =
    let id = e.role_info.room_id in
    let h' : (reset_members room.players w.cache >>= λ c.
    some (record w { cache = entity_room_remove_member id c }))
        ≡ some w' =
      rw (he, ◌>>=◌, hr) at h in
    let (c, hc, k) = >>=-eq-some (reset_members room.players w.cache) _ h' in
    (
      ap (λ v. find_entity_room id v.cache) (sym (some_inj k))
          ∙ rw (find_entity_room-remove id id c, ==_refl id) refl,
      subst (λ v. All (λ p. Released p.socket v.cache) room.players) (some_inj k)
          (All-map (λ p. Released-remove p.socket id c) room.players
            (reset_members-Released room.players w.cache hc)),
      ap (λ v. v.sent) (sym (some_inj k)),
    )
