-- ===== src/Rooms/Changes.antt =====
-- A property of all rooms under the parts of the operations that change the rooms: what has to be
-- shown of the one room that an operation stores.
use jira_game.Base.{
  ==_iff, After, After->>=, Bool-cases, List, Option, ap, if◌then◌else◌, inl, inr, map_some, none,
  refl, some, some_inj, subst, sym, ℕ, ◌==◌, ◌∙◌, ◌≡◌,
}
use jira_game.Proto.{Packet, PlayerInfo, RoomInfo}
use jira_game.World.{World}
use jira_game.Cache.{
  Cache, add_player, entity_room_add_member, find_entity_room, get_entity, modify_room,
  set_role_info,
}
use jira_game.Cache.EveryRoom.{
  EveryRoom, create_room-EveryRoom, remove-EveryRoom, set_role_info-EveryRoom,
}
use jira_game.Cache.Laws.{
  find_entity_room-add_member, find_entity_room-modify_room, find_entity_room-set_role_info,
}
use jira_game.JiraEvent.{send_all, send_msg}
use jira_game.JiraEvent.Laws.{send_all-cache, send_msg-cache}
use jira_game.Hall.RoomId.Fresh.{Generated}
use jira_game.Hall.Leave.{close_room, promote_entity, replace_room}
use jira_game.Hall.Join.{less_free, promote_checked}

module _ (P : ℕ → RoomInfo → Type 0) where
  abbrev pub Rooms : World → Type 0
  Rooms w = EveryRoom P w.cache

  pub sent_msg : (s : ℕ) (p : Packet) (w : World) → Rooms w → Rooms (send_msg s p w)
  sent_msg s p w h = subst (EveryRoom P) (sym (send_msg-cache s p w)) h

  pub sent_all : (ss : List ℕ) (p : Packet) (w : World) → Rooms w → Rooms (send_all ss p w)
  sent_all ss p w h = subst (EveryRoom P) (sym (send_all-cache ss p w)) h

  pub drawn-Rooms : (w : World) {r : ℕ × World} → Generated w r → Rooms w → Rooms r.1
  drawn-Rooms w g h = subst Rooms (sym g.only_draws.1) h

  pub replace_room-EveryRoom :
      (id : ℕ) (room : RoomInfo) (c : Cache)
      → P id room
      → EveryRoom P c
      → EveryRoom P (replace_room id room c)
  unfolding replace_room
  replace_room-EveryRoom id room c ok h =
      create_room-EveryRoom P id room _ ok (remove-EveryRoom P id c h)

  pub close_room-EveryRoom :
      (s id : ℕ) (c : Cache) → EveryRoom P c → EveryRoom P (close_room s id c)
  unfolding close_room
  close_room-EveryRoom s id c h = set_role_info-EveryRoom P s _ _ (remove-EveryRoom P id c h)

  pub promote_entity-EveryRoom :
      (heir : Option PlayerInfo) (c : Cache)
      → EveryRoom P c
      → After (EveryRoom P) (promote_entity heir c)
  unfolding promote_entity
  promote_entity-EveryRoom none c h = h
  promote_entity-EveryRoom (some p) c h =
      After->>= (EveryRoom P) (get_entity p.socket c) _
        λ _ _. set_role_info-EveryRoom P p.socket _ c h

  pub promote_checked-EveryRoom :
      (heir : Option PlayerInfo) (c : Cache) → EveryRoom P c → EveryRoom P (promote_checked heir c)
  unfolding promote_checked
  promote_checked-EveryRoom none c h = h
  promote_checked-EveryRoom (some p) c h = set_role_info-EveryRoom P p.socket _ c h

-- The changes of the cache by which a player enters a room replace that room, and no other.
pub find_entity_room-enter :
    (j s id : ℕ) (room : RoomInfo) (p : PlayerInfo) (f : PlayerInfo → PlayerInfo) (c : Cache)
    → find_entity_room id c ≡ some room
    → find_entity_room j
        (entity_room_add_member id p (set_role_info s f (modify_room id less_free c)))
      ≡ (if id == j then some (add_player p (less_free room)) else find_entity_room j c)
find_entity_room-enter j s id room p f c found =
    let stage = modify_room id less_free c in
    let reads =
      find_entity_room-set_role_info j s f stage ∙ find_entity_room-modify_room j id less_free c in
    find_entity_room-add_member j id p (set_role_info s f stage) ∙ by_id reads
  where
    by_id :
        find_entity_room j (set_role_info s f (modify_room id less_free c))
          ≡ (if id == j then map_some less_free (find_entity_room j c) else find_entity_room j c)
        → (if id == j
            then map_some
                (add_player p)
                (find_entity_room j (set_role_info s f (modify_room id less_free c)))
            else find_entity_room j (set_role_info s f (modify_room id less_free c)))
          ≡ (if id == j then some (add_player p (less_free room)) else find_entity_room j c)
    by_id reads = elim (Bool-cases (id == j)) [
      | inl same ↦
          rw (reads, same, sym (ap (λ k. find_entity_room k c) ((==_iff id j).0 same)) ∙ found) refl
      | inr other ↦ rw (reads, other) refl
    ]

module _ (P : ℕ → RoomInfo → Type 0) where
  pub enter-EveryRoom :
      (s id : ℕ) (room : RoomInfo) (p : PlayerInfo) (f : PlayerInfo → PlayerInfo) (c : Cache)
      → find_entity_room id c ≡ some room
      → P id (add_player p (less_free room))
      → EveryRoom P c
      → EveryRoom P (entity_room_add_member id p (set_role_info s f (modify_room id less_free c)))
  enter-EveryRoom s id room p f c found new old j r e = elim (Bool-cases (id == j)) [
    | inl same ↦
        let h : some (add_player p (less_free room)) ≡ some r =
          rw (find_entity_room-enter j s id room p f c found, same) at e in
        subst (P j) (some_inj h)
          (subst (λ k. P k (add_player p (less_free room))) ((==_iff id j).0 same) new)
    | inr other ↦ old j r (rw (find_entity_room-enter j s id room p f c found, other) at e)
  ]
