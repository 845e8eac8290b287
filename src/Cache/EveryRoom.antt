-- ===== src/Cache/EveryRoom.antt =====
-- A property of all rooms, with the id each is stored under, and the changes that keep it.
use jira_game.Base.{
  ==_iff, Bool-cases, Option, if◌then◌else◌, inl, inr, map_some, none, refl, some, some_inj, subst,
  ℕ, ◌==◌, ◌≡◌,
}
use jira_game.Proto.{PlayerInfo, RoomInfo}
use jira_game.Cache.{
  Cache, Entity, add_player, check_entity_room_is_only, create_room, entity_room_add_member,
  entity_room_remove_member, find_entity_room, modify_entity, modify_room, set_role_info,
}
use jira_game.Cache.Laws.{
  find_entity_room-create_room, find_entity_room-modify_room, find_entity_room-remove,
}

abbrev pub EveryRoom : (ℕ → RoomInfo → Type 0) → Cache → Type 0
EveryRoom P c = (id : ℕ) (room : RoomInfo) → find_entity_room id c ≡ some room → P id room

module _ (P : ℕ → RoomInfo → Type 0) where
  pub create_room-EveryRoom :
      (id : ℕ) (room : RoomInfo) (c : Cache)
      → P id room
      → EveryRoom P c
      → EveryRoom P (create_room id room c)
  create_room-EveryRoom id room c new old j r e =
      by_id (rw (find_entity_room-create_room j id room c) at e)
    where
      by_id :
          (if id == j
              then if check_entity_room_is_only id c then some room else find_entity_room j c
              else find_entity_room j c)
            ≡ some r
          → P j r
      by_id h = elim (Bool-cases (id == j)) [
        | inr other ↦ old j r (rw other at h)
        | inl same ↦ elim (Bool-cases (check_entity_room_is_only id c)) [
          | inr used ↦ old j r (rw (same, used) at h)
          | inl free ↦
              let h' : some room ≡ some r = rw (same, free) at h in
              subst (P j) (some_inj h') (subst (λ k. P k room) ((==_iff id j).0 same) new)
        ]
      ]

  pub remove-EveryRoom :
      (id : ℕ) (c : Cache) → EveryRoom P c → EveryRoom P (entity_room_remove_member id c)
  remove-EveryRoom id c old j r e = elim (Bool-cases (id == j)) [
    | inl same ↦
        let h : none ≡ some r = rw (find_entity_room-remove j id c, same) at e in absurd (cc h)
    | inr other ↦ old j r (rw (find_entity_room-remove j id c, other) at e)
  ]

  pub map_some-P :
      (j : ℕ) (f : RoomInfo → RoomInfo) (o : Option RoomInfo) (r : RoomInfo)
      → ((room : RoomInfo) → o ≡ some room → P j (f room))
      → map_some f o ≡ some r
      → P j r
  map_some-P j f none r keeps h = absurd (cc h)
  map_some-P j f (some room) r keeps h = subst (P j) (some_inj h) (keeps room refl)

  -- A change of one room that keeps the property there.
  pub modify_room-EveryRoom :
      (id : ℕ) (f : RoomInfo → RoomInfo) (c : Cache)
      → ((room : RoomInfo) → find_entity_room id c ≡ some room → P id (f room))
      → EveryRoom P c
      → EveryRoom P (modify_room id f c)
  modify_room-EveryRoom id f c keeps old j r e = elim (Bool-cases (id == j)) [
    | inl same ↦
        map_some-P j f (find_entity_room j c) r
          (subst (λ k. (room : RoomInfo) → find_entity_room k c ≡ some room → P k (f room))
            ((==_iff id j).0 same) keeps)
          (rw (find_entity_room-modify_room j id f c, same) at e)
    | inr other ↦ old j r (rw (find_entity_room-modify_room j id f c, other) at e)
  ]

  pub add_member-EveryRoom :
      (id : ℕ) (p : PlayerInfo) (c : Cache)
      → ((room : RoomInfo) → find_entity_room id c ≡ some room → P id (add_player p room))
      → EveryRoom P c
      → EveryRoom P (entity_room_add_member id p c)
  unfolding entity_room_add_member
  add_member-EveryRoom id p c keeps old =
      unfold modify_room in modify_room-EveryRoom id (add_player p) c keeps old

  pub set_role_info-EveryRoom :
      (s : ℕ) (f : PlayerInfo → PlayerInfo) (c : Cache)
      → EveryRoom P c
      → EveryRoom P (set_role_info s f c)
  unfolding set_role_info find_entity_room
  set_role_info-EveryRoom s f c old = old

  pub modify_entity-EveryRoom :
      (s : ℕ) (f : Entity → Entity) (c : Cache) → EveryRoom P c → EveryRoom P (modify_entity s f c)
  unfolding modify_entity find_entity_room
  modify_entity-EveryRoom s f c old = old
