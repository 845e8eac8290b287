-- ===== src/Cache/Laws.antt =====
-- What the lookups of the cache see after each of its changes.
use jira_game.Base.{
  arith, if◌then◌else◌, lookup-erase, lookup-insert, lookup-modify, map_some, none, refl, some, ℕ,
  ◌==◌, ◌≡◌,
}
use jira_game.Proto.{PlayerInfo, RoomInfo}
use jira_game.Cache.{
  Cache, Entity, add_player, check_entity_room_is_only, create_room, entity_room_add_member,
  entity_room_remove_member, erase_entity, find_entity_room, get_entity, modify_entity, modify_room,
  set_entity, set_role_info,
}

-- A room that is created under a free id is found there, under a used id it is not stored, and
-- every other id still leads where it did.
pub find_entity_room-create_room :
    (j id : ℕ) (room : RoomInfo) (c : Cache)
    → find_entity_room j (create_room id room c) ≡ (
        if id == j
        then if check_entity_room_is_only id c then some room else find_entity_room j c
        else find_entity_room j c)
unfolding find_entity_room create_room check_entity_room_is_only
find_entity_room-create_room j id room c = ground (arith, lookup-insert j id room c.rooms)

pub find_entity_room-remove :
    (j id : ℕ) (c : Cache)
    → find_entity_room j (entity_room_remove_member id c)
      ≡ (if id == j then none else find_entity_room j c)
unfolding find_entity_room entity_room_remove_member
find_entity_room-remove j id c = ground (arith, lookup-erase j id c.rooms)

pub find_entity_room-add_member :
    (j id : ℕ) (p : PlayerInfo) (c : Cache)
    → find_entity_room j (entity_room_add_member id p c)
      ≡ (if id == j then map_some (add_player p) (find_entity_room j c) else find_entity_room j c)
unfolding find_entity_room entity_room_add_member
find_entity_room-add_member j id p c = lookup-modify j id (add_player p) c.rooms

pub find_entity_room-modify_room :
    (j id : ℕ) (f : RoomInfo → RoomInfo) (c : Cache)
    → find_entity_room j (modify_room id f c)
      ≡ (if id == j then map_some f (find_entity_room j c) else find_entity_room j c)
unfolding find_entity_room modify_room
find_entity_room-modify_room j id f c = lookup-modify j id f c.rooms

pub get_entity-set_role_info :
    (j s : ℕ) (f : PlayerInfo → PlayerInfo) (c : Cache)
    → get_entity j (set_role_info s f c) ≡ (
        if s == j
        then map_some (λ e. record e { role_info = f e.role_info }) (get_entity j c)
        else get_entity j c)
unfolding get_entity set_role_info
get_entity-set_role_info j s f c = lookup-modify j s _ c.entities

pub get_entity-set_entity :
    (j s : ℕ) (e : Entity) (c : Cache)
    → get_entity j (set_entity s e c) ≡ (
        if s == j
        then elim (get_entity j c) [ none ↦ some e | some old ↦ some old ]
        else get_entity j c)
unfolding get_entity set_entity
get_entity-set_entity j s e c = ground (arith, lookup-insert j s e c.entities)

pub get_entity-erase_entity :
    (j s : ℕ) (c : Cache)
    → get_entity j (erase_entity s c) ≡ (if s == j then none else get_entity j c)
unfolding get_entity erase_entity
get_entity-erase_entity j s c = ground (arith, lookup-erase j s c.entities)

pub find_entity_room-set_role_info :
    (j s : ℕ) (f : PlayerInfo → PlayerInfo) (c : Cache)
    → find_entity_room j (set_role_info s f c) ≡ find_entity_room j c
unfolding find_entity_room set_role_info
find_entity_room-set_role_info j s f c = refl

pub get_entity-remove_member :
    (j id : ℕ) (c : Cache) → get_entity j (entity_room_remove_member id c) ≡ get_entity j c
unfolding get_entity entity_room_remove_member
get_entity-remove_member j id c = ground (arith)

pub get_entity-modify_entity :
    (j s : ℕ) (f : Entity → Entity) (c : Cache)
    → get_entity j (modify_entity s f c)
      ≡ (if s == j then map_some f (get_entity j c) else get_entity j c)
unfolding get_entity modify_entity
get_entity-modify_entity j s f c = lookup-modify j s f c.entities

pub find_entity_room-erase_entity :
    (j s : ℕ) (c : Cache) → find_entity_room j (erase_entity s c) ≡ find_entity_room j c
unfolding find_entity_room erase_entity
find_entity_room-erase_entity j s c = ground (arith)

pub find_entity_room-set_entity :
    (j s : ℕ) (e : Entity) (c : Cache)
    → find_entity_room j (set_entity s e c) ≡ find_entity_room j c
unfolding find_entity_room set_entity
find_entity_room-set_entity j s e c = ground arith
