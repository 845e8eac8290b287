-- ===== src/Cache.antt =====
-- DNW_Server/Server/Cache/Cache.cpp and the fields of DNW_Server/Server/ClientEntity: the rooms
-- and the client entities, each in a `std::map`. A method takes the cache and returns it changed.
-- The receive buffer of an entity is in Worker; the send buffer and the address, which carry bytes and
-- log text only, are left out.
pub mod Laws
pub mod EveryRoom
use jira_game.Base.{
  Bool, Dict, Option, Text, [], contains, erase, false, if◌then◌else◌, insert, lookup, modify, none,
  some, text_eq, true, ℕ, ◌++◌, ◌==◌, ◌∷◌,
}
use jira_game.Proto.{PlayerInfo, RoomInfo, default_player}

-- `CClientEntity`; `timer` is the address of `m_pTimeFuncArg`, if a timer was set.
pub record Entity : Type 0 where
  pub session_id : Text
  pub sock_client : ℕ
  pub thread_power : Bool
  pub has_thread : Bool
  pub delta_time : ℕ
  pub timer : Option ℕ
  pub send_msg_count : ℕ
  pub is_broken : Bool
  pub role_info : PlayerInfo

-- The constructor. `m_iSendMsgCount` is not set there; the heartbeat sets it before it is read.
unfoldable pub new_entity : ℕ → Entity
new_entity socket = record {
  session_id = [];
  sock_client = socket;
  thread_power = false;
  has_thread = false;
  delta_time = 0;
  timer = none;
  send_msg_count = 0;
  is_broken = false;
  role_info = default_player;
}

pub record Cache : Type 0 where
  pub rooms : Dict RoomInfo
  pub entities : Dict Entity

unfoldable pub check_entity_room_is_only : ℕ → Cache → Bool
check_entity_room_is_only id c = elim (lookup id c.rooms) [ none ↦ true | some _ ↦ false ]

unfoldable pub check_session_valid : ℕ → Text → Cache → Bool
check_session_valid socket session c = elim (lookup socket c.entities) [
  | none ↦ false
  | some e ↦ text_eq e.session_id session
]

unfoldable pub get_entity : ℕ → Cache → Option Entity
get_entity socket c = lookup socket c.entities

unfoldable pub erase_entity : ℕ → Cache → Cache
unfolding contains
erase_entity socket c =
    if contains socket c.entities then record c { entities = erase socket c.entities } else c

unfoldable pub set_entity : ℕ → Entity → Cache → Cache
unfolding contains
set_entity socket e c =
    if contains socket c.entities then c else record c { entities = insert socket e c.entities }

unfoldable pub entity_is_exist : ℕ → Cache → Bool
unfolding contains
entity_is_exist socket c = contains socket c.entities

unfoldable pub create_room : ℕ → RoomInfo → Cache → Cache
unfolding contains
create_room id room c =
    if contains id c.rooms then c else record c { rooms = insert id room c.rooms }

unfoldable pub find_entity_room : ℕ → Cache → Option RoomInfo
find_entity_room id c = lookup id c.rooms

-- The first entity, in the order of the sockets, that plays the role; 0 if there is none.
unfoldable pub socket_of_role : ℕ → Dict Entity → ℕ
socket_of_role user [] = 0
socket_of_role user ((s, e) ∷ es) =
    if e.role_info.role_id == user then e.sock_client else socket_of_role user es

unfoldable pub get_entity_socket : ℕ → Cache → ℕ
unfolding socket_of_role
get_entity_socket user c = socket_of_role user c.entities

abbrev pub add_player : PlayerInfo → RoomInfo → RoomInfo
add_player p room = record room { players = room.players ++ p ∷ [] }

unfoldable pub entity_room_add_member : ℕ → PlayerInfo → Cache → Cache
entity_room_add_member id p c = record c { rooms = modify id (add_player p) c.rooms }

unfoldable pub entity_room_remove_member : ℕ → Cache → Cache
unfolding contains
entity_room_remove_member id c =
    if contains id c.rooms then record c { rooms = erase id c.rooms } else c

-- A write through the pointer that `GetEntity(socket)->getRoleInfo()` returns.
unfoldable pub set_role_info : ℕ → (PlayerInfo → PlayerInfo) → Cache → Cache
set_role_info socket f c = record c {
  entities = modify socket (λ e. record e { role_info = f e.role_info }) c.entities;
}

-- A write through the pointer that `GetEntity(socket)` returns.
unfoldable pub modify_entity : ℕ → (Entity → Entity) → Cache → Cache
modify_entity socket f c = record c { entities = modify socket f c.entities }

-- A write through the pointer that `FindEntityRoom(id)` returns.
unfoldable pub modify_room : ℕ → (RoomInfo → RoomInfo) → Cache → Cache
modify_room id f c = record c { rooms = modify id f c.rooms }
