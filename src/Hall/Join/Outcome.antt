-- ===== src/Hall/Join/Outcome.antt =====
-- What `JoinRoom` comes to for a player who is not in the room.
use jira_game.Base.{
  Option, [], ap, dec32, if◌then◌else◌, is_empty, lookup-modify, map_some, none, refl, some, ℕ,
  ◌++◌, ◌==◌, ◌>>=◌, ◌∙◌, ◌∷◌, ◌≡◌,
}
use jira_game.Proto.{
  HallMsgType, HallRequest, PlayerInfo, RoomInfo, TeamType, default_player, empty_hall_return,
  rt_join_room,
}
use jira_game.World.{World}
use jira_game.Cache.{
  Cache, Entity, entity_room_add_member, find_entity_room, get_entity, modify_room, set_role_info,
}
use jira_game.JiraEvent.Laws.{deliveries, send_all-cache, send_all-sent}
use jira_game.Hall.Replies.{hall_packet, sockets}
use jira_game.Hall.Seats.{first_seat, idle_seats}
use jira_game.Hall.Seats.Idle.{first_seat-idle_seats, free_seat}
use jira_game.Hall.Join.{
  enter_joined, enter_room, find_role, join_room, joined_reply, joiner, less_free, take_seat,
}
use jira_game.Rooms.Changes.{find_entity_room-enter}

-- What the room holds of a player on a seat.
abbrev seated_member : ℕ → PlayerInfo → RoomInfo → TeamType × ℕ → PlayerInfo
seated_member s me room seat = record default_player {
  socket = s;
  role_id = me.role_id;
  role_type = me.role_type;
  name = me.name;
  team = seat.0;
  team_id = seat.1;
  room_state = rt_join_room;
  room_id = room.room_id;
}

-- The player's own entity, which names the room and the seat.
abbrev seated_entity : RoomInfo → TeamType × ℕ → Entity → Entity
seated_entity room seat e = record e {
  role_info = record e.role_info {
    team = seat.0;
    team_id = seat.1;
    room_state = rt_join_room;
    room_id = room.room_id;
  };
}

-- The world after a player has taken a seat: the room has the player as its last member and one free
-- place less, the player's own `PlayerInfo` names the room and the seat, no other room and no other
-- entity is touched, and the reply with all members has gone to every member that has an observer.
pub record Seated (s id : ℕ) (me : PlayerInfo) (room : RoomInfo) (seat : TeamType × ℕ)
    (w w' : World) : Type 0 where
  pub rooms :
      (j : ℕ)
      → find_entity_room j w'.cache ≡ (
          if id == j
          then some (record room {
            free_person_count = dec32 room.free_person_count;
            players = room.players ++ seated_member s me room seat ∷ [];
          })
          else find_entity_room j w.cache)
  pub entities :
      (j : ℕ)
      → get_entity j w'.cache ≡ (
          if s == j
          then map_some (seated_entity room seat) (get_entity j w.cache)
          else get_entity j w.cache)
  pub told :
      let members = room.players ++ seated_member s me room seat ∷ [] in
      let reply = record empty_hall_return {
        msg_type = some HallMsgType.join_team;
        room_id = some room.room_id;
        room_name = some room.room_name;
        friend_list = members;
      } in
      w'.sent ≡ w.sent ++ deliveries w.listeners (hall_packet reply) (sockets members)

join_room_found :
    (s : ℕ) (req : HallRequest) (w : World) (e : Entity) (room : RoomInfo)
    → find_entity_room req.invite_info.room_id w.cache ≡ some room
    → get_entity s w.cache ≡ some e
    → join_room s req w ≡ enter_room s req.invite_info.room_id e.role_info room w
unfolding join_room
join_room_found s req w e room found he = rw (found, join_room, he) refl

enter_room_new :
    (s id : ℕ) (me : PlayerInfo) (room : RoomInfo) (w : World)
    → find_role me.role_id room.players ≡ none
    → enter_room s id me room w ≡ (
        if is_empty (idle_seats room.players)
        then some w
        else (first_seat (idle_seats room.players) >>= λ seat.
            some (take_seat s id me room seat w)))
unfolding enter_room
enter_room_new s id me room w new = rw (new, enter_room) refl

entity_after :
    (j s id : ℕ) (p : PlayerInfo) (f : PlayerInfo → PlayerInfo) (c : Cache)
    → get_entity j (entity_room_add_member id p (set_role_info s f (modify_room id less_free c)))
      ≡ (if s == j
          then map_some (λ e. record e { role_info = f e.role_info }) (get_entity j c)
          else get_entity j c)
unfolding get_entity entity_room_add_member set_role_info modify_room
entity_after j s id p f c = lookup-modify j s _ c.entities

take_seat-Seated :
    (s id : ℕ) (me : PlayerInfo) (room : RoomInfo) (seat : TeamType × ℕ) (w : World)
    → find_entity_room id w.cache ≡ some room
    → Seated s id me room seat w (take_seat s id me room seat w)
unfolding take_seat joiner enter_joined joined_reply
take_seat-Seated s id me room seat w found = record {
  rooms = λ j.
      ap (find_entity_room j) (send_all-cache _ _ _)
      ∙ find_entity_room-enter j s id room _ _ w.cache found;
  entities = λ j. ap (get_entity j) (send_all-cache _ _ _) ∙ entity_after j s id _ _ w.cache;
  told = send_all-sent _ _ _;
}

-- What becomes of a newcomer, by the first idle seat.
abbrev pub Joined : ℕ → ℕ → PlayerInfo → RoomInfo → Option (TeamType × ℕ) → World → World → Type 0
Joined s id me room none w w' = w' ≡ w
Joined s id me room (some seat) w w' = Seated s id me room seat w w'

seat_tests :
    (s id : ℕ) (me : PlayerInfo) (room : RoomInfo) (w : World) (o : Option (TeamType × ℕ))
    → free_seat room.players ≡ o
    → find_entity_room id w.cache ≡ some room
    → (w' : World) × ((if is_empty (idle_seats room.players)
          then some w
          else (first_seat (idle_seats room.players) >>= λ seat.
              some (take_seat s id me room seat w)))
        ≡ some w')
      × Joined s id me room o w w'
seat_tests s id me room w none full found =
    (w, rw ((first_seat-idle_seats room.players).1, full) refl, refl)
seat_tests s id me room w (some seat) free found = (
  take_seat s id me room seat w,
  rw ((first_seat-idle_seats room.players).1, (first_seat-idle_seats room.players).0, free) refl,
  take_seat-Seated s id me room seat w found,
)

-- For a client whose role is not in the room that it asks for, `JoinRoom` returns. If all six seats
-- are taken, nothing changes and nothing is sent. Otherwise the player is on the first idle seat,
-- team A before team B and by number within a team, and `Seated` says what has changed.
pub join_room_new :
    (s : ℕ) (req : HallRequest) (w : World) (e : Entity) (room : RoomInfo)
    → find_entity_room req.invite_info.room_id w.cache ≡ some room
    → get_entity s w.cache ≡ some e
    → find_role e.role_info.role_id room.players ≡ none
    → (w' : World) × (join_room s req w ≡ some w')
      × Joined s req.invite_info.room_id e.role_info room (free_seat room.players) w w'
join_room_new s req w e room found he new =
    let id = req.invite_info.room_id in
    let (w', returned, joined) =
      seat_tests s id e.role_info room w (free_seat room.players) refl found in
    (
      w',
      join_room_found s req w e room found he
          ∙ enter_room_new s id e.role_info room w new
          ∙ returned,
      joined,
    )
