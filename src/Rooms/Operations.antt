-- ===== src/Rooms/Operations.antt =====
-- A property of all rooms under the messages of the hall.
use jira_game.Base.{
  After, After->>=, After-if, After-some, Bool-cases, List, Option, Option-cases, false, inc32, inl,
  inr, none, some, ℕ, ◌==◌, ◌≡◌,
}
use jira_game.Proto.{HallMsgType, HallRequest, PlayerInfo, RoomInfo, TeamType}
use jira_game.World.{World}
use jira_game.Cache.{Entity, add_player, find_entity_room, get_entity}
use jira_game.Cache.EveryRoom.{EveryRoom, create_room-EveryRoom, set_role_info-EveryRoom}
use jira_game.Hall.RoomId.{genrate_only_room_id}
use jira_game.Hall.RoomId.Fresh.{genrate_only_room_id-Generated}
use jira_game.Hall.Seats.{first_seat, idle_seats}
use jira_game.Hall.Create.{first_member, found_room, new_room}
use jira_game.Hall.Leave.{depart, depart_room, leave_others, promote_entity, room_after, stayers}
use jira_game.Hall.Join.{find_role, joiner, less_free, rejoin, remaining}
use jira_game.Hall.JoinTeam.{invited, members_but}
use jira_game.Rooms.Changes.{
  Rooms, close_room-EveryRoom, drawn-Rooms, promote_checked-EveryRoom, promote_entity-EveryRoom,
  replace_room-EveryRoom, sent_all, sent_msg,
}

-- What has to be shown of the rooms that the operations store, for a request of a client in a world
-- and the type of its message.
pub record Stores (P : ℕ → RoomInfo → Type 0) (s : ℕ) (req : HallRequest) (w : World)
    (m : HallMsgType) : Type 0 where
  pub created : (id : ℕ) (me : PlayerInfo) → P id (new_room id req (first_member s me))
  pub left :
      (e : Entity) (room : RoomInfo)
      → get_entity s w.cache ≡ some e
      → find_entity_room e.role_info.room_id w.cache ≡ some room
      → P e.role_info.room_id
          (room_after room (stayers e.role_info.role_id e.role_info.is_room_ctl room.players).0)
  pub rejoined :
      (id : ℕ) (room : RoomInfo) (mine : PlayerInfo)
      → find_entity_room id w.cache ≡ some room
      → find_role mine.role_id room.players ≡ some mine
      → P room.room_id (room_after room (remaining mine.role_id false false room.players).0)
  pub seated :
      (id : ℕ) (me : PlayerInfo) (room : RoomInfo) (seat : TeamType × ℕ)
      → find_entity_room id w.cache ≡ some room
      → find_role me.role_id room.players ≡ none
      → first_seat (idle_seats room.players) ≡ some seat
      → P id (add_player (joiner s room me seat) (less_free room))
  pub accepted :
      (e : Entity) (room : RoomInfo) (ms : List PlayerInfo)
      → m ≡ HallMsgType.join_team
      → get_entity s w.cache ≡ some e
      → find_entity_room req.invite_info.room_id w.cache ≡ some room
      → members_but req.invite_info.team req.invite_info.team_id room.players ≡ some ms
      → P req.invite_info.room_id (
          add_player
            (invited s e.role_info (req.invite_info.team, req.invite_info.team_id))
            (less_free room))

module _ (P : ℕ → RoomInfo → Type 0) where
  pub found_room-Rooms :
      (s : ℕ) (req : HallRequest) (me : PlayerInfo) (w : World)
      → ((id : ℕ) → P id (new_room id req (first_member s me)))
      → Rooms P w
      → After (Rooms P) (found_room s req me w)
  unfolding found_room
  found_room-Rooms s req me w new h = After->>= (Rooms P) (genrate_only_room_id w.stack w) _ λ r e.
      sent_msg P s _ _ (
        set_role_info-EveryRoom P s _ _ (
          create_room-EveryRoom P r.0 _ _ (new r.0)
            (drawn-Rooms P w (genrate_only_room_id-Generated w.stack w e) h)))

  leave_others-Rooms :
      (s : ℕ) (me : PlayerInfo) (room : RoomInfo) (qs : List PlayerInfo) (heir : Option PlayerInfo)
      (w : World)
      → P me.room_id (room_after room qs)
      → Rooms P w
      → After (Rooms P) (leave_others s me room qs heir w)
  unfolding leave_others
  leave_others-Rooms s me room qs heir w new h =
      After->>= (Rooms P) (promote_entity heir w.cache) _ λ c e. sent_all P _ _ _ (
        replace_room-EveryRoom P me.room_id _ _ new (
          set_role_info-EveryRoom P s _ c
            (After-some (EveryRoom P) _ (promote_entity-EveryRoom P heir w.cache h) e)))

  pub depart-Rooms :
      (s : ℕ) (w : World)
      → ((e : Entity) (room : RoomInfo)
          → get_entity s w.cache ≡ some e
          → find_entity_room e.role_info.room_id w.cache ≡ some room
          → P e.role_info.room_id (
              room_after room (stayers e.role_info.role_id e.role_info.is_room_ctl room.players).0))
      → Rooms P w
      → After (Rooms P) (depart s w)
  unfolding depart depart_room
  depart-Rooms s w left h = After->>= (Rooms P) (get_entity s w.cache) _ λ e he.
      elim (Option-cases (find_entity_room e.role_info.room_id w.cache)) [
        | inl missing ↦ rw missing h
        | inr (room, found) ↦ rw found (
            After-if (Rooms P) (room.person_count == inc32 room.free_person_count) _ _
              (λ _. close_room-EveryRoom P s e.role_info.room_id w.cache h)
              (λ _. leave_others-Rooms s e.role_info room _ _ w (left e room he found) h))
      ]

  pub rejoin-Rooms :
      (s : ℕ) (mine : PlayerInfo) (room : RoomInfo) (w : World)
      → P room.room_id (room_after room (remaining mine.role_id false false room.players).0)
      → Rooms P w
      → Rooms P (rejoin s mine room w)
  unfolding rejoin
  rejoin-Rooms s mine room w new h =
      elim (Bool-cases (room.person_count == inc32 room.free_person_count)) [
        | inl last ↦ rw last (close_room-EveryRoom P s room.room_id w.cache h)
        | inr others ↦ rw others (
            set_role_info-EveryRoom P s _ _ (
              sent_all P _ _ _ (
                replace_room-EveryRoom P room.room_id _ _ new
                  (promote_checked-EveryRoom P _ w.cache h))))
      ]
