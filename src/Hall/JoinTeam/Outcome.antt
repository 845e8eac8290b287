-- ===== src/Hall/JoinTeam/Outcome.antt =====
-- What accepting an invitation comes to.
use jira_game.Base.{
  ==_refl, Bool-cases, List, [], ap, arith, dec32, false, inl, inr, none, refl, some, suc, true, ℕ,
  ◌++◌, ◌>>=◌, ◌∙◌, ◌∷◌, ◌≡◌,
}
use jira_game.Proto.{HallRequest, PlayerInfo, RoomInfo, TeamType, empty_hall_return}
use jira_game.World.{World}
use jira_game.Cache.{Entity, add_player, find_entity_room, get_entity}
use jira_game.JiraEvent.{send_all}
use jira_game.JiraEvent.Laws.{deliveries, send_all-cache, send_all-sent}
use jira_game.Hall.Replies.{hall_packet}
use jira_game.Hall.Seats.Idle.{is_idle}
use jira_game.Hall.Join.{less_free}
use jira_game.Hall.JoinTeam.{
  accept_seat, has_seat, invited, join_team, member_info, members_but, others_first,
}
use jira_game.Rooms.Roles.{count_role}
use jira_game.Rooms.Changes.{find_entity_room-enter}
use jira_game.Rooms.WellFormed.{has_seat-same_team}

-- The loop finishes wherever nobody has the seat.
members_but_idle :
    (team : TeamType) (seat : ℕ) (ps : List PlayerInfo)
    → is_idle team seat ps ≡ true
    → (ms : List PlayerInfo) × (members_but team seat ps ≡ some ms)
unfolding members_but
members_but_idle team seat [] h = ([], refl)
members_but_idle team seat (p ∷ ps) h =
    let taken : has_seat team seat p ≡ false = ground (arith, has_seat-same_team team seat p) in
    let (ms, e) = members_but_idle team seat ps (ground arith) in
    (member_info p ∷ ms, rw (taken, e) refl)

members_but_taken :
    (team : TeamType) (seat : ℕ) (ps : List PlayerInfo)
    → is_idle team seat ps ≡ false
    → members_but team seat ps ≡ none
unfolding members_but
members_but_taken team seat [] h = absurd (cc h)
members_but_taken team seat (p ∷ ps) h = elim (Bool-cases (has_seat team seat p)) [
  | inl taken ↦ rw taken
  | inr other ↦
      rw (other, members_but_taken team seat ps (ground (arith, has_seat-same_team team seat p)))
]

-- Where a member has the seat that the invitation names, no room and no entity changes, and every
-- other member and then the player is sent an empty reply.
pub join_team_taken :
    (s : ℕ) (req : HallRequest) (w : World) (room : RoomInfo)
    → find_entity_room req.invite_info.room_id w.cache ≡ some room
    → is_idle req.invite_info.team req.invite_info.team_id room.players ≡ false
    → (w' : World) × (join_team s req w ≡ some w')
      × (w'.cache ≡ w.cache)
      × (w'.sent
          ≡ w.sent
            ++ deliveries w.listeners (hall_packet empty_hall_return) (others_first s room.players))
unfolding join_team
join_team_taken s req w room found taken = (
  send_all (others_first s room.players) (hall_packet empty_hall_return) w,
  rw (found, ◌>>=◌, members_but_taken _ _ room.players taken) refl,
  send_all-cache _ _ w,
  send_all-sent _ _ w,
)

-- Where the invitation names a room that is not there, the server ends by reading through a null
-- pointer.
pub join_team_missing :
    (s : ℕ) (req : HallRequest) (w : World)
    → find_entity_room req.invite_info.room_id w.cache ≡ none
    → join_team s req w ≡ none
unfolding join_team
join_team_missing s req w missing = rw missing

count_role-append :
    (role : ℕ) (ps : List PlayerInfo) (p : PlayerInfo)
    → p.role_id ≡ role
    → count_role role (ps ++ p ∷ []) ≡ suc (count_role role ps)
count_role-append role [] p e = ground arith
count_role-append role (q ∷ qs) p e = ground (arith, count_role-append role qs p)

-- Whether the player is in the room already is not looked at: on an idle seat the player is put
-- into the room once more, whatever the number of the seat, and a place is taken off the free ones.
pub join_team_again :
    (s : ℕ) (req : HallRequest) (w : World) (e : Entity) (room : RoomInfo)
    → find_entity_room req.invite_info.room_id w.cache ≡ some room
    → get_entity s w.cache ≡ some e
    → is_idle req.invite_info.team req.invite_info.team_id room.players ≡ true
    → (w' : World) × (room' : RoomInfo) × (join_team s req w ≡ some w')
      × (find_entity_room req.invite_info.room_id w'.cache ≡ some room')
      × (count_role e.role_info.role_id room'.players
          ≡ suc (count_role e.role_info.role_id room.players))
      × (room'.free_person_count ≡ dec32 room.free_person_count)
unfolding join_team accept_seat invited
join_team_again s req w e room found he free =
    let (ms, loop) = members_but_idle _ _ room.players free in
    let id = req.invite_info.room_id in
    let seat : TeamType × ℕ = (req.invite_info.team, req.invite_info.team_id) in
    let new = invited s e.role_info seat in
    (
      accept_seat s id e.role_info room seat ms w,
      add_player new (less_free room),
      rw (found, ◌>>=◌, loop, he) refl,
      ap (find_entity_room id) (send_all-cache _ _ _)
          ∙ find_entity_room-enter id s id room new _ w.cache found
          ∙ rw (==_refl id) refl,
      count_role-append e.role_info.role_id room.players new refl,
      refl,
    )
