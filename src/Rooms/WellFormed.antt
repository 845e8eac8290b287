-- ===== src/Rooms/WellFormed.antt =====
-- Well-formed rooms, under the messages of the hall.
use jira_game.Base.{
  >>=-eq-some, After-if, After-some, Bool-cases, List, [], ap, false, inl, inr, none, refl, some,
  sym, true, ℕ, ◌&&◌, ◌==◌, ◌>>=◌, ◌∙◌, ◌∷◌, ◌≡◌,
}
use jira_game.Proto.{HallRequest, PlayerInfo, RoomInfo, TeamType, team_a, team_b}
use jira_game.World.{World}
use jira_game.Cache.{add_player, check_session_valid}
use jira_game.Hall.Seats.{team_key}
use jira_game.Hall.Seats.Idle.{is_idle, same_team}
use jira_game.Hall.Create.{new_room}
use jira_game.Hall.Leave.{room_after}
use jira_game.Hall.Join.{joiner, less_free}
use jira_game.Hall.JoinTeam.{has_seat, invited, member_info, members_but}
use jira_game.Hall.{hall_logic}
use jira_game.Rooms.Thins.{Thins, remaining-Thins, stayers-Thins}
use jira_game.Rooms.Seating.{
  SeatsDistinct, SeatsDistinct-append, Thins-SeatsDistinct, first_seat-is_idle,
}
use jira_game.Rooms.Changes.{Rooms}
use jira_game.Rooms.Operations.{Stores}
use jira_game.Rooms.Hall.{dispatch-Rooms}

-- A room is stored under its own id, is made for six players, and no two of its members have the
-- same seat.
pub record RoomOk (id : ℕ) (room : RoomInfo) : Type 0 where
  pub named : room.room_id ≡ id
  pub six : room.person_count ≡ 6
  pub seats : SeatsDistinct room.players

pub room_after-RoomOk :
    (id k : ℕ) (room : RoomInfo) (qs : List PlayerInfo)
    → RoomOk id room
    → room.room_id ≡ k
    → Thins room.players qs
    → RoomOk k (room_after room qs)
unfolding room_after
room_after-RoomOk id k room qs ok e t = record {
  named = e;
  six = ok.six;
  seats = Thins-SeatsDistinct t ok.seats;
}

pub has_seat-same_team :
    (team : TeamType) (seat : ℕ) (p : PlayerInfo)
    → has_seat team seat p ≡ (same_team p.team team && p.team_id == seat)
has_seat-same_team team seat p = ap (λ b. b && p.team_id == seat) (by_team p.team team)
  where
    by_team : (s t : TeamType) → (team_key s == team_key t) ≡ same_team s t
    by_team team_a team_a = refl
    by_team team_a team_b = refl
    by_team team_b team_a = refl
    by_team team_b team_b = refl

-- The loop of `JoinTeam` finishes only where nobody has the seat.
pub members_but-is_idle :
    (team : TeamType) (seat : ℕ) (ps : List PlayerInfo) {ms : List PlayerInfo}
    → members_but team seat ps ≡ some ms
    → is_idle team seat ps ≡ true
unfolding members_but
members_but-is_idle team seat [] h = refl
members_but-is_idle team seat (p ∷ ps) h = elim (Bool-cases (has_seat team seat p)) [
  | inl taken ↦ let e : none ≡ some _ = rw taken at h in absurd (cc e)
  | inr other ↦
      let e : (members_but team seat ps >>= λ ms. some (member_info p ∷ ms)) ≡ some _ =
        rw other at h in
      let (ms, rest, _) = >>=-eq-some (members_but team seat ps) _ e in
      rw (sym (has_seat-same_team team seat p) ∙ other) (members_but-is_idle team seat ps rest)
]

enlarged-RoomOk :
    (id : ℕ) (room : RoomInfo) (p : PlayerInfo)
    → RoomOk id room
    → is_idle p.team p.team_id room.players ≡ true
    → RoomOk id (add_player p (less_free room))
enlarged-RoomOk id room p ok free = record {
  named = ok.named;
  six = ok.six;
  seats = SeatsDistinct-append room.players p ok.seats free;
}

stores-RoomOk :
    (s : ℕ) (req : HallRequest) (w : World) → Rooms RoomOk w → Stores RoomOk s req w req.msg_type
unfolding new_room joiner invited
stores-RoomOk s req w h = record {
  created = λ id me. record { named = refl; six = refl; seats = (refl, tt) };
  left = λ e room _ found.
      room_after-RoomOk e.role_info.room_id e.role_info.room_id room _ (h _ room found)
        (h _ room found).named
        (stayers-Thins e.role_info.role_id e.role_info.is_room_ctl room.players);
  rejoined = λ id room mine found _.
      room_after-RoomOk id room.room_id room _ (h id room found) refl
        (remaining-Thins mine.role_id false false room.players);
  seated = λ id me room (team, seat) found _ free.
      enlarged-RoomOk id room _ (h id room found) (first_seat-is_idle room.players free);
  accepted = λ e room ms _ _ found free.
      enlarged-RoomOk _ room _ (h _ room found) (members_but-is_idle _ _ room.players free);
}

-- Whatever a client of the hall asks for, in every world whose rooms are well formed, a call that
-- returns leaves every room stored under its own id, made for six, and with no two members on one
-- seat.
pub hall_logic-RoomOk :
    (s : ℕ) (req : HallRequest) (w w' : World)
    → Rooms RoomOk w
    → hall_logic s req w ≡ some w'
    → Rooms RoomOk w'
unfolding hall_logic
hall_logic-RoomOk s req w w' h e =
    After-some (Rooms RoomOk) (hall_logic s req w)
      (After-if (Rooms RoomOk) (check_session_valid s req.session_id w.cache) _ _
        (λ _. dispatch-Rooms RoomOk s req w req.msg_type (stores-RoomOk s req w h) h) (λ _. h))
      e
