-- ===== src/Rooms/Seating.antt =====
-- The seats of the members of a room, under the copying loops and a new member.
use jira_game.Base.{List, [], arith, false, refl, some, true, ℕ, ◌&&◌, ◌++◌, ◌==◌, ◌∷◌, ◌≡◌}
use jira_game.Proto.{PlayerInfo, TeamType, team_a, team_b}
use jira_game.Hall.Seats.Idle.{first_seat-idle_seats, is_idle, same_team}
use jira_game.Hall.Seats.{first_seat, idle_seats}
use jira_game.Rooms.Thins.{Thins, done, skip, stay}

abbrev pub SeatsDistinct : List PlayerInfo → Type 0
SeatsDistinct [] = Unit
SeatsDistinct (p ∷ ps) = (is_idle p.team p.team_id ps ≡ true) × SeatsDistinct ps

Thins-is_idle :
    (team : TeamType) (seat : ℕ) {ps qs : List PlayerInfo}
    → Thins ps qs
    → is_idle team seat ps ≡ true
    → is_idle team seat qs ≡ true
Thins-is_idle team seat done h = refl
Thins-is_idle team seat (skip p t) h = Thins-is_idle team seat t (ground arith)
Thins-is_idle team seat (stay p t) h = ground (arith, Thins-is_idle team seat t)
Thins-is_idle team seat (Thins.hand_on p t) h = ground (arith, Thins-is_idle team seat t)

pub Thins-SeatsDistinct :
    {ps qs : List PlayerInfo} → Thins ps qs → SeatsDistinct ps → SeatsDistinct qs
Thins-SeatsDistinct done h = tt
Thins-SeatsDistinct (skip p t) h = Thins-SeatsDistinct t h.1
Thins-SeatsDistinct (stay p t) h = (Thins-is_idle p.team p.team_id t h.0, Thins-SeatsDistinct t h.1)
Thins-SeatsDistinct (Thins.hand_on p t) h =
    (Thins-is_idle p.team p.team_id t h.0, Thins-SeatsDistinct t h.1)

same_team_comm : (s t : TeamType) → same_team s t ≡ same_team t s
same_team_comm team_a team_a = refl
same_team_comm team_a team_b = refl
same_team_comm team_b team_a = refl
same_team_comm team_b team_b = refl

-- A new member takes a seat that was idle.
pub SeatsDistinct-append :
    (ps : List PlayerInfo) (p : PlayerInfo)
    → SeatsDistinct ps
    → is_idle p.team p.team_id ps ≡ true
    → SeatsDistinct (ps ++ p ∷ [])
SeatsDistinct-append [] p h free = (refl, tt)
SeatsDistinct-append (q ∷ qs) p h free = (
  appended qs h.0 (ground (arith, same_team_comm q.team p.team)),
  SeatsDistinct-append qs p h.1 (ground arith),
)
  where
    appended :
        (rs : List PlayerInfo)
        → is_idle q.team q.team_id rs ≡ true
        → (same_team p.team q.team && p.team_id == q.team_id) ≡ false
        → is_idle q.team q.team_id (rs ++ p ∷ []) ≡ true
    appended [] k d = ground arith
    appended (r ∷ rs) k d = ground (arith, appended rs)

-- The seat that `JoinRoom` hands out is idle.
pub first_seat-is_idle :
    (ps : List PlayerInfo) {team : TeamType} {seat : ℕ}
    → first_seat (idle_seats ps) ≡ some (team, seat)
    → is_idle team seat ps ≡ true
first_seat-is_idle ps h = ground (arith, (first_seat-idle_seats ps).0)
