-- ===== src/Hall/Seats/Idle.antt =====
-- The search for idle seats against the seats that no player has.
use jira_game.Base.{
  Bool, List, Option, [], ap, ap₂, arith, false, if◌then◌else◌, inl, inr, is_empty, is_some, none,
  not, refl, some, true, ℕ, ◌&&◌, ◌==◌, ◌∙◌, ◌∷◌, ◌≡◌, ◌⊎◌,
}
use jira_game.Hall.Seats.{
  first_seat, id_rounds, idle_seats, scan_ids, scan_teams, take_seats, team_key, team_rounds,
}
use jira_game.Proto.{PlayerInfo, TeamType, team_a, team_b}

-- The ids whose seat is idle.
abbrev pub ids_of : Bool → Bool → Bool → List ℕ
ids_of a b c =
    (if a
      then 0 ∷ (if b then 1 ∷ (if c then 2 ∷ [] else []) else (if c then 2 ∷ [] else []))
      else (if b then 1 ∷ (if c then 2 ∷ [] else []) else (if c then 2 ∷ [] else [])))

scan_ids-ids_of :
    (t : ℕ) (a b c : Bool)
    → scan_ids id_rounds t 0 (ids_of a b c)
      ≡ ids_of (a && not (t == 0)) (b && not (t == 1)) (c && not (t == 2))
unfolding scan_ids
scan_ids-ids_of t false false false = refl
scan_ids-ids_of t false false true = ground arith
scan_ids-ids_of t false true false = ground arith
scan_ids-ids_of t false true true = ground arith
scan_ids-ids_of t true false false = ground arith
scan_ids-ids_of t true false true = ground arith
scan_ids-ids_of t true true false = ground arith
scan_ids-ids_of t true true true = ground arith

-- The map with the teams that still have an idle seat.
abbrev pub entry : ℕ → List ℕ → List (ℕ × List ℕ) → List (ℕ × List ℕ)
entry k [] teams = teams
entry k (x ∷ xs) teams = (k, x ∷ xs) ∷ teams

abbrev pub teams_of : List ℕ → List ℕ → List (ℕ × List ℕ)
teams_of xs ys = entry 0 xs (entry 1 ys [])

scan_none : (t : ℕ) → scan_ids id_rounds t 0 [] ≡ []
unfolding scan_ids
scan_none t = refl

after_first :
    (t : ℕ) (xs ys : List ℕ) (x : ℕ) (r : List ℕ)
    → scan_ids id_rounds t 0 (x ∷ xs) ≡ r
    → scan_teams team_rounds 0 t 0 (teams_of (x ∷ xs) ys) ≡ teams_of r ys
unfolding scan_teams
after_first t xs [] x [] e = rw e refl
after_first t xs (y ∷ ys) x [] e = rw e refl
after_first t xs [] x (z ∷ r) e = rw e refl
after_first t xs (y ∷ ys) x (z ∷ r) e = rw e refl

scan_first :
    (t : ℕ) (xs ys : List ℕ)
    → scan_teams team_rounds 0 t 0 (teams_of xs ys) ≡ teams_of (scan_ids id_rounds t 0 xs) ys
scan_first t [] [] = rw (scan_none t) (unfold scan_teams in refl)
scan_first t [] (y ∷ ys) = rw (scan_none t) (unfold scan_teams in refl)
scan_first t (x ∷ xs) ys = after_first t xs ys x _ refl

after_second :
    (t : ℕ) (xs ys : List ℕ) (y : ℕ) (r : List ℕ)
    → scan_ids id_rounds t 0 (y ∷ ys) ≡ r
    → scan_teams team_rounds 1 t 0 (teams_of xs (y ∷ ys)) ≡ teams_of xs r
unfolding scan_teams
after_second t [] ys y [] e = rw e refl
after_second t (x ∷ xs) ys y [] e = rw e refl
after_second t [] ys y (z ∷ r) e = rw e refl
after_second t (x ∷ xs) ys y (z ∷ r) e = rw e refl

scan_second :
    (t : ℕ) (xs ys : List ℕ)
    → scan_teams team_rounds 1 t 0 (teams_of xs ys) ≡ teams_of xs (scan_ids id_rounds t 0 ys)
scan_second t [] [] = rw (scan_none t) (unfold scan_teams in refl)
scan_second t (x ∷ xs) [] = rw (scan_none t) (unfold scan_teams in refl)
scan_second t xs (y ∷ ys) = after_second t xs ys y _ refl

abbrev pub same_team : TeamType → TeamType → Bool
same_team team_a team_a = true
same_team team_a team_b = false
same_team team_b team_a = false
same_team team_b team_b = true

-- No player has the seat.
abbrev pub is_idle : TeamType → ℕ → List PlayerInfo → Bool
is_idle team t [] = true
is_idle team t (p ∷ ps) = not (same_team p.team team && p.team_id == t) && is_idle team t ps

-- The idle ones among the flagged seats of a team.
abbrev left_of : TeamType → List PlayerInfo → Bool → Bool → Bool → List ℕ
left_of team ps a b c =
    ids_of (a && is_idle team 0 ps) (b && is_idle team 1 ps) (c && is_idle team 2 ps)

and_assoc : (a b c : Bool) → ((a && b) && c) ≡ (a && (b && c))
and_assoc true b c = refl
and_assoc false b c = refl

left_of-taken :
    (team : TeamType) (p : PlayerInfo) (ps : List PlayerInfo) (a b c : Bool)
    → p.team ≡ team
    → left_of team ps
        (a && not (p.team_id == 0))
        (b && not (p.team_id == 1))
        (c && not (p.team_id == 2))
      ≡ left_of team (p ∷ ps) a b c
left_of-taken team_a p ps a b c e = rw (and_assoc a, and_assoc b, and_assoc c, e)
left_of-taken team_b p ps a b c e = rw (and_assoc a, and_assoc b, and_assoc c, e)

left_of-other :
    (team other : TeamType) (p : PlayerInfo) (ps : List PlayerInfo) (a b c : Bool)
    → p.team ≡ other
    → same_team other team ≡ false
    → left_of team ps a b c ≡ left_of team (p ∷ ps) a b c
left_of-other team other p ps a b c e d = rw (e, d)

team_cases : (team : TeamType) → (team ≡ team_a) ⊎ (team ≡ team_b)
team_cases team_a = inl refl
team_cases team_b = inr refl

take_seats-left_of :
    (ps : List PlayerInfo) (a b c d e f : Bool)
    → take_seats ps (teams_of (ids_of a b c) (ids_of d e f))
      ≡ teams_of (left_of team_a ps a b c) (left_of team_b ps d e f)
unfolding take_seats
take_seats-left_of [] a b c d e f = ground arith
take_seats-left_of (p ∷ ps) a b c d e f = elim (team_cases p.team) [
  | inl h ↦
      let t = p.team_id in
      let ys = ids_of d e f in
      ap (λ k. take_seats ps (scan_teams team_rounds k t 0 (teams_of (ids_of a b c) ys)))
        (ap team_key h)
      ∙ ap (take_seats ps) (scan_first t (ids_of a b c) ys)
      ∙ ap (λ xs. take_seats ps (teams_of xs ys)) (scan_ids-ids_of t a b c)
      ∙ take_seats-left_of ps (a && not (t == 0)) (b && not (t == 1)) (c && not (t == 2)) d e f
      ∙ ap₂ teams_of (left_of-taken team_a p ps a b c h)
          (left_of-other team_b team_a p ps d e f h refl)
  | inr h ↦
      let t = p.team_id in
      let xs = ids_of a b c in
      ap (λ k. take_seats ps (scan_teams team_rounds k t 0 (teams_of xs (ids_of d e f))))
        (ap team_key h)
      ∙ ap (take_seats ps) (scan_second t xs (ids_of d e f))
      ∙ ap (λ ys. take_seats ps (teams_of xs ys)) (scan_ids-ids_of t d e f)
      ∙ take_seats-left_of ps a b c (d && not (t == 0)) (e && not (t == 1)) (f && not (t == 2))
      ∙ ap₂ teams_of (left_of-other team_a team_b p ps a b c h refl)
          (left_of-taken team_b p ps d e f h)
]

-- What the search leaves is the map of the idle seats, in order, without the teams that are full.
pub idle_seats-teams_of :
    (ps : List PlayerInfo)
    → idle_seats ps
      ≡ teams_of
          (ids_of (is_idle team_a 0 ps) (is_idle team_a 1 ps) (is_idle team_a 2 ps))
          (ids_of (is_idle team_b 0 ps) (is_idle team_b 1 ps) (is_idle team_b 2 ps))
unfolding idle_seats
idle_seats-teams_of ps = take_seats-left_of ps true true true true true true

-- The first seat that no player has, team A before team B and by number within a team.
abbrev pub free_seat : List PlayerInfo → Option (TeamType × ℕ)
free_seat ps =
    if is_idle team_a 0 ps
    then some (team_a, 0)
    else if is_idle team_a 1 ps
    then some (team_a, 1)
    else if is_idle team_a 2 ps
    then some (team_a, 2)
    else if is_idle team_b 0 ps
    then some (team_b, 0)
    else if is_idle team_b 1 ps
    then some (team_b, 1)
    else if is_idle team_b 2 ps
    then some (team_b, 2)
    else none

-- The seat that the iterator loops of `JoinRoom` settle on is the first idle one, and they leave
-- no team exactly where all six seats are taken.
pub first_seat-idle_seats :
    (ps : List PlayerInfo)
    → (first_seat (idle_seats ps) ≡ free_seat ps)
      × (is_empty (idle_seats ps) ≡ not (is_some (free_seat ps)))
unfolding first_seat
first_seat-idle_seats ps = rw (idle_seats-teams_of ps) (ground arith)
