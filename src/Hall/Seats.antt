-- ===== src/Hall/Seats.antt =====
-- The search for idle seats in `CHallScene::JoinRoom` (lines 386 to 443 of
-- DNW_Server/Server/GameLogic/SceneChain/HallScene.cpp): a map of two teams with the ids of three
-- seats each, from which the seats of the players are taken out through iterators. An iterator is
-- an index; the fuel of a loop bounds its rounds.
pub mod Idle
use jira_game.Base.{
  List, Option, [], get_elem?, if◌then◌else◌, is_empty, none, some, suc, zero, ℕ, ◌==◌, ◌∷◌,
}
use jira_game.Proto.{PlayerInfo, TeamType, team_a, team_b}

-- `vector::erase` and `map::erase` at an iterator.
abbrev pub erase_at {ℓ} : {A : Type ℓ} → ℕ → List A → List A
erase_at i [] = []
erase_at zero (x ∷ xs) = xs
erase_at (suc i) (x ∷ xs) = x ∷ erase_at i xs

-- A write through an iterator.
abbrev pub set {ℓ} : {A : Type ℓ} → List A → ℕ → A → List A
set [] i v = []
set (x ∷ xs) zero v = v ∷ xs
set (x ∷ xs) (suc i) v = x ∷ set xs i v

-- The loop over one team's ids from index `i`. After an erasure the iterator is set to the
-- beginning, and the loop's increment moves it on.
unfoldable pub scan_ids : ℕ → ℕ → ℕ → List ℕ → List ℕ
scan_ids zero team_id i ids = ids
scan_ids (suc fuel) team_id i ids = elim (get_elem? ids i) [
  | none ↦ ids
  | some x ↦
      let ids' = erase_at i ids in
      let again = scan_ids fuel team_id 1 ids' in
      let onward = scan_ids fuel team_id (suc i) ids in
      if team_id == x then if is_empty ids' then ids' else again else onward
]

-- The rounds that a scan of three ids can take.
abbrev pub id_rounds : ℕ
id_rounds = 8

-- The loop over the teams for one player, from index `i`.
unfoldable pub scan_teams : ℕ → ℕ → ℕ → ℕ → List (ℕ × List ℕ) → List (ℕ × List ℕ)
unfolding scan_ids
scan_teams zero key team_id i teams = teams
scan_teams (suc fuel) key team_id i teams = elim (get_elem? teams i) [
  | none ↦ teams
  | some (k, ids) ↦
      let ids' = scan_ids id_rounds team_id 0 ids in
      let teams' = erase_at i teams in
      let again = scan_teams fuel key team_id 1 teams' in
      let kept = scan_teams fuel key team_id (suc i) (set teams i (k, ids')) in
      let onward = scan_teams fuel key team_id (suc i) teams in
      if key == k
      then if is_empty ids' then if is_empty teams' then teams' else again else kept
      else onward
]

-- The rounds that a scan of two teams can take.
abbrev pub team_rounds : ℕ
team_rounds = 4

abbrev pub all_seats : List (ℕ × List ℕ)
all_seats = (0, 0 ∷ 1 ∷ 2 ∷ []) ∷ (1, 0 ∷ 1 ∷ 2 ∷ []) ∷ []

-- `playerinfo(i).team() - 1`
abbrev pub team_key : TeamType → ℕ
team_key team_a = 0
team_key team_b = 1

-- `(PBMessage::TeamType)(idleTeam->first + 1)`
abbrev pub team_of_key : ℕ → TeamType
team_of_key zero = team_a
team_of_key (suc k) = team_b

-- The loop over the players.
unfoldable pub take_seats : List PlayerInfo → List (ℕ × List ℕ) → List (ℕ × List ℕ)
unfolding scan_teams
take_seats [] teams = teams
take_seats (p ∷ ps) teams =
    take_seats ps (scan_teams team_rounds (team_key p.team) p.team_id 0 teams)

unfoldable pub idle_seats : List PlayerInfo → List (ℕ × List ℕ)
unfolding take_seats
idle_seats ps = take_seats ps all_seats

-- The first idle seat: `idleTeam->first + 1` and `idleTeam->second[0]` of the first team that is
-- left (lines 593 to 603).
unfoldable pub first_seat : List (ℕ × List ℕ) → Option (TeamType × ℕ)
first_seat [] = none
first_seat ((k, []) ∷ teams) = none
first_seat ((k, i ∷ ids) ∷ teams) = some (team_of_key k, i)
