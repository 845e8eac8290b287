-- ===== src/Rooms/Roles.antt =====
-- The role ids of the members of a room, under the copying loops and a new member.
use jira_game.Base.{
  ==_iff, Bool, Bool-cases, List, [], ap, arith, count, false, inl, inr, length, none, not, refl,
  subst, suc, true, ℕ, ◌&&◌, ◌++◌, ◌+◌, ◌==◌, ◌||◌, ◌∷◌, ◌≡◌, ◌≢◌,
}
use jira_game.Proto.{PlayerInfo}
use jira_game.Hall.Leave.{stayers}
use jira_game.Hall.Join.{find_role, remaining}
use jira_game.Rooms.Thins.{Thins, done, skip, stay}

-- Every role id stands at most once.
abbrev pub RolesOnce : List PlayerInfo → Type 0
RolesOnce [] = Unit
RolesOnce (p ∷ ps) = (find_role p.role_id ps ≡ none) × RolesOnce ps

abbrev pub count_role : ℕ → List PlayerInfo → ℕ
count_role role = count (λ p. p.role_id == role)

Thins-find_role :
    (role : ℕ) {ps qs : List PlayerInfo}
    → Thins ps qs
    → find_role role ps ≡ none
    → find_role role qs ≡ none
unfolding find_role
Thins-find_role role done h = refl
Thins-find_role role (skip p t) h = Thins-find_role role t (ground arith)
Thins-find_role role (stay p t) h = ground (arith, Thins-find_role role t)
Thins-find_role role (Thins.hand_on p t) h = ground (arith, Thins-find_role role t)

pub Thins-RolesOnce : {ps qs : List PlayerInfo} → Thins ps qs → RolesOnce ps → RolesOnce qs
Thins-RolesOnce done h = tt
Thins-RolesOnce (skip p t) h = Thins-RolesOnce t h.1
Thins-RolesOnce (stay p t) h = (Thins-find_role p.role_id t h.0, Thins-RolesOnce t h.1)
Thins-RolesOnce (Thins.hand_on p t) h = (Thins-find_role p.role_id t h.0, Thins-RolesOnce t h.1)

count_role-none :
    (role : ℕ) (ps : List PlayerInfo) → find_role role ps ≡ none → count_role role ps ≡ 0
unfolding find_role
count_role-none role [] h = refl
count_role-none role (p ∷ ps) h = ground (arith, count_role-none role ps)

pub count_role_once :
    (role : ℕ) (ps : List PlayerInfo)
    → RolesOnce ps
    → find_role role ps ≢ none
    → count_role role ps ≡ 1
unfolding find_role
count_role_once role [] h found = absurd (found refl)
count_role_once role (p ∷ ps) h found = elim (Bool-cases (p.role_id == role)) [
  | inl hit ↦ rw hit (
      ap suc (
        count_role-none role ps
          (subst (λ k. find_role k ps ≡ none) ((==_iff p.role_id role).0 hit) h.0)))
  | inr miss ↦ rw miss (count_role_once role ps h.1 (rw (miss, find_role) at found))
]

pub length-stayers :
    (role : ℕ) (promote : Bool) (ps : List PlayerInfo)
    → length (stayers role promote ps).0 + count_role role ps ≡ length ps
unfolding stayers
length-stayers role b [] = omega arith
length-stayers role b (p ∷ ps) = elim (Bool-cases (p.role_id == role)) [
  | inl gone ↦ rw gone (omega (arith, length-stayers role (b && true) ps))
  | inr here ↦ rw here (ground (arith, length-stayers role (b && false) ps))
]

pub length-remaining :
    (role : ℕ) (captain leader : Bool) (ps : List PlayerInfo)
    → length (remaining role captain leader ps).0 + count_role role ps ≡ length ps
unfolding remaining
length-remaining role captain leader [] = omega arith
length-remaining role captain leader (p ∷ ps) = elim (Bool-cases (p.role_id == role)) [
  | inl gone ↦ rw gone (
      omega (
        arith,
        length-remaining role (captain || (true && p.is_room_ctl))
            (leader || (not true && captain && not leader)) ps,
      ))
  | inr here ↦ rw here (
      ground (
        arith,
        length-remaining role (captain || (false && p.is_room_ctl))
            (leader || (not false && captain && not leader)) ps,
      ))
]

-- Nobody with the leaver's role stays.
pub find_role-stayers :
    (role : ℕ) (promote : Bool) (ps : List PlayerInfo)
    → find_role role (stayers role promote ps).0 ≡ none
unfolding stayers find_role
find_role-stayers role b [] = refl
find_role-stayers role b (p ∷ ps) = elim (Bool-cases (p.role_id == role)) [
  | inl gone ↦ rw gone (find_role-stayers role (b && true) ps)
  | inr here ↦ rw here (ground (arith, find_role-stayers role (b && false) ps))
]

pub RolesOnce-append :
    (ps : List PlayerInfo) (p : PlayerInfo)
    → RolesOnce ps
    → find_role p.role_id ps ≡ none
    → RolesOnce (ps ++ p ∷ [])
unfolding find_role
RolesOnce-append [] p h new = (refl, tt)
RolesOnce-append (q ∷ qs) p h new =
    (appended qs h.0 (ground arith), RolesOnce-append qs p h.1 (ground arith))
  where
    appended :
        (rs : List PlayerInfo)
        → find_role q.role_id rs ≡ none
        → (p.role_id == q.role_id) ≡ false
        → find_role q.role_id (rs ++ p ∷ []) ≡ none
    appended [] k d = ground arith
    appended (r ∷ rs) k d = ground (arith, appended rs)
