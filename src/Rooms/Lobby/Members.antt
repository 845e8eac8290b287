-- ===== src/Rooms/Lobby/Members.antt =====
-- The members of a room, as the lobby sees them, under the copying loops and a new member.
use jira_game.Base.{
  Bool, Bool-cases, List, [], arith, false, fun_ext, inl, inr, length, not, refl, sym, true, ℕ,
  ◌&&◌, ◌++◌, ◌==◌, ◌||◌, ◌∙◌, ◌∷◌, ◌≡◌,
}
use jira_game.Proto.{PlayerInfo}
use jira_game.Hall.Leave.{stayers}
use jira_game.Hall.Join.{remaining}
use jira_game.Rooms.Roles.{count_role, length-stayers}
use jira_game.Rooms.Lobby.{joined, left, members, nobody}

count_role-append :
    (role : ℕ) (ps : List PlayerInfo) (p : PlayerInfo)
    → count_role role (ps ++ p ∷ []) ≡ joined p.role_id (members ps) role
count_role-append role [] p = ground arith
count_role-append role (q ∷ ps) p = ground (arith, count_role-append role ps p)

count_role-stayers :
    (role who : ℕ) (promote : Bool) (ps : List PlayerInfo)
    → count_role role (stayers who promote ps).0 ≡ left who (members ps) role
unfolding stayers
count_role-stayers role who b [] = ground arith
count_role-stayers role who b (p ∷ ps) = elim (Bool-cases (p.role_id == who)) [
  | inl gone ↦ rw gone (ground (arith, count_role-stayers role who (b && true) ps))
  | inr here ↦ rw here (ground (arith, count_role-stayers role who (b && false) ps))
]

count_role-remaining :
    (role who : ℕ) (captain leader : Bool) (ps : List PlayerInfo)
    → count_role role (remaining who captain leader ps).0 ≡ left who (members ps) role
unfolding remaining
count_role-remaining role who captain leader [] = ground arith
count_role-remaining role who captain leader (p ∷ ps) = elim (Bool-cases (p.role_id == who)) [
  | inl gone ↦ rw gone (
      ground (
        arith,
        count_role-remaining role who (captain || (true && p.is_room_ctl))
            (leader || (not true && captain && not leader)) ps,
      ))
  | inr here ↦ rw here (
      ground (
        arith,
        count_role-remaining role who (captain || (false && p.is_room_ctl))
            (leader || (not false && captain && not leader)) ps,
      ))
]

pub members-append :
    (ps : List PlayerInfo) (p : PlayerInfo) → members (ps ++ p ∷ []) ≡ joined p.role_id (members ps)
members-append ps p = fun_ext (λ role. count_role-append role ps p)

pub members-stayers :
    (who : ℕ) (promote : Bool) (ps : List PlayerInfo)
    → members (stayers who promote ps).0 ≡ left who (members ps)
members-stayers who b ps = fun_ext (λ role. count_role-stayers role who b ps)

pub members-remaining :
    (who : ℕ) (ps : List PlayerInfo)
    → members (remaining who false false ps).0 ≡ left who (members ps)
members-remaining who ps = fun_ext (λ role. count_role-remaining role who false false ps)

members_empty : (ps : List PlayerInfo) → length ps ≡ 0 → members ps ≡ nobody
members_empty [] h = refl
members_empty (p ∷ ps) h = absurd (omega (arith, h))

-- A role that is the only one in a room leaves nobody behind.
pub left-alone :
    (who : ℕ) (ps : List PlayerInfo)
    → length ps ≡ 1
    → count_role who ps ≡ 1
    → left who (members ps) ≡ nobody
left-alone who ps one mine =
    sym (members-stayers who false ps)
    ∙ members_empty _ (omega (arith, length-stayers who false ps, one, mine))
