-- ===== src/Rooms/Thins.antt =====
-- The member lists that the copying loops of `LeaveRoom` and `JoinRoom` build: some members are
-- left out, and some are given the control.
use jira_game.Base.{Bool, Bool-cases, List, [], false, inl, inr, not, true, ℕ, ◌&&◌, ◌==◌, ◌∷◌}
use jira_game.Proto.{PlayerInfo}
use jira_game.Hall.Leave.{stayers, take_control}
use jira_game.Hall.Join.{remaining}

pub data Thins : List PlayerInfo → List PlayerInfo → Type 0 where
  done : Thins [] []
  skip : (p : PlayerInfo) {ps qs : List PlayerInfo} → Thins ps qs → Thins (p ∷ ps) qs
  stay : (p : PlayerInfo) {ps qs : List PlayerInfo} → Thins ps qs → Thins (p ∷ ps) (p ∷ qs)
  hand_on :
      (p : PlayerInfo) {ps qs : List PlayerInfo}
      → Thins ps qs
      → Thins (p ∷ ps) (take_control p ∷ qs)

pub stayers-Thins :
    (role : ℕ) (promote : Bool) (ps : List PlayerInfo) → Thins ps (stayers role promote ps).0
unfolding stayers
stayers-Thins role b [] = done
stayers-Thins role true (p ∷ ps) = elim (Bool-cases (p.role_id == role)) [
  | inl gone ↦ rw gone (skip p (stayers-Thins role true ps))
  | inr here ↦ rw here (Thins.hand_on p (stayers-Thins role false ps))
]
stayers-Thins role false (p ∷ ps) = elim (Bool-cases (p.role_id == role)) [
  | inl gone ↦ rw gone (skip p (stayers-Thins role false ps))
  | inr here ↦ rw here (stay p (stayers-Thins role false ps))
]

pub remaining-Thins :
    (role : ℕ) (captain leader : Bool) (ps : List PlayerInfo)
    → Thins ps (remaining role captain leader ps).0
unfolding remaining
remaining-Thins role captain leader [] = done
remaining-Thins role captain leader (p ∷ ps) = elim (Bool-cases (p.role_id == role)) [
  | inl gone ↦ rw gone (skip p (remaining-Thins role _ _ ps))
  | inr here ↦ elim (Bool-cases (captain && not leader)) [
    | inl heir ↦ rw (here, heir) (Thins.hand_on p (remaining-Thins role _ _ ps))
    | inr plain ↦ rw (here, plain) (stay p (remaining-Thins role _ _ ps))
  ]
]
