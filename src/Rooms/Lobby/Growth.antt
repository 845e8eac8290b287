-- ===== src/Rooms/Lobby/Growth.antt =====
-- Which steps of the lobby give a role a place in a room.
use jira_game.Base.{
  ==_iff, Bool-cases, Option, ap, arith, inl, inr, none, refl, true, ℕ, ◌==◌, ◌∙◌, ◌≡◌, ◌≤◌, ◌⊎◌,
}
use jira_game.Rooms.Lobby.{
  Departs, Ends, Lobby, LobbyStep, Members, Puts, closes, dissolves, enters, idle, joined, leaves,
  left, nobody, opens, places, plays, remains, vacates, wins,
}

Puts-places :
    (role id room : ℕ) (o : Option Members) (l l' : Lobby)
    → Puts room o l l'
    → places role o ≤ places role (l room)
    → places role (l' id) ≤ places role (l id)
Puts-places role id room o l l' puts fewer = elim (Bool-cases (room == id)) [
  | inl same ↦
      let here : l' id ≡ o = puts id ∙ rw same refl in
      omega
        (arith, fewer, ap (places role) here, ap (λ j. places role (l j)) ((==_iff room id).0 same))
  | inr other ↦
      let there : l' id ≡ l id = puts id ∙ rw other refl in omega (arith, ap (places role) there)
]

left-places : (role who : ℕ) (m : Members) → left who m role ≤ m role
left-places role who m = ground arith

pub Departs-places :
    (role id who : ℕ) (l l' : Lobby) → Departs who l l' → places role (l' id) ≤ places role (l id)
Departs-places role id who l l' (remains same) = omega (arith, ap (places role) (same id))
Departs-places role id who l l' (vacates room m there puts) =
    Puts-places role id room _ l l' puts
      (omega (arith, left-places role who m, ap (places role) there))
Departs-places role id who l l' (dissolves room m there alone puts) =
    Puts-places role id room none l l' puts (omega arith)

pub Ends-places :
    (role id room : ℕ) (l l' : Lobby) → Ends room l l' → places role (l' id) ≤ places role (l id)
Ends-places role id room l l' (plays same) = omega (arith, ap (places role) (same id))
Ends-places role id room l l' (wins m there puts) =
    Puts-places role id room none l l' puts (omega arith)

joined-places : (role who : ℕ) (m : Members) → ((who == role) ≡ true) ⊎ (joined who m role ≤ m role)
joined-places role who m = ground arith

pub LobbyStep-places :
    (role id who : ℕ) (l l' : Lobby)
    → LobbyStep who l l'
    → ((who == role) ≡ true) ⊎ (places role (l' id) ≤ places role (l id))
LobbyStep-places role id who l l' (idle same) = inr (omega (arith, ap (places role) (same id)))
LobbyStep-places role id who l l' (opens room free puts) = elim (joined-places role who nobody) [
  | inl his ↦ inl his
  | inr others ↦ inr (Puts-places role id room _ l l' puts (omega arith))
]
LobbyStep-places role id who l l' (enters room m there puts) = elim (joined-places role who m) [
  | inl his ↦ inl his
  | inr others ↦ inr (Puts-places role id room _ l l' puts (omega (arith, ap (places role) there)))
]
LobbyStep-places role id who l l' (leaves room m there puts) =
    inr (Departs-places role id who l l' (vacates room m there puts))
LobbyStep-places role id who l l' (closes room m there alone puts) =
    inr (Departs-places role id who l l' (dissolves room m there alone puts))
