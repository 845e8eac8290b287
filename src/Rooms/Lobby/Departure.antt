-- ===== src/Rooms/Lobby/Departure.antt =====
-- The departure of a player from its room, as a step of the lobby.
use jira_game.Base.{
  After, Bool-cases, Option, Option-cases, ap, if◌then◌else◌, inl, inr, none, refl, some, ℕ, ◌==◌,
  ◌>>=◌, ◌∙◌, ◌≡◌, ◌≢◌,
}
use jira_game.Proto.{RoomInfo}
use jira_game.World.{World}
use jira_game.Cache.{Entity, find_entity_room, get_entity}
use jira_game.Hall.Leave.{depart, room_after, stayers}
use jira_game.Hall.Leave.Replaced.{Replaced, depart-Replaced, is_last}
use jira_game.Hall.Join.{find_role}
use jira_game.Rooms.Changes.{Rooms}
use jira_game.Rooms.Lobby.{Departs, dissolves, lobby, members, remains, roll, vacates}
use jira_game.Rooms.Lobby.Members.{members-stayers}
use jira_game.Rooms.Lobby.Steps.{Lawful, Stored, alone, members-Puts, roll-Puts}

After-of {ℓ κ} :
    {A : Type ℓ} (Q : A → Type κ) (m : Option A) → ((a : A) → m ≡ some a → Q a) → After Q m
After-of Q none h = tt
After-of Q (some a) h = h a refl

-- A player whose `PlayerInfo` names a room is in it.
abbrev pub Inside : Entity → World → Type 0
Inside e w =
    (room : RoomInfo)
    → find_entity_room e.role_info.room_id w.cache ≡ some room
    → find_role e.role_info.role_id room.players ≢ none

module _ (s : ℕ) (w : World) (e : Entity) (known : get_entity s w.cache ≡ some e)
    (lawful : Rooms Lawful w) where
  abbrev who : ℕ
  who = e.role_info.role_id

  abbrev Out : World → Type 0
  Out w' = Departs who (lobby w) (lobby w')

  departed-Out :
      (room : RoomInfo) (w1 w' : World)
      → w1.cache ≡ w.cache
      → find_entity_room e.role_info.room_id w.cache ≡ some room
      → find_role who room.players ≢ none
      → Replaced s e.role_info room w1 w'
      → Out w'
  unfolding room_after
  departed-Out room w1 w' same found member gone =
      let id = e.role_info.room_id in
      let (ok, b, few) = lawful id room found in
      let others = room_after room (stayers who e.role_info.is_room_ctl room.players).0 in
      let rooms : Stored id (if is_last room then none else some others) w w' = λ j.
        gone.rooms j
        ∙ ap
            (λ c.
              if id == j then if is_last room then none else some others else find_entity_room j c)
            same in
      elim (Bool-cases (is_last room)) [
        | inl last ↦
            dissolves id (members room.players) (ap roll found)
              (alone who id id room ok b few member last)
              (roll-Puts id none w w' (λ j. rooms j ∙ rw last refl))
        | inr more ↦ vacates id (members room.players) (ap roll found) (
            members-Puts id others _ w w' (λ j. rooms j ∙ rw more refl)
              (members-stayers who e.role_info.is_room_ctl room.players))
      ]

  pub depart-Departs :
      Inside e w
      → (w1 : World) → w1.cache ≡ w.cache
      → After (λ w'. Departs e.role_info.role_id (lobby w) (lobby w')) (depart s w1)
  depart-Departs inside w1 same =
      let there = ap (get_entity s) same ∙ known in
      elim (Option-cases (find_entity_room e.role_info.room_id w.cache)) [
        | inl missing ↦
            unfold depart in
            rw (there, ◌>>=◌, ap (find_entity_room e.role_info.room_id) same ∙ missing)
              (remains (λ j. ap (λ c. roll (find_entity_room j c)) same))
        | inr (room, found) ↦ After-of Out (depart s w1) (λ w' run.
            departed-Out room w1 w' same found (inside room found) (
              depart-Replaced s e room w1 w' there
                (ap (find_entity_room e.role_info.room_id) same ∙ found) run))
      ]
