-- ===== src/Rooms/Lobby.antt =====
-- The lobby as the players see it, which forgets the order of the members, their seats and all else
-- that the cache keeps: for each room, how often each role is in it. A request is one of five steps.
pub mod Members
pub mod Steps
pub mod Rejoin
pub mod Departure
pub mod Timers
pub mod Refinement
pub mod Game
pub mod Overlap
pub mod Growth
pub mod Play
use jira_game.Base.{List, Option, if◌then◌else◌, none, some, ℕ, ◌+◌, ◌==◌, ◌≡◌}
use jira_game.Proto.{PlayerInfo, RoomInfo}
use jira_game.World.{World}
use jira_game.Cache.{find_entity_room}
use jira_game.Rooms.Roles.{count_role}

-- How often a role is in a room.
abbrev pub Members : Type 0
Members = ℕ → ℕ

abbrev pub Lobby : Type 0
Lobby = ℕ → Option Members

abbrev pub members : List PlayerInfo → Members
members ps role = count_role role ps

abbrev pub nobody : Members
nobody role = 0

abbrev pub joined : ℕ → Members → Members
joined who m role = m role + (if who == role then 1 else 0)

abbrev pub left : ℕ → Members → Members
left who m role = if who == role then 0 else m role

abbrev pub roll : Option RoomInfo → Option Members
roll none = none
roll (some room) = some (members room.players)

abbrev pub lobby : World → Lobby
lobby w j = roll (find_entity_room j w.cache)

-- How often a role is in a room, if there is one.
abbrev pub places : ℕ → Option Members → ℕ
places role none = 0
places role (some m) = m role

-- One room is replaced, and no other changes.
abbrev pub Puts : ℕ → Option Members → Lobby → Lobby → Type 0
Puts id o l l' = (j : ℕ) → l' j ≡ (if id == j then o else l j)

-- What a player with the role `who` may do: nothing, open a new room and be alone in it, enter a
-- room, leave a room, or close a room that nobody else is in.
pub data LobbyStep (who : ℕ) (l l' : Lobby) : Type 0 where
  idle : ((j : ℕ) → l' j ≡ l j) → LobbyStep who l l'
  opens : (id : ℕ) → l id ≡ none → Puts id (some (joined who nobody)) l l' → LobbyStep who l l'
  enters :
      (id : ℕ) (m : Members)
      → l id ≡ some m
      → Puts id (some (joined who m)) l l'
      → LobbyStep who l l'
  leaves :
      (id : ℕ) (m : Members) → l id ≡ some m → Puts id (some (left who m)) l l' → LobbyStep who l l'
  closes :
      (id : ℕ) (m : Members)
      → l id ≡ some m
      → left who m ≡ nobody
      → Puts id none l l'
      → LobbyStep who l l'

-- What a message of a running game does: nothing, or it ends the game of a room.
pub data Ends (id : ℕ) (l l' : Lobby) : Type 0 where
  plays : ((j : ℕ) → l' j ≡ l j) → Ends id l l'
  wins : (m : Members) → l id ≡ some m → Puts id none l l' → Ends id l l'

-- The steps that take the player out of a room or change nothing.
pub data Departs (who : ℕ) (l l' : Lobby) : Type 0 where
  remains : ((j : ℕ) → l' j ≡ l j) → Departs who l l'
  vacates :
      (id : ℕ) (m : Members) → l id ≡ some m → Puts id (some (left who m)) l l' → Departs who l l'
  dissolves :
      (id : ℕ) (m : Members)
      → l id ≡ some m
      → left who m ≡ nobody
      → Puts id none l l'
      → Departs who l l'

pub Departs-LobbyStep : {who : ℕ} {l l' : Lobby} → Departs who l l' → LobbyStep who l l'
Departs-LobbyStep (remains same) = idle same
Departs-LobbyStep (vacates id m there puts) = leaves id m there puts
Departs-LobbyStep (dissolves id m there alone puts) = closes id m there alone puts
