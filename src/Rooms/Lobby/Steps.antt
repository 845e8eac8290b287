-- ===== src/Rooms/Lobby/Steps.antt =====
-- The changes of the cache that the operations of the hall make, as steps of the lobby.
use jira_game.Base.{
  ==_iff, Bool, List, Option, Option-cases, [], ap, arith, false, fun_ext, if◌then◌else◌, inc32,
  inl, inr, length, none, refl, some, subst, sym, true, ℕ, ◌%◌, ◌+◌, ◌<◌, ◌==◌, ◌^◌, ◌∙◌, ◌∷◌, ◌≡◌,
  ◌≢◌,
}
use jira_game.Proto.{HallRequest, Packet, PlayerInfo, RoomInfo}
use jira_game.World.{World, on_cache}
use jira_game.Cache.{
  Cache, add_player, check_entity_room_is_only, entity_room_add_member, find_entity_room,
  modify_room, set_role_info, create_room as store_room,
}
use jira_game.Cache.Laws.{find_entity_room-create_room, find_entity_room-set_role_info}
use jira_game.JiraEvent.{send_all, send_msg}
use jira_game.JiraEvent.Laws.{send_all-cache, send_msg-cache}
use jira_game.Hall.Leave.Replaced.{is_last, is_only_of_none}
use jira_game.Hall.Join.{find_role, less_free}
use jira_game.Rooms.Changes.{find_entity_room-enter}
use jira_game.Rooms.WellFormed.{RoomOk}
use jira_game.Rooms.Balance.{IsBalanced}
use jira_game.Rooms.Roles.{count_role_once}
use jira_game.Rooms.Lobby.{
  LobbyStep, Members, Puts, enters, idle, joined, left, lobby, members, nobody, opens, roll,
}
use jira_game.Rooms.Lobby.Members.{left-alone, members-append}
use jira_game.Hall.Create.{new_room}

-- The requester, and the lobby before and after.
abbrev pub Refined : ℕ → World → World → Type 0
Refined who w w' = LobbyStep who (lobby w) (lobby w')

-- One room of the cache is replaced, and no other changes.
abbrev pub Stored : ℕ → Option RoomInfo → World → World → Type 0
Stored id o w w' =
    (j : ℕ) → find_entity_room j w'.cache ≡ (if id == j then o else find_entity_room j w.cache)

if_same {ℓ} : {A : Type ℓ} (b : Bool) (x : A) → (if b then x else x) ≡ x
if_same true x = refl
if_same false x = refl

roll-if :
    (b : Bool) (o o' : Option RoomInfo)
    → roll (if b then o else o') ≡ (if b then roll o else roll o')
roll-if true o o' = refl
roll-if false o o' = refl

pub roll-Puts :
    (id : ℕ) (o : Option RoomInfo) (w w' : World)
    → Stored id o w w'
    → Puts id (roll o) (lobby w) (lobby w')
roll-Puts id o w w' h j = ap roll (h j) ∙ roll-if (id == j) o (find_entity_room j w.cache)

pub members-Puts :
    (id : ℕ) (room : RoomInfo) (m : Members) (w w' : World)
    → Stored id (some room) w w'
    → members room.players ≡ m
    → Puts id (some m) (lobby w) (lobby w')
members-Puts id room m w w' h e =
    subst (λ n. Puts id (some n) (lobby w) (lobby w')) e (roll-Puts id (some room) w w' h)

pub quiet : (who : ℕ) (w w' : World) → w'.cache ≡ w.cache → Refined who w w'
quiet who w w' e = idle (λ j. ap (λ c. roll (find_entity_room j c)) e)

pub quiet_msg : (who s : ℕ) (p : Packet) (w : World) → Refined who w (send_msg s p w)
quiet_msg who s p w = quiet who w (send_msg s p w) (send_msg-cache s p w)

pub quiet_all : (who : ℕ) (ss : List ℕ) (p : Packet) (w : World) → Refined who w (send_all ss p w)
quiet_all who ss p w = quiet who w (send_all ss p w) (send_all-cache ss p w)

pub entered :
    (who id s : ℕ) (room : RoomInfo) (p : PlayerInfo) (f : PlayerInfo → PlayerInfo) (ss : List ℕ)
    (packet : Packet) (w : World)
    → find_entity_room id w.cache ≡ some room
    → p.role_id ≡ who
    → Refined who w (
        send_all ss packet (
          on_cache
            (λ c. entity_room_add_member id p (set_role_info s f (modify_room id less_free c)))
            w))
entered who id s room p f ss packet w found mine =
    let moved =
      on_cache (λ c. entity_room_add_member id p (set_role_info s f (modify_room id less_free c)))
        w in
    enters id (members room.players) (ap roll found) (
      members-Puts id (add_player p (less_free room)) _ w (send_all ss packet moved)
        (λ j.
          ap (find_entity_room j) (send_all-cache ss packet moved)
          ∙ find_entity_room-enter j s id room p f w.cache found)
        (members-append room.players p ∙ ap (λ k. joined k (members room.players)) mine))

used :
    (id : ℕ) (room : RoomInfo) (c : Cache)
    → find_entity_room id c ≡ some room
    → check_entity_room_is_only id c ≡ false
unfolding check_entity_room_is_only find_entity_room
used id room c h = rw (h, check_entity_room_is_only) refl

members_one : (who : ℕ) (p : PlayerInfo) → p.role_id ≡ who → members (p ∷ []) ≡ joined who nobody
members_one who p e = fun_ext (λ role. rw e (ground arith))

-- The rooms after a new one is stored, which does nothing where the id is used.
abbrev rooms_with : ℕ → RoomInfo → ℕ → Cache → Option RoomInfo
rooms_with id room j c =
    if id == j
    then if check_entity_room_is_only id c then some room else find_entity_room j c
    else find_entity_room j c

pub stored_new :
    (who s id : ℕ) (req : HallRequest) (p : PlayerInfo) (f : PlayerInfo → PlayerInfo)
    (packet : Packet) (w w1 : World)
    → w1.cache ≡ w.cache
    → p.role_id ≡ who
    → Refined who w (
        send_msg s packet
          (on_cache (λ c. set_role_info s f (store_room id (new_room id req p) c)) w1))
unfolding new_room
stored_new who s id req p f packet w w1 same mine =
    let w2 = on_cache (λ c. set_role_info s f (store_room id (new_room id req p) c)) w1 in
    let rooms : (j : ℕ)
        → find_entity_room j (send_msg s packet w2).cache
          ≡ rooms_with id (new_room id req p) j w.cache =
      λ j.
        ap (find_entity_room j) (send_msg-cache s packet w2)
        ∙ find_entity_room-set_role_info j s f _
        ∙ find_entity_room-create_room j id (new_room id req p) w1.cache
        ∙ ap (rooms_with id (new_room id req p) j) same in
    elim (Option-cases (find_entity_room id w.cache)) [
      | inl free ↦ opens id (ap roll free) (
          members-Puts id (new_room id req p) _ w (send_msg s packet w2)
            (λ j. rooms j ∙ rw (is_only_of_none id w.cache free) refl) (members_one who p mine))
      | inr (room, taken) ↦
          idle (λ j. ap roll (rooms j ∙ rw (used id room w.cache taken) (if_same (id == j) _)))
    ]

-- The number of members of a room is a 32-bit number.
abbrev pub FewMembers : ℕ → RoomInfo → Type 0
FewMembers id room = length room.players < 2 ^ 32

-- What the source takes for the last member is alone.
pub alone :
    (who id k : ℕ) (room : RoomInfo)
    → RoomOk id room
    → IsBalanced k room
    → length room.players < 2 ^ 32
    → find_role who room.players ≢ none
    → is_last room ≡ true
    → left who (members room.players) ≡ nobody
alone who id k room ok b few member last =
    left-alone who room.players
      (one room.free_person_count (length room.players) b.total few
        (sym ok.six ∙ (==_iff room.person_count (inc32 room.free_person_count)).0 last))
      (count_role_once who room.players b.roles member)
  where
    one : (free n : ℕ) → (free + n) % 2 ^ 32 ≡ 6 → n < 2 ^ 32 → 6 ≡ inc32 free → n ≡ 1
    one free n h small e = omega (arith, h, small, e)

-- What is taken for granted of the cache and of the client.
abbrev pub Lawful : ℕ → RoomInfo → Type 0
Lawful id room = RoomOk id room × IsBalanced id room × FewMembers id room
