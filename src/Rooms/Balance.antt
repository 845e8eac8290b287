-- ===== src/Rooms/Balance.antt =====
-- The count of free places of a room under the messages of the hall.
use jira_game.Base.{
  After-if, After-some, Bool, List, Option, [], ap, arith, dec32, false, inc32, length,
  length-append, none, refl, some, ℕ, ◌%◌, ◌+◌, ◌^◌, ◌∙◌, ◌∷◌, ◌≡◌, ◌≢◌,
}
use jira_game.Proto.{HallMsgType, HallRequest, PlayerInfo, RoomInfo}
use jira_game.World.{World}
use jira_game.Cache.{Entity, add_player, check_session_valid, find_entity_room, get_entity}
use jira_game.Hall.Join.{find_role, joiner, less_free}
use jira_game.Hall.JoinTeam.{invited}
use jira_game.Rooms.Roles.{
  RolesOnce, RolesOnce-append, Thins-RolesOnce, count_role_once, length-remaining, length-stayers,
}
use jira_game.Hall.Create.{new_room}
use jira_game.Hall.Leave.{room_after, stayers}
use jira_game.Hall.{hall_logic}
use jira_game.Rooms.Thins.{Thins, remaining-Thins, stayers-Thins}
use jira_game.Rooms.Changes.{Rooms}
use jira_game.Rooms.Operations.{Stores}
use jira_game.Rooms.Hall.{dispatch-Rooms}

-- The free places and the members add up to six, as 32-bit words, and no role is in the room twice.
pub record IsBalanced (id : ℕ) (room : RoomInfo) : Type 0 where
  pub total : (room.free_person_count + length room.players) % 2 ^ 32 ≡ 6
  pub roles : RolesOnce room.players

-- What the operations take for granted of the client: a client whose `PlayerInfo` names a room has
-- its role in that room, and one that accepts an invitation has no role in the room yet.
pub record IsRegular (s : ℕ) (req : HallRequest) (w : World) : Type 0 where
  pub member :
      (e : Entity) (room : RoomInfo)
      → get_entity s w.cache ≡ some e
      → find_entity_room e.role_info.room_id w.cache ≡ some room
      → find_role e.role_info.role_id room.players ≢ none
  pub newcomer :
      (e : Entity) (room : RoomInfo)
      → get_entity s w.cache ≡ some e
      → find_entity_room req.invite_info.room_id w.cache ≡ some room
      → req.msg_type ≡ HallMsgType.join_team
      → find_role e.role_info.role_id room.players ≡ none

one_less : (free n m : ℕ) → (free + n) % 2 ^ 32 ≡ 6 → m + 1 ≡ n → (inc32 free + m) % 2 ^ 32 ≡ 6
one_less free n m h e = omega arith

one_more : (free n : ℕ) → (free + n) % 2 ^ 32 ≡ 6 → (dec32 free + (n + 1)) % 2 ^ 32 ≡ 6
one_more free n h = omega arith

left-IsBalanced :
    (id k : ℕ) (room : RoomInfo) (qs : List PlayerInfo)
    → IsBalanced id room
    → Thins room.players qs
    → length qs + 1 ≡ length room.players
    → IsBalanced k (room_after room qs)
unfolding room_after
left-IsBalanced id k room qs b t e = record {
  total = one_less room.free_person_count (length room.players) (length qs) b.total e;
  roles = Thins-RolesOnce t b.roles;
}

pub leaves-IsBalanced :
    (id : ℕ) (room : RoomInfo) (role : ℕ) (control : Bool)
    → IsBalanced id room
    → find_role role room.players ≢ none
    → IsBalanced id (room_after room (stayers role control room.players).0)
leaves-IsBalanced id room role control b member =
    left-IsBalanced id id room _ b (stayers-Thins role control room.players) (
      omega (
        arith,
        length-stayers role control room.players,
        count_role_once role room.players b.roles member,
      ))

entered-IsBalanced :
    (id : ℕ) (room : RoomInfo) (p : PlayerInfo)
    → IsBalanced id room
    → find_role p.role_id room.players ≡ none
    → IsBalanced id (add_player p (less_free room))
entered-IsBalanced id room p b new = record {
  total =
      ap (λ n. (dec32 room.free_person_count + n) % 2 ^ 32) (length-append room.players (p ∷ []))
      ∙ one_more room.free_person_count (length room.players) b.total;
  roles = RolesOnce-append room.players p b.roles new;
}

pub not_none : {p : PlayerInfo} (o : Option PlayerInfo) → o ≡ some p → o ≢ none
not_none o h e = cc

stores-IsBalanced :
    (s : ℕ) (req : HallRequest) (w : World)
    → IsRegular s req w
    → Rooms IsBalanced w
    → Stores IsBalanced s req w req.msg_type
unfolding new_room joiner invited
stores-IsBalanced s req w reg h = record {
  created = λ id me. record { total = refl; roles = (unfold find_role in refl, tt) };
  left = λ e room he found.
      leaves-IsBalanced _ room e.role_info.role_id e.role_info.is_room_ctl (h _ room found)
        (reg.member e room he found);
  rejoined = λ id room mine found e.
      let b = h id room found in
      left-IsBalanced id room.room_id room _ b
        (remaining-Thins mine.role_id false false room.players)
        (omega (
          arith,
          length-remaining mine.role_id false false room.players,
          count_role_once mine.role_id room.players b.roles (not_none _ e),
        ));
  seated =
      λ id me room (team, seat) found new free. entered-IsBalanced id room _ (h id room found) new;
  accepted = λ e room ms hm he found free.
      entered-IsBalanced _ room _ (h _ room found) (reg.newcomer e room he found hm);
}

-- For a regular client, every message of the hall keeps the free places and the members of every
-- room at six together, with no role in a room twice.
pub hall_logic-IsBalanced :
    (s : ℕ) (req : HallRequest) (w w' : World)
    → Rooms IsBalanced w
    → IsRegular s req w
    → hall_logic s req w ≡ some w'
    → Rooms IsBalanced w'
unfolding hall_logic
hall_logic-IsBalanced s req w w' h reg e =
    After-some (Rooms IsBalanced) (hall_logic s req w)
      (After-if (Rooms IsBalanced) (check_session_valid s req.session_id w.cache) _ _
        (λ _. dispatch-Rooms IsBalanced s req w req.msg_type (stores-IsBalanced s req w reg h) h)
        (λ _. h))
      e
