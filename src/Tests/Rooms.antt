-- ===== src/Tests/Rooms.antt =====
-- The invariants of the rooms, on the lobby.
use jira_game.Base.{
  ==_iff, Bool-cases, Dict, Returns, [], inl, inr, lookup, none, refl, some, some_inj, subst, sym,
  text_eq, ℕ, ◌==◌, ◌∷◌, ◌≡◌,
}
use jira_game.Proto.{HallMsgType, HallRequest, RoomInfo}
use jira_game.Cache.{
  Entity, check_entity_room_is_only, check_session_valid, find_entity_room, get_entity,
}
use jira_game.Hall.Seats.{first_seat, idle_seats, scan_ids, scan_teams, take_seats}
use jira_game.World.{World}
use jira_game.Rooms.Events.{Reachable, after, at_start, hall_message, new_client}
use jira_game.Server.{accept_client}
use jira_game.Hall.Create.{create_room, found_room}
use jira_game.Hall.RoomId.{genrate_only_room_id}
use jira_game.Utl.{
  decimal, digits_value, genrate_random_id, int2_string, random_pieces, signed_value, skip_space,
  string2_int,
}
use jira_game.Rooms.Online.{Online}
use jira_game.Rooms.Total.{Served, hall_logic_total}
use jira_game.Tests.Worlds.{
  ann, ann_session, bob, bob_inside, bob_joins, bob_session, clients, entity, hall_request, lobby,
  or_same, pair, pair_room, small_room, world_of,
}
use jira_game.Hall.{dispatch, hall_logic}
use jira_game.Hall.Join.{enter_room, find_role, join_room}
use jira_game.Rooms.WellFormed.{RoomOk}
use jira_game.Rooms.Balance.{IsBalanced, IsRegular, hall_logic-IsBalanced}
use jira_game.Rooms.Changes.{Rooms}
use jira_game.Cache.EveryRoom.{EveryRoom}

-- In a cache of one room, what holds of that room holds of every room.
pub one_room :
    (P : ℕ → RoomInfo → Type 0) (id : ℕ) (room : RoomInfo) (entities : Dict Entity)
    → P id room
    → EveryRoom P (record { rooms = (id, room) ∷ []; entities = entities })
unfolding find_entity_room lookup
one_room P id room entities h j r found = elim (Bool-cases (j == id)) [
  | inl same ↦
      let e : some room ≡ some r = rw same at found in
      subst (λ k. P k r) (sym ((==_iff j id).0 same)) (subst (P id) (some_inj e) h)
  | inr other ↦ let no : none ≡ some r = rw other at found in absurd (cc no)
]

abbrev pub joined : World
joined = or_same (hall_logic 20 bob_joins lobby) lobby

pub lobby-RoomOk : Rooms RoomOk lobby
lobby-RoomOk =
    one_room RoomOk 500123 small_room clients
      (record { named = refl; six = refl; seats = (refl, tt) })

pub lobby-IsBalanced : Rooms IsBalanced lobby
unfolding find_role
lobby-IsBalanced =
    one_room IsBalanced 500123 small_room clients (record { total = refl; roles = (refl, tt) })

pub bob_joins_runs : hall_logic 20 bob_joins lobby ≡ some joined
unfolding hall_logic dispatch check_session_valid lookup text_eq join_room enter_room find_role
    idle_seats take_seats scan_teams scan_ids first_seat get_entity find_entity_room
bob_joins_runs = refl

pub bob_joins-IsRegular : IsRegular 20 bob_joins lobby
unfolding get_entity find_entity_room lookup
bob_joins-IsRegular = record {
  member = λ e room he hr.
      let b : entity 20 bob_session bob ≡ e = some_inj he in
      let k : none ≡ some room =
        subst (λ v. find_entity_room v.role_info.room_id lobby.cache ≡ some room) (sym b) hr in
      absurd (cc k);
  newcomer = λ e room he hr m. absurd (cc m);
}

hall_logic-IsBalanced_example : Rooms IsBalanced joined
hall_logic-IsBalanced_example =
    hall_logic-IsBalanced 20 bob_joins lobby joined lobby-IsBalanced bob_joins-IsRegular
      bob_joins_runs

-- The lobby as the events leave it: Ann and Bob are accepted, both have logged in, and the scenes for
-- accounts have loaded their players.
abbrev pub entrance : World
entrance = world_of [] ((10, entity 10 ann_session bob) ∷ (20, entity 20 bob_session bob) ∷ [])

abbrev pub ann_creates : HallRequest
ann_creates = hall_request ann_session HallMsgType.create_room 0

abbrev pub created : World
created = or_same (hall_logic 10 ann_creates entrance) entrance

pub ann_creates_runs : hall_logic 10 ann_creates entrance ≡ some created
unfolding hall_logic dispatch check_session_valid lookup text_eq create_room found_room
    genrate_only_room_id genrate_random_id random_pieces int2_string decimal string2_int skip_space
    signed_value digits_value check_entity_room_is_only get_entity
ann_creates_runs = refl

created-Reachable : Reachable (accept_client 30 created)
created-Reachable =
    after (after (at_start entrance refl) (hall_message 10 ann_creates ann_creates_runs))
      (new_client 30 created)

pair-Online : Online pair.cache pair_room.players
unfolding get_entity lookup
pair-Online = ((entity 10 ann_session ann, refl), ((entity 20 bob_session bob_inside, refl), tt))

abbrev ann_leaves : HallRequest
ann_leaves = hall_request ann_session HallMsgType.leave_room 0

pair-Served :
    (e : Entity) → get_entity 10 pair.cache ≡ some e → Served ann_leaves.msg_type ann_leaves pair e
unfolding get_entity find_entity_room lookup
pair-Served e known room found =
    let me : entity 10 ann_session ann ≡ e = some_inj known in
    let here : some pair_room ≡ some room =
      subst (λ v. find_entity_room v.role_info.room_id pair.cache ≡ some room) (sym me) found in
    subst (λ r. Online pair.cache r.players) (some_inj here) pair-Online

hall_logic_total_example : Returns (hall_logic 10 ann_leaves pair)
hall_logic_total_example = hall_logic_total 10 ann_leaves pair pair-Served
