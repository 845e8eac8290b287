-- ===== src/Hall/Leave/Outcome.antt =====
-- What leaving a room comes to.
use jira_game.Base.{
  Bool, List, Option, [], ap, false, if◌then◌else◌, inc32, keep, map, map_some, none, not, refl,
  some, sym, true, ℕ, ◌++◌, ◌==◌, ◌∙◌, ◌∷◌, ◌≡◌,
}
use jira_game.Proto.{
  HallMsgType, Packet, PlayerInfo, RoomInfo, default_player, empty_hall_return, hall_return,
  rt_idle, wait_room,
}
use jira_game.World.{World}
use jira_game.Cache.{Entity, find_entity_room, get_entity}
use jira_game.JiraEvent.Laws.{deliveries}
use jira_game.Hall.Replies.{hall_packet, sockets}
use jira_game.Hall.Replies.Sockets.{sockets_lem}
use jira_game.Hall.Leave.{
  depart, depart_room, heir_list, leaver_info, left_reply, room_after, stayers, take_control,
}
use jira_game.Hall.Leave.Replaced.{
  Replaced, depart_found, depart_room-Replaced, is_last, stayers_control,
}
use jira_game.Hall.Leave.Players.{at_socket, depart_room-players, take_charge}

abbrev in_control : PlayerInfo → PlayerInfo
in_control p = record p { is_room_ctl = true }

-- The members and the new controller, where the control is handed on to the first of them.
abbrev handed_on : Bool → List PlayerInfo → List PlayerInfo × List PlayerInfo
handed_on false ps = (ps, [])
handed_on true [] = ([], [])
handed_on true (p ∷ ps) = (in_control p ∷ ps, in_control p ∷ [])

-- The members with another role than the leaver's; a controller hands the control on.
abbrev pub others : PlayerInfo → RoomInfo → List PlayerInfo × List PlayerInfo
others me room = handed_on me.is_room_ctl (keep (λ p. not (p.role_id == me.role_id)) room.players)

abbrev pub room_of : RoomInfo → List PlayerInfo → RoomInfo
room_of room players = record {
  room_id = room.room_id;
  room_name = room.room_name;
  person_count = room.person_count;
  free_person_count = inc32 room.free_person_count;
  players = players;
}

-- The reply names the leaver, and then the new controller, if there is one.
abbrev pub farewell : PlayerInfo → List PlayerInfo → Packet
farewell me heir = record {
  cur_scene = wait_room;
  reply = hall_return (record empty_hall_return {
    msg_type = some HallMsgType.leave_room;
    friend_list =
        record default_player {
          role_id = me.role_id;
          is_room_ctl = me.is_room_ctl;
          team = me.team;
          team_id = me.team_id;
        }
        ∷ heir;
  });
}

-- How leaving ends, for a player whose `PlayerInfo` is `me` in the room. With the last free place
-- the room is removed and nothing is sent. Otherwise the room is replaced by a copy with one more free
-- place and without the members that have the leaver's role, in which the first member has the control
-- where the leaver had it; each member that stays and has an observer is sent the leaver and the new
-- controller. The leaver's player names no room any more and is idle, and the player on the new
-- controller's socket has the control. No other room and no other player changes.
pub record Left (s : ℕ) (me : PlayerInfo) (room : RoomInfo) (w w' : World) : Type 0 where
  pub rooms :
      (j : ℕ)
      → find_entity_room j w'.cache ≡ (
          if me.room_id == j
          then if is_last room then none else some (room_of room (others me room).0)
          else find_entity_room j w.cache)
  pub told : w'.sent ≡ (
      if is_last room
      then w.sent
      else w.sent
        ++ deliveries w.listeners
            (farewell me (others me room).1)
            (map (λ p. p.socket) (others me room).0))
  pub players :
      (j : ℕ)
      → get_entity j w'.cache
        ≡ map_some
            (λ e.
              at_socket s j
                (λ p. record p { room_id = 0; room_state = rt_idle })
                (if is_last room then e else take_charge (others me room).1 j e))
            (get_entity j w.cache)

abbrev handed : List PlayerInfo × Option PlayerInfo → List PlayerInfo × List PlayerInfo
handed (ps, heir) = (ps, heir_list heir)

first_handed :
    (ps : List PlayerInfo)
    → handed (elim ps [ [] ↦ ([], none) | q ∷ qs ↦ (take_control q ∷ qs, some (take_control q)) ])
      ≡ handed_on true ps
first_handed [] = refl
first_handed (p ∷ ps) = refl

handed-stayers :
    (role : ℕ) (control : Bool) (ps : List PlayerInfo)
    → handed (stayers role control ps) ≡ handed_on control (keep (λ p. not (p.role_id == role)) ps)
handed-stayers role false ps = ap handed (stayers_control role ps).0
handed-stayers role true ps = ap handed (stayers_control role ps).1 ∙ first_handed _

told_lem :
    (me : PlayerInfo) (r : List PlayerInfo × Option PlayerInfo) (w : World)
    → deliveries w.listeners (hall_packet (left_reply (leaver_info me) r.1)) (sockets r.0)
      ≡ deliveries w.listeners (farewell me (handed r).1) (map (λ p. p.socket) (handed r).0)
unfolding left_reply leaver_info
told_lem me (ps, heir) w =
    ap (deliveries w.listeners (farewell me (heir_list heir))) (sockets_lem ps)

Replaced-Left :
    (s : ℕ) (me : PlayerInfo) (room : RoomInfo) (w w' : World)
    → Replaced s me room w w'
    → depart_room s me room w ≡ some w'
    → Left s me room w w'
unfolding room_after
Replaced-Left s me room w w' r run =
    let same = handed-stayers me.role_id me.is_room_ctl room.players in
    record {
      rooms = λ j.
          r.rooms j
          ∙ ap
              (λ v.
                if me.room_id == j
                then if is_last room then none else some (room_of room v.0)
                else find_entity_room j w.cache)
              same;
      told =
          r.told
          ∙ ap (λ ds. if is_last room then w.sent else w.sent ++ ds)
              (told_lem me (stayers me.role_id me.is_room_ctl room.players) w
                ∙ ap (λ v. deliveries w.listeners (farewell me v.1) (map (λ p. p.socket) v.0))
                    same);
      players = λ j.
          depart_room-players s me room w w' j run
          ∙ ap
              (λ v.
                map_some
                  (λ e.
                    at_socket s j (λ p. record p { room_id = 0; room_state = rt_idle })
                      (if is_last room then e else take_charge v.1 j e))
                  (get_entity j w.cache))
              same;
    }

-- A call of `depart` that returns, for a client whose `PlayerInfo` names a room: where all places but
-- one are free, the room is removed and nothing is sent. Otherwise the room has one more free place and
-- exactly the members with another role than the client's, in their order, of whom the first has the
-- control now where the client had it; each of them that has an observer is sent the leaver and the
-- new controller. The client's player names no room any more and is idle, and the player on the new
-- controller's socket has the control. No other room and no other player changes.
pub depart-Left :
    (s : ℕ) (e : Entity) (room : RoomInfo) (w w' : World)
    → get_entity s w.cache ≡ some e
    → find_entity_room e.role_info.room_id w.cache ≡ some room
    → depart s w ≡ some w'
    → Left s e.role_info room w w'
depart-Left s e room w w' known found run =
    let left = sym (depart_found s e room w known found) ∙ run in
    Replaced-Left s e.role_info room w w' (depart_room-Replaced s e.role_info room w w' left) left
