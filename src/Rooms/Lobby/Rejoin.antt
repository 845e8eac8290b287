-- ===== src/Rooms/Lobby/Rejoin.antt =====
-- The request to join a room of a player who is in it, as a step of the lobby.
use jira_game.Base.{
  Bool-cases, List, Option, ap, false, if◌then◌else◌, inl, inr, none, refl, some, subst, sym, ℕ,
  ◌==◌, ◌∙◌, ◌≡◌,
}
use jira_game.Proto.{Packet, PlayerInfo, RoomInfo}
use jira_game.World.{World, on_cache}
use jira_game.Cache.{Cache, entity_room_remove_member, find_entity_room, set_role_info}
use jira_game.Cache.Laws.{find_entity_room-remove, find_entity_room-set_role_info}
use jira_game.JiraEvent.{send_all}
use jira_game.JiraEvent.Laws.{send_all-cache}
use jira_game.Hall.Replies.{hall_packet, sockets}
use jira_game.Hall.Leave.{close_room, left_reply, replace_room, room_after, set_idle, take_control}
use jira_game.Hall.Leave.Replaced.{find_entity_room-replace_room, is_last}
use jira_game.Hall.Join.{find_role, promote_checked, rejoin, remaining}
use jira_game.Rooms.Balance.{not_none}
use jira_game.Rooms.Hall.{find_role-role_id}
use jira_game.Rooms.Lobby.{closes, leaves, left, members, roll}
use jira_game.Rooms.Lobby.Members.{members-remaining}
use jira_game.Rooms.Lobby.Steps.{Lawful, Refined, alone, members-Puts, roll-Puts}

promote_checked-rooms :
    (heir : Option PlayerInfo) (c : Cache) (j : ℕ)
    → find_entity_room j (promote_checked heir c) ≡ find_entity_room j c
unfolding promote_checked
promote_checked-rooms none c j = refl
promote_checked-rooms (some p) c j = find_entity_room-set_role_info j p.socket take_control c

closed-rooms :
    (j s id : ℕ) (c : Cache)
    → find_entity_room j (close_room s id c) ≡ (if id == j then none else find_entity_room j c)
unfolding close_room
closed-rooms j s id c =
    find_entity_room-set_role_info j s set_idle (entity_room_remove_member id c)
    ∙ find_entity_room-remove j id c

rejoined-rooms :
    (j s id : ℕ) (others : RoomInfo) (heir : Option PlayerInfo) (ss : List ℕ) (p : Packet)
    (w : World)
    → find_entity_room j (
        set_role_info s set_idle
          (send_all ss p (on_cache (λ c. replace_room id others (promote_checked heir c)) w)).cache)
      ≡ (if id == j then some others else find_entity_room j w.cache)
rejoined-rooms j s id others heir ss p w =
    let moved = on_cache (λ c. replace_room id others (promote_checked heir c)) w in
    find_entity_room-set_role_info j s set_idle (send_all ss p moved).cache
    ∙ ap (find_entity_room j) (send_all-cache ss p moved)
    ∙ find_entity_room-replace_room j id others (promote_checked heir w.cache)
    ∙ ap (λ o. if id == j then some others else o) (promote_checked-rooms heir w.cache j)

pub rejoin-Refined :
    (s id : ℕ) (room : RoomInfo) (mine : PlayerInfo) (w : World) (who : ℕ)
    → Lawful id room
    → find_entity_room id w.cache ≡ some room
    → find_role who room.players ≡ some mine
    → Refined who w (rejoin s mine room w)
unfolding rejoin room_after
rejoin-Refined s id room mine w who (ok, b, few) found here =
    let own = subst (λ k. find_entity_room k w.cache ≡ some room) (sym ok.named) found in
    let (staying, heir) = remaining mine.role_id false false room.players in
    let packet = hall_packet (left_reply mine heir) in
    let closed = on_cache (close_room s room.room_id) w in
    let moved =
      on_cache (λ c. replace_room room.room_id (room_after room staying) (promote_checked heir c))
        w in
    let rest = on_cache (set_role_info s set_idle) (send_all (sockets staying) packet moved) in
    elim (Bool-cases (is_last room)) [
      | inl last ↦ rw last (
          closes room.room_id (members room.players) (ap roll own)
            (alone who id id room ok b few (not_none _ here) last)
            (roll-Puts room.room_id none w closed (λ j. closed-rooms j s room.room_id w.cache)))
      | inr more ↦ rw more (
          leaves room.room_id (members room.players) (ap roll own) (
            members-Puts room.room_id (room_after room staying) _ w rest
              (λ j. rejoined-rooms j s room.room_id (room_after room staying) heir _ packet w)
              (members-remaining mine.role_id room.players
                ∙ ap (λ k. left k (members room.players))
                    (find_role-role_id who room.players here))))
    ]
