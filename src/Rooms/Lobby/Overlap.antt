-- ===== src/Rooms/Lobby/Overlap.antt =====
-- Two threads that are in LeaveRoom at once (GameLogic/SceneChain/HallScene.cpp and KeepAlive.cpp of
-- DNW_Server/Server), each of which has read the room and copied the players that stay before the other
-- removes the room, which deletes it, and puts its own copy there. The cache has no lock. The code
-- writes to the entity of the new controller while it copies, and so before the other's writes, which
-- do not touch what it writes there.
use jira_game.Base.{Bool, ap, false, if◌then◌else◌, refl, some, sym, true, ℕ, ◌==◌, ◌∙◌, ◌≡◌}
use jira_game.Proto.{PlayerInfo, RoomInfo}
use jira_game.World.{World}
use jira_game.Cache.{find_entity_room}
use jira_game.Hall.Leave.{depart_room, room_after, stayers}
use jira_game.Hall.Leave.Replaced.{depart_room-Replaced, is_last}
use jira_game.Rooms.Lobby.{Puts, left, lobby, members}
use jira_game.Rooms.Lobby.Members.{members-stayers}
use jira_game.Rooms.Lobby.Steps.{Stored, members-Puts}

abbrev others : PlayerInfo → RoomInfo → RoomInfo
others me room = room_after room (stayers me.role_id me.is_room_ctl room.players).0

others-Puts :
    (id : ℕ) (me : PlayerInfo) (room : RoomInfo) (w w' : World)
    → Stored id (some (others me room)) w w'
    → Puts id (some (left me.role_id (members room.players))) (lobby w) (lobby w')
unfolding room_after
others-Puts id me room w w' stored =
    members-Puts id (others me room) _ w w' stored
      (members-stayers me.role_id me.is_room_ctl room.players)

-- The second of two writes to one place counts.
overwritten {ℓ} :
    {A : Type ℓ} (b : Bool) (x y z : A)
    → (if b then x else if b then y else z) ≡ (if b then x else z)
overwritten true x y z = refl
overwritten false x y z = refl

stored :
    (s : ℕ) (me : PlayerInfo) (room : RoomInfo) (w w' : World)
    → is_last room ≡ false
    → depart_room s me room w ≡ some w'
    → Stored me.room_id (some (others me room)) w w'
stored s me room w w' more run j = (depart_room-Replaced s me room w w' run).rooms j ∙ rw more refl

-- Two players leave one room at once, in which by its counts more than one place is taken, and both
-- threads have copied the players that stay before either puts its copy into the cache. Where both
-- calls return: the first write takes the first player out of the room, and the second puts the room
-- there as both have read it, without the second player only, so that the first is in it again.
pub depart_room_overlapping :
    (s1 s2 : ℕ) (me1 me2 : PlayerInfo) (room : RoomInfo) (w w1 w2 : World)
    → me2.room_id ≡ me1.room_id
    → is_last room ≡ false
    → depart_room s1 me1 room w ≡ some w1
    → depart_room s2 me2 room w1 ≡ some w2
    → Puts me1.room_id (some (left me1.role_id (members room.players))) (lobby w) (lobby w1)
      × Puts me2.room_id (some (left me2.role_id (members room.players))) (lobby w) (lobby w2)
depart_room_overlapping s1 s2 me1 me2 room w w1 w2 same more first second =
    let one = stored s1 me1 room w w1 more first in
    let two = stored s2 me2 room w1 w2 more second in
    (
      others-Puts me1.room_id me1 room w w1 one,
      others-Puts me2.room_id me2 room w w2 (λ j.
          two j
          ∙ ap (λ o. if me2.room_id == j then some (others me2 room) else o) (one j)
          ∙ ap
              (λ i.
                if me2.room_id == j
                then some (others me2 room)
                else if i == j
                then some (others me1 room)
                else find_entity_room j w.cache)
              (sym same)
          ∙ overwritten (me2.room_id == j) _ (some (others me1 room)) _),
    )
