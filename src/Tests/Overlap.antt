-- ===== src/Tests/Overlap.antt =====
-- Ann and Bob leave their room at once.
use jira_game.Base.{lookup, refl, some, ◌≡◌}
use jira_game.World.{World}
use jira_game.Cache.{get_entity}
use jira_game.Hall.Leave.{depart_room}
use jira_game.Rooms.Lobby.{Puts, left, lobby as lobby_of, members}
use jira_game.Rooms.Lobby.Overlap.{depart_room_overlapping}
use jira_game.Tests.Worlds.{ann, bob_inside, or_same, pair, pair_room}

abbrev without_ann : World
without_ann = or_same (depart_room 10 ann pair_room pair) pair

abbrev with_ann : World
with_ann = or_same (depart_room 20 bob_inside pair_room without_ann) without_ann

ann_leaves : depart_room 10 ann pair_room pair ≡ some without_ann
unfolding depart_room get_entity lookup
ann_leaves = refl

bob_leaves : depart_room 20 bob_inside pair_room without_ann ≡ some with_ann
unfolding depart_room get_entity lookup
bob_leaves = refl

depart_room_overlapping_example :
    Puts 500123 (some (left 1 (members pair_room.players))) (lobby_of pair) (lobby_of without_ann)
    × Puts 500123 (some (left 2 (members pair_room.players))) (lobby_of pair) (lobby_of with_ann)
depart_room_overlapping_example =
    depart_room_overlapping 10 20 ann bob_inside pair_room pair without_ann with_ann refl refl
      ann_leaves bob_leaves
