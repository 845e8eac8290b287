-- ===== src/Tests/Game.antt =====
-- The theorems on the running game, the texts and the cache at concrete inputs.
use jira_game.Base.{
  All, [], arith, contains, erase, lookup, modify, none, refl, some, ◌∷◌, ◌≡◌, ◌⊎◌,
}
use jira_game.Proto.{GameMainMsgType, GameMainRequest, RoomInfo}
use jira_game.Cache.{entity_room_remove_member, find_entity_room, get_entity, set_role_info}
use jira_game.World.{World}
use jira_game.Tests.Worlds.{
  ann, ann_session, bob_inside, bob_session, entity, game_request, pair, pair_room, player,
  world_of,
}
use jira_game.MainScene.Rsync.{rsync}
use jira_game.MainScene.Rsync.Identity.{Synced, rsync-Synced}
use jira_game.MainScene.GameOver.{game_over, reset_members}
use jira_game.MainScene.GameOver.Outcome.{Released, game_over-Released}
use jira_game.Utl.{int2_string, string2_int}
use jira_game.Utl.RoundTrip.{string2_int-int2_string}

abbrev moved : GameMainRequest
moved = game_request ann_session GameMainMsgType.rsync_attr (record (player 0 9) { hp = 7 })

rsync-Synced_example :
    (w' : World) × (rsync GameMainMsgType.rsync_attr 10 moved pair ≡ some w')
    × (((find_entity_room 500123 pair.cache ≡ none) × (w' ≡ pair))
        ⊎ ((room : RoomInfo) × (find_entity_room 500123 pair.cache ≡ some room)
            × Synced GameMainMsgType.rsync_attr 10 moved.player_info room pair w'))
unfolding get_entity lookup
rsync-Synced_example =
    rsync-Synced GameMainMsgType.rsync_attr 10 moved pair (entity 10 ann_session ann) refl

abbrev ended : World
ended = world_of [] (
    (10, entity 10 ann_session (record ann { room_id = 0 }))
    ∷ (20, entity 20 bob_session (record bob_inside { room_id = 0 }))
    ∷ [])

game_over-Released_example :
    (find_entity_room 500123 ended.cache ≡ none)
    × All (λ p. Released p.socket ended.cache) pair_room.players
    × (ended.sent ≡ [])
unfolding game_over reset_members set_role_info entity_room_remove_member get_entity
    find_entity_room lookup modify erase contains
game_over-Released_example =
    game_over-Released 10 pair ended (entity 10 ann_session ann) pair_room refl refl refl

-- A game in which one of the members has no entity any more.
abbrev deserted : World
deserted = world_of ((500123, pair_room) ∷ []) ((10, entity 10 ann_session ann) ∷ [])

string2_int-int2_string_example : string2_int (int2_string 4294967254) ≡ 4294967254
string2_int-int2_string_example = string2_int-int2_string 4294967254 (omega arith)
