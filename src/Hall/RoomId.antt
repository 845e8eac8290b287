-- ===== src/Hall/RoomId.antt =====
-- `CHallScene::GenrateOnlyRoomID` of DNW_Server/Server/GameLogic/SceneChain/HallScene.cpp.
pub mod Fresh
use jira_game.Base.{Option, if◌then◌else◌, none, some, suc, zero, ℕ, ◌>>=◌}
use jira_game.World.{World}
use jira_game.Cache.{check_entity_room_is_only}
use jira_game.Utl.{genrate_random_id, string2_int}

-- The recursion takes one frame for each call; `none` is an exhausted stack. The id that the inner
-- call finds is dropped, and 0 is returned in its place.
unfoldable pub genrate_only_room_id : ℕ → World → Option (ℕ × World)
genrate_only_room_id zero w = none
genrate_only_room_id (suc frames) w =
    let (text, w') = genrate_random_id w in
    let id = string2_int text in
    let again = (genrate_only_room_id frames w' >>= λ r. some (0, r.1)) in
    if check_entity_room_is_only id w'.cache then some (id, w') else again
