-- ===== src/MainScene/GameOver.antt =====
-- `CMainScene::GameOver` of DNW_Server/Server/GameLogic/SceneChain/MainScene.cpp.
pub mod Outcome
use jira_game.Base.{List, Option, [], none, some, ℕ, ◌>>=◌, ◌∷◌}
use jira_game.World.{World}
use jira_game.Cache.{Cache, entity_room_remove_member, find_entity_room, get_entity, set_role_info}
use jira_game.Proto.{PlayerInfo}

abbrev pub out_of_room : PlayerInfo → PlayerInfo
out_of_room p = record p { room_id = 0 }

-- `GetEntity(elment.socket())->getRoleInfo()->set_roomid(0)` for each member, without a null check
unfoldable pub reset_members : List PlayerInfo → Cache → Option Cache
reset_members [] c = some c
reset_members (p ∷ ps) c = elim (get_entity p.socket c) [
  | none ↦ none
  | some e ↦ reset_members ps (set_role_info p.socket out_of_room c)
]

unfoldable pub game_over : ℕ → World → Option World
unfolding reset_members
game_over socket w = get_entity socket w.cache >>= λ e.
    let id = e.role_info.room_id in
    let reset : Option Cache = elim (find_entity_room id w.cache) [
      | none ↦ some w.cache
      | some room ↦ reset_members room.players w.cache
    ] in
    (reset >>= λ c. some (record w { cache = entity_room_remove_member id c }))
