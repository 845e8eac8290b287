-- ===== src/MainScene/Rsync.antt =====
-- `CMainScene::RsyncAttr` and `CMainScene::RsyncStatus` of
-- DNW_Server/Server/GameLogic/SceneChain/MainScene.cpp.
pub mod Identity
use jira_game.Base.{List, Option, [], none, some, ℕ, ◌>>=◌, ◌∷◌}
use jira_game.World.{World}
use jira_game.Cache.{Cache, find_entity_room, get_entity, set_role_info}
use jira_game.Proto.{
  GameMainMsgType, GameMainRequest, GameMainReturn, Packet, PlayerInfo, game_main_return,
  main_scene,
}
use jira_game.JiraEvent.{send_all}
use jira_game.Hall.Replies.{sockets}

-- `packet.set_curscene(CS_MainScene); packet.set_allocated_gamemainreturn(&gameMainReturn);`
abbrev pub main_packet : GameMainReturn → Packet
main_packet g = record { cur_scene = main_scene; reply = game_main_return g }

-- The client's data replace the player's, but for the room, the socket and the role id.
unfoldable pub merge_info : PlayerInfo → PlayerInfo → PlayerInfo
merge_info sent me = record sent { room_id = me.room_id; socket = me.socket; role_id = me.role_id }

-- What the entities of the members hold; a member without an entity is left out.
unfoldable pub entity_infos : List PlayerInfo → Cache → List PlayerInfo
entity_infos [] c = []
entity_infos (p ∷ ps) c = elim (get_entity p.socket c) [
  | none ↦ entity_infos ps c
  | some e ↦ e.role_info ∷ entity_infos ps c
]

unfoldable pub rsync : GameMainMsgType → ℕ → GameMainRequest → World → Option World
unfolding merge_info entity_infos
rsync kind socket req w = get_entity socket w.cache >>= λ e.
    elim (find_entity_room e.role_info.room_id w.cache) [
      | none ↦ some w
      | some room ↦
          let c = set_role_info socket (merge_info req.player_info) w.cache in
          let reply : GameMainReturn = record {
            msg_type = kind;
            friend_list = entity_infos room.players c;
          } in
          some (send_all (sockets room.players) (main_packet reply) (record w { cache = c }))
    ]
