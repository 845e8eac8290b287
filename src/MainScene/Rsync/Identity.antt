-- ===== src/MainScene/Rsync/Identity.antt =====
-- What a synchronisation leaves alone, and what it sends.
use jira_game.Base.{
  List, Option, Option-cases, [], ap, if◌then◌else◌, inl, inr, map, map_some, none, refl, some, sym,
  ℕ, ◌++◌, ◌==◌, ◌>>=◌, ◌∙◌, ◌∷◌, ◌≡◌, ◌⊎◌,
}
use jira_game.Proto.{
  GameMainMsgType, GameMainRequest, Packet, PlayerInfo, RoomInfo, game_main_return, main_scene,
}
use jira_game.World.{World}
use jira_game.Cache.{Cache, Entity, find_entity_room, get_entity, set_role_info}
use jira_game.Cache.Laws.{find_entity_room-set_role_info, get_entity-set_role_info}
use jira_game.JiraEvent.{send_all}
use jira_game.JiraEvent.Laws.{deliveries, send_all-cache, send_all-sent}
use jira_game.Hall.Replies.{sockets}
use jira_game.Hall.Replies.Sockets.{sockets_lem}
use jira_game.MainScene.Rsync.{entity_infos, main_packet, merge_info, rsync}

-- An entity with the client's data, under its own room, socket and role id.
abbrev pub merged : PlayerInfo → Entity → Entity
merged sent e = record e {
  role_info = record sent {
    room_id = e.role_info.room_id;
    socket = e.role_info.socket;
    role_id = e.role_info.role_id;
  };
}

-- What the entities of a list of results hold, without those that are missing.
abbrev pub present : List (Option Entity) → List PlayerInfo
present [] = []
present (none ∷ os) = present os
present (some e ∷ os) = e.role_info ∷ present os

-- The reply of a room whose members are looked up by their sockets.
abbrev pub news : GameMainMsgType → List ℕ → Cache → Packet
news kind ss c = record {
  cur_scene = main_scene;
  reply =
      game_main_return
        (record { msg_type = kind; friend_list = present (map (λ s. get_entity s c) ss) });
}

-- No room changes, and of the entities only the client's own. Every member of the room is sent what
-- the entities of the members hold after the change.
pub record Synced (kind : GameMainMsgType) (s : ℕ) (sent : PlayerInfo) (room : RoomInfo)
    (w w' : World) : Type 0 where
  pub rooms : (j : ℕ) → find_entity_room j w'.cache ≡ find_entity_room j w.cache
  pub entities :
      (j : ℕ)
      → get_entity j w'.cache
        ≡ (if s == j then map_some (merged sent) (get_entity j w.cache) else get_entity j w.cache)
  pub told :
      w'.sent
      ≡ w.sent
        ++ deliveries w.listeners
            (news kind (map (λ p. p.socket) room.players) w'.cache)
            (map (λ p. p.socket) room.players)

entity_infos_lem :
    (ps : List PlayerInfo) (c : Cache)
    → entity_infos ps c ≡ present (map (λ s. get_entity s c) (map (λ p. p.socket) ps))
unfolding entity_infos
entity_infos_lem [] c = refl
entity_infos_lem (p ∷ ps) c = elim (Option-cases (get_entity p.socket c)) [
  | inl gone ↦ rw (gone, entity_infos) (entity_infos_lem ps c)
  | inr (e, found) ↦ rw (found, entity_infos) (ap (λ qs. e.role_info ∷ qs) (entity_infos_lem ps c))
]

sent_news :
    (kind : GameMainMsgType) (room : RoomInfo) (w : World) (c : Cache)
    → deliveries w.listeners
        (main_packet (record { msg_type = kind; friend_list = entity_infos room.players c }))
        (sockets room.players)
      ≡ deliveries w.listeners
          (news kind (map (λ p. p.socket) room.players) c)
          (map (λ p. p.socket) room.players)
sent_news kind room w c =
    ap
      (λ qs.
        deliveries w.listeners (main_packet (record { msg_type = kind; friend_list = qs }))
          (sockets room.players))
      (entity_infos_lem room.players c)
    ∙ ap (deliveries w.listeners (news kind (map (λ p. p.socket) room.players) c))
        (sockets_lem room.players)

-- A synchronisation always returns for a client that has an entity. It changes no room and no other
-- client's entity. The client's own entity has the data of the request, but keeps its room id, its
-- socket field and its role id. Every member of the room that has an observer is sent, for each member
-- that has an entity and in the order of the members, what this entity holds after the change. A client
-- in no room changes nothing.
pub rsync-Synced :
    (kind : GameMainMsgType) (s : ℕ) (req : GameMainRequest) (w : World) (e : Entity)
    → get_entity s w.cache ≡ some e
    → (w' : World) × (rsync kind s req w ≡ some w')
      × (((find_entity_room e.role_info.room_id w.cache ≡ none) × (w' ≡ w))
          ⊎ ((room : RoomInfo) × (find_entity_room e.role_info.room_id w.cache ≡ some room)
              × Synced kind s req.player_info room w w'))
unfolding rsync merge_info
rsync-Synced kind s req w e he =
    elim (Option-cases (find_entity_room e.role_info.room_id w.cache)) [
      | inl missing ↦ (w, rw (he, ◌>>=◌, missing) refl, inl (missing, refl))
      | inr (room, found) ↦ (
        send_all (sockets room.players) (packet room) (record w { cache = c }),
        rw (he, ◌>>=◌, found) refl,
        inr (
          room,
          found,
          record {
            rooms = λ j.
                ap (find_entity_room j) (send_all-cache _ _ _)
                ∙ find_entity_room-set_role_info j s _ w.cache;
            entities = λ j.
                ap (get_entity j) (send_all-cache _ _ _) ∙ get_entity-set_role_info j s _ w.cache;
            told =
                send_all-sent _ _ _
                ∙ ap (λ ds. w.sent ++ ds)
                    (sent_news kind room w c
                      ∙ ap
                          (λ c'.
                            deliveries w.listeners (news kind (map (λ p. p.socket) room.players) c')
                              (map (λ p. p.socket) room.players))
                          (sym (
                            send_all-cache (sockets room.players) (packet room)
                              (record w { cache = c }))));
          },
        ),
      )
    ]
  where
    c : Cache
    c = set_role_info s (merge_info req.player_info) w.cache

    packet : RoomInfo → Packet
    packet room =
        main_packet (record { msg_type = kind; friend_list = entity_infos room.players c })
