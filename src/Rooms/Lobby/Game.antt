-- ===== src/Rooms/Lobby/Game.antt =====
-- The messages of a running game, the heartbeats and new clients, as the lobby sees them.
use jira_game.Base.{
  ==_iff, After, After->>=, After-if, After-map, After-some, Bool-cases, Option-cases, [], ap,
  contains, if◌then◌else◌, inl, inr, lookup, none, refl, some, sym, List, ℕ, ◌==◌, ◌>>=◌, ◌||◌, ◌∙◌,
  ◌∷◌, ◌≡◌,
}
use jira_game.Proto.{CurScene, GameMainMsgType, GameMainRequest, PlayerInfo}
use jira_game.World.{World}
use jira_game.Cache.{
  Cache, Entity, check_session_valid, entity_room_remove_member, find_entity_room, get_entity,
  modify_entity, set_role_info,
}
use jira_game.Cache.Laws.{
  find_entity_room-remove, find_entity_room-set_entity, find_entity_room-set_role_info,
}
use jira_game.Hall.Replies.{sockets}
use jira_game.JiraEvent.{add_listenner, send_all}
use jira_game.JiraEvent.Laws.{send_all-cache}
use jira_game.KeepAlive.{is_main_scene, is_wait_room, start, start_timer, update_info}
use jira_game.MainScene.{dispatch, main_logic}
use jira_game.MainScene.Rsync.{merge_info, rsync}
use jira_game.MainScene.GameOver.{game_over, out_of_room, reset_members}
use jira_game.Server.{accept_client}
use jira_game.Rooms.Events.{SameRooms}
use jira_game.Rooms.Lobby.{Ends, lobby, members, plays, roll, wins}
use jira_game.Rooms.Lobby.Steps.{Stored, roll-Puts}

update_info-SameRooms :
    (s : ℕ) (scene : CurScene) (w : World) → After (SameRooms w) (update_info s scene w)
unfolding update_info
update_info-SameRooms s scene w = elim (Option-cases (lookup s w.keep_alive_info_map)) [
  | inl new ↦ rw (new, update_info) (λ j. refl)
  | inr (address, known) ↦
      rw (known, update_info)
        (After-if (SameRooms w) (contains address w.heap) _ _ (λ _ j. refl) (λ _. tt))
]

pub start-SameRooms : (s : ℕ) (scene : CurScene) (w : World) → After (SameRooms w) (start s scene w)
unfolding start start_timer modify_entity find_entity_room
start-SameRooms s scene w = elim (Option-cases (get_entity s w.cache)) [
  | inl gone ↦ rw (gone, start) (λ j. refl)
  | inr (e, found) ↦
      rw (found, start)
        (After->>= (SameRooms w)
          (if is_wait_room scene || is_main_scene scene then update_info s scene w else some w) _
          λ w' run.
            let same : SameRooms w w' =
              After-some (SameRooms w) _
                (After-if (SameRooms w) (is_wait_room scene || is_main_scene scene) _ _
                  (λ _. update_info-SameRooms s scene w) (λ _ j. refl))
                run in
            elim (Bool-cases e.has_thread) [ inl has ↦ rw has same | inr new ↦ rw new same ])
]

pub accept_client-SameRooms : (s : ℕ) (w : World) → SameRooms w (accept_client s w)
unfolding accept_client add_listenner modify_entity find_entity_room
accept_client-SameRooms s w j = elim (Option-cases (get_entity s w.cache)) [
  | inl new ↦ rw (new, accept_client) (find_entity_room-set_entity j s _ w.cache)
  | inr (e, known) ↦ rw (known, accept_client) refl
]

-- The rooms are the same after a reset of the members.
reset_members-find :
    (j : ℕ) (ps : List PlayerInfo) (c : Cache)
    → After (λ c'. find_entity_room j c' ≡ find_entity_room j c) (reset_members ps c)
unfolding reset_members
reset_members-find j [] c = refl
reset_members-find j (p ∷ ps) c = elim (Option-cases (get_entity p.socket c)) [
  | inl gone ↦ rw (gone, reset_members) tt
  | inr (e, found) ↦
      rw (found, reset_members)
        (After-map (reset_members ps (set_role_info p.socket out_of_room c))
          (λ c' same. same ∙ find_entity_room-set_role_info j p.socket out_of_room c)
          (reset_members-find j ps (set_role_info p.socket out_of_room c)))
]

no_room :
    (j id : ℕ) (c : Cache)
    → find_entity_room id c ≡ none
    → (if id == j then none else find_entity_room j c) ≡ find_entity_room j c
no_room j id c gone = elim (Bool-cases (id == j)) [
  | inl same ↦ rw same (sym gone ∙ ap (λ i. find_entity_room i c) ((==_iff id j).0 same))
  | inr other ↦ rw other refl
]

module _ (s : ℕ) (w : World) (e : Entity) (known : get_entity s w.cache ≡ some e) where
  abbrev Outcome : World → Type 0
  Outcome w' = Ends e.role_info.room_id (lobby w) (lobby w')

  unchanged : (w' : World) → SameRooms w w' → Outcome w'
  unchanged w' same = plays (λ j. ap roll (same j))

  removed :
      (c : Cache)
      → ((j : ℕ) → find_entity_room j c ≡ find_entity_room j w.cache)
      → Stored e.role_info.room_id none w
          (record w { cache = entity_room_remove_member e.role_info.room_id c })
  removed c same j =
      find_entity_room-remove j e.role_info.room_id c
      ∙ ap (λ o. if e.role_info.room_id == j then none else o) (same j)

  rsync-Ends : (kind : GameMainMsgType) (req : GameMainRequest) → After Outcome (rsync kind s req w)
  unfolding rsync
  rsync-Ends kind req =
      rw (known, ◌>>=◌)
        (elim (Option-cases (find_entity_room e.role_info.room_id w.cache)) [
          | inl gone ↦ rw gone (unchanged w (λ j. refl))
          | inr (room, found) ↦ rw found (
              let c = set_role_info s (merge_info req.player_info) w.cache in
              unchanged (send_all (sockets room.players) _ (record w { cache = c })) (λ j.
                ap (find_entity_room j)
                  (send_all-cache (sockets room.players) _ (record w { cache = c }))
                ∙ find_entity_room-set_role_info j s _ w.cache))
        ])

  game_over-Ends : After Outcome (game_over s w)
  unfolding game_over
  game_over-Ends =
      let id = e.role_info.room_id in
      rw (known, ◌>>=◌)
        (elim (Option-cases (find_entity_room id w.cache)) [
          | inl gone ↦ rw gone (
              unchanged (record w { cache = entity_room_remove_member id w.cache })
                (λ j. removed w.cache (λ k. refl) j ∙ no_room j id w.cache gone))
          | inr (room, found) ↦ rw found (
              After->>= Outcome (reset_members room.players w.cache) _ λ c run.
                wins (members room.players) (ap roll found) (
                  roll-Puts id none w (record w { cache = entity_room_remove_member id c })
                    (removed c (λ j.
                      After-some (λ c'. find_entity_room j c' ≡ find_entity_room j w.cache) _
                        (reset_members-find j room.players w.cache) run))))
        ])

  dispatch-Ends :
      (kind : GameMainMsgType) (req : GameMainRequest) → After Outcome (dispatch kind s req w)
  unfolding dispatch
  dispatch-Ends GameMainMsgType.rsync_attr req = rsync-Ends _ req
  dispatch-Ends GameMainMsgType.rsync_status req = rsync-Ends _ req
  dispatch-Ends GameMainMsgType.game_over req = game_over-Ends
  dispatch-Ends _ req = unchanged w (λ j. refl)

  pub main_logic-Ends :
      (req : GameMainRequest)
      → After (λ w'. Ends e.role_info.room_id (lobby w) (lobby w')) (main_logic s req w)
  unfolding main_logic
  main_logic-Ends req =
      After-if Outcome (check_session_valid s req.session_id w.cache) _ _
        (λ _. dispatch-Ends req.msg_type req) (λ _. unchanged w (λ j. refl))
