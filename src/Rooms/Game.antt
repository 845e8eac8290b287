-- ===== src/Rooms/Game.antt =====
-- A property of all rooms under the messages of a running game.
use jira_game.Base.{
  After, After->>=, After-if, After-some, List, Option-cases, [], inl, inr, ℕ, ◌∷◌,
}
use jira_game.Proto.{GameMainMsgType, GameMainRequest, PlayerInfo, RoomInfo}
use jira_game.World.{World}
use jira_game.Cache.{Cache, check_session_valid, find_entity_room, get_entity}
use jira_game.Cache.EveryRoom.{EveryRoom, remove-EveryRoom, set_role_info-EveryRoom}
use jira_game.MainScene.{dispatch, main_logic}
use jira_game.MainScene.Rsync.{rsync}
use jira_game.MainScene.GameOver.{game_over, reset_members}
use jira_game.Rooms.Changes.{Rooms, sent_all}

module _ (P : ℕ → RoomInfo → Type 0) where
  reset_members-EveryRoom :
      (ps : List PlayerInfo) (c : Cache) → EveryRoom P c → After (EveryRoom P) (reset_members ps c)
  unfolding reset_members
  reset_members-EveryRoom [] c h = h
  reset_members-EveryRoom (p ∷ ps) c h = elim (Option-cases (get_entity p.socket c)) [
    | inl gone ↦ rw (gone, reset_members) tt
    | inr (e, found) ↦
        rw (found, reset_members)
          (reset_members-EveryRoom ps _ (set_role_info-EveryRoom P p.socket _ c h))
  ]

  rsync-Rooms :
      (kind : GameMainMsgType) (s : ℕ) (req : GameMainRequest) (w : World)
      → Rooms P w
      → After (Rooms P) (rsync kind s req w)
  unfolding rsync
  rsync-Rooms kind s req w h = After->>= (Rooms P) (get_entity s w.cache) _ λ e he.
      elim (Option-cases (find_entity_room e.role_info.room_id w.cache)) [
        | inl gone ↦ rw gone h
        | inr (room, found) ↦ rw found (sent_all P _ _ _ (set_role_info-EveryRoom P s _ w.cache h))
      ]

  game_over-Rooms : (s : ℕ) (w : World) → Rooms P w → After (Rooms P) (game_over s w)
  unfolding game_over
  game_over-Rooms s w h = After->>= (Rooms P) (get_entity s w.cache) _ λ e he.
      elim (Option-cases (find_entity_room e.role_info.room_id w.cache)) [
        | inl gone ↦ rw gone (remove-EveryRoom P _ w.cache h)
        | inr (room, found) ↦ rw found (
            After->>= (Rooms P) (reset_members room.players w.cache) _ λ c hc.
              remove-EveryRoom P _ c
                (After-some (EveryRoom P) _ (reset_members-EveryRoom room.players w.cache h) hc))
      ]

  main_dispatch-Rooms :
      (kind : GameMainMsgType) (s : ℕ) (req : GameMainRequest) (w : World)
      → Rooms P w
      → After (Rooms P) (dispatch kind s req w)
  unfolding dispatch
  main_dispatch-Rooms GameMainMsgType.keep_alive s req w h = h
  main_dispatch-Rooms GameMainMsgType.rsync_attr s req w h = rsync-Rooms _ s req w h
  main_dispatch-Rooms GameMainMsgType.rsync_status s req w h = rsync-Rooms _ s req w h
  main_dispatch-Rooms GameMainMsgType.game_over s req w h = game_over-Rooms s w h
  main_dispatch-Rooms GameMainMsgType.break_line s req w h = h

  pub main_logic-Rooms :
      (s : ℕ) (req : GameMainRequest) (w : World) → Rooms P w → After (Rooms P) (main_logic s req w)
  unfolding main_logic
  main_logic-Rooms s req w h =
      After-if (Rooms P) (check_session_valid s req.session_id w.cache) _ _
        (λ _. main_dispatch-Rooms req.msg_type s req w h) (λ _. h)
