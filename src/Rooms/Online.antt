-- ===== src/Rooms/Online.antt =====
-- When the operations return that follow the sockets of the members.
use jira_game.Base.{
  All, Bool, Bool-cases, List, [], false, inl, inr, keep, refl, some, true, ℕ, ◌&&◌, ◌==◌, ◌>>=◌,
  ◌∙◌, ◌∷◌, ◌≡◌,
}
use jira_game.Proto.{PlayerInfo, RoomInfo}
use jira_game.World.{World}
use jira_game.Cache.{Cache, Entity, find_entity_room, get_entity, set_role_info}
use jira_game.Hall.Leave.{depart, depart_room, leave_others, promote_entity, stayers, take_control}
use jira_game.Hall.Leave.Replaced.{depart_found, is_last}
use jira_game.Cache.Laws.{get_entity-set_role_info}
use jira_game.Hall.Ready.{all_player_waite, game_start}
use jira_game.MainScene.GameOver.{game_over, out_of_room, reset_members}

-- Every player of a list has an entity.
abbrev pub Online : Cache → List PlayerInfo → Type 0
Online c = All λ p. (e : Entity) × (get_entity p.socket c ≡ some e)

promote-stayers :
    (role : ℕ) (b : Bool) (ps : List PlayerInfo) (c : Cache)
    → Online c ps
    → (c' : Cache) × (promote_entity (stayers role b ps).1 c ≡ some c')
unfolding stayers promote_entity
promote-stayers role b [] c h = (c, refl)
promote-stayers role b (p ∷ ps) c h = elim (Bool-cases (p.role_id == role)) [
  | inl gone ↦ rw (gone, stayers) (promote-stayers role (b && true) ps c h.1)
  | inr stays ↦ elim (Bool-cases b) [
    | inl hand_on ↦ (
      set_role_info p.socket take_control c,
      rw (stays, hand_on, stayers, promote_entity, h.0.1) refl,
    )
    | inr keep ↦ rw (stays, keep, stayers) (promote-stayers role (false && false) ps c h.1)
  ]
]

depart_room_total :
    (s : ℕ) (me : PlayerInfo) (room : RoomInfo) (w : World)
    → Online w.cache room.players
    → (w' : World) × (depart_room s me room w ≡ some w')
unfolding depart_room leave_others
depart_room_total s me room w online = elim (Bool-cases (is_last room)) [
  | inl last ↦ rw last (_, refl)
  | inr more ↦
      let (c, run) = promote-stayers me.role_id me.is_room_ctl room.players w.cache online in
      rw (more, run, ◌>>=◌) (_, refl)
]

-- Leaving a room returns where the player has an entity and every member of the room has one.
pub depart_total :
    (s : ℕ) (e : Entity) (room : RoomInfo) (w : World)
    → get_entity s w.cache ≡ some e
    → find_entity_room e.role_info.room_id w.cache ≡ some room
    → Online w.cache room.players
    → (w' : World) × (depart s w ≡ some w')
depart_total s e room w he hr online =
    let (w', run) = depart_room_total s e.role_info room w online in
    (w', depart_found s e room w he hr ∙ run)

all_player_waite_total :
    (role : ℕ) (ps : List PlayerInfo) (c : Cache)
    → Online c ps
    → (ready : Bool) × (all_player_waite role ps c ≡ some ready)
unfolding all_player_waite
all_player_waite_total role [] c h = (true, refl)
all_player_waite_total role (p ∷ ps) c h =
    let (ready, rest) = all_player_waite_total role ps c h.1 in
    elim (Bool-cases (p.role_id == role)) [
      | inl me ↦ (ready, rw me rest)
      | inr other ↦ elim (Bool-cases h.0.0.role_info.game_waite) [
        | inl waits ↦ (ready, rw (other, h.0.1, ◌>>=◌, waits) rest)
        | inr lazy ↦ (false, rw (other, h.0.1, ◌>>=◌, lazy) refl)
      ]
    ]

-- Starting a game returns where the player is in a room and every member of it has an entity.
pub game_start_total :
    (s : ℕ) (e : Entity) (room : RoomInfo) (w : World)
    → get_entity s w.cache ≡ some e
    → find_entity_room e.role_info.room_id w.cache ≡ some room
    → Online w.cache room.players
    → (w' : World) × (game_start s w ≡ some w')
unfolding game_start
game_start_total s e room w he hr online =
    let (ready, run) = all_player_waite_total e.role_info.role_id room.players w.cache online in
    rw (he, hr, run, ◌>>=◌) (_, refl)

Online-set_role_info :
    (s : ℕ) (f : PlayerInfo → PlayerInfo) (ps : List PlayerInfo) (c : Cache)
    → Online c ps
    → Online (set_role_info s f c) ps
Online-set_role_info s f [] c h = tt
Online-set_role_info s f (p ∷ ps) c h = (
  elim (Bool-cases (s == p.socket)) [
    | inl same ↦ (
      record h.0.0 { role_info = f h.0.0.role_info },
      get_entity-set_role_info p.socket s f c ∙ rw (same, h.0.1) refl,
    )
    | inr other ↦ (h.0.0, get_entity-set_role_info p.socket s f c ∙ rw other h.0.1)
  ],
  Online-set_role_info s f ps c h.1,
)

reset_members_total :
    (ps : List PlayerInfo) (c : Cache) → Online c ps → (c' : Cache) × (reset_members ps c ≡ some c')
unfolding reset_members
reset_members_total [] c h = (c, refl)
reset_members_total (p ∷ ps) c h =
    let (c', run) = reset_members_total ps _ (Online-set_role_info p.socket out_of_room ps c h.1) in
    (c', rw (h.0.1, reset_members) run)

-- The end of a game returns where the player is in a room and every member of it has an entity.
game_over_total :
    (s : ℕ) (e : Entity) (room : RoomInfo) (w : World)
    → get_entity s w.cache ≡ some e
    → find_entity_room e.role_info.room_id w.cache ≡ some room
    → Online w.cache room.players
    → (w' : World) × (game_over s w ≡ some w')
unfolding game_over
game_over_total s e room w he hr online =
    let (c, run) = reset_members_total room.players w.cache online in
    rw (he, ◌>>=◌, hr, run) (_, refl)
