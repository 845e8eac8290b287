-- ===== src/Hall/Ready/Outcome.antt =====
-- When `GameStart` names the members.
use jira_game.Base.{
  >>=-eq-some, All, Bool-cases, List, [], ap, false, if◌then◌else◌, inl, inr, refl, some, some_inj,
  sym, true, ℕ, ◌++◌, ◌==◌, ◌>>=◌, ◌∙◌, ◌∷◌, ◌≡◌, ◌⊎◌,
}
use jira_game.Proto.{HallMsgType, Packet, PlayerInfo, RoomInfo, empty_hall_return}
use jira_game.Cache.{Cache, Entity, find_entity_room, get_entity}
use jira_game.Hall.Ready.{all_player_waite, game_start, start_reply}
use jira_game.World.{World}
use jira_game.JiraEvent.{send_all}
use jira_game.JiraEvent.Laws.{deliveries, send_all-cache, send_all-sent}
use jira_game.Hall.Replies.{hall_packet, sockets}

-- Every member with another role has an entity, and it waits.
abbrev pub OthersWait : ℕ → Cache → List PlayerInfo → Type 0
OthersWait role c = All λ p.
    ((p.role_id == role) ≡ true)
    ⊎ ((e : Entity) × (get_entity p.socket c ≡ some e) × (e.role_info.game_waite ≡ true))

all_player_waite-OthersWait :
    (role : ℕ) (ps : List PlayerInfo) (c : Cache)
    → all_player_waite role ps c ≡ some true
    → OthersWait role c ps
unfolding all_player_waite
all_player_waite-OthersWait role [] c h = tt
all_player_waite-OthersWait role (p ∷ ps) c h = elim (Bool-cases (p.role_id == role)) [
  | inl me ↦ (inl me, all_player_waite-OthersWait role ps c (rw me at h))
  | inr other ↦
      let h' : (get_entity p.socket c >>= λ e.
      if e.role_info.game_waite then all_player_waite role ps c else some false)
          ≡ some true =
        rw other at h in
      let (e, he, k) = >>=-eq-some (get_entity p.socket c) _ h' in
      elim (Bool-cases e.role_info.game_waite) [
        | inl ready ↦ (inr (e, he, ready), all_player_waite-OthersWait role ps c (rw ready at k))
        | inr lazy ↦ let no : some false ≡ some true = rw lazy at k in absurd (cc no)
      ]
]

OthersWait-all_player_waite :
    (role : ℕ) (ps : List PlayerInfo) (c : Cache)
    → OthersWait role c ps
    → all_player_waite role ps c ≡ some true
unfolding all_player_waite
OthersWait-all_player_waite role [] c h = refl
OthersWait-all_player_waite role (p ∷ ps) c h = elim (Bool-cases (p.role_id == role)) [
  | inl me ↦ rw me (OthersWait-all_player_waite role ps c h.1)
  | inr other ↦ elim (h.0) [
    | inl me ↦ absurd (cc (sym me ∙ other))
    | inr (e, he, ready) ↦ rw (other, he, ready) (OthersWait-all_player_waite role ps c h.1)
  ]
]

-- What `GameStart` sends.
abbrev pub start_packet : List PlayerInfo → Packet
start_packet members =
    hall_packet
      (record empty_hall_return { msg_type = some HallMsgType.game_start; friend_list = members })

-- `GameStart` changes no room and no entity, and sends every member of the room the same reply. The
-- reply names all members if every member with another role waits, and otherwise nobody.
pub game_start-OthersWait :
    (s : ℕ) (w w' : World) (e : Entity) (room : RoomInfo)
    → get_entity s w.cache ≡ some e
    → find_entity_room e.role_info.room_id w.cache ≡ some room
    → game_start s w ≡ some w'
    → (w'.cache ≡ w.cache)
      × (((OthersWait e.role_info.role_id w.cache room.players)
            × (w'.sent
                ≡ w.sent
                  ++ deliveries w.listeners (start_packet room.players) (sockets room.players)))
          ⊎ ((¬ OthersWait e.role_info.role_id w.cache room.players)
              × (w'.sent
                  ≡ w.sent ++ deliveries w.listeners (start_packet []) (sockets room.players))))
unfolding game_start start_reply
game_start-OthersWait s w w' e room he hr h =
    let role = e.role_info.role_id in
    let h' : (all_player_waite role room.players w.cache >>= λ ready.
    some (send_all (sockets room.players) (hall_packet (start_reply ready room)) w))
        ≡ some w' =
      rw (he, ◌>>=◌, hr) at h in
    let (ready, hw, k) = >>=-eq-some (all_player_waite role room.players w.cache) _ h' in
    elim (Bool-cases ready) [
      | inl yes' ↦ (
        ap (λ v. v.cache) (sym (some_inj k)) ∙ send_all-cache _ _ w,
        inl (
          all_player_waite-OthersWait role room.players w.cache (hw ∙ ap some yes'),
          ap (λ v. v.sent) (sym (some_inj k)) ∙ send_all-sent _ _ w ∙ rw yes' refl,
        ),
      )
      | inr no' ↦ (
        ap (λ v. v.cache) (sym (some_inj k)) ∙ send_all-cache _ _ w,
        inr (
          (λ all.
              let clash : some true ≡ some false =
                sym (OthersWait-all_player_waite role room.players w.cache all)
                ∙ hw
                ∙ ap some no' in
              cc clash),
          ap (λ v. v.sent) (sym (some_inj k)) ∙ send_all-sent _ _ w ∙ rw no' refl,
        ),
      )
    ]
