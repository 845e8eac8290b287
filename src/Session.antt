-- ===== src/Session.antt =====
-- The check of the session id, CheckSessionValid of DNW_Server/Server/Cache/Cache.cpp, in the scenes.
use jira_game.Base.{
  ==_refl, Bool-cases, Dict, Option, Option-cases, Text, [], false, if◌then◌else◌, inl, inr, insert,
  lookup, lookup-insert, none, refl, some, text_eq, text_eq_iff, true, ℕ, ◌∙◌, ◌≡◌, ◌≢◌,
}
use jira_game.World.{World}
use jira_game.Hall.{hall_logic}
use jira_game.MainScene.{main_logic}
use jira_game.Proto.{GameMainRequest, HallRequest}
use jira_game.Server.{accept_client}
use jira_game.JiraEvent.{add_listenner}
use jira_game.JiraEvent.Laws.{observer}
use jira_game.Cache.Laws.{get_entity-set_entity}
use jira_game.Cache.{Cache, Entity, check_session_valid, get_entity, new_entity, set_entity}

pub session_of_valid :
    (s : ℕ) (t : Text) (c : Cache)
    → check_session_valid s t c ≡ true
    → (e : Entity) × (get_entity s c ≡ some e) × (e.session_id ≡ t)
unfolding check_session_valid get_entity
session_of_valid s t c h = elim (Option-cases (lookup s c.entities)) [
  | inl missing ↦ let no : false ≡ true = rw (missing, check_session_valid) at h in absurd (cc no)
  | inr (e, found) ↦
      let same : text_eq e.session_id t ≡ true = rw (found, check_session_valid) at h in
      (e, found, (text_eq_iff e.session_id t).0 same)
]

guarded :
    (s : ℕ) (t : Text) (w : World) (run : Option World)
    → (if check_session_valid s t w.cache then run else some w) ≢ some w
    → (e : Entity) × (get_entity s w.cache ≡ some e) × (e.session_id ≡ t)
guarded s t w run changed = elim (Bool-cases (check_session_valid s t w.cache)) [
  | inl valid ↦ session_of_valid s t w.cache valid
  | inr invalid ↦ absurd (changed (rw invalid refl))
]

-- If a request to the hall changes anything at all, sends anything or ends the process, then the
-- client's socket has an entity whose session id is the request's.
pub hall_needs_session :
    (s : ℕ) (req : HallRequest) (w : World)
    → hall_logic s req w ≢ some w
    → (e : Entity) × (get_entity s w.cache ≡ some e) × (e.session_id ≡ req.session_id)
unfolding hall_logic
hall_needs_session s req w = guarded s req.session_id w _

-- If a request of a running game changes anything at all, sends anything or ends the process, then
-- the client's socket has an entity whose session id is the request's.
game_needs_session :
    (s : ℕ) (req : GameMainRequest) (w : World)
    → main_logic s req w ≢ some w
    → (e : Entity) × (get_entity s w.cache ≡ some e) × (e.session_id ≡ req.session_id)
unfolding main_logic
game_needs_session s req w = guarded s req.session_id w _

pub valid_of_entity :
    (s : ℕ) (t : Text) (e : Entity) (c : Cache)
    → get_entity s c ≡ some e
    → check_session_valid s t c ≡ text_eq e.session_id t
unfolding check_session_valid get_entity
valid_of_entity s t e c found = rw (found, check_session_valid) refl

observer-insert : (s k : ℕ) (d : Dict (Option ℕ)) → observer s (insert s (some k) d) ≡ some k
observer-insert s k d =
    let e : lookup s (insert s (some k) d) ≡ some (some k) =
      lookup-insert s s (some k) d ∙ rw (==_refl s) refl in
    rw (e, observer) refl

-- A client on a socket without an entity is accepted with the empty session id: before it has logged
-- in, every request of it with an empty session id passes the check, and it has an observer.
check_session_valid-accept_client :
    (s : ℕ) (w : World)
    → get_entity s w.cache ≡ none
    → (check_session_valid s [] (accept_client s w).cache ≡ true)
      × (observer s (accept_client s w).listeners ≡ some s)
unfolding accept_client add_listenner text_eq new_entity
check_session_valid-accept_client s w new =
    let found : get_entity s (set_entity s (new_entity s) w.cache) ≡ some (new_entity s) =
      get_entity-set_entity s s (new_entity s) w.cache ∙ rw (==_refl s, new) refl in
    (
      rw (new, accept_client) (valid_of_entity s [] (new_entity s) _ found),
      rw (new, accept_client) (observer-insert s s w.listeners),
    )
