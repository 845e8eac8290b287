-- ===== src/Accounts/Login/Outcome.antt =====
-- What a login comes to.
use jira_game.Base.{
  >>=-eq-some, Bool, List, Option, Text, [], ap, append_assoc, arith, codes, contains, false,
  if◌then◌else◌, lookup-modify, map_some, none, not, refl, some, some_inj, subst, sym, true, ℕ,
  ◌&&◌, ◌++◌, ◌+◌, ◌==◌, ◌>>=◌, ◌∙◌, ◌∷◌, ◌≡◌,
}
use jira_game.Proto.{LoginRequest, LoginReturn, LoginReturnType, PlayerInfo, fail}
use jira_game.World.{World}
use jira_game.Cache.{Cache, Entity, entity_is_exist, find_entity_room, get_entity, modify_entity}
use jira_game.Utl.{genrate_random_id}
use jira_game.JiraEvent.Laws.{deliveries, send_msg-cache, send_msg-sent}
use jira_game.Db.{pairs_from, pairs_text, update_text}
use jira_game.Db.Library.{Sqlite, StepResult, done, failed, row}
use jira_game.Db.Calls.{
  DbServer, close_db, open_db, release, run_sql, select_where, sql_exec, step, update,
}
use jira_game.Accounts.Rows.{dnw_db, quoted}
use jira_game.Accounts.Login.Query.{login_text, select_where_text-login}
use jira_game.Accounts.Login.{
  logged_in, login_end, login_failed, login_logic, login_packet, login_query, login_roles,
  login_type, set_session,
}

-- A change of the session id of one entity, where there is one.
pub get_entity-set_session :
    (j s : ℕ) (t : Text) (c : Cache)
    → get_entity j (set_session s t c) ≡ (
        if s == j
        then map_some (λ e. record e { session_id = t }) (get_entity j c)
        else get_entity j c)
unfolding set_session entity_is_exist contains get_entity modify_entity
get_entity-set_session j s t c =
    ground (arith, lookup-modify j s (λ (e : Entity). record e { session_id = t }) c.entities)

pub find_entity_room-set_session :
    (j s : ℕ) (t : Text) (c : Cache) → find_entity_room j (set_session s t c) ≡ find_entity_room j c
unfolding set_session find_entity_room modify_entity
find_entity_room-set_session j s t c = ground arith

-- The session id that a login makes up: the name, an underscore and a random id.
abbrev pub new_session : LoginRequest → World → Text
new_session req w = req.user_name ++ (codes "_" ++ (genrate_random_id w).0)

abbrev pub is_fail : LoginReturnType → Bool
is_fail fail = true
is_fail _ = false

abbrev pub found_row : StepResult → Bool
found_row row = true
found_row _ = false

-- How a login ends, by whether the query for the name and the password has given a row: no room
-- changes; where it has, the client's entity has the new session id, and no other entity changes; the
-- client is sent one reply, a failure or the new session id; the database is closed.
pub record LoginDone (L : Sqlite) (socket : ℕ) (req : LoginRequest) (accepted : Bool) (w w' : World)
    (d' : DbServer L) : Type 0 where
  pub rooms : (j : ℕ) → find_entity_room j w'.cache ≡ find_entity_room j w.cache
  pub entities :
      (j : ℕ)
      → get_entity j w'.cache ≡ (
          if accepted && socket == j
          then map_some (λ e. record e { session_id = new_session req w }) (get_entity j w.cache)
          else get_entity j w.cache)
  pub told :
      (reply : LoginReturn) × (w'.sent
        ≡ w.sent ++ deliveries w.listeners (login_packet reply) (socket ∷ []))
      × (reply.session_id ≡ (if accepted then some (new_session req w) else none))
      × (is_fail reply.return_type ≡ not accepted)
  pub closed : d'.m_psql ≡ none

abbrev pub session_update : Text → Text → Text
session_update user session =
    codes "update userInfo set session_id='"
    ++ (session ++ (codes "' where name='" ++ (user ++ codes "';")))

module _ (L : Sqlite) where
  pub close_db-closed : (d : DbServer L) → (close_db L d).m_psql ≡ none
  unfolding close_db
  close_db-closed d = ground arith

  pub login_query-eq :
      (req : LoginRequest) (d : DbServer L)
      → login_query L req d ≡ (
          let (stmt, d1) = sql_exec L (login_text req) (open_db L dnw_db d).1 in
          let (result, d2) = step L stmt d1 in some (result, stmt, d2))
  unfolding login_query select_where
  login_query-eq req d = rw (select_where_text-login req, ◌>>=◌) refl

  login_end-LoginDone :
      (socket : ℕ) (req : LoginRequest) (stmt : Option L.Stmt) (reply : LoginReturn)
      (accepted : Bool) (n : ℕ) (w : World) (c : Cache) (d : DbServer L)
      → ((j : ℕ) → find_entity_room j c ≡ find_entity_room j w.cache)
      → ((j : ℕ)
          → get_entity j c ≡ (
              if accepted && socket == j
              then map_some
                  (λ e. record e { session_id = new_session req w })
                  (get_entity j w.cache)
              else get_entity j w.cache))
      → reply.session_id ≡ (if accepted then some (new_session req w) else none)
      → is_fail reply.return_type ≡ not accepted
      → (let (w', d') = login_end L socket stmt reply (record w { cache = c; drawn = n }) d in
          LoginDone L socket req accepted w w' d')
  unfolding login_end
  login_end-LoginDone socket req stmt reply accepted n w c d same changed session type = record {
    rooms = λ j. ap (find_entity_room j) (send_msg-cache socket _ _) ∙ same j;
    entities = λ j. ap (get_entity j) (send_msg-cache socket _ _) ∙ changed j;
    told = (reply, send_msg-sent socket _ _, session, type);
    closed = close_db-closed (release L stmt d);
  }

  login_type-known : (ps : List PlayerInfo) → is_fail (login_type ps) ≡ false
  login_type-known [] = refl
  login_type-known (p ∷ ps) = refl

  refused :
      (socket : ℕ) (req : LoginRequest) (w w' : World) (stmt : Option L.Stmt) (d1 d' : DbServer L)
      → (login_end L socket stmt (login_failed L) w d1) ≡ (w', d')
      → LoginDone L socket req false w w' d'
  refused socket req w w' stmt d1 d' e =
      subst (λ (r : World × DbServer L). LoginDone L socket req false w r.0 r.1) e
        (login_end-LoginDone socket req stmt (login_failed L) false w.drawn w w.cache d1 (λ j. refl)
          (λ j. refl) refl refl)

  pub update_session :
      (user session : Text) (d : DbServer L)
      → update L
          (codes "userInfo")
          (codes "name" ∷ [])
          (quoted user ∷ [])
          (codes "session_id" ∷ [])
          (quoted session ∷ [])
          1
          1
          d
        ≡ some (run_sql L (session_update user session) d)
  unfolding update update_text pairs_text pairs_from
  update_session user session d = ap (λ t. some (run_sql L t d)) (simp append_assoc)

  logged_in-eq :
      (fuel socket : ℕ) (req : LoginRequest) (w : World) (d : DbServer L)
      {r : LoginReturn × World × DbServer L}
      → logged_in L fuel socket req w d ≡ some r
      → (ps : List PlayerInfo) × (d' : DbServer L) × (r ≡ (
        record {
          session_id = some (new_session req w);
          return_type = login_type ps;
          player_info = ps;
        },
        record w { cache = set_session socket (new_session req w) w.cache; drawn = w.drawn + 6 },
        d',
      ))
  unfolding logged_in genrate_random_id
  logged_in-eq fuel socket req w d {r} h =
      let d1 = run_sql L (session_update req.user_name (new_session req w)) d in
      let k : (login_roles L fuel req.user_name d1 >>= λ (ps, d2). some (
        record {
          session_id = some (new_session req w);
          return_type = login_type ps;
          player_info = ps;
        },
        record w { cache = set_session socket (new_session req w) w.cache; drawn = w.drawn + 6 },
        d2,
      ))
          ≡ some r =
        rw (update_session req.user_name (new_session req w) d, ◌>>=◌) at h in
      let ((ps, d2), read, e) = >>=-eq-some (login_roles L fuel req.user_name d1) _ k in
      (ps, d2, sym (some_inj e))

  -- Every login that returns has ended as `LoginDone` says.
  pub login_logic-LoginDone :
      (fuel socket : ℕ) (req : LoginRequest) (w w' : World) (result : StepResult)
      (stmt : Option L.Stmt) (d d1 d' : DbServer L)
      → login_query L req d ≡ some (result, stmt, d1)
      → login_logic L fuel socket req w d ≡ some (w', d')
      → LoginDone L socket req (found_row result) w w' d'
  unfolding login_logic
  login_logic-LoginDone fuel socket req w w' done stmt d d1 d' hq h =
      refused socket req w w' stmt d1 d' (some_inj (rw (hq, ◌>>=◌) at h))
  login_logic-LoginDone fuel socket req w w' failed stmt d d1 d' hq h =
      refused socket req w w' stmt d1 d' (some_inj (rw (hq, ◌>>=◌) at h))
  login_logic-LoginDone fuel socket req w w' row stmt d d1 d' hq h =
      let h' : (logged_in L fuel socket req w d1 >>= λ (reply, w1, d2).
      some (login_end L socket stmt reply w1 d2))
          ≡ some (w', d') =
        rw (hq, ◌>>=◌) at h in
      let (r, run, e) = >>=-eq-some (logged_in L fuel socket req w d1) _ h' in
      let (ps, d2, shape) = logged_in-eq fuel socket req w d1 run in
      let k : some (login_end L socket stmt _ _ _) ≡ some (w', d') = rw shape at e in
      subst (λ (r : World × DbServer L). LoginDone L socket req true w r.0 r.1) (some_inj k)
        (login_end-LoginDone socket req stmt _ true (w.drawn + 6) w
          (set_session socket (new_session req w) w.cache) d2
          (λ j. find_entity_room-set_session j socket _ w.cache)
          (λ j. get_entity-set_session j socket _ w.cache) refl (login_type-known ps))
