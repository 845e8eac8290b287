-- ===== src/Accounts/SelectRole/Outcome.antt =====
-- How the selection of a role ends.
use jira_game.Base.{
  >>=-eq-some, Option, Text, [], ap, arith, codes, if◌then◌else◌, map_some, none, refl, some,
  some_inj, subst, true, ℕ, ◌++◌, ◌==◌, ◌>>=◌, ◌∙◌, ◌∷◌, ◌≡◌, ◌≢◌,
}
use jira_game.Proto.{Packet, PlayerInfo, SelectRoleRequest, select_role_return, select_role_scene}
use jira_game.World.{World, on_cache}
use jira_game.Cache.{Cache, check_session_valid, find_entity_room, get_entity, set_role_info}
use jira_game.Cache.Laws.{get_entity-set_role_info}
use jira_game.Utl.{int2_string}
use jira_game.JiraEvent.{send_msg}
use jira_game.JiraEvent.Laws.{deliveries, send_msg-cache, send_msg-sent}
use jira_game.Db.Library.{Sqlite, StepResult, done, failed, row}
use jira_game.Db.Calls.{DbServer, close_db, open_db, release, sql_exec, step}
use jira_game.Accounts.Rows.{dnw_db}
use jira_game.Accounts.Login.Outcome.{close_db-closed}
use jira_game.Accounts.SelectRole.{
  found_id, found_user, select_logic, select_packet, select_query, select_role, selected_user,
  set_role_type, set_user,
}

-- The query for the role, and the reply.
abbrev pub role_text : SelectRoleRequest → Text
role_text req =
    codes
      "select userID,playerInfo.name from userInfo left Join playerInfo on userInfo.PlayerInfoID=playerInfo.roleID where session_id='"
    ++ (req.session_id
        ++ (codes "' and playerInfo.roleType='" ++ (int2_string req.role_type ++ codes "';")))

abbrev pub chosen_packet : Option ℕ → Packet
chosen_packet user = record { cur_scene = select_role_scene; reply = select_role_return user }

-- The player of a client: the type of the role as requested, and the id and the name as found.
abbrev chosen : Option (ℕ × Text) → ℕ → PlayerInfo → PlayerInfo
chosen none kind p = record p { role_type = kind }
chosen (some (id, name)) kind p = record p { role_type = kind; role_id = id; name = name }

abbrev chosen_id : Option (ℕ × Text) → Option ℕ
chosen_id none = none
chosen_id (some (id, name)) = some id

-- How it ends, by what the query for the role has found: no room changes; the client's player has the
-- type that was asked for, and the id and the name if a role was found, and no other player changes;
-- the client is sent the id, if there is one; the database is closed.
pub record Selected (L : Sqlite) (socket : ℕ) (req : SelectRoleRequest) (user : Option (ℕ × Text))
    (w w' : World) (d' : DbServer L) : Type 0 where
  pub rooms : (j : ℕ) → find_entity_room j w'.cache ≡ find_entity_room j w.cache
  pub entities :
      (j : ℕ)
      → get_entity j w'.cache ≡ (
          if socket == j
          then map_some
              (λ e. record e { role_info = chosen user req.role_type e.role_info })
              (get_entity j w.cache)
          else get_entity j w.cache)
  pub told :
      w'.sent ≡ w.sent ++ deliveries w.listeners (chosen_packet (chosen_id user)) (socket ∷ [])
  pub closed : d'.m_psql ≡ none

twice :
    (socket j : ℕ) (f g : PlayerInfo → PlayerInfo) (c : Cache)
    → get_entity j (set_role_info socket g (set_role_info socket f c)) ≡ (
        if socket == j
        then map_some (λ e. record e { role_info = g (f e.role_info) }) (get_entity j c)
        else get_entity j c)
twice socket j f g c = ground (
  arith,
  get_entity-set_role_info j socket g (set_role_info socket f c),
  get_entity-set_role_info j socket f c,
)

module _ (L : Sqlite) where
  send_msg-Selected :
      (socket : ℕ) (req : SelectRoleRequest) (user : Option (ℕ × Text)) (w : World) (d : DbServer L)
      → (let chosen_w =
            on_cache
              (set_role_info socket (found_user L user))
              (on_cache (set_role_info socket (set_role_type req.role_type)) w) in
          Selected L socket req user w
            (send_msg socket (select_packet (found_id L user)) chosen_w)
            (close_db L d))
  unfolding set_role_info find_entity_room
  send_msg-Selected socket req none w d =
      let w2 =
        on_cache (set_role_info socket (found_user L none))
          (on_cache (set_role_info socket (set_role_type req.role_type)) w) in
      record {
        rooms = λ j. ap (find_entity_room j) (send_msg-cache socket (select_packet none) w2);
        entities = λ j.
            ap (get_entity j) (send_msg-cache socket (select_packet none) w2)
            ∙ twice socket j (set_role_type req.role_type) (found_user L none) w.cache;
        told = send_msg-sent socket (select_packet none) w2;
        closed = close_db-closed L d;
      }
  send_msg-Selected socket req (some (id, name)) w d =
      let w2 =
        on_cache (set_role_info socket (set_user id name))
          (on_cache (set_role_info socket (set_role_type req.role_type)) w) in
      record {
        rooms = λ j. ap (find_entity_room j) (send_msg-cache socket (select_packet (some id)) w2);
        entities = λ j.
            ap (get_entity j) (send_msg-cache socket (select_packet (some id)) w2)
            ∙ twice socket j (set_role_type req.role_type) (set_user id name) w.cache;
        told = send_msg-sent socket (select_packet (some id)) w2;
        closed = close_db-closed L d;
      }

  -- What the query has found: the id and the name in a row, and nothing where its step gives no row.
  abbrev pub Found : Option L.Stmt → StepResult → DbServer L → Option (ℕ × Text) → Type 0
  Found stmt result d none = result ≢ row
  Found stmt result d (some (id, name)) =
      (result ≡ row) × (L.column_int stmt 0 d.lib ≡ id) × (L.column_text stmt 1 d.lib ≡ some name)

  selected_user-Found :
      (stmt : Option L.Stmt) (result : StepResult) (d : DbServer L) (user : Option (ℕ × Text))
      → selected_user L stmt result d ≡ some user
      → Found stmt result d user
  unfolding selected_user
  selected_user-Found stmt row d user h =
      let (name, text, e) = >>=-eq-some (L.column_text stmt 1 d.lib) _ h in
      subst (Found stmt row d) (some_inj e) (refl, refl, text)
  selected_user-Found stmt done d user h = subst (Found stmt done d) (some_inj h) (λ e. cc e)
  selected_user-Found stmt failed d user h = subst (Found stmt failed d) (some_inj h) (λ e. cc e)

  -- Where the session id is valid: of a selection that returns, the query for the role has either given
  -- no row, and no role is found, or a row with a name in its second column, and the role found is
  -- that name under the id in the first column. No room changes. The client's player has the type of
  -- role that was asked for, and the id and the name if a role was found, and no other player changes;
  -- the client is sent the id, if there is one; and the database is closed.
  pub select_logic-Selected :
      (socket : ℕ) (req : SelectRoleRequest) (w w' : World) (d d' : DbServer L)
      → check_session_valid socket req.session_id w.cache ≡ true
      → select_logic L socket req w d ≡ some (w', d')
      → (let (stmt, d1) = sql_exec L (role_text req) (open_db L dnw_db d).1 in
          let (result, d2) = step L stmt d1 in
          (user : Option (ℕ × Text)) × Found stmt result d2 user
          × Selected L socket req user w w' d')
  unfolding select_logic select_role select_query
  select_logic-Selected socket req w w' d d' valid run =
      let (stmt, d1) = sql_exec L (select_query req) (open_db L dnw_db d).1 in
      let (result, d2) = step L stmt d1 in
      let over : (selected_user L stmt result d2 >>= λ user. some (
        send_msg socket (select_packet (found_id L user)) (
            on_cache (set_role_info socket (found_user L user))
              (on_cache (set_role_info socket (set_role_type req.role_type)) w)),
        close_db L (release L stmt d2),
      ))
          ≡ some (w', d') =
        rw valid at run in
      let (user, read, e) = >>=-eq-some (selected_user L stmt result d2) _ over in
      (
        user,
        selected_user-Found stmt result d2 user read,
        subst (λ (r : World × DbServer L). Selected L socket req user w r.0 r.1) (some_inj e)
            (send_msg-Selected socket req user w (release L stmt d2)),
      )
