-- ===== src/Accounts/Register/Outcome.antt =====
-- How a registration ends.
use jira_game.Base.{
  Bool, Option, Option-cases, Text, [], ap, append_assoc, codes, false, if◌then◌else◌, inl, inr,
  none, refl, some, sym, true, ℕ, ◌&&◌, ◌++◌, ◌>>=◌, ◌∙◌, ◌∷◌, ◌≡◌, ◌≢◌, ◌↔◌,
}
use jira_game.Proto.{Packet, RegisterRequest, register_return, register_scene, rt_fail, rt_success}
use jira_game.Db.{create_table_text, insert_text}
use jira_game.Accounts.Rows.{dnw_db, quoted}
use jira_game.World.{World}
use jira_game.JiraEvent.{send_msg}
use jira_game.Db.Library.{Sqlite, StepResult, done, failed, row, step-cases}
use jira_game.Db.Calls.{
  DbServer, close_db, create_table, insert_into, insert_sql, is_done, open_db, prepare, release,
  run_sql, sql_exec, step,
}
use jira_game.Accounts.Login.Outcome.{close_db-closed}
use jira_game.Accounts.Register.{
  insert_user, is_new_user, link_user, register_logic, register_packet, register_type, user_keys,
  user_query, user_types,
}

-- The look-up of the name.
abbrev pub name_text : Text → Text
name_text user = codes "select * from userInfo where name='" ++ (user ++ codes "';")

-- The two statements that change the table.
abbrev pub table_text : Text
table_text =
    codes
      "create table if not exists userInfo(userID INTEGER PRIMARY KEY AUTOINCREMENT,PlayerInfoID INTEGER NULL,session_id varchar(32) NULL,name varchar(32) UNIQUE,password varchar(16));"

abbrev pub new_user_text : RegisterRequest → Text
new_user_text req =
    codes "insert into userInfo(name,password) values('"
    ++ (req.user_name ++ (codes "','" ++ (req.pass_word ++ codes "');")))

create_table_text-users :
    create_table_text (codes "userInfo") user_keys user_types 5 ≡ some table_text
unfolding create_table_text
create_table_text-users = refl

insert_text-user :
    (req : RegisterRequest)
    → insert_text
        (codes "userInfo")
        (codes "name" ∷ codes "password" ∷ [])
        (quoted req.user_name ∷ quoted req.pass_word ∷ [])
        2
      ≡ some (new_user_text req)
unfolding insert_text
insert_text-user req = ap some (simp append_assoc)

-- The reply to the client.
abbrev pub answer : Bool → Packet
answer ok = record {
  cur_scene = register_scene;
  reply = register_return (if ok then rt_success else rt_fail);
}

answer_lem : (ok : Bool) → register_packet (register_type ok) ≡ answer ok
answer_lem true = refl
answer_lem false = refl

module _ (L : Sqlite) where
  -- The look-up of the name could be prepared and gives no row, and after it the insertion of the name
  -- and the password could be prepared and is done.
  pub record Registers (req : RegisterRequest) (stmt : Option L.Stmt) (d : DbServer L)
      : Type 0 where
    pub asked : stmt ≢ none
    pub fresh : (step L stmt d).0 ≢ row
    pub accepted : (prepare L (new_user_text req) (step L stmt d).1).0 ≢ none
    pub stored :
        (let (s, ok, d') = prepare L (new_user_text req) (step L stmt d).1 in
          (step L s d').0 ≡ done)

  -- The look-up of the name.
  abbrev pub looked_up : RegisterRequest → DbServer L → Option L.Stmt × DbServer L
  looked_up req d =
      sql_exec L (name_text req.user_name) (run_sql L table_text (open_db L dnw_db d).1)

  is_done_iff : (r : StepResult) → (is_done L r ≡ true) ↔ (r ≡ done)
  is_done_iff row = (λ no. absurd (cc no), λ no. absurd (cc no))
  is_done_iff done = (λ _. refl, λ _. refl)
  is_done_iff failed = (λ no. absurd (cc no), λ no. absurd (cc no))

  insert_sql_iff :
      (sql : Text) (d : DbServer L)
      → ((insert_sql L sql d).0 ≡ true)
        ↔ (let (s, ok, d') = prepare L sql d in (s ≢ none) × ((step L s d').0 ≡ done))
  unfolding insert_sql
  insert_sql_iff sql d = elim (Option-cases (prepare L sql d).0) [
    | inl missing ↦ rw (missing, insert_sql) (λ no. absurd (cc no), λ r. absurd (r.0 refl))
    | inr (s, there) ↦
        rw (there, insert_sql) (λ h. (λ no. cc no, (is_done_iff _).0 h), λ r. (is_done_iff _).1 r.1)
  ]

  insert_user-eq :
      (req : RegisterRequest) (is_new : Bool) (d : DbServer L)
      → (d' : DbServer L) × (insert_user L req is_new d
          ≡ some (is_new && (insert_sql L (new_user_text req) d).0, d'))
  unfolding insert_user insert_into
  insert_user-eq req true d =
      ((insert_sql L (new_user_text req) d).1, rw (insert_text-user req, ◌>>=◌) refl)
  insert_user-eq req false d = (d, refl)

  abbrev registers : RegisterRequest → Option L.Stmt → DbServer L → Bool
  registers req stmt d =
      let (is_new, d1) = is_new_user L stmt d in is_new && (insert_sql L (new_user_text req) d1).0

  -- Where the look-up gives no row, all depends on the insertion.
  new_iff :
      (req : RegisterRequest) (s : L.Stmt) (d : DbServer L)
      → (step L (some s) d).0 ≢ row
      → registers req (some s) d ≡ (insert_sql L (new_user_text req) (step L (some s) d).1).0
      → (registers req (some s) d ≡ true) ↔ Registers req (some s) d
  new_iff req s d fresh e =
      let inserted = insert_sql_iff (new_user_text req) (step L (some s) d).1 in
      (
        λ h.
            let (accepted, stored) = inserted.0 (sym e ∙ h) in
            record { asked = λ no. cc no; fresh = fresh; accepted = accepted; stored = stored },
        λ r. e ∙ inserted.1 (r.accepted, r.stored),
      )

  registers_iff :
      (req : RegisterRequest) (stmt : Option L.Stmt) (d : DbServer L)
      → (registers req stmt d ≡ true) ↔ Registers req stmt d
  unfolding is_new_user
  registers_iff req none d = (λ no. absurd (cc no), λ r. absurd (r.asked refl))
  registers_iff req (some s) d = elim (step-cases (step L (some s) d).0) [
    | inl found ↦
        let e : registers req (some s) d ≡ false = rw (found, is_new_user) refl in
        (λ h. absurd (cc (sym e ∙ h)), λ r. absurd (r.fresh found))
    | inr (inl over) ↦ new_iff req s d (λ f. cc (sym over ∙ f)) (rw (over, is_new_user) refl)
    | inr (inr wrong) ↦ new_iff req s d (λ f. cc (sym wrong ∙ f)) (rw (wrong, is_new_user) refl)
  ]

  -- Every registration returns. It tells the client once whether it is registered, which is so exactly
  -- where the look-up of the name could be prepared and gives no row, and then the insertion of the
  -- name and the password could be prepared and sqlite says that it is done. It changes nothing else of
  -- the world, and closes the database.
  pub register_logic-Registers :
      (socket : ℕ) (req : RegisterRequest) (w : World) (d : DbServer L)
      → (ok : Bool) × (d' : DbServer L) × (register_logic L socket req w d
          ≡ some (send_msg socket (answer ok) w, d'))
        × (let (stmt, d1) = looked_up req d in (ok ≡ true) ↔ Registers req stmt d1)
        × (d'.m_psql ≡ none)
  unfolding register_logic create_table user_query
  register_logic-Registers socket req w d =
      let (stmt, d1) = looked_up req d in
      let (is_new, d2) = is_new_user L stmt d1 in
      let (d3, inserted) = insert_user-eq req is_new d2 in
      let d4 = link_user L req.user_name (release L stmt d3) in
      (
        registers req stmt d1,
        close_db L d4,
        rw (create_table_text-users, ◌>>=◌, inserted)
            (ap (λ p. some (send_msg socket p w, close_db L d4))
              (answer_lem (registers req stmt d1))),
        registers_iff req stmt d1,
        close_db-closed L d4,
      )
