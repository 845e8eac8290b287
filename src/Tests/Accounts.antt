-- ===== src/Tests/Accounts.antt =====
-- The theorems on the scenes for accounts, for Ann's login.
use jira_game.Base.{
  After, Bool, Option, Returns, Text, arith, codes, false, lookup, none, refl, some, text_eq, true,
  ℕ, ◌+◌, ◌≡◌, ◌↔◌, ◌⊎◌,
}
use jira_game.Proto.{
  CreateRoleRequest, CreateRoleReturn, RegisterRequest, SelectRoleRequest, default_player,
}
use jira_game.World.{World}
use jira_game.Cache.{check_session_valid}
use jira_game.Db.Calls.{
  DbServer, close_db, create_table, open_db, prepare, release, run_sql, select_where, sql_exec,
  step, update,
}
use jira_game.Db.Statements.{Held}
use jira_game.Accounts.Rows.{read_rows}
use jira_game.Accounts.Login.{logged_in, login_end, login_logic, login_query, login_roles}
use jira_game.Accounts.Login.Query.{Plain, login_text, login_where, select_where_text-injective}
use jira_game.Accounts.Login.Outcome.{LoginDone, login_logic-LoginDone}
use jira_game.Accounts.Login.Total.{login_logic_total}
use jira_game.Accounts.Login.Kept.{kept, login_logic-Held}
use jira_game.Accounts.Statements.{accounts-Held}
use jira_game.Db.{create_table_text, pairs_from, pairs_text, select_where_text, update_text}
use jira_game.Db.Library.{row}
use jira_game.Utl.{genrate_random_id}
use jira_game.Accounts.Register.{register_logic}
use jira_game.Accounts.SelectRole.{select_logic, select_role, selected_user}
use jira_game.Accounts.CreateRole.{create_for_user, create_logic, create_packet, create_role}
use jira_game.JiraEvent.{send_msg}
use jira_game.Accounts.Register.Outcome.{Registers, answer, looked_up, register_logic-Registers}
use jira_game.Accounts.SelectRole.Outcome.{Found, Selected, select_logic-Selected}
use jira_game.Accounts.CreateRole.Stages.{Created, is_success}
use jira_game.Accounts.CreateRole.Outcome.{create_logic-Created}
use jira_game.Accounts.Returning.{roles_return}
use jira_game.Tests.Worlds.{lobby}
use jira_game.Tests.Sqlite.{ann_login, asked, closed, one_row, one_row-fewer, one_row-null_on_error}

abbrev plain_ann : Plain (codes "ann")
plain_ann =
    ((omega arith, omega arith), ((omega arith, omega arith), ((omega arith, omega arith), tt)))

abbrev plain_pw : Plain (codes "pw")
plain_pw = ((omega arith, omega arith), ((omega arith, omega arith), tt))

ann_where : login_where ann_login ≡ some (login_text ann_login)
unfolding select_where_text pairs_text pairs_from
ann_where = refl

select_where_text-injective_example : (codes "ann" ≡ codes "ann") × (codes "pw" ≡ codes "pw")
select_where_text-injective_example =
    select_where_text-injective ann_login ann_login (login_text ann_login) (login_text ann_login)
      plain_ann plain_pw plain_ann plain_pw ann_where ann_where refl

pub asks : login_query one_row ann_login closed ≡ some (row, some 0, asked)
unfolding login_query select_where select_where_text open_db sql_exec prepare step
asks = refl

abbrev or_pair : Option (World × DbServer one_row) → World × DbServer one_row
or_pair none = (lobby, closed)
or_pair (some r) = r

abbrev pub inside : World × DbServer one_row
inside = or_pair (login_logic one_row 5 10 ann_login lobby closed)

pub logs_in : login_logic one_row 5 10 ann_login lobby closed ≡ some inside
unfolding login_logic login_query select_where select_where_text open_db sql_exec prepare step
    logged_in genrate_random_id update update_text run_sql release login_roles read_rows pairs_text
    pairs_from
logs_in = refl

login_logic-LoginDone_example : LoginDone one_row 10 ann_login true lobby inside.0 inside.1
login_logic-LoginDone_example =
    login_logic-LoginDone one_row 5 10 ann_login lobby inside.0 row (some 0) closed asked inside.1
      asks logs_in

login_logic_total_example :
    (fuel : ℕ) × Returns (login_logic one_row fuel 10 ann_login lobby closed)
login_logic_total_example =
    login_logic_total one_row (λ n. n) one_row-fewer 10 ann_login lobby closed

login_logic-Held_example :
    After
      (λ r. Held one_row (0 + kept one_row one_row-null_on_error row ann_login lobby asked) r.1)
      (login_logic one_row 5 10 ann_login lobby closed)
login_logic-Held_example =
    login_logic-Held one_row one_row-null_on_error 0 5 10 ann_login lobby row (some 0) closed asked
      asks refl

-- The role query of Ann's login has left its statement behind.
leaks_one : inside.1.unreleased ≡ 1
unfolding login_logic login_query select_where select_where_text open_db sql_exec prepare step
    logged_in genrate_random_id update update_text run_sql release login_roles read_rows pairs_text
    pairs_from login_end close_db
leaks_one = refl

abbrev register : RegisterRequest
register = record { user_name = codes "ann"; pass_word = codes "pw" }

abbrev select : SelectRoleRequest
select = record { session_id = codes "ann_1"; role_type = 2 }

abbrev create : CreateRoleRequest
create = record {
  session_id = codes "ann_1";
  player_info = record default_player { name = codes "a" };
}

accounts-Held_example :
    After (λ r. Held one_row 0 r.1) (register_logic one_row 10 register lobby closed)
    × After (λ r. Held one_row 0 r.1) (select_logic one_row 10 select lobby closed)
    × After (λ r. Held one_row 0 r.1) (create_logic one_row 5 10 create lobby closed)
accounts-Held_example =
    accounts-Held one_row one_row-null_on_error 0 5 10 register select create lobby closed refl

register_logic-Registers_example :
    (ok : Bool) × (d' : DbServer one_row) × (register_logic one_row 10 register lobby closed
      ≡ some (send_msg 10 (answer ok) lobby, d'))
    × (let (stmt, d1) = looked_up one_row register closed in
        (ok ≡ true) ↔ Registers one_row register stmt d1)
    × (d'.m_psql ≡ none)
register_logic-Registers_example = register_logic-Registers one_row 10 register lobby closed

abbrev chosen_site : World × DbServer one_row
chosen_site = or_pair (select_logic one_row 10 select lobby closed)

selects : select_logic one_row 10 select lobby closed ≡ some chosen_site
unfolding select_logic check_session_valid lookup text_eq select_role open_db sql_exec prepare step
    selected_user
selects = refl

ann_is_valid : check_session_valid 10 (codes "ann_1") lobby.cache ≡ true
unfolding check_session_valid lookup text_eq
ann_is_valid = refl

select_logic-Selected_example :
    (user : Option (ℕ × Text)) × Found one_row (some 0) row (record asked { lib = 0 }) user
    × Selected one_row 10 select user lobby chosen_site.0 chosen_site.1
unfolding sql_exec open_db prepare step
select_logic-Selected_example =
    select_logic-Selected one_row 10 select lobby chosen_site.0 closed chosen_site.1 ann_is_valid
      selects

abbrev created_site : World × DbServer one_row
created_site = or_pair (create_logic one_row 5 10 create lobby closed)

creates : create_logic one_row 5 10 create lobby closed ≡ some created_site
unfolding create_logic check_session_valid lookup text_eq create_role create_table create_table_text
    open_db run_sql sql_exec prepare step create_for_user release
creates = refl

create_logic-Created_example :
    (reply : CreateRoleReturn) × (created_site.0 ≡ send_msg 10 (create_packet reply) lobby)
    × ((is_success reply.return_type ≡ false)
        ⊎ (Created one_row 10 create lobby closed × (created_site.1.m_psql ≡ none)))
create_logic-Created_example =
    create_logic-Created one_row 5 10 create lobby created_site.0 closed created_site.1 creates

roles_return_example :
    ((fuel : ℕ) × Returns (create_logic one_row fuel 10 create lobby closed))
    × Returns (select_logic one_row 10 select lobby closed)
roles_return_example =
    roles_return one_row (λ n. n) one_row-fewer 10 create select lobby closed
      (λ _. (codes "1", refl)) (λ _. (codes "1", refl))
