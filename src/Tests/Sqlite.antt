-- ===== src/Tests/Sqlite.antt =====
-- A small library in the place of sqlite: an open connection prepares every statement, and each
-- statement has one row of columns "1".
use jira_game.Base.{
  Bool, Option, Text, arith, codes, false, none, refl, some, suc, true, zero, ℕ, ◌<◌, ◌≡◌,
}
use jira_game.Db.Library.{Sqlite, StepResult, done, row}
use jira_game.Db.Calls.{DbServer}
use jira_game.Proto.{LoginRequest}

-- The state counts the rows left of the last statement.
abbrev prepare_one : Option ℕ → Text → ℕ → Option ℕ × Bool × ℕ
prepare_one none sql n = (none, false, n)
prepare_one (some c) sql n = (some 0, true, 1)

abbrev step_one : Option ℕ → ℕ → StepResult × ℕ
step_one stmt zero = (done, 0)
step_one stmt (suc n) = (row, n)

abbrev pub one_row : Sqlite
one_row = record {
  Conn = ℕ;
  Stmt = ℕ;
  Lib = ℕ;
  open_v2 = λ t n. (some 0, true, n);
  close_v2 = λ c n. n;
  prepare_v2 = prepare_one;
  step = step_one;
  finalize = λ s n. n;
  column_text = λ s i n. some (codes "1");
  column_int = λ s i n. 1;
}

pub one_row-null_on_error :
    (c : Option ℕ) (sql : Text) (n : ℕ)
    → (one_row.prepare_v2 c sql n).1 ≡ false
    → (one_row.prepare_v2 c sql n).0 ≡ none
one_row-null_on_error none sql n h = refl
one_row-null_on_error (some c) sql n h = cc h

pub one_row-fewer :
    (stmt : Option ℕ) (n : ℕ) → (one_row.step stmt n).0 ≡ row → (one_row.step stmt n).1 < n
one_row-fewer stmt zero h = absurd (cc h)
one_row-fewer stmt (suc n) h = omega arith

abbrev pub closed : DbServer one_row
closed = record { m_psql = none; lib = 0; unreleased = 0 }

abbrev pub asked : DbServer one_row
asked = record { m_psql = some 0; lib = 0; unreleased = 1 }

abbrev pub ann_login : LoginRequest
ann_login = record { user_name = codes "ann"; pass_word = codes "pw" }
