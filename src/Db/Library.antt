-- ===== src/Db/Library.antt =====
-- What the server uses of sqlite, which is not part of the repository's code: the calls, and all that
-- the library keeps for them (files, connections and statements).
use jira_game.Base.{Bool, Option, Text, inl, inr, refl, ℕ, ◌≡◌, ◌⊎◌}

-- What `sqlite3_step` returns: `SQLITE_ROW`, `SQLITE_DONE` (101), or any other code.
pub data StepResult : Type 0 where
  row done failed : StepResult

pub step-cases : (r : StepResult) → (r ≡ row) ⊎ ((r ≡ done) ⊎ (r ≡ failed))
step-cases row = inl refl
step-cases done = inr (inl refl)
step-cases failed = inr (inr refl)

pub record Sqlite : Type 1 where
  -- an open connection, and a statement that is not null
  pub Conn : Type 0
  pub Stmt : Type 0
  pub Lib : Type 0
  -- the handle that is written back, and whether the result is `SQLITE_OK`
  pub open_v2 : Text → Lib → Option Conn × Bool × Lib
  pub close_v2 : Conn → Lib → Lib
  pub prepare_v2 : Option Conn → Text → Lib → Option Stmt × Bool × Lib
  pub step : Option Stmt → Lib → StepResult × Lib
  pub finalize : Option Stmt → Lib → Lib
  pub column_text : Option Stmt → ℕ → Lib → Option Text
  pub column_int : Option Stmt → ℕ → Lib → ℕ
