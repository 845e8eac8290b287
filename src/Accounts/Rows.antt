-- ===== src/Accounts/Rows.antt =====
-- What the scenes for accounts share: quoted values, and the loops over the rows of a statement.
use jira_game.Base.{List, Option, Text, [], codes, none, some, suc, zero, ℕ, ◌++◌, ◌>>=◌, ◌∷◌}
use jira_game.Proto.{PlayerInfo, default_player}
use jira_game.Utl.{string2_int}
use jira_game.Db.Library.{Sqlite, done, failed, row}
use jira_game.Db.Calls.{DbServer, step}

-- `"'" + t + "'"`
abbrev pub quoted : Text → Text
quoted t = codes "'" ++ t ++ codes "'"

abbrev pub dnw_db : Text
dnw_db = codes "DNW.db"

module _ (L : Sqlite) where
  -- `set_roletype(atoi(…)); set_name(…);` from the first two columns, where they are not NULL
  unfoldable pub named_role : Option L.Stmt → L.Lib → PlayerInfo
  named_role stmt lib =
      let p : PlayerInfo = elim (L.column_text stmt 0 lib) [
        | none ↦ default_player
        | some t ↦ record default_player { role_type = string2_int t }
      ] in
      elim (L.column_text stmt 1 lib) [ none ↦ p | some t ↦ record p { name = t } ]

  -- The same with `set_roleid(atoi(…))` from the third column.
  unfoldable pub user_role : Option L.Stmt → L.Lib → PlayerInfo
  user_role stmt lib =
      let p = named_role stmt lib in
      elim (L.column_text stmt 2 lib) [ none ↦ p | some t ↦ record p { role_id = string2_int t } ]

  -- `while (sqlite3_step(stmt) == SQLITE_ROW)`, for at most the given number of steps; `none` where
  -- they do not suffice.
  unfoldable pub read_rows :
      ℕ → (L.Lib → PlayerInfo) → Option L.Stmt → DbServer L → Option (List PlayerInfo × DbServer L)
  read_rows zero read stmt d = none
  read_rows (suc n) read stmt d =
      let (result, d') = step L stmt d in
      elim result [
        | row ↦ (read_rows n read stmt d' >>= λ (ps, d''). some (read d'.lib ∷ ps, d''))
        | done ↦ some ([], d')
        | failed ↦ some ([], d')
      ]
