-- ===== src/Db.antt =====
-- DNW_Server/Server/DBServer/DBServer.cpp: the texts of the SQL statements. A C array of strings is a
-- list, and an index past its end gives `none`. Library
-- has what the server uses of sqlite, and Calls the functions that run the texts.
pub mod Texts
pub mod Library
pub mod Calls
pub mod Statements
use jira_game.Base.{
  List, Option, Text, codes, count, get_elem?, some, suc, zero, ℕ, ◌++◌, ◌-◌, ◌>>=◌,
}

-- The loop `for (int i = 1; i < count; i++) strSql = strSql + sep + key[i] + mid + value[i];`, from
-- index i for the given number of rounds.
unfoldable pub pairs_from : Text → Text → List Text → List Text → ℕ → ℕ → Text → Option Text
pairs_from sep mid keys values i zero t = some t
pairs_from sep mid keys values i (suc n) t = get_elem? keys i >>= λ k.
    get_elem? values i >>= λ v. pairs_from sep mid keys values (suc i) n (t ++ sep ++ k ++ mid ++ v)

-- The first pair, which is there whatever `count` is, and the loop.
unfoldable pub pairs_text : Text → Text → List Text → List Text → ℕ → Text → Option Text
unfolding pairs_from
pairs_text sep mid keys values count t = get_elem? keys 0 >>= λ k.
    get_elem? values 0 >>= λ v. pairs_from sep mid keys values 1 (count - 1) (t ++ k ++ mid ++ v)

-- The same loop for one array.
unfoldable pub names_from : Text → List Text → ℕ → ℕ → Text → Option Text
names_from sep keys i zero t = some t
names_from sep keys i (suc n) t =
    get_elem? keys i >>= λ k. names_from sep keys (suc i) n (t ++ sep ++ k)

unfoldable pub names_text : Text → List Text → ℕ → Text → Option Text
unfolding names_from
names_text sep keys count t = get_elem? keys 0 >>= λ k. names_from sep keys 1 (count - 1) (t ++ k)

unfoldable pub create_table_text : Text → List Text → List Text → ℕ → Option Text
unfolding pairs_text
create_table_text table keys types count =
    pairs_text (codes ",") (codes " ") keys types count
      (codes "create table if not exists " ++ table ++ codes "(")
    >>= λ t. some (t ++ codes ");")

unfoldable pub insert_text : Text → List Text → List Text → ℕ → Option Text
unfolding names_text
insert_text table keys values count =
    names_text (codes ",") keys count (codes "insert into " ++ table ++ codes "(") >>= λ t.
    names_text (codes ",") values count (t ++ codes ") values(") >>= λ t'. some (t' ++ codes ");")

unfoldable pub delete_text : Text → List Text → List Text → ℕ → Option Text
unfolding pairs_text
delete_text table keys values count =
    pairs_text (codes " and ") (codes "=") keys values count
      (codes "delete from " ++ table ++ codes " where ")
    >>= λ t. some (t ++ codes ";")

-- The columns that are set are counted by `count`, not by `setCount`.
unfoldable pub update_text :
    Text → List Text → List Text → List Text → List Text → ℕ → ℕ → Option Text
unfolding pairs_text
update_text table keys values set_keys set_values count set_count =
    pairs_text (codes ",") (codes "=") set_keys set_values count
      (codes "update " ++ table ++ codes " set ")
    >>= λ t.
        pairs_text (codes "and ") (codes "=") keys values count (t ++ codes " where ") >>= λ t'.
        some (t' ++ codes ";")

unfoldable pub select_where_text : Text → List Text → List Text → ℕ → Option Text
unfolding pairs_text
select_where_text table keys values count =
    pairs_text (codes " and ") (codes "=") keys values count
      (codes "select * from " ++ table ++ codes " where ")
    >>= λ t. some (t ++ codes ";")
