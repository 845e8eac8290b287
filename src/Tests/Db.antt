-- ===== src/Tests/Db.antt =====
-- The theorems on the texts of the statements, for the conditions of a login.
use jira_game.Base.{Text, [], codes, refl, some, ◌∷◌, ◌≡◌}
use jira_game.Db.{create_table_text, delete_text, select_where_text, update_text}
use jira_game.Db.Texts.{select_where_text-eq, update_text-eq}

abbrev name_is : Text × Text
name_is = (codes "name", codes "'ann'")

abbrev password_is : Text × Text
password_is = (codes "password", codes "'x'")

select_where_text-eq_example :
    (select_where_text
        (codes "userInfo")
        (codes "name" ∷ codes "password" ∷ [])
        (codes "'ann'" ∷ codes "'x'" ∷ [])
        2
      ≡ some (codes "select * from userInfo where name='ann' and password='x';"))
    × (delete_text
          (codes "userInfo")
          (codes "name" ∷ codes "password" ∷ [])
          (codes "'ann'" ∷ codes "'x'" ∷ [])
          2
        ≡ some (codes "delete from userInfo where name='ann' and password='x';"))
    × (create_table_text
          (codes "userInfo")
          (codes "name" ∷ codes "password" ∷ [])
          (codes "'ann'" ∷ codes "'x'" ∷ [])
          2
        ≡ some (codes "create table if not exists userInfo(name 'ann',password 'x');"))
select_where_text-eq_example = select_where_text-eq (codes "userInfo") name_is (password_is ∷ [])

update_text-eq_example :
    update_text
      (codes "t")
      (codes "name" ∷ codes "password" ∷ [])
      (codes "'ann'" ∷ codes "'x'" ∷ [])
      (codes "name" ∷ codes "password" ∷ [])
      (codes "'ann'" ∷ codes "'x'" ∷ [])
      2
      7
    ≡ some (codes "update t set name='ann',password='x' where name='ann'and password='x';")
update_text-eq_example =
    update_text-eq (codes "t") name_is name_is (password_is ∷ []) (password_is ∷ []) 7 refl
