-- ===== src/AppVer/Store.antt =====
-- The statements of cFrameworkToServer/src/model/appVersion.c and appVersion.h, on a session of the MySQL client.
use c_framework_to_server.Base.{ℕ, Bool, not, Option, none, some, List, [], ◌∷◌, ◌++◌}
use c_framework_to_server.Base.Int.{ℤ, pos, eqb_ℤ}
use c_framework_to_server.Text.{codes, decimal}
use c_framework_to_server.Memory.{◌>>=◌}
use c_framework_to_server.Errors.{
  err_app_update_insert_duplicate, err_app_update_insert_fail, err_app_update_query_fail,
  err_app_update_modify_fail, err_app_update_delete_fail,
}
use c_framework_to_server.Sql.{Mysql, Row, and, comma, quoted}
use c_framework_to_server.Sql.Statements.{
  text_cell, int_cell, insert_checked, count_items, select_text, select_items, exec_checked,
  quoted_list,
}
use c_framework_to_server.AppVer.{AppVer, empty_app_ver, app_ver_where_or_set}

-- A row of the table in an object that memset has cleared.
abbrev pub app_ver_of_row : Row → Option AppVer
app_ver_of_row row = do
  id' ← int_cell 0 row
  name' ← text_cell 1 20 row
  type' ← text_cell 2 2 row
  version' ← text_cell 3 20 row
  level' ← text_cell 4 2 row
  path' ← text_cell 5 256 row
  release_time' ← int_cell 6 row
  create_time' ← int_cell 7 row
  last_modify_time' ← int_cell 8 row
  some (record empty_app_ver {
    id = id';
    name = name';
    type = type';
    version = version';
    level = level';
    path = path';
    release_time = release_time';
    create_time = create_time';
    last_modify_time = last_modify_time';
  })

-- The texts of AppVerInsert.
abbrev pub app_ver_find_sql : AppVer → List ℕ
app_ver_find_sql obj = codes "select * from appver where name=" ++ (quoted obj.name ++ codes ";")

abbrev pub app_ver_id_sql : AppVer → List ℕ
app_ver_id_sql obj = codes "select id from appver where name=" ++ (quoted obj.name ++ codes ";")

abbrev pub app_ver_insert_sql : AppVer → List ℕ
app_ver_insert_sql obj =
    codes
      "insert into appver(type,name,version,level,path,releaseTime,createTime,lastModifyTime)\t\t\t\tvalue("
    ++ (quoted_list (
          obj.type
          ∷ obj.name
          ∷ obj.version
          ∷ obj.level
          ∷ obj.path
          ∷ decimal obj.release_time
          ∷ decimal obj.create_time
          ∷ decimal obj.last_modify_time
          ∷ [])
        ++ codes ");")

-- The texts of AppVerModify and AppVerDelete.
abbrev pub app_ver_modify_sql : AppVer → List ℕ
app_ver_modify_sql obj =
    codes "update appver "
    ++ (app_ver_where_or_set comma obj
        ++ (codes " where id=" ++ (quoted (decimal obj.id) ++ codes ";")))

abbrev pub app_ver_delete_sql : AppVer → List ℕ
app_ver_delete_sql obj = codes "delete from appver " ++ (app_ver_where_or_set and obj ++ codes ";")

module _ (mysql : Mysql) where
  open mysql use {Session}

  abbrev pub app_ver_insert : AppVer → Session → Option (ℤ × AppVer × Session)
  app_ver_insert obj s = do
    let failed : ℤ → Bool = λ ret. not (eqb_ℤ ret (pos 1))
    r ←
        insert_checked mysql (app_ver_find_sql obj) (app_ver_insert_sql obj) (app_ver_id_sql obj)
          failed err_app_update_insert_duplicate err_app_update_insert_fail
          err_app_update_query_fail s
    let (ret, new_id, s') = r
    some (ret, elim new_id [ none ↦ obj | some n ↦ record obj { id = n } ], s')

  abbrev pub app_ver_query_return_item_num : AppVer → Session → Option (ℤ × Session)
  app_ver_query_return_item_num filter =
      count_items mysql (codes "appver") (app_ver_where_or_set and filter)

  abbrev pub app_ver_query_return_result :
      (sql_manual : Option (List ℕ)) (filter : AppVer) (limit_from limit_count : ℕ)
      → Session
      → Option (ℤ × List AppVer × Session)
  app_ver_query_return_result sql_manual filter limit_from limit_count =
      select_items mysql app_ver_of_row (
        select_text (codes "appver") sql_manual (app_ver_where_or_set and filter) limit_from
          limit_count)

  abbrev pub app_ver_modify : AppVer → Session → Option (ℤ × Session)
  app_ver_modify obj = exec_checked mysql (app_ver_modify_sql obj) err_app_update_modify_fail

  abbrev pub app_ver_delete : AppVer → Session → Option (ℤ × Session)
  app_ver_delete obj = exec_checked mysql (app_ver_delete_sql obj) err_app_update_delete_fail
