-- ===== src/Notice/Store.antt =====
-- The statements of cFrameworkToServer/src/model/notice.c and notice.h, on a session of the MySQL client.
use c_framework_to_server.Base.{ℕ, Bool, not, Option, none, some, List, [], ◌∷◌, ◌++◌}
use c_framework_to_server.Base.Int.{ℤ, pos, eqb_ℤ}
use c_framework_to_server.Text.{codes, decimal}
use c_framework_to_server.Memory.{◌>>=◌}
use c_framework_to_server.Errors.{
  err_notice_insert_duplicate, err_notice_insert_fail, err_notice_query_fail,
  err_notice_modify_fail, err_notice_delete_fail,
}
use c_framework_to_server.Sql.{Mysql, Row, and, comma, quoted}
use c_framework_to_server.Sql.Statements.{
  text_cell, int_cell, insert_checked, count_items, select_text, select_items, exec_checked,
  quoted_list,
}
use c_framework_to_server.Notice.{Notice, empty_notice, notice_where_or_set}

-- A row of the table in an object that memset has cleared.
abbrev pub notice_of_row : Row → Option Notice
notice_of_row row = do
  id' ← int_cell 0 row
  title' ← text_cell 1 128 row
  type' ← text_cell 2 2 row
  start_time' ← int_cell 3 row
  end_time' ← int_cell 4 row
  country' ← text_cell 5 20 row
  province' ← text_cell 6 20 row
  city' ← text_cell 7 20 row
  district' ← text_cell 8 20 row
  info' ← text_cell 9 1024 row
  create_time' ← int_cell 10 row
  last_modify_time' ← int_cell 11 row
  some (record empty_notice {
    id = id';
    title = title';
    type = type';
    start_time = start_time';
    end_time = end_time';
    country = country';
    province = province';
    city = city';
    district = district';
    info = info';
    create_time = create_time';
    last_modify_time = last_modify_time';
  })

-- The texts of NoticeInsert.
abbrev pub notice_find_sql : Notice → List ℕ
notice_find_sql obj = codes "select * from notice where title=" ++ (quoted obj.title ++ codes ";")

abbrev pub notice_id_sql : Notice → List ℕ
notice_id_sql obj = codes "select id from notice where title=" ++ (quoted obj.title ++ codes ";")

abbrev pub notice_insert_sql : Notice → List ℕ
notice_insert_sql obj =
    codes
      "insert into notice(title,type,startTime,endTime,country,province,city,district,info,createTime,lastModifyTime)\t\t\t\tvalue("
    ++ (quoted_list (
          obj.title
          ∷ obj.type
          ∷ decimal obj.start_time
          ∷ decimal obj.end_time
          ∷ obj.country
          ∷ obj.province
          ∷ obj.city
          ∷ obj.district
          ∷ obj.info
          ∷ decimal obj.create_time
          ∷ decimal obj.last_modify_time
          ∷ [])
        ++ codes ");")

-- The texts of NoticeModify and NoticeDelete.
abbrev pub notice_modify_sql : Notice → List ℕ
notice_modify_sql obj =
    codes "update notice "
    ++ (notice_where_or_set comma obj
        ++ (codes " where id=" ++ (quoted (decimal obj.id) ++ codes ";")))

abbrev pub notice_delete_sql : Notice → List ℕ
notice_delete_sql obj = codes "delete from notice " ++ (notice_where_or_set and obj ++ codes ";")

module _ (mysql : Mysql) where
  open mysql use {Session}

  abbrev pub notice_insert : Notice → Session → Option (ℤ × Notice × Session)
  notice_insert obj s = do
    let failed : ℤ → Bool = λ ret. not (eqb_ℤ ret (pos 1))
    r ←
        insert_checked mysql (notice_find_sql obj) (notice_insert_sql obj) (notice_id_sql obj)
          failed err_notice_insert_duplicate err_notice_insert_fail err_notice_query_fail s
    let (ret, new_id, s') = r
    some (ret, elim new_id [ none ↦ obj | some n ↦ record obj { id = n } ], s')

  abbrev pub notice_query_return_item_num : Notice → Session → Option (ℤ × Session)
  notice_query_return_item_num filter =
      count_items mysql (codes "notice") (notice_where_or_set and filter)

  abbrev pub notice_query_return_result :
      (sql_manual : Option (List ℕ)) (filter : Notice) (limit_from limit_count : ℕ)
      → Session
      → Option (ℤ × List Notice × Session)
  notice_query_return_result sql_manual filter limit_from limit_count =
      select_items mysql notice_of_row (
        select_text (codes "notice") sql_manual (notice_where_or_set and filter) limit_from
          limit_count)

  abbrev pub notice_modify : Notice → Session → Option (ℤ × Session)
  notice_modify obj = exec_checked mysql (notice_modify_sql obj) err_notice_modify_fail

  abbrev pub notice_delete : Notice → Session → Option (ℤ × Session)
  notice_delete obj = exec_checked mysql (notice_delete_sql obj) err_notice_delete_fail
