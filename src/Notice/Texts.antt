-- ===== src/Notice/Texts.antt =====
-- The texts that cFrameworkToServer/src/model/notice.c prints into its arrays of 2048 chars.
use c_framework_to_server.Base.{
  ℕ, zero, suc, none, ◌<◌, ◌≤◌, List, [], ◌∷◌, ◌++◌, length, arith, All, length-append,
}
use c_framework_to_server.Base.Int.{pos}
use c_framework_to_server.Text.{codes, decimal}
use c_framework_to_server.Text.Decimal.{length-decimal}
use c_framework_to_server.Sql.{Wos, and, comma, quoted}
use c_framework_to_server.Sql.Statements.{count_text, select_text, quoted_list}
use c_framework_to_server.Sql.Bounds.{
  length-get_where_or_set_string, length-quoted, length-quoted_list, length-three,
}
use c_framework_to_server.Notice.{Notice, notice_clause_fields, notice_where_or_set}
use c_framework_to_server.Notice.Store.{
  notice_find_sql, notice_insert_sql, notice_id_sql, notice_modify_sql, notice_delete_sql,
}

-- Every string has room in its array, with its NUL.
pub record Fits (obj : Notice) : Type 0 where
  pub title_fits : length obj.title < 128
  pub type_fits : length obj.type < 2
  pub country_fits : length obj.country < 20
  pub province_fits : length obj.province < 20
  pub city_fits : length obj.city < 20
  pub district_fits : length obj.district < 20
  pub info_fits : length obj.info < 1024

length-notice_where_or_set :
    (wos : Wos) (obj : Notice) → Fits obj → length (notice_where_or_set wos obj) ≤ 1466
length-notice_where_or_set and obj h =
    omega (arith, length-get_where_or_set_string and (notice_clause_fields and obj))
length-notice_where_or_set comma obj h =
    omega (arith, length-get_where_or_set_string comma (notice_clause_fields comma obj))

length-notice_insert_sql : (obj : Notice) → Fits obj → length (notice_insert_sql obj) < 2048
length-notice_insert_sql obj h = omega (
  arith,
  length-three
      (codes
        "insert into notice(title,type,startTime,endTime,country,province,city,district,info,createTime,lastModifyTime)\t\t\t\tvalue(")
      (quoted_list (
        obj.title
        ∷ obj.type
        ∷ decimal obj.start_time
        ∷ decimal obj.end_time
        ∷ obj.country
        ∷ obj.province
        ∷ obj.city
        ∷ obj.district
        ∷ obj.info
        ∷ decimal obj.create_time
        ∷ decimal obj.last_modify_time
        ∷ []))
      (codes ");"),
  length-quoted_list (
      obj.title
      ∷ obj.type
      ∷ decimal obj.start_time
      ∷ decimal obj.end_time
      ∷ obj.country
      ∷ obj.province
      ∷ obj.city
      ∷ obj.district
      ∷ obj.info
      ∷ decimal obj.create_time
      ∷ decimal obj.last_modify_time
      ∷ []),
  length-decimal obj.start_time,
  length-decimal obj.end_time,
  length-decimal obj.create_time,
  length-decimal obj.last_modify_time,
)

-- All the texts, the query's with any limit.
abbrev pub notice_texts : Notice → (from count : ℕ) → List (List ℕ)
notice_texts obj from count =
    notice_find_sql obj
    ∷ notice_insert_sql obj
    ∷ notice_id_sql obj
    ∷ notice_modify_sql obj
    ∷ notice_delete_sql obj
    ∷ count_text (codes "notice") (notice_where_or_set and obj)
    ∷ select_text (codes "notice") none (notice_where_or_set and obj) from count
    ∷ []

length-notice_select :
    (arg : List ℕ) (from count : ℕ)
    → length arg ≤ 1466
    → length (select_text (codes "notice") none arg from count) < 2048
length-notice_select arg from zero h = omega (arith, length-append arg (codes " ;"))
length-notice_select arg from (suc n) h = omega (
  arith,
  length-append arg (
      codes " limit "
      ++ (decimal (pos from) ++ (codes "," ++ (decimal (pos (suc n)) ++ codes ";")))),
  length-append (decimal (pos from)) (codes "," ++ (decimal (pos (suc n)) ++ codes ";")),
  length-append (decimal (pos (suc n))) (codes ";"),
  length-decimal (pos from),
  length-decimal (pos (suc n)),
)

-- No text of this table overflows its array: with every string of the object within its own array,
-- all seven have less than 2048 characters.
pub notice_texts-fit :
    (obj : Notice) (from count : ℕ)
    → Fits obj
    → All (λ sql. length sql < 2048) (notice_texts obj from count)
notice_texts-fit obj from count h =
    let q = quoted obj.title in
    let where_text = notice_where_or_set and obj in
    let set_text = notice_where_or_set comma obj in
    (
      omega (arith, length-append q (codes ";"), length-quoted obj.title),
      (
        length-notice_insert_sql obj h,
        (
          omega (arith, length-append q (codes ";"), length-quoted obj.title),
          (
            omega (
              arith,
              length-notice_where_or_set comma obj h,
              length-append set_text (codes " where id=" ++ (quoted (decimal obj.id) ++ codes ";")),
              length-append (quoted (decimal obj.id)) (codes ";"),
              length-quoted (decimal obj.id),
              length-decimal obj.id,
            ),
            (
              omega (
                arith,
                length-notice_where_or_set and obj h,
                length-append where_text (codes ";"),
              ),
              (
                omega (
                  arith,
                  length-notice_where_or_set and obj h,
                  length-append where_text (codes ";"),
                ),
                (
                  length-notice_select where_text from count (length-notice_where_or_set and obj h),
                  tt,
                ),
              ),
            ),
          ),
        ),
      ),
    )
