-- ===== src/AppVer/Texts.antt =====
-- The texts that cFrameworkToServer/src/model/appVersion.c prints into its arrays of 2048 chars.
use c_framework_to_server.Base.{
  ℕ, zero, suc, none, ◌<◌, ◌≤◌, List, [], ◌∷◌, ◌++◌, length, arith, All, length-append,
}
use c_framework_to_server.Base.Int.{pos}
use c_framework_to_server.Text.{codes, decimal}
use c_framework_to_server.Text.Decimal.{length-decimal}
use c_framework_to_server.Sql.{Wos, and, comma, quoted}
use c_framework_to_server.Sql.Statements.{count_text, select_text, quoted_list}
use c_framework_to_server.Sql.Bounds.{
  length-get_where_or_set_string, length-quoted, length-quoted_list, length-three,
}
use c_framework_to_server.AppVer.{AppVer, app_ver_clause_fields, app_ver_where_or_set}
use c_framework_to_server.AppVer.Store.{
  app_ver_find_sql, app_ver_insert_sql, app_ver_id_sql, app_ver_modify_sql, app_ver_delete_sql,
}

-- Every string has room in its array, with its NUL.
pub record Fits (obj : AppVer) : Type 0 where
  pub name_fits : length obj.name < 20
  pub type_fits : length obj.type < 2
  pub version_fits : length obj.version < 20
  pub level_fits : length obj.level < 2
  pub path_fits : length obj.path < 256

length-app_ver_where_or_set :
    (wos : Wos) (obj : AppVer) → Fits obj → length (app_ver_where_or_set wos obj) ≤ 478
length-app_ver_where_or_set and obj h =
    omega (arith, length-get_where_or_set_string and (app_ver_clause_fields and obj))
length-app_ver_where_or_set comma obj h =
    omega (arith, length-get_where_or_set_string comma (app_ver_clause_fields comma obj))

length-app_ver_insert_sql : (obj : AppVer) → Fits obj → length (app_ver_insert_sql obj) < 2048
length-app_ver_insert_sql obj h = omega (
  arith,
  length-three
      (codes
        "insert into appver(type,name,version,level,path,releaseTime,createTime,lastModifyTime)\t\t\t\tvalue(")
      (quoted_list (
        obj.type
        ∷ obj.name
        ∷ obj.version
        ∷ obj.level
        ∷ obj.path
        ∷ decimal obj.release_time
        ∷ decimal obj.create_time
        ∷ decimal obj.last_modify_time
        ∷ []))
      (codes ");"),
  length-quoted_list (
      obj.type
      ∷ obj.name
      ∷ obj.version
      ∷ obj.level
      ∷ obj.path
      ∷ decimal obj.release_time
      ∷ decimal obj.create_time
      ∷ decimal obj.last_modify_time
      ∷ []),
  length-decimal obj.release_time,
  length-decimal obj.create_time,
  length-decimal obj.last_modify_time,
)

-- All the texts, the query's with any limit.
abbrev pub app_ver_texts : AppVer → (from count : ℕ) → List (List ℕ)
app_ver_texts obj from count =
    app_ver_find_sql obj
    ∷ app_ver_insert_sql obj
    ∷ app_ver_id_sql obj
    ∷ app_ver_modify_sql obj
    ∷ app_ver_delete_sql obj
    ∷ count_text (codes "appver") (app_ver_where_or_set and obj)
    ∷ select_text (codes "appver") none (app_ver_where_or_set and obj) from count
    ∷ []

length-app_ver_select :
    (arg : List ℕ) (from count : ℕ)
    → length arg ≤ 478
    → length (select_text (codes "appver") none arg from count) < 2048
length-app_ver_select arg from zero h = omega (arith, length-append arg (codes " ;"))
length-app_ver_select arg from (suc n) h = omega (
  arith,
  length-append arg (
      codes " limit "
      ++ (decimal (pos from) ++ (codes "," ++ (decimal (pos (suc n)) ++ codes ";")))),
  length-append (decimal (pos from)) (codes "," ++ (decimal (pos (suc n)) ++ codes ";")),
  length-append (decimal (pos (suc n))) (codes ";"),
  length-decimal (pos from),
  length-decimal (pos (suc n)),
)

-- No text of this table overflows its array: with every string of the object within its own array,
-- all seven have less than 2048 characters.
pub app_ver_texts-fit :
    (obj : AppVer) (from count : ℕ)
    → Fits obj
    → All (λ sql. length sql < 2048) (app_ver_texts obj from count)
app_ver_texts-fit obj from count h =
    let q = quoted obj.name in
    let where_text = app_ver_where_or_set and obj in
    let set_text = app_ver_where_or_set comma obj in
    (
      omega (arith, length-append q (codes ";"), length-quoted obj.name),
      (
        length-app_ver_insert_sql obj h,
        (
          omega (arith, length-append q (codes ";"), length-quoted obj.name),
          (
            omega (
              arith,
              length-app_ver_where_or_set comma obj h,
              length-append set_text (codes " where id=" ++ (quoted (decimal obj.id) ++ codes ";")),
              length-append (quoted (decimal obj.id)) (codes ";"),
              length-quoted (decimal obj.id),
              length-decimal obj.id,
            ),
            (
              omega (
                arith,
                length-app_ver_where_or_set and obj h,
                length-append where_text (codes ";"),
              ),
              (
                omega (
                  arith,
                  length-app_ver_where_or_set and obj h,
                  length-append where_text (codes ";"),
                ),
                (
                  length-app_ver_select where_text from count
                      (length-app_ver_where_or_set and obj h),
                  tt,
                ),
              ),
            ),
          ),
        ),
      ),
    )
