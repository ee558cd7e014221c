-- ===== src/Sql/Statements.antt =====
-- The statement skeletons that the three models of cFrameworkToServer/src/model share: the same
-- lines stand in user.c, notice.c and appVersion.c for another table. `none` is undefined
-- behaviour: a text that does not fit in an array, or a cell that is NULL or missing.
use c_framework_to_server.Base.{
  ℕ, zero, suc, Bool, Option, none, some, List, [], ◌∷◌, ◌++◌, length, get_elem?, leb,
  if◌then◌else◌,
}
use c_framework_to_server.Base.Int.{ℤ, pos, ltb_ℤ}
use c_framework_to_server.Text.{codes, strcpy, decimal, atoi}
use c_framework_to_server.Memory.{◌>>=◌}
use c_framework_to_server.Errors.{err_mysql_query_fail}
use c_framework_to_server.Sql.{quoted, Mysql, Row, exec_db, query_db}

-- sprintf into `char sql[SQL_LENGTH]`.
abbrev pub sprintf_sql : List ℕ → Option (List ℕ)
sprintf_sql = strcpy 2048

-- sqlRow[i].
abbrev pub cell : ℕ → Row → Option (List ℕ)
cell i row = elim (get_elem? row i) [ none ↦ none | some value ↦ value ]

-- strcpy(field, sqlRow[i]) and atoi(sqlRow[i]).
abbrev pub text_cell : (i size : ℕ) → Row → Option (List ℕ)
text_cell i size row = cell i row >>= (λ value. strcpy size value)

abbrev pub int_cell : ℕ → Row → Option ℤ
int_cell i row = cell i row >>= (λ value. some (atoi value))

-- The values of an insert statement.
abbrev pub quoted_list : List (List ℕ) → List ℕ
quoted_list [] = []
quoted_list (x ∷ []) = quoted x
quoted_list (x ∷ y ∷ xs) = quoted x ++ (codes "," ++ quoted_list (y ∷ xs))

-- The first row that mysql_fetch_row returns.
abbrev pub first_row : List Row → Option Row
first_row [] = none
first_row (row ∷ rows) = some row

abbrev pub map_rows {ℓ} : {A : Type ℓ} → (Row → Option A) → List Row → Option (List A)
map_rows decode [] = some []
map_rows decode (row ∷ rows) =
    decode row >>= (λ a. map_rows decode rows >>= (λ as'. some (a ∷ as')))

-- The text of a query function that returns the number of items.
abbrev pub count_text : (table arg : List ℕ) → List ℕ
count_text table arg = codes "select count(*) from " ++ (table ++ (codes " " ++ (arg ++ codes ";")))

-- The text of a query function: the caller's own, or one with or without a limit.
abbrev pub select_text :
    (table : List ℕ) (sql_manual : Option (List ℕ)) (arg : List ℕ) (limit_from limit_count : ℕ)
    → List ℕ
select_text table (some sql) arg from count = sql
select_text table none arg from zero =
    codes "select * from " ++ (table ++ (codes " " ++ (arg ++ codes " ;")))
select_text table none arg from (suc n) =
    codes "select * from "
    ++ (table
        ++ (codes " "
            ++ (arg
                ++ (codes " limit "
                    ++ (decimal (pos from)
                        ++ (codes "," ++ (decimal (pos (suc n)) ++ codes ";")))))))

module _ (mysql : Mysql) where
  open mysql use {Session}

  -- The last part of an insert function: the id of the new row.
  fetch_id : (sql_id : List ℕ) (ret query_fail : ℤ) → Session → Option (ℤ × Option ℤ × Session)
  fetch_id sql_id ret query_fail s = do
    sql ← sprintf_sql sql_id
    let (result, s') = query_db mysql sql s
    elim result [
      | none ↦ some (err_mysql_query_fail, none, s')
      | some rows ↦
          if leb (length rows) 0
          then some (query_fail, none, s')
          else first_row rows >>= (λ row. cell 0 row >>= (λ id. some (ret, some (atoi id), s')))
    ]

  -- An insert function: its code, the id for obj->id if it is reached, and the session. `failed`
  -- is the test of the code that exec_db returns.
  unfoldable pub insert_checked :
      (sql_find sql_insert sql_id : List ℕ) (failed : ℤ → Bool)
      (duplicate insert_fail query_fail : ℤ)
      → Session
      → Option (ℤ × Option ℤ × Session)
  unfolding fetch_id
  insert_checked sql_find sql_insert sql_id failed duplicate insert_fail query_fail s = do
    sql ← sprintf_sql sql_find
    let (result, s1) = query_db mysql sql s
    elim result [
      | none ↦ some (err_mysql_query_fail, none, s1)
      | some rows ↦
          if leb 1 (length rows)
          then some (duplicate, none, s1)
          else sprintf_sql sql_insert >>= (λ sql'.
            let (ret, s2) = exec_db mysql sql' s1 in
            if failed ret then some (insert_fail, none, s2) else fetch_id sql_id ret query_fail s2)
    ]

  -- A query function that returns the number of items.
  unfoldable pub count_items : (table arg : List ℕ) → Session → Option (ℤ × Session)
  count_items table arg s = do
    sql ← sprintf_sql (count_text table arg)
    let (result, s') = query_db mysql sql s
    elim result [
      | none ↦ some (err_mysql_query_fail, s')
      | some rows ↦ first_row rows >>= (λ row. cell 0 row >>= (λ n. some (atoi n, s')))
    ]

  -- A query function that returns the items.
  unfoldable pub select_items {ℓ} :
      {A : Type ℓ}
      → (decode : Row → Option A) (text : List ℕ) → Session
      → Option (ℤ × List A × Session)
  select_items decode text s = do
    sql ← sprintf_sql text
    let (result, s') = query_db mysql sql s
    elim result [
      | none ↦ some (err_mysql_query_fail, [], s')
      | some rows ↦
          if leb (length rows) 0
          then some (pos 0, [], s')
          else map_rows decode rows >>= (λ items. some (pos (length rows), items, s'))
    ]

  -- An update or delete function.
  unfoldable pub exec_checked : (text : List ℕ) (fail : ℤ) → Session → Option (ℤ × Session)
  exec_checked text fail s = do
    sql ← sprintf_sql text
    let (ret, s') = exec_db mysql sql s
    if ltb_ℤ ret (pos 0) then some (fail, s') else some (ret, s')
