-- ===== src/Sql.antt =====
-- The MySQL client as the code uses it, cFrameworkToServer/utils/mysql_basic.c on top of it, and
-- the text of a WHERE or SET clause, which the three files of cFrameworkToServer/src/model build
-- with the same statements.
pub mod Clause
pub mod Statements
pub mod Bounds
use c_framework_to_server.Base.{
  ℕ, zero, suc, ◌+◌, Bool, true, false, not, ◌&&◌, ◌||◌, Option, none, some, List, [], ◌∷◌, ◌++◌,
  ◌==◌, if◌then◌else◌,
}
use c_framework_to_server.Base.Int.{ℤ, pos, neg, eqb_ℤ}
use c_framework_to_server.Text.{codes, is_empty, str_eq, decimal}

-- A row of a result; a cell is a C string or NULL.
abbrev pub Row : Type 0
Row = List (Option (List ℕ))

-- libmysqlclient and the server behind a connection.
pub record Mysql : Type 1 where
  pub Session : Type 0
  -- 0 on success
  pub mysql_query : List ℕ → Session → ℤ × Session
  pub mysql_affected_rows : Session → ℤ
  -- none is NULL
  pub mysql_store_result : Session → Option (List Row) × Session

module _ (mysql : Mysql) where
  open mysql use {Session, mysql_query, mysql_affected_rows, mysql_store_result}

  -- exec_db: the number of rows that the statement touched, or -1.
  unfoldable pub exec_db : List ℕ → Session → ℤ × Session
  exec_db sql s =
      let (state, s') = mysql_query sql s in
      if eqb_ℤ state (pos 0) then (mysql_affected_rows s', s') else (neg 1, s')

  -- query_db: the rows, or NULL.
  unfoldable pub query_db : List ℕ → Session → Option (List Row) × Session
  query_db sql s =
      let (state, s') = mysql_query sql s in
      if eqb_ℤ state (pos 0) then mysql_store_result s' else (none, s')

-- One block of getWhereOrSetString: a string or an int field under its column's name. The block of
-- `unmarked` does not set middleFlag; that of lastModifyTime does not either, but it is the last one.
pub data Field : Type 0 where
  text : (name value : List ℕ) → Field
  number : (name : List ℕ) → (value : ℤ) → Field
  unmarked : (name : List ℕ) → (value : ℤ) → Field

-- strlen(value) != 0, or value != 0.
abbrev pub is_set : Field → Bool
is_set (text name value) = not (is_empty value)
is_set (number name value) = not (eqb_ℤ value (pos 0))
is_set (unmarked name value) = not (eqb_ℤ value (pos 0))

abbrev pub quoted : List ℕ → List ℕ
quoted value = 39 ∷ (value ++ 39 ∷ [])

-- name='value'
abbrev pub assignment : Field → List ℕ
assignment (text name value) = name ++ (b'=' ∷ quoted value)
assignment (number name value) = name ++ (b'=' ∷ quoted (decimal value))
assignment (unmarked name value) = name ++ (b'=' ∷ quoted (decimal value))

abbrev pub marks : Field → Bool
marks (text name value) = true
marks (number name value) = true
marks (unmarked name value) = false

-- The blocks in a row, behind the text that the buffer already holds.
unfoldable pub add_fields :
    (flag_string : List ℕ) (middle_flag : Bool) (buffer : List ℕ) → List Field → List ℕ
add_fields flag_string middle_flag buffer [] = buffer
add_fields flag_string middle_flag buffer (f ∷ fs) =
    add_fields flag_string (if is_set f && marks f then true else middle_flag)
      (if is_set f
        then (if middle_flag then buffer ++ flag_string else buffer) ++ assignment f
        else buffer)
      fs

-- AND and COMMA of model.h.
pub data Wos : Type 0 where
  and comma : Wos

abbrev pub flag_string : Wos → List ℕ
flag_string and = codes " and "
flag_string comma = codes " , "

abbrev pub opening : Wos → List ℕ
opening and = codes "where "
opening comma = codes "set "

-- getWhereOrSetString, for the fields that a model gives it. With no field set only a space is left.
unfoldable pub get_where_or_set_string : Wos → List Field → List ℕ
unfolding add_fields
get_where_or_set_string wos fields =
    let buffer = add_fields (flag_string wos) false (opening wos) fields in
    if str_eq buffer (codes "where ") || str_eq buffer (codes "set ") then codes " " else buffer
