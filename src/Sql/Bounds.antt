-- ===== src/Sql/Bounds.antt =====
-- How long the texts of the statements are.
use c_framework_to_server.Base.{
  ℕ, ◌+◌, ◌≤◌, ◌<◌, Bool, true, false, some, List, [], ◌∷◌, ◌++◌, ◌≡◌, length, length-append, arith,
  lt→ltb, if◌then◌else◌,
}
use c_framework_to_server.Base.Int.{ℤ, ltb_ℤ, pos}
use c_framework_to_server.Text.{codes, decimal}
use c_framework_to_server.Text.Decimal.{length-decimal}
use c_framework_to_server.Sql.{
  Field, text, number, unmarked, quoted, assignment, add_fields, Wos, and, comma, flag_string,
  opening, get_where_or_set_string, Mysql, exec_db,
}
use c_framework_to_server.Sql.Statements.{exec_checked, sprintf_sql, quoted_list}

-- Room for a name, an equals sign, two quotes, a value and a separator.
abbrev pub room : Field → ℕ
room (text name value) = length name + length value + 8
room (number name value) = length name + 19
room (unmarked name value) = length name + 19

abbrev pub total_room : List Field → ℕ
total_room [] = 0
total_room (f ∷ fs) = room f + total_room fs

pub length-quoted : (value : List ℕ) → length (quoted value) ≡ length value + 2
length-quoted value = omega (arith, length-append value (39 ∷ []))

length-assignment-room : (f : Field) → length (assignment f) + 5 ≤ room f
length-assignment-room (text name value) =
    omega (arith, length-append name (b'=' ∷ quoted value), length-quoted value)
length-assignment-room (number name value) = omega (
  arith,
  length-append name (b'=' ∷ quoted (decimal value)),
  length-quoted (decimal value),
  length-decimal value,
)
length-assignment-room (unmarked name value) = omega (
  arith,
  length-append name (b'=' ∷ quoted (decimal value)),
  length-quoted (decimal value),
  length-decimal value,
)

length-add_fields :
    (sep : List ℕ) (middle_flag : Bool) (buffer : List ℕ) (fs : List Field)
    → length sep ≤ 5
    → length (add_fields sep middle_flag buffer fs) ≤ length buffer + total_room fs
unfolding add_fields
length-add_fields sep m buffer [] h = omega arith
length-add_fields sep m buffer (f ∷ fs) h = ground (
  arith,
  length-assignment-room f,
  length-add_fields sep true (buffer ++ assignment f) fs,
  length-add_fields sep false (buffer ++ assignment f) fs,
  length-add_fields sep true ((buffer ++ sep) ++ assignment f) fs,
  length-add_fields sep m buffer fs,
  length-append buffer (assignment f),
  length-append (buffer ++ sep) (assignment f),
  length-append buffer sep,
)

-- The text of a WHERE or SET clause has room in the buffer where the names and values have.
pub length-get_where_or_set_string :
    (wos : Wos) (fs : List Field) → length (get_where_or_set_string wos fs) ≤ 6 + total_room fs
unfolding get_where_or_set_string
length-get_where_or_set_string and fs =
    ground (arith, length-add_fields (flag_string and) false (opening and) fs (omega arith))
length-get_where_or_set_string comma fs =
    ground (arith, length-add_fields (flag_string comma) false (opening comma) fs (omega arith))

pub sprintf_sql-fits : (sql : List ℕ) → length sql < 2048 → sprintf_sql sql ≡ some sql
sprintf_sql-fits sql h = rw (lt→ltb (length sql) 2048 h)

-- Room for the values of an insert statement.
abbrev pub values_room : List (List ℕ) → ℕ
values_room [] = 0
values_room (x ∷ xs) = length x + 3 + values_room xs

pub length-quoted_list : (xs : List (List ℕ)) → length (quoted_list xs) ≤ values_room xs
length-quoted_list [] = omega arith
length-quoted_list (x ∷ []) = omega (arith, length-quoted x)
length-quoted_list (x ∷ y ∷ xs) = omega (
  arith,
  length-quoted x,
  length-append (quoted x) (codes "," ++ quoted_list (y ∷ xs)),
  length-quoted_list (y ∷ xs),
)

-- A text of three or of five parts.
pub length-three : (a b c : List ℕ) → length (a ++ (b ++ c)) ≡ length a + length b + length c
length-three a b c = omega (arith, length-append a (b ++ c), length-append b c)

pub length-five :
    (a b c d e : List ℕ)
    → length (a ++ (b ++ (c ++ (d ++ e)))) ≡ length a + length b + length c + length d + length e
length-five a b c d e = omega (
  arith,
  length-append a (b ++ (c ++ (d ++ e))),
  length-append b (c ++ (d ++ e)),
  length-three c d e,
)

-- A statement that updates or deletes runs to its end: its text fits in the array.
pub exec_checked-runs :
    (mysql : Mysql) (sql : List ℕ) (fail : ℤ) (s : mysql.Session)
    → length sql < 2048
    → exec_checked mysql sql fail s ≡ (
        let (ret, s') = exec_db mysql sql s in
        if ltb_ℤ ret (pos 0) then some (fail, s') else some (ret, s'))
unfolding exec_checked
exec_checked-runs mysql sql fail s h = rw (sprintf_sql-fits sql h)
