-- ===== src/Sql/Clause.antt =====
-- What getWhereOrSetString builds.
use mathlib.Core.List.{append_assoc, append-nil}
use c_framework_to_server.Base.{
  ℕ, ◌+◌, ◌≤◌, ◌≡◌, refl, sym, Bool, true, false, ◌||◌, inl, inr, List, [], ◌∷◌, ◌++◌, length,
  arith, Bool-cases, length-append, ◌≢◌, All, if◌then◌else◌,
}
use c_framework_to_server.Text.{codes, str_eq, decimal}
use c_framework_to_server.Sql.{
  Field, text, number, unmarked, is_set, quoted, assignment, marks, add_fields, Wos, and, comma,
  flag_string, opening, get_where_or_set_string,
}

-- The assignments of the fields that are set, in order.
abbrev pub assignments : List Field → List (List ℕ)
assignments [] = []
assignments (f ∷ fs) = if is_set f then assignment f ∷ assignments fs else assignments fs

-- Texts with a separator in front of each, and between them.
abbrev pub each_behind : (sep : List ℕ) → List (List ℕ) → List ℕ
each_behind sep [] = []
each_behind sep (x ∷ xs) = sep ++ (x ++ each_behind sep xs)

abbrev pub joined : (sep : List ℕ) → List (List ℕ) → List ℕ
joined sep [] = []
joined sep (x ∷ xs) = x ++ each_behind sep xs

-- The first field that is set, if there is one, sets middleFlag.
abbrev pub starts_marked : List Field → Bool
starts_marked [] = true
starts_marked (f ∷ fs) = if is_set f then marks f else starts_marked fs

add_fields_behind :
    (sep buffer : List ℕ) (fs : List Field)
    → add_fields sep true buffer fs ≡ buffer ++ each_behind sep (assignments fs)
unfolding add_fields
add_fields_behind sep buffer [] = sym (append-nil buffer)
add_fields_behind sep buffer (f ∷ fs) = ground (
  arith,
  add_fields_behind sep ((buffer ++ sep) ++ assignment f) fs,
  add_fields_behind sep buffer fs,
  append_assoc (buffer ++ sep) (assignment f) (each_behind sep (assignments fs)),
  append_assoc buffer sep (assignment f ++ each_behind sep (assignments fs)),
)

add_fields_first :
    (sep buffer : List ℕ) (fs : List Field)
    → starts_marked fs ≡ true
    → add_fields sep false buffer fs ≡ buffer ++ joined sep (assignments fs)
unfolding add_fields
add_fields_first sep buffer [] h = sym (append-nil buffer)
add_fields_first sep buffer (f ∷ fs) h = ground (
  arith,
  add_fields_behind sep (buffer ++ assignment f) fs,
  add_fields_first sep buffer fs,
  append_assoc buffer (assignment f) (each_behind sep (assignments fs)),
)

-- The text is the opening word alone only if no field is set.
abbrev pub clause : Wos → List (List ℕ) → List ℕ
clause wos [] = codes " "
clause wos (x ∷ xs) = opening wos ++ joined (flag_string wos) (x ∷ xs)

str_eq-length : (s t : List ℕ) → str_eq s t ≡ true → length s ≡ length t
str_eq-length [] [] h = refl
str_eq-length [] (b ∷ t) h = cc
str_eq-length (a ∷ s) [] h = cc
str_eq-length (a ∷ s) (b ∷ t) h = ground (arith, str_eq-length s t)

str_eq_lengths : (s t : List ℕ) → length s ≢ length t → str_eq s t ≡ false
str_eq_lengths s t h = elim (Bool-cases (str_eq s t)) [
  | inl e ↦ absurd (h (str_eq-length s t e))
  | inr e ↦ e
]

length-quoted : (value : List ℕ) → length (quoted value) ≡ length value + 2
length-quoted value = omega (arith, length-append value (39 ∷ []))

-- A name, an equals sign and two quotes.
length-assignment : (f : Field) → 3 ≤ length (assignment f)
length-assignment (text name value) =
    omega (arith, length-append name (b'=' ∷ quoted value), length-quoted value)
length-assignment (number name value) =
    omega (arith, length-append name (b'=' ∷ quoted (decimal value)), length-quoted (decimal value))
length-assignment (unmarked name value) =
    omega (arith, length-append name (b'=' ∷ quoted (decimal value)), length-quoted (decimal value))

assignments-length : (fs : List Field) → All (λ a. 3 ≤ length a) (assignments fs)
assignments-length [] = tt
assignments-length (f ∷ fs) = ground (arith, length-assignment f, assignments-length fs)

-- The test of getWhereOrSetString for an empty clause.
cleared : Wos → List (List ℕ) → List ℕ
cleared wos as' =
    let buffer = opening wos ++ joined (flag_string wos) as' in
    if str_eq buffer (codes "where ") || str_eq buffer (codes "set ") then codes " " else buffer

not_cleared :
    (buffer : List ℕ)
    → 7 ≤ length buffer
    → (str_eq buffer (codes "where ") || str_eq buffer (codes "set ")) ≡ false
not_cleared buffer h = ground (
  arith,
  str_eq_lengths buffer (codes "where ") (omega arith),
  str_eq_lengths buffer (codes "set ") (omega arith),
)

cleared-clause :
    (wos : Wos) (as' : List (List ℕ))
    → All (λ a. 3 ≤ length a) as'
    → cleared wos as' ≡ clause wos as'
unfolding cleared
cleared-clause and [] h = refl
cleared-clause comma [] h = refl
cleared-clause and (x ∷ xs) h =
    let buffer = opening and ++ joined (flag_string and) (x ∷ xs) in
    rw (not_cleared buffer (omega (arith, length-append x (each_behind (flag_string and) xs), h.0)))
cleared-clause comma (x ∷ xs) h =
    let buffer = opening comma ++ joined (flag_string comma) (x ∷ xs) in
    rw (
      not_cleared buffer (omega (arith, length-append x (each_behind (flag_string comma) xs), h.0)))

-- Where the first field that is set is one whose block sets middleFlag, the text is the assignments
-- of the fields that are set, joined by " and " behind "where " or by " , " behind "set ", or a space when none is set.
pub get_where_or_set_string-clause :
    (wos : Wos) (fs : List Field)
    → starts_marked fs ≡ true
    → get_where_or_set_string wos fs ≡ clause wos (assignments fs)
unfolding get_where_or_set_string cleared
get_where_or_set_string-clause wos fs h =
    rw (add_fields_first (flag_string wos) (opening wos) fs h)
      (cleared-clause wos (assignments fs) (assignments-length fs))
