-- ===== src/User/Clause.antt =====
-- The WHERE and SET clauses of the table `user`, as the list of their assignments.
use c_framework_to_server.Base.{true, List, [], ◌∷◌, ◌≡◌, refl, arith}
use c_framework_to_server.Sql.{Field, marks, Wos, and, comma}
use c_framework_to_server.Sql.Clause.{
  clause, assignments, starts_marked, get_where_or_set_string-clause,
}
use c_framework_to_server.User.{User, user_clause_fields, user_where_or_set}

-- A block that sets middleFlag does not change the test.
starts_marked_by :
    (f : Field) (fs : List Field)
    → marks f ≡ true
    → starts_marked fs ≡ true
    → starts_marked (f ∷ fs) ≡ true
starts_marked_by f fs m h = ground arith

abbrev AllMark : List Field → Type 0
AllMark [] = Unit
AllMark (f ∷ fs) = (marks f ≡ true) × AllMark fs

all_starts_marked : (fs : List Field) → AllMark fs → starts_marked fs ≡ true
all_starts_marked [] h = refl
all_starts_marked (f ∷ fs) h = starts_marked_by f fs h.0 (all_starts_marked fs h.1)

-- For every user the text is a space if no column is set, and otherwise "where " and the assignments
-- of the columns that are set joined by " and ", or "set " and those joined by " , ": the id and the
-- account count only in a WHERE clause.
pub user_where_or_set-clause :
    (wos : Wos) (obj : User)
    → user_where_or_set wos obj ≡ clause wos (assignments (user_clause_fields wos obj))
user_where_or_set-clause and obj =
    get_where_or_set_string-clause and (user_clause_fields and obj)
      (all_starts_marked (user_clause_fields and obj) search (tt))
user_where_or_set-clause comma obj =
    get_where_or_set_string-clause comma (user_clause_fields comma obj)
      (all_starts_marked (user_clause_fields comma obj) search (tt))
