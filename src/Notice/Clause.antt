-- ===== src/Notice/Clause.antt =====
-- The WHERE and SET clauses of the table `notice`, whose block for endTime leaves middleFlag alone.
use c_framework_to_server.Base.{ℕ, false, List, ◌++◌, ◌≡◌, arith}
use c_framework_to_server.Base.Int.{ℤ, pos, eqb_ℤ}
use c_framework_to_server.Text.{codes, decimal, is_empty}
use c_framework_to_server.Sql.{quoted, Wos, and, comma, add_fields, get_where_or_set_string}
use c_framework_to_server.Sql.Clause.{clause, assignments, get_where_or_set_string-clause}
use c_framework_to_server.Notice.{Notice, empty_notice, notice_clause_fields, notice_where_or_set}

-- For a notice with a title the text is the assignments of the columns that are set, joined by
-- " and " behind "where " or by " , " behind "set ".
pub notice_where_or_set-clause :
    (wos : Wos) (obj : Notice)
    → is_empty obj.title ≡ false
    → notice_where_or_set wos obj ≡ clause wos (assignments (notice_clause_fields wos obj))
notice_where_or_set-clause and obj h =
    get_where_or_set_string-clause and (notice_clause_fields and obj) (ground arith)
notice_where_or_set-clause comma obj h =
    get_where_or_set_string-clause comma (notice_clause_fields comma obj) (ground arith)

-- A notice of which only endTime and the country are set gives a text with no " and " between the two
-- assignments, which is no SQL.
pub notice_where_or_set-end_time :
    (end_time : ℤ) (country : List ℕ)
    → eqb_ℤ end_time (pos 0) ≡ false
    → is_empty country ≡ false
    → notice_where_or_set and (record empty_notice { end_time = end_time; country = country })
      ≡ codes "where endTime="
        ++ (quoted (decimal end_time) ++ (codes "country=" ++ quoted country))
unfolding get_where_or_set_string add_fields
notice_where_or_set-end_time e c h k = rw (h, k)
