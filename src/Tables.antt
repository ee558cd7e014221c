-- ===== src/Tables.antt =====
-- The three tables of cFrameworkToServer/src/model together: the SQL texts of user.c, notice.c and
-- appVersion.c, whose functions repeat each other.
pub mod Tests
use c_framework_to_server.Base.{ℕ, false, ◌<◌, ◌≡◌, length, All}
use c_framework_to_server.Text.{is_empty}
use c_framework_to_server.Sql.{Wos}
use c_framework_to_server.Sql.Clause.{clause, assignments}
use c_framework_to_server.User.{User, user_clause_fields, user_where_or_set}
use c_framework_to_server.User.Clause.{user_where_or_set-clause}
use c_framework_to_server.User.Texts.{user_texts, user_texts-fit}
use c_framework_to_server.User.Texts as UserTexts
use c_framework_to_server.Notice.{Notice, notice_clause_fields, notice_where_or_set}
use c_framework_to_server.Notice.Clause.{notice_where_or_set-clause}
use c_framework_to_server.Notice.Texts.{notice_texts, notice_texts-fit}
use c_framework_to_server.Notice.Texts as NoticeTexts
use c_framework_to_server.AppVer.{AppVer}
use c_framework_to_server.AppVer.Texts.{app_ver_texts, app_ver_texts-fit}
use c_framework_to_server.AppVer.Texts as AppVerTexts

-- No SQL text of the three tables overflows its array: with every string of the objects within its
-- own array, all seven texts of each table have less than 2048 characters.
pub tables_texts-fit :
    (u : User) (n : Notice) (v : AppVer) (from count : ℕ)
    → UserTexts.Fits u
    → NoticeTexts.Fits n
    → AppVerTexts.Fits v
    → All (λ sql. length sql < 2048) (user_texts u from count)
      × All (λ sql. length sql < 2048) (notice_texts n from count)
      × All (λ sql. length sql < 2048) (app_ver_texts v from count)
tables_texts-fit u n v from count hu hn hv = (
  user_texts-fit u from count hu,
  notice_texts-fit n from count hn,
  app_ver_texts-fit v from count hv,
)

-- The WHERE or SET text is a space if no column is set, and otherwise "where " and the assignments
-- of the columns that are set joined by " and ", or "set " and those joined by " , ": so for every
-- user, whose id and account count only in a WHERE clause, and for every notice with a title.
pub tables_where_or_set-clause :
    (wos : Wos) (u : User) (n : Notice)
    → is_empty n.title ≡ false
    → (user_where_or_set wos u ≡ clause wos (assignments (user_clause_fields wos u)))
      × (notice_where_or_set wos n ≡ clause wos (assignments (notice_clause_fields wos n)))
tables_where_or_set-clause wos u n h =
    (user_where_or_set-clause wos u, notice_where_or_set-clause wos n h)
