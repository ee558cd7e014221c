-- ===== src/Tables/Tests.antt =====
-- The theorems on the three tables at concrete objects.
use c_framework_to_server.Base.{◌<◌, ◌≡◌, refl, arith, All, length}
use c_framework_to_server.Base.Int.{pos}
use c_framework_to_server.Text.{codes}
use c_framework_to_server.Sql.{comma}
use c_framework_to_server.Sql.Clause.{clause, assignments}
use c_framework_to_server.User.{User, empty_user, user_clause_fields, user_where_or_set}
use c_framework_to_server.User.Texts.{user_texts}
use c_framework_to_server.Notice.{Notice, empty_notice, notice_clause_fields, notice_where_or_set}
use c_framework_to_server.Notice.Texts.{notice_texts}
use c_framework_to_server.AppVer.{AppVer, empty_app_ver}
use c_framework_to_server.AppVer.Texts.{app_ver_texts}
use c_framework_to_server.Tables.{tables_texts-fit, tables_where_or_set-clause}

abbrev ann : User
ann = record empty_user { id = pos 3; account = codes "ann"; city = codes "Ulm" }

abbrev fair : Notice
fair = record empty_notice { title = codes "fair"; end_time = pos 90; info = codes "at noon" }

abbrev first : AppVer
first = record empty_app_ver { name = codes "app"; version = codes "1.0"; path = codes "/srv/app" }

tables_texts-fit_example :
    All (λ sql. length sql < 2048) (user_texts ann 0 10)
    × All (λ sql. length sql < 2048) (notice_texts fair 0 10)
    × All (λ sql. length sql < 2048) (app_ver_texts first 0 10)
tables_texts-fit_example =
    tables_texts-fit ann fair first 0 10 (omega arith) (omega arith) (omega arith)

tables_where_or_set-clause_example :
    (user_where_or_set comma ann ≡ clause comma (assignments (user_clause_fields comma ann)))
    × (notice_where_or_set comma fair
        ≡ clause comma (assignments (notice_clause_fields comma fair)))
tables_where_or_set-clause_example = tables_where_or_set-clause comma ann fair refl
