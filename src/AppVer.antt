-- ===== src/AppVer.antt =====
-- cFrameworkToServer/src/model/appVersion.c and appVersion.h: the table `appver`, its rows as a struct, and the lists of
-- fields from which the SQL texts and the JSON objects are built. A string field holds the bytes
-- before its NUL; the number of chars of its array is what `read_string` and `text_cell` get.
pub mod Store
pub mod Convert
pub mod Texts
use c_framework_to_server.Base.{◌+◌, ◌≤◌, ℕ, Option, none, some, List, [], ◌∷◌, ◌++◌}
use c_framework_to_server.Base.Int.{ℤ, pos}
use c_framework_to_server.Text.{codes}
use c_framework_to_server.Sql.{
  Field, text, number, unmarked, Wos, and, comma, get_where_or_set_string,
}

pub record AppVer : Type 0 where
  pub id : ℤ
  pub name : List ℕ
  pub type : List ℕ
  pub version : List ℕ
  pub level : List ℕ
  pub path : List ℕ
  pub release_time : ℤ
  pub create_time : ℤ
  pub last_modify_time : ℤ
  pub token : List ℕ

-- memset(obj, 0, sizeof(AppVer)).
abbrev pub empty_app_ver : AppVer
empty_app_ver = record {
  id = pos 0;
  name = [];
  type = [];
  version = [];
  level = [];
  path = [];
  release_time = pos 0;
  create_time = pos 0;
  last_modify_time = pos 0;
  token = [];
}

-- The fields that both a filter and an update use.
abbrev pub app_ver_fields : AppVer → List Field
app_ver_fields obj =
    text (codes "type") obj.type
    ∷ text (codes "name") obj.name
    ∷ text (codes "version") obj.version
    ∷ text (codes "level") obj.level
    ∷ text (codes "path") obj.path
    ∷ number (codes "releaseTime") obj.release_time
    ∷ number (codes "createTime") obj.create_time
    ∷ number (codes "lastModifyTime") obj.last_modify_time
    ∷ []

-- The blocks of getWhereOrSetString.
abbrev pub app_ver_clause_fields : Wos → AppVer → List Field
app_ver_clause_fields and obj = number (codes "id") obj.id ∷ app_ver_fields obj
app_ver_clause_fields comma obj = app_ver_fields obj

abbrev pub app_ver_where_or_set : Wos → AppVer → List ℕ
app_ver_where_or_set wos obj = get_where_or_set_string wos (app_ver_clause_fields wos obj)

-- The fields of the JSON object, in its order.
abbrev pub app_ver_json_fields : AppVer → List Field
app_ver_json_fields obj =
    number (codes "id") obj.id
    ∷ text (codes "name") obj.name
    ∷ text (codes "type") obj.type
    ∷ text (codes "version") obj.version
    ∷ text (codes "level") obj.level
    ∷ text (codes "path") obj.path
    ∷ number (codes "releaseTime") obj.release_time
    ∷ number (codes "createTime") obj.create_time
    ∷ number (codes "lastModifyTime") obj.last_modify_time
    ∷ []
