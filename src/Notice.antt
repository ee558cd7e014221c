-- ===== src/Notice.antt =====
-- cFrameworkToServer/src/model/notice.c and notice.h: the table `notice`, its rows as a struct, and the lists of
-- fields from which the SQL texts and the JSON objects are built. A string field holds the bytes
-- before its NUL; the number of chars of its array is what `read_string` and `text_cell` get.
pub mod Store
pub mod Convert
pub mod Texts
pub mod Clause
use c_framework_to_server.Base.{◌+◌, ◌≤◌, ℕ, Option, none, some, List, [], ◌∷◌, ◌++◌}
use c_framework_to_server.Base.Int.{ℤ, pos}
use c_framework_to_server.Text.{codes}
use c_framework_to_server.Sql.{
  Field, text, number, unmarked, Wos, and, comma, get_where_or_set_string,
}

pub record Notice : Type 0 where
  pub id : ℤ
  pub title : List ℕ
  pub type : List ℕ
  pub start_time : ℤ
  pub end_time : ℤ
  pub country : List ℕ
  pub province : List ℕ
  pub city : List ℕ
  pub district : List ℕ
  pub info : List ℕ
  pub create_time : ℤ
  pub last_modify_time : ℤ
  pub token : List ℕ

-- memset(obj, 0, sizeof(Notice)).
abbrev pub empty_notice : Notice
empty_notice = record {
  id = pos 0;
  title = [];
  type = [];
  start_time = pos 0;
  end_time = pos 0;
  country = [];
  province = [];
  city = [];
  district = [];
  info = [];
  create_time = pos 0;
  last_modify_time = pos 0;
  token = [];
}

-- The fields that both a filter and an update use.
abbrev pub notice_fields : Notice → List Field
notice_fields obj =
    text (codes "title") obj.title
    ∷ text (codes "type") obj.type
    ∷ number (codes "startTime") obj.start_time
    ∷ unmarked (codes "endTime") obj.end_time
    ∷ text (codes "country") obj.country
    ∷ text (codes "province") obj.province
    ∷ text (codes "city") obj.city
    ∷ text (codes "district") obj.district
    ∷ text (codes "info") obj.info
    ∷ number (codes "createTime") obj.create_time
    ∷ number (codes "lastModifyTime") obj.last_modify_time
    ∷ []

-- The blocks of getWhereOrSetString.
abbrev pub notice_clause_fields : Wos → Notice → List Field
notice_clause_fields and obj = number (codes "id") obj.id ∷ notice_fields obj
notice_clause_fields comma obj = notice_fields obj

abbrev pub notice_where_or_set : Wos → Notice → List ℕ
notice_where_or_set wos obj = get_where_or_set_string wos (notice_clause_fields wos obj)

-- The fields of the JSON object, in its order.
abbrev pub notice_json_fields : Notice → List Field
notice_json_fields obj =
    number (codes "id") obj.id
    ∷ text (codes "title") obj.title
    ∷ text (codes "type") obj.type
    ∷ number (codes "startTime") obj.start_time
    ∷ number (codes "endTime") obj.end_time
    ∷ text (codes "country") obj.country
    ∷ text (codes "province") obj.province
    ∷ text (codes "city") obj.city
    ∷ text (codes "district") obj.district
    ∷ text (codes "info") obj.info
    ∷ number (codes "createTime") obj.create_time
    ∷ number (codes "lastModifyTime") obj.last_modify_time
    ∷ []
