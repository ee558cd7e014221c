-- ===== src/Notice/Convert.antt =====
-- NoticeParseJson and NoticeGenerateJson of cFrameworkToServer/src/model/notice.c.
-- The parser returns no code where it succeeds, and no caller reads the code: the model leaves it out.
use c_framework_to_server.Base.{ℕ, Option, none, some, List}
use c_framework_to_server.Text.{codes}
use c_framework_to_server.Memory.{◌>>=◌}
use c_framework_to_server.Json.{CJson, read_string, read_int, json_members}
use c_framework_to_server.Notice.{Notice, notice_json_fields}

module _ (c_json : CJson) where
  open c_json use {Json, parse, print}

  -- The fields that the object names, over those of the struct.
  abbrev notice_of_json : Json → Notice → Option Notice
  notice_of_json json obj = do
    token' ← read_string c_json json (codes "token") 20 obj.token
    title' ← read_string c_json json (codes "title") 128 obj.title
    type' ← read_string c_json json (codes "type") 2 obj.type
    country' ← read_string c_json json (codes "country") 20 obj.country
    province' ← read_string c_json json (codes "province") 20 obj.province
    city' ← read_string c_json json (codes "city") 20 obj.city
    district' ← read_string c_json json (codes "district") 20 obj.district
    info' ← read_string c_json json (codes "info") 1024 obj.info
    some (record obj {
      id = read_int c_json json (codes "id") obj.id;
      token = token';
      title = title';
      type = type';
      start_time = read_int c_json json (codes "startTime") obj.start_time;
      end_time = read_int c_json json (codes "endTime") obj.end_time;
      country = country';
      province = province';
      city = city';
      district = district';
      info = info';
      create_time = read_int c_json json (codes "createTime") obj.create_time;
      last_modify_time = read_int c_json json (codes "lastModifyTime") obj.last_modify_time;
    })

  abbrev pub notice_parse_json : (json_string : List ℕ) → Notice → Option Notice
  notice_parse_json json_string obj = elim (parse json_string) [
    | none ↦ some obj
    | some json ↦ notice_of_json json obj
  ]

  abbrev pub notice_generate_json : Notice → (remove_field : Option (List ℕ)) → List ℕ
  notice_generate_json obj remove_field = print (json_members remove_field (notice_json_fields obj))
