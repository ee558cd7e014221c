-- ===== src/AppVer/Convert.antt =====
-- AppVerParseJson and AppVerGenerateJson of cFrameworkToServer/src/model/appVersion.c.
-- The parser returns no code where it succeeds, and no caller reads the code: the model leaves it out.
use c_framework_to_server.Base.{ℕ, Option, none, some, List}
use c_framework_to_server.Text.{codes}
use c_framework_to_server.Memory.{◌>>=◌}
use c_framework_to_server.Json.{CJson, read_string, read_int, json_members}
use c_framework_to_server.AppVer.{AppVer, app_ver_json_fields}

module _ (c_json : CJson) where
  open c_json use {Json, parse, print}

  -- The fields that the object names, over those of the struct.
  abbrev app_ver_of_json : Json → AppVer → Option AppVer
  app_ver_of_json json obj = do
    token' ← read_string c_json json (codes "token") 20 obj.token
    type' ← read_string c_json json (codes "type") 2 obj.type
    name' ← read_string c_json json (codes "name") 20 obj.name
    version' ← read_string c_json json (codes "version") 20 obj.version
    level' ← read_string c_json json (codes "level") 2 obj.level
    path' ← read_string c_json json (codes "path") 256 obj.path
    some (record obj {
      id = read_int c_json json (codes "id") obj.id;
      token = token';
      type = type';
      name = name';
      version = version';
      level = level';
      path = path';
      release_time = read_int c_json json (codes "releaseTime") obj.release_time;
      create_time = read_int c_json json (codes "createTime") obj.create_time;
      last_modify_time = read_int c_json json (codes "lastModifyTime") obj.last_modify_time;
    })

  abbrev pub app_ver_parse_json : (json_string : List ℕ) → AppVer → Option AppVer
  app_ver_parse_json json_string obj = elim (parse json_string) [
    | none ↦ some obj
    | some json ↦ app_ver_of_json json obj
  ]

  abbrev pub app_ver_generate_json : AppVer → (remove_field : Option (List ℕ)) → List ℕ
  app_ver_generate_json obj remove_field =
      print (json_members remove_field (app_ver_json_fields obj))
