-- ===== src/User/Convert.antt =====
-- UserParseJson and UserGenerateJson, and updateObj, of cFrameworkToServer/src/model/user.c.
-- The parser returns no code where it succeeds, and no caller reads the code: the model leaves it out.
use c_framework_to_server.Base.{ℕ, Option, none, some, List, if◌then◌else◌}
use c_framework_to_server.Base.Int.{ℤ, pos, eqb_ℤ}
use c_framework_to_server.Text.{codes, is_empty}
use c_framework_to_server.Memory.{◌>>=◌}
use c_framework_to_server.Json.{CJson, read_string, read_int, json_members}
use c_framework_to_server.User.{User, user_json_fields}

module _ (c_json : CJson) where
  open c_json use {Json, parse, print}

  -- The fields that the object names, over those of the struct.
  abbrev user_of_json : Json → User → Option User
  user_of_json json obj = do
    account' ← read_string c_json json (codes "account") 20 obj.account
    password' ← read_string c_json json (codes "password") 20 obj.password
    acc_type' ← read_string c_json json (codes "accType") 2 obj.acc_type
    phone' ← read_string c_json json (codes "phone") 16 obj.phone
    mail' ← read_string c_json json (codes "mail") 32 obj.mail
    real_name' ← read_string c_json json (codes "realName") 20 obj.real_name
    nick_name' ← read_string c_json json (codes "nickName") 20 obj.nick_name
    prc_id' ← read_string c_json json (codes "prcId") 20 obj.prc_id
    sex' ← read_string c_json json (codes "sex") 2 obj.sex
    country' ← read_string c_json json (codes "country") 20 obj.country
    province' ← read_string c_json json (codes "province") 20 obj.province
    city' ← read_string c_json json (codes "city") 20 obj.city
    district' ← read_string c_json json (codes "district") 20 obj.district
    address' ← read_string c_json json (codes "address") 256 obj.address
    head_portrait' ← read_string c_json json (codes "headPortrait") 256 obj.head_portrait
    sign' ← read_string c_json json (codes "sign") 256 obj.sign
    token' ← read_string c_json json (codes "token") 20 obj.token
    cmd' ← read_string c_json json (codes "cmd") 10 obj.cmd
    some (record obj {
      id = read_int c_json json (codes "id") obj.id;
      account = account';
      password = password';
      acc_type = acc_type';
      phone = phone';
      mail = mail';
      real_name = real_name';
      nick_name = nick_name';
      prc_id = prc_id';
      sex = sex';
      birthday = read_int c_json json (codes "birthday") obj.birthday;
      country = country';
      province = province';
      city = city';
      district = district';
      address = address';
      head_portrait = head_portrait';
      sign = sign';
      create_time = read_int c_json json (codes "createTime") obj.create_time;
      last_modify_time = read_int c_json json (codes "lastModifyTime") obj.last_modify_time;
      token = token';
      cmd = cmd';
    })

  abbrev pub user_parse_json : (json_string : List ℕ) → User → Option User
  user_parse_json json_string obj = elim (parse json_string) [
    | none ↦ some obj
    | some json ↦ user_of_json json obj
  ]

  abbrev pub user_generate_json : User → (remove_field : Option (List ℕ)) → List ℕ
  user_generate_json obj remove_field = print (json_members remove_field (user_json_fields obj))

abbrev pub newer_text : (old new : List ℕ) → List ℕ
newer_text old new = if is_empty new then old else new

abbrev pub newer_int : (old new : ℤ) → ℤ
newer_int old new = if eqb_ℤ new (pos 0) then old else new

-- The text and number fields of src that are set, over those of des.
unfoldable pub update_obj : (des src : User) → User
update_obj des src = record des {
  password = newer_text des.password src.password;
  acc_type = newer_text des.acc_type src.acc_type;
  phone = newer_text des.phone src.phone;
  mail = newer_text des.mail src.mail;
  real_name = newer_text des.real_name src.real_name;
  nick_name = newer_text des.nick_name src.nick_name;
  prc_id = newer_text des.prc_id src.prc_id;
  sex = newer_text des.sex src.sex;
  birthday = newer_int des.birthday src.birthday;
  country = newer_text des.country src.country;
  province = newer_text des.province src.province;
  city = newer_text des.city src.city;
  district = newer_text des.district src.district;
  address = newer_text des.address src.address;
  head_portrait = newer_text des.head_portrait src.head_portrait;
  sign = newer_text des.sign src.sign;
  create_time = newer_int des.create_time src.create_time;
  last_modify_time = newer_int des.last_modify_time src.last_modify_time;
  token = newer_text des.token src.token;
}
