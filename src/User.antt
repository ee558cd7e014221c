-- ===== src/User.antt =====
-- cFrameworkToServer/src/model/user.c and user.h: the table `user`, its rows as a struct, and the lists of
-- fields from which the SQL texts and the JSON objects are built. A string field holds the bytes
-- before its NUL; the number of chars of its array is what `read_string` and `text_cell` get.
pub mod Store
pub mod Convert
pub mod Texts
pub mod Tests
pub mod Clause
pub mod Overlay
use c_framework_to_server.Base.{◌+◌, ◌≤◌, ℕ, Option, none, some, List, [], ◌∷◌, ◌++◌}
use c_framework_to_server.Base.Int.{ℤ, pos}
use c_framework_to_server.Text.{codes}
use c_framework_to_server.Sql.{
  Field, text, number, unmarked, Wos, and, comma, get_where_or_set_string,
}

pub record User : Type 0 where
  pub id : ℤ
  pub account : List ℕ
  pub password : List ℕ
  pub token : List ℕ
  pub acc_type : List ℕ
  pub phone : List ℕ
  pub mail : List ℕ
  pub real_name : List ℕ
  pub nick_name : List ℕ
  pub prc_id : List ℕ
  pub sex : List ℕ
  pub birthday : ℤ
  pub country : List ℕ
  pub province : List ℕ
  pub city : List ℕ
  pub district : List ℕ
  pub address : List ℕ
  pub head_portrait : List ℕ
  pub sign : List ℕ
  pub create_time : ℤ
  pub last_modify_time : ℤ
  pub token_fresh_time_stamp : ℕ
  pub cmd : List ℕ

-- memset(obj, 0, sizeof(User)).
abbrev pub empty_user : User
empty_user = record {
  id = pos 0;
  account = [];
  password = [];
  token = [];
  acc_type = [];
  phone = [];
  mail = [];
  real_name = [];
  nick_name = [];
  prc_id = [];
  sex = [];
  birthday = pos 0;
  country = [];
  province = [];
  city = [];
  district = [];
  address = [];
  head_portrait = [];
  sign = [];
  create_time = pos 0;
  last_modify_time = pos 0;
  token_fresh_time_stamp = 0;
  cmd = [];
}

-- The fields that both a filter and an update use.
abbrev pub user_fields : User → List Field
user_fields obj =
    text (codes "password") obj.password
    ∷ text (codes "token") obj.token
    ∷ text (codes "accType") obj.acc_type
    ∷ text (codes "phone") obj.phone
    ∷ text (codes "mail") obj.mail
    ∷ text (codes "realName") obj.real_name
    ∷ text (codes "nickName") obj.nick_name
    ∷ text (codes "prcId") obj.prc_id
    ∷ text (codes "sex") obj.sex
    ∷ number (codes "birthday") obj.birthday
    ∷ text (codes "country") obj.country
    ∷ text (codes "province") obj.province
    ∷ text (codes "city") obj.city
    ∷ text (codes "district") obj.district
    ∷ text (codes "address") obj.address
    ∷ text (codes "headPortrait") obj.head_portrait
    ∷ text (codes "sign") obj.sign
    ∷ number (codes "createTime") obj.create_time
    ∷ number (codes "lastModifyTime") obj.last_modify_time
    ∷ []

-- The blocks of getWhereOrSetString.
abbrev pub user_clause_fields : Wos → User → List Field
user_clause_fields and obj =
    number (codes "id") obj.id ∷ text (codes "account") obj.account ∷ user_fields obj
user_clause_fields comma obj = user_fields obj

abbrev pub user_where_or_set : Wos → User → List ℕ
user_where_or_set wos obj = get_where_or_set_string wos (user_clause_fields wos obj)

-- The fields of the JSON object, in its order.
abbrev pub user_json_fields : User → List Field
user_json_fields obj =
    text (codes "token") obj.token
    ∷ number (codes "id") obj.id
    ∷ text (codes "account") obj.account
    ∷ text (codes "password") obj.password
    ∷ text (codes "accType") obj.acc_type
    ∷ text (codes "phone") obj.phone
    ∷ text (codes "mail") obj.mail
    ∷ text (codes "realName") obj.real_name
    ∷ text (codes "nickName") obj.nick_name
    ∷ text (codes "prcId") obj.prc_id
    ∷ text (codes "sex") obj.sex
    ∷ number (codes "birthday") obj.birthday
    ∷ text (codes "country") obj.country
    ∷ text (codes "province") obj.province
    ∷ text (codes "city") obj.city
    ∷ text (codes "district") obj.district
    ∷ text (codes "address") obj.address
    ∷ text (codes "headPortrait") obj.head_portrait
    ∷ text (codes "sign") obj.sign
    ∷ number (codes "createTime") obj.create_time
    ∷ number (codes "lastModifyTime") obj.last_modify_time
    ∷ []
