-- ===== src/User/Store.antt =====
-- The statements of cFrameworkToServer/src/model/user.c and user.h, on a session of the MySQL client.
use c_framework_to_server.Base.{ℕ, Bool, not, Option, none, some, List, [], ◌∷◌, ◌++◌}
use c_framework_to_server.Base.Int.{ℤ, pos, ltb_ℤ}
use c_framework_to_server.Text.{codes, decimal}
use c_framework_to_server.Memory.{◌>>=◌}
use c_framework_to_server.Errors.{
  err_user_regist_duplicate, err_user_regist_insert_fail, err_user_ergist_query_fail,
  err_user_modify_fail, err_user_delete_fail,
}
use c_framework_to_server.Sql.{Mysql, Row, and, comma, quoted}
use c_framework_to_server.Sql.Statements.{
  text_cell, int_cell, insert_checked, count_items, select_text, select_items, exec_checked,
  quoted_list,
}
use c_framework_to_server.User.{User, empty_user, user_where_or_set}

-- A row of the table in an object that memset has cleared.
abbrev pub user_of_row : Row → Option User
user_of_row row = do
  id' ← int_cell 0 row
  account' ← text_cell 1 20 row
  password' ← text_cell 2 20 row
  token' ← text_cell 3 20 row
  acc_type' ← text_cell 4 2 row
  phone' ← text_cell 5 16 row
  mail' ← text_cell 6 32 row
  real_name' ← text_cell 7 20 row
  nick_name' ← text_cell 8 20 row
  prc_id' ← text_cell 9 20 row
  sex' ← text_cell 10 2 row
  birthday' ← int_cell 11 row
  country' ← text_cell 12 20 row
  province' ← text_cell 13 20 row
  city' ← text_cell 14 20 row
  district' ← text_cell 15 20 row
  address' ← text_cell 16 256 row
  head_portrait' ← text_cell 17 256 row
  sign' ← text_cell 18 256 row
  create_time' ← int_cell 19 row
  last_modify_time' ← int_cell 20 row
  some (record empty_user {
    id = id';
    account = account';
    password = password';
    token = token';
    acc_type = acc_type';
    phone = phone';
    mail = mail';
    real_name = real_name';
    nick_name = nick_name';
    prc_id = prc_id';
    sex = sex';
    birthday = birthday';
    country = country';
    province = province';
    city = city';
    district = district';
    address = address';
    head_portrait = head_portrait';
    sign = sign';
    create_time = create_time';
    last_modify_time = last_modify_time';
  })

-- The texts of UserInsert.
abbrev pub user_find_sql : User → List ℕ
user_find_sql obj = codes "select * from user where account=" ++ (quoted obj.account ++ codes ";")

abbrev pub user_id_sql : User → List ℕ
user_id_sql obj = codes "select id from user where account=" ++ (quoted obj.account ++ codes ";")

abbrev pub user_insert_sql : User → List ℕ
user_insert_sql obj =
    codes
      "insert into user(account,password,token,accType,phone,mail,realName,nickName,prcId,sex,\t\t\t\tbirthday,country,province,city,district,address,headPortrait,sign,createTime,lastModifyTime)\t\t\t\tvalue("
    ++ (quoted_list (
          obj.account
          ∷ obj.password
          ∷ obj.token
          ∷ obj.acc_type
          ∷ obj.phone
          ∷ obj.mail
          ∷ obj.real_name
          ∷ obj.nick_name
          ∷ obj.prc_id
          ∷ obj.sex
          ∷ decimal obj.birthday
          ∷ obj.country
          ∷ obj.province
          ∷ obj.city
          ∷ obj.district
          ∷ obj.address
          ∷ obj.head_portrait
          ∷ obj.sign
          ∷ decimal obj.create_time
          ∷ decimal obj.last_modify_time
          ∷ [])
        ++ codes ");")

-- The texts of UserModify and UserDelete.
abbrev pub user_modify_sql : User → List ℕ
user_modify_sql obj =
    codes "update user "
    ++ (user_where_or_set comma obj
        ++ (codes " where id=" ++ (quoted (decimal obj.id) ++ codes ";")))

abbrev pub user_delete_sql : User → List ℕ
user_delete_sql obj = codes "delete from user " ++ (user_where_or_set and obj ++ codes ";")

module _ (mysql : Mysql) where
  open mysql use {Session}

  abbrev pub user_insert : User → Session → Option (ℤ × User × Session)
  user_insert obj s = do
    let failed : ℤ → Bool = λ ret. not (ltb_ℤ (pos 0) ret)
    r ←
        insert_checked mysql (user_find_sql obj) (user_insert_sql obj) (user_id_sql obj) failed
          err_user_regist_duplicate err_user_regist_insert_fail err_user_ergist_query_fail s
    let (ret, new_id, s') = r
    some (ret, elim new_id [ none ↦ obj | some n ↦ record obj { id = n } ], s')

  abbrev pub user_query_return_item_num : User → Session → Option (ℤ × Session)
  user_query_return_item_num filter =
      count_items mysql (codes "user") (user_where_or_set and filter)

  abbrev pub user_query_return_result :
      (sql_manual : Option (List ℕ)) (filter : User) (limit_from limit_count : ℕ)
      → Session
      → Option (ℤ × List User × Session)
  user_query_return_result sql_manual filter limit_from limit_count =
      select_items mysql user_of_row (
        select_text (codes "user") sql_manual (user_where_or_set and filter) limit_from limit_count)

  abbrev pub user_modify : User → Session → Option (ℤ × Session)
  user_modify obj = exec_checked mysql (user_modify_sql obj) err_user_modify_fail

  abbrev pub user_delete : User → Session → Option (ℤ × Session)
  user_delete obj = exec_checked mysql (user_delete_sql obj) err_user_delete_fail
