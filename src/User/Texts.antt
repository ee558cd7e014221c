-- ===== src/User/Texts.antt =====
-- The texts that cFrameworkToServer/src/model/user.c prints into its arrays of 2048 chars.
use c_framework_to_server.Base.{
  ℕ, zero, suc, none, ◌<◌, ◌≤◌, List, [], ◌∷◌, ◌++◌, length, arith, All, length-append,
}
use c_framework_to_server.Base.Int.{pos}
use c_framework_to_server.Text.{codes, decimal}
use c_framework_to_server.Text.Decimal.{length-decimal}
use c_framework_to_server.Sql.{Wos, and, comma, quoted}
use c_framework_to_server.Sql.Statements.{count_text, select_text, quoted_list}
use c_framework_to_server.Sql.Bounds.{
  length-get_where_or_set_string, length-quoted, length-quoted_list, length-three,
}
use c_framework_to_server.User.{User, user_clause_fields, user_where_or_set}
use c_framework_to_server.User.Store.{
  user_find_sql, user_insert_sql, user_id_sql, user_modify_sql, user_delete_sql,
}

-- Every string has room in its array, with its NUL.
pub record Fits (obj : User) : Type 0 where
  pub account_fits : length obj.account < 20
  pub password_fits : length obj.password < 20
  pub token_fits : length obj.token < 20
  pub acc_type_fits : length obj.acc_type < 2
  pub phone_fits : length obj.phone < 16
  pub mail_fits : length obj.mail < 32
  pub real_name_fits : length obj.real_name < 20
  pub nick_name_fits : length obj.nick_name < 20
  pub prc_id_fits : length obj.prc_id < 20
  pub sex_fits : length obj.sex < 2
  pub country_fits : length obj.country < 20
  pub province_fits : length obj.province < 20
  pub city_fits : length obj.city < 20
  pub district_fits : length obj.district < 20
  pub address_fits : length obj.address < 256
  pub head_portrait_fits : length obj.head_portrait < 256
  pub sign_fits : length obj.sign < 256

length-user_where_or_set :
    (wos : Wos) (obj : User) → Fits obj → length (user_where_or_set wos obj) ≤ 1365
length-user_where_or_set and obj h =
    omega (arith, length-get_where_or_set_string and (user_clause_fields and obj))
length-user_where_or_set comma obj h =
    omega (arith, length-get_where_or_set_string comma (user_clause_fields comma obj))

length-user_insert_sql : (obj : User) → Fits obj → length (user_insert_sql obj) < 2048
length-user_insert_sql obj h = omega (
  arith,
  length-three
      (codes
        "insert into user(account,password,token,accType,phone,mail,realName,nickName,prcId,sex,\t\t\t\tbirthday,country,province,city,district,address,headPortrait,sign,createTime,lastModifyTime)\t\t\t\tvalue(")
      (quoted_list (
        obj.account
        ∷ obj.password
        ∷ obj.token
        ∷ obj.acc_type
        ∷ obj.phone
        ∷ obj.mail
        ∷ obj.real_name
        ∷ obj.nick_name
        ∷ obj.prc_id
        ∷ obj.sex
        ∷ decimal obj.birthday
        ∷ obj.country
        ∷ obj.province
        ∷ obj.city
        ∷ obj.district
        ∷ obj.address
        ∷ obj.head_portrait
        ∷ obj.sign
        ∷ decimal obj.create_time
        ∷ decimal obj.last_modify_time
        ∷ []))
      (codes ");"),
  length-quoted_list (
      obj.account
      ∷ obj.password
      ∷ obj.token
      ∷ obj.acc_type
      ∷ obj.phone
      ∷ obj.mail
      ∷ obj.real_name
      ∷ obj.nick_name
      ∷ obj.prc_id
      ∷ obj.sex
      ∷ decimal obj.birthday
      ∷ obj.country
      ∷ obj.province
      ∷ obj.city
      ∷ obj.district
      ∷ obj.address
      ∷ obj.head_portrait
      ∷ obj.sign
      ∷ decimal obj.create_time
      ∷ decimal obj.last_modify_time
      ∷ []),
  length-decimal obj.birthday,
  length-decimal obj.create_time,
  length-decimal obj.last_modify_time,
)

-- All the texts, the query's with any limit.
abbrev pub user_texts : User → (from count : ℕ) → List (List ℕ)
user_texts obj from count =
    user_find_sql obj
    ∷ user_insert_sql obj
    ∷ user_id_sql obj
    ∷ user_modify_sql obj
    ∷ user_delete_sql obj
    ∷ count_text (codes "user") (user_where_or_set and obj)
    ∷ select_text (codes "user") none (user_where_or_set and obj) from count
    ∷ []

length-user_select :
    (arg : List ℕ) (from count : ℕ)
    → length arg ≤ 1365
    → length (select_text (codes "user") none arg from count) < 2048
length-user_select arg from zero h = omega (arith, length-append arg (codes " ;"))
length-user_select arg from (suc n) h = omega (
  arith,
  length-append arg (
      codes " limit "
      ++ (decimal (pos from) ++ (codes "," ++ (decimal (pos (suc n)) ++ codes ";")))),
  length-append (decimal (pos from)) (codes "," ++ (decimal (pos (suc n)) ++ codes ";")),
  length-append (decimal (pos (suc n))) (codes ";"),
  length-decimal (pos from),
  length-decimal (pos (suc n)),
)

-- No text of this table overflows its array: with every string of the object within its own array,
-- all seven have less than 2048 characters.
pub user_texts-fit :
    (obj : User) (from count : ℕ)
    → Fits obj
    → All (λ sql. length sql < 2048) (user_texts obj from count)
user_texts-fit obj from count h =
    let q = quoted obj.account in
    let where_text = user_where_or_set and obj in
    let set_text = user_where_or_set comma obj in
    (
      omega (arith, length-append q (codes ";"), length-quoted obj.account),
      (
        length-user_insert_sql obj h,
        (
          omega (arith, length-append q (codes ";"), length-quoted obj.account),
          (
            omega (
              arith,
              length-user_where_or_set comma obj h,
              length-append set_text (codes " where id=" ++ (quoted (decimal obj.id) ++ codes ";")),
              length-append (quoted (decimal obj.id)) (codes ";"),
              length-quoted (decimal obj.id),
              length-decimal obj.id,
            ),
            (
              omega
                  (arith, length-user_where_or_set and obj h, length-append where_text (codes ";")),
              (
                omega (
                  arith,
                  length-user_where_or_set and obj h,
                  length-append where_text (codes ";"),
                ),
                (length-user_select where_text from count (length-user_where_or_set and obj h), tt),
              ),
            ),
          ),
        ),
      ),
    )
