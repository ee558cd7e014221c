-- ===== src/Service/Verify.antt =====
-- Registration by a message code: verifyBefore and verifyAfter of
-- cFrameworkToServer/src/service/service_basic.c.
use c_framework_to_server.Base.{
  ℕ, ◌+◌, ◌%◌, ◌^◌, not, ◌&&◌, ◌||◌, Option, none, some, List, [], length, ltb, ◌==◌, if◌then◌else◌,
}
use c_framework_to_server.Base.Int.{pos, eqb_ℤ, ltb_ℤ}
use c_framework_to_server.Memory.{◌>>=◌}
use c_framework_to_server.Text.{codes, str_eq}
use c_framework_to_server.Errors.{
  err_input_argument_wrong, err_phone_number_wrong, err_phone_number_duplicate,
  err_phone_number_not_regist, err_not_find_cache, err_msg_code_out_of_date, err_msg_code_wrong,
}
use c_framework_to_server.Cache.{
  Object, user, msg_code, MsgCode, cache_token, cache_comm, cache_query, cache_insert, cache_delete,
}
use c_framework_to_server.Gateway.{msg_gateway_code, msg_wangyi}
use c_framework_to_server.User.{User, empty_user}
use c_framework_to_server.User.Store.{user_query_return_item_num, user_insert}
use c_framework_to_server.User.Convert.{user_generate_json}
use c_framework_to_server.Service.{
  Platform, World, Run, finish, error_json, parse_filter, new_token, to_int,
}
use c_framework_to_server.Service.Sessions.{ok_json}

-- A pointer that is used as a MsgCode.
abbrev pub as_msg_code : Object → Option MsgCode
as_msg_code (msg_code m) = some m
as_msg_code _ = none

abbrev pub empty_code : MsgCode
empty_code = record { code = []; fresh_time = 0; time_stamp = 0 }

module _ (p : Platform) where
  -- The last part of verifyBefore. A code that is still good makes no difference: the function
  -- goes on to ask for a new one, which dictAdd refuses to put in its place.
  abbrev pub send_code : (phone : List ℕ) → World p → Run p
  send_code phone s =
      let (ret, return_code) = msg_gateway_code msg_wangyi p.now 6 empty_code in
      cache_query p.dict cache_comm phone s.caches >>= (λ found.
        elim found [ none ↦ some empty_code | some obj ↦ as_msg_code obj ] >>= (λ old_code.
          if eqb_ℤ ret (pos 0)
          then cache_insert p.dict cache_comm phone (msg_code return_code) s.caches
            >>= (λ (added, caches'). some (ok_json p, record s { caches = caches' }))
          else some (error_json p ret, s)))

  unfoldable pub verify_before_run : User → World p → Run p
  verify_before_run filter s =
      let regist = str_eq filter.cmd (codes "regist") in
      let login = str_eq filter.cmd (codes "login") in
      if not regist && not login
      then some (error_json p err_input_argument_wrong, s)
      else if not (length filter.phone == 11)
      then some (error_json p err_phone_number_wrong, s)
      else user_query_return_item_num p.mysql (record filter { account = filter.phone }) s.session
        >>= (λ (ret, db).
            let s1 = record s { session = db } in
            if regist && not (eqb_ℤ ret (pos 0))
            then some (error_json p err_phone_number_duplicate, s1)
            else if login && not (ltb_ℤ (pos 0) ret)
            then some (error_json p err_phone_number_not_regist, s1)
            else send_code filter.phone s1)

  abbrev pub verify_before : World p → Option (World p)
  verify_before s = parse_filter p s >>= (λ filter. verify_before_run filter s >>= finish p)

  -- The user of a phone number.
  abbrev pub phone_user : (phone token : List ℕ) → User
  phone_user phone token = record empty_user {
    account = phone;
    phone = phone;
    password = codes " ";
    acc_type = codes "p";
    nick_name = codes "test";
    create_time = to_int p.now;
    last_modify_time = to_int p.now;
    token_fresh_time_stamp = p.now % 2 ^ 32;
    token = token;
  }

  -- UserInsert, and for the user that it has put in the table the reply and the token's record.
  abbrev pub store_new_user : User → World p → Run p
  store_new_user new_user s = user_insert p.mysql new_user s.session >>= (λ (ret, stored, db).
      let s1 = record s { session = db } in
      if not (eqb_ℤ ret (pos 1))
      then some (error_json p ret, s1)
      else cache_insert p.dict cache_token stored.token (user stored) s1.caches
        >>= (λ (added, caches'). some (
          user_generate_json p.c_json stored (some (codes "id createTime lastModifyTime")),
          record s1 { caches = caches' },
        )))

  -- verifyAfter with the code that the cache holds.
  abbrev pub accept_code : User → MsgCode → World p → Run p
  accept_code filter code s =
      if ltb (code.time_stamp + code.fresh_time) p.now
      then some (error_json p err_msg_code_out_of_date, s)
      else if not (str_eq filter.password code.code)
      then some (error_json p err_msg_code_wrong, s)
      else cache_delete p.dict cache_comm filter.phone s.caches >>= (λ (ret, caches').
        new_token p (record s { caches = caches' })
        >>= (λ (token, s1). store_new_user (phone_user filter.phone token) s1))

  unfoldable pub verify_after_run : User → World p → Run p
  verify_after_run filter s =
      if not (length filter.phone == 11) || not (length filter.password == 6)
      then some (error_json p err_phone_number_wrong, s)
      else cache_query p.dict cache_comm filter.phone s.caches >>= (λ found. elim found [
        | none ↦ some (error_json p err_not_find_cache, s)
        | some obj ↦ as_msg_code obj >>= (λ code. accept_code filter code s)
      ])

  abbrev pub verify_after : World p → Option (World p)
  verify_after s = parse_filter p s >>= (λ filter. verify_after_run filter s >>= finish p)
