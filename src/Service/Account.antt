-- ===== src/Service/Account.antt =====
-- Registration by an account and the login: userRegister and userLogin of
-- cFrameworkToServer/src/service/service_basic.c.
use c_framework_to_server.Base.{ℕ, ◌%◌, ◌^◌, Option, none, some, List, if◌then◌else◌}
use c_framework_to_server.Base.Int.{pos, ltb_ℤ, eqb_ℤ}
use c_framework_to_server.Memory.{◌>>=◌}
use c_framework_to_server.Text.{codes, is_empty}
use c_framework_to_server.Errors.{err_phone_number_duplicate}
use c_framework_to_server.Cache.{user, cache_token, cache_insert}
use c_framework_to_server.User.{User, empty_user}
use c_framework_to_server.User.Store.{
  user_query_return_item_num, user_query_return_result, user_modify,
}
use c_framework_to_server.User.Convert.{user_generate_json}
use c_framework_to_server.Service.{
  Platform, World, Run, finish, error_json, parse_filter, new_token, to_int,
}
use c_framework_to_server.Service.Sessions.{reply_one, one_user, drop_old_token}
use c_framework_to_server.Service.Verify.{store_new_user}

module _ (p : Platform) where
  abbrev pub or_default : (text default : List ℕ) → List ℕ
  or_default text default = if is_empty text then default else text

  -- The new user: what the request says, and the fields that the server sets.
  abbrev pub account_user : (obj : User) (token : List ℕ) → User
  account_user obj token = record obj {
    acc_type = or_default obj.acc_type (codes "n");
    nick_name = or_default obj.nick_name (codes "test");
    create_time = to_int p.now;
    last_modify_time = to_int p.now;
    token_fresh_time_stamp = p.now % 2 ^ 32;
    token = token;
  }

  unfoldable pub user_register_run : User → World p → Run p
  user_register_run obj s =
      user_query_return_item_num p.mysql (record empty_user { account = obj.account }) s.session
      >>= (λ (ret, db).
          let s1 = record s { session = db } in
          if eqb_ℤ ret (pos 0)
          then new_token p s1 >>= (λ (token, s2). store_new_user p (account_user obj token) s2)
          else if ltb_ℤ ret (pos 0)
          then some (error_json p ret, s1)
          else some (error_json p err_phone_number_duplicate, s1))

  abbrev pub user_register : World p → Option (World p)
  user_register s = parse_filter p s >>= (λ obj. user_register_run obj s >>= finish p)

  -- userLogin with the user that the query has found.
  abbrev pub log_in : User → World p → Run p
  log_in found s = drop_old_token p found.token s >>= (λ s1. new_token p s1 >>= (λ (token, s2).
      let logged_in = record found { token = token; token_fresh_time_stamp = p.now % 2 ^ 32 } in
      cache_insert p.dict cache_token token (user logged_in) s2.caches >>= (λ (added, caches').
        user_modify p.mysql (record empty_user { id = found.id; token = token }) s2.session
        >>= (λ (ret, db).
            reply_one p ret
              (user_generate_json p.c_json logged_in (some (codes "id createTime lastModifyTime")))
              (record s2 { caches = caches'; session = db })))))

  unfoldable pub user_login_run : User → World p → Run p
  user_login_run filter s =
      user_query_return_result p.mysql none filter 0 0 s.session >>= (λ (ret, users, db).
        let s1 = record s { session = db } in one_user p ret users (λ found. log_in found s1) s1)

  abbrev pub user_login : World p → Option (World p)
  user_login s = parse_filter p s >>= (λ filter. user_login_run filter s >>= finish p)
