-- ===== src/Service/Sessions.antt =====
-- The handlers that need a login: userStatus, userLogout, userModify and userDelete of
-- cFrameworkToServer/src/service/service_basic.c.
use c_framework_to_server.Base.{
  ℕ, ◌%◌, ◌^◌, not, Option, none, some, List, [], ◌∷◌, length, ◌==◌, if◌then◌else◌,
}
use c_framework_to_server.Base.Int.{ℤ, pos, ltb_ℤ, eqb_ℤ}
use c_framework_to_server.Memory.{◌>>=◌}
use c_framework_to_server.Text.{codes, str_eq}
use c_framework_to_server.Errors.{err_no_permission, err_account_not_regist}
use c_framework_to_server.Json.{make_error_json}
use c_framework_to_server.Cache.{user}
use c_framework_to_server.User.{User, empty_user}
use c_framework_to_server.User.Store.{user_query_return_result, user_modify, user_delete}
use c_framework_to_server.User.Convert.{update_obj}
use c_framework_to_server.Service.{
  Platform, World, Run, finish, error_json, parse_filter, drop_token, check_token,
}

module _ (p : Platform) where
  -- makeErrorJson(0, "ok").
  abbrev pub ok_json : List ℕ
  ok_json = make_error_json p.c_json (pos 0) (codes "ok")

  -- `ret` of a statement that has to touch one row.
  abbrev pub reply_one : (ret : ℤ) (ok : List ℕ) → World p → Run p
  reply_one ret ok s = if eqb_ℤ ret (pos 1) then some (ok, s) else some (error_json p ret, s)

  abbrev pub user_status_run : User → World p → Run p
  user_status_run filter = check_token p filter.token (λ ret_user s. some (ok_json, s))

  abbrev pub user_status : World p → Option (World p)
  user_status s = parse_filter p s >>= (λ filter. user_status_run filter s >>= finish p)

  -- A blank takes the place of the token in the database.
  abbrev pub logout_update : User → User
  logout_update ret_user = record empty_user { id = ret_user.id; token = codes " " }

  abbrev pub log_out : (token : List ℕ) → User → World p → Run p
  log_out token ret_user s = drop_token p token s >>= (λ s1.
      user_modify p.mysql (logout_update ret_user) s1.session
      >>= (λ (ret, db). reply_one ret (error_json p (pos 0)) (record s1 { session = db })))

  abbrev pub user_logout_run : User → World p → Run p
  user_logout_run filter = check_token p filter.token (log_out filter.token)

  abbrev pub user_logout : World p → Option (World p)
  user_logout s = parse_filter p s >>= (λ filter. user_logout_run filter s >>= finish p)

  -- The object in the cache is the one that `ret_user` points to.
  abbrev pub refresh_user : (filter ret_user : User) → User
  refresh_user filter ret_user = record (update_obj ret_user filter) {
    token_fresh_time_stamp = p.now % 2 ^ 32;
  }

  abbrev pub assign_user : List ℕ → User → World p → World p
  assign_user token u s = record s {
    caches = record (s.caches) { token = p.dict.dict_assign (s.caches.token) token (user u) };
  }

  abbrev pub modify_found : (filter ret_user : User) → World p → Run p
  modify_found filter ret_user s =
      let s1 = assign_user filter.token (refresh_user filter ret_user) s in
      user_modify p.mysql (record filter { id = ret_user.id }) s1.session
      >>= (λ (ret, db). reply_one ret ok_json (record s1 { session = db }))

  abbrev pub user_modify_run : User → World p → Run p
  user_modify_run filter = check_token p filter.token (modify_found filter)

  abbrev pub user_modify_handler : World p → Option (World p)
  user_modify_handler s = parse_filter p s >>= (λ filter. user_modify_run filter s >>= finish p)

  -- The users that a query returned where exactly one is wanted.
  abbrev pub one_user : (ret : ℤ) → List User → (User → Run p) → World p → Run p
  one_user ret users go_on s =
      if not (eqb_ℤ ret (pos 1))
      then if ltb_ℤ ret (pos 0)
        then some (error_json p ret, s)
        else some (error_json p err_account_not_regist, s)
      else elim users [ [] ↦ none | u ∷ us ↦ go_on u ]

  -- if (strlen(token) == 16) cacheDelete(CACHE_TOKEN, token).
  abbrev pub drop_old_token : (token : List ℕ) → World p → Option (World p)
  drop_old_token token s = if length token == 16 then drop_token p token s else some s

  -- userDelete behind the check that the user is an administrator.
  unfoldable pub delete_found : User → World p → Run p
  delete_found filter s =
      user_query_return_result p.mysql none (record filter { token = [] }) 0 0 s.session
      >>= (λ (ret, users, db).
          let s1 = record s { session = db } in
          one_user ret users
            (λ obj. drop_old_token obj.token s1 >>= (λ s2.
              user_delete p.mysql (record empty_user { id = obj.id }) s2.session
              >>= (λ (ret', db'). reply_one ret' ok_json (record s2 { session = db' }))))
            s1)

  unfoldable pub user_delete_run : User → World p → Run p
  unfolding delete_found
  user_delete_run filter = check_token p filter.token (λ ret_user s.
      if str_eq ret_user.acc_type (codes "a")
      then delete_found filter s
      else some (error_json p err_no_permission, s))

  abbrev pub user_delete_handler : World p → Option (World p)
  user_delete_handler s = parse_filter p s >>= (λ filter. user_delete_run filter s >>= finish p)
