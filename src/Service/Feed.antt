-- ===== src/Service/Feed.antt =====
-- What the server tells its clients: noticeGet, appVer and loadCacheNecessary of
-- cFrameworkToServer/src/service/service_basic.c.
use c_framework_to_server.Base.{ℕ, Option, none, some, List, [], ◌∷◌, ◌++◌, if◌then◌else◌}
use c_framework_to_server.Base.Int.{pos, eqb_ℤ}
use c_framework_to_server.Memory.{◌>>=◌}
use c_framework_to_server.Text.{codes, str_eq, strcpy}
use c_framework_to_server.Errors.{
  err_not_login_yet, err_not_notice_yet, err_app_version_not_found_in_cache,
  err_appversion_not_update,
}
use c_framework_to_server.Cache.{
  Object, notice, app_ver, cache_token, cache_comm, cache_query, cache_insert,
}
use c_framework_to_server.Notice.{Notice, empty_notice}
use c_framework_to_server.Notice.Convert.{notice_parse_json, notice_generate_json}
use c_framework_to_server.AppVer.{AppVer, empty_app_ver}
use c_framework_to_server.AppVer.Convert.{app_ver_parse_json, app_ver_generate_json}
use c_framework_to_server.AppVer.Store.{app_ver_query_return_result}
use c_framework_to_server.Service.{Platform, World, Run, finish, error_json, as_user}

-- Pointers that are used as a Notice and as an AppVer.
abbrev pub as_notice : Object → Option Notice
as_notice (notice n) = some n
as_notice _ = none

abbrev pub as_app_ver : Object → Option AppVer
as_app_ver (app_ver v) = some v
as_app_ver _ = none

module _ (p : Platform) where
  -- The first steps of noticeGet and appVer, which do not look at the age of the token.
  abbrev pub logged_in : (token : List ℕ) (go_on : Object → Run p) → World p → Run p
  logged_in token go_on s = cache_query p.dict cache_token token s.caches >>= (λ found. elim found [
    | none ↦ some (error_json p err_not_login_yet, s)
    | some obj ↦ go_on obj
  ])

  unfoldable pub notice_get_run : Notice → World p → Run p
  notice_get_run filter s =
      logged_in filter.token
        (λ login. as_user p login >>= (λ ret_user.
          cache_query p.dict cache_comm (codes "n_" ++ ret_user.account) s.caches >>= (λ found.
            elim found [
              | none ↦ some (error_json p err_not_notice_yet, s)
              | some obj ↦ as_notice obj >>= (λ n. some (
                notice_generate_json p.c_json n (some (codes "id createTime lastModifyTime")),
                s,
              ))
            ])))
        s

  abbrev pub notice_get : World p → Option (World p)
  notice_get s =
      notice_parse_json p.c_json s.buffer empty_notice
      >>= (λ filter. notice_get_run filter s >>= finish p)

  unfoldable pub app_ver_run : AppVer → World p → Run p
  app_ver_run filter s =
      logged_in filter.token
        (λ login. cache_query p.dict cache_comm (codes "appVersion") s.caches >>= (λ found.
          elim found [
            | none ↦ some (error_json p err_app_version_not_found_in_cache, s)
            | some obj ↦ as_app_ver obj >>= (λ ret_app_ver.
                if str_eq filter.name ret_app_ver.name
                then some (error_json p err_appversion_not_update, s)
                else some (app_ver_generate_json p.c_json ret_app_ver (some (codes "id")), s))
          ]))
        s

  abbrev pub app_ver_handler : World p → Option (World p)
  app_ver_handler s =
      app_ver_parse_json p.c_json s.buffer empty_app_ver
      >>= (λ filter. app_ver_run filter s >>= finish p)

  -- loadCacheNecessary, on the connection that it takes from the pool. The filter is NULL and not
  -- read. The key is copied into ten bytes, where it does not fit.
  unfoldable pub load_cache_necessary : World p → Option (World p)
  load_cache_necessary s =
      app_ver_query_return_result p.mysql
        (some (codes "select * from appver where id=(select max(id) from appver);")) empty_app_ver 0
        0 s.session
      >>= (λ (ret, vers, db).
          let s1 = record s { session = db } in
          if eqb_ℤ ret (pos 1)
          then elim vers [
            | [] ↦ none
            | ver ∷ rest ↦ strcpy 10 (codes "appVersion") >>= (λ key.
                cache_insert p.dict cache_comm key (app_ver ver) s1.caches
                >>= (λ (added, caches'). some (record s1 { caches = caches' })))
          ]
          else some s1)
