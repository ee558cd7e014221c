-- ===== src/Service/Handlers.antt =====
-- Every handler of the routes keeps the caches valid.
use c_framework_to_server.Base.{
  ℕ, none, some, List, [], ◌∷◌, ◌++◌, ◌≡◌, subst, inl, inr, Bool-cases, Option-cases, All,
}
use c_framework_to_server.Base.Int.{pos, eqb_ℤ}
use c_framework_to_server.Memory.{◌>>=◌}
use c_framework_to_server.Text.{codes, str_eq, strcpy}
use c_framework_to_server.Cache.{Object, app_ver, cache_insert, cache_comm}
use c_framework_to_server.Cache.Laws.{OnSome, LawfulDict}
use c_framework_to_server.AppVer.{AppVer, empty_app_ver}
use c_framework_to_server.AppVer.Store.{app_ver_query_return_result}
use c_framework_to_server.AppVer.Convert.{app_ver_parse_json}
use c_framework_to_server.Notice.{Notice, empty_notice}
use c_framework_to_server.Notice.Convert.{notice_parse_json}
use c_framework_to_server.User.{User}
use c_framework_to_server.Service.{as_user, Platform, World, Run, finish, parse_filter, max_line}
use c_framework_to_server.Service.Ensures.{Ensures, Ensures-bind, Ensures-any, Ensures-if}
use c_framework_to_server.Service.Feed.{
  notice_get_run, app_ver_run, load_cache_necessary, notice_get, app_ver_handler, logged_in,
  as_notice, as_app_ver,
}
use c_framework_to_server.Service.Routes.{get_function_route, service_routes, Handler}
use c_framework_to_server.Service.CacheInvariant.{IsValid, Kept, Keeps}
use c_framework_to_server.Service.CacheInvariant.Sessions.{
  user_status-Keeps, user_logout-Keeps, user_modify-Keeps, user_delete-Keeps,
}
use c_framework_to_server.Service.CacheInvariant.Accounts.{user_register-Keeps, user_login-Keeps}
use c_framework_to_server.Service.CacheInvariant.Codes.{verify_before-Keeps, verify_after-Keeps}

module _ (p : Platform) (lawful : LawfulDict p.dict) where
  abbrev pub HandlerKeeps : Handler p → Type 0
  HandlerKeeps handler = (s : World p) → IsValid p s → Ensures (IsValid p) (handler s)

  finish-Keeps : (r : List ℕ × World p) → Kept p r → Ensures (IsValid p) (finish p r)
  finish-Keeps (ret_char, s) h =
      Ensures-bind (λ text. Unit) (IsValid p) (strcpy max_line ret_char) _ (Ensures-any _)
        (λ text any. h)

  -- A handler that parses a user, runs and replies.
  user-HandlerKeeps :
      (run : User → World p → Run p)
      → ((filter : User) (s : World p) → IsValid p s → Keeps p (run filter s))
      → HandlerKeeps (λ s. parse_filter p s >>= (λ filter. run filter s >>= finish p))
  user-HandlerKeeps run keeps s h =
      Ensures-bind (λ filter. Unit) (IsValid p) (parse_filter p s) _ (Ensures-any _)
        (λ filter any.
          Ensures-bind (Kept p) (IsValid p) (run filter s) (finish p) (keeps filter s h)
            (λ r k. finish-Keeps r k))

  logged_in-Keeps :
      (token : List ℕ) (go_on : Object → Run p) (s : World p)
      → IsValid p s
      → ((obj : Object) → Keeps p (go_on obj))
      → Keeps p (logged_in p token go_on s)
  logged_in-Keeps token go_on s h k =
      elim (Option-cases (p.dict.dict_fetch_value s.caches.token token)) [
        | inl e ↦ rw (e) h
        | inr (obj, e) ↦ rw (e) (k obj)
      ]

  -- A reply that a record of the common cache decides, in the state as it is.
  common-Keeps :
      (key : List ℕ) (absent : List ℕ) (present : Object → Run p) (s : World p)
      → IsValid p s
      → ((obj : Object) → Keeps p (present obj))
      → Keeps p (elim (p.dict.dict_fetch_value s.caches.common key) [
        | none ↦ some (absent, s)
        | some obj ↦ present obj
      ])
  common-Keeps key absent present s h k =
      elim (Option-cases (p.dict.dict_fetch_value s.caches.common key)) [
        | inl e ↦ rw (e) h
        | inr (obj, e) ↦ rw (e) (k obj)
      ]

  notice_get-Keeps :
      (filter : Notice) (s : World p) → IsValid p s → Keeps p (notice_get_run p filter s)
  unfolding notice_get_run
  notice_get-Keeps filter s h = logged_in-Keeps filter.token _ s h (λ login.
      Ensures-bind (λ u. Unit) (Kept p) (as_user p login) _ (Ensures-any _)
        (λ ret_user any. common-Keeps (codes "n_" ++ ret_user.account) _ _ s h (λ obj.
          Ensures-bind (λ n. Unit) (Kept p) (as_notice obj) _ (Ensures-any _) (λ n any'. h))))

  app_ver-Keeps : (filter : AppVer) (s : World p) → IsValid p s → Keeps p (app_ver_run p filter s)
  unfolding app_ver_run
  app_ver-Keeps filter s h = logged_in-Keeps filter.token _ s h (λ login.
      common-Keeps (codes "appVersion") _ _ s h (λ obj.
        Ensures-bind (λ v. Unit) (Kept p) (as_app_ver obj) _ (Ensures-any _)
          (λ v any. Ensures-if (Kept p) (str_eq filter.name v.name) _ _ h h)))

  notice-HandlerKeeps : HandlerKeeps (notice_get p)
  notice-HandlerKeeps s h =
      Ensures-bind (λ filter. Unit) (IsValid p) (notice_parse_json p.c_json s.buffer empty_notice) _
        (Ensures-any _)
        (λ filter any.
          Ensures-bind (Kept p) (IsValid p) (notice_get_run p filter s) (finish p)
            (notice_get-Keeps filter s h) (λ r k. finish-Keeps r k))

  app_ver-HandlerKeeps : HandlerKeeps (app_ver_handler p)
  app_ver-HandlerKeeps s h =
      Ensures-bind (λ filter. Unit) (IsValid p) (app_ver_parse_json p.c_json s.buffer empty_app_ver)
        _ (Ensures-any _)
        (λ filter any.
          Ensures-bind (Kept p) (IsValid p) (app_ver_run p filter s) (finish p)
            (app_ver-Keeps filter s h) (λ r k. finish-Keeps r k))

  pub found_route :
      (name : List ℕ) (routes : List (List ℕ × Handler p)) (handler : Handler p)
      → All (λ r. HandlerKeeps r.1) routes
      → get_function_route name routes ≡ some handler
      → HandlerKeeps handler
  found_route name [] handler all e = cc
  found_route name ((key, fun) ∷ routes) handler all e = elim (Bool-cases (str_eq name key)) [
    | inl t ↦ subst (OnSome HandlerKeeps) (rw (t) at e) all.0
    | inr t ↦ found_route name routes handler all.1 (rw (t) at e)
  ]

  pub service_routes-keep : All (λ r. HandlerKeeps r.1) (service_routes p)
  unfolding service_routes
  service_routes-keep = (
    λ s h. h,
    (
      λ s h. h,
      (
        app_ver-HandlerKeeps,
        (
          notice-HandlerKeeps,
          (
            user-HandlerKeeps _ (user_delete-Keeps p lawful),
            (
              user-HandlerKeeps _ (user_modify-Keeps p lawful),
              (
                user-HandlerKeeps _ (user_logout-Keeps p lawful),
                (
                  user-HandlerKeeps _ (user_status-Keeps p lawful),
                  (
                    user-HandlerKeeps _ (user_login-Keeps p lawful),
                    (
                      user-HandlerKeeps _ (user_register-Keeps p lawful),
                      (
                        user-HandlerKeeps _ (verify_after-Keeps p lawful),
                        (user-HandlerKeeps _ (verify_before-Keeps p lawful), tt),
                      ),
                    ),
                  ),
                ),
              ),
            ),
          ),
        ),
      ),
    ),
  )

  newest_version-Keeps :
      (vers : List AppVer) (s : World p)
      → Ensures (IsValid p) (elim vers [
        | [] ↦ none
        | ver ∷ rest ↦ strcpy 10 (codes "appVersion") >>= (λ key.
            cache_insert p.dict cache_comm key (app_ver ver) s.caches
            >>= (λ (added, caches'). some (record s { caches = caches' })))
      ])
  newest_version-Keeps [] s = tt
  newest_version-Keeps (ver ∷ vers) s = tt

  pub load_cache_necessary-Keeps :
      (s : World p) → IsValid p s → Ensures (IsValid p) (load_cache_necessary p s)
  unfolding load_cache_necessary
  load_cache_necessary-Keeps s h =
      Ensures-bind (λ r. Unit) (IsValid p)
        (app_ver_query_return_result p.mysql
          (some (codes "select * from appver where id=(select max(id) from appver);")) empty_app_ver
          0 0 s.session)
        _ (Ensures-any _)
        (λ (ret, vers, db) any. elim (Bool-cases (eqb_ℤ ret (pos 1))) [
          | inl e ↦ rw (e) (newest_version-Keeps vers (record s { session = db }))
          | inr e ↦ rw (e) h
        ])
