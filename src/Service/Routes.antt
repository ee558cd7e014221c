-- ===== src/Service/Routes.antt =====
-- The routes of cFrameworkToServer/src/service/service.c over
-- cFrameworkToServer/utils/function_route.c, and the two demonstration handlers. The table of
-- routes is a list of entries, the newest first: the hash table behind it is used only by
-- dictReplace and dictFetchValue.
use c_framework_to_server.Base.{ℕ, Option, none, some, List, [], ◌∷◌, length, if◌then◌else◌}
use c_framework_to_server.Text.{codes, str_eq}
use c_framework_to_server.Cache.{create_cache}
use c_framework_to_server.Service.{Platform, World}
use c_framework_to_server.Service.Verify.{verify_before, verify_after}
use c_framework_to_server.Service.Account.{user_register, user_login}
use c_framework_to_server.Service.Sessions.{
  user_status, user_logout, user_modify_handler, user_delete_handler,
}
use c_framework_to_server.Service.Feed.{notice_get, app_ver_handler, load_cache_necessary}

module _ {ℓ} {A : Type ℓ} where
  abbrev pub add_function_route : List ℕ → A → List (List ℕ × A) → List (List ℕ × A)
  add_function_route key fun routes = (key, fun) ∷ routes

  abbrev pub get_function_route : List ℕ → List (List ℕ × A) → Option A
  get_function_route key [] = none
  get_function_route key ((name, fun) ∷ routes) =
      if str_eq key name then some fun else get_function_route key routes

module _ (p : Platform) where
  abbrev pub Handler : Type 0
  Handler = World p → Option (World p)

  -- The text that a demonstration handler puts in the buffer.
  abbrev pub say : List ℕ → Handler
  say text s = some (record s { buffer = text; buffer_used = length text })

  abbrev pub say_hello : Handler
  say_hello = say (codes "sayhello")

  abbrev pub r_31501 : Handler
  r_31501 = say (codes "sayhellotoo")

  -- The calls of add_function_route in regist_service, the last one outermost.
  unfoldable pub service_routes : List (List ℕ × Handler)
  service_routes = add_function_route (codes "r_31501") r_31501 (
      add_function_route (codes "sayhello") say_hello (
        add_function_route (codes "appVer") (app_ver_handler p) (
          add_function_route (codes "noticeGet") (notice_get p) (
            add_function_route (codes "userDelete") (user_delete_handler p) (
              add_function_route (codes "userModify") (user_modify_handler p) (
                add_function_route (codes "userLogout") (user_logout p) (
                  add_function_route (codes "userStatus") (user_status p) (
                    add_function_route (codes "userLogin") (user_login p) (
                      add_function_route (codes "userRegister") (user_register p) (
                        add_function_route (codes "verifyAfter") (verify_after p)
                          (add_function_route (codes "verifyBefore") (verify_before p) [])))))))))))

  -- The caches as regist_service leaves them.
  abbrev pub regist_service : World p → Option (World p)
  regist_service s = load_cache_necessary p (record s { caches = create_cache p.dict })
