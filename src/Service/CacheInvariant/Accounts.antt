-- ===== src/Service/CacheInvariant/Accounts.antt =====
-- userRegister and userLogin keep the caches valid.
use c_framework_to_server.Base.{◌%◌, ◌^◌, not, none, some, refl}
use c_framework_to_server.Base.Int.{pos, eqb_ℤ, ltb_ℤ}
use c_framework_to_server.Text.{codes}
use c_framework_to_server.Cache.{user}
use c_framework_to_server.Cache.Laws.{LawfulDict, dict_add-EveryEntry}
use c_framework_to_server.User.{User, empty_user}
use c_framework_to_server.User.Store.{
  user_insert, user_modify, user_query_return_result, user_query_return_item_num,
}
use c_framework_to_server.User.Convert.{user_generate_json}
use c_framework_to_server.Service.{Platform, World, new_token}
use c_framework_to_server.Service.Ensures.{Ensures-bind, Ensures-any, Ensures-if}
use c_framework_to_server.Service.Sessions.{drop_old_token}
use c_framework_to_server.Service.Verify.{store_new_user}
use c_framework_to_server.Service.Account.{user_register_run, user_login_run, log_in, account_user}
use c_framework_to_server.Service.CacheInvariant.{
  IsTokenEntry, IsValid, Kept, Keeps, drop_old_token-Keeps, reply_one-Keeps, one_user-Keeps,
  new_token-Keeps,
}

module _ (p : Platform) (lawful : LawfulDict p.dict) where
  pub store_new_user-Keeps : (u : User) (s : World p) → IsValid p s → Keeps p (store_new_user p u s)
  store_new_user-Keeps u s h =
      Ensures-bind (λ r. Unit) (Kept p) (user_insert p.mysql u s.session) _ (Ensures-any _)
        (λ (ret, stored, db) any. Ensures-if (Kept p) (not (eqb_ℤ ret (pos 1))) _ _ h (record {
          tokens =
              dict_add-EveryEntry p.dict lawful IsTokenEntry s.caches.token stored.token
                (user stored) h.tokens refl;
          commons = h.commons;
        }))

  pub user_register-Keeps :
      (obj : User) (s : World p) → IsValid p s → Keeps p (user_register_run p obj s)
  unfolding user_register_run
  user_register-Keeps obj s h =
      Ensures-bind (λ r. Unit) (Kept p)
        (user_query_return_item_num p.mysql (record empty_user { account = obj.account }) s.session)
        _ (Ensures-any _)
        (λ (ret, db) any.
          Ensures-if (Kept p) (eqb_ℤ ret (pos 0)) _ _
            (Ensures-bind (λ (token, s2). IsValid p s2) (Kept p)
              (new_token p (record s { session = db })) _
              (new_token-Keeps p lawful (record s { session = db }) h)
              (λ (token, s2) h2. store_new_user-Keeps (account_user p obj token) s2 h2))
            (Ensures-if (Kept p) (ltb_ℤ ret (pos 0)) _ _ h h))

  log_in-Keeps : (found : User) (s : World p) → IsValid p s → Keeps p (log_in p found s)
  log_in-Keeps found s h =
      Ensures-bind (IsValid p) (Kept p) (drop_old_token p found.token s) _
        (drop_old_token-Keeps p lawful found.token s h)
        (λ s1 h1.
          Ensures-bind (λ (token, s2). IsValid p s2) (Kept p) (new_token p s1) _
            (new_token-Keeps p lawful s1 h1)
            (λ (token, s2) h2.
              let logged_in = record found {
                token = token;
                token_fresh_time_stamp = p.now % 2 ^ 32;
              } in
              let tokens' = (p.dict.dict_add (s2.caches.token) token (user logged_in)).1 in
              Ensures-bind (λ r. Unit) (Kept p)
                (user_modify p.mysql (record empty_user { id = found.id; token = token })
                  s2.session)
                _ (Ensures-any _)
                (λ (ret, db) any.
                  reply_one-Keeps p lawful ret
                    (user_generate_json p.c_json logged_in
                      (some (codes "id createTime lastModifyTime")))
                    (record s2 { caches = record (s2.caches) { token = tokens' }; session = db })
                    (record {
                      tokens =
                          dict_add-EveryEntry p.dict lawful IsTokenEntry s2.caches.token token
                            (user logged_in) h2.tokens refl;
                      commons = h2.commons;
                    }))))

  pub user_login-Keeps :
      (filter : User) (s : World p) → IsValid p s → Keeps p (user_login_run p filter s)
  unfolding user_login_run
  user_login-Keeps filter s h =
      Ensures-bind (λ r. Unit) (Kept p) (user_query_return_result p.mysql none filter 0 0 s.session)
        _ (Ensures-any _)
        (λ (ret, users, db) any.
          one_user-Keeps p lawful ret users _ (record s { session = db }) h
            (λ found. log_in-Keeps found (record s { session = db }) h))
