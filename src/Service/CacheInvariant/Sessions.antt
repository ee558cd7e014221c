-- ===== src/Service/CacheInvariant/Sessions.antt =====
-- userStatus, userLogout, userModify and userDelete keep the caches valid.
use c_framework_to_server.Base.{none, []}
use c_framework_to_server.Base.Int.{pos}
use c_framework_to_server.Text.{codes, str_eq}
use c_framework_to_server.Cache.{user}
use c_framework_to_server.Cache.Laws.{LawfulDict, dict_assign-EveryEntry}
use c_framework_to_server.User.{User, empty_user}
use c_framework_to_server.User.Store.{user_modify, user_delete, user_query_return_result}
use c_framework_to_server.Service.{Platform, World, error_json}
use c_framework_to_server.Service.Ensures.{Ensures-bind, Ensures-any, Ensures-if}
use c_framework_to_server.Service.Sessions.{
  user_status_run, user_logout_run, user_modify_run, user_delete_run, delete_found, refresh_user,
  assign_user, drop_old_token, logout_update, ok_json,
}
use c_framework_to_server.Service.CacheInvariant.{
  IsTokenEntry, IsValid, Kept, Keeps, drop_token-Keeps, drop_old_token-Keeps, reply_one-Keeps,
  check_token-Keeps, one_user-Keeps, update_obj-token,
}

module _ (p : Platform) (lawful : LawfulDict p.dict) where
  pub user_status-Keeps :
      (filter : User) (s : World p) → IsValid p s → Keeps p (user_status_run p filter s)
  user_status-Keeps filter s h = check_token-Keeps p lawful filter.token _ s h (λ u t. h)

  pub user_logout-Keeps :
      (filter : User) (s : World p) → IsValid p s → Keeps p (user_logout_run p filter s)
  user_logout-Keeps filter s h = check_token-Keeps p lawful filter.token _ s h (λ u t.
      Ensures-bind (λ r. Unit) (Kept p) (user_modify p.mysql (logout_update p u) s.session) _
        (Ensures-any _)
        (λ (ret, db) any.
          reply_one-Keeps p lawful ret (error_json p (pos 0))
            (record s {
              caches = record (s.caches) {
                token = (p.dict.dict_delete (s.caches.token) filter.token).1;
              };
              session = db;
            })
            (drop_token-Keeps p lawful filter.token s h)))

  pub user_modify-Keeps :
      (filter : User) (s : World p) → IsValid p s → Keeps p (user_modify_run p filter s)
  user_modify-Keeps filter s h = check_token-Keeps p lawful filter.token _ s h (λ u t.
      Ensures-bind (λ r. Unit) (Kept p)
        (user_modify p.mysql (record filter { id = u.id }) s.session) _ (Ensures-any _)
        (λ (ret, db) any.
          reply_one-Keeps p lawful ret (ok_json p)
            (record (assign_user p filter.token (refresh_user p filter u) s) { session = db })
            (record {
              tokens =
                  dict_assign-EveryEntry p.dict lawful IsTokenEntry s.caches.token filter.token
                    (user (refresh_user p filter u)) h.tokens (update_obj-token u filter t);
              commons = h.commons;
            })))

  pub user_delete-Keeps :
      (filter : User) (s : World p) → IsValid p s → Keeps p (user_delete_run p filter s)
  unfolding user_delete_run delete_found
  user_delete-Keeps filter s h = check_token-Keeps p lawful filter.token _ s h (λ ret_user t.
      Ensures-if (Kept p) (str_eq ret_user.acc_type (codes "a")) _ _
        (Ensures-bind (λ r. Unit) (Kept p)
          (user_query_return_result p.mysql none (record filter { token = [] }) 0 0 s.session) _
          (Ensures-any _)
          (λ (ret, users, db) any.
            one_user-Keeps p lawful ret users _ (record s { session = db }) h
              (λ obj.
                Ensures-bind (IsValid p) (Kept p)
                  (drop_old_token p obj.token (record s { session = db })) _
                  (drop_old_token-Keeps p lawful obj.token (record s { session = db }) h)
                  (λ s2 h2.
                    Ensures-bind (λ r. Unit) (Kept p)
                      (user_delete p.mysql (record empty_user { id = obj.id }) s2.session) _
                      (Ensures-any _)
                      (λ (ret', db') any'.
                        reply_one-Keeps p lawful ret' (ok_json p) (record s2 { session = db' })
                          h2)))))
        h)
