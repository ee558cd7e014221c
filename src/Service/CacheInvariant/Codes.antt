-- ===== src/Service/CacheInvariant/Codes.antt =====
-- verifyBefore and verifyAfter keep the caches valid.
use c_framework_to_server.Base.{
  ℕ, ◌+◌, not, ◌&&◌, ◌||◌, none, some, List, ◌≡◌, inl, inr, Bool-cases, Option-cases, length, ltb,
  ◌==◌, ==_iff, if◌then◌else◌,
}
use c_framework_to_server.Base.Int.{pos, eqb_ℤ, ltb_ℤ}
use c_framework_to_server.Errors.{err_phone_number_duplicate, err_phone_number_not_regist}
use c_framework_to_server.Memory.{◌>>=◌}
use c_framework_to_server.Text.{codes, str_eq}
use c_framework_to_server.Cache.{MsgCode}
use c_framework_to_server.Cache.Laws.{LawfulDict, dict_add-EveryEntry, dict_delete-EveryEntry}
use c_framework_to_server.User.{User}
use c_framework_to_server.User.Store.{user_query_return_item_num}
use c_framework_to_server.Service.{Platform, World, error_json, new_token}
use c_framework_to_server.Service.Ensures.{Ensures-bind, Ensures-any, Ensures-if}
use c_framework_to_server.Service.Verify.{
  verify_before_run, verify_after_run, send_code, store_new_user, accept_code, phone_user,
  as_msg_code, empty_code,
}
use c_framework_to_server.Service.CacheInvariant.{
  IsCommonEntry, IsValid, Kept, Keeps, new_token-Keeps,
}
use c_framework_to_server.Service.CacheInvariant.Accounts.{store_new_user-Keeps}

module _ (p : Platform) (lawful : LawfulDict p.dict) where
  send_code-Keeps :
      (phone : List ℕ) (s : World p)
      → length phone ≡ 11
      → IsValid p s
      → Keeps p (send_code p phone s)
  send_code-Keeps phone s n h =
      Ensures-bind (λ m. Unit) (Kept p)
        (elim (p.dict.dict_fetch_value s.caches.common phone) [
          | none ↦ some empty_code
          | some obj ↦ as_msg_code obj
        ])
        _ (Ensures-any _)
        (λ old any. record {
          tokens = h.tokens;
          commons =
              dict_add-EveryEntry p.dict lawful IsCommonEntry s.caches.common phone _ h.commons n;
        })

  count_phone-Keeps :
      (filter : User) (s : World p)
      → length filter.phone ≡ 11
      → IsValid p s
      → Keeps p (
          user_query_return_item_num p.mysql (record filter { account = filter.phone }) s.session
          >>= (λ (ret, db).
              if str_eq filter.cmd (codes "regist") && not (eqb_ℤ ret (pos 0))
              then some (error_json p err_phone_number_duplicate, record s { session = db })
              else if str_eq filter.cmd (codes "login") && not (ltb_ℤ (pos 0) ret)
              then some (error_json p err_phone_number_not_regist, record s { session = db })
              else send_code p filter.phone (record s { session = db })))
  count_phone-Keeps filter s n h =
      Ensures-bind (λ r. Unit) (Kept p)
        (user_query_return_item_num p.mysql (record filter { account = filter.phone }) s.session) _
        (Ensures-any _)
        (λ (ret, db) any.
          Ensures-if (Kept p) (str_eq filter.cmd (codes "regist") && not (eqb_ℤ ret (pos 0))) _ _ h
            (Ensures-if (Kept p) (str_eq filter.cmd (codes "login") && not (ltb_ℤ (pos 0) ret)) _ _
              h (send_code-Keeps filter.phone (record s { session = db }) n h)))

  pub verify_before-Keeps :
      (filter : User) (s : World p) → IsValid p s → Keeps p (verify_before_run p filter s)
  unfolding verify_before_run
  verify_before-Keeps filter s h =
      elim (Bool-cases
        (not (str_eq filter.cmd (codes "regist")) && not (str_eq filter.cmd (codes "login")))) [
          | inl e ↦ rw (e) h
          | inr e ↦ elim (Bool-cases (length filter.phone == 11)) [
            | inl e' ↦
                rw (e, e') (count_phone-Keeps filter s ((==_iff (length filter.phone) 11).0 e') h)
            | inr e' ↦ rw (e, e') h
          ]
        ]

  accepted-Keeps :
      (filter : User) (s : World p)
      → IsValid p s
      → Keeps p
          (new_token p s >>= (λ (token, s1). store_new_user p (phone_user p filter.phone token) s1))
  accepted-Keeps filter s h =
      Ensures-bind (λ (token, s1). IsValid p s1) (Kept p) (new_token p s) _
        (new_token-Keeps p lawful s h)
        (λ (token, s1) h1. store_new_user-Keeps p lawful (phone_user p filter.phone token) s1 h1)

  accept_code-Keeps :
      (filter : User) (code : MsgCode) (s : World p)
      → IsValid p s
      → Keeps p (accept_code p filter code s)
  accept_code-Keeps filter code s h =
      elim (Bool-cases (ltb (code.time_stamp + code.fresh_time) p.now)) [
        | inl e ↦ rw (e) h
        | inr e ↦ elim (Bool-cases (str_eq filter.password code.code)) [
          | inl e' ↦
              rw (e, e')
                (accepted-Keeps filter
                  (record s {
                    caches = record (s.caches) {
                      common = (p.dict.dict_delete (s.caches.common) filter.phone).1;
                    };
                  })
                  (record {
                    tokens = h.tokens;
                    commons =
                        dict_delete-EveryEntry p.dict lawful IsCommonEntry s.caches.common
                          filter.phone h.commons;
                  }))
          | inr e' ↦ rw (e, e') h
        ]
      ]

  pub verify_after-Keeps :
      (filter : User) (s : World p) → IsValid p s → Keeps p (verify_after_run p filter s)
  unfolding verify_after_run
  verify_after-Keeps filter s h =
      elim (Bool-cases (not (length filter.phone == 11) || not (length filter.password == 6))) [
        | inl e ↦ rw (e) h
        | inr e ↦ elim (Option-cases (p.dict.dict_fetch_value s.caches.common filter.phone)) [
          | inl e' ↦ rw (e, e') h
          | inr (obj, e') ↦
              rw (e, e')
                (Ensures-bind (λ code. Unit) (Kept p) (as_msg_code obj) _ (Ensures-any _)
                  (λ code any. accept_code-Keeps filter code s h))
        ]
      ]
