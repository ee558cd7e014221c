-- ===== src/Service/CacheInvariant.antt =====
-- What stands in the caches: users under their tokens, codes under phone numbers, the version.
pub mod Sessions
pub mod Accounts
pub mod Codes
use c_framework_to_server.Base.{
  ℕ, ◌+◌, ◌%◌, ◌^◌, Bool, true, false, not, ◌&&◌, ◌||◌, Option, none, some, List, [], ◌∷◌, ◌++◌,
  ◌≡◌, refl, ap, sym, subst, inl, inr, Bool-cases, Option-cases, length, ltb, ◌==◌, ==_iff, arith,
  if◌then◌else◌,
}
use c_framework_to_server.Base.Int.{ℤ, pos, eqb_ℤ, ltb_ℤ}
use c_framework_to_server.Errors.{
  err_token_out_of_date, err_phone_number_duplicate, err_phone_number_not_regist,
}
use c_framework_to_server.Memory.{◌>>=◌}
use c_framework_to_server.Text.{codes, str_eq, is_empty}
use c_framework_to_server.Cache.{
  Object, user, msg_code, notice, app_ver, MsgCode, Caches, Dict, cache_token, cache_comm,
  create_cache,
}
use c_framework_to_server.Cache.Laws.{
  LawfulDict, EveryEntry, OnSome, dict_create-EveryEntry, dict_add-EveryEntry,
  dict_delete-EveryEntry, dict_assign-EveryEntry,
}
use c_framework_to_server.Basic.{hex_to_str}
use c_framework_to_server.Random.{srand_get_uuid}
use c_framework_to_server.User.{User, empty_user}
use c_framework_to_server.User.Store.{
  user_insert, user_modify, user_delete, user_query_return_result, user_query_return_item_num,
}
use c_framework_to_server.User.Convert.{update_obj, newer_text, user_generate_json}
use c_framework_to_server.Service.{
  Platform, World, Run, check_token, as_user, out_of_date, error_json, drop_token, new_token,
}
use c_framework_to_server.Service.Ensures.{Ensures, Ensures-bind, Ensures-any, Ensures-if}
use c_framework_to_server.Service.Sessions.{
  user_status_run, user_logout_run, user_modify_run, user_delete_run, delete_found, refresh_user,
  assign_user, one_user, drop_old_token, reply_one, logout_update, ok_json,
}
use c_framework_to_server.Service.Verify.{
  verify_before_run, verify_after_run, send_code, store_new_user, accept_code, phone_user,
  as_msg_code, empty_code,
}
use c_framework_to_server.Service.Account.{user_register_run, user_login_run, log_in, account_user}

-- A user stands under its own token.
abbrev pub IsTokenEntry : List ℕ → Object → Type 0
IsTokenEntry k (user u) = u.token ≡ k
IsTokenEntry k _ = ⊥

-- A message code stands under a key of eleven characters, the version under "appVersion".
abbrev pub IsCommonEntry : List ℕ → Object → Type 0
IsCommonEntry k (msg_code m) = length k ≡ 11
IsCommonEntry k (app_ver v) = k ≡ codes "appVersion"
IsCommonEntry k _ = ⊥

module _ (d : Dict) where
  pub record CachesValid (c : Caches d.Table) : Type 0 where
    pub tokens : (k : List ℕ) → OnSome (IsTokenEntry k) (d.dict_fetch_value c.token k)
    pub commons : (k : List ℕ) → OnSome (IsCommonEntry k) (d.dict_fetch_value c.common k)

  pub create_cache-CachesValid : LawfulDict d → CachesValid (create_cache d)
  create_cache-CachesValid lawful = record {
    tokens = dict_create-EveryEntry d lawful IsTokenEntry;
    commons = dict_create-EveryEntry d lawful IsCommonEntry;
  }

pub update_obj-token :
    (des src : User) → des.token ≡ src.token → (update_obj des src).token ≡ src.token
unfolding update_obj
update_obj-token des src h = elim (Bool-cases (is_empty src.token)) [
  | inl e ↦ rw (e) h
  | inr e ↦ rw (e) refl
]

module _ (p : Platform) where
  abbrev pub IsValid : World p → Type 0
  IsValid s = CachesValid p.dict s.caches

  abbrev pub Kept : List ℕ × World p → Type 0
  Kept (ret_char, s) = IsValid s

  abbrev pub Keeps : Run p → Type 0
  Keeps = Ensures Kept

module _ (p : Platform) (lawful : LawfulDict p.dict) where
  pub drop_token-Keeps :
      (token : List ℕ) (s : World p) → IsValid p s → Ensures (IsValid p) (drop_token p token s)
  drop_token-Keeps token s h = record {
    tokens = dict_delete-EveryEntry p.dict lawful IsTokenEntry s.caches.token token h.tokens;
    commons = h.commons;
  }

  pub drop_old_token-Keeps :
      (token : List ℕ) (s : World p) → IsValid p s → Ensures (IsValid p) (drop_old_token p token s)
  drop_old_token-Keeps token s h =
      Ensures-if (IsValid p) (length token == 16) (drop_token p token s) (some s)
        (drop_token-Keeps token s h) h

  pub reply_one-Keeps :
      (ret : ℤ) (ok : List ℕ) (s : World p) → IsValid p s → Keeps p (reply_one p ret ok s)
  reply_one-Keeps ret ok s h = Ensures-if (Kept p) (eqb_ℤ ret (pos 1)) _ _ h h

  fresh-Keeps :
      (token : List ℕ) (go_on : User → World p → Run p) (s : World p) (u : User)
      → IsValid p s
      → Keeps p (go_on u s)
      → Keeps p (
          if out_of_date p u
          then drop_token p token s >>= (λ s'. some (error_json p err_token_out_of_date, s'))
          else go_on u s)
  fresh-Keeps token go_on s u h k =
      Ensures-if (Kept p) (out_of_date p u) _ _ (drop_token-Keeps token s h) k

  pub check_token-Keeps :
      (token : List ℕ) (go_on : User → World p → Run p) (s : World p)
      → IsValid p s
      → ((u : User) → u.token ≡ token → Keeps p (go_on u s))
      → Keeps p (check_token p token go_on s)
  unfolding check_token
  check_token-Keeps token go_on s h k =
      elim (Option-cases (p.dict.dict_fetch_value s.caches.token token)) [
        | inl e ↦ rw (e) h
        | inr (user u, e) ↦ rw (e) (
            fresh-Keeps token go_on s u h
              (k u (subst (OnSome (IsTokenEntry token)) e (h.tokens token))))
        | inr (msg_code m, e) ↦ rw (e) tt
        | inr (notice m, e) ↦ rw (e) tt
        | inr (app_ver m, e) ↦ rw (e) tt
      ]

  pub one_user-Keeps :
      (ret : ℤ) (users : List User) (go_on : User → Run p) (s : World p)
      → IsValid p s
      → ((u : User) → Keeps p (go_on u))
      → Keeps p (one_user p ret users go_on s)
  one_user-Keeps ret users go_on s h k =
      Ensures-if (Kept p) (not (eqb_ℤ ret (pos 1))) _ _
        (Ensures-if (Kept p) (ltb_ℤ ret (pos 0)) _ _ h h) (first users)
    where
      first : (us : List User) → Keeps p (elim us [ [] ↦ none | u ∷ rest ↦ go_on u ])
      first [] = tt
      first (u ∷ us) = k u

  pub new_token-Keeps :
      (s : World p) → IsValid p s → Ensures (λ (token, s'). IsValid p s') (new_token p s)
  new_token-Keeps s h =
      Ensures-bind (λ r. Unit) (λ (token, s'). IsValid p s')
        (hex_to_str (srand_get_uuid p.cbc p.stack s.random).0 8) _ (Ensures-any _) (λ text any. h)
