-- ===== src/Service/Guards/Logout.antt =====
-- What userLogout leaves for the requests after it.
use c_framework_to_server.Base.{
  ℕ, ◌<◌, length, none, some, List, ◌≡◌, refl, ◌∙◌, inl, inr, Bool-cases, arith,
}
use c_framework_to_server.Base.Int.{ℤ, pos, eqb_ℤ, ltb_ℤ}
use c_framework_to_server.Text.{strcpy}
use c_framework_to_server.Errors.{err_not_login_yet, err_token_out_of_date, err_user_modify_fail}
use c_framework_to_server.Cache.Laws.{LawfulDict, str_eq_refl}
use c_framework_to_server.Sql.{exec_db}
use c_framework_to_server.Sql.Bounds.{exec_checked-runs}
use c_framework_to_server.User.{User}
use c_framework_to_server.User.Store.{user_modify, user_modify_sql}
use c_framework_to_server.User.Texts.{Fits, user_texts-fit}
use c_framework_to_server.Service.{
  Platform, World, Run, check_token, error_json, parse_filter, max_line,
}
use c_framework_to_server.Service.Sessions.{
  user_logout, user_logout_run, user_status_run, logout_update, log_out, reply_one,
}
use c_framework_to_server.Service.CacheInvariant.{IsValid}
use c_framework_to_server.Service.Guards.{
  cached, Refused, not_logged_in, expired, accepted, check_token-Checked,
}

strcpy_fits : (size : ℕ) (text : List ℕ) → length text < size → strcpy size text ≡ some text
strcpy_fits size text h = ground arith

logout_update-Fits : (p : Platform) (u : User) → Fits (logout_update p u)
logout_update-Fits p u = omega arith

module _ (p : Platform) where
  -- An update of an object within its arrays has a result, and sends its text.
  pub user_modify-runs :
      (u : User) (s : p.mysql.Session)
      → Fits u
      → (r : ℤ × p.mysql.Session) × ((user_modify p.mysql u s ≡ some r)
          × (r.1 ≡ (exec_db p.mysql (user_modify_sql u) s).1))
  user_modify-runs u s h =
      let fits = (user_texts-fit u 0 0 h).1.1.1.0 in
      let r = exec_db p.mysql (user_modify_sql u) s in
      let runs = exec_checked-runs p.mysql (user_modify_sql u) err_user_modify_fail s fits in
      elim (Bool-cases (ltb_ℤ r.0 (pos 0))) [
        | inl e ↦ ((err_user_modify_fail, r.1), (runs ∙ rw (e), refl))
        | inr e ↦ (r, (runs ∙ rw (e), refl))
      ]

  pub reply_one-runs :
      (ret : ℤ) (ok : List ℕ) (s : World p)
      → (text : List ℕ) × (reply_one p ret ok s ≡ some (text, s))
  reply_one-runs ret ok s = elim (Bool-cases (eqb_ℤ ret (pos 1))) [
    | inl e ↦ (ok, rw (e))
    | inr e ↦ (error_json p ret, rw (e))
  ]

  -- With makeErrorJson(0, ...) for a success, the reply is that of a code either way.
  reply_one-code :
      (ret : ℤ) (s : World p)
      → (code : ℤ) × (reply_one p ret (error_json p (pos 0)) s ≡ some (error_json p code, s))
  reply_one-code ret s = elim (Bool-cases (eqb_ℤ ret (pos 1))) [
    | inl e ↦ (pos 0, rw (e))
    | inr e ↦ (ret, rw (e))
  ]

  -- What a handler leaves when it has replied.
  abbrev pub replied_with : (text : List ℕ) → World p → World p
  replied_with text s = record s { buffer = text; buffer_used = length text }

  status_absent :
      (filter : User) (s : World p)
      → cached p s filter.token ≡ none
      → user_status_run p filter s ≡ some (error_json p err_not_login_yet, s)
  unfolding check_token
  status_absent filter s e = rw (e)

module _ (p : Platform) (lawful : LawfulDict p.dict) where
  Refused-absent :
      (token : List ℕ) (s : World p) (code : ℤ) (run : Run p) (r : Refused p token s code run)
      → cached p r.after token ≡ none
  Refused-absent token s code run r = r.tokens_left token ∙ rw (str_eq_refl token)

  abbrev LoggedOut : (filter : User) → Run p → Type 0
  LoggedOut filter run =
      (code : ℤ) × ((after : World p) × ((run ≡ some (error_json p code, after))
          × (cached p after filter.token ≡ none)))

  Refused-LoggedOut :
      (filter : User) (s : World p) (code : ℤ) (run : Run p)
      → Refused p filter.token s code run
      → LoggedOut filter run
  Refused-LoggedOut filter s code run r =
      (code, (r.after, (r.replied, Refused-absent filter.token s code run r)))

  log_out-LoggedOut :
      (filter u : User) (s : World p) → LoggedOut filter (log_out p filter.token u s)
  log_out-LoggedOut filter u s =
      let dropped = record (s.caches) {
        token = (p.dict.dict_delete (s.caches.token) filter.token).1;
      } in
      let ((ret, db), (modified, sent)) =
        user_modify-runs p (logout_update p u) s.session (logout_update-Fits p u) in
      let after : World p = record s { caches = dropped; session = db } in
      let (code, replied) = reply_one-code p ret after in
      (
        code,
        (
          after,
          (
            rw (modified) replied,
            lawful.fetch_delete s.caches.token filter.token filter.token
                ∙ rw (str_eq_refl filter.token),
          ),
        ),
      )

  logout_run-LoggedOut :
      (filter : User) (s : World p) → IsValid p s → LoggedOut filter (user_logout_run p filter s)
  logout_run-LoggedOut filter s h =
      elim (check_token-Checked p lawful filter.token (log_out p filter.token) s h) [
        | not_logged_in e r ↦ Refused-LoggedOut filter s err_not_login_yet _ r
        | expired u e t r ↦ Refused-LoggedOut filter s err_token_out_of_date _ r
        | accepted u e k t run ↦ rw (run) (log_out-LoggedOut filter u s)
      ]

  -- userLogout of a request that UserParseJson can read, in a state whose caches are valid: its buffer
  -- then holds the JSON of a code, and a userStatus with the same token is answered by "not login
  -- yet". The JSON of a code has room in the buffer, and a string of the request is no longer than
  -- its array.
  pub user_logout-user_status :
      (filter : User) (s : World p)
      → IsValid p s
      → parse_filter p s ≡ some filter
      → ((code : ℤ) → length (error_json p code) < max_line)
      → (code : ℤ) × ((after : World p) × ((user_logout p s
              ≡ some (replied_with p (error_json p code) after))
            × (user_status_run p filter (replied_with p (error_json p code) after)
                ≡ some (error_json p err_not_login_yet, replied_with p (error_json p code) after))))
  user_logout-user_status filter s h parsed room =
      let (code, (after, (run, absent))) = logout_run-LoggedOut filter s h in
      let done : strcpy max_line (error_json p code) ≡ some (error_json p code) =
        strcpy_fits max_line (error_json p code) (room code) in
      (
        code,
        (
          after,
          (
            rw (parsed, run, done) refl,
            status_absent p filter (replied_with p (error_json p code) after) absent,
          ),
        ),
      )
