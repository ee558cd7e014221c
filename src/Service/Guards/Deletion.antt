-- ===== src/Service/Guards/Deletion.antt =====
-- Who may delete a user.
use c_framework_to_server.Base.{ℕ, true, false, some, List, ◌≡◌, refl, ◌∙◌, if◌then◌else◌}
use c_framework_to_server.Base.Int.{ℤ, pos, ltb_ℤ}
use c_framework_to_server.Text.{codes, str_eq}
use c_framework_to_server.Errors.{err_no_permission, err_not_login_yet, err_token_out_of_date}
use c_framework_to_server.Cache.{user}
use c_framework_to_server.Cache.Laws.{LawfulDict}
use c_framework_to_server.User.{User}
use c_framework_to_server.Service.{Platform, World, error_json, out_of_date}
use c_framework_to_server.Service.Sessions.{user_delete_run, delete_found}
use c_framework_to_server.Service.CacheInvariant.{IsValid}
use c_framework_to_server.Service.Guards.{
  cached, not_logged_in, expired, accepted, check_token-Checked,
}

module _ (p : Platform) (lawful : LawfulDict p.dict) where
  abbrev pub NoAdmin : World p → (token : List ℕ) → Type 0
  NoAdmin s token =
      (u : User)
      → cached p s token ≡ some (user u)
      → out_of_date p u ≡ false
      → str_eq u.acc_type (codes "a") ≡ false

  -- Where the token of a request is not that of an administrator with a fresh login, userDelete
  -- replies with the JSON of a negative code, which is an error, and the database is as it was. The
  -- caches are valid before.
  pub user_delete-NoAdmin :
      (filter : User) (s : World p)
      → IsValid p s
      → NoAdmin s filter.token
      → (code : ℤ) × (ltb_ℤ code (pos 0) ≡ true)
        × ((after : World p) × ((user_delete_run p filter s ≡ some (error_json p code, after))
              × (after.session ≡ s.session)))
  unfolding user_delete_run
  user_delete-NoAdmin filter s h no_admin =
      elim (check_token-Checked p lawful filter.token
        (λ ret_user s'.
          if str_eq ret_user.acc_type (codes "a")
          then delete_found p filter s'
          else some (error_json p err_no_permission, s'))
        s h) [
          | not_logged_in e r ↦ (err_not_login_yet, refl, (r.after, (r.replied, r.same_session)))
          | expired u e t r ↦ (err_token_out_of_date, refl, (r.after, (r.replied, r.same_session)))
          | accepted u e k t run ↦ (err_no_permission, refl, (s, (run ∙ rw (no_admin u e t), refl)))
        ]
