-- ===== src/Log/Open.antt =====
-- The state in which log_init of cFrameworkToServer/utils/log.c leaves the log.
use c_framework_to_server.Base.{
  ℕ, ◌≡◌, refl, subst, Bool, true, false, not, Option, some, List, ◌++◌, Option-cases, inl, inr,
  arith, if◌then◌else◌,
}
use c_framework_to_server.Base.Int.{ℤ, pos}
use c_framework_to_server.Text.{codes, strcpy}
use c_framework_to_server.Errors.{
  err_config_file_open_fail, err_log_level_invalid, err_log_save_days_invalid,
}
use c_framework_to_server.Queue.{Queue}
use c_framework_to_server.Log.{Time, LogMsg, Logger, name_of_day, day_changed, log_init}

module _ {q : Queue LogMsg} where
  log_init-end :
      (opens bad_level bad_days : Bool) (s1 s2 s3 st' : Logger q)
      → ◌≡◌ {A = Option (ℤ × Logger q)}
          (if not opens
            then some (err_config_file_open_fail, s1)
            else if bad_level
            then some (err_log_level_invalid, s1)
            else if bad_days
            then some (err_log_save_days_invalid, s2)
            else some (pos 0, s3))
          (some (pos 0, st'))
      → (opens ≡ true) × (s3 ≡ st')
  log_init-end false bad_level bad_days s1 s2 s3 st' run = absurd (ground arith)
  log_init-end true true bad_days s1 s2 s3 st' run = absurd (ground arith)
  log_init-end true false true s1 s2 s3 st' run = absurd (ground arith)
  log_init-end true false false s1 s2 s3 st' run = (refl, cc)

  -- What log_init leaves behind when it returns 0.
  pub log_init-opened :
      (root : List ℕ) (level days : ℤ) (tm : Time) (opens : Bool) (st st' : Logger q)
      → log_init (some root) level days tm opens st ≡ some (pos 0, st')
      → (st'.enable ≡ true)
        × (st'.file_open ≡ true)
        × (st'.old_day ≡ tm.mday)
        × (st'.log_list ≡ q.list_create)
        × (st'.log_level ≡ level)
        × (st'.written ≡ st.written)
  unfolding log_init
  log_init-opened root level days tm opens st st' run =
      let name = if day_changed tm st then name_of_day tm else st.log_name in
      elim (Option-cases (strcpy 512 (root ++ codes "/"))) [
        | inl e ↦ absurd (ground arith)
        | inr (path, e) ↦ elim (Option-cases (strcpy 512 (path ++ name))) [
          | inl e' ↦ absurd (ground arith)
          | inr (full, e') ↦
              let (opened, it) = log_init-end opens _ _ _ _ _ st' (rw (e, e') at run) in
              subst
                (λ s.
                  (s.enable ≡ true)
                  × (s.file_open ≡ true)
                  × (s.old_day ≡ tm.mday)
                  × (s.log_list ≡ q.list_create)
                  × (s.log_level ≡ level)
                  × (s.written ≡ st.written))
                it (refl, opened, refl, refl, refl, refl)
        ]
      ]
