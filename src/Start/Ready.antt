-- ===== src/Start/Ready.antt =====
-- What holds where main of cFrameworkToServer/src/main.c reaches the event loop.
use c_framework_to_server.Base.{ℕ, ◌≡◌, refl, true, some, arith, inl, inr, drop, ◌==◌, Bool-cases}
use c_framework_to_server.Base.Int.{ℤ}
use c_framework_to_server.Text.{codes}
use c_framework_to_server.Service.Ensures.{
  Ensures, Ensures-bind, Ensures-any, Ensures-if, Ensures-some,
}
use c_framework_to_server.Start.{
  Parts, Environment, Program, Stage, run_stages, setting, read_config, start_memory_pool,
  start_thread_pool, start_log, announce, start_mysql, register, stages, start,
}
use c_framework_to_server.Start.Stages.{
  Ensures-each, Good, IsLogging, IsReady, run_stages-first, announce-IsLogging, start_log-IsLogging,
  start_mysql-IsReady, register-IsReady,
}

module _ {parts : Parts} (env : Environment parts) where
  any_code :
      (f : Stage parts) (s : Program parts) → Ensures (Good (λ (s' : Program parts). Unit)) (f s)
  any_code f s = Ensures-each _ (f s) λ r run zero_code. tt

  stages-IsReady :
      (s : Program parts)
      → Ensures (λ (reached, s'). reached ≡ true → IsReady s') (run_stages (stages env) s)
  unfolding run_stages
  stages-IsReady s =
      run_stages-first IsReady (λ s'. Unit) (read_config env) (drop 1 (stages env)) s
        (any_code (read_config env) s)
        λ s1 u.
          run_stages-first IsReady (λ s'. Unit) (start_memory_pool env) (drop 2 (stages env)) s1
            (any_code (start_memory_pool env) s1)
            λ s2 u.
              run_stages-first IsReady (λ s'. Unit) (start_thread_pool env) (drop 3 (stages env)) s2
                (any_code (start_thread_pool env) s2)
                λ s3 u.
                  run_stages-first IsReady IsLogging (start_log env) (drop 4 (stages env)) s3
                    (start_log-IsLogging env s3)
                    λ s4 logging.
                      run_stages-first IsReady IsLogging (announce env) (drop 5 (stages env)) s4
                        (announce-IsLogging env s4 logging)
                        λ s5 logging.
                          run_stages-first IsReady IsReady (start_mysql env) (drop 6 (stages env))
                            s5 (start_mysql-IsReady env s5 logging)
                            λ s6 ready.
                              run_stages-first IsReady IsReady (register env) (drop 7 (stages env))
                                s6 (register-IsReady env s6 ready) λ s7 ready e. ready

  start-Ensures :
      (argc : ℕ) (s : Program parts)
      → Ensures (λ (listens, s'). (at : ℕ × ℤ) → listens ≡ some at → IsReady s') (start env argc s)
  start-Ensures argc s =
      Ensures-if _ (argc == 2) _ _
        (Ensures-bind (λ (reached, s'). reached ≡ true → IsReady s') _ (run_stages (stages env) _) _
          (stages-IsReady _)
          λ (reached, s') ready. elim (Bool-cases reached) [
            | inl arrived ↦ rw arrived (
                Ensures-bind _ _ (setting s' (codes "ServerPort")) _ (Ensures-any _) λ port u.
                  Ensures-bind _ _ (setting s' (codes "BackLog")) _ (Ensures-any _)
                    λ backlog u at e. ready arrived)
            | inr ended ↦ rw ended (λ at e. absurd (ground arith))
          ])
        (λ at e. absurd (ground arith))

  -- Where main reaches socket_server_start, the log is on and its file open, and the pool of database
  -- connections is on if the configuration sets MysqlEnable to "1".
  pub start-IsReady :
      (argc port : ℕ) (backlog : ℤ) (s s' : Program parts)
      → start env argc s ≡ some (some (port, backlog), s')
      → IsReady s'
  start-IsReady argc port backlog s s' run =
      Ensures-some _ (start env argc s) (some (port, backlog), s') (start-Ensures argc s) run
        (port, backlog) refl
