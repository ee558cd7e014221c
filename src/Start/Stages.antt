-- ===== src/Start/Stages.antt =====
-- What each part of main in cFrameworkToServer/src/main.c leaves behind where it gives the code 0.
use c_framework_to_server.Base.{
  ℕ, zero, suc, ◌≡◌, refl, sym, ap, ◌∙◌, Bool, true, false, not, Option, none, some, List, [], ◌∷◌,
  arith, inl, inr, Bool-cases,
}
use c_framework_to_server.Base.Int.{ℤ, pos, negsuc, eqb_ℤ}
use c_framework_to_server.Memory.{◌>>=◌}
use c_framework_to_server.Text.{codes, str_eq, strcpy, atoi}
use c_framework_to_server.Queue.{Queue}
use c_framework_to_server.Log.{Time, message, log_init, log_print, Logger, LogMsg}
use c_framework_to_server.Log.Open.{log_init-opened}
use c_framework_to_server.ConnectionPool.{
  MysqlBlock, Round, Connections, Got, null, lent, looping, get_one_conn, connected_block,
  connect_loop, mysql_connection_pool_init,
}
use c_framework_to_server.ConnectionPool.Loop.{StaysOn, get_one_conn-StaysOn}
use c_framework_to_server.Service.Ensures.{
  Ensures, Ensures-bind, Ensures-any, Ensures-if, Ensures-some,
}
use c_framework_to_server.Service.Routes.{regist_service}
use c_framework_to_server.Start.{
  Parts, Environment, Program, Stage, run_stages, setting, log_info, start_log, print_entries,
  print_config, announce, report_mysql, connect_mysql, start_mysql, register,
}

some-inj {ℓ} : {A : Type ℓ} {x y : A} → some x ≡ some y → x ≡ y
some-inj e = cc

pub Ensures-each :
    {A : Type 0} (P : A → Type 0) (m : Option A) → ((a : A) → m ≡ some a → P a) → Ensures P m
Ensures-each P none h = tt
Ensures-each P (some a) h = h a refl

eqb_ℤ-zero : (z : ℤ) → eqb_ℤ z (pos 0) ≡ true → z ≡ pos 0
eqb_ℤ-zero (pos n) e = ap pos (ground arith)
eqb_ℤ-zero (negsuc n) e = absurd (ground arith)

-- Of what comes with the code 0.
abbrev pub Good : {A : Type 0} → (A → Type 0) → ℤ × A → Type 0
Good P (ret, a) = ret ≡ pos 0 → P a

log_print-kept :
    {q : Queue LogMsg} (tm : Time) (level : ℤ) (place text : List ℕ) (st : Logger q)
    → Ensures
        (λ (ret, st1). (st1.enable ≡ st.enable) × (st1.file_open ≡ st.file_open))
        (log_print tm level place text st)
unfolding log_print
log_print-kept tm level place text st =
    Ensures-if _ (not st.enable) _ _ (refl, refl)
      (Ensures-bind _ _ (message tm level place text) _ (Ensures-any _) (λ msg u. (refl, refl)))

log_init-IsLogging :
    {q : Queue LogMsg} (path : Option (List ℕ)) (level days : ℤ) (tm : Time) (opens : Bool)
    (st st' : Logger q)
    → log_init path level days tm opens st ≡ some (pos 0, st')
    → (st'.enable ≡ true) × (st'.file_open ≡ true)
unfolding log_init
log_init-IsLogging none level days tm opens st st' run = absurd (ground arith)
log_init-IsLogging (some root) level days tm opens st st' run =
    let (on, opened, day, empty, level_set, kept) =
      log_init-opened root level days tm opens st st' run in
    (on, opened)

connect_loop-enabled :
    {q : Queue MysqlBlock} (meets : ℕ → Round) (n i : ℕ) (pool pool' : Connections q)
    → connect_loop meets n i pool ≡ (pos 0, pool')
    → pool'.enabled ≡ true
unfolding connect_loop
connect_loop-enabled meets zero i pool pool' e = ap (λ r. r.1.enabled) (sym e)
connect_loop-enabled {q = q} meets (suc n) i pool pool' e = elim (Bool-cases (meets i).connects) [
  | inl up ↦
      let pool1 : Connections q = record pool {
        slq_list = q.list_add_node_to_tail (connected_block (meets i) (meets i).addr) pool.slq_list;
      } in
      let run : connect_loop meets n (suc i) pool1 ≡ (pos 0, pool') = ground arith in
      connect_loop-enabled meets n (suc i) pool1 pool' run
  | inr down ↦ absurd (ground arith)
]

connect_loop-Good :
    {q : Queue MysqlBlock} (meets : ℕ → Round) (n i : ℕ) (pool : Connections q)
    → Good (λ pool'. pool'.enabled ≡ true) (connect_loop meets n i pool)
connect_loop-Good meets n i pool e =
    connect_loop-enabled meets n i pool (connect_loop meets n i pool).1
      (ap (λ z. (z, (connect_loop meets n i pool).1)) e)

pool_init-enabled :
    {q : Queue MysqlBlock} (ip port account password name timeout count : List ℕ)
    (meets : ℕ → Round) (pool : Connections q)
    → Ensures
        (Good (λ pool'. pool'.enabled ≡ true))
        (mysql_connection_pool_init ip port account password name timeout count meets pool)
unfolding mysql_connection_pool_init
pool_init-enabled ip port account password name timeout count meets pool =
    Ensures-bind _ _ (strcpy 16 ip) _ (Ensures-any _) λ ip' u.
      Ensures-bind _ _ (strcpy 32 account) _ (Ensures-any _) λ account' u.
        Ensures-bind _ _ (strcpy 32 password) _ (Ensures-any _) λ password' u.
          Ensures-bind _ _ (strcpy 32 name) _ (Ensures-any _)
            λ name' u e. connect_loop-Good meets _ 0 _ e

module _ {parts : Parts} where
  -- The log is open and takes messages.
  abbrev pub IsLogging : Program parts → Type 0
  IsLogging s = (s.log.enable ≡ true) × (s.log.file_open ≡ true)

  -- The pool of connections is on if the configuration asks for it.
  abbrev pub IsReady : Program parts → Type 0
  IsReady s =
      IsLogging s
      × (setting s (codes "MysqlEnable") ≡ some (codes "1") → s.connections.enabled ≡ true)

  -- Nothing but the log has changed, which goes on as it was.
  abbrev OnlyLogged : Program parts → Program parts → Type 0
  OnlyLogged s s1 =
      (s1 ≡ record s { log = s1.log })
      × (s1.log.enable ≡ s.log.enable)
      × (s1.log.file_open ≡ s.log.file_open)

  OnlyLogged-trans :
      (s s1 s2 : Program parts) → OnlyLogged s s1 → OnlyLogged s1 s2 → OnlyLogged s s2
  OnlyLogged-trans s s1 s2 (e, on, opened) (e', on', opened') = (
    e' ∙ ap {A = Program parts} {B = Program parts} (λ x. record x { log = s2.log }) e,
    on' ∙ on,
    opened' ∙ opened,
  )

  pub run_stages-first :
      (P Q : Program parts → Type 0) (f : Stage parts) (fs : List (Stage parts)) (s : Program parts)
      → Ensures (Good Q) (f s)
      → ((s1 : Program parts)
          → Q s1
          → Ensures (λ (reached, s'). reached ≡ true → P s') (run_stages fs s1))
      → Ensures (λ (reached, s'). reached ≡ true → P s') (run_stages (f ∷ fs) s)
  unfolding run_stages
  run_stages-first P Q f fs s h rest = Ensures-bind (Good Q) _ (f s) _ h λ (ret, s1) good.
      elim (Bool-cases (eqb_ℤ ret (pos 0))) [
        | inl zero_code ↦ rw zero_code (rest s1 (good (eqb_ℤ-zero ret zero_code)))
        | inr other ↦ rw other (λ e. absurd (ground arith))
      ]

module _ {parts : Parts} (env : Environment parts) where
  log_info-OnlyLogged :
      (text : List ℕ) (s : Program parts) → Ensures (OnlyLogged s) (log_info env text s)
  log_info-OnlyLogged text s =
      Ensures-bind _ _ (log_print env.tm (pos 2) [] text s.log) _
        (log_print-kept env.tm (pos 2) [] text s.log) λ (ret, log) (on, opened). (refl, on, opened)

  logged-then :
      (s : Program parts) (m : Option (Program parts)) (f : Program parts → Option (Program parts))
      → Ensures (OnlyLogged s) m
      → ((s1 : Program parts) → Ensures (OnlyLogged s1) (f s1))
      → Ensures (OnlyLogged s) (m >>= f)
  logged-then s m f h k = Ensures-bind (OnlyLogged s) (OnlyLogged s) m f h λ s1 h1.
      Ensures-each _ (f s1) λ s2 e. OnlyLogged-trans s s1 s2 h1 (Ensures-some _ (f s1) s2 (k s1) e)

  print_entries-OnlyLogged :
      (entries : List (List ℕ × List ℕ)) (s : Program parts)
      → Ensures (OnlyLogged s) (print_entries env entries s)
  print_entries-OnlyLogged [] s = (refl, refl, refl)
  print_entries-OnlyLogged ((key, value) ∷ entries) s =
      logged-then s (log_info env _ s) (print_entries env entries) (log_info-OnlyLogged _ s)
        (print_entries-OnlyLogged entries)

  print_config-OnlyLogged : (s : Program parts) → Ensures (OnlyLogged s) (print_config env s)
  print_config-OnlyLogged s = logged-then s (log_info env _ s) _ (log_info-OnlyLogged _ s) λ s1.
      logged-then s1 (print_entries env (env.entries s1.table) s1) _
        (print_entries-OnlyLogged (env.entries s1.table) s1) (log_info-OnlyLogged _)

  pub announce-IsLogging :
      (s : Program parts) → IsLogging s → Ensures (Good IsLogging) (announce env s)
  announce-IsLogging s (on, opened) =
      Ensures-bind (OnlyLogged s) _ (log_info env env.welcome s) _
        (log_info-OnlyLogged env.welcome s)
        λ s1 (e1, on1, opened1).
          Ensures-bind (OnlyLogged s1) _ (print_config env s1) _ (print_config-OnlyLogged s1)
            λ s2 (e2, on2, opened2) zero_code. (on2 ∙ on1 ∙ on, opened2 ∙ opened1 ∙ opened)

  pub start_log-IsLogging : (s : Program parts) → Ensures (Good IsLogging) (start_log env s)
  start_log-IsLogging s =
      Ensures-bind _ _ (setting s (codes "LogLevel")) _ (Ensures-any _) λ level u.
        Ensures-bind _ _ (setting s (codes "LogSaveDays")) _ (Ensures-any _) λ days u.
          let path = setting s (codes "LogPath") in
          Ensures-bind {B = ℤ × Program parts}
            (Good (λ (log : Logger parts.messages). (log.enable ≡ true) × (log.file_open ≡ true)))
            (Good IsLogging) (log_init path (atoi level) (atoi days) env.tm env.opens s.log) _
            (Ensures-each
              (Good (λ (log : Logger parts.messages). (log.enable ≡ true) × (log.file_open ≡ true)))
              _
              λ (ret, log) run zero_code.
                log_init-IsLogging path (atoi level) (atoi days) env.tm env.opens s.log log
                  (run ∙ ap (λ z. some (z, log)) zero_code))
            λ r good. good

  connect_mysql-IsReady :
      (s : Program parts) → IsLogging s → Ensures (Good IsReady) (connect_mysql env s)
  connect_mysql-IsReady s logging =
      Ensures-bind _ _ (setting s (codes "MysqlIP")) _ (Ensures-any _) λ ip u.
        Ensures-bind _ _ (setting s (codes "MysqlPort")) _ (Ensures-any _) λ port u.
          Ensures-bind _ _ (setting s (codes "MysqlAccount")) _ (Ensures-any _) λ account u.
            Ensures-bind _ _ (setting s (codes "MysqlPassword")) _ (Ensures-any _) λ password u.
              Ensures-bind _ _ (setting s (codes "DatabaseName")) _ (Ensures-any _) λ name u.
                Ensures-bind _ _ (setting s (codes "MysqlConnectionTimeout")) _ (Ensures-any _)
                  λ timeout u.
                    Ensures-bind _ _ (setting s (codes "MysqlConnectionPoolMaxCount")) _
                      (Ensures-any _)
                      λ count u.
                        Ensures-bind _ _
                          (mysql_connection_pool_init ip port account password name timeout count
                            env.meets s.connections)
                          _
                          (pool_init-enabled ip port account password name timeout count env.meets
                            s.connections)
                          (report_mysql-IsReady count s logging)
    where
      report_mysql-IsReady :
          (count : List ℕ) (s : Program parts)
          → IsLogging s
          → (r : ℤ × Connections parts.blocks) → Good (λ pool. pool.enabled ≡ true) r
          → Ensures (Good IsReady) (report_mysql env count s r)
      report_mysql-IsReady count s (on, opened) (ret, pool) good =
          let s' : Program parts = record s { connections = pool } in
          elim (Bool-cases (eqb_ℤ ret (pos 0))) [
            | inl zero_code ↦ rw zero_code (
                Ensures-bind (OnlyLogged s') _ (log_info env _ s') _ (log_info-OnlyLogged _ s')
                  λ s1 (e1, on1, opened1) z. (
                    (on1 ∙ on, opened1 ∙ opened),
                    λ asked. ap (λ x. x.connections.enabled) e1 ∙ good (eqb_ℤ-zero ret zero_code),
                  ))
            | inr other ↦ rw other (λ zero_code.
                let clash : true ≡ false = sym (ap (λ z. eqb_ℤ z (pos 0)) zero_code) ∙ other in
                absurd (ground arith))
          ]

  pub start_mysql-IsReady :
      (s : Program parts) → IsLogging s → Ensures (Good IsReady) (start_mysql env s)
  start_mysql-IsReady s logging =
      Ensures-bind (λ enable. setting s (codes "MysqlEnable") ≡ some enable) (Good IsReady)
        (setting s (codes "MysqlEnable")) _ (Ensures-each _ _ λ enable e. e)
        λ enable e. elim (Bool-cases (str_eq (codes "1") enable)) [
          | inl asked ↦ rw asked (connect_mysql-IsReady s logging)
          | inr other ↦ rw other λ zero_code. (
            logging,
            λ asked.
                let one : enable ≡ codes "1" = some-inj (sym e ∙ asked) in
                let clash : true ≡ false = sym (ap (str_eq (codes "1")) one) ∙ other in
                absurd (ground arith),
          )
        ]

  pub register-IsReady : (s : Program parts) → IsReady s → Ensures (Good IsReady) (register env s)
  register-IsReady s ready =
      registered (get_one_conn env.rounds s.connections)
        (get_one_conn-StaysOn env.rounds s.connections)
    where
      registered :
          (got : Got parts.blocks)
          → StaysOn s.connections got
          → Ensures (Good IsReady) (elim got [
            | null ↦ none
            | looping pool ↦ none
            | lent block pool ↦
                regist_service parts.platform s.world
                >>= (λ world. some (pos 0, record s { world = world; connections = pool }))
          ])
      registered null same = tt
      registered (looping pool) same = tt
      registered (lent block pool) same =
          Ensures-bind _ _ (regist_service parts.platform s.world) _ (Ensures-any _)
            λ world u z. (ready.0, λ asked. same ∙ ready.1 asked)
