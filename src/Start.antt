-- ===== src/Start.antt =====
-- The start of the server in cFrameworkToServer/src/main.c, up to the event loop: the parts in their
-- order, each of which may lead to the exit. The threads that the parts start do not run meanwhile.
-- What the system gives is the Environment. `none` is undefined behaviour: a setting that is missing
-- is a NULL string.
pub mod Stages
pub mod Ready
pub mod Tests
use c_framework_to_server.Base.{
  ℕ, ◌%◌, ◌^◌, ◌==◌, Bool, true, false, not, Option, none, some, List, [], ◌∷◌, ◌++◌, if◌then◌else◌,
}
use c_framework_to_server.Base.Int.{ℤ, pos, eqb_ℤ}
use c_framework_to_server.Memory.{◌>>=◌}
use c_framework_to_server.Text.{codes, str_eq, atoi}
use c_framework_to_server.Queue.{Queue}
use c_framework_to_server.Random.{srand_init}
use c_framework_to_server.Config.{ConfigDict, configer_init, get_config}
use c_framework_to_server.Pool.{Column}
use c_framework_to_server.Pool.Setup.{memory_pool_init}
use c_framework_to_server.ThreadPool.{Task, ThreadPool, threadpool_create}
use c_framework_to_server.Log.{Time, LogMsg, Logger, log_print, log_init}
use c_framework_to_server.ConnectionPool.{
  MysqlBlock, Round, Connections, null, lent, looping, low16, get_one_conn,
  mysql_connection_pool_init,
}
use c_framework_to_server.Service.{Platform, World}
use c_framework_to_server.Service.Routes.{regist_service}

-- The other projects' code that the parts stand on.
pub record Parts : Type 1 where
  pub dict : ConfigDict
  pub tasks : Queue Task
  pub blocks : Queue MysqlBlock
  pub messages : Queue LogMsg
  pub platform : Platform

-- What the calls of the system give: the time, the bytes of the file and the array before it, the
-- addresses of the areas, whether the thread pool can be made and how many threads start, whether
-- the log's file opens, what each connection meets when the pool is made and in the rounds of
-- GetOneConn behind that, and the order of the dict's iterator.
pub record Environment (parts : Parts) : Type 0 where
  pub now : ℕ
  pub tm : Time
  pub file : Option (List ℕ)
  pub buff_line : List ℕ
  pub areas : List ℕ
  pub inits : Bool
  pub starts : ℕ
  pub opens : Bool
  pub meets : ℕ → Round
  pub rounds : List Round
  pub entries : parts.dict.Table → List (List ℕ × List ℕ)
  -- the name, the version and the build time
  pub welcome : List ℕ

-- The variables of the parts.
pub record Program (parts : Parts) : Type 0 where
  pub table : parts.dict.Table
  pub columns : List Column
  pub thread_pool : Option (ThreadPool parts.tasks)
  pub log : Logger parts.messages
  pub connections : Connections parts.blocks
  pub world : World parts.platform

-- A part of main that sets `ret`.
abbrev pub Stage : Parts → Type 0
Stage parts = Program parts → Option (ℤ × Program parts)

module _ {parts : Parts} where
  -- Each `if (ret != RETURN_OK) goto exit`: whether the event loop is reached.
  unfoldable pub run_stages : List (Stage parts) → Program parts → Option (Bool × Program parts)
  run_stages [] s = some (true, s)
  run_stages (stage ∷ stages) s =
      stage s
      >>= (λ (ret, s'). if eqb_ℤ ret (pos 0) then run_stages stages s' else some (false, s'))

  abbrev pub setting : Program parts → List ℕ → Option (List ℕ)
  setting s key = get_config parts.dict key s.table

module _ {parts : Parts} (env : Environment parts) where
  -- log_print at level L_INFO, whose code main drops.
  abbrev pub log_info : List ℕ → Program parts → Option (Program parts)
  log_info text s =
      log_print env.tm (pos 2) [] text s.log >>= (λ (ret, log). some (record s { log = log }))

  abbrev pub read_config : Stage parts
  read_config s =
      configer_init parts.dict env.file env.buff_line
      >>= (λ (ret, table). some (ret, record s { table = table }))

  abbrev pub start_memory_pool : Stage parts
  start_memory_pool s = do
    level ← setting s (codes "memoryPoolLevel")
    cap ← setting s (codes "memoryPoolCap")
    size ← setting s (codes "memoryPoolSize")
    r ← memory_pool_init env.areas level cap size
    let (ret, columns) = r
    some (ret, record s { columns = columns })

  abbrev pub start_thread_pool : Stage parts
  start_thread_pool s = do
    count ← setting s (codes "ThreadpoolCount")
    let (ret, pool) = threadpool_create env.inits env.starts (atoi count)
    some (ret, record s { thread_pool = pool })

  abbrev pub start_log : Stage parts
  start_log s = do
    level ← setting s (codes "LogLevel")
    days ← setting s (codes "LogSaveDays")
    r ← log_init (setting s (codes "LogPath")) (atoi level) (atoi days) env.tm env.opens s.log
    let (ret, log) = r
    some (ret, record s { log = log })

  abbrev pub print_entries : List (List ℕ × List ℕ) → Program parts → Option (Program parts)
  print_entries [] s = some s
  print_entries ((key, value) ∷ entries) s =
      log_info (codes "[" ++ key ++ codes "]:[" ++ value ++ codes "]" ++ 10 ∷ []) s
      >>= print_entries entries

  -- print_config of cFrameworkToServer/utils/config.c.
  abbrev pub print_config : Program parts → Option (Program parts)
  print_config s = do
    s ←
        log_info
          (codes "--------------------start print config table-------------------------" ++ 10 ∷ [])
          s
    s ← print_entries (env.entries s.table) s
    log_info
        (codes "---------------------end print config table--------------------------" ++ 10 ∷ []) s

  abbrev pub announce : Stage parts
  announce s = do s ← log_info env.welcome s; s ← print_config s; some (pos 0, s)

  -- The test of what mysqlConnectionPoolInit has returned, and the message about it.
  abbrev pub report_mysql :
      (count : List ℕ) → Program parts → ℤ × Connections parts.blocks → Option (ℤ × Program parts)
  report_mysql count s (ret, connections) =
      let s' : Program parts = record s { connections = connections } in
      if eqb_ℤ ret (pos 0)
      then log_info
          (codes "["
            ++ count
            ++ codes "] mysql connection create success, mysql connection pool init success!!"
            ++ 10 ∷ [])
          s'
        >>= (λ s. some (pos 0, s))
      else some (ret, s')

  abbrev pub connect_mysql : Stage parts
  connect_mysql s = do
    ip ← setting s (codes "MysqlIP")
    port ← setting s (codes "MysqlPort")
    account ← setting s (codes "MysqlAccount")
    password ← setting s (codes "MysqlPassword")
    name ← setting s (codes "DatabaseName")
    timeout ← setting s (codes "MysqlConnectionTimeout")
    count ← setting s (codes "MysqlConnectionPoolMaxCount")
    mysql_connection_pool_init ip port account password name timeout count env.meets s.connections
        >>= report_mysql count s

  abbrev pub start_mysql : Stage parts
  start_mysql s = do
    enable ← setting s (codes "MysqlEnable")
    if str_eq (codes "1") enable then connect_mysql s else some (pos 0, s)

  -- The registration of the routes, whose loadCacheNecessary takes a connection and never gives it
  -- back. `none`: the pool is off, so that it uses the NULL that GetOneConn returns, or GetOneConn has
  -- not returned after the rounds given.
  abbrev pub register : Stage parts
  register s = elim (get_one_conn env.rounds s.connections) [
    | null ↦ none
    | looping pool ↦ none
    | lent block pool ↦
        regist_service parts.platform s.world
        >>= (λ world. some (pos 0, record s { world = world; connections = pool }))
  ]

  abbrev pub stages : List (Stage parts)
  stages =
      read_config ∷ start_memory_pool ∷ start_thread_pool ∷ start_log ∷ announce ∷ start_mysql
      ∷ register ∷ []

  -- main, for the number of its arguments: `none` where it goes to the exit, and the port and the
  -- backlog where it reaches socket_server_start.
  abbrev pub start : (argc : ℕ) → Program parts → Option (Option (ℕ × ℤ) × Program parts)
  start argc s =
      let seeded : World parts.platform = record s.world {
        random = srand_init (env.now % 2 ^ 32) s.world.random;
      } in
      if argc == 2
      then run_stages stages (record s { world = seeded }) >>= (λ (reached, s').
        if reached
        then setting s' (codes "ServerPort") >>= (λ port.
          setting s' (codes "BackLog")
          >>= (λ backlog. some (some (low16 (atoi port), atoi backlog), s')))
        else some (none, s'))
      else some (none, s)
