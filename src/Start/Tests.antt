-- ===== src/Start/Tests.antt =====
-- The start in cFrameworkToServer/src/main.c on a small configuration.
use c_framework_to_server.Base.{ℕ, ◌≡◌, refl, true, false, Option, none, some, List, [], ◌∷◌}
use c_framework_to_server.Base.CStrings.{c_str}
use c_framework_to_server.Base.Int.{◌-ℤ◌, ℤ, pos}
use c_framework_to_server.Basic.{trim}
use c_framework_to_server.Text.{codes, decimal, digits, atoi, atoi_value, atoi_sign, atoi_digits}
use c_framework_to_server.Queue.{plain_queue}
use c_framework_to_server.Config.{split_line, read_lines, file_reads, fgets}
use c_framework_to_server.Config.Tests.{list_config}
use c_framework_to_server.Pool.Setup.{strtok, until_comma, read_numbers, before_bracket}
use c_framework_to_server.Log.{log_print, log_init}
use c_framework_to_server.Log.Tests.{at_start, morning}
use c_framework_to_server.ConnectionPool.{connect_loop, get_loop, mysql_connection_pool_init}
use c_framework_to_server.Sql.{query_db}
use c_framework_to_server.Sql.Statements.{select_items}
use c_framework_to_server.Service.Tests.{small, start}
use c_framework_to_server.Service.Feed.{load_cache_necessary}
use c_framework_to_server.Start
use c_framework_to_server.Start.{Parts, Environment, Program, run_stages}
use c_framework_to_server.Start.Stages.{IsReady}
use c_framework_to_server.Start.Ready.{start-IsReady}

-- What stands in the configuration before its last line is read.
abbrev settings : List (List ℕ × List ℕ)
settings =
    (codes "memoryPoolLevel", codes "1")
    ∷ (codes "memoryPoolCap", codes "[8]")
    ∷ (codes "memoryPoolSize", codes "[2]")
    ∷ (codes "ThreadpoolCount", codes "2")
    ∷ (codes "LogPath", codes "log")
    ∷ (codes "LogLevel", codes "0")
    ∷ (codes "LogSaveDays", codes "9")
    ∷ (codes "MysqlEnable", codes "1")
    ∷ (codes "MysqlIP", codes "db")
    ∷ (codes "MysqlPort", codes "33")
    ∷ (codes "MysqlAccount", codes "a")
    ∷ (codes "MysqlPassword", codes "p")
    ∷ (codes "DatabaseName", codes "n")
    ∷ (codes "MysqlConnectionTimeout", codes "9")
    ∷ (codes "MysqlConnectionPoolMaxCount", codes "1")
    ∷ (codes "ServerPort", codes "88")
    ∷ []

abbrev parts : Parts
parts = record {
  dict = record list_config { dict_create_ex = settings };
  tasks = plain_queue;
  blocks = plain_queue;
  messages = plain_queue;
  platform = small;
}

abbrev env : Environment parts
env = record {
  now = 5;
  tm = morning;
  file = some (codes "BackLog=5");
  buff_line = [];
  areas = 1000 ∷ [];
  inits = true;
  starts = 2;
  opens = true;
  meets = λ i. record { now = 5; addr = 3000; connects = true };
  rounds = record { now = 5; addr = 3000; connects = true } ∷ [];
  entries = λ t. [];
  welcome = codes "hello";
}

abbrev before : Program parts
before = record {
  table = [];
  columns = [];
  thread_pool = none;
  log = at_start;
  connections = record {
    sql_c = record {
      ip = [];
      port = 0;
      account = [];
      password = [];
      database_name = [];
      connection_timeout = pos 0;
      connect_count = pos 0;
    };
    slq_list = [];
    enabled = false;
  };
  world = start;
}

-- Where the run ends.
abbrev behind : Option (Option (ℕ × ℤ) × Program parts) → Program parts
behind none = before
behind (some (at, s)) = s

abbrev listening : Program parts
listening = behind (Start.start env 2 before)

listens : Start.start env 2 before ≡ some (some (88, pos 5), listening)
unfolding run_stages read_lines file_reads fgets split_line c_str trim until_comma strtok
    read_numbers before_bracket atoi atoi_value atoi_digits atoi_sign decimal digits log_init
    log_print ◌-ℤ◌ get_loop connect_loop mysql_connection_pool_init load_cache_necessary
    select_items query_db
listens = refl

start-IsReady_example : IsReady listening
start-IsReady_example = start-IsReady env 2 88 (pos 5) before listening listens
