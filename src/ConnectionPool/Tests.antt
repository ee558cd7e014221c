-- ===== src/ConnectionPool/Tests.antt =====
-- The connection pool of cFrameworkToServer/utils/mysql_connection_pool.c on small inputs.
use c_framework_to_server.Base.{
  ℕ, ◌+◌, ◌≡◌, refl, true, false, Option, some, [], ◌∷◌, ltb, lt→ltb, arith,
}
use c_framework_to_server.Base.Int.{ℤ, pos, ◌-ℤ◌}
use c_framework_to_server.Text.{codes, atoi, atoi_value}
use c_framework_to_server.Errors.{err_database_connect_fail}
use c_framework_to_server.Queue.{plain_queue, plain_queue-LawfulQueue}
use c_framework_to_server.ConnectionPool.{
  MysqlBlock, SqlConfig, Round, Connections, lent, looping, null, connected_block, get_one_conn,
  mysql_connection_pool_init, mysql_connection_pool_un_init,
}
use c_framework_to_server.ConnectionPool.Loop.{get_one_conn-returns, get_one_conn-down}
use c_framework_to_server.ConnectionPool.Lending.{IsLent, Lending, take_one, here, later}
use c_framework_to_server.ConnectionPool.Setup.{
  init-Reach-IsLent, init-failed, un_init-closes, blocks_of,
}

abbrev Plain : Type 0
Plain = Connections (plain_queue {A = MysqlBlock})

-- The database is up for the first n rounds.
abbrev up_to : ℕ → ℕ → Round
up_to n i = record { now = 100; addr = 1000 + i; connects = ltb i n }

abbrev no_config : SqlConfig
no_config = record {
  ip = [];
  port = 0;
  account = [];
  password = [];
  database_name = [];
  connection_timeout = pos 30;
  connect_count = pos 2;
}

abbrev not_yet : Plain
not_yet = record { sql_c = no_config; slq_list = []; enabled = false }

-- Two connections of the time 100.
abbrev two_conns : Plain
two_conns = record { sql_c = no_config; slq_list = blocks_of (up_to 2) 2 0; enabled = true }

abbrev down_at : ℕ → Round
down_at t = record { now = t; addr = 5; connects = false }

abbrev up_at : ℕ → Round
up_at t = record { now = t; addr = 5; connects = true }

get_one_conn-returns_example :
    (block : MysqlBlock) × (pool' : Plain) × (get_one_conn (down_at 131 ∷ up_at 140 ∷ []) two_conns
      ≡ lent block pool')
get_one_conn-returns_example =
    get_one_conn-returns (down_at 131 ∷ []) (up_at 140) [] two_conns refl refl

get_one_conn-down_example :
    (pool' : Plain) × (get_one_conn (down_at 131 ∷ down_at 132 ∷ down_at 133 ∷ []) two_conns
      ≡ looping pool')
    × (pool'.slq_list ≡ [])
unfolding ◌-ℤ◌
get_one_conn-down_example =
    get_one_conn-down plain_queue-LawfulQueue (down_at 131 ∷ down_at 132 ∷ down_at 133 ∷ [])
      two_conns refl (both_old, (both_old, (both_old, tt)))
  where
    both_old : (false ≡ false) × ((true ≡ true) × ((true ≡ true) × Unit {0}))
    both_old = (refl, (refl, (refl, tt)))

un_init-closes_example :
    ((mysql_connection_pool_un_init two_conns).0 ≡ two_conns.slq_list)
    × ((mysql_connection_pool_un_init two_conns).1.slq_list ≡ [])
    × ((mysql_connection_pool_un_init two_conns).1.enabled ≡ false)
un_init-closes_example = un_init-closes plain_queue-LawfulQueue two_conns refl

abbrev init_two : (meets : ℕ → Round) → Option (ℤ × Plain)
init_two meets =
    mysql_connection_pool_init (codes "127.0.0.1") (codes "3306") (codes "root") (codes "secret")
      (codes "app") (codes "30") (codes "2") meets not_yet

init-failed_example :
    (pool' : Plain) × (init_two (up_to 1) ≡ some (err_database_connect_fail, pool'))
    × (pool'.slq_list ≡ blocks_of (up_to 1) 1 0)
    × (mysql_connection_pool_un_init pool' ≡ ([], pool'))
    × (get_one_conn [] pool' ≡ null)
unfolding atoi atoi_value
init-failed_example =
    init-failed plain_queue-LawfulQueue (codes "127.0.0.1") (codes "3306") (codes "root")
      (codes "secret") (codes "app") (codes "30") (codes "2") (up_to 1) not_yet 1 (omega arith)
      (omega arith) (omega arith) (omega arith) refl (omega arith) (λ j h. lt→ltb j 1 h) refl []

abbrev ready : Plain
ready = record {
  sql_c = record {
    ip = codes "127.0.0.1";
    port = 3306;
    account = codes "root";
    password = codes "secret";
    database_name = codes "app";
    connection_timeout = pos 30;
    connect_count = pos 2;
  };
  slq_list = blocks_of (up_to 2) 2 0;
  enabled = true;
}

-- One thread has taken the first block.
abbrev one_lent : Lending (plain_queue {A = MysqlBlock})
one_lent = record {
  pool = record ready { slq_list = blocks_of (up_to 2) 1 1 };
  held = blocks_of (up_to 2) 1 0;
}

init-Reach-IsLent_example : IsLent one_lent.pool.slq_list one_lent.held
unfolding mysql_connection_pool_init atoi atoi_value ◌-ℤ◌
init-Reach-IsLent_example =
    init-Reach-IsLent plain_queue-LawfulQueue (codes "127.0.0.1") (codes "3306") (codes "root")
      (codes "secret") (codes "app") (codes "30") (codes "2") (up_to 2) not_yet ready one_lent refl
      (λ i j h. omega arith)
      (later here
        (take_one (up_at 110) (connected_block (up_to 2 0) 1000) one_lent.pool refl refl refl))
