-- ===== src/ConnectionPool.antt =====
-- The pool of database connections of cFrameworkToServer/utils/mysql_connection_pool.c. What
-- mysql_real_connect, malloc and time(NULL) give are arguments; the spin lock covers one call of the
-- list. `none` is undefined behaviour: a string that is too long for its array.
pub mod Loop
pub mod Lending
pub mod Setup
pub mod Tests
use c_framework_to_server.Base.{
  ℕ, zero, suc, ◌-◌, ◌%◌, ◌^◌, Bool, true, false, Option, none, some, List, [], ◌∷◌, if◌then◌else◌,
}
use c_framework_to_server.Base.Int.{ℤ, pos, negsuc, pos_part, ltb_ℤ, ◌-ℤ◌}
use c_framework_to_server.Memory.{◌>>=◌}
use c_framework_to_server.Text.{strcpy, atoi}
use c_framework_to_server.Errors.{err_database_connect_fail}
use c_framework_to_server.Queue.{Queue}

-- MysqlBlock at its address; `conn` is its own `sql` once it is connected, and NULL before.
pub record MysqlBlock : Type 0 where
  pub addr : ℕ
  pub connected : Bool
  pub last_use_time : ℕ

-- sqlConfig. `port` has the 16 bits of the short.
pub record SqlConfig : Type 0 where
  pub ip : List ℕ
  pub port : ℕ
  pub account : List ℕ
  pub password : List ℕ
  pub database_name : List ℕ
  pub connection_timeout : ℤ
  pub connect_count : ℤ

abbrev pub low16 : ℤ → ℕ
low16 (pos n) = n % 2 ^ 16
low16 (negsuc n) = 2 ^ 16 - 1 - n % 2 ^ 16

-- What one round of a loop meets: the time, the address that malloc gives, and whether
-- mysql_real_connect succeeds.
pub record Round : Type 0 where
  pub now : ℕ
  pub addr : ℕ
  pub connects : Bool

-- sqlC, slq_list and g_mysql_conn_enable.
pub record Connections (q : Queue MysqlBlock) : Type 0 where
  pub sql_c : SqlConfig
  pub slq_list : q.Lst
  pub enabled : Bool

abbrev pub connected_block : Round → (addr : ℕ) → MysqlBlock
connected_block r addr = record { addr = addr; connected = true; last_use_time = r.now % 2 ^ 32 }

-- mysqlReconnect: the block, or a code that is not 0.
abbrev pub mysql_reconnect : Round → (addr : ℕ) → Option MysqlBlock
mysql_reconnect r addr = if r.connects then some (connected_block r addr) else none

-- `(time(NULL) - block->lastUseTime) > sqlC.connectionTimeout`.
abbrev pub is_stale : (timeout : ℤ) → Round → MysqlBlock → Bool
is_stale timeout r block = ltb_ℤ timeout (pos r.now -ℤ pos block.last_use_time)

-- What a call of mysqlConnectionPool_GetOneConn comes to: NULL, a block, or it is still in its loop
-- behind the rounds given.
pub data Got (q : Queue MysqlBlock) : Type 0 where
  null : Got q
  lent : (block : MysqlBlock) → Connections q → Got q
  looping : Connections q → Got q

-- The loop of mysqlConnectionPoolUnInit: the blocks that it closes and frees.
unfoldable pub close_all : (q : Queue MysqlBlock) (fuel : ℕ) → q.Lst → List MysqlBlock × q.Lst
close_all q zero l = ([], l)
close_all q (suc f) l = elim (q.list_pop_node_from_head l) [
  | none ↦ ([], l)
  | some (block, rest) ↦ let (closed, l') = close_all q f rest in (block ∷ closed, l')
]

module _ {q : Queue MysqlBlock} where
  open q use {list_create, list_length, list_add_node_to_tail, list_pop_node_from_head}

  -- One round of the loop of mysqlConnectionPool_GetOneConn: the block that it returns, or none
  -- where it goes round again.
  abbrev pub get_round : Round → Connections q → Option MysqlBlock × Connections q
  get_round r pool = elim (list_pop_node_from_head pool.slq_list) [
    | none ↦ (mysql_reconnect r r.addr, pool)
    | some (block, rest) ↦ (
      if is_stale pool.sql_c.connection_timeout r block
          then mysql_reconnect r block.addr
          else some block,
      record pool { slq_list = rest },
    )
  ]

  unfoldable pub get_loop : List Round → Connections q → Got q
  get_loop [] pool = looping pool
  get_loop (r ∷ rs) pool =
      let rest = get_loop rs (get_round r pool).1 in
      elim (get_round r pool).0 [ none ↦ rest | some block ↦ lent block (get_round r pool).1 ]

  -- mysqlConnectionPool_GetOneConn.
  abbrev pub get_one_conn : List Round → Connections q → Got q
  get_one_conn rounds pool = if pool.enabled then get_loop rounds pool else null

  -- mysqlConnectionPool_FreeOneConn.
  abbrev pub free_one_conn : MysqlBlock → Connections q → Connections q
  free_one_conn block pool =
      if pool.enabled
      then record pool { slq_list = list_add_node_to_tail block pool.slq_list }
      else pool

  -- mysqlConnectionPoolUnInit, which returns 0: as many rounds as the list has elements.
  abbrev pub mysql_connection_pool_un_init : Connections q → List MysqlBlock × Connections q
  mysql_connection_pool_un_init pool =
      let (closed, l) = close_all q (list_length pool.slq_list) pool.slq_list in
      if pool.enabled then (closed, record pool { slq_list = l; enabled = false }) else ([], pool)

  -- The loop of mysqlConnectionPoolInit: `count` rounds from the i-th on.
  unfoldable pub connect_loop :
      (meets : ℕ → Round) (count i : ℕ) → Connections q → ℤ × Connections q
  connect_loop meets zero i pool = (pos 0, record pool { enabled = true })
  connect_loop meets (suc n) i pool = elim (mysql_reconnect (meets i) (meets i).addr) [
    | none ↦ (err_database_connect_fail, (mysql_connection_pool_un_init pool).1)
    | some block ↦
        connect_loop meets n (suc i)
          (record pool { slq_list = list_add_node_to_tail block pool.slq_list })
  ]

  -- mysqlConnectionPoolInit.
  unfoldable pub mysql_connection_pool_init :
      (ip port account password database_name timeout count : List ℕ) (meets : ℕ → Round)
      → Connections q
      → Option (ℤ × Connections q)
  unfolding connect_loop
  mysql_connection_pool_init ip port account password database_name timeout count meets pool = do
    ip' ← strcpy 16 ip
    account' ← strcpy 32 account
    password' ← strcpy 32 password
    database_name' ← strcpy 32 database_name
    let sql_c : SqlConfig = record {
      ip = ip';
      port = low16 (atoi port);
      account = account';
      password = password';
      database_name = database_name';
      connection_timeout = atoi timeout;
      connect_count = atoi count;
    }
    some (
        connect_loop meets (pos_part (atoi count)) 0
          (record pool { sql_c = sql_c; slq_list = list_create }))
