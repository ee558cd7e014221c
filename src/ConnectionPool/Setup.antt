-- ===== src/ConnectionPool/Setup.antt =====
-- mysqlConnectionPoolInit and mysqlConnectionPoolUnInit of
-- cFrameworkToServer/utils/mysql_connection_pool.c.
use c_framework_to_server.Base.{
  ℕ, zero, suc, ◌+◌, ◌≤◌, ◌<◌, ◌≡◌, refl, sym, ap, ◌∙◌, true, false, some, List, [], ◌∷◌, ◌++◌,
  length, arith, Bool-cases, inl, inr, ◌==◌,
}
use mathlib.Core.List.{append_assoc, append-nil}
use c_framework_to_server.Base.Int.{ℤ, pos, pos_part}
use c_framework_to_server.Text.{atoi}
use c_framework_to_server.Errors.{err_database_connect_fail}
use c_framework_to_server.Queue.{Queue, LawfulQueue, pop_head-cases}
use c_framework_to_server.ConnectionPool.{
  MysqlBlock, SqlConfig, Round, Connections, low16, connected_block, close_all,
  mysql_connection_pool_un_init, connect_loop, mysql_connection_pool_init, get_one_conn, null,
}
use c_framework_to_server.ConnectionPool.Lending.{
  occurrences, AllConnected, IsLent, Lending, Reach, Reach-IsLent,
}

-- The blocks of n rounds from the i-th on.
abbrev pub blocks_of : (meets : ℕ → Round) (n i : ℕ) → List MysqlBlock
blocks_of meets zero i = []
blocks_of meets (suc n) i = connected_block (meets i) (meets i).addr ∷ blocks_of meets n (suc i)

blocks_of-connected : (meets : ℕ → Round) (n i : ℕ) → AllConnected (blocks_of meets n i)
blocks_of-connected meets zero i = tt
blocks_of-connected meets (suc n) i = (refl, blocks_of-connected meets n (suc i))

-- malloc never gives an address twice while both blocks live.
abbrev pub Distinct : (ℕ → Round) → Type 0
Distinct meets = (i j : ℕ) → (meets i).addr ≡ (meets j).addr → i ≡ j

not_later :
    (meets : ℕ → Round) (n i j : ℕ)
    → Distinct meets
    → j < i
    → occurrences (meets j).addr (blocks_of meets n i) ≡ 0
not_later meets zero i j apart h = refl
not_later meets (suc n) i j apart h = ground (arith, not_later meets n (suc i) j, apart i j)

blocks_of-apart :
    (meets : ℕ → Round) (n i : ℕ)
    → Distinct meets
    → (a : ℕ) → occurrences a (blocks_of meets n i) ≤ 1
blocks_of-apart meets zero i apart a = omega arith
blocks_of-apart meets (suc n) i apart a = elim (Bool-cases ((meets i).addr == a)) [
  | inl e ↦
      let same : (meets i).addr ≡ a = ground arith in
      let none_left : occurrences a (blocks_of meets n (suc i)) ≡ 0 =
        ap (λ x. occurrences x (blocks_of meets n (suc i))) (sym same)
        ∙ not_later meets n (suc i) i apart (omega arith) in
      ground arith
  | inr ne ↦ ground (arith, blocks_of-apart meets n (suc i) apart a)
]

empty_list : (bs : List MysqlBlock) → length bs ≡ 0 → bs ≡ []
empty_list [] h = refl
empty_list (b ∷ bs) h = absurd (omega arith)

-- sqlC, where the strings fit.
abbrev config_of : (ip port account password database_name timeout count : List ℕ) → SqlConfig
config_of ip port account password database_name timeout count = record {
  ip = ip;
  port = low16 (atoi port);
  account = account;
  password = password;
  database_name = database_name;
  connection_timeout = atoi timeout;
  connect_count = atoi count;
}

module _ {q : Queue MysqlBlock} (lawful : LawfulQueue q) where
  open lawful use {items, items_create, items_add_tail, length_items}

  -- A loop that ends with 0 has put one connected block for each round behind the others.
  connect_loop-succeeded :
      (meets : ℕ → Round) (n i : ℕ) (pool pool' : Connections q)
      → connect_loop meets n i pool ≡ (pos 0, pool')
      → (items pool'.slq_list ≡ items pool.slq_list ++ blocks_of meets n i)
  unfolding connect_loop
  connect_loop-succeeded meets zero i pool pool' h =
      let same : record pool { enabled = true } ≡ pool' = ground arith in
      ap (λ (x : Connections q). items x.slq_list) (sym same)
      ∙ sym (append-nil (items pool.slq_list))
  connect_loop-succeeded meets (suc n) i pool pool' h = elim (Bool-cases (meets i).connects) [
    | inl up ↦
        let block = connected_block (meets i) (meets i).addr in
        let pool1 : Connections q = record pool {
          slq_list = q.list_add_node_to_tail block pool.slq_list;
        } in
        let run : connect_loop meets n (suc i) pool1 ≡ (pos 0, pool') = ground arith in
        connect_loop-succeeded meets n (suc i) pool1 pool' run
        ∙ ap (λ bs. bs ++ blocks_of meets n (suc i)) (items_add_tail block pool.slq_list)
        ∙ append_assoc (items pool.slq_list) (block ∷ []) (blocks_of meets n (suc i))
    | inr down ↦ absurd (ground arith)
  ]

  connect_loop-failed :
      (meets : ℕ → Round) (n i k : ℕ) (pool : Connections q)
      → pool.enabled ≡ false
      → k < n
      → ((j : ℕ) → j < k → (meets (i + j)).connects ≡ true)
      → (meets (i + k)).connects ≡ false
      → (pool' : Connections q) × (connect_loop meets n i pool ≡ (err_database_connect_fail, pool'))
        × (pool'.enabled ≡ false)
        × (items pool'.slq_list ≡ items pool.slq_list ++ blocks_of meets k i)
  unfolding connect_loop
  connect_loop-failed meets zero i k pool off lt up down = absurd (omega arith)
  connect_loop-failed meets (suc n) i zero pool off lt up down =
      let down' : (meets i).connects ≡ false = ap (λ j. (meets j).connects) (sym i_zero) ∙ down in
      (pool, ground arith, off, sym (append-nil (items pool.slq_list)))
    where
      i_zero : i + 0 ≡ i
      i_zero = omega arith
  connect_loop-failed meets (suc n) i (suc k) pool off lt up down =
      let block = connected_block (meets i) (meets i).addr in
      let pool1 : Connections q = record pool {
        slq_list = q.list_add_node_to_tail block pool.slq_list;
      } in
      let first : (meets i).connects ≡ true =
        ap (λ j. (meets j).connects) (shift 0 (omega arith)) ∙ up 0 (omega arith) in
      let (pool', run, off', left) =
        connect_loop-failed meets n (suc i) k pool1 off (omega arith)
          (λ j less. ap (λ x. (meets x).connects) (shift' j) ∙ up (suc j) (omega arith))
          (ap (λ x. (meets x).connects) (shift' k) ∙ down) in
      (
        pool',
        ground arith,
        off',
        left
            ∙ ap (λ bs. bs ++ blocks_of meets k (suc i)) (items_add_tail block pool.slq_list)
            ∙ append_assoc (items pool.slq_list) (block ∷ []) (blocks_of meets k (suc i)),
      )
    where
      shift : (j : ℕ) → j ≡ 0 → i ≡ i + j
      shift j e = omega arith

      shift' : (j : ℕ) → suc i + j ≡ i + suc j
      shift' j = omega arith

  close_all-items :
      (f : ℕ) (l : q.Lst)
      → f ≡ length (items l)
      → ((close_all q f l).0 ≡ items l) × (items (close_all q f l).1 ≡ [])
  unfolding close_all
  close_all-items zero l h =
      let none_there = empty_list (items l) (sym h) in (sym none_there, none_there)
  close_all-items (suc f) l h = elim (pop_head-cases lawful l) [
    | inl (empty, none_there) ↦ absurd (ground (arith, ap length none_there))
    | inr (block, rest, popped, there) ↦
        let longer : length (items l) ≡ suc (length (items rest)) = ap length there in
        let (closed, left) = close_all-items f rest (omega arith) in
        let step : (close_all q (suc f) l).0 ≡ block ∷ (close_all q f rest).0 = ground arith in
        let step' : (close_all q (suc f) l).1 ≡ (close_all q f rest).1 = ground arith in
        (step ∙ ap (◌∷◌ block) closed ∙ sym there, ap items step' ∙ left)
  ]

  -- mysqlConnectionPoolUnInit of a pool in use closes each pooled connection once, in the order of
  -- the list, and leaves the list empty and the pool out of use.
  pub un_init-closes :
      (pool : Connections q)
      → pool.enabled ≡ true
      → let (closed, pool') = mysql_connection_pool_un_init pool in
        (closed ≡ items pool.slq_list) × (items pool'.slq_list ≡ []) × (pool'.enabled ≡ false)
  un_init-closes pool on =
      let (closed, left) =
        close_all-items (q.list_length pool.slq_list) pool.slq_list (length_items pool.slq_list) in
      let all = close_all q (q.list_length pool.slq_list) pool.slq_list in
      let first : (mysql_connection_pool_un_init pool).0 ≡ all.0 = ground arith in
      let second : (mysql_connection_pool_un_init pool).1.slq_list ≡ all.1 = ground arith in
      (first ∙ closed, ap items second ∙ left, ground arith)

  -- Behind the copies of the strings, mysqlConnectionPoolInit is its loop on an empty list.
  init-connect_loop :
      (ip port account password database_name timeout count : List ℕ) (meets : ℕ → Round)
      → (pool : Connections q) (out : ℤ × Connections q)
      → mysql_connection_pool_init ip port account password database_name timeout count meets pool
        ≡ some out
      → (sql_c : SqlConfig) × (connect_loop meets
            (pos_part (atoi count))
            0
            (record pool { sql_c = sql_c; slq_list = q.list_create })
          ≡ out)
  unfolding mysql_connection_pool_init
  init-connect_loop ip port account password database_name timeout count meets pool out h =
      (config_of ip port account password database_name timeout count, ground arith)

  -- From mysqlConnectionPoolInit on, however many threads take and give back connections, no block
  -- is with two threads or with a thread and in the pool, and every block has a connection. malloc
  -- gives no address twice while a block has it.
  pub init-Reach-IsLent :
      (ip port account password database_name timeout count : List ℕ) (meets : ℕ → Round)
      → (pool pool' : Connections q) (t : Lending q)
      → mysql_connection_pool_init ip port account password database_name timeout count meets pool
        ≡ some (pos 0, pool')
      → Distinct meets
      → Reach lawful (record { pool = pool'; held = [] }) t
      → IsLent (items t.pool.slq_list) t.held
  init-Reach-IsLent ip port account password database_name timeout count meets pool pool' t h apart
        r =
      let (sql_c, run) =
        init-connect_loop ip port account password database_name timeout count meets pool
          (pos 0, pool') h in
      let n = pos_part (atoi count) in
      let there : items pool'.slq_list ≡ blocks_of meets n 0 =
        connect_loop-succeeded meets n 0 _ pool' run
        ∙ ap (λ bs. bs ++ blocks_of meets n 0) items_create in
      Reach-IsLent lawful r (
        rw there (record {
          apart = λ a. omega (arith, blocks_of-apart meets n 0 apart a);
          pooled = blocks_of-connected meets n 0;
          in_use = tt;
        }))

  -- Where a connection cannot be made in mysqlConnectionPoolInit, those made before it stay open for
  -- good: the code is ERR_DATABASE_CONNECT_FAIL, they stand in the list, mysqlConnectionPoolUnInit
  -- closes none of them, and mysqlConnectionPool_GetOneConn returns NULL.
  pub init-failed :
      (ip port account password database_name timeout count : List ℕ) (meets : ℕ → Round)
      → (pool : Connections q) (k : ℕ) → length ip < 16
      → length account < 32
      → length password < 32
      → length database_name < 32
      → pool.enabled ≡ false
      → k < pos_part (atoi count)
      → ((j : ℕ) → j < k → (meets j).connects ≡ true)
      → (meets k).connects ≡ false
      → (rounds : List Round)
      → (pool' : Connections q) × (mysql_connection_pool_init ip port account password database_name
            timeout count meets pool
          ≡ some (err_database_connect_fail, pool'))
        × (items pool'.slq_list ≡ blocks_of meets k 0)
        × (mysql_connection_pool_un_init pool' ≡ ([], pool'))
        × (get_one_conn rounds pool' ≡ null)
  unfolding mysql_connection_pool_init
  init-failed ip port account password database_name timeout count meets pool k h1 h2 h3 h4 off lt
        up down rounds =
      let pool0 : Connections q = record pool {
        sql_c = config_of ip port account password database_name timeout count;
        slq_list = q.list_create;
      } in
      let (pool', run, off', left) =
        connect_loop-failed meets (pos_part (atoi count)) 0 k pool0 off lt
          (λ j less. ap (λ x. (meets x).connects) (no_shift j) ∙ up j less)
          (ap (λ x. (meets x).connects) (no_shift k) ∙ down) in
      (
        pool',
        ground arith,
        left ∙ ap (λ bs. bs ++ blocks_of meets k 0) items_create,
        ground arith,
        ground arith,
      )
    where
      no_shift : (j : ℕ) → 0 + j ≡ j
      no_shift j = omega arith
