-- ===== src/ConnectionPool/Loop.antt =====
-- How long mysqlConnectionPool_GetOneConn of
-- cFrameworkToServer/utils/mysql_connection_pool.c loops.
use c_framework_to_server.Base.{
  ℕ, zero, suc, Bool, Option, none, if◌then◌else◌, ◌≡◌, refl, subst, ◌∙◌, true, false, some, List,
  [], ◌∷◌, ◌++◌, length, drop, All, Option-cases, Bool-cases, inl, inr, arith,
}
use c_framework_to_server.Base.Int.{ℤ}
use c_framework_to_server.Queue.{Queue, LawfulQueue, pop_head-cases}
use c_framework_to_server.ConnectionPool.{
  MysqlBlock, Round, Connections, Got, null, is_stale, connected_block, get_round, lent, looping,
  get_loop, get_one_conn,
}

module _ {q : Queue MysqlBlock} where
  connecting-get_round :
      (r : Round) (pool : Connections q)
      → r.connects ≡ true
      → (block : MysqlBlock) × ((get_round r pool).0 ≡ some block)
  connecting-get_round r pool up = elim (Option-cases (q.list_pop_node_from_head pool.slq_list)) [
    | inl e ↦ (connected_block r r.addr, ground arith)
    | inr ((block, rest), e) ↦ elim (Bool-cases (is_stale pool.sql_c.connection_timeout r block)) [
      | inl old ↦ (connected_block r block.addr, ground arith)
      | inr fresh ↦ (block, ground arith)
    ]
  ]

  connecting-get_loop :
      (before : List Round) (r : Round) (behind : List Round) (pool : Connections q)
      → r.connects ≡ true
      → (block : MysqlBlock) × (pool' : Connections q) × (get_loop (before ++ r ∷ behind) pool
          ≡ lent block pool')
  unfolding get_loop
  connecting-get_loop [] r behind pool up =
      let (block, e) = connecting-get_round r pool up in (block, (get_round r pool).1, ground arith)
  connecting-get_loop (r0 ∷ before) r behind pool up = elim (Option-cases (get_round r0 pool).0) [
    | inl e ↦
        let (block, pool', run) = connecting-get_loop before r behind (get_round r0 pool).1 up in
        (block, pool', ground arith)
    | inr (block, e) ↦ (block, (get_round r0 pool).1, ground arith)
  ]

  -- mysqlConnectionPool_GetOneConn returns a block as soon as the database can be reached: at the
  -- latest in the first round in which mysql_real_connect succeeds, whatever came before.
  pub get_one_conn-returns :
      (before : List Round) (r : Round) (behind : List Round) (pool : Connections q)
      → pool.enabled ≡ true
      → r.connects ≡ true
      → (block : MysqlBlock) × (pool' : Connections q) × (get_one_conn (before ++ r ∷ behind) pool
          ≡ lent block pool')
  get_one_conn-returns before r behind pool on up =
      let (block, pool', run) = connecting-get_loop before r behind pool up in
      (block, pool', ground arith)

-- No connection can be made in these rounds, and the pooled ones would be too old in each of them.
abbrev pub AllDown : (timeout : ℤ) → List Round → List MysqlBlock → Type 0
AllDown timeout rs waiting =
    All (λ r. (r.connects ≡ false) × All (λ block. is_stale timeout r block ≡ true) waiting) rs

AllDown-tail :
    (timeout : ℤ) (rs : List Round) (block : MysqlBlock) (waiting : List MysqlBlock)
    → AllDown timeout rs (block ∷ waiting)
    → AllDown timeout rs waiting
AllDown-tail timeout [] block waiting h = tt
AllDown-tail timeout (r ∷ rs) block waiting h =
    ((h.0.0, h.0.1.1), AllDown-tail timeout rs block waiting h.1)

drop_empty {ℓ} : {A : Type ℓ} (n : ℕ) → drop {A = A} n [] ≡ []
drop_empty zero = refl
drop_empty (suc n) = refl

-- The pool is on behind a call if it was on before.
abbrev pub StaysOn : {q : Queue MysqlBlock} → Connections q → Got q → Type 0
StaysOn pool null = Unit
StaysOn pool (lent block pool') = pool'.enabled ≡ pool.enabled
StaysOn pool (looping pool') = pool'.enabled ≡ pool.enabled

StaysOn-shift :
    {q : Queue MysqlBlock} (pool pool' : Connections q) (got : Got q)
    → pool'.enabled ≡ pool.enabled
    → StaysOn pool' got
    → StaysOn pool got
StaysOn-shift pool pool' null e h = tt
StaysOn-shift pool pool' (lent block last) e h = h ∙ e
StaysOn-shift pool pool' (looping last) e h = h ∙ e

get_round-enabled :
    {q : Queue MysqlBlock} (r : Round) (pool : Connections q)
    → (get_round r pool).1.enabled ≡ pool.enabled
get_round-enabled {q} r pool = elim (Option-cases (q.list_pop_node_from_head pool.slq_list)) [
  | inl e ↦ rw (get_round, e) refl
  | inr (x, e) ↦ rw (get_round, e) refl
]

StaysOn-round :
    {q : Queue MysqlBlock} (o : Option MysqlBlock) (pool pool' : Connections q) (rest : Got q)
    → pool'.enabled ≡ pool.enabled
    → StaysOn pool rest
    → StaysOn pool (elim o [ none ↦ rest | some block ↦ lent block pool' ])
StaysOn-round none pool pool' rest e h = h
StaysOn-round (some block) pool pool' rest e h = e

StaysOn-if :
    {q : Queue MysqlBlock} (on : Bool) (pool : Connections q) (got : Got q)
    → StaysOn pool got
    → StaysOn pool (if on then got else null)
StaysOn-if true pool got h = h
StaysOn-if false pool got h = tt

get_loop-StaysOn :
    {q : Queue MysqlBlock} (rs : List Round) (pool : Connections q)
    → StaysOn pool (get_loop rs pool)
unfolding get_loop
get_loop-StaysOn [] pool = refl
get_loop-StaysOn (r ∷ rs) pool =
    let pool' = (get_round r pool).1 in
    let same = get_round-enabled r pool in
    StaysOn-round (get_round r pool).0 pool pool' (get_loop rs pool') same
      (StaysOn-shift pool pool' (get_loop rs pool') same (get_loop-StaysOn rs pool'))

pub get_one_conn-StaysOn :
    {q : Queue MysqlBlock} (rs : List Round) (pool : Connections q)
    → StaysOn pool (get_one_conn rs pool)
get_one_conn-StaysOn rs pool =
    StaysOn-if pool.enabled pool (get_loop rs pool) (get_loop-StaysOn rs pool)

module _ {q : Queue MysqlBlock} (lawful : LawfulQueue q) where
  open lawful use {items}

  get_loop-down :
      (rs : List Round) (pool : Connections q)
      → AllDown pool.sql_c.connection_timeout rs (items pool.slq_list)
      → (pool' : Connections q) × (get_loop rs pool ≡ looping pool')
        × (items pool'.slq_list ≡ drop (length rs) (items pool.slq_list))
  unfolding get_loop
  get_loop-down [] pool h = (pool, refl, refl)
  get_loop-down (r ∷ rs) pool h = elim (pop_head-cases lawful pool.slq_list) [
    | inl (empty, none_there) ↦
        let (pool', run, left) = get_loop-down rs pool h.1 in
        (pool', ground arith, left ∙ rw none_there (drop_empty (length rs)))
    | inr (block, rest, popped, there) ↦
        let shorter : Connections q = record pool { slq_list = rest } in
        let h' : AllDown pool.sql_c.connection_timeout (r ∷ rs) (block ∷ items rest) =
          subst (AllDown pool.sql_c.connection_timeout (r ∷ rs)) there h in
        let (pool', run, left) =
          get_loop-down rs shorter
            (AllDown-tail pool.sql_c.connection_timeout rs block (items rest) h'.1) in
        let old = h'.0.1.0 in (pool', ground arith, rw there left)
  ]

  -- While the database is down and every pooled connection is already too old,
  -- mysqlConnectionPool_GetOneConn does not return: where mysql_real_connect fails in every round and
  -- the pooled connections are too old in all of them, the call is still in its loop, and has thrown
  -- away one pooled connection in each round.
  pub get_one_conn-down :
      (rs : List Round) (pool : Connections q)
      → pool.enabled ≡ true
      → AllDown pool.sql_c.connection_timeout rs (items pool.slq_list)
      → (pool' : Connections q) × (get_one_conn rs pool ≡ looping pool')
        × (items pool'.slq_list ≡ drop (length rs) (items pool.slq_list))
  get_one_conn-down rs pool on h =
      let (pool', run, left) = get_loop-down rs pool h in (pool', ground arith, left)
