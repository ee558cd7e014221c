-- ===== src/ConnectionPool/Lending.antt =====
-- Who holds the connections of cFrameworkToServer/utils/mysql_connection_pool.c: threads take and give
-- back blocks in any order.
use c_framework_to_server.Base.{
  ℕ, ◌+◌, ◌≤◌, ◌≡◌, refl, ap, ◌∙◌, subst, true, none, some, List, [], ◌∷◌, ◌++◌, All, ◌==◌,
  if◌then◌else◌, arith, inl, inr, Bool-cases,
}
use c_framework_to_server.Queue.{Queue, LawfulQueue, pop_head-cases}
use c_framework_to_server.ConnectionPool.{
  MysqlBlock, Round, Connections, connected_block, get_round, free_one_conn,
}

-- How often an address stands in a list of blocks.
abbrev pub occurrences : ℕ → List MysqlBlock → ℕ
occurrences a [] = 0
occurrences a (b ∷ bs) = (if b.addr == a then 1 else 0) + occurrences a bs

pub occurrences-append :
    (a : ℕ) (bs cs : List MysqlBlock)
    → occurrences a (bs ++ cs) ≡ occurrences a bs + occurrences a cs
occurrences-append a [] cs = omega arith
occurrences-append a (b ∷ bs) cs = omega (arith, occurrences-append a bs cs)

abbrev pub AllConnected : List MysqlBlock → Type 0
AllConnected bs = All (λ b. b.connected ≡ true) bs

pub AllConnected-append :
    (bs cs : List MysqlBlock) → AllConnected bs → AllConnected cs → AllConnected (bs ++ cs)
AllConnected-append [] cs h k = k
AllConnected-append (b ∷ bs) cs h k = (h.0, AllConnected-append bs cs h.1 k)

AllConnected-parts :
    (bs cs : List MysqlBlock) → AllConnected (bs ++ cs) → AllConnected bs × AllConnected cs
AllConnected-parts [] cs h = (tt, h)
AllConnected-parts (b ∷ bs) cs h =
    let (front, back) = AllConnected-parts bs cs h.1 in ((h.0, front), back)

-- No block stands twice among those that wait and those that are in use, and all are connected.
pub record IsLent (waiting held : List MysqlBlock) : Type 0 where
  pub apart : (a : ℕ) → occurrences a waiting + occurrences a held ≤ 1
  pub pooled : AllConnected waiting
  pub in_use : AllConnected held

-- The pool and the blocks that threads hold.
pub record Lending (q : Queue MysqlBlock) : Type 0 where
  pub pool : Connections q
  pub held : List MysqlBlock

module _ {q : Queue MysqlBlock} (lawful : LawfulQueue q) where
  open lawful use {items, items_add_tail}

  -- malloc gives an address that no block has.
  abbrev pub IsFresh : ℕ → Lending q → Type 0
  IsFresh a s = occurrences a (items s.pool.slq_list) + occurrences a s.held ≡ 0

  -- One round of the loop of a thread that asks for a connection, and a thread that gives one back.
  pub data Step (s : Lending q) : Lending q → Type 0 where
    take_one :
        (r : Round) (block : MysqlBlock) (pool : Connections q)
        → s.pool.enabled ≡ true
        → IsFresh r.addr s
        → get_round r s.pool ≡ (some block, pool)
        → Step s (record { pool = pool; held = block ∷ s.held })
    go_round :
        (r : Round) (pool : Connections q)
        → s.pool.enabled ≡ true
        → IsFresh r.addr s
        → get_round r s.pool ≡ (none, pool)
        → Step s (record { pool = pool; held = s.held })
    give_back :
        (front : List MysqlBlock) (block : MysqlBlock) (back : List MysqlBlock)
        → s.held ≡ front ++ block ∷ back
        → Step s (record { pool = free_one_conn block s.pool; held = front ++ back })

  pub data Reach (s : Lending q) : Lending q → Type 0 where
    here : Reach s s
    later : {t u : Lending q} → Reach s t → Step t u → Reach s u

  take-IsLent :
      (r : Round) (s : Lending q) (block : MysqlBlock) (pool : Connections q)
      → IsFresh r.addr s
      → get_round r s.pool ≡ (some block, pool)
      → IsLent (items s.pool.slq_list) s.held
      → IsLent (items pool.slq_list) (block ∷ s.held)
  take-IsLent r s block pool new run h = elim (pop_head-cases lawful s.pool.slq_list) [
    | inl (empty, none_there) ↦
        let made : block ≡ connected_block r r.addr = ground arith in
        let same : pool ≡ s.pool = ground arith in
        rw (same, made)
          (record {
            apart = λ a. ground (arith, h.apart a);
            pooled = h.pooled;
            in_use = (refl, h.in_use);
          })
    | inr (first, rest, popped, there) ↦
        let left : pool ≡ record s.pool { slq_list = rest } = ground arith in
        let at : block.addr ≡ first.addr = ground arith in
        let ok : AllConnected (first ∷ items rest) = subst AllConnected there h.pooled in
        let up : first.connected ≡ true = ok.0 in
        let block_up : block.connected ≡ true = ground arith in
        rw left (record {
          apart = λ a. ground (arith, h.apart a, ap (occurrences a) there);
          pooled = ok.1;
          in_use = (block_up, h.in_use);
        })
  ]

  round-IsLent :
      (r : Round) (s : Lending q) (pool : Connections q)
      → get_round r s.pool ≡ (none, pool)
      → IsLent (items s.pool.slq_list) s.held
      → IsLent (items pool.slq_list) s.held
  round-IsLent r s pool run h = elim (pop_head-cases lawful s.pool.slq_list) [
    | inl (empty, none_there) ↦ let same : pool ≡ s.pool = ground arith in rw same h
    | inr (first, rest, popped, there) ↦
        let left : pool ≡ record s.pool { slq_list = rest } = ground arith in
        let ok : AllConnected (first ∷ items rest) = subst AllConnected there h.pooled in
        rw left (record {
          apart = λ a. ground (arith, h.apart a, ap (occurrences a) there);
          pooled = ok.1;
          in_use = h.in_use;
        })
  ]

  give-IsLent :
      (front : List MysqlBlock) (block : MysqlBlock) (back : List MysqlBlock) (s : Lending q)
      → s.held ≡ front ++ block ∷ back
      → IsLent (items s.pool.slq_list) s.held
      → IsLent (items (free_one_conn block s.pool).slq_list) (front ++ back)
  give-IsLent front block back s split h =
      let (ok, ok') = AllConnected-parts front (block ∷ back) (subst AllConnected split h.in_use) in
      let before =
        λ (a : ℕ). ap (occurrences a) split ∙ occurrences-append a front (block ∷ back) in
      let now = λ (a : ℕ). occurrences-append a front back in
      elim (Bool-cases s.pool.enabled) [
        | inl on ↦
            let put : (free_one_conn block s.pool).slq_list
                ≡ q.list_add_node_to_tail block s.pool.slq_list =
              ground arith in
            rw (put, items_add_tail block s.pool.slq_list)
              (record {
                apart = λ a. ground (
                  arith,
                  h.apart a,
                  before a,
                  now a,
                  occurrences-append a (items s.pool.slq_list) (block ∷ []),
                );
                pooled =
                    AllConnected-append (items s.pool.slq_list) (block ∷ []) h.pooled (ok'.0, tt);
                in_use = AllConnected-append front back ok ok'.1;
              })
        | inr off ↦
            let same : (free_one_conn block s.pool).slq_list ≡ s.pool.slq_list = ground arith in
            rw same (record {
              apart = λ a. ground (arith, h.apart a, before a, now a);
              pooled = h.pooled;
              in_use = AllConnected-append front back ok ok'.1;
            })
      ]

  Step-IsLent :
      {s t : Lending q}
      → Step s t
      → IsLent (items s.pool.slq_list) s.held
      → IsLent (items t.pool.slq_list) t.held
  Step-IsLent {s} (take_one r block pool on new run) h = take-IsLent r s block pool new run h
  Step-IsLent {s} (go_round r pool on new run) h = round-IsLent r s pool run h
  Step-IsLent {s} (give_back front block back split) h = give-IsLent front block back s split h

  pub Reach-IsLent :
      {s t : Lending q}
      → Reach s t
      → IsLent (items s.pool.slq_list) s.held
      → IsLent (items t.pool.slq_list) t.held
  Reach-IsLent here h = h
  Reach-IsLent (later r st) h = Step-IsLent st (Reach-IsLent r h)
