-- ===== src/ThreadPool/Moves.antt =====
-- What threadpool_add and a worker of cFrameworkToServer/utils/thread_pool.c do to the sequence of the
-- tasks that wait.
use c_framework_to_server.Base.{
  ℕ, ◌-◌, ◌≡◌, refl, sym, ap, subst, ◌∙◌, ◌≢◌, true, false, some, List, [], ◌∷◌, length, ◌==◌, inl,
  inr, Bool-cases, arith, ◌⊎◌,
}
use c_framework_to_server.Base.Int.{ℤ, pos}
use c_framework_to_server.Queue.{Queue, LawfulQueue, pop_head-cases}
use c_framework_to_server.ThreadPool.{
  Shutdown, Task, ThreadPool, all_succeed, shutting, threadpool_add, Worker, asleep, working, gone,
  is_immediate, worker_turn, begin_destroy,
}

module _ {q : Queue Task} (lawful : LawfulQueue q) where
  open lawful use {items, length_items, items_add_tail, items_pop_head}

  abbrev pub waiting : ThreadPool q → List Task
  waiting pool = items pool.task_list

  -- The three outcomes of a worker's turn.
  pub data Turned (pool : ThreadPool q) : Worker → ThreadPool q → Type 0 where
    sleeps : waiting pool ≡ [] → shutting pool.shutdown ≡ false → Turned pool asleep pool
    quits :
        shutting pool.shutdown ≡ true
        → (is_immediate pool.shutdown ≡ true) ⊎ (waiting pool ≡ [])
        → Turned pool gone (record pool { thread_count = pool.thread_count - 1 })
    takes :
        (task : Task) (rest : q.Lst)
        → is_immediate pool.shutdown ≡ false
        → waiting pool ≡ task ∷ items rest
        → Turned pool (working task) (record pool { task_list = rest })

  empty : (l : q.Lst) → (q.list_length l == 0) ≡ true → items l ≡ []
  empty l h = none_of (items l) (ap (λ n. n == 0) (sym (length_items l)) ∙ h)
    where
      none_of : (ts : List Task) → (length ts == 0) ≡ true → ts ≡ []
      none_of [] e = refl
      none_of (t ∷ ts) e = absurd (ground arith)

  nonempty : (l : q.Lst) → (q.list_length l == 0) ≡ false → items l ≢ []
  nonempty l h e = ground (arith, length_items l, ap length e)

  popped :
      (l : q.Lst)
      → items l ≢ []
      → (task : Task) × (rest : q.Lst) × (q.list_pop_node_from_head l ≡ some (task, rest))
        × (items l ≡ task ∷ items rest)
  popped l h = elim (pop_head-cases lawful l) [
    | inl (none_there, e) ↦ absurd (h e)
    | inr (task, rest, run, head) ↦ (task, rest, run, head)
  ]

  not_immediate : (d : Shutdown) → shutting d ≡ false → is_immediate d ≡ false
  not_immediate Shutdown.running h = refl
  not_immediate Shutdown.immediate_shutdown h = absurd (ground arith)
  not_immediate Shutdown.graceful_shutdown h = refl

  -- A worker's turn never meets a NULL task.
  pub worker_turn_total :
      (pool : ThreadPool q)
      → (w : Worker) × (pool' : ThreadPool q) × (worker_turn pool ≡ some (w, pool'))
        × Turned pool w pool'
  worker_turn_total pool = elim (Bool-cases (shutting pool.shutdown)) [
    | inl down ↦ elim (Bool-cases (is_immediate pool.shutdown)) [
      | inl now ↦ (_, _, ground arith, quits down (inl now))
      | inr later ↦ elim (Bool-cases (q.list_length pool.task_list == 0)) [
        | inl e ↦ (_, _, ground arith, quits down (inr (empty pool.task_list e)))
        | inr e ↦
            let (task, rest, run, head) = popped pool.task_list (nonempty pool.task_list e) in
            (_, _, ground arith, takes task rest later head)
      ]
    ]
    | inr up ↦ elim (Bool-cases (q.list_length pool.task_list == 0)) [
      | inl e ↦ (_, _, ground arith, sleeps (empty pool.task_list e) up)
      | inr e ↦
          let (task, rest, run, head) = popped pool.task_list (nonempty pool.task_list e) in
          (_, _, ground arith, takes task rest (not_immediate pool.shutdown up) head)
    ]
  ]

  pub worker_turn-Turned :
      (pool : ThreadPool q) (w : Worker) (pool' : ThreadPool q)
      → worker_turn pool ≡ some (w, pool')
      → Turned pool w pool'
  worker_turn-Turned pool w pool' h =
      let (w1, pool1, run, turned) = worker_turn_total pool in
      let e : w1 ≡ w = cc in
      let e' : pool1 ≡ pool' = cc in
      subst (λ x. Turned pool x pool') e (subst (λ x. Turned pool w1 x) e' turned)

  -- A call of threadpool_add that returns 0 has put its task behind the others.
  pub threadpool_add-accepted :
      (function argument : ℕ) (pool pool' : ThreadPool q)
      → threadpool_add all_succeed function argument (some pool) ≡ (pos 0, some pool')
      → (shutting pool.shutdown ≡ false)
        × (pool' ≡ record pool {
          task_list =
              q.list_add_node_to_tail
                (record { function = function; argument = argument })
                pool.task_list;
        })
  threadpool_add-accepted function argument pool pool' h = ground arith

  pub threadpool_add-refused :
      (function argument : ℕ) (err : ℤ) (pool pool' : ThreadPool q)
      → err ≢ pos 0
      → threadpool_add all_succeed function argument (some pool) ≡ (err, some pool')
      → pool' ≡ pool
  threadpool_add-refused function argument err pool pool' ne h = ground arith

  pub waiting-begin_destroy :
      (flags : ℕ) (pool : ThreadPool q)
      → waiting (begin_destroy all_succeed flags pool).2 ≡ waiting pool
  waiting-begin_destroy flags pool = ground arith
