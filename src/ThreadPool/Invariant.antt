-- ===== src/ThreadPool/Invariant.antt =====
-- What holds between the steps of cFrameworkToServer/utils/thread_pool.c: the count of the threads, and
-- who may sleep or has quit.
use c_framework_to_server.Base.{
  ℕ, ◌+◌, ◌≤◌, ◌<◌, ◌≡◌, refl, ap, true, false, some, List, [], ◌∷◌, length, get_elem?, set,
  length-append, arith, if◌then◌else◌, ◌⊎◌, inl, inr,
}
use c_framework_to_server.Queue.{Queue, LawfulQueue}
use c_framework_to_server.ThreadPool.{
  Task, ThreadPool, shutting, is_immediate, Worker, ready, asleep, working, begin_destroy,
  all_succeed, wake_all,
}
use c_framework_to_server.ThreadPool.Steps.{
  System, Event, Signalled, one, nobody, WorkerStep, turn, done, wakes, Step, work, add, refused,
  destroy, join, end, Started, created, Run, start, later,
}
use c_framework_to_server.ThreadPool.Moves.{
  waiting, Turned, sleeps, quits, takes, worker_turn-Turned, threadpool_add-accepted,
  threadpool_add-refused,
}
use c_framework_to_server.ThreadPool.Counts.{
  total, if_alive, if_gone, if_asleep, if_ready, total-set, total-replicate, total-replicate_zero,
  total-wake_all, total-wake_all_same, total_ge, no_sleeper,
}

module _ {q : Queue Task} (lawful : LawfulQueue q) where
  open lawful use {items, items_create, items_add_tail}

  pub record Inv (pool : ThreadPool q) (ws : List Worker) : Type 0 where
    pub counted : pool.thread_count ≡ total if_alive ws
    pub awake : (length (waiting lawful pool) ≤ total if_ready ws) ⊎ (total if_asleep ws ≡ 0)
    pub all_there : shutting pool.shutdown ≡ false → total if_gone ws ≡ 0
    pub all_awake : shutting pool.shutdown ≡ true → total if_asleep ws ≡ 0
    pub drained :
        is_immediate pool.shutdown ≡ false → 0 < total if_gone ws → length (waiting lawful pool) ≡ 0

  -- Any change of one worker, counted.
  record Changed (ws : List Worker) (i : ℕ) (w w' : Worker) : Type 0 where
    alive : total if_alive (set ws i w') + if_alive w ≡ total if_alive ws + if_alive w'
    left : total if_gone (set ws i w') + if_gone w ≡ total if_gone ws + if_gone w'
    sleeping : total if_asleep (set ws i w') + if_asleep w ≡ total if_asleep ws + if_asleep w'
    up : total if_ready (set ws i w') + if_ready w ≡ total if_ready ws + if_ready w'
    some_alive : if_alive w ≤ total if_alive ws
    some_up : if_ready w ≤ total if_ready ws

  changed : (ws : List Worker) (i : ℕ) (w w' : Worker) → get_elem? ws i ≡ some w → Changed ws i w w'
  changed ws i w w' at = record {
    alive = total-set if_alive ws i w w' at;
    left = total-set if_gone ws i w w' at;
    sleeping = total-set if_asleep ws i w w' at;
    up = total-set if_ready ws i w w' at;
    some_alive = total_ge if_alive ws i w at;
    some_up = total_ge if_ready ws i w at;
  }

  Turned-Inv :
      {pool pool' : ThreadPool q} {ws : List Worker} {i : ℕ} {w : Worker}
      → Turned lawful pool w pool'
      → Inv pool ws
      → Changed ws i ready w
      → Inv pool' (set ws i w)
  Turned-Inv (sleeps e u) inv c = record {
    counted = ground (arith, ap length e);
    awake = ground (arith, ap length e);
    all_there = λ x. ground (arith, ap length e);
    all_awake = λ x. ground (arith, ap length e);
    drained = λ x y. ground (arith, ap length e);
  }
  Turned-Inv (quits d e) inv c = record {
    counted = ground arith;
    awake = ground arith;
    all_there = λ x. ground arith;
    all_awake = λ x. ground arith;
    drained = λ x y. elim e [ inl now ↦ absurd (ground arith) | inr none ↦ ap length none ];
  }
  Turned-Inv (takes task rest slow e) inv c = record {
    counted = ground (arith, ap length e);
    awake = ground (arith, ap length e);
    all_there = λ x. ground (arith, ap length e);
    all_awake = λ x. ground (arith, ap length e);
    drained = λ x y. ground (arith, ap length e);
  }

  WorkerStep-Inv :
      {s t : System q} {e : Event} → WorkerStep s e t → Inv s.pool s.workers → Inv t.pool t.workers
  WorkerStep-Inv {s} (turn i w pool free at run) inv =
      Turned-Inv (worker_turn-Turned lawful s.pool w pool run) inv (changed s.workers i ready w at)
  WorkerStep-Inv {s} (done i task at) inv =
      let c = changed s.workers i (working task) ready at in
      record {
        counted = ground arith;
        awake = ground arith;
        all_there = λ x. ground arith;
        all_awake = λ x. ground arith;
        drained = λ x y. ground arith;
      }
  WorkerStep-Inv {s} (wakes i at) inv =
      let c = changed s.workers i asleep ready at in
      record {
        counted = ground arith;
        awake = ground arith;
        all_there = λ x. ground arith;
        all_awake = λ x. ground arith;
        drained = λ x y. ground arith;
      }

  add-Inv :
      {pool : ThreadPool q} {ws ws' : List Worker} (task : Task)
      → Signalled ws ws'
      → shutting pool.shutdown ≡ false
      → Inv pool ws
      → Inv (record pool { task_list = q.list_add_node_to_tail task pool.task_list }) ws'
  add-Inv {pool} {ws} task (one i at) up inv =
      let c = changed ws i asleep ready at in
      let longer = ap length (items_add_tail task pool.task_list) in
      let by_one = length-append (items pool.task_list) (task ∷ []) in
      record {
        counted = ground arith;
        awake = ground arith;
        all_there = λ x. ground arith;
        all_awake = λ x. ground arith;
        drained = λ x y. ground arith;
      }
  add-Inv {pool} {ws} task (nobody none) up inv =
      let no_one = no_sleeper ws none in
      record {
        counted = inv.counted;
        awake = inr no_one;
        all_there = inv.all_there;
        all_awake = inv.all_awake;
        drained = λ x y. ground arith;
      }

  begin_destroy-Inv :
      (flags : ℕ) (pool : ThreadPool q) (ws : List Worker)
      → Inv pool ws
      → Inv
          (begin_destroy all_succeed flags pool).2
          (if shutting pool.shutdown then ws else wake_all ws)
  begin_destroy-Inv flags pool ws inv =
      let alive = total-wake_all_same if_alive ws refl in
      let left = total-wake_all_same if_gone ws refl in
      let sleeping = total-wake_all ws in
      record {
        counted = ground arith;
        awake = ground arith;
        all_there = λ x. ground arith;
        all_awake = λ x. ground arith;
        drained = λ x y. ground arith;
      }

  Step-Inv : {s t : System q} {e : Event} → Step s e t → Inv s.pool s.workers → Inv t.pool t.workers
  Step-Inv (work st) inv = WorkerStep-Inv st inv
  Step-Inv {s} (add function argument pool ws free alive run signal) inv =
      let (up, same) = threadpool_add-accepted lawful function argument s.pool pool run in
      rw same (add-Inv _ signal up inv)
  Step-Inv {s} (refused function argument err pool free alive bad run) inv =
      rw (threadpool_add-refused lawful function argument err s.pool pool bad run) inv
  Step-Inv {s} (destroy flags free may) inv = begin_destroy-Inv flags s.pool s.workers inv
  Step-Inv (join i err at lt last) inv = inv
  Step-Inv (end i err at last) inv = inv

  Started-Inv : {n : ℕ} {s : System q} → Started n s → Inv s.pool s.workers
  Started-Inv {n} (created starts pool h) =
      let alive = total-replicate if_alive n refl in
      let left = total-replicate_zero if_gone n refl in
      let sleeping = total-replicate_zero if_asleep n refl in
      record {
        counted = ground arith;
        awake = inr sleeping;
        all_there = λ x. left;
        all_awake = λ x. sleeping;
        drained = λ x y. ground arith;
      }

  pub Run-Inv : {n : ℕ} {es : List Event} {s : System q} → Run n es s → Inv s.pool s.workers
  Run-Inv (start h) = Started-Inv h
  Run-Inv (later r st) = Step-Inv st (Run-Inv r)
