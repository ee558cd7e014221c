-- ===== src/ThreadPool/Steps.antt =====
-- The threads of cFrameworkToServer/utils/thread_pool.c in any order: the workers, the threads that
-- add tasks, and one that destroys the pool. The calls of pthread succeed, as they do on mutexes and
-- conditions that were set up.
use c_framework_to_server.Base.{
  ℕ, ◌+◌, ◌<◌, ◌≡◌, ◌≢◌, Bool, true, false, some, List, [], ◌∷◌, ◌++◌, get_elem?, set,
  if◌then◌else◌, replicate,
}
use c_framework_to_server.Base.Int.{ℤ, pos}
use c_framework_to_server.Queue.{Queue}
use c_framework_to_server.ThreadPool.{
  Task, ThreadPool, all_succeed, shutting, threadpool_create, threadpool_add, Worker, ready, asleep,
  working, gone, worker_turn, Destroyer, idle, joining, returned, freed, begin_destroy, end_destroy,
  wake_all,
}

-- `locked` is a mutex that a thread has left locked for good.
pub record System (q : Queue Task) : Type 0 where
  pub pool : ThreadPool q
  pub workers : List Worker
  pub locked : Bool
  pub destroyer : Destroyer

-- What a step does to the queue as its users see it.
pub data Event : Type 0 where
  submitted : (task : Task) → Event
  started : (task : Task) → Event
  silent : Event

abbrev pub submitted_tasks : List Event → List Task
submitted_tasks [] = []
submitted_tasks (submitted task ∷ es) = task ∷ submitted_tasks es
submitted_tasks (started task ∷ es) = submitted_tasks es
submitted_tasks (silent ∷ es) = submitted_tasks es

abbrev pub started_tasks : List Event → List Task
started_tasks [] = []
started_tasks (submitted task ∷ es) = started_tasks es
started_tasks (started task ∷ es) = task ∷ started_tasks es
started_tasks (silent ∷ es) = started_tasks es

abbrev pub turn_event : Worker → Event
turn_event (working task) = started task
turn_event _ = silent

-- pthread_cond_signal wakes one thread, if any waits.
pub data Signalled (ws : List Worker) : List Worker → Type 0 where
  one : (i : ℕ) → get_elem? ws i ≡ some asleep → Signalled ws (set ws i ready)
  nobody : ((i : ℕ) → get_elem? ws i ≢ some asleep) → Signalled ws ws

-- One thread calls threadpool_destroy, and may call it again.
pub data MayCall : Destroyer → Type 0 where
  first : MayCall idle
  again : (err : ℤ) → MayCall (returned err)

module _ {q : Queue Task} where
  -- The state behind the first part of threadpool_destroy.
  abbrev pub after_destroy : (flags : ℕ) → System q → System q
  after_destroy flags s = record s {
    pool = (begin_destroy all_succeed flags s.pool).2;
    locked = (begin_destroy all_succeed flags s.pool).1;
    destroyer = (begin_destroy all_succeed flags s.pool).0;
    workers = if shutting s.pool.shutdown then s.workers else wake_all s.workers;
  }

  -- A turn under the mutex, the end of a task's function, and a wake-up, which pthread allows
  -- without a signal too.
  pub data WorkerStep (s : System q) : Event → System q → Type 0 where
    turn :
        (i : ℕ) (w : Worker) (pool : ThreadPool q)
        → s.locked ≡ false
        → get_elem? s.workers i ≡ some ready
        → worker_turn s.pool ≡ some (w, pool)
        → WorkerStep s (turn_event w) (record s { pool = pool; workers = set s.workers i w })
    done :
        (i : ℕ) (task : Task)
        → get_elem? s.workers i ≡ some (working task)
        → WorkerStep s silent (record s { workers = set s.workers i ready })
    wakes :
        (i : ℕ)
        → get_elem? s.workers i ≡ some asleep
        → WorkerStep s silent (record s { workers = set s.workers i ready })

  pub data Step (s : System q) : Event → System q → Type 0 where
    work : {e : Event} {t : System q} → WorkerStep s e t → Step s e t
    add :
        (function argument : ℕ) (pool : ThreadPool q) (ws : List Worker)
        → s.locked ≡ false
        → s.destroyer ≢ freed
        → threadpool_add all_succeed function argument (some s.pool) ≡ (pos 0, some pool)
        → Signalled s.workers ws
        → Step s
            (submitted (record { function = function; argument = argument }))
            (record s { pool = pool; workers = ws })
    refused :
        (function argument : ℕ) (err : ℤ) (pool : ThreadPool q)
        → s.locked ≡ false
        → s.destroyer ≢ freed
        → err ≢ pos 0
        → threadpool_add all_succeed function argument (some s.pool) ≡ (err, some pool)
        → Step s silent (record s { pool = pool })
    destroy :
        (flags : ℕ) → s.locked ≡ false → MayCall s.destroyer → Step s silent (after_destroy flags s)
    join :
        (i : ℕ) (err : ℤ)
        → s.destroyer ≡ joining i err
        → i < s.pool.thread_count
        → get_elem? s.workers i ≡ some gone
        → Step s silent (record s { destroyer = joining (i + 1) err })
    end :
        (i : ℕ) (err : ℤ)
        → s.destroyer ≡ joining i err
        → ¬ (i < s.pool.thread_count)
        → Step s silent (record s { destroyer = end_destroy err s.pool })

  -- threadpool_create for n threads, each before its first turn.
  pub data Started (n : ℕ) : System q → Type 0 where
    created :
        (starts : ℕ) (pool : ThreadPool q)
        → threadpool_create true starts (pos n) ≡ (pos 0, some pool)
        → Started n
            (record { pool = pool; workers = replicate n ready; locked = false; destroyer = idle })

  -- The runs of a pool of n threads, with what happened so far.
  pub data Run (n : ℕ) : List Event → System q → Type 0 where
    start : {s : System q} → Started n s → Run n [] s
    later :
        {es : List Event} {e : Event} {s t : System q}
        → Run n es s
        → Step s e t
        → Run n (es ++ e ∷ []) t
