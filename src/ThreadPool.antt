-- ===== src/ThreadPool.antt =====
-- The thread pool of cFrameworkToServer/utils/thread_pool.c. A worker's critical section is one
-- step, since the mutex covers it. A pointer is a number, with 0 for NULL; the allocation of a task
-- succeeds. `none` is undefined behaviour: a task behind a NULL pointer.
pub mod Steps
mod Moves
pub mod Order
mod Counts
pub mod Invariant
pub mod Ending
pub mod Blocked
pub mod Tests
use c_framework_to_server.Base.{
  ℕ, ◌+◌, ◌-◌, ◌%◌, Bool, true, false, not, ◌&&◌, ◌||◌, Option, none, some, List, map, ltb, ◌==◌,
  if◌then◌else◌,
}
use c_framework_to_server.Base.Int.{ℤ, pos, negsuc, eqb_ℤ}
use c_framework_to_server.Queue.{Queue}
use c_framework_to_server.Memory.{◌>>=◌}

-- `flags & threadpool_graceful` picks the second of the two ways to shut down.
pub data Shutdown : Type 0 where
  running immediate_shutdown graceful_shutdown : Shutdown

pub record Task : Type 0 where
  pub function : ℕ
  pub argument : ℕ

-- threadpool_t, without its locks and the handles of its threads.
pub record ThreadPool (q : Queue Task) : Type 0 where
  pub task_list : q.Lst
  pub thread_count : ℕ
  pub shutdown : Shutdown

abbrev pub threadpool_invalid : ℤ
threadpool_invalid = negsuc 0

abbrev pub threadpool_lock_failure : ℤ
threadpool_lock_failure = negsuc 1

abbrev pub threadpool_shutdown : ℤ
threadpool_shutdown = negsuc 3

abbrev pub max_threads : ℕ
max_threads = 100000

-- `pool->shutdown` as a condition.
abbrev pub shutting : Shutdown → Bool
shutting Shutdown.running = false
shutting Shutdown.immediate_shutdown = true
shutting Shutdown.graceful_shutdown = true

-- Which of the calls of pthread succeed.
pub record Calls : Type 0 where
  pub lock : Bool
  pub notify : Bool
  pub unlock : Bool

abbrev pub all_succeed : Calls
all_succeed = record { lock = true; notify = true; unlock = true }

-- Where a thread of threadpool_thread stands: before pthread_mutex_lock, in pthread_cond_wait, in
-- the function of a task, or past pthread_exit.
pub data Worker : Type 0 where
  ready : Worker
  asleep : Worker
  working : (task : Task) → Worker
  gone : Worker

abbrev pub is_immediate : Shutdown → Bool
is_immediate Shutdown.immediate_shutdown = true
is_immediate _ = false

-- Where a call of threadpool_destroy stands: in the loop of pthread_join, or behind its return,
-- with the pool freed or not.
pub data Destroyer : Type 0 where
  idle : Destroyer
  joining : (i : ℕ) (err : ℤ) → Destroyer
  returned : (err : ℤ) → Destroyer
  freed : Destroyer

-- pthread_cond_broadcast.
abbrev pub wake : Worker → Worker
wake Worker.asleep = ready
wake w = w

abbrev pub wake_all : List Worker → List Worker
wake_all ws = map wake ws

module _ {q : Queue Task} where
  open q use {Lst, list_create, list_length, list_add_node_to_tail, list_pop_node_from_head}

  -- threadpool_create: what it returns, and G_THREAD_POOL. NULL is the number 0 there. `inits`
  -- tells whether the pool and its parts could be made, `starts` how many threads pthread_create
  -- starts.
  abbrev pub threadpool_create :
      (inits : Bool) (starts : ℕ) (thread_count : ℤ) → ℤ × Option (ThreadPool q)
  threadpool_create inits starts (negsuc n) = (pos 0, none)
  threadpool_create inits starts (pos n) =
      if (n == 0) || ltb max_threads n || not inits || ltb starts n then (pos 0, none) else (
        pos 0,
        some (record { task_list = list_create; thread_count = n; shutdown = Shutdown.running }),
      )

  -- The body of the `do` of threadpool_add.
  abbrev pub add_task : (notify : Bool) → Task → ThreadPool q → ℤ × ThreadPool q
  add_task notify task pool = if shutting pool.shutdown then (threadpool_shutdown, pool) else (
    if notify then pos 0 else threadpool_lock_failure,
    record pool { task_list = list_add_node_to_tail task pool.task_list },
  )

  abbrev pub threadpool_add :
      Calls → (function argument : ℕ) → Option (ThreadPool q) → ℤ × Option (ThreadPool q)
  threadpool_add calls function argument none = (threadpool_invalid, none)
  threadpool_add calls function argument (some pool) =
      if function == 0
      then (threadpool_invalid, some pool)
      else if not calls.lock
      then (threadpool_lock_failure, some pool)
      else let (err, pool') =
          add_task calls.notify (record { function = function; argument = argument }) pool in
        (if calls.unlock then err else threadpool_lock_failure, some pool')

  -- The loop of threadpool_thread from where it has the lock to where it releases it: it waits, it
  -- quits, or it takes a task.
  abbrev pub worker_turn : ThreadPool q → Option (Worker × ThreadPool q)
  worker_turn pool =
      if (list_length pool.task_list == 0) && not (shutting pool.shutdown)
      then some (asleep, pool)
      else if is_immediate pool.shutdown
          || (shutting pool.shutdown && (list_length pool.task_list == 0))
      then some (gone, record pool { thread_count = pool.thread_count - 1 })
      else list_pop_node_from_head pool.task_list
        >>= (λ (task, rest). some (working task, record pool { task_list = rest }))

  -- threadpool_destroy up to its loop, and whether it leaves the mutex locked.
  abbrev pub begin_destroy : Calls → (flags : ℕ) → ThreadPool q → Destroyer × Bool × ThreadPool q
  begin_destroy calls flags pool =
      if not calls.lock
      then (returned threadpool_lock_failure, false, pool)
      else if shutting pool.shutdown
      then (returned threadpool_shutdown, true, pool)
      else let pool' = record pool {
        shutdown =
            if flags % 2 == 1 then Shutdown.graceful_shutdown else Shutdown.immediate_shutdown;
      } in
        if calls.notify && calls.unlock
        then (joining 0 (pos 0), false, pool')
        else (returned threadpool_lock_failure, true, pool')

  -- threadpool_free: it refuses a pool that counts threads.
  abbrev pub threadpool_free : ThreadPool q → ℤ × Destroyer
  threadpool_free pool =
      if ltb 0 pool.thread_count then (negsuc 0, returned (pos 0)) else (pos 0, freed)

  -- The rest of threadpool_destroy behind its loop.
  abbrev pub end_destroy : (err : ℤ) → ThreadPool q → Destroyer
  end_destroy err pool = if eqb_ℤ err (pos 0) then (threadpool_free pool).1 else returned err
