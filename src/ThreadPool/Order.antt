-- ===== src/ThreadPool/Order.antt =====
-- The tasks of cFrameworkToServer/utils/thread_pool.c as a first-in, first-out queue.
use c_framework_to_server.Base.{ℕ, ◌≡◌, refl, sym, ap, List, [], ◌∷◌, ◌++◌, arith}
use mathlib.Core.List.{append_assoc, append-nil}
use c_framework_to_server.Queue.{Queue, LawfulQueue}
use c_framework_to_server.ThreadPool.{Task, ThreadPool}
use c_framework_to_server.ThreadPool.Steps.{
  System, Event, submitted, started, silent, submitted_tasks, started_tasks, turn_event, WorkerStep,
  turn, done, wakes, Step, work, add, refused, destroy, join, end, Started, created, Run, start,
  later,
}
use c_framework_to_server.ThreadPool.Moves.{
  waiting, Turned, sleeps, quits, takes, worker_turn-Turned, threadpool_add-accepted,
  threadpool_add-refused, waiting-begin_destroy,
}

-- The contract: tasks join at the back and leave at the front.
pub data QueueStep : List Task → Event → List Task → Type 0 where
  enqueue : (ts : List Task) (task : Task) → QueueStep ts (submitted task) (ts ++ task ∷ [])
  dequeue : (ts : List Task) (task : Task) → QueueStep (task ∷ ts) (started task) ts
  stay : (ts : List Task) → QueueStep ts silent ts

pub data QueueRun : List Event → List Task → Type 0 where
  none_yet : QueueRun [] []
  next :
      {es : List Event} {e : Event} {ts us : List Task}
      → QueueRun es ts
      → QueueStep ts e us
      → QueueRun (es ++ e ∷ []) us

module _ {q : Queue Task} (lawful : LawfulQueue q) where
  open lawful use {items, items_create, items_add_tail}

  Turned-QueueStep :
      {pool pool' : ThreadPool q} {w : _}
      → Turned lawful pool w pool'
      → QueueStep (waiting lawful pool) (turn_event w) (waiting lawful pool')
  Turned-QueueStep {pool} (sleeps e up) = stay (waiting lawful pool)
  Turned-QueueStep {pool} (quits down e) = stay (waiting lawful pool)
  Turned-QueueStep (takes task rest slow e) = rw e (dequeue (items rest) task)

  WorkerStep-QueueStep :
      {s t : System q} {e : Event}
      → WorkerStep s e t
      → QueueStep (waiting lawful s.pool) e (waiting lawful t.pool)
  WorkerStep-QueueStep {s} (turn i w pool free at run) =
      Turned-QueueStep (worker_turn-Turned lawful s.pool w pool run)
  WorkerStep-QueueStep {s} (done i task at) = stay (waiting lawful s.pool)
  WorkerStep-QueueStep {s} (wakes i at) = stay (waiting lawful s.pool)

  -- What a step does to the queue of the pool, the queue of the contract does too.
  pub Step-QueueStep :
      {s t : System q} {e : Event}
      → Step s e t
      → QueueStep (waiting lawful s.pool) e (waiting lawful t.pool)
  Step-QueueStep (work st) = WorkerStep-QueueStep st
  Step-QueueStep {s} (add function argument pool ws free alive run signal) =
      let (up, same) = threadpool_add-accepted lawful function argument s.pool pool run in
      let task : Task = record { function = function; argument = argument } in
      rw (same, items_add_tail task s.pool.task_list) (enqueue (waiting lawful s.pool) task)
  Step-QueueStep {s} (refused function argument err pool free alive bad run) =
      rw (threadpool_add-refused lawful function argument err s.pool pool bad run)
        (stay (waiting lawful s.pool))
  Step-QueueStep {s} (destroy flags free at) =
      rw (waiting-begin_destroy lawful flags s.pool) (stay (waiting lawful s.pool))
  Step-QueueStep {s} (join i err at lt last) = stay (waiting lawful s.pool)
  Step-QueueStep {s} (end i err at last) = stay (waiting lawful s.pool)

  Started-waiting : {n : ℕ} {s : System q} → Started n s → waiting lawful s.pool ≡ []
  Started-waiting {n} (created starts pool h) = ground (arith, items_create)

  -- The pool refines a first-in, first-out queue: the accepted and the started tasks of each of its
  -- runs, whatever the order of its threads, are a run of the queue in which tasks join at the back and
  -- leave at the front, and the queue then holds what waits in the pool. The list is one that follows
  -- the laws of list.c.
  pub Run-QueueRun :
      {n : ℕ} {es : List Event} {s : System q} → Run n es s → QueueRun es (waiting lawful s.pool)
  Run-QueueRun (start h) = rw (Started-waiting h) none_yet
  Run-QueueRun (later r st) = next (Run-QueueRun r) (Step-QueueStep st)

submitted_tasks-append :
    (es fs : List Event) → submitted_tasks (es ++ fs) ≡ submitted_tasks es ++ submitted_tasks fs
submitted_tasks-append [] fs = refl
submitted_tasks-append (submitted task ∷ es) fs = ap (◌∷◌ task) (submitted_tasks-append es fs)
submitted_tasks-append (started task ∷ es) fs = submitted_tasks-append es fs
submitted_tasks-append (silent ∷ es) fs = submitted_tasks-append es fs

started_tasks-append :
    (es fs : List Event) → started_tasks (es ++ fs) ≡ started_tasks es ++ started_tasks fs
started_tasks-append [] fs = refl
started_tasks-append (submitted task ∷ es) fs = started_tasks-append es fs
started_tasks-append (started task ∷ es) fs = ap (◌∷◌ task) (started_tasks-append es fs)
started_tasks-append (silent ∷ es) fs = started_tasks-append es fs

pub QueueRun-order :
    {es : List Event} {ts : List Task}
    → QueueRun es ts
    → submitted_tasks es ≡ started_tasks es ++ ts
QueueRun-order none_yet = refl
QueueRun-order (next {es} r (enqueue ts task)) =
    rw
      (
        submitted_tasks-append es (submitted task ∷ []),
        started_tasks-append es (submitted task ∷ []),
        QueueRun-order r,
        append-nil (started_tasks es),
      )
      (append_assoc (started_tasks es) ts (task ∷ []))
QueueRun-order (next {es} r (dequeue ts task)) =
    rw
      (
        submitted_tasks-append es (started task ∷ []),
        started_tasks-append es (started task ∷ []),
        QueueRun-order r,
        append-nil (started_tasks es ++ task ∷ ts),
      )
      (sym (append_assoc (started_tasks es) (task ∷ []) ts))
QueueRun-order (next {es} r (stay ts)) =
    rw
      (
        submitted_tasks-append es (silent ∷ []),
        started_tasks-append es (silent ∷ []),
        QueueRun-order r,
        append-nil (started_tasks es ++ ts),
        append-nil (started_tasks es),
      )
      refl
