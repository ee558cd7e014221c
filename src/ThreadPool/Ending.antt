-- ===== src/ThreadPool/Ending.antt =====
-- The end of the pool of cFrameworkToServer/utils/thread_pool.c: what threadpool_destroy brings about.
use c_framework_to_server.Base.{
  ℕ, suc, ◌+◌, ◌*◌, ◌≤◌, ◌<◌, ◌≡◌, refl, sym, ap, ◌∙◌, ◌≢◌, true, false, some, List, [], ◌∷◌, ◌++◌,
  length, get_elem?, set, arith, ◌⊎◌, inl, inr,
}
use mathlib.Core.List.{append-nil}
use c_framework_to_server.Queue.{Queue, LawfulQueue}
use c_framework_to_server.ThreadPool.{
  Shutdown, Task, ThreadPool, shutting, is_immediate, Worker, ready, asleep, working, gone,
}
use c_framework_to_server.ThreadPool.Steps.{
  System, Event, submitted_tasks, started_tasks, WorkerStep, turn, done, wakes, work, Run, later,
}
use c_framework_to_server.ThreadPool.Moves.{
  waiting, Turned, sleeps, quits, takes, worker_turn_total, worker_turn-Turned,
}
use c_framework_to_server.ThreadPool.Counts.{
  total, if_gone, if_asleep, if_ready, steps_left, total-set, total_ge, gone-cases,
}
use c_framework_to_server.ThreadPool.Order.{QueueRun-order, Run-QueueRun}
use c_framework_to_server.ThreadPool.Invariant.{Run-Inv}

-- k steps of the workers alone.
pub data WorkerRun {q : Queue Task} : ℕ → System q → System q → Type 0 where
  here : {s : System q} → WorkerRun 0 s s
  onward :
      {k : ℕ} {e : Event} {s t u : System q}
      → WorkerStep s e t
      → WorkerRun k t u
      → WorkerRun (suc k) s u

module _ {q : Queue Task} (lawful : LawfulQueue q) where
  -- No task waits for a signal that has gone by: while a worker sleeps, at least as many workers are
  -- on their way to the queue as tasks stand in it.
  pub no_lost_wakeup :
      {n : ℕ} {es : List Event} {s : System q}
      → Run n es s
      → (i : ℕ) → get_elem? s.workers i ≡ some asleep
      → length (waiting lawful s.pool) ≤ total if_ready s.workers
  no_lost_wakeup {s} r i at =
      let sleeps = total_ge if_asleep s.workers i asleep at in
      let inv = Run-Inv lawful r in ground arith

  empty_list : (ts : List Task) → length ts ≡ 0 → ts ≡ []
  empty_list [] h = refl
  empty_list (t ∷ ts) h = absurd (omega arith)

  -- After a graceful shutdown no worker quits before every task that threadpool_add accepted has
  -- been started, each once and in the order of the calls.
  pub graceful-drained :
      {n : ℕ} {es : List Event} {s : System q}
      → Run n es s
      → s.pool.shutdown ≡ Shutdown.graceful_shutdown
      → (i : ℕ) → get_elem? s.workers i ≡ some gone
      → started_tasks es ≡ submitted_tasks es
  graceful-drained {es} {s} r slow i at =
      let quit = total_ge if_gone s.workers i gone at in
      let inv = Run-Inv lawful r in
      let none_left =
        empty_list (waiting lawful s.pool) (inv.drained (ap is_immediate slow) quit) in
      sym (
        QueueRun-order (Run-QueueRun lawful r)
        ∙ ap (λ ts. started_tasks es ++ ts) none_left
        ∙ append-nil (started_tasks es))

  -- What the workers may still do.
  abbrev pub effort : System q → ℕ
  effort s = 2 * length (waiting lawful s.pool) + total steps_left s.workers

  Turned-effort :
      {pool pool' : ThreadPool q} (ws : List Worker) (i : ℕ) {w : Worker}
      → Turned lawful pool w pool'
      → get_elem? ws i ≡ some ready
      → shutting pool.shutdown ≡ true
      → (shutting pool'.shutdown ≡ true)
        × (2 * length (waiting lawful pool') + total steps_left (set ws i w)
            < 2 * length (waiting lawful pool) + total steps_left ws)
  Turned-effort ws i (sleeps e up) at down = absurd (ground arith)
  Turned-effort ws i (quits d e) at down =
      (down, omega (arith, total-set steps_left ws i ready gone at))
  Turned-effort ws i (takes task rest slow e) at down =
      (down, omega (arith, total-set steps_left ws i ready (working task) at, ap length e))

  WorkerStep-effort :
      {e : Event} {s t : System q}
      → WorkerStep s e t
      → shutting s.pool.shutdown ≡ true
      → (shutting t.pool.shutdown ≡ true) × (effort t < effort s)
  WorkerStep-effort {s} (turn i w pool free at run) down =
      Turned-effort s.workers i (worker_turn-Turned lawful s.pool w pool run) at down
  WorkerStep-effort {s} (done i task at) down =
      (down, omega (arith, total-set steps_left s.workers i (working task) ready at))
  WorkerStep-effort {s} (wakes i at) down =
      (down, omega (arith, total-set steps_left s.workers i asleep ready at))

  WorkerStep-locked : {e : Event} {s t : System q} → WorkerStep s e t → t.locked ≡ s.locked
  WorkerStep-locked (turn i w pool free at run) = refl
  WorkerStep-locked (done i task at) = refl
  WorkerStep-locked (wakes i at) = refl

  WorkerRun-effort :
      {k : ℕ} {s t : System q}
      → WorkerRun k s t
      → shutting s.pool.shutdown ≡ true
      → k + effort t ≤ effort s
  WorkerRun-effort here down = omega arith
  WorkerRun-effort (onward st r) down =
      let (down', less) = WorkerStep-effort st down in omega (arith, WorkerRun-effort r down')

  WorkerRun-locked : {k : ℕ} {s t : System q} → WorkerRun k s t → t.locked ≡ s.locked
  WorkerRun-locked here = refl
  WorkerRun-locked (onward st r) = WorkerRun-locked r ∙ WorkerStep-locked st

  WorkerRun-Run :
      {n k : ℕ} {es : List Event} {s t : System q}
      → Run n es s
      → WorkerRun k s t
      → (fs : List Event) × Run n fs t
  WorkerRun-Run {es} r here = (es, r)
  WorkerRun-Run r (onward st w) = WorkerRun-Run (later r (work st)) w

  -- A worker that has not quit can go on.
  progress :
      (s : System q) (i : ℕ) (w : Worker)
      → s.locked ≡ false
      → get_elem? s.workers i ≡ some w
      → w ≢ gone
      → (e : Event) × (t : System q) × WorkerStep s e t
  progress s i ready free at live =
      let (w, pool, run, turned) = worker_turn_total lawful s.pool in
      (_, _, turn i w pool free at run)
  progress s i asleep free at live = (_, _, wakes i at)
  progress s i (working task) free at live = (_, _, done i task at)
  progress s i gone free at live = absurd (live refl)

  -- The threads of a pool that shuts down all quit, if each task's function returns and the mutex
  -- was not left locked: from then on the workers take at most `effort s` steps, and whatever steps
  -- they have taken, either the pool counts no thread any more or a worker can take another.
  pub shutdown_ends :
      {n : ℕ} {es : List Event} {s : System q}
      → Run n es s
      → shutting s.pool.shutdown ≡ true
      → s.locked ≡ false
      → (k : ℕ) (t : System q) → WorkerRun k s t
      → (k ≤ effort s)
        × ((t.pool.thread_count ≡ 0) ⊎ ((e : Event) × (u : System q) × WorkerStep t e u))
  shutdown_ends r down free k t w = (
    omega (arith, WorkerRun-effort w down),
    elim (gone-cases t.workers) [
      | inl none_left ↦
          let (fs, r') = WorkerRun-Run r w in inl ((Run-Inv lawful r').counted ∙ none_left)
      | inr (i, worker, at, live) ↦ inr (progress t i worker (WorkerRun-locked w ∙ free) at live)
    ],
  )
