-- ===== src/ThreadPool/Blocked.antt =====
-- How the pool of cFrameworkToServer/utils/thread_pool.c stops for good: a second threadpool_destroy,
-- and a threadpool_create that failed.
use c_framework_to_server.Base.{
  ℕ, ◌+◌, ◌≡◌, refl, ap, ◌∙◌, true, false, none, Bool, List, [], ◌∷◌, arith, ◌⊎◌, inl, inr,
}
use c_framework_to_server.Base.Int.{ℤ, pos, negsuc, ◌≤ℤ◌}
use c_framework_to_server.Queue.{Queue, LawfulQueue}
use c_framework_to_server.ThreadPool.{
  Task, ThreadPool, Calls, shutting, Worker, idle, returned, threadpool_create, threadpool_add,
  threadpool_invalid, max_threads,
}
use c_framework_to_server.ThreadPool.Steps.{
  System, Event, silent, WorkerStep, turn, done, wakes, after_destroy, Step, work, add, refused,
  destroy, join, end, created, Run, start, later,
}
use c_framework_to_server.ThreadPool.Moves.{
  Turned, sleeps, quits, takes, worker_turn-Turned, threadpool_add-accepted, threadpool_add-refused,
}

-- Steps of any threads.
pub data Steps {q : Queue Task} : List Event → System q → System q → Type 0 where
  stop : {s : System q} → Steps [] s s
  go :
      {e : Event} {es : List Event} {s t u : System q}
      → Step s e t
      → Steps es t u
      → Steps (e ∷ es) s u

abbrev pub IsSilent : List Event → Type 0
IsSilent [] = Unit
IsSilent (e ∷ es) = (e ≡ silent) × IsSilent es

module _ {q : Queue Task} (lawful : LawfulQueue q) where
  abbrev IsCalled : System q → Type 0
  IsCalled s = (s.destroyer ≡ idle) ⊎ (shutting s.pool.shutdown ≡ true)

  Turned-shutdown :
      {pool pool' : ThreadPool q} {w : Worker}
      → Turned lawful pool w pool'
      → pool'.shutdown ≡ pool.shutdown
  Turned-shutdown (sleeps e up) = refl
  Turned-shutdown (quits down e) = refl
  Turned-shutdown (takes task rest slow e) = refl

  WorkerStep-IsCalled : {e : Event} {s t : System q} → WorkerStep s e t → IsCalled s → IsCalled t
  WorkerStep-IsCalled {s} (turn i w pool free at run) h =
      let same = ap shutting (Turned-shutdown (worker_turn-Turned lawful s.pool w pool run)) in
      ground arith
  WorkerStep-IsCalled (done i task at) h = h
  WorkerStep-IsCalled (wakes i at) h = h

  Step-IsCalled : {e : Event} {s t : System q} → Step s e t → IsCalled s → IsCalled t
  Step-IsCalled (work st) h = WorkerStep-IsCalled st h
  Step-IsCalled {s} (add function argument pool ws free alive run signal) h =
      let (up, same) = threadpool_add-accepted lawful function argument s.pool pool run in
      ground arith
  Step-IsCalled {s} (refused function argument err pool free alive bad run) h =
      rw (threadpool_add-refused lawful function argument err s.pool pool bad run) h
  Step-IsCalled {s} (destroy flags free may) h = inr (ground arith)
  Step-IsCalled {s} (join i err at lt last) h = ground arith
  Step-IsCalled {s} (end i err at last) h = ground arith

  Run-IsCalled : {n : ℕ} {es : List Event} {s : System q} → Run n es s → IsCalled s
  Run-IsCalled (start (created starts pool h)) = inl refl
  Run-IsCalled (later r st) = Step-IsCalled st (Run-IsCalled r)

  locked-Step :
      {e : Event} {s t : System q}
      → Step s e t
      → s.locked ≡ true
      → (e ≡ silent) × (t.locked ≡ true) × (t.pool ≡ s.pool)
  locked-Step (work (turn i w pool free at run)) h = absurd (ground arith)
  locked-Step (work (done i task at)) h = (refl, h, refl)
  locked-Step (work (wakes i at)) h = (refl, h, refl)
  locked-Step (add function argument pool ws free alive run signal) h = absurd (ground arith)
  locked-Step (refused function argument err pool free alive bad run) h = absurd (ground arith)
  locked-Step (destroy flags free may) h = absurd (ground arith)
  locked-Step (join i err at lt last) h = (refl, h, refl)
  locked-Step (end i err at last) h = (refl, h, refl)

  locked-Steps :
      {es : List Event} {s t : System q}
      → Steps es s t
      → s.locked ≡ true
      → IsSilent es × (t.pool ≡ s.pool)
  locked-Steps stop h = (tt, refl)
  locked-Steps (go st r) h =
      let (quiet, h', same) = locked-Step st h in
      let (quiet', same') = locked-Steps r h' in ((quiet, quiet'), same' ∙ same)

  -- A second call of threadpool_destroy, after one that has returned, leaves the mutex locked:
  -- whatever the threads do from then on, no task is accepted or started any more, and the queue and
  -- the count of the threads stay as they are.
  pub destroy_again-blocks :
      {n : ℕ} {es fs : List Event} {s u : System q} (err : ℤ)
      → Run n es s
      → s.destroyer ≡ returned err
      → (flags : ℕ) → Steps fs (after_destroy flags s) u
      → IsSilent fs × (u.pool ≡ s.pool)
  destroy_again-blocks {s} err r at flags more = elim (Run-IsCalled r) [
    | inl e ↦ absurd (ground arith)
    | inr down ↦
        let (quiet, same) = locked-Steps more (ground arith) in
        let kept : (after_destroy flags s).pool ≡ s.pool = ground arith in (quiet, same ∙ kept)
  ]

-- threadpool_create returns 0 also when it fails: when it was asked for no thread or for more than
-- MAX_THREADS, when the pool or its parts could not be made, or when not all threads could be
-- started. There is no pool then, and every call of threadpool_add returns threadpool_invalid.
pub threadpool_create-failed :
    (q : Queue Task) (inits : Bool) (starts : ℕ) (thread_count : ℤ) (calls : Calls)
    → (function argument : ℕ)
    → (thread_count ≤ℤ pos 0)
      ⊎ (pos (max_threads + 1) ≤ℤ thread_count)
      ⊎ (inits ≡ false)
      ⊎ (pos (starts + 1) ≤ℤ thread_count)
    → let (ret, global) = threadpool_create {q = q} inits starts thread_count in
      (ret ≡ pos 0) × (threadpool_add calls function argument global ≡ (threadpool_invalid, none))
threadpool_create-failed q inits starts (pos n) calls function argument h = ground arith
threadpool_create-failed q inits starts (negsuc n) calls function argument h = (refl, refl)
