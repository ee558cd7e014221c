-- ===== src/ThreadPool/Tests.antt =====
-- The thread pool of cFrameworkToServer/utils/thread_pool.c on small runs.
use c_framework_to_server.Base.{◌≤◌, ◌≡◌, ◌≢◌, refl, List, [], ◌∷◌, arith, ◌⊎◌}
use c_framework_to_server.Base.Int.{pos}
use c_framework_to_server.Queue.{plain_queue, plain_queue-LawfulQueue}
use c_framework_to_server.ThreadPool.{Task, Destroyer, asleep, working, gone, returned, freed}
use c_framework_to_server.ThreadPool.Steps.{
  System, Event, silent, submitted_tasks, started_tasks, one, turn, done, WorkerStep, first,
  after_destroy, work, add, destroy, join, end, created, Run, start, later,
}
use c_framework_to_server.ThreadPool.Order.{QueueRun, Run-QueueRun}
use c_framework_to_server.ThreadPool.Ending.{
  no_lost_wakeup, graceful-drained, shutdown_ends, here, onward,
}
use c_framework_to_server.ThreadPool.Blocked.{destroy_again-blocks, stop, go, IsSilent}

abbrev Example : Type 0
Example = (es : List Event) × (s : System (plain_queue {A = Task})) × Run 2 es s

not_freed : Destroyer.idle ≢ freed
not_freed e = cc

-- Worker 0 finds nothing and sleeps; a task comes and wakes it.
abbrev one_asleep : Example
one_asleep = (_, _, later (start (created 2 _ refl)) (work (turn 0 asleep _ refl refl refl)))

abbrev one_task : Example
one_task = (_, _, later one_asleep.2 (add 3 7 _ _ refl not_freed refl (one 0 refl)))

abbrev taken : Example
taken = (
  _,
  _,
  later one_task.2
      (work (turn 1 (working (record { function = 3; argument = 7 })) _ refl refl refl)),
)

abbrev closing : Example
closing = (_, _, later taken.2 (destroy 1 refl first))

abbrev one_gone : Example
one_gone = (_, _, later closing.2 (work (turn 0 gone _ refl refl refl)))

-- threadpool_destroy joins worker 0, does not wait for worker 1, and does not free the pool.
abbrev half_joined : Example
half_joined = (
  _,
  _,
  later (later one_gone.2 (join 0 (pos 0) refl (omega arith) refl))
      (end 1 (pos 0) refl (λ h. omega arith)),
)

half_joined_result :
    (half_joined.1.destroyer ≡ returned (pos 0))
    × (half_joined.1.workers ≡ gone ∷ working (record { function = 3; argument = 7 }) ∷ [])
half_joined_result = (refl, refl)

Run-QueueRun_example : QueueRun taken.0 []
Run-QueueRun_example = Run-QueueRun plain_queue-LawfulQueue taken.2

no_lost_wakeup_example : 0 ≤ 1
no_lost_wakeup_example = no_lost_wakeup plain_queue-LawfulQueue one_asleep.2 0 refl

graceful-drained_example : started_tasks one_gone.0 ≡ submitted_tasks one_gone.0
graceful-drained_example = graceful-drained plain_queue-LawfulQueue one_gone.2 refl 0 refl

shutdown_ends_example :
    (1 ≤ 3)
    × ((one_gone.1.pool.thread_count ≡ 0)
        ⊎ ((e : Event) × (u : System (plain_queue {A = Task})) × WorkerStep one_gone.1 e u))
shutdown_ends_example =
    shutdown_ends plain_queue-LawfulQueue closing.2 refl refl 1 one_gone.1
      (onward (turn 0 gone _ refl refl refl) here)

destroy_again-blocks_example :
    IsSilent (silent ∷ []) × ((after_destroy 1 half_joined.1).pool ≡ half_joined.1.pool)
destroy_again-blocks_example =
    destroy_again-blocks plain_queue-LawfulQueue (pos 0) half_joined.2 refl 1
      (go (work (done 1 (record { function = 3; argument = 7 }) refl)) stop)
