-- ===== src/Tests/Threads.antt =====
-- The theorems on thread objects, the queue and the worker at concrete inputs.
use ccml.Base.{ℕ, ◌≡◌, ◌≢◌, refl, true, List, [], ◌∷◌, ◌++◌}
use ccml.Core.Queue.{Queue, empty_queue, enqueue, dequeue, Event, Runs, Runs-fifo, gets, puts}
use ccml.Core.Worker.{
  Worker, Reach, here, next, Step, new_worker, add, added_job, take, execute, job, dequeuing, call,
}
use ccml.Core.Worker.Order.{Reach-order}
use ccml.Core.Worker.Waiting.{wait_early, wait_unused}

abbrev two : Queue ℕ
two = record { elements = 5 ∷ 6 ∷ []; num_elements = 2 }

abbrev events : List (Event ℕ)
events = Event.enqueued 7 ∷ Event.dequeued 5 ∷ Event.dequeued 6 ∷ []

events_run : Runs two events (record { elements = 7 ∷ []; num_elements = 1 })
unfolding enqueue dequeue
events_run = Runs.put 7 (Runs.get 5 refl (Runs.get 6 refl Runs.stop))

Runs-fifo_example : two.elements ++ puts events ≡ gets events ++ 7 ∷ []
Runs-fifo_example = (Runs-fifo events_run refl).0

-- One job added and run.
one_job : (w : Worker) × Reach w × (w.added ≡ 3 ∷ []) × (w.done ≡ 3 ∷ [])
unfolding enqueue dequeue empty_queue
one_job =
    let r1 : Reach _ = next here (add 3 refl) in
    let r2 : Reach _ = next r1 (added_job 3 refl) in
    let r3 : Reach _ = next r2 (take (job 3) empty_queue refl refl) in
    (_, next r3 (execute (job 3) refl refl), refl, unfold call in refl)

Reach-order_example :
    ((rest : List ℕ) × (one_job.0.added ≡ one_job.0.done ++ rest))
    × (one_job.0.thread ≡ dequeuing
        → one_job.0.jobs.elements ≡ []
        → one_job.0.done ≡ one_job.0.added)
Reach-order_example = Reach-order one_job.1

wait_early_example : (w : Worker) × Reach w × (w.added ≡ 1 ∷ 2 ∷ []) × (w.done ≡ 1 ∷ []) × Step w w
wait_early_example = wait_early 1 2

wait_unused_example : new_worker.jobs_empty ≢ true
wait_unused_example = wait_unused here refl
