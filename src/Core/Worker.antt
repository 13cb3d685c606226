-- ===== src/Core/Worker.antt =====
-- src/core/Thread.h and the LockedCondition of src/core/Locks.h: the ThreadWorker, its thread and one client
-- thread, interleaved. A job is a number; `stop` enqueues an empty job to wake the thread.
pub mod Order
pub mod Waiting
use ccml.Base.{ℕ, ◌≡◌, Bool, true, false, List, [], ◌∷◌, ◌++◌, Option, none, some}
use ccml.Core.Queue.{Queue, enqueue, dequeue, empty, empty_queue}

-- `JobFunc`
pub data Job : Type 0 where
  job : ℕ → Job
  nothing : Job  -- the `[](){}` of `stop`

-- Where the thread stands in `run`.
pub data WorkerPc : Type 0 where
  dequeuing : WorkerPc
  dequeued : Job → WorkerPc  -- before the test of `_stopping`
  ran : WorkerPc  -- `func()` returned, before `_jobs.empty()`
  notifying : WorkerPc  -- `_jobs.empty()` was true, before `_empty = true`
  finished : WorkerPc

-- Where the client stands.
pub data ClientPc : Type 0 where
  idle : ClientPc
  adding : ℕ → ClientPc  -- in `add_job`, between `_empty = false` and `enqueue`
  stopping : ClientPc  -- in `stop`, between `_stopping = true` and `enqueue`
  joining : ClientPc
  joined : ClientPc

-- The object, its two threads, and a history: the jobs added, and those that ran.
pub record Worker : Type 0 where
  pub jobs_empty : Bool  -- `_empty`
  pub stopping : Bool
  pub jobs : Queue Job
  pub thread : WorkerPc
  pub client : ClientPc
  pub added : List ℕ
  pub done : List ℕ

-- The constructor, with its `start()`.
abbrev pub new_worker : Worker
new_worker = record {
  jobs_empty = false;
  stopping = false;
  jobs = empty_queue;
  thread = dequeuing;
  client = idle;
  added = [];
  done = [];
}

-- `func()`
unfoldable pub call : List ℕ → Job → List ℕ
call done (job n) = done ++ n ∷ []
call done nothing = done

-- One step of one thread. `wait` of the client is a step that needs `_empty`.
pub data Step (w : Worker) : Worker → Type 0 where
  take :
      (f : Job) (q : Queue Job)
      → w.thread ≡ dequeuing
      → dequeue w.jobs ≡ some (f, q)
      → Step w (record w { jobs = q; thread = dequeued f })
  break :
      (f : Job)
      → w.thread ≡ dequeued f
      → w.stopping ≡ true
      → Step w (record w { thread = finished })
  execute :
      (f : Job)
      → w.thread ≡ dequeued f
      → w.stopping ≡ false
      → Step w (record w { thread = ran; done = call w.done f })
  more : w.thread ≡ ran → empty w.jobs ≡ false → Step w (record w { thread = dequeuing })
  none_left : w.thread ≡ ran → empty w.jobs ≡ true → Step w (record w { thread = notifying })
  notify : w.thread ≡ notifying → Step w (record w { jobs_empty = true; thread = dequeuing })
  add : (n : ℕ) → w.client ≡ idle → Step w (record w { jobs_empty = false; client = adding n })
  added_job :
      (n : ℕ)
      → w.client ≡ adding n
      → Step w
          (record w { jobs = enqueue w.jobs (job n); client = idle; added = w.added ++ n ∷ [] })
  waited : w.client ≡ idle → w.jobs_empty ≡ true → Step w w
  stop : w.client ≡ idle → Step w (record w { stopping = true; client = stopping })
  stopped :
      w.client ≡ stopping → Step w (record w { jobs = enqueue w.jobs nothing; client = joining })
  join : w.client ≡ joining → w.thread ≡ finished → Step w (record w { client = joined })

pub data Reach : Worker → Type 0 where
  here : Reach new_worker
  next : {v w : Worker} → Reach v → Step v w → Reach w
