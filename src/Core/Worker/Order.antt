-- ===== src/Core/Worker/Order.antt =====
-- The jobs run in the order in which they were added, each at most once.
use ccml.Base.{
  ℕ, ◌≡◌, ◌≢◌, refl, sym, ap, subst, ◌∙◌, Bool, true, List, [], ◌∷◌, ◌++◌, append_assoc, append-nil,
  some,
}
use ccml.Core.Queue.{
  Queue, enqueue, dequeue, empty_queue, IsValid, enqueue-elements, dequeue-elements,
  enqueue-IsValid,
}
use ccml.Core.Worker.{
  Job, job, nothing, WorkerPc, dequeuing, dequeued, ran, notifying, finished, Worker, new_worker,
  call, Step, take, break, execute, more, none_left, notify, add, added_job, waited, stop, stopped,
  join, Reach, here, next,
}

-- The jobs that clients added among those in a queue.
abbrev pub real : List Job → List ℕ
real [] = []
real (job n ∷ fs) = n ∷ real fs
real (nothing ∷ fs) = real fs

real-append : (fs gs : List Job) → real (fs ++ gs) ≡ real fs ++ real gs
real-append [] gs = refl
real-append (job n ∷ fs) gs = ap (◌∷◌ n) (real-append fs gs)
real-append (nothing ∷ fs) gs = real-append fs gs

-- The job in the thread's hand.
abbrev pub hand : WorkerPc → List ℕ
hand (dequeued f) = real (f ∷ [])
hand _ = []

real-cons : (f : Job) (fs : List Job) → real (f ∷ fs) ≡ real (f ∷ []) ++ real fs
real-cons (job n) fs = refl
real-cons nothing fs = refl

call-real : (ns : List ℕ) (f : Job) → call ns f ≡ ns ++ real (f ∷ [])
unfolding call
call-real ns (job n) = refl
call-real ns nothing = sym (append-nil ns)

-- `pending` is what the thread has taken and not run.
record Inv (w : Worker) : Type 0 where
  valid : IsValid w.jobs
  pending : List ℕ
  of_thread : w.thread ≢ finished → pending ≡ hand w.thread
  order : w.added ≡ w.done ++ (pending ++ real w.jobs.elements)

new_worker-Inv : Inv new_worker
unfolding empty_queue
new_worker-Inv = record { valid = refl; pending = []; of_thread = λ _. refl; order = refl }

order-enqueue :
    (added ns pending : List ℕ) (q : Queue Job) (f : Job)
    → added ≡ ns ++ (pending ++ real q.elements)
    → added ++ real (f ∷ []) ≡ ns ++ (pending ++ real (enqueue q f).elements)
order-enqueue added ns pending q f e =
    rw (enqueue-elements q f, real-append q.elements (f ∷ []), e) (simp append_assoc)

module _ {w : Worker} (v : Inv w) where
  take-Inv :
      (f : Job) (q : Queue Job)
      → w.thread ≡ dequeuing
      → dequeue w.jobs ≡ some (f, q)
      → Inv (record w { jobs = q; thread = dequeued f })
  take-Inv f q at_top d =
      let r = dequeue-elements w.jobs f q d v.valid in
      let none_held : v.pending ≡ [] =
        subst (λ t. t ≢ finished → v.pending ≡ hand t) at_top v.of_thread (λ e. cc) in
      record {
        valid = r.1;
        pending = real (f ∷ []);
        of_thread = λ _. refl;
        order = v.order ∙ rw (none_held, r.0) (ap (◌++◌ w.done) (real-cons f q.elements));
      }

  execute-Inv :
      (f : Job) → w.thread ≡ dequeued f → Inv (record w { thread = ran; done = call w.done f })
  execute-Inv f held = record {
    valid = v.valid;
    pending = [];
    of_thread = λ _. refl;
    order =
        let in_hand : v.pending ≡ real (f ∷ []) =
          subst (λ t. t ≢ finished → v.pending ≡ hand t) held v.of_thread (λ e. cc) in
        v.order
        ∙ rw (in_hand, call-real w.done f)
            (sym (append_assoc w.done (real (f ∷ [])) (real w.jobs.elements)));
  }

  -- A step that leaves the queue and the history alone and holds no job before and after.
  idle-Inv :
      (p q : WorkerPc) (b : Bool)
      → w.thread ≡ p
      → p ≢ finished
      → hand p ≡ []
      → hand q ≡ []
      → Inv (record w { thread = q; jobs_empty = b })
  idle-Inv p q b e n h k = record {
    valid = v.valid;
    pending = v.pending;
    of_thread = λ _. (subst (λ t. t ≢ finished → v.pending ≡ hand t) e v.of_thread n) ∙ (h ∙ sym k);
    order = v.order;
  }

Step-Inv : {w x : Worker} → Step w x → Inv w → Inv x
Step-Inv (take f q e d) v = take-Inv v f q e d
Step-Inv (break f e s) v = record {
  valid = v.valid;
  pending = v.pending;
  of_thread = λ n. absurd (n refl);
  order = v.order;
}
Step-Inv (execute f e s) v = execute-Inv v f e
Step-Inv {w} (more e q) v = idle-Inv v ran dequeuing w.jobs_empty e (λ h. cc) refl refl
Step-Inv {w} (none_left e q) v = idle-Inv v ran notifying w.jobs_empty e (λ h. cc) refl refl
Step-Inv (notify e) v = idle-Inv v notifying dequeuing true e (λ h. cc) refl refl
Step-Inv (add n e) v = record {
  valid = v.valid;
  pending = v.pending;
  of_thread = v.of_thread;
  order = v.order;
}
Step-Inv {w} (added_job n e) v = record {
  valid = enqueue-IsValid w.jobs (job n) v.valid;
  pending = v.pending;
  of_thread = v.of_thread;
  order = order-enqueue w.added w.done v.pending w.jobs (job n) v.order;
}
Step-Inv (waited e b) v = v
Step-Inv (stop e) v = record {
  valid = v.valid;
  pending = v.pending;
  of_thread = v.of_thread;
  order = v.order;
}
Step-Inv {w} (stopped e) v = record {
  valid = enqueue-IsValid w.jobs nothing v.valid;
  pending = v.pending;
  of_thread = v.of_thread;
  order = sym (append-nil w.added) ∙ order-enqueue w.added w.done v.pending w.jobs nothing v.order;
}
Step-Inv (join e t) v = record {
  valid = v.valid;
  pending = v.pending;
  of_thread = v.of_thread;
  order = v.order;
}

Reach-Inv : {w : Worker} → Reach w → Inv w
Reach-Inv here = new_worker-Inv
Reach-Inv (next r st) = Step-Inv st (Reach-Inv r)

-- In every interleaving the jobs that ran are the first ones that were added, in the order in which
-- they were added and each once; and when the thread waits at an empty queue, all of them ran.
pub Reach-order :
    {w : Worker}
    → Reach w
    → ((rest : List ℕ) × (w.added ≡ w.done ++ rest))
      × (w.thread ≡ dequeuing → w.jobs.elements ≡ [] → w.done ≡ w.added)
Reach-order {w} r =
    let v = Reach-Inv r in
    (
      (v.pending ++ real w.jobs.elements, v.order),
      λ e q.
          let none_held : v.pending ≡ [] =
            subst (λ t. t ≢ finished → v.pending ≡ hand t) e v.of_thread (λ h. cc) in
          sym (v.order ∙ rw (none_held, q) (append-nil w.done)),
    )
