-- ===== src/Core/Worker/Waiting.antt =====
-- What `wait` of the ThreadWorker does and does not promise.
use ccml.Base.{
  ℕ, ◌≡◌, ◌≢◌, refl, sym, ◌∙◌, true, false, List, [], ◌∷◌, ◌++◌, some, arith, ◌⊎◌, inl, inr,
}
use ccml.Core.Queue.{
  Queue, enqueue, dequeue, empty, empty_queue, IsValid, dequeue-elements, enqueue-IsValid,
}
use ccml.Core.Worker.{
  Job, job, nothing, stopping, dequeuing, dequeued, ran, notifying, Worker, call, Step, take, break,
  execute, more, none_left, notify, add, added_job, waited, stop, stopped, join, Reach, here, next,
}

-- `wait` can return too early: for any two jobs there is a run after which `_empty` is true, so that
-- `wait` returns at once, while the second job was added and has not run. The thread tests
-- `_jobs.empty()` before the second job is added and sets `_empty` after it.
pub wait_early :
    (x y : ℕ) → (w : Worker) × Reach w × (w.added ≡ x ∷ y ∷ []) × (w.done ≡ x ∷ []) × Step w w
unfolding enqueue dequeue empty empty_queue call
wait_early x y =
    let r1 : Reach _ = next here (add x refl) in
    let r2 : Reach _ = next r1 (added_job x refl) in
    let r3 : Reach _ = next r2 (take (job x) empty_queue refl refl) in
    let r4 : Reach _ = next r3 (execute (job x) refl refl) in
    let r5 : Reach _ = next r4 (none_left refl refl) in
    let r6 : Reach _ = next r5 (add y refl) in
    let r7 : Reach _ = next r6 (added_job y refl) in
    (_, next r7 (notify refl), refl, refl, waited refl refl)

-- What holds as long as no job was added: `_empty` is false, and before `stop` the thread waits at an
-- empty queue.
record Unused (w : Worker) : Type 0 where
  not_empty : w.jobs_empty ≡ false
  not_run : (w.thread ≢ ran) × (w.thread ≢ notifying)
  before : (w.stopping ≡ true) ⊎ ((w.jobs.elements ≡ []) × (w.thread ≡ dequeuing))
  in_stop : w.client ≡ stopping → w.stopping ≡ true
  valid : IsValid w.jobs

abbrev UnusedOrNot : Worker → Type 0
UnusedOrNot w = (w.added ≢ []) ⊎ Unused w

append-ne-nil : (ns : List ℕ) (n : ℕ) → ns ++ n ∷ [] ≢ []
append-ne-nil [] n h = cc
append-ne-nil (x ∷ xs) n h = cc

take-Unused :
    {w : Worker} (f : Job) (q : Queue Job)
    → dequeue w.jobs ≡ some (f, q)
    → Unused w
    → Unused (record w { jobs = q; thread = dequeued f })
take-Unused {w} f q d u = record {
  not_empty = u.not_empty;
  not_run = (λ h. cc, λ h. cc);
  before = elim u.before [ inl s ↦ inl s | inr (e, t) ↦ absurd (some_left e) ];
  in_stop = u.in_stop;
  valid = (dequeue-elements w.jobs f q d u.valid).1;
}
  where
    some_left : w.jobs.elements ≢ []
    some_left e =
        let c : f ∷ q.elements ≡ [] = sym (dequeue-elements w.jobs f q d u.valid).0 ∙ e in cc

Step-UnusedOrNot : {w x : Worker} → Step w x → UnusedOrNot w → UnusedOrNot x
Step-UnusedOrNot (take f q e d) (inl h) = inl h
Step-UnusedOrNot {w} (take f q e d) (inr u) = inr (take-Unused {w = w} f q d u)
Step-UnusedOrNot (break f e s) (inl h) = inl h
Step-UnusedOrNot (break f e s) (inr u) = inr (record {
  not_empty = u.not_empty;
  not_run = (λ h. cc, λ h. cc);
  before = inl s;
  in_stop = u.in_stop;
  valid = u.valid;
})
Step-UnusedOrNot (execute f e s) (inl h) = inl h
Step-UnusedOrNot (execute f e s) (inr u) = absurd (ground (arith, u.before))
Step-UnusedOrNot (more e q) (inl h) = inl h
Step-UnusedOrNot (more e q) (inr u) = absurd (u.not_run.0 e)
Step-UnusedOrNot (none_left e q) (inl h) = inl h
Step-UnusedOrNot (none_left e q) (inr u) = absurd (u.not_run.0 e)
Step-UnusedOrNot (notify e) (inl h) = inl h
Step-UnusedOrNot (notify e) (inr u) = absurd (u.not_run.1 e)
Step-UnusedOrNot (add n e) (inl h) = inl h
Step-UnusedOrNot (add n e) (inr u) = inr (record {
  not_empty = refl;
  not_run = u.not_run;
  before = u.before;
  in_stop = λ h. cc;
  valid = u.valid;
})
Step-UnusedOrNot {w} (added_job n e) _ = inl (append-ne-nil w.added n)
Step-UnusedOrNot (waited e b) (inl h) = inl h
Step-UnusedOrNot (waited e b) (inr u) = inr u
Step-UnusedOrNot (stop e) (inl h) = inl h
Step-UnusedOrNot (stop e) (inr u) = inr (record {
  not_empty = u.not_empty;
  not_run = u.not_run;
  before = inl refl;
  in_stop = λ _. refl;
  valid = u.valid;
})
Step-UnusedOrNot (stopped e) (inl h) = inl h
Step-UnusedOrNot {w} (stopped e) (inr u) = inr (record {
  not_empty = u.not_empty;
  not_run = u.not_run;
  before = inl (u.in_stop e);
  in_stop = λ h. cc;
  valid = enqueue-IsValid w.jobs nothing u.valid;
})
Step-UnusedOrNot (join e t) (inl h) = inl h
Step-UnusedOrNot (join e t) (inr u) = inr (record {
  not_empty = u.not_empty;
  not_run = u.not_run;
  before = u.before;
  in_stop = λ h. cc;
  valid = u.valid;
})

Reach-UnusedOrNot : {w : Worker} → Reach w → UnusedOrNot w
unfolding empty_queue
Reach-UnusedOrNot here = inr (record {
  not_empty = refl;
  not_run = (λ h. cc, λ h. cc);
  before = inr (refl, refl);
  in_stop = λ h. cc;
  valid = refl;
})
Reach-UnusedOrNot (next r st) = Step-UnusedOrNot st (Reach-UnusedOrNot r)

-- As long as no job was added, `_empty` is false in every reachable state, so that `wait`, and with
-- it the destructor of a worker that was never used, does not return.
pub wait_unused : {w : Worker} → Reach w → w.added ≡ [] → w.jobs_empty ≢ true
wait_unused {w} r e h = elim (Reach-UnusedOrNot r) [
  | inl n ↦ n e
  | inr u ↦ let c : false ≡ true = sym u.not_empty ∙ h in cc
]
