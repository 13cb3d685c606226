-- ===== src/Core/Queue.antt =====
-- src/core/Queue.h: the blocking queue. Each method runs under the lock, so a call is one step; a call
-- that waits on the condition variable is `none` until its condition holds.
use ccml.Base.{
  ℕ, ◌+◌, ◌-◌, ◌≡◌, refl, ap, ◌⊎◌, inl, inr, Bool, List, [], ◌∷◌, ◌++◌, append_assoc, append-nil,
  Option, none, some, ◌==◌, if◌then◌else◌, length, length-append, arith,
}

-- The head of `elements` is the front of the deque. `num_elements` is an `int`; the model is about
-- queues of less than 2 ^ 31 elements.
pub record Queue {ℓ} (A : Type ℓ) : Type ℓ where
  pub elements : List A
  pub num_elements : ℕ

module _ {ℓ} {A : Type ℓ} where
  -- The constructor.
  unfoldable pub empty_queue : Queue A
  empty_queue = record { elements = []; num_elements = 0 }

  -- Both overloads of `enqueue`.
  unfoldable pub enqueue : Queue A → A → Queue A
  enqueue q element = record {
    elements = q.elements ++ element ∷ [];
    num_elements = q.num_elements + 1;
  }

  -- `dequeue` past its wait: an empty deque there would be undefined, which is `none` too.
  take_front : List A → ℕ → Option (A × Queue A)
  take_front [] n = none
  take_front (element ∷ rest) n = some (element, record { elements = rest; num_elements = n - 1 })

  unfoldable pub dequeue : Queue A → Option (A × Queue A)
  unfolding take_front
  dequeue q = if q.num_elements == 0 then none else take_front q.elements q.num_elements

  pub size : Queue A → ℕ
  size q = q.num_elements

  unfoldable pub empty : Queue A → Bool
  empty q = q.num_elements == 0

  -- `wait_empty` returns, or waits.
  pub wait_empty : Queue A → Option (Unit {0})
  wait_empty q = if q.num_elements == 0 then some tt else none

  -- The counter is the number of elements.
  abbrev pub IsValid : Queue A → Type 0
  IsValid q = q.num_elements ≡ length q.elements

  pub enqueue-IsValid : (q : Queue A) (x : A) → IsValid q → IsValid (enqueue q x)
  unfolding enqueue
  enqueue-IsValid q x v = omega (arith, length-append q.elements (x ∷ []))

  pub enqueue-elements : (q : Queue A) (x : A) → (enqueue q x).elements ≡ q.elements ++ x ∷ []
  unfolding enqueue
  enqueue-elements q x = refl

  pub dequeue-elements :
      (q : Queue A) (x : A) (q' : Queue A)
      → dequeue q ≡ some (x, q')
      → IsValid q
      → (q.elements ≡ x ∷ q'.elements) × IsValid q'
  unfolding dequeue
  dequeue-elements q x q' h v = ground arith

  -- On a valid queue `dequeue`, `empty`, `size` and `wait_empty` agree: `dequeue` waits exactly when
  -- the other three say that there is no element, and otherwise takes the oldest one.
  pub dequeue_waits :
      (q : Queue A)
      → IsValid q
      → ((q.elements ≡ []) × (dequeue q ≡ none) × (size q ≡ 0) × (wait_empty q ≡ some tt))
        ⊎ ((x : A) × (rest : List A) × (q.elements ≡ x ∷ rest)
            × (dequeue q ≡ some (x, record { elements = rest; num_elements = size q - 1 }))
            × (wait_empty q ≡ none))
  unfolding dequeue size wait_empty
  dequeue_waits q v = go q.elements refl
    where
      go :
          (l : List A)
          → q.elements ≡ l
          → ((q.elements ≡ []) × (dequeue q ≡ none) × (size q ≡ 0) × (wait_empty q ≡ some tt))
            ⊎ ((x : A) × (rest : List A) × (q.elements ≡ x ∷ rest)
                × (dequeue q ≡ some (x, record { elements = rest; num_elements = size q - 1 }))
                × (wait_empty q ≡ none))
      go [] e = inl (e, ground arith, ground arith, ground arith)
      go (x ∷ rest) e = inr (x, rest, e, ground arith, ground arith)

-- What a thread did to the queue.
pub data Event {ℓ} (A : Type ℓ) : Type ℓ where
  enqueued : A → Event A
  dequeued : A → Event A

-- The calls of all threads that returned, in the order in which they held the lock.
pub data Runs {ℓ} {A : Type ℓ} : Queue A → List (Event A) → Queue A → Type ℓ where
  stop : {q : Queue A} → Runs q [] q
  put :
      {q r : Queue A} {es : List (Event A)} (x : A)
      → Runs (enqueue q x) es r
      → Runs q (enqueued x ∷ es) r
  get :
      {q q' r : Queue A} {es : List (Event A)} (x : A)
      → dequeue q ≡ some (x, q')
      → Runs q' es r
      → Runs q (dequeued x ∷ es) r

module _ {ℓ} {A : Type ℓ} where
  abbrev pub puts : List (Event A) → List A
  puts [] = []
  puts (enqueued x ∷ es) = x ∷ puts es
  puts (dequeued x ∷ es) = puts es

  abbrev pub gets : List (Event A) → List A
  gets [] = []
  gets (enqueued x ∷ es) = gets es
  gets (dequeued x ∷ es) = x ∷ gets es

  -- First in, first out: over any run from a valid queue, what was there and what was put in is,
  -- in that order, what was taken out and what is left; and the queue stays valid.
  pub Runs-fifo :
      {q r : Queue A} {es : List (Event A)}
      → Runs q es r
      → IsValid q
      → (q.elements ++ puts es ≡ gets es ++ r.elements) × IsValid r
  Runs-fifo {q} stop v = (append-nil q.elements, v)
  Runs-fifo {q} {r} (put {es = es} x run) v =
      let ih = Runs-fifo run (enqueue-IsValid q x v) in
      let step : (q.elements ++ x ∷ []) ++ puts es ≡ gets es ++ r.elements =
        rw (enqueue-elements q x) at ih.0 in
      (rw (← append_assoc q.elements (x ∷ []) (puts es)) step, ih.1)
  Runs-fifo {q} (get {q' = q'} x e run) v =
      let d = dequeue-elements q x q' e v in
      let ih = Runs-fifo run d.1 in (rw (d.0) (ap (◌∷◌ x) ih.0), ih.1)
