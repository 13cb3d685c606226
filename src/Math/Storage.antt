-- ===== src/Math/Storage.antt =====
-- src/math/Storage.h, src/math/Storage.cpp and the RWLock of src/core/Locks.h: `get_cpu_allocator`, called by any
-- number of threads. A thread is an index; its steps are the accesses to the lock and to
-- `_cpu_allocator`, interleaved in any order.
use ccml.Base.{
  ℕ, ◌+◌, ◌-◌, ◌≤◌, ◌≡◌, refl, Bool, true, false, Option, none, some, ◌==◌, if◌then◌else◌, arith,
}

-- `pthread_rwlock_t`: the number of readers, and whether a writer has it.
pub record RwLock : Type 0 where
  pub readers : ℕ
  pub writer : Bool

-- `StorageEngine`; `created` counts the calls of `new PoolAllocator`, and the pointer that the n-th
-- call returns is written n.
pub record StorageEngine : Type 0 where
  pub lock : RwLock
  pub cpu_allocator : Option ℕ
  pub created : ℕ

-- Where a thread stands in `get_cpu_allocator`.
pub data Pc : Type 0 where
  start : Pc
  reading : Pc  -- the ReadLockGuard is held
  between : Pc  -- after the first block
  writing : Pc  -- the lock_guard is held
  creating : Pc  -- `_cpu_allocator == nullptr` was true, `new` is next
  leaving : ℕ → Pc  -- the pointer to return is read, the lock_guard is held
  done : ℕ → Pc

abbrev set_lock : StorageEngine → ℕ → Bool → StorageEngine
set_lock s r w = record s { lock = record { readers = r; writer = w } }

-- One step of one thread.
pub data Move (s : StorageEngine) : Pc → StorageEngine → Pc → Type 0 where
  lock_shared : s.lock.writer ≡ false → Move s start (set_lock s (s.lock.readers + 1) false) reading
  found :
      (p : ℕ)
      → s.cpu_allocator ≡ some p
      → Move s reading (set_lock s (s.lock.readers - 1) s.lock.writer) (done p)
  missing :
      s.cpu_allocator ≡ none
      → Move s reading (set_lock s (s.lock.readers - 1) s.lock.writer) between
  lock : s.lock.writer ≡ false → s.lock.readers ≡ 0 → Move s between (set_lock s 0 true) writing
  is_null : s.cpu_allocator ≡ none → Move s writing s creating
  not_null : (p : ℕ) → s.cpu_allocator ≡ some p → Move s writing s (leaving p)
  create :
      Move s creating
        (record s { cpu_allocator = some s.created; created = s.created + 1 })
        (leaving s.created)
  unlock : (p : ℕ) → Move s (leaving p) (set_lock s s.lock.readers false) (done p)

pub record System : Type 0 where
  pub engine : StorageEngine
  pub pc : ℕ → Pc

-- The program counters with that of thread `i` replaced.
abbrev pub update : (ℕ → Pc) → ℕ → Pc → ℕ → Pc
update f i p j = if i == j then p else f j

pub data Step (s : System) : System → Type 0 where
  pick :
      (i : ℕ) {e : StorageEngine} {p : Pc}
      → Move s.engine (s.pc i) e p
      → Step s (record { engine = e; pc = update s.pc i p })

-- Before the first call.
abbrev pub init : System
init = record {
  engine = record {
    lock = record { readers = 0; writer = false };
    cpu_allocator = none;
    created = 0;
  };
  pc = λ _. start;
}

pub data Reach : System → Type 0 where
  here : Reach init
  next : {s t : System} → Reach s → Step s t → Reach t

-- The thread has the lock for writing.
abbrev writes : Pc → Bool
writes writing = true
writes creating = true
writes (leaving _) = true
writes _ = false

-- Either nothing is created, or one allocator is and `_cpu_allocator` points to it.
abbrev Created : StorageEngine → Type 0
Created e = elim e.cpu_allocator [ none ↦ e.created ≡ 0 | some p ↦ (p ≡ 0) × (e.created ≡ 1) ]

record Inv (e : StorageEngine) (pc : ℕ → Pc) : Type 0 where
  created : Created e
  held : (i : ℕ) → writes (pc i) ≡ true → e.lock.writer ≡ true
  alone : (i j : ℕ) → writes (pc i) ≡ true → writes (pc j) ≡ true → i ≡ j
  empty : (i : ℕ) → pc i ≡ creating → e.cpu_allocator ≡ none
  right : (i p : ℕ) → (pc i ≡ leaving p) → e.cpu_allocator ≡ some p
  settled : (i p : ℕ) → (pc i ≡ done p) → e.cpu_allocator ≡ some p

init-Inv : Inv init.engine init.pc
init-Inv = record {
  created = refl;
  held = λ i h. cc;
  alone = λ i j h k. cc;
  empty = λ i h. cc;
  right = λ i p h. cc;
  settled = λ i p h. cc;
}

module _ {e : StorageEngine} {pc : ℕ → Pc} (v : Inv e pc) (i : ℕ) where
  -- One field of the invariant after one step of thread `i`, for each field.
  Move-Created : {f : StorageEngine} {q p : Pc} → pc i ≡ q → Move e q f p → Created f
  Move-Created h (lock_shared w) = v.created
  Move-Created h (found p w) = v.created
  Move-Created h (missing w) = v.created
  Move-Created h (lock w r) = v.created
  Move-Created h (is_null w) = v.created
  Move-Created h (not_null p w) = v.created
  Move-Created h create = ground (arith, v.created, v.empty i)
  Move-Created h (unlock p) = v.created

  Move-held :
      {f : StorageEngine} {q p : Pc}
      → pc i ≡ q
      → Move e q f p
      → (j : ℕ) → writes (update pc i p j) ≡ true
      → f.lock.writer ≡ true
  Move-held h (lock_shared w) j k = ground (arith, v.held j)
  Move-held h (found p w) j k = ground (arith, v.held j)
  Move-held h (missing w) j k = ground (arith, v.held j)
  Move-held h (lock w r) j k = refl
  Move-held h (is_null w) j k = ground (arith, v.held j, v.held i)
  Move-held h (not_null p w) j k = ground (arith, v.held j, v.held i)
  Move-held h create j k = ground (arith, v.held j, v.held i)
  Move-held h (unlock p) j k = ground (arith, v.held j, v.alone i j)

  Move-alone :
      {f : StorageEngine} {q p : Pc}
      → pc i ≡ q
      → Move e q f p
      → (j k : ℕ) → writes (update pc i p j) ≡ true
      → writes (update pc i p k) ≡ true
      → j ≡ k
  Move-alone h (lock_shared w) j k a b = ground (arith, v.alone j k)
  Move-alone h (found p w) j k a b = ground (arith, v.alone j k)
  Move-alone h (missing w) j k a b = ground (arith, v.alone j k)
  Move-alone h (lock w r) j k a b = ground (arith, v.held j, v.held k)
  Move-alone h (is_null w) j k a b = ground (arith, v.alone j k, v.alone i j, v.alone i k)
  Move-alone h (not_null p w) j k a b = ground (arith, v.alone j k, v.alone i j, v.alone i k)
  Move-alone h create j k a b = ground (arith, v.alone j k, v.alone i j, v.alone i k)
  Move-alone h (unlock p) j k a b = ground (arith, v.alone j k)

  Move-empty :
      {f : StorageEngine} {q p : Pc}
      → pc i ≡ q
      → Move e q f p
      → (j : ℕ) → update pc i p j ≡ creating
      → f.cpu_allocator ≡ none
  Move-empty h (lock_shared w) j k = ground (arith, v.empty j)
  Move-empty h (found p w) j k = ground (arith, v.empty j)
  Move-empty h (missing w) j k = ground (arith, v.empty j)
  Move-empty h (lock w r) j k = ground (arith, v.empty j)
  Move-empty h (is_null w) j k = w
  Move-empty h (not_null p w) j k = ground (arith, v.empty j)
  Move-empty h create j k = ground (arith, v.alone i j)
  Move-empty h (unlock p) j k = ground (arith, v.empty j)

  Move-right :
      {f : StorageEngine} {q p : Pc}
      → pc i ≡ q
      → Move e q f p
      → (j r : ℕ) → update pc i p j ≡ leaving r
      → f.cpu_allocator ≡ some r
  Move-right h (lock_shared w) j r k = ground (arith, v.right j r)
  Move-right h (found p w) j r k = ground (arith, v.right j r)
  Move-right h (missing w) j r k = ground (arith, v.right j r)
  Move-right h (lock w x) j r k = ground (arith, v.right j r)
  Move-right h (is_null w) j r k = ground (arith, v.right j r)
  Move-right h (not_null p w) j r k = ground (arith, v.right j r)
  Move-right h create j r k = ground (arith, v.alone i j)
  Move-right h (unlock p) j r k = ground (arith, v.right j r)

  Move-settled :
      {f : StorageEngine} {q p : Pc}
      → pc i ≡ q
      → Move e q f p
      → (j r : ℕ) → update pc i p j ≡ done r
      → f.cpu_allocator ≡ some r
  Move-settled h (lock_shared w) j r k = ground (arith, v.settled j r)
  Move-settled h (found p w) j r k = ground (arith, v.settled j r)
  Move-settled h (missing w) j r k = ground (arith, v.settled j r)
  Move-settled h (lock w x) j r k = ground (arith, v.settled j r)
  Move-settled h (is_null w) j r k = ground (arith, v.settled j r)
  Move-settled h (not_null p w) j r k = ground (arith, v.settled j r)
  Move-settled h create j r k = ground (arith, v.settled j r, v.empty i)
  Move-settled h (unlock p) j r k = ground (arith, v.settled j r, v.right i p)

Step-Inv : {s t : System} → Step s t → Inv s.engine s.pc → Inv t.engine t.pc
Step-Inv (pick i mv) v = record {
  created = Move-Created v i refl mv;
  held = Move-held v i refl mv;
  alone = Move-alone v i refl mv;
  empty = Move-empty v i refl mv;
  right = Move-right v i refl mv;
  settled = Move-settled v i refl mv;
}

Reach-Inv : {s : System} → Reach s → Inv s.engine s.pc
Reach-Inv here = init-Inv
Reach-Inv (next r st) = Step-Inv st (Reach-Inv r)

-- However the threads interleave, at most one allocator is ever created, and every thread that has
-- returned got the pointer to it.
pub get_cpu_allocator_once :
    {s : System}
    → Reach s
    → (s.engine.created ≤ 1)
      × ((i p : ℕ) → s.pc i ≡ done p → (s.engine.cpu_allocator ≡ some p) × (p ≡ 0))
get_cpu_allocator_once {s} r =
    let v = Reach-Inv r in
    (ground (arith, v.created), λ i p h. ground (arith, v.created, v.settled i p))
