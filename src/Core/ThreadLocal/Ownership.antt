-- ===== src/Core/ThreadLocal/Ownership.antt =====
-- Every object belongs to one thread.
use ccml.Base.{
  ℕ, ◌<◌, ◌≡◌, ◌≢◌, refl, ap, ◌∙◌, Bool, true, false, Option, none, some, arith, ==-refl,
  Bool-cases, Option-cases, inl, inr,
}
use ccml.Utils.Logging.{quiet}
use ccml.Utils.Logging.Quiet.{result}
use ccml.Core.ThreadLocal.{
  ThreadLocal, updated, allocate, delete_object, data_destructor, set_specific, checked_set,
  create_local, get_from, get, release, set_released, set, thread_exit,
}

-- Each thread's pointer is to an object that is not deleted, and no two threads have the same one.
pub record IsOwned {T : Type 0} (s : ThreadLocal T) : Type 0 where
  pub live : (t p : ℕ) → s.specific t ≡ some p → (s.objects p ≢ none) × (p < s.next)
  pub apart : (t u p : ℕ) → s.specific t ≡ some p → s.specific u ≡ some p → t ≡ u

module _ {T : Type 0} (s : ThreadLocal T) (v : IsOwned s) where
  allocate-IsOwned : (x : T) → IsOwned (allocate x s).1
  unfolding allocate
  allocate-IsOwned x = record {
    live = λ t p h. let l = v.live t p h in ground (arith, l.0, l.1);
    apart = v.apart;
  }

  -- A new object goes to the thread that has none.
  pub give-IsOwned :
      (t : ℕ) (x : T) → IsOwned (set_specific t (some (allocate x s).0) (allocate x s).1)
  unfolding allocate set_specific
  give-IsOwned t x = record {
    live = λ u p h. ground (arith, v.live u p);
    apart = λ u w p h k. ground (arith, v.live u p, v.live w p, v.apart u w p);
  }

  -- The state in which a thread has given up its object `p`, which is deleted.
  abbrev pub dropped : ℕ → ℕ → ThreadLocal T
  dropped t p = record s {
    objects = updated s.objects p none;
    specific = updated s.specific t none;
  }

  drop-IsOwned : (t p : ℕ) → s.specific t ≡ some p → IsOwned (dropped t p)
  drop-IsOwned t p e = record {
    live = λ u q h. ground (arith, v.live u q, v.apart t u p);
    apart = λ u w q h k. ground (arith, v.apart u w q);
  }

  -- A thread with no object gives up nothing.
  clear-IsOwned : (t : ℕ) → IsOwned (set_specific t none s)
  unfolding set_specific
  clear-IsOwned t = record {
    live = λ u q h. ground (arith, v.live u q);
    apart = λ u w q h k. ground (arith, v.apart u w q);
  }

-- What is left if there is one.
abbrev pub Left : {T : Type 0} → Option (ThreadLocal T) → Type 0
Left none = ⊥
Left (some s) = IsOwned s

data_destructor-live :
    {T : Type 0} (s : ThreadLocal T) (p : ℕ)
    → s.objects p ≢ none
    → data_destructor p s ≡ some (record s { objects = updated s.objects p none })
unfolding data_destructor delete_object
data_destructor-live s p h = elim (Option-cases (s.objects p)) [
  | inl e ↦ absurd (h e)
  | inr (x, e) ↦ ap (λ o. delete_object p o s) e
]

-- When a thread ends, its object is deleted once, no other thread has it, and every other object still
-- belongs to one thread.
pub thread_exit-IsOwned :
    {T : Type 0} (s : ThreadLocal T) (t : ℕ) → IsOwned s → Left (thread_exit t s)
unfolding thread_exit release set_specific
thread_exit-IsOwned s t v = elim (Option-cases (s.specific t)) [
  | inl e ↦ rw e (clear-IsOwned s v t)
  | inr (p, e) ↦
      rw (e, data_destructor-live (set_specific t none s) p (v.live t p e).0)
        (drop-IsOwned s v t p e)
]

-- The end of a thread that has an object.
pub thread_exit-live :
    {T : Type 0} (s : ThreadLocal T) (t p : ℕ) (v : IsOwned s)
    → s.specific t ≡ some p
    → thread_exit t s ≡ some (dropped s v t p)
unfolding thread_exit release set_specific
thread_exit-live s t p v e =
    rw (e, data_destructor-live (set_specific t none s) p (v.live t p e).0) refl

module _ {T : Type 0} (stores : ℕ → Bool) where
  -- The pointer that `get` returned to a thread is to an object of its own.
  abbrev pub Private : ℕ → Option ℕ × ThreadLocal T → Type 0
  Private t (none, s) = Unit {0}
  Private t (some p, s) = (s.objects p ≢ none) × ((u : ℕ) → s.specific u ≡ some p → u ≡ t)

  get_from-IsOwned :
      (fresh : T) (t : ℕ) (create : Bool) (o : Option ℕ) (s : ThreadLocal T)
      → IsOwned s
      → s.specific t ≡ o
      → IsOwned (get_from stores fresh t create o s).value.1
        × Private t (get_from stores fresh t create o s).value
  unfolding get_from create_local checked_set allocate set_specific
  get_from-IsOwned fresh t create (some p) s v e = (v, ((v.live t p e).0, λ u h. v.apart u t p h e))
  get_from-IsOwned fresh t false none s v e = (v, tt)
  get_from-IsOwned fresh t true none s v e = elim (Bool-cases (stores t)) [
    | inl y ↦
        rw y (give-IsOwned s v t fresh, (ground arith, λ u h. ground (arith, v.live u s.next)))
    | inr n ↦
        rw n (allocate-IsOwned s v fresh, (ground arith, λ u h. ground (arith, v.live u s.next)))
  ]

  -- `get` keeps every object with one thread, and what it returns to a thread is an object of its own,
  -- also when the pointer could not be stored.
  pub get-IsOwned :
      (fresh : T) (t : ℕ) (create : Bool) (s : ThreadLocal T)
      → IsOwned s
      → IsOwned (get stores fresh t create s).value.1
        × Private t (get stores fresh t create s).value
  unfolding get
  get-IsOwned fresh t create s v = get_from-IsOwned fresh t create (s.specific t) s v refl

  -- `set` with the pointer that the thread has already deletes the object and keeps the pointer, so that
  -- the end of the thread deletes it again, which is undefined.
  pub set_same :
      (t p : ℕ) (s : ThreadLocal T)
      → IsOwned s
      → s.specific t ≡ some p
      → stores t ≡ true
      → (s' : ThreadLocal T) × (result (set stores t (some p) s) ≡ some s')
        × (s'.specific t ≡ some p)
        × (s'.objects p ≡ none)
        × (thread_exit t s' ≡ none)
  unfolding set set_released release checked_set set_specific thread_exit data_destructor
      delete_object
  set_same t p s v e y = (
    record s { objects = updated s.objects p none; specific = updated s.specific t (some p) },
    ap (λ o. result (set_released stores t (some p) (release o s))) e
        ∙ (ap (λ o. result (set_released stores t (some p) o))
              (data_destructor-live s p (v.live t p e).0)
            ∙ rw y refl),
    ground arith,
    ground arith,
    rw (==-refl t, release, ==-refl p) refl,
  )

  pub get_known :
      (fresh : T) (t p : ℕ) (create : Bool) (s : ThreadLocal T)
      → s.specific t ≡ some p
      → get stores fresh t create s ≡ quiet (some p, s)
  unfolding get get_from
  get_known fresh t p create s e = ap (λ o. get_from stores fresh t create o s) e
