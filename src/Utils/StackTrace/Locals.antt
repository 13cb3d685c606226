-- ===== src/Utils/StackTrace/Locals.antt =====
-- A thread's object behind a pointer that is kept in the thread and in a buffer: the first use makes
-- both, and a change through it is a change of that thread's value alone.
use ccml.Base.{
  ℕ, ◌≡◌, refl, sym, ap, ◌∙◌, subst, Bool, true, false, Option, none, some, ◌==◌, arith, Bool-cases,
  Option-cases, inl, inr, if◌then◌else◌,
}
use ccml.Utils.Logging.{Logged, quiet, behind, ◌>>=◌}
use ccml.Utils.Logging.Quiet.{bound, after_log-quiet}
use ccml.Core.ThreadLocal.{
  ThreadLocal, updated, allocate, set_specific, checked_set, create_local, get_from, get,
}
use ccml.Core.ThreadLocal.Ownership.{IsOwned, give-IsOwned}
use ccml.Utils.StackTrace.{
  Buffer, insert_thread, registered, looked_up, get_threadlocal, changed, modified, with_local,
}
use ccml.Utils.StackTrace.Entries.{
  Listed, Unique, insert_here, insert_other, insert_only, insert-Unique,
}
use ccml.Utils.StackTrace.Stacks.{with_local_known}

-- Every object belongs to one thread, and the buffer lists exactly the threads' pointers, each once.
pub record IsKept {A : Type 0} (s : ThreadLocal A) (buffer : Buffer) : Type 0 where
  pub owned : IsOwned s
  pub listed : (t p : ℕ) → s.specific t ≡ some p → Listed t p buffer
  pub only : (t p : ℕ) → Listed t p buffer → s.specific t ≡ some p
  pub unique : Unique buffer

-- What a thread has: its object, and a new one if it has none.
or_fresh : {A : Type 0} → A → Option A → A
or_fresh fresh none = fresh
or_fresh fresh (some x) = x

pointed : {A : Type 0} → A → (ℕ → Option A) → Option ℕ → A
unfolding or_fresh
pointed fresh objects none = fresh
pointed fresh objects (some p) = or_fresh fresh (objects p)

unfoldable pub local_of : {A : Type 0} → A → ThreadLocal A → ℕ → A
unfolding pointed
local_of fresh s t = pointed fresh s.objects (s.specific t)

-- The thread's value after a change: `none` is undefined; otherwise nothing is logged, the other
-- threads' values are what they were, and every object is still kept for one thread.
abbrev pub Stored :
    {A : Type 0}
    → A
    → ℕ
    → ThreadLocal A
    → Option A
    → Option (Logged (ThreadLocal A × Buffer))
    → Type 0
Stored fresh t s none r = r ≡ none
Stored {A} fresh t s (some y) r =
    (s' : ThreadLocal A) × (buffer : Buffer) × (r ≡ some (quiet (s', buffer)))
    × IsKept s' buffer
    × ((u : ℕ) → local_of fresh s' u ≡ updated (local_of fresh s) t y u)

module _ {A : Type 0} (fresh : A) (s : ThreadLocal A) where
  pub local_of-known :
      (t p : ℕ) (x : A) → s.specific t ≡ some p → s.objects p ≡ some x → local_of fresh s t ≡ x
  unfolding local_of
  local_of-known t p x e o = ap (pointed fresh s.objects) e ∙ ap (or_fresh fresh) o

  -- The state in which the object has another value.
  abbrev pub with_value : ℕ → A → ThreadLocal A
  with_value p y = record s { objects = updated s.objects p (some y) }

  pub with_value-IsKept :
      (t p : ℕ) (y : A) (buffer : Buffer) → IsKept s buffer → IsKept (with_value p y) buffer
  with_value-IsKept t p y buffer k = record {
    owned = record { live = λ u q h. ground (arith, k.owned.live u q); apart = k.owned.apart };
    listed = k.listed;
    only = k.only;
    unique = k.unique;
  }

  pub local_of-with_value :
      (t p : ℕ) (y : A) (u : ℕ)
      → IsOwned s
      → s.specific t ≡ some p
      → local_of fresh (with_value p y) u ≡ updated (local_of fresh s) t y u
  unfolding local_of pointed or_fresh
  local_of-with_value t p y u v e = ground (arith, v.apart t u p)

  -- The state in which a thread that had none has a new object.
  abbrev given : ℕ → ThreadLocal A
  given t = set_specific t (some (allocate fresh s).0) (allocate fresh s).1

  given-IsKept :
      (t : ℕ) (buffer : Buffer)
      → IsKept s buffer
      → s.specific t ≡ none
      → IsKept (given t) (insert_thread t s.next buffer)
  unfolding allocate set_specific
  given-IsKept t buffer k e = record {
    owned = give-IsOwned s k.owned t fresh;
    listed = λ u q h. elim (Bool-cases (t == u)) [
      | inl y ↦
          let w : t ≡ u = ground arith in
          let z : s.next ≡ q = ground (arith, h) in
          subst (λ a. Listed a q (insert_thread t s.next buffer)) w
            (subst (λ a. Listed t a (insert_thread t s.next buffer)) z
              (insert_here t s.next buffer (λ r l. ground (arith, k.only t r l))))
      | inr n ↦ insert_other t s.next u q buffer (k.listed u q (ground (arith, h)))
    ];
    only = λ u q h. elim (insert_only t s.next u q buffer h) [
      | inl l ↦ let o = k.only u q l in ground arith
      | inr l ↦ ground arith
    ];
    unique = insert-Unique t s.next buffer k.unique;
  }

  local_of-given :
      (t u : ℕ) → IsOwned s → s.specific t ≡ none → local_of fresh (given t) u ≡ local_of fresh s u
  unfolding local_of pointed or_fresh allocate set_specific
  local_of-given t u v e = elim (Option-cases (s.specific u)) [
    | inl n ↦ ground arith
    | inr (p, h) ↦ let l = v.live u p h in ground (arith, l.1)
  ]

module _ {A : Type 0} (stores : ℕ → Bool) (f : A → Option A) (fresh : A) where
  -- A change of an object of the thread.
  changed-Stored :
      (t p : ℕ) (s : ThreadLocal A) (buffer : Buffer) (o : Option A)
      → IsKept s buffer
      → s.specific t ≡ some p
      → Stored fresh t s o (changed stores p s buffer o)
  unfolding changed
  changed-Stored t p s buffer none k e = refl
  changed-Stored t p s buffer (some y) k e = (
    with_value fresh s p y,
    buffer,
    refl,
    with_value-IsKept fresh s t p y buffer k,
    λ u. local_of-with_value fresh s t p y u k.owned e,
  )

  with_local_old :
      (t p : ℕ) (x : A) (s : ThreadLocal A) (buffer : Buffer)
      → IsKept s buffer
      → s.specific t ≡ some p
      → s.objects p ≡ some x
      → Stored fresh t s (f (local_of fresh s t)) (with_local stores f fresh t s buffer)
  with_local_old t p x s buffer k e o =
      rw (local_of-known fresh s t p x e o, with_local_known stores f fresh t p s buffer x e o)
        (changed-Stored t p s buffer (f x) k e)

  get_new :
      (t : ℕ) (s : ThreadLocal A)
      → stores t ≡ true
      → s.specific t ≡ none
      → get stores fresh t true s ≡ quiet (some s.next, given fresh s t)
  unfolding get get_from create_local checked_set set_specific allocate
  get_new t s y e = ap (λ o. get_from stores fresh t true o s) e ∙ rw y refl

  get_threadlocal_new :
      (t : ℕ) (s : ThreadLocal A) (buffer : Buffer)
      → stores t ≡ true
      → s.specific t ≡ none
      → get_threadlocal stores fresh t s buffer
        ≡ some (quiet (s.next, given fresh s t, insert_thread t s.next buffer))
  unfolding get_threadlocal looked_up registered get get_from
  get_threadlocal_new t s buffer y e =
      ap (λ o. looked_up stores fresh t buffer (get_from stores fresh t false o s).value) e
      ∙ ap
          (λ (m : Logged (Option ℕ × ThreadLocal A)).
            elim (registered stores t buffer m.value)
              as (λ _. Option (Logged (ℕ × ThreadLocal A × Buffer))) [
                | none ↦ none
                | some r ↦ some (m >>= λ _. quiet r)
              ])
          (get_new t s y e)

  given-next : (t : ℕ) (s : ThreadLocal A) → (given fresh s t).objects s.next ≡ some fresh
  unfolding set_specific allocate
  given-next t s = ground arith

  given-own : (t : ℕ) (s : ThreadLocal A) → (given fresh s t).specific t ≡ some s.next
  unfolding set_specific allocate
  given-own t s = ground arith

  -- A change of the object that a thread had just now is one of what it had before.
  Stored-given :
      (t : ℕ) (s s' : ThreadLocal A) (o : Option A) (r : Option (Logged (ThreadLocal A × Buffer)))
      → ((u : ℕ) → local_of fresh s' u ≡ local_of fresh s u)
      → Stored fresh t s' o r
      → Stored fresh t s o r
  Stored-given t s s' none r e h = h
  Stored-given t s s' (some y) r e (s2, b, q, k, w) =
      (s2, b, q, k, λ u. w u ∙ ap (λ z. if t == u then y else z) (e u))

  with_local_new :
      (t : ℕ) (s : ThreadLocal A) (buffer : Buffer)
      → stores t ≡ true
      → IsKept s buffer
      → s.specific t ≡ none
      → Stored fresh t s (f (local_of fresh s t)) (with_local stores f fresh t s buffer)
  unfolding with_local modified
  with_local_new t s buffer y k e =
      let same = local_of-given fresh s t t k.owned e in
      let own = given-own t s in
      let x = given-next t s in
      Stored-given t s (given fresh s t) _ _ (λ u. local_of-given fresh s t u k.owned e)
        (subst (λ r. Stored fresh t (given fresh s t) (f (local_of fresh s t)) r)
          (sym (
            ap (behind (modified stores f)) (get_threadlocal_new t s buffer y e)
            ∙ (after_log-quiet {A = ℕ × ThreadLocal A × Buffer}
                  (s.next, given fresh s t, insert_thread t s.next buffer) _
                ∙ (ap
                      (λ o.
                        changed stores s.next (given fresh s t) (insert_thread t s.next buffer)
                          (bound f o))
                      x
                    ∙ ap
                        (λ z.
                          changed stores s.next (given fresh s t) (insert_thread t s.next buffer)
                            (f z))
                        (sym (local_of-known fresh (given fresh s t) t s.next fresh own x)
                          ∙ same)))))
          (changed-Stored t s.next (given fresh s t) (insert_thread t s.next buffer)
            (f (local_of fresh s t)) (given-IsKept fresh s t buffer k e) own))

  -- A change through the pointer, also by a thread that has no object yet.
  pub with_local-Stored :
      (t : ℕ) (s : ThreadLocal A) (buffer : Buffer)
      → stores t ≡ true
      → IsKept s buffer
      → Stored fresh t s (f (local_of fresh s t)) (with_local stores f fresh t s buffer)
  with_local-Stored t s buffer y k = elim (Option-cases (s.specific t)) [
    | inl e ↦ with_local_new t s buffer y k e
    | inr (p, e) ↦ elim (Option-cases (s.objects p)) [
      | inl n ↦ absurd ((k.owned.live t p e).0 n)
      | inr (x, o) ↦ with_local_old t p x s buffer k e o
    ]
  ]
