-- ===== src/Core/Condition/Wakeups.antt =====
-- No wake-up is lost.
use ccml.Base.{
  ℕ, ◌≡◌, ◌≢◌, refl, sym, ap, ◌∙◌, Bool, true, false, Option, none, some, arith, Bool-cases, ◌⊎◌,
  inl, inr, ◌==◌,
}
use ccml.Core.ThreadLocal.{updated}
use ccml.Core.Condition.{
  ThreadPc, outside, entering_all, changing_all, notifying_all, entering_one, changing_one,
  notifying_one, entering_wait, testing, waiting, woken, leaving, LockedCondition, notified, Step,
  notify_all, lock_all, change_all, wake_all, notify_one, lock_one, change_one, wake_one, wake_none,
  wait, lock_wait, passes, blocks, wakes, relocks, unlock, Reach, here, next,
}

-- The threads that have the mutex.
pub has_mutex : {State : Type 0} → ThreadPc State → Bool
has_mutex outside = false
has_mutex (entering_all f) = false
has_mutex (changing_all f) = true
has_mutex notifying_all = true
has_mutex (entering_one f) = false
has_mutex (changing_one f) = true
has_mutex notifying_one = true
has_mutex (entering_wait t) = false
has_mutex (testing t) = true
has_mutex (waiting t) = false
has_mutex (woken t) = false
has_mutex leaving = true

is_waiting : {State : Type 0} → ThreadPc State → Bool
is_waiting (waiting t) = true
is_waiting p = false

is_notifying_all : {State : Type 0} → ThreadPc State → Bool
is_notifying_all notifying_all = true
is_notifying_all p = false

module _ {State : Type 0} where
  -- Only one thread has the mutex, the one that it names.
  abbrev pub Owned : (ℕ → ThreadPc State) → Option ℕ → Type 0
  Owned pc mutex = (k : ℕ) → has_mutex (pc k) ≡ true → mutex ≡ some k

  -- A thread that waits has a predicate that is false, or is about to be notified, or something was
  -- changed by `notify_one`.
  abbrev pub Waits : (ℕ → ThreadPc State) → State → ℕ → Type 0
  Waits pc state ones =
      (k : ℕ) (t : State → Bool)
      → pc k ≡ waiting t
      → (ones ≢ 0) ⊎ (t state ≡ false) ⊎ ((j : ℕ) × (pc j ≡ notifying_all))

  module _ (pc : ℕ → ThreadPc State) (i : ℕ) (q p : ThreadPc State) (at : pc i ≡ q) where
    Owned-keeps :
        (m : Option ℕ)
        → (has_mutex p ≡ true → has_mutex q ≡ true)
        → Owned pc m
        → Owned (updated pc i p) m
    Owned-keeps m h o k = elim (Bool-cases (i == k)) [
      | inl e ↦ let w : i ≡ k = ground arith in rw (e, sym w) (λ l. o i (ap has_mutex at ∙ h l))
      | inr e ↦ rw e (o k)
    ]

    Owned-locks : (m : Option ℕ) → m ≡ none → Owned pc m → Owned (updated pc i p) (some i)
    Owned-locks m free o k = elim (Bool-cases (i == k)) [
      | inl e ↦ λ l. ground arith
      | inr e ↦ rw e (λ l. let z = sym free ∙ o k l in ground (arith, z))
    ]

    Owned-unlocks :
        (m : Option ℕ)
        → has_mutex q ≡ true
        → has_mutex p ≡ false
        → Owned pc m
        → Owned (updated pc i p) none
    Owned-unlocks m h h' o k = elim (Bool-cases (i == k)) [
      | inl e ↦ rw e (λ l. ground (arith, l, h'))
      | inr e ↦ rw e (λ l.
          let mine = o i (ap has_mutex at ∙ h) in let other = o k l in ground (arith, mine, other))
    ]

    Waits-moves :
        (s : State) (ones : ℕ)
        → q ≢ notifying_all
        → ((t : State → Bool) → p ≡ waiting t → t s ≡ false)
        → Waits pc s ones
        → Waits (updated pc i p) s ones
    Waits-moves s ones h new w k t = elim (Bool-cases (i == k)) [
      | inl e ↦ rw e (λ l. inr (inl (new t l)))
      | inr e ↦ rw e (λ l. elim (w k t l) [
        | inl n ↦ inl n
        | inr (inl n) ↦ inr (inl n)
        | inr (inr (j, n)) ↦ inr (inr (j, stays j n))
      ])
    ]
      where
        stays : (j : ℕ) → pc j ≡ notifying_all → updated pc i p j ≡ notifying_all
        stays j n = elim (Bool-cases (i == j)) [
          | inl e ↦ let same : i ≡ j = ground arith in absurd (h (sym at ∙ (ap pc same ∙ n)))
          | inr e ↦ rw e n
        ]

    -- A thread that does not go to wait.
    Waits-other :
        (s : State) (ones : ℕ)
        → is_notifying_all q ≡ false
        → is_waiting p ≡ false
        → Waits pc s ones
        → Waits (updated pc i p) s ones
    unfolding is_waiting is_notifying_all
    Waits-other s ones h h' w =
        Waits-moves s ones (λ e. let z = ap is_notifying_all e in ground (arith, z, h))
          (λ t e. let z = ap is_waiting e in absurd (ground (arith, z, h'))) w

  has_mutex-notified : (p : ThreadPc State) → has_mutex (notified p) ≡ has_mutex p
  unfolding has_mutex notified
  has_mutex-notified outside = refl
  has_mutex-notified (entering_all f) = refl
  has_mutex-notified (changing_all f) = refl
  has_mutex-notified notifying_all = refl
  has_mutex-notified (entering_one f) = refl
  has_mutex-notified (changing_one f) = refl
  has_mutex-notified notifying_one = refl
  has_mutex-notified (entering_wait t) = refl
  has_mutex-notified (testing t) = refl
  has_mutex-notified (waiting t) = refl
  has_mutex-notified (woken t) = refl
  has_mutex-notified leaving = refl

  -- Nobody waits behind a call for all.
  notified-ne-waiting : (p : ThreadPc State) (t : State → Bool) → notified p ≢ waiting t
  unfolding notified
  notified-ne-waiting outside t = ground arith
  notified-ne-waiting (entering_all f) t = ground arith
  notified-ne-waiting (changing_all f) t = ground arith
  notified-ne-waiting notifying_all t = ground arith
  notified-ne-waiting (entering_one f) t = ground arith
  notified-ne-waiting (changing_one f) t = ground arith
  notified-ne-waiting notifying_one t = ground arith
  notified-ne-waiting (entering_wait f) t = ground arith
  notified-ne-waiting (testing f) t = ground arith
  notified-ne-waiting (waiting f) t = ground arith
  notified-ne-waiting (woken f) t = ground arith
  notified-ne-waiting leaving t = ground arith

  -- The thread that is woken is not the one that notifies it.
  still_notifying :
      (c : LockedCondition State) (i j : ℕ) (t : State → Bool)
      → c.pc i ≡ notifying_one
      → c.pc j ≡ waiting t
      → updated c.pc j (woken t) i ≡ notifying_one
  unfolding is_waiting
  still_notifying c i j t at there = elim (Bool-cases (j == i)) [
    | inl e ↦
        let same : j ≡ i = ground arith in
        let z = ap is_waiting (sym there ∙ (ap c.pc same ∙ at)) in absurd (ground (arith, z))
    | inr e ↦ rw e at
  ]

  step-Owned : (c d : LockedCondition State) → Step c d → Owned c.pc c.mutex → Owned d.pc d.mutex
  unfolding has_mutex
  step-Owned c _ (notify_all i f at) o =
      Owned-keeps c.pc i _ (entering_all f) at c.mutex (λ h. absurd (ground arith)) o
  step-Owned c _ (lock_all i f at free) o = Owned-locks c.pc i _ (changing_all f) at c.mutex free o
  step-Owned c _ (change_all i f at) o = Owned-keeps c.pc i _ notifying_all at c.mutex (λ h. refl) o
  step-Owned c _ (wake_all i at) o =
      Owned-keeps (λ j. notified (c.pc j)) i _ leaving (ap notified at) c.mutex
        (λ h. unfold notified in refl) (λ k h. o k (sym (has_mutex-notified (c.pc k)) ∙ h))
  step-Owned c _ (notify_one i f at) o =
      Owned-keeps c.pc i _ (entering_one f) at c.mutex (λ h. absurd (ground arith)) o
  step-Owned c _ (lock_one i f at free) o = Owned-locks c.pc i _ (changing_one f) at c.mutex free o
  step-Owned c _ (change_one i f at) o = Owned-keeps c.pc i _ notifying_one at c.mutex (λ h. refl) o
  step-Owned c _ (wake_one i j t at there) o =
      Owned-keeps (updated c.pc j (woken t)) i _ leaving (still_notifying c i j t at there) c.mutex
        (λ h. refl) (Owned-keeps c.pc j _ (woken t) there c.mutex (λ h. absurd (ground arith)) o)
  step-Owned c _ (wake_none i at nobody) o = Owned-keeps c.pc i _ leaving at c.mutex (λ h. refl) o
  step-Owned c _ (wait i t at) o =
      Owned-keeps c.pc i _ (entering_wait t) at c.mutex (λ h. absurd (ground arith)) o
  step-Owned c _ (lock_wait i t at free) o = Owned-locks c.pc i _ (testing t) at c.mutex free o
  step-Owned c _ (passes i t at y) o = Owned-keeps c.pc i _ leaving at c.mutex (λ h. refl) o
  step-Owned c _ (blocks i t at n) o = Owned-unlocks c.pc i _ (waiting t) at c.mutex refl refl o
  step-Owned c _ (wakes i t at) o =
      Owned-keeps c.pc i _ (woken t) at c.mutex (λ h. absurd (ground arith)) o
  step-Owned c _ (relocks i t at free) o = Owned-locks c.pc i _ (testing t) at c.mutex free o
  step-Owned c _ (unlock i at) o = Owned-unlocks c.pc i _ outside at c.mutex refl refl o

  step-Waits :
      (c d : LockedCondition State)
      → Step c d
      → Waits c.pc c.state c.ones
      → Waits d.pc d.state d.ones
  unfolding is_waiting is_notifying_all
  step-Waits c _ (notify_all i f at) w =
      Waits-other c.pc i _ (entering_all f) at c.state c.ones refl refl w
  step-Waits c _ (lock_all i f at free) w =
      Waits-other c.pc i _ (changing_all f) at c.state c.ones refl refl w
  step-Waits c _ (change_all i f at) w = λ k t h. inr (inr (i, ground arith))
  step-Waits c _ (wake_all i at) w = λ k t h. elim (Bool-cases (i == k)) [
    | inl e ↦ absurd (ground (arith, h, e))
    | inr e ↦ absurd (notified-ne-waiting (c.pc k) t (rw e at h))
  ]
  step-Waits c _ (notify_one i f at) w =
      Waits-other c.pc i _ (entering_one f) at c.state c.ones refl refl w
  step-Waits c _ (lock_one i f at free) w =
      Waits-other c.pc i _ (changing_one f) at c.state c.ones refl refl w
  step-Waits c _ (change_one i f at) w = λ k t h. inl (omega arith)
  step-Waits c _ (wake_one i j t at there) w =
      Waits-other (updated c.pc j (woken t)) i _ leaving (still_notifying c i j t at there) c.state
        c.ones refl refl (Waits-other c.pc j _ (woken t) there c.state c.ones refl refl w)
  step-Waits c _ (wake_none i at nobody) w =
      Waits-other c.pc i _ leaving at c.state c.ones refl refl w
  step-Waits c _ (wait i t at) w =
      Waits-other c.pc i _ (entering_wait t) at c.state c.ones refl refl w
  step-Waits c _ (lock_wait i t at free) w =
      Waits-other c.pc i _ (testing t) at c.state c.ones refl refl w
  step-Waits c _ (passes i t at y) w = Waits-other c.pc i _ leaving at c.state c.ones refl refl w
  step-Waits c _ (blocks i t at n) w =
      Waits-moves c.pc i _ (waiting t) at c.state c.ones (ground arith)
        (λ u h. ground (arith, n, h)) w
  step-Waits c _ (wakes i t at) w = Waits-other c.pc i _ (woken t) at c.state c.ones refl refl w
  step-Waits c _ (relocks i t at free) w =
      Waits-other c.pc i _ (testing t) at c.state c.ones refl refl w
  step-Waits c _ (unlock i at) w = Waits-other c.pc i _ outside at c.state c.ones refl refl w

  Reach-Owned :
      {initial : State} (c : LockedCondition State)
      → Reach initial c
      → Owned c.pc c.mutex × Waits c.pc c.state c.ones
  unfolding has_mutex
  Reach-Owned _ here = (λ k h. absurd (ground arith), λ k t h. absurd (ground arith))
  Reach-Owned _ (next {c} {d} r s) =
      let (o, w) = Reach-Owned c r in (step-Owned c d s o, step-Waits c d s w)

  -- No wake-up is lost: in any interleaving of the threads in which `notify_all` alone has changed the
  -- state, whenever the mutex is free, the predicate of every thread that is blocked in `wait` is false.
  pub Reach-waiting :
      {initial : State} (c : LockedCondition State) (i : ℕ) (t : State → Bool)
      → Reach initial c
      → c.ones ≡ 0
      → c.mutex ≡ none
      → c.pc i ≡ waiting t
      → t c.state ≡ false
  unfolding has_mutex
  Reach-waiting c i t r none_one free h =
      let (o, w) = Reach-Owned c r in
      elim (w i t h) [
        | inl n ↦ absurd (n none_one)
        | inr (inl n) ↦ n
        | inr (inr (j, n)) ↦ let held = o j (ap has_mutex n) in absurd (ground (arith, held, free))
      ]
