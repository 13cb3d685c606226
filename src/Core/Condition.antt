-- ===== src/Core/Condition.antt =====
-- The LockedCondition of src/core/Locks.h, used by any number of threads that are interleaved. A thread is
-- an index. `std::mutex` and `std::condition_variable` behave as documented: a waiting thread gives
-- the mutex back, and goes on when it is notified, or for no reason, once it has the mutex again.
pub mod Wakeups
use ccml.Base.{ℕ, ◌+◌, ◌≡◌, ◌≢◌, Bool, true, false, Option, none, some}
use ccml.Core.ThreadLocal.{updated}

-- Where a thread stands.
pub data ThreadPc (State : Type 0) : Type 0 where
  outside : ThreadPc State
  -- in `notify_all` and `notify_one`: before the mutex is locked, before `t()`, before the call of the
  -- base class
  entering_all changing_all : (State → State) → ThreadPc State
  notifying_all : ThreadPc State
  entering_one changing_one : (State → State) → ThreadPc State
  notifying_one : ThreadPc State
  -- in `wait`: before the mutex is locked, before the predicate is called, blocked, and notified
  entering_wait testing waiting woken : (State → Bool) → ThreadPc State
  -- before the mutex is unlocked
  leaving : ThreadPc State

-- The condition with what it guards, and a history: the changes made by `notify_one`.
pub record LockedCondition (State : Type 0) : Type 0 where
  pub state : State
  pub mutex : Option ℕ
  pub pc : ℕ → ThreadPc State
  pub ones : ℕ

-- Before any call.
abbrev pub new_condition : {State : Type 0} → State → LockedCondition State
new_condition state = record { state = state; mutex = none; pc = λ i. outside; ones = 0 }

-- `notify_all` of the base class, for one thread.
unfoldable pub notified : {State : Type 0} → ThreadPc State → ThreadPc State
notified (waiting t) = woken t
notified outside = outside
notified (entering_all f) = entering_all f
notified (changing_all f) = changing_all f
notified notifying_all = notifying_all
notified (entering_one f) = entering_one f
notified (changing_one f) = changing_one f
notified notifying_one = notifying_one
notified (entering_wait t) = entering_wait t
notified (testing t) = testing t
notified (woken t) = woken t
notified leaving = leaving

module _ {State : Type 0} where
  -- Thread `i` goes on to another place.
  abbrev goes : LockedCondition State → ℕ → ThreadPc State → LockedCondition State
  goes c i p = record c { pc = updated c.pc i p }

  -- It takes the mutex.
  abbrev locks : LockedCondition State → ℕ → ThreadPc State → LockedCondition State
  locks c i p = record c { mutex = some i; pc = updated c.pc i p }

  -- One step of one thread.
  pub data Step (c : LockedCondition State) : LockedCondition State → Type 0 where
    notify_all : (i : ℕ) (f : State → State) → c.pc i ≡ outside → Step c (goes c i (entering_all f))
    lock_all :
        (i : ℕ) (f : State → State)
        → c.pc i ≡ entering_all f
        → c.mutex ≡ none
        → Step c (locks c i (changing_all f))
    change_all :
        (i : ℕ) (f : State → State)
        → c.pc i ≡ changing_all f
        → Step c (record c { state = f c.state; pc = updated c.pc i notifying_all })
    wake_all :
        (i : ℕ)
        → c.pc i ≡ notifying_all
        → Step c (record c { pc = updated (λ j. notified (c.pc j)) i leaving })
    notify_one : (i : ℕ) (f : State → State) → c.pc i ≡ outside → Step c (goes c i (entering_one f))
    lock_one :
        (i : ℕ) (f : State → State)
        → c.pc i ≡ entering_one f
        → c.mutex ≡ none
        → Step c (locks c i (changing_one f))
    change_one :
        (i : ℕ) (f : State → State)
        → c.pc i ≡ changing_one f
        → Step c
            (record c { state = f c.state; pc = updated c.pc i notifying_one; ones = c.ones + 1 })
    wake_one :
        (i j : ℕ) (t : State → Bool)
        → c.pc i ≡ notifying_one
        → c.pc j ≡ waiting t
        → Step c (record c { pc = updated (updated c.pc j (woken t)) i leaving })
    wake_none :
        (i : ℕ)
        → c.pc i ≡ notifying_one
        → ((j : ℕ) (t : State → Bool) → c.pc j ≢ waiting t)
        → Step c (goes c i leaving)
    wait : (i : ℕ) (t : State → Bool) → c.pc i ≡ outside → Step c (goes c i (entering_wait t))
    lock_wait :
        (i : ℕ) (t : State → Bool)
        → c.pc i ≡ entering_wait t
        → c.mutex ≡ none
        → Step c (locks c i (testing t))
    passes :
        (i : ℕ) (t : State → Bool)
        → c.pc i ≡ testing t
        → t c.state ≡ true
        → Step c (goes c i leaving)
    blocks :
        (i : ℕ) (t : State → Bool)
        → c.pc i ≡ testing t
        → t c.state ≡ false
        → Step c (record c { mutex = none; pc = updated c.pc i (waiting t) })
    wakes : (i : ℕ) (t : State → Bool) → c.pc i ≡ waiting t → Step c (goes c i (woken t))
    relocks :
        (i : ℕ) (t : State → Bool)
        → c.pc i ≡ woken t
        → c.mutex ≡ none
        → Step c (locks c i (testing t))
    unlock :
        (i : ℕ) → c.pc i ≡ leaving → Step c (record c { mutex = none; pc = updated c.pc i outside })

  -- The states that the threads can bring about from one with `initial`.
  pub data Reach (initial : State) : LockedCondition State → Type 0 where
    here : Reach initial (new_condition initial)
    next : {c d : LockedCondition State} → Reach initial c → Step c d → Reach initial d
