-- ===== src/Tests/Conditions.antt =====
-- The theorem on LockedCondition at a concrete run.
use ccml.Base.{ℕ, ◌≡◌, refl, Bool, false, leb}
use ccml.Core.Condition.{
  LockedCondition, waiting, notified, Reach, here, next, wait, lock_wait, blocks, notify_all,
  lock_all, change_all, wake_all, unlock, relocks,
}
use ccml.Core.Condition.Wakeups.{Reach-waiting}

-- What thread 1 waits for.
abbrev not_zero : ℕ → Bool
not_zero n = leb 1 n

-- A change that leaves the number as it is.
abbrev same : ℕ → ℕ
same n = n

-- Thread 1 waits; thread 2 notifies it, and it waits again.
waits_again : (c : LockedCondition ℕ) × Reach 0 c × (c.pc 1 ≡ waiting not_zero)
unfolding notified
waits_again =
    let r1 : Reach 0 _ = next here (wait 1 not_zero refl) in
    let r2 : Reach 0 _ = next r1 (lock_wait 1 not_zero refl refl) in
    let r3 : Reach 0 _ = next r2 (blocks 1 not_zero refl refl) in
    let r4 : Reach 0 _ = next r3 (notify_all 2 same refl) in
    let r5 : Reach 0 _ = next r4 (lock_all 2 same refl refl) in
    let r6 : Reach 0 _ = next r5 (change_all 2 same refl) in
    let r7 : Reach 0 _ = next r6 (wake_all 2 refl) in
    let r8 : Reach 0 _ = next r7 (unlock 2 refl) in
    let r9 : Reach 0 _ = next r8 (relocks 1 not_zero refl refl) in
    (_, next r9 (blocks 1 not_zero refl refl), refl)

Reach-waiting_example : not_zero waits_again.0.state ≡ false
Reach-waiting_example =
    Reach-waiting waits_again.0 1 not_zero waits_again.1 (unfold waits_again in refl)
      (unfold waits_again in refl) waits_again.2
