-- ===== src/Utils/StackTrace/Entries.antt =====
-- The entries of a buffer of pointers, and what `insert` does to them.
use ccml.Base.{
  ℕ, ◌≡◌, refl, subst, true, [], ◌∷◌, ◌==◌, arith, Bool-cases, ◌⊎◌, inl, inr, if◌then◌else◌,
}
use ccml.Utils.StackTrace.{Buffer, insert_thread}

-- The buffer has this pointer for the thread.
abbrev pub Listed : ℕ → ℕ → Buffer → Type 0
Listed t p [] = ⊥
Listed t p ((u, q) ∷ buffer) = ((u ≡ t) × (q ≡ p)) ⊎ Listed t p buffer

-- No thread is listed twice.
abbrev pub Unique : Buffer → Type 0
Unique [] = Unit {0}
Unique ((u, q) ∷ buffer) = ((p : ℕ) → Listed u p buffer → ⊥) × Unique buffer

pub insert_here :
    (t p : ℕ) (buffer : Buffer)
    → ((q : ℕ) → Listed t q buffer → ⊥)
    → Listed t p (insert_thread t p buffer)
unfolding insert_thread
insert_here t p [] h = inl (refl, refl)
insert_here t p ((u, q) ∷ buffer) h = elim (Bool-cases (u == t)) [
  | inl e ↦ absurd (h q (inl (ground arith, refl)))
  | inr e ↦ rw e (inr (insert_here t p buffer (λ r k. h r (inr k))))
]

pub insert_other :
    (t p u r : ℕ) (buffer : Buffer) → Listed u r buffer → Listed u r (insert_thread t p buffer)
unfolding insert_thread
insert_other t p u r [] h = absurd h
insert_other t p u r ((v, q) ∷ buffer) h = elim (Bool-cases (v == t)) [
  | inl e ↦ rw e h
  | inr e ↦ rw e (elim h [ inl k ↦ inl k | inr k ↦ inr (insert_other t p u r buffer k) ])
]

pub insert_only :
    (t p u r : ℕ) (buffer : Buffer)
    → Listed u r (insert_thread t p buffer)
    → Listed u r buffer ⊎ ((t ≡ u) × (p ≡ r))
unfolding insert_thread
insert_only t p u r [] (inl h) = inr h
insert_only t p u r [] (inr h) = absurd h
insert_only t p u r ((v, q) ∷ buffer) h = elim (Bool-cases (v == t)) [
  | inl e ↦ inl (
      subst (λ b. Listed u r (if b then (v, q) ∷ buffer else (v, q) ∷ insert_thread t p buffer)) e
        h)
  | inr e ↦
      elim (subst
        (λ b. Listed u r (if b then (v, q) ∷ buffer else (v, q) ∷ insert_thread t p buffer)) e h) [
          | inl k ↦ inl (inl k)
          | inr k ↦ elim (insert_only t p u r buffer k) [ inl l ↦ inl (inr l) | inr l ↦ inr l ]
        ]
]

pub insert-Unique : (t p : ℕ) (buffer : Buffer) → Unique buffer → Unique (insert_thread t p buffer)
unfolding insert_thread
insert-Unique t p [] h = (λ q l. absurd l, tt)
insert-Unique t p ((u, q) ∷ buffer) h = elim (Bool-cases (u == t)) [
  | inl e ↦ rw e h
  | inr e ↦ rw e (
    λ r l. elim (insert_only t p u r buffer l) [
      | inl k ↦ h.0 r k
      | inr k ↦ let same : (u == t) ≡ true = ground (arith, k.0) in absurd (ground (arith, e, same))
    ],
    insert-Unique t p buffer h.1,
  )
]
