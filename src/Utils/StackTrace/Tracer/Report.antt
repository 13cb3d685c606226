-- ===== src/Utils/StackTrace/Tracer/Report.antt =====
-- What the output function prints of a stack trace that keeps a stack for each thread.
use mathlib.Core.List.{append_assoc}
use ccml.Base.{
  ℕ, ◌≡◌, ◌≢◌, refl, sym, ap, ◌∙◌, subst, Bool, true, false, not, ◌&&◌, List, [], ◌∷◌, ◌++◌, map,
  Option, none, some, ◌==◌, ==-refl, arith, Bool-cases, Option-cases, ◌⊎◌, inl, inr, if◌then◌else◌,
}
use ccml.Utils.Logging.Quiet.{bound}
use ccml.Core.ThreadLocal.{ThreadLocal}
use ccml.Utils.StackTrace.{Buffer, CustomStackTrace, find_thread, skipped}
use ccml.Utils.StackTrace.Entries.{Listed, Unique}
use ccml.Utils.StackTrace.Locals.{IsKept, local_of-known}
use ccml.Utils.StackTrace.Threads.{View, Represents}
use ccml.Utils.StackTrace.Emptiness.{SomeEntry, empty-Represents}
use ccml.Utils.StackTrace.Drained.{dumped_view, calls_of, dump-Represents}
use ccml.Utils.StackTrace.Tracer.{
  Printed, newline, thread, forwarding, backwarding, item, message, no_thread, flag_read, flag_word,
  thread_head, printed_call, printed_calls, printed_dump, write_trace, write_failure,
}

-- `find` in a buffer that lists the threads' pointers, each once.
find_thread-Listed :
    (t p : ℕ) (buffer : Buffer) → Unique buffer → Listed t p buffer → find_thread t buffer ≡ some p
unfolding find_thread
find_thread-Listed t p [] once h = absurd h
find_thread-Listed t p ((u, q) ∷ buffer) once (inl h) = rw (h.0, ==-refl t, h.1) refl
find_thread-Listed t p ((u, q) ∷ buffer) once (inr h) = elim (Bool-cases (u == t)) [
  | inl e ↦ let w : t ≡ u = ground arith in absurd (once.0 p (subst (λ z. Listed z p buffer) w h))
  | inr e ↦ rw e (find_thread-Listed t p buffer once.1 h)
]

find_thread-none :
    (t : ℕ) (buffer : Buffer) → ((p : ℕ) → Listed t p buffer → ⊥) → find_thread t buffer ≡ none
unfolding find_thread
find_thread-none t [] h = refl
find_thread-none t ((u, q) ∷ buffer) h =
    let e : (u == t) ≡ false = ground (arith, h q) in
    rw e (find_thread-none t buffer (λ p l. h p (inr l)))

find_thread-IsKept :
    {A : Type 0} (s : ThreadLocal A) (buffer : Buffer) (t : ℕ)
    → IsKept s buffer
    → find_thread t buffer ≡ s.specific t
find_thread-IsKept s buffer t k = elim (Option-cases (s.specific t)) [
  | inl n ↦ rw n (find_thread-none t buffer (λ p l. ground (arith, k.only t p l)))
  | inr (p, e) ↦ rw e (find_thread-Listed t p buffer k.unique (k.listed t p e))
]

-- The hash tells the threads of a buffer apart.
abbrev pub Apart : (ℕ → ℕ) → Buffer → Type 0
Apart hash buffer = (t u p q : ℕ) → Listed t p buffer → Listed u q buffer → hash t ≡ hash u → t ≡ u

module _ {T : Type 0} where
  -- The word for a thread's flag, if it has one.
  pub word_for : Option ℕ → Bool → List (Printed T)
  word_for none flag = []
  word_for (some p) true = forwarding ∷ []
  word_for (some p) false = backwarding ∷ []

  flag_word-Represents :
      (v : View T) (trace : CustomStackTrace T) (t : ℕ)
      → Represents v trace
      → flag_word {T = T} trace.is_pushing.objects (find_thread t trace.pushing_buffer)
        ≡ some (word_for (trace.is_pushing.specific t) (v.flags t))
  unfolding flag_word flag_read word_for
  flag_word-Represents v trace t k =
      let s = trace.is_pushing in
      ap (flag_word s.objects) (find_thread-IsKept s trace.pushing_buffer t k.kept_flags)
      ∙ elim (Option-cases (s.specific t)) [
        | inl n ↦ rw n refl
        | inr (p, e) ↦ elim (Option-cases (s.objects p)) [
          | inl n ↦ absurd ((k.kept_flags.owned.live t p e).0 n)
          | inr (b, o) ↦
              let shows = sym (local_of-known false s t p b e o) ∙ k.shows_flags t in
              rw (e, flag_word, o) (flag_read_lem p b ∙ ap (λ z. some (word_for (some p) z)) shows)
        ]
      ]
    where
      flag_read_lem :
          (p : ℕ) (b : Bool)
          → flag_read {T = T} trace.is_pushing.objects (some b) ≡ some (word_for (some p) b)
      flag_read_lem p true = refl
      flag_read_lem p false = refl

  -- The calls for one thread, the head already printed, and more calls.
  print_items :
      (hash : ℕ → ℕ) (flags : ℕ → Option Bool) (t : ℕ) (f : Option ℕ) (xs : List T)
      (calls : List (ℕ × Option ℕ × T))
      → printed_calls hash flags (hash t) (map (λ x. (t, f, x)) xs ++ calls)
        ≡ bound (λ more. some (map item xs ++ more)) (printed_calls hash flags (hash t) calls)
  unfolding printed_calls printed_call
  print_items hash flags t f [] calls = bound_none (printed_calls hash flags (hash t) calls)
    where
      bound_none : (o : Option (List (Printed T))) → o ≡ bound (λ more. some more) o
      bound_none none = refl
      bound_none (some out) = refl
  print_items hash flags t f (x ∷ xs) calls =
      rw (==-refl (hash t), print_items hash flags t f xs calls)
        (bound_twice (printed_calls hash flags (hash t) calls))
    where
      bound_twice :
          (o : Option (List (Printed T)))
          → bound (λ more. some (item x ∷ more)) (bound (λ more. some (map item xs ++ more)) o)
            ≡ bound (λ more. some (item x ∷ map item xs ++ more)) o
      bound_twice none = refl
      bound_twice (some out) = refl

  -- What is printed of one thread: nothing if it has no items, and otherwise the head, on a new line
  -- unless it is the first one, and the items, the newest first.
  pub part_of : Bool → ℕ → List (Printed T) → List T → List (Printed T)
  part_of first t word [] = []
  part_of first t word (x ∷ xs) =
      (if first then [] else newline ∷ []) ++ thread t ∷ (word ++ map item (x ∷ xs))

  pub still_first : Bool → List T → Bool
  still_first first [] = first
  still_first first (x ∷ xs) = false

  module _ (only : Bool) (current : ℕ) (stacks : ℕ → List T) (word : ℕ → List (Printed T)) where
    abbrev shown : ℕ → List T
    shown t = if only && not (t == current) then [] else stacks t

    -- The parts of the threads of a buffer.
    pub report : Bool → Buffer → List (Printed T)
    unfolding part_of still_first
    report first [] = []
    report first ((t, p) ∷ buffer) =
        part_of first t (word t) (shown t) ++ report (still_first first (shown t)) buffer

    module _ (stores : ℕ → Bool) (item_eq : T → T → Bool) (hash : ℕ → ℕ) (flags : ℕ → Option Bool)
        (pushing : Buffer) where
      print_shown :
          (cur t : ℕ) (f : Option ℕ) (xs : List T) (calls : List (ℕ × Option ℕ × T))
          (rest : Bool → List (Printed T))
          → (cur == hash t) ≡ false
          → flag_word flags f ≡ some (word t)
          → printed_calls hash flags cur calls ≡ some (rest (cur == no_thread))
          → printed_calls hash flags (hash t) calls ≡ some (rest false)
          → printed_calls hash flags cur (map (λ x. (t, f, x)) xs ++ calls)
            ≡ some (
                part_of (cur == no_thread) t (word t) xs
                ++ rest (still_first (cur == no_thread) xs))
      unfolding printed_calls printed_call thread_head part_of still_first
      print_shown cur t f [] calls rest e w same other = same
      print_shown cur t f (x ∷ xs) calls rest e w same other =
          rw (e, w, print_items hash flags t f xs calls, other) (ap some (simp (append_assoc)))

      shown_calls :
          (t : ℕ) (f : Option ℕ)
          → if◌then◌else◌ {A = List (ℕ × Option ℕ × T)}
              (skipped stores item_eq only current t)
              []
              (map (λ x. (t, f, x)) (stacks t))
            ≡ map (λ x. (t, f, x)) (shown t)
      unfolding skipped
      shown_calls t f = elim (Bool-cases (only && not (t == current))) [
        | inl e ↦ rw e refl
        | inr e ↦ rw e refl
      ]

      print_buffer :
          (buffer : Buffer) (cur : ℕ)
          → Apart hash buffer
          → ((t p : ℕ) → Listed t p buffer → hash t ≢ no_thread)
          → ((t : ℕ) → flag_word flags (find_thread t pushing) ≡ some (word t))
          → Unique buffer
          → ((t p : ℕ) → Listed t p buffer → hash t ≢ cur)
          → printed_calls hash flags cur
              (calls_of stores item_eq only current pushing stacks buffer)
            ≡ some (report (cur == no_thread) buffer)
      unfolding calls_of report printed_calls
      print_buffer [] cur inj proper w once fresh = refl
      print_buffer ((t, p) ∷ buffer) cur inj proper w once fresh =
          ap
            (λ c.
              printed_calls hash flags cur
                (c ++ calls_of stores item_eq only current pushing stacks buffer))
            (shown_calls t (find_thread t pushing))
          ∙ print_shown cur t (find_thread t pushing) (shown t) _ (λ b. report b buffer)
              (let d = fresh t p (inl (refl, refl)) in ground (arith, d)) (w t)
              (print_buffer buffer cur apart proper' w once.1 (λ u q l. fresh u q (inr l)))
              (print_buffer buffer (hash t) apart proper' w once.1 (λ u q l h.
                  once.0 q
                    (subst (λ z. Listed z q buffer) (inj u t q p (inr l) (inl (refl, refl)) h) l))
                ∙ ap (λ b. some (report b buffer))
                    (let d = proper t p (inl (refl, refl)) in ground (arith, d)))
        where
          apart : Apart hash buffer
          apart u v q r l m = inj u v q r (inr l) (inr m)

          proper' : (u q : ℕ) → Listed u q buffer → hash u ≢ no_thread
          proper' u q l = proper u q (inr l)

module _ {T : Type 0} (stores : ℕ → Bool) (item_eq : T → T → Bool) (hash : ℕ → ℕ) where
  -- What the output function gives on a trace where the threads see `v`.
  abbrev pub PrintedAs :
      Bool
      → ℕ
      → View T
      → CustomStackTrace T
      → Option (List (Printed T) × CustomStackTrace T)
      → Type 0
  PrintedAs only current v trace r =
      ((r ≡ some (message ∷ [], trace)) × ((t : ℕ) → v.stacks t ≡ []))
      ⊎ ((after : CustomStackTrace T) × (r
            ≡ some (
              report only current v.stacks (λ t. word_for (trace.is_pushing.specific t) (v.flags t))
                    true trace.stack_buffer
                  ++ newline ∷ message ∷ [],
              after,
            ))
          × Represents (dumped_view only current v) after
          × SomeEntry v.stacks)

  -- The output function is defined on a stack trace that keeps a stack for each thread, where the hash
  -- tells the listed threads apart and is -1 for none. If all stacks are empty it prints the message alone. Otherwise
  -- it prints one part for each thread that is dumped and has items, which is a head, the word for its
  -- flag and its items, the newest first, on a line of its own, then the message; the stacks that it
  -- dumped are empty then, and nothing else changes.
  pub write_failure-Represents :
      (only : Bool) (current : ℕ) (v : View T) (trace : CustomStackTrace T)
      → Apart hash trace.stack_buffer
      → ((t p : ℕ) → Listed t p trace.stack_buffer → hash t ≢ no_thread)
      → Represents v trace
      → PrintedAs only current v trace (write_failure stores item_eq hash only current trace)
  unfolding write_failure write_trace printed_dump
  write_failure-Represents only current v trace inj proper k =
      elim (empty-Represents stores item_eq v trace k) [
        | inl h ↦ inl (ap (write_trace stores item_eq hash only current trace) h.0, h.1)
        | inr h ↦
            let (after, e, k') = dump-Represents stores item_eq only current v trace k in
            inr (
              after,
              ap (write_trace stores item_eq hash only current trace) h.0
                  ∙ (ap (printed_dump stores item_eq hash trace) e
                      ∙ ap (bound (λ out. some (out ++ newline ∷ message ∷ [], after))) (
                          print_buffer only current v.stacks
                            (λ t. word_for (trace.is_pushing.specific t) (v.flags t)) stores item_eq
                            hash trace.is_pushing.objects trace.pushing_buffer trace.stack_buffer
                            no_thread inj proper (λ t. flag_word-Represents v trace t k)
                            k.kept_stacks.unique proper
                          ∙ ap
                              (λ b. some (
                                report only current v.stacks
                                  (λ t. word_for (trace.is_pushing.specific t) (v.flags t)) b
                                  trace.stack_buffer))
                              (==-refl no_thread))),
              k',
              h.1,
            )
      ]
