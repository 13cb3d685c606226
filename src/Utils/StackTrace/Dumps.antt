-- ===== src/Utils/StackTrace/Dumps.antt =====
-- What a thread's dump of its own stack gives.
use ccml.Base.{
  ℕ, ◌≡◌, refl, ap, ◌∙◌, Bool, true, false, List, [], ◌∷◌, append-nil, map, Option, some, ◌==◌,
  ==-refl, arith, ◌⊎◌, inl, inr,
}
use ccml.Core.ThreadLocal.{ThreadLocal, updated}
use ccml.Utils.StackTrace.{
  Buffer, CustomStackTrace, find_thread, stack_calls, before_calls, skipped, dump_stack, then_dump,
  dump_loop, dumped, dump,
}
use ccml.Utils.StackTrace.Stacks.{Holds}

-- The thread has no entry.
abbrev NotIn : ℕ → Buffer → Type 0
NotIn t [] = Unit {0}
NotIn t ((u, q) ∷ buffer) = ((u == t) ≡ false) × NotIn t buffer

-- It has one entry, with this pointer.
abbrev pub Once : ℕ → ℕ → Buffer → Type 0
Once t p [] = ⊥
Once t p ((u, q) ∷ buffer) =
    ((u ≡ t) × (q ≡ p) × NotIn t buffer) ⊎ (((u == t) ≡ false) × Once t p buffer)

module _ {T : Type 0} (stores : ℕ → Bool) (item_eq : T → T → Bool) where
  pub stack_calls-map :
      (t : ℕ) (is_push : Option ℕ) (stack : List T)
      → stack_calls stores item_eq t is_push stack ≡ map (λ x. (t, is_push, x)) stack
  unfolding stack_calls
  stack_calls-map t is_push [] = refl
  stack_calls-map t is_push (x ∷ stack) = ap (◌∷◌ (t, is_push, x)) (stack_calls-map t is_push stack)

  dump_loop-NotIn :
      (t : ℕ) (pushing buffer : Buffer) (s : ThreadLocal (List T))
      → NotIn t buffer
      → dump_loop stores item_eq true t pushing buffer s ≡ some ([], s)
  unfolding dump_loop skipped
  dump_loop-NotIn t pushing [] s h = refl
  dump_loop-NotIn t pushing ((u, q) ∷ buffer) s h = rw h.0 (dump_loop-NotIn t pushing buffer s h.1)

  dump_here :
      (t p : ℕ) (pushing buffer : Buffer) (s : ThreadLocal (List T)) (stack : List T)
      → NotIn t buffer
      → s.objects p ≡ some stack
      → dump_loop stores item_eq true t pushing ((t, p) ∷ buffer) s
        ≡ some (
          map (λ x. (t, find_thread t pushing, x)) stack,
          record s { objects = updated s.objects p (some []) },
        )
  unfolding dump_loop skipped dump_stack then_dump before_calls
  dump_here t p pushing buffer s stack h e = rw (==-refl t) (
      ap
        (λ o.
          then_dump stores item_eq (dump_stack stores item_eq t (find_thread t pushing) p o s)
            (λ x. dump_loop stores item_eq true t pushing buffer x))
        e
      ∙ (ap
            (before_calls stores item_eq
              (stack_calls stores item_eq t (find_thread t pushing) stack))
            (dump_loop-NotIn t pushing buffer (record s { objects = updated s.objects p (some []) })
              h)
          ∙ ap (λ c. some (c, record s { objects = updated s.objects p (some []) }))
              (append-nil _ ∙ stack_calls-map t (find_thread t pushing) stack)))

  dump_loop-Once :
      (t p : ℕ) (pushing buffer : Buffer) (s : ThreadLocal (List T)) (stack : List T)
      → Once t p buffer
      → s.objects p ≡ some stack
      → dump_loop stores item_eq true t pushing buffer s
        ≡ some (
          map (λ x. (t, find_thread t pushing, x)) stack,
          record s { objects = updated s.objects p (some []) },
        )
  unfolding dump_loop skipped dump_stack then_dump before_calls
  dump_loop-Once t p pushing [] s stack h e = absurd h
  dump_loop-Once t p pushing ((u, q) ∷ buffer) s stack (inr h) e =
      rw h.0 (dump_loop-Once t p pushing buffer s stack h.1 e)
  dump_loop-Once t p pushing ((u, q) ∷ buffer) s stack (inl h) e =
      rw (h.0, h.1) (dump_here t p pushing buffer s stack h.2 e)

  -- A dump of the current thread alone by a thread that has its two objects and one entry among the
  -- stacks gives its items to the callback, the newest first, with the pointer to its flag. Then
  -- its stack is empty.
  pub dump_own :
      (t : ℕ) (stack : List T) (trace : CustomStackTrace T) (h : Holds t stack trace)
      → Once t h.stack_at trace.stack_buffer
      → (after : CustomStackTrace T) × (dump stores item_eq true t trace
          ≡ some (map (λ x. (t, find_thread t trace.pushing_buffer, x)) stack, after))
        × Holds t [] after
  unfolding dump dumped
  dump_own t stack trace h once = (
    record trace {
      log_stack = record trace.log_stack {
        objects = updated trace.log_stack.objects h.stack_at (some []);
      };
    },
    ap (dumped stores item_eq trace) (
        dump_loop-Once t h.stack_at trace.pushing_buffer trace.stack_buffer trace.log_stack stack
          once h.the_stack),
    record {
      stack_at = h.stack_at;
      flag_at = h.flag_at;
      flag = h.flag;
      own_stack = h.own_stack;
      own_flag = h.own_flag;
      the_stack = ground arith;
      the_flag = h.the_flag;
    },
  )
