-- ===== src/Utils/StackTrace/Stacks.antt =====
-- A thread's part of a stack trace is a stack.
use ccml.Base.{
  ℕ, ◌≡◌, refl, subst, sym, ap, ◌∙◌, Bool, true, false, List, [], ◌∷◌, Option, none, some,
  if◌then◌else◌, arith, Bool-cases, inl, inr,
}
use ccml.Utils.Logging.{Logged, quiet, behind}
use ccml.Utils.Logging.Quiet.{bound, after_log-quiet}
use ccml.Core.ThreadLocal.{ThreadLocal, updated}
use ccml.Core.ThreadLocal.Ownership.{get_known}
use ccml.Utils.StackTrace.{
  Buffer, CustomStackTrace, get_threadlocal, looked_up, changed, modified, with_local, on_stack,
  set_pushing, push, pop_top, pop, pop_all, clear,
}

-- Both of the thread's objects are made, and the stack has these items, the newest first.
pub record Holds {T : Type 0} (t : ℕ) (stack : List T) (trace : CustomStackTrace T) : Type 0 where
  pub stack_at : ℕ
  pub flag_at : ℕ
  pub flag : Bool
  pub own_stack : trace.log_stack.specific t ≡ some stack_at
  pub own_flag : trace.is_pushing.specific t ≡ some flag_at
  pub the_stack : trace.log_stack.objects stack_at ≡ some stack
  pub the_flag : trace.is_pushing.objects flag_at ≡ some flag

module _ {A : Type 0} (stores : ℕ → Bool) where
  get_threadlocal_known :
      (fresh : A) (t p : ℕ) (s : ThreadLocal A) (buffer : Buffer)
      → s.specific t ≡ some p
      → get_threadlocal stores fresh t s buffer ≡ some (quiet (p, s, buffer))
  unfolding get_threadlocal looked_up
  get_threadlocal_known fresh t p s buffer e =
      ap (λ g. looked_up stores fresh t buffer g.value) (get_known stores fresh t p false s e)

  pub with_local_known :
      (f : A → Option A) (fresh : A) (t p : ℕ) (s : ThreadLocal A) (buffer : Buffer) (x : A)
      → s.specific t ≡ some p
      → s.objects p ≡ some x
      → with_local stores f fresh t s buffer ≡ changed stores p s buffer (f x)
  unfolding with_local modified changed
  with_local_known f fresh t p s buffer x e o =
      ap (behind (modified stores f)) (get_threadlocal_known fresh t p s buffer e)
      ∙ (after_log-quiet {A = ℕ × ThreadLocal A × Buffer} (p, s, buffer) _
          ∙ ap (λ y. changed stores p s buffer (bound f y)) o)

pub data Op (T : Type 0) : Type 0 where
  pushes : T → Op T
  pops : T → Op T
  clears : Op T

-- What a result means for the thread: `none` is undefined, and otherwise nothing is logged and the
-- thread's stack has these items.
abbrev pub After :
    {T : Type 0} → ℕ → Option (List T) → Option (Logged (CustomStackTrace T)) → Type 0
After t none r = r ≡ none
After {T} t (some stack) r =
    (trace : CustomStackTrace T) × (r ≡ some (quiet trace)) × Holds t stack trace

module _ {T : Type 0} (stores : ℕ → Bool) (item_eq : T → T → Bool) where
  abbrev stack_result :
      CustomStackTrace T
      → Option (Logged (ThreadLocal (List T) × Buffer))
      → Option (Logged (CustomStackTrace T))
  stack_result trace o =
      behind (λ (s, buffer). some (quiet (record trace { log_stack = s; stack_buffer = buffer }))) o

  on_stack-After :
      (f : List T → Option (List T)) (t : ℕ) (stack : List T) (trace : CustomStackTrace T)
      (o : Option (List T))
      → Holds t stack trace
      → f stack ≡ o
      → After t o (on_stack stores item_eq f t trace)
  unfolding on_stack changed
  on_stack-After f t stack trace none h e = ap (stack_result trace) (
      with_local_known stores f [] t h.stack_at trace.log_stack trace.stack_buffer stack h.own_stack
        h.the_stack
      ∙ ap (changed stores h.stack_at trace.log_stack trace.stack_buffer) e)
  on_stack-After f t stack trace (some new) h e = (
    record trace {
      log_stack = record trace.log_stack {
        objects = updated trace.log_stack.objects h.stack_at (some new);
      };
    },
    ap (stack_result trace) (
        with_local_known stores f [] t h.stack_at trace.log_stack trace.stack_buffer stack
          h.own_stack h.the_stack
        ∙ ap (changed stores h.stack_at trace.log_stack trace.stack_buffer) e),
    record {
      stack_at = h.stack_at;
      flag_at = h.flag_at;
      flag = h.flag;
      own_stack = h.own_stack;
      own_flag = h.own_flag;
      the_stack = ground arith;
      the_flag = h.the_flag;
    },
  )

  abbrev flag_result :
      CustomStackTrace T
      → Option (Logged (ThreadLocal Bool × Buffer))
      → Option (Logged (CustomStackTrace T))
  flag_result trace o =
      behind
        (λ (s, buffer). some (quiet (record trace { is_pushing = s; pushing_buffer = buffer }))) o

  set_pushing-After :
      (value : Bool) (t : ℕ) (stack : List T) (trace : CustomStackTrace T)
      → Holds t stack trace
      → After t (some stack) (set_pushing stores item_eq value t trace)
  unfolding set_pushing changed
  set_pushing-After value t stack trace h = (
    record trace {
      is_pushing = record trace.is_pushing {
        objects = updated trace.is_pushing.objects h.flag_at (some value);
      };
    },
    ap (flag_result trace) (
        with_local_known stores (λ _. some value) false t h.flag_at trace.is_pushing
          trace.pushing_buffer h.flag h.own_flag h.the_flag),
    record {
      stack_at = h.stack_at;
      flag_at = h.flag_at;
      flag = value;
      own_stack = h.own_stack;
      own_flag = h.own_flag;
      the_stack = h.the_stack;
      the_flag = ground arith;
    },
  )

  -- A change of the stack behind one of the flag.
  flag_then_stack :
      (f : List T → Option (List T)) (value : Bool) (t : ℕ) (stack : List T)
      (trace : CustomStackTrace T)
      → Holds t stack trace
      → After t
          (f stack)
          (behind (λ s. on_stack stores item_eq f t s) (set_pushing stores item_eq value t trace))
  flag_then_stack f value t stack trace h =
      let (s, e, k) = set_pushing-After value t stack trace h in
      subst (λ r. After t (f stack) r)
        (sym (ap (behind (λ s. on_stack stores item_eq f t s)) e ∙ after_log-quiet s _))
        (on_stack-After f t stack s (f stack) k refl)

  -- Operations of the thread, in order: on the trace, and on a list.
  pub run_ops : ℕ → List (Op T) → CustomStackTrace T → Option (Logged (CustomStackTrace T))
  run_ops t [] trace = some (quiet trace)
  run_ops t (pushes x ∷ ops) trace = behind (run_ops t ops) (push stores item_eq t x trace)
  run_ops t (pops x ∷ ops) trace = behind (run_ops t ops) (pop stores item_eq t x trace)
  run_ops t (clears ∷ ops) trace = behind (run_ops t ops) (clear stores item_eq t trace)

  -- The same on a list: a pop of another item than the top leaves the stack as it is.
  unfoldable pub spec_ops : List (Op T) → List T → Option (List T)
  spec_ops [] stack = some stack
  spec_ops (pushes x ∷ ops) stack = spec_ops ops (x ∷ stack)
  spec_ops (pops x ∷ ops) [] = none
  spec_ops (pops x ∷ ops) (top ∷ stack) =
      let other = spec_ops ops (top ∷ stack) in if item_eq x top then spec_ops ops stack else other
  spec_ops (clears ∷ ops) stack = spec_ops ops []

  -- A step, then the others.
  then_ops :
      (t : ℕ) (ops : List (Op T)) (o : Option (List T)) (r : Option (Logged (CustomStackTrace T)))
      (next : List T → Option (List T))
      → After t o r
      → ((stack : List T) (trace : CustomStackTrace T)
          → Holds t stack trace
          → After t (next stack) (run_ops t ops trace))
      → After t (bound next o) (behind (run_ops t ops) r)
  then_ops t ops none r next h rest = ap (behind (run_ops t ops)) h
  then_ops t ops (some stack) r next (trace, e, h) rest =
      subst (λ r'. After t (next stack) r')
        (sym (ap (behind (run_ops t ops)) e ∙ after_log-quiet trace _)) (rest stack trace h)

  pub pop_all_lem : (stack : List T) → pop_all stores item_eq stack ≡ []
  unfolding pop_all
  pop_all_lem [] = refl
  pop_all_lem (x ∷ stack) = pop_all_lem stack

  pub bound-pop_top :
      (ops : List (Op T)) (x : T) (stack : List T)
      → bound (spec_ops ops) (pop_top stores item_eq x stack) ≡ spec_ops (pops x ∷ ops) stack
  unfolding pop_top spec_ops
  bound-pop_top ops x [] = refl
  bound-pop_top ops x (top ∷ stack) = elim (Bool-cases (item_eq x top)) [
    | inl e ↦ rw e refl
    | inr e ↦ rw e refl
  ]

  -- A thread that has its two objects sees a stack of its own: any sequence of its `push`, `pop` and
  -- `clear` does to it what the same operations do to a list, with no message, and a `pop` of an
  -- empty stack is undefined.
  pub run_ops-refines :
      (t : ℕ) (ops : List (Op T)) (stack : List T) (trace : CustomStackTrace T)
      → Holds t stack trace
      → After t (spec_ops ops stack) (run_ops t ops trace)
  unfolding run_ops spec_ops push pop clear
  run_ops-refines t [] stack trace h = (trace, refl, h)
  run_ops-refines t (pushes x ∷ ops) stack trace h =
      then_ops t ops (some (x ∷ stack)) _ (spec_ops ops)
        (flag_then_stack (λ s. some (x ∷ s)) true t stack trace h)
        (λ s tr k. run_ops-refines t ops s tr k)
  run_ops-refines t (pops x ∷ ops) stack trace h =
      subst (λ o. After t o (run_ops t (pops x ∷ ops) trace)) (bound-pop_top ops x stack)
        (then_ops t ops (pop_top stores item_eq x stack) _ (spec_ops ops)
          (flag_then_stack (pop_top stores item_eq x) false t stack trace h)
          (λ s tr k. run_ops-refines t ops s tr k))
  run_ops-refines t (clears ∷ ops) stack trace h =
      then_ops t ops (some []) _ (spec_ops ops)
        (on_stack-After (λ s. some (pop_all stores item_eq s)) t stack trace (some []) h
          (ap some (pop_all_lem stack)))
        (λ s tr k. run_ops-refines t ops s tr k)
