-- ===== src/Utils/StackTrace/Threads.antt =====
-- The operations of all threads on one stack trace, in any order, each as one step: a thread touches
-- only its own stack and flag, and the buffers change under the mutex.
use ccml.Base.{
  arith, ℕ, ◌≡◌, refl, sym, ap, ◌∙◌, subst, Bool, true, false, List, [], ◌∷◌, Option, none, some,
  ◌==◌, if◌then◌else◌,
}
use ccml.Utils.Logging.{Logged, quiet, behind}
use ccml.Utils.Logging.Quiet.{bound, after_log-quiet}
use ccml.Core.ThreadLocal.{ThreadLocal, updated}
use ccml.Utils.StackTrace.{
  Buffer, CustomStackTrace, with_local, on_stack, set_pushing, push, pop_top, pop, pop_all, clear,
}
use ccml.Utils.StackTrace.Stacks.{Op, pushes, pops, clears, spec_ops, pop_all_lem, bound-pop_top}
use ccml.Utils.StackTrace.Locals.{IsKept, local_of, Stored, with_local-Stored}

-- What the threads see: a stack and a flag for each of them.
pub record View (T : Type 0) : Type 0 where
  pub stacks : ℕ → List T
  pub flags : ℕ → Bool

pub record Represents {T : Type 0} (v : View T) (trace : CustomStackTrace T) : Type 0 where
  pub kept_stacks : IsKept trace.log_stack trace.stack_buffer
  pub kept_flags : IsKept trace.is_pushing trace.pushing_buffer
  pub shows_stacks : (t : ℕ) → local_of [] trace.log_stack t ≡ v.stacks t
  pub shows_flags : (t : ℕ) → local_of false trace.is_pushing t ≡ v.flags t

-- `g_layer_stack_trace` before any use, and what the threads see of it.
abbrev pub new_trace : {T : Type 0} → CustomStackTrace T
new_trace = record {
  stack_buffer = [];
  pushing_buffer = [];
  is_pushing = record { next = 0; objects = λ p. none; specific = λ t. none };
  log_stack = record { next = 0; objects = λ p. none; specific = λ t. none };
}

abbrev pub new_view : {T : Type 0} → View T
new_view = record { stacks = λ t. []; flags = λ t. false }

unused-IsKept :
    {A : Type 0}
    → IsKept {A = A} (record { next = 0; objects = λ p. none; specific = λ t. none }) []
unused-IsKept = record {
  owned = record { live = λ t p h. ground arith; apart = λ t u p h k. ground arith };
  listed = λ t p h. ground arith;
  only = λ t p h. absurd h;
  unique = tt;
}

pub new_trace-Represents : {T : Type 0} → Represents {T = T} new_view new_trace
unfolding local_of
new_trace-Represents = record {
  kept_stacks = unused-IsKept;
  kept_flags = unused-IsKept;
  shows_stacks = λ t. refl;
  shows_flags = λ t. refl;
}

-- What a result means: `none` is undefined, and otherwise nothing is logged and the threads see this.
abbrev pub Outcome : {T : Type 0} → Option (View T) → Option (Logged (CustomStackTrace T)) → Type 0
Outcome none r = r ≡ none
Outcome {T} (some v) r =
    (trace : CustomStackTrace T) × (r ≡ some (quiet trace)) × Represents v trace

module _ {T : Type 0} (stores : ℕ → Bool) (item_eq : T → T → Bool) where
  -- The threads' operations on the trace.
  pub run_op : ℕ → Op T → CustomStackTrace T → Option (Logged (CustomStackTrace T))
  run_op t (pushes x) trace = push stores item_eq t x trace
  run_op t (pops x) trace = pop stores item_eq t x trace
  run_op t clears trace = clear stores item_eq t trace

  pub run_threads : List (ℕ × Op T) → CustomStackTrace T → Option (Logged (CustomStackTrace T))
  unfolding run_op
  run_threads [] trace = some (quiet trace)
  run_threads ((t, op) ∷ ops) trace = behind (run_threads ops) (run_op t op trace)

  -- The same on the view: an operation is one on the thread's own list.
  abbrev flag_after : Op T → ℕ → (ℕ → Bool) → ℕ → Bool
  flag_after (pushes x) t flags = updated flags t true
  flag_after (pops x) t flags = updated flags t false
  flag_after clears t flags = flags

  unfoldable pub spec_op : ℕ → Op T → View T → Option (View T)
  spec_op t op v =
      bound
        (λ stack.
          some (record { stacks = updated v.stacks t stack; flags = flag_after op t v.flags }))
        (spec_ops stores item_eq (op ∷ []) (v.stacks t))

  unfoldable pub spec_threads : List (ℕ × Op T) → View T → Option (View T)
  unfolding spec_op
  spec_threads [] v = some v
  spec_threads ((t, op) ∷ ops) v = bound (spec_threads ops) (spec_op t op v)

  -- The view with another stack, or another flag, of a thread.
  abbrev with_stack : ℕ → View T → List T → View T
  with_stack t v stack = record v { stacks = updated v.stacks t stack }

  abbrev with_flag : ℕ → View T → Bool → View T
  with_flag t v flag = record v { flags = updated v.flags t flag }

  Stored-stack :
      (t : ℕ) (v : View T) (trace : CustomStackTrace T) (o : Option (List T))
      (r : Option (Logged (ThreadLocal (List T) × Buffer)))
      → Represents v trace
      → Stored [] t trace.log_stack o r
      → Outcome (bound (λ stack. some (with_stack t v stack)) o) (
          behind
            (λ (s, buffer). some (quiet (record trace { log_stack = s; stack_buffer = buffer })))
            r)
  Stored-stack t v trace none r k h = rw h refl
  Stored-stack t v trace (some y) r k (s, b, e, kept, w) = (
    record trace { log_stack = s; stack_buffer = b },
    rw e refl,
    record {
      kept_stacks = kept;
      kept_flags = k.kept_flags;
      shows_stacks = λ u. w u ∙ ap (λ z. if t == u then y else z) (k.shows_stacks u);
      shows_flags = k.shows_flags;
    },
  )

  on_stack-Outcome :
      (f : List T → Option (List T)) (t : ℕ) (v : View T) (trace : CustomStackTrace T)
      → stores t ≡ true
      → Represents v trace
      → Outcome
          (bound (λ stack. some (with_stack t v stack)) (f (v.stacks t)))
          (on_stack stores item_eq f t trace)
  unfolding on_stack
  on_stack-Outcome f t v trace y k = Stored-stack t v trace (f (v.stacks t)) _ k (
      subst
        (λ l.
          Stored [] t trace.log_stack (f l)
            (with_local stores f [] t trace.log_stack trace.stack_buffer))
        (k.shows_stacks t)
        (with_local-Stored stores f [] t trace.log_stack trace.stack_buffer y k.kept_stacks))

  set_pushing-Outcome :
      (flag : Bool) (t : ℕ) (v : View T) (trace : CustomStackTrace T)
      → stores t ≡ true
      → Represents v trace
      → Outcome (some (with_flag t v flag)) (set_pushing stores item_eq flag t trace)
  unfolding set_pushing
  set_pushing-Outcome flag t v trace y k =
      let (s, b, e, kept, w) =
        with_local-Stored stores (λ _. some flag) false t trace.is_pushing trace.pushing_buffer y
          k.kept_flags in
      (
        record trace { is_pushing = s; pushing_buffer = b },
        rw e refl,
        record {
          kept_stacks = k.kept_stacks;
          kept_flags = kept;
          shows_stacks = k.shows_stacks;
          shows_flags = λ u. w u ∙ ap (λ z. if t == u then flag else z) (k.shows_flags u);
        },
      )

  -- A change of the stack behind one of the flag.
  flag_then_stack-Outcome :
      (f : List T → Option (List T)) (flag : Bool) (t : ℕ) (v : View T) (trace : CustomStackTrace T)
      → stores t ≡ true
      → Represents v trace
      → Outcome
          (bound (λ stack. some (with_stack t (with_flag t v flag) stack)) (f (v.stacks t)))
          (behind (λ s. on_stack stores item_eq f t s) (set_pushing stores item_eq flag t trace))
  flag_then_stack-Outcome f flag t v trace y k =
      let (s, e, k2) = set_pushing-Outcome flag t v trace y k in
      subst
        (λ r.
          Outcome (bound (λ stack. some (with_stack t (with_flag t v flag) stack)) (f (v.stacks t)))
            r)
        (sym (ap (behind (λ s. on_stack stores item_eq f t s)) e ∙ after_log-quiet s _))
        (on_stack-Outcome f t (with_flag t v flag) s y k2)

  bound-some : (o : Option (List T)) → bound some o ≡ o
  bound-some none = refl
  bound-some (some l) = refl

  spec_ops-pop :
      (x : T) (stack : List T)
      → spec_ops stores item_eq (pops x ∷ []) stack ≡ pop_top stores item_eq x stack
  unfolding spec_ops
  spec_ops-pop x stack = sym (bound-pop_top stores item_eq [] x stack) ∙ bound-some _

  run_op-Outcome :
      (t : ℕ) (op : Op T) (v : View T) (trace : CustomStackTrace T)
      → stores t ≡ true
      → Represents v trace
      → Outcome (spec_op t op v) (run_op t op trace)
  unfolding run_op spec_op spec_ops push pop clear
  run_op-Outcome t (pushes x) v trace y k =
      flag_then_stack-Outcome (λ s. some (x ∷ s)) true t v trace y k
  run_op-Outcome t (pops x) v trace y k =
      subst
        (λ o.
          Outcome (bound (λ stack. some (with_stack t (with_flag t v false) stack)) o)
            (run_op t (pops x) trace))
        (sym (spec_ops-pop x (v.stacks t)))
        (flag_then_stack-Outcome (pop_top stores item_eq x) false t v trace y k)
  run_op-Outcome t clears v trace y k =
      subst (λ l. Outcome (some (with_stack t v l)) (run_op t clears trace))
        (pop_all_lem stores item_eq (v.stacks t))
        (on_stack-Outcome (λ s. some (pop_all stores item_eq s)) t v trace y k)

  then_threads :
      (ops : List (ℕ × Op T)) (o : Option (View T)) (r : Option (Logged (CustomStackTrace T)))
      → Outcome o r
      → ((v : View T) (trace : CustomStackTrace T)
          → Represents v trace
          → Outcome (spec_threads ops v) (run_threads ops trace))
      → Outcome (bound (spec_threads ops) o) (behind (run_threads ops) r)
  then_threads ops none r h rest = ap (behind (run_threads ops)) h
  then_threads ops (some v) r (trace, e, k) rest =
      subst (λ r'. Outcome (spec_threads ops v) r')
        (sym (ap (behind (run_threads ops)) e ∙ after_log-quiet trace _)) (rest v trace k)

  -- Where `pthread_setspecific` succeeds, a stack trace is a stack and a flag for each thread: any
  -- sequence of `push`, `pop` and `clear` by any threads, which have used it before or not, gives each
  -- thread what its own operations do to a list, with no message and every object still of one thread,
  -- and it is undefined exactly where a `pop` meets an empty list.
  pub run_threads-refines :
      ((t : ℕ) → stores t ≡ true)
      → (ops : List (ℕ × Op T)) (v : View T) (trace : CustomStackTrace T) → Represents v trace
      → Outcome (spec_threads ops v) (run_threads ops trace)
  unfolding run_threads spec_threads
  run_threads-refines y [] v trace k = (trace, refl, k)
  run_threads-refines y ((t, op) ∷ ops) v trace k =
      then_threads ops (spec_op t op v) (run_op t op trace) (run_op-Outcome t op v trace (y t) k)
        (λ v2 s k2. run_threads-refines y ops v2 s k2)
