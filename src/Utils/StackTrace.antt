-- ===== src/Utils/StackTrace.antt =====
-- src/utils/CustomStackTrace.h and src/utils/CustomStackTrace.cpp: a stack for each thread, and the
-- pointers to all of them, by thread, which other threads dump. A pointer that is used after its
-- thread has ended is undefined.
pub mod Stacks
pub mod Entries
pub mod Locals
pub mod Threads
pub mod Emptiness
pub mod Drained
pub mod Tracer
pub mod Dangling
pub mod Dumps
use ccml.Base.{
  ℕ, Bool, true, false, not, ◌&&◌, List, [], ◌∷◌, ◌++◌, Option, none, some, ◌==◌, if◌then◌else◌,
}
use ccml.Utils.Logging.{Logged, ◌>>=◌, quiet, behind}
use ccml.Utils.Logging.Quiet.{bound}
use ccml.Core.ThreadLocal.{ThreadLocal, updated, get, thread_exit}

-- `_stack_buffer` and `_pushing_buffer`: pointers by thread, in the order of the map's iteration.
abbrev pub Buffer : Type 0
Buffer = List (ℕ × ℕ)

pub record CustomStackTrace (T : Type 0) : Type 0 where
  pub stack_buffer : Buffer
  pub pushing_buffer : Buffer
  pub is_pushing : ThreadLocal Bool
  pub log_stack : ThreadLocal (List T)

-- `find`
unfoldable pub find_thread : ℕ → Buffer → Option ℕ
find_thread t [] = none
find_thread t ((u, p) ∷ buffer) = if u == t then some p else find_thread t buffer

-- `insert({id, p})`, which keeps an entry that is there; a new one comes last.
pub insert_thread : ℕ → ℕ → Buffer → Buffer
insert_thread t p [] = (t, p) ∷ []
insert_thread t p ((u, q) ∷ buffer) =
    if u == t then (u, q) ∷ buffer else (u, q) ∷ insert_thread t p buffer

module _ {A : Type 0} (stores : ℕ → Bool) where
  -- `get_threadlocal` behind its second `get`; that one returns a pointer.
  registered : ℕ → Buffer → Option ℕ × ThreadLocal A → Option (ℕ × ThreadLocal A × Buffer)
  unfolding insert_thread
  registered t buffer (none, s) = none
  registered t buffer (some p, s) = some (p, s, insert_thread t p buffer)

  -- behind its first `get`
  looked_up :
      A → ℕ → Buffer → Option ℕ × ThreadLocal A → Option (Logged (ℕ × ThreadLocal A × Buffer))
  unfolding registered
  looked_up fresh t buffer (some p, s) = some (quiet (p, s, buffer))
  looked_up fresh t buffer (none, s) =
      let made = get stores fresh t true s in
      elim (registered t buffer made.value) [ none ↦ none | some r ↦ some (made >>= λ _. quiet r) ]

  -- `get_threadlocal`
  pub get_threadlocal :
      A → ℕ → ThreadLocal A → Buffer → Option (Logged (ℕ × ThreadLocal A × Buffer))
  unfolding looked_up
  get_threadlocal fresh t s buffer = looked_up fresh t buffer (get stores fresh t false s).value

  pub changed : ℕ → ThreadLocal A → Buffer → Option A → Option (Logged (ThreadLocal A × Buffer))
  changed p s buffer none = none
  changed p s buffer (some x) =
      some (quiet (record s { objects = updated s.objects p (some x) }, buffer))

  -- An object that is changed through its pointer; the change itself may be undefined.
  modified : (A → Option A) → ℕ × ThreadLocal A × Buffer → Option (Logged (ThreadLocal A × Buffer))
  unfolding changed
  modified f (p, s, buffer) = changed p s buffer (bound f (s.objects p))

  -- A change of the thread's own object, `fresh` if it has none yet.
  pub with_local :
      (A → Option A) → A → ℕ → ThreadLocal A → Buffer → Option (Logged (ThreadLocal A × Buffer))
  unfolding get_threadlocal modified
  with_local f fresh t s buffer = behind (modified f) (get_threadlocal fresh t s buffer)

module _ {T : Type 0} (stores : ℕ → Bool) (item_eq : T → T → Bool) where
  -- A statement on `stack()`.
  pub on_stack :
      (List T → Option (List T)) → ℕ → CustomStackTrace T → Option (Logged (CustomStackTrace T))
  unfolding with_local
  on_stack f t trace =
      behind (λ (s, buffer). some (quiet (record trace { log_stack = s; stack_buffer = buffer })))
        (with_local stores f [] t trace.log_stack trace.stack_buffer)

  -- `pushing() = value`
  pub set_pushing : Bool → ℕ → CustomStackTrace T → Option (Logged (CustomStackTrace T))
  unfolding with_local
  set_pushing value t trace =
      behind
        (λ (s, buffer). some (quiet (record trace { is_pushing = s; pushing_buffer = buffer })))
        (with_local stores (λ _. some value) false t trace.is_pushing trace.pushing_buffer)

  -- `push`
  pub push : ℕ → T → CustomStackTrace T → Option (Logged (CustomStackTrace T))
  unfolding on_stack set_pushing
  push t item trace =
      behind (λ s. on_stack (λ stack. some (item ∷ stack)) t s) (set_pushing true t trace)

  -- `if(item == s.top()) s.pop();`; the top of an empty stack is undefined.
  pub pop_top : T → List T → Option (List T)
  pop_top item [] = none
  pop_top item (top ∷ stack) = if item_eq item top then some stack else some (top ∷ stack)

  -- `pop`
  pub pop : ℕ → T → CustomStackTrace T → Option (Logged (CustomStackTrace T))
  unfolding on_stack set_pushing pop_top
  pop t item trace = behind (λ s. on_stack (pop_top item) t s) (set_pushing false t trace)

  -- `while(!s.empty()) s.pop();`
  pub pop_all : List T → List T
  pop_all [] = []
  pop_all (top ∷ stack) = pop_all stack

  -- `clear`
  pub clear : ℕ → CustomStackTrace T → Option (Logged (CustomStackTrace T))
  unfolding on_stack pop_all
  clear t trace = on_stack (λ stack. some (pop_all stack)) t trace

  -- The loop of `empty`; `none` is the use of a stack that is deleted.
  pub all_empty : ThreadLocal (List T) → Buffer → Option Bool
  all_empty s [] = some true
  all_empty s ((t, p) ∷ buffer) = elim (s.objects p) [
    | none ↦ none
    | some [] ↦ all_empty s buffer
    | some (top ∷ stack) ↦ some false
  ]

  pub empty : CustomStackTrace T → Option Bool
  unfolding all_empty
  empty trace = all_empty trace.log_stack trace.stack_buffer

  -- A call of the callback: the thread, its `pushing` flag's pointer, and the item.
  abbrev pub Call : Type 0
  Call = ℕ × Option ℕ × T

  pub stack_calls : ℕ → Option ℕ → List T → List Call
  stack_calls t is_push [] = []
  stack_calls t is_push (top ∷ stack) = (t, is_push, top) ∷ stack_calls t is_push stack

  -- Calls before those of the rest of the loop.
  before_calls :
      List Call
      → Option (List Call × ThreadLocal (List T))
      → Option (List Call × ThreadLocal (List T))
  before_calls made none = none
  before_calls made (some (more, s)) = some (made ++ more, s)

  -- `only_current_thread && tid != std::this_thread::get_id()`
  skipped : Bool → ℕ → ℕ → Bool
  skipped only_current_thread current t = only_current_thread && not (t == current)

  -- The stack of one entry is emptied from its top.
  pub dump_stack :
      ℕ
      → Option ℕ
      → ℕ
      → Option (List T)
      → ThreadLocal (List T)
      → Option (List Call × ThreadLocal (List T))
  unfolding stack_calls
  dump_stack t is_push p none s = none
  dump_stack t is_push p (some stack) s =
      some (stack_calls t is_push stack, record s { objects = updated s.objects p (some []) })

  then_dump :
      Option (List Call × ThreadLocal (List T))
      → (ThreadLocal (List T) → Option (List Call × ThreadLocal (List T)))
      → Option (List Call × ThreadLocal (List T))
  unfolding before_calls
  then_dump none rest = none
  then_dump (some (made, s)) rest = before_calls made (rest s)

  -- The loop of `dump` over `_stack_buffer`.
  pub dump_loop :
      Bool → ℕ → Buffer → Buffer → ThreadLocal (List T) → Option (List Call × ThreadLocal (List T))
  unfolding skipped dump_stack then_dump find_thread
  dump_loop only current pushing [] s = some ([], s)
  dump_loop only current pushing ((t, p) ∷ buffer) s =
      let rest = dump_loop only current pushing buffer in
      if skipped only current t
      then rest s
      else then_dump (dump_stack t (find_thread t pushing) p (s.objects p) s) rest

  -- What the loop leaves.
  dumped :
      CustomStackTrace T
      → Option (List Call × ThreadLocal (List T))
      → Option (List Call × CustomStackTrace T)
  dumped trace none = none
  dumped trace (some (made, s)) = some (made, record trace { log_stack = s })

  -- `dump`, called by thread `current`: the calls of the callback, and the trace then.
  pub dump : Bool → ℕ → CustomStackTrace T → Option (List Call × CustomStackTrace T)
  unfolding dump_loop dumped
  dump only_current_thread current trace = dumped trace (
      dump_loop only_current_thread current trace.pushing_buffer trace.stack_buffer trace.log_stack)

-- The end of a thread deletes its two objects; the buffers keep their pointers.
both_left :
    {T : Type 0}
    → CustomStackTrace T
    → Option (ThreadLocal Bool)
    → Option (ThreadLocal (List T))
    → Option (CustomStackTrace T)
both_left trace none s = none
both_left trace (some f) none = none
both_left trace (some f) (some s) = some (record trace { is_pushing = f; log_stack = s })

pub end_of_thread : {T : Type 0} → ℕ → CustomStackTrace T → Option (CustomStackTrace T)
unfolding both_left
end_of_thread t trace =
    both_left trace (thread_exit t trace.is_pushing) (thread_exit t trace.log_stack)
