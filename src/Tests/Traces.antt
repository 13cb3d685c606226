-- ===== src/Tests/Traces.antt =====
-- The theorems on thread locals, stack traces, logging and vectors at concrete inputs.
use ccml.Base.{
  ℕ, ◌-◌, ◌%◌, ◌^◌, ◌≤◌, ◌<◌, ◌≡◌, ◌↔◌, refl, true, false, List, [], ◌∷◌, Option, none, some, arith,
  ◌==◌, if◌then◌else◌,
}
use ccml.Utils.Logging.{warning}
use ccml.Utils.Logging.Quiet.{result}
use ccml.Utils.Logging.Sinks.{abort, level_of, initialize_log_fds}
use ccml.Utils.Logging.Sinks.Levels.{fresh, written_to, Opens, initialize_log_fds_lem}
use ccml.Core.ThreadLocal.{ThreadLocal, set, thread_exit}
use ccml.Core.ThreadLocal.Ownership.{IsOwned, set_same}
use ccml.Utils.StackTrace.{CustomStackTrace, end_of_thread, find_thread, dump}
use ccml.Utils.StackTrace.Stacks.{Op, pushes, pops, clears, spec_ops}
use ccml.Utils.StackTrace.Locals.{local_of}
use ccml.Utils.StackTrace.Threads.{
  View, Represents, new_view, new_trace, new_trace-Represents, Outcome, run_threads, spec_threads,
  spec_op, run_threads-refines,
}
use ccml.Utils.StackTrace.Dangling.{end_of_thread-dangling}
use ccml.Utils.StackTrace.Drained.{calls_of, dumped_view, dump-Represents}
use ccml.Utils.StackTrace.Tracer.{write_failure, no_thread}
use ccml.Utils.StackTrace.Tracer.Report.{PrintedAs, write_failure-Represents}
use ccml.Math.Memory.{MemoryHandle}
use ccml.Math.Vector.{VectorT, resize, get_size, sub_vec_from_interval}
use ccml.Math.Vector.Backing.{IsBacked, resize-IsBacked, sub_vec_from_interval-quiet}

-- Thread 1 has the object 0, which is 7; the others have none.
abbrev one_thread : ThreadLocal ℕ
one_thread = record {
  next = 1;
  objects = λ p. if p == 0 then some 7 else none;
  specific = λ t. if t == 1 then some 0 else none;
}

one_thread-IsOwned : IsOwned one_thread
one_thread-IsOwned = record { live = λ t p h. ground arith; apart = λ t u p h k. ground arith }

set_same_example :
    (s' : ThreadLocal ℕ) × (result (set (λ t. true) 1 (some 0) one_thread) ≡ some s')
    × (s'.specific 1 ≡ some 0)
    × (s'.objects 0 ≡ none)
    × (thread_exit 1 s' ≡ none)
set_same_example = set_same (λ t. true) 1 0 one_thread one_thread-IsOwned refl refl

-- Thread 1 has pushed 5; the other threads have not used the stack trace.
abbrev busy : CustomStackTrace ℕ
busy = record {
  stack_buffer = (1, 0) ∷ [];
  pushing_buffer = (1, 0) ∷ [];
  is_pushing = record {
    next = 1;
    objects = λ p. if p == 0 then some true else none;
    specific = λ t. if t == 1 then some 0 else none;
  };
  log_stack = record {
    next = 1;
    objects = λ p. if p == 0 then some (5 ∷ []) else none;
    specific = λ t. if t == 1 then some 0 else none;
  };
}

abbrev busy_view : View ℕ
busy_view = record {
  stacks = λ t. if t == 1 then 5 ∷ [] else [];
  flags = λ t. if t == 1 then true else false;
}

busy-Represents : Represents busy_view busy
unfolding local_of
busy-Represents = record {
  kept_stacks = record {
    owned = record { live = λ t p h. ground arith; apart = λ t u p h k. ground arith };
    listed = λ t p h. ground arith;
    only = λ t p h. ground arith;
    unique = (λ p h. h, tt);
  };
  kept_flags = record {
    owned = record { live = λ t p h. ground arith; apart = λ t u p h k. ground arith };
    listed = λ t p h. ground arith;
    only = λ t p h. ground arith;
    unique = (λ p h. h, tt);
  };
  shows_stacks = λ t. ground arith;
  shows_flags = λ t. ground arith;
}

-- A pop of the wrong item is nothing; thread 2 starts during the run.
abbrev ops : List (ℕ × Op ℕ)
ops = (2, pushes 6) ∷ (1, pushes 7) ∷ (2, pushes 8) ∷ (1, pops 7) ∷ (2, pops 9) ∷ (1, clears) ∷ []

run_threads-refines_example :
    Outcome
      (spec_threads (λ t. true) (λ x y. x == y) ops busy_view)
      (run_threads (λ t. true) (λ x y. x == y) ops busy)
run_threads-refines_example =
    run_threads-refines (λ t. true) (λ x y. x == y) (λ t. refl) ops busy_view busy busy-Represents

-- The stacks of threads 1 and 2.
abbrev two_stacks : Option (View ℕ) → List ℕ × List ℕ
two_stacks none = ([], [])
two_stacks (some v) = (v.stacks 1, v.stacks 2)

-- The two threads do not see each other's items.
threads_apart :
    two_stacks (spec_threads (λ t. true) (λ x y. x == y) ops busy_view) ≡ ([], 8 ∷ 6 ∷ [])
unfolding spec_threads spec_op spec_ops
threads_apart = refl

-- The same run on a trace that nobody has used.
from_new :
    Outcome
      (spec_threads (λ t. true) (λ x y. x == y) ops new_view)
      (run_threads (λ t. true) (λ x y. x == y) ops new_trace)
from_new =
    run_threads-refines (λ t. true) (λ x y. x == y) (λ t. refl) ops new_view new_trace
      new_trace-Represents

dump-Represents_example :
    (after : CustomStackTrace ℕ) × (dump (λ t. true) (λ x y. x == y) false 2 busy
      ≡ some ((1, some 0, 5) ∷ [], after))
    × Represents (dumped_view false 2 busy_view) after
unfolding calls_of find_thread
dump-Represents_example =
    dump-Represents (λ t. true) (λ x y. x == y) false 2 busy_view busy busy-Represents

end_of_thread-dangling_example :
    (after : CustomStackTrace ℕ) × (end_of_thread 1 busy ≡ some after)
    × (dump (λ t. true) (λ x y. x == y) false 2 after ≡ none)
end_of_thread-dangling_example =
    end_of_thread-dangling (λ t. true) (λ x y. x == y) 1 0 0 2 busy_view busy busy-Represents refl
      refl

write_failure-Represents_example :
    PrintedAs
      (λ t. true)
      (λ x y. x == y)
      (λ t. t % 1000)
      false
      2
      busy_view
      busy
      (write_failure (λ t. true) (λ x y. x == y) (λ t. t % 1000) false 2 busy)
unfolding no_thread
write_failure-Represents_example =
    write_failure-Represents (λ t. true) (λ x y. x == y) (λ t. t % 1000) false 2 busy_view busy
      (λ t u p q l m e. ground (arith, l, m)) (λ t p l. ground (arith, l)) busy-Represents

-- Every file opens as descriptor 9.
nine : Opens (λ name. some 9) [] [] (λ level. 9)
nine level h = refl

initialize_log_fds_lem_example :
    written_to (initialize_log_fds (λ name. some 9) (some []) [] (fresh true 0 abort)) warning
    ≡ some (2 ∷ 9 ∷ 9 ∷ [])
unfolding level_of
initialize_log_fds_lem_example =
    initialize_log_fds_lem (λ name. some 9) [] [] (λ level. 9) true 0 abort warning (omega arith)
      nine

-- A vector of four elements of four bytes in 1024 bytes.
abbrev memory_of : ℕ → MemoryHandle
memory_of size = record { size = size; alloc_size = size; buf = 11 }

abbrev handle : MemoryHandle
handle = record { size = 16; alloc_size = 1024; buf = 3 }

abbrev vector : VectorT
vector = record {
  height = 1;
  width = 4;
  stride = 4;
  data_ptr = record { buf = 3; index = 0 };
  trans = false;
  memory_handle = some handle;
}

resize-IsBacked_example :
    IsBacked 4 (resize 4 memory_of vector 300) × (get_size (resize 4 memory_of vector 300) ≡ 300)
resize-IsBacked_example = resize-IsBacked 4 memory_of vector 300 (omega arith) (omega arith) refl

sub_vec_from_interval-quiet_example :
    (((sub_vec_from_interval vector vector (3, 1)).log ≡ [])
      ↔ ((3 < get_size vector) × (1 ≤ get_size vector)))
    × (get_size (sub_vec_from_interval vector vector (3, 1)).value ≡ 2 ^ 64 - 2)
sub_vec_from_interval-quiet_example =
    sub_vec_from_interval-quiet vector vector 3 1 (omega arith) (omega arith)
