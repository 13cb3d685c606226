-- ===== src/Utils/StackTrace/Tracer.antt =====
-- The output function of src/utils/CustomStackTrace.cpp. `hash` is `std::hash` of a thread's id.
pub mod Report
use ccml.Base.{
  ℕ, ◌-◌, ◌^◌, Bool, true, false, List, [], ◌∷◌, ◌++◌, Option, none, some, ◌==◌, if◌then◌else◌,
}
use ccml.Utils.Logging.Quiet.{bound}
use ccml.Utils.Logging.Sinks.{Sinks, install_failure_writer}
use ccml.Core.ThreadLocal.{ThreadLocal}
use ccml.Utils.StackTrace.{CustomStackTrace, empty, dump}

-- What is put on `std::cerr`: the end of a line, the head for a thread, the word for its flag, an item
-- with its comma, and the message that the function gets.
pub data Printed (T : Type 0) : Type 0 where
  newline : Printed T
  thread : ℕ → Printed T
  forwarding backwarding : Printed T
  item : T → Printed T
  message : Printed T

-- `-1UL`
unfoldable pub no_thread : ℕ
no_thread = 2 ^ 64 - 1

module _ {T : Type 0} (flags : ℕ → Option Bool) where
  flag_read : Option Bool → Option (List (Printed T))
  flag_read none = none
  flag_read (some true) = some (forwarding ∷ [])
  flag_read (some false) = some (backwarding ∷ [])

  -- `if(is_forwarding)`; a pointer to a flag that is deleted is undefined.
  pub flag_word : Option ℕ → Option (List (Printed T))
  unfolding flag_read
  flag_word none = some []
  flag_word (some p) = flag_read (flags p)

  -- The head of a thread other than the one before.
  pub thread_head : ℕ → ℕ → Option ℕ → Option (List (Printed T))
  unfolding flag_word no_thread
  thread_head current_tid t is_forwarding =
      bound
        (λ word. some ((if current_tid == no_thread then [] else newline ∷ []) ++ thread t ∷ word))
        (flag_word is_forwarding)

module _ {T : Type 0} (hash : ℕ → ℕ) (flags : ℕ → Option Bool) where
  -- One call of the callback.
  pub printed_call : ℕ → ℕ × Option ℕ × T → Option (List (Printed T))
  unfolding thread_head
  printed_call current_tid (t, is_forwarding, layer_name) =
      if current_tid == hash t
      then some (item layer_name ∷ [])
      else bound (λ head. some (head ++ item layer_name ∷ []))
          (thread_head flags current_tid t is_forwarding)

  -- The callback on the calls of a dump; `current_tid` is what it captured.
  pub printed_calls : ℕ → List (ℕ × Option ℕ × T) → Option (List (Printed T))
  unfolding printed_call
  printed_calls current_tid [] = some []
  printed_calls current_tid ((t, is_forwarding, layer_name) ∷ calls) =
      bound (λ out. bound (λ more. some (out ++ more)) (printed_calls (hash t) calls))
        (printed_call current_tid (t, is_forwarding, layer_name))

module _ {T : Type 0} (stores : ℕ → Bool) (item_eq : T → T → Bool) (hash : ℕ → ℕ) where
  -- The branch of a stack trace that is not empty, behind its dump.
  printed_dump :
      CustomStackTrace T
      → Option (List (ℕ × Option ℕ × T) × CustomStackTrace T)
      → Option (List (Printed T) × CustomStackTrace T)
  unfolding printed_calls no_thread
  printed_dump trace none = none
  printed_dump trace (some (calls, after)) =
      bound (λ out. some (out ++ newline ∷ message ∷ [], after))
        (printed_calls hash trace.is_pushing.objects no_thread calls)

  write_trace :
      Bool → ℕ → CustomStackTrace T → Option Bool → Option (List (Printed T) × CustomStackTrace T)
  unfolding printed_dump
  write_trace only current trace none = none
  write_trace only current trace (some true) = some (message ∷ [], trace)
  write_trace only current trace (some false) =
      printed_dump trace (dump stores item_eq only current trace)

  -- The function that install_layer_stack_tracer hands to install_failure_writer, called in thread
  -- `current`; `only` is FLAGS_layer_stack_error_only_current_thread.
  pub write_failure : Bool → ℕ → CustomStackTrace T → Option (List (Printed T) × CustomStackTrace T)
  unfolding write_trace
  write_failure only current trace = write_trace only current trace (empty stores item_eq trace)

-- `install_layer_stack_tracer`; `write` stands for the function above.
pub install_layer_stack_tracer : ℕ → Sinks → Sinks
unfolding install_failure_writer
install_layer_stack_tracer write s = install_failure_writer write s
