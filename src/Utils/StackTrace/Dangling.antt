-- ===== src/Utils/StackTrace/Dangling.antt =====
-- The pointers of threads that ended.
use ccml.Base.{
  ℕ, ◌≡◌, refl, ap, ◌∙◌, Bool, false, List, [], ◌∷◌, none, some, inl, inr, Option-cases, Bool-cases,
  ◌==◌, arith,
}
use ccml.Core.ThreadLocal.{ThreadLocal, updated}
use ccml.Core.ThreadLocal.Ownership.{dropped, thread_exit-live}
use ccml.Utils.StackTrace.{
  Buffer, CustomStackTrace, find_thread, skipped, dump_stack, then_dump, before_calls, dump_loop,
  dumped, dump, both_left, end_of_thread,
}
use ccml.Utils.StackTrace.Entries.{Listed}
use ccml.Utils.StackTrace.Threads.{View, Represents}

module _ {T : Type 0} (stores : ℕ → Bool) (item_eq : T → T → Bool) where
  -- A loop over all threads that meets a pointer to a deleted stack.
  dump_loop-deleted :
      (current : ℕ) (pushing : Buffer) (t p : ℕ) (buffer : Buffer) (s : ThreadLocal (List T))
      → Listed t p buffer
      → s.objects p ≡ none
      → dump_loop stores item_eq false current pushing buffer s ≡ none
  unfolding dump_loop skipped dump_stack then_dump before_calls
  dump_loop-deleted current pushing t p [] s h e = absurd h
  dump_loop-deleted current pushing t p ((u, q) ∷ buffer) s h e =
      elim (Option-cases (s.objects q)) [
        | inl n ↦
            ap
              (λ o.
                then_dump stores item_eq (dump_stack stores item_eq u (find_thread u pushing) q o s)
                  (λ x. dump_loop stores item_eq false current pushing buffer x))
              n
        | inr (l, o) ↦ elim h [
          | inl here ↦
              let same : s.objects q ≡ none = ap s.objects here.1 ∙ e in
              absurd (ground (arith, o, same))
          | inr there ↦
              ap
                (λ o'.
                  then_dump stores item_eq
                    (dump_stack stores item_eq u (find_thread u pushing) q o' s)
                    (λ x. dump_loop stores item_eq false current pushing buffer x))
                o
              ∙ ap (before_calls stores item_eq _) (
                  dump_loop-deleted current pushing t p buffer
                    (record s { objects = updated s.objects q (some []) }) there
                    (elim (Bool-cases (q == p)) [
                      | inl y ↦
                          let w : q ≡ p = ground arith in
                          let same : s.objects q ≡ none = ap s.objects w ∙ e in
                          absurd (ground (arith, o, same))
                      | inr y ↦ rw y e
                    ]))
        ]
      ]

module _ {T : Type 0} (stores : ℕ → Bool) (item_eq : T → T → Bool) where
  -- When a thread that has used both its stack and its flag ends, its pointers stay in the buffers: the
  -- end itself is defined, and a dump of all threads that is made directly after it uses a stack that is
  -- deleted, which is undefined, whichever thread makes it.
  pub end_of_thread-dangling :
      (t p q current : ℕ) (v : View T) (trace : CustomStackTrace T)
      → Represents v trace
      → trace.log_stack.specific t ≡ some p
      → trace.is_pushing.specific t ≡ some q
      → (after : CustomStackTrace T) × (end_of_thread t trace ≡ some after)
        × (dump stores item_eq false current after ≡ none)
  unfolding end_of_thread both_left dump dumped
  end_of_thread-dangling t p q current v trace k e f =
      let stacks = k.kept_stacks in
      let after : CustomStackTrace T = record trace {
        is_pushing = dropped trace.is_pushing k.kept_flags.owned t q;
        log_stack = dropped trace.log_stack stacks.owned t p;
      } in
      (
        after,
        rw
            (
              thread_exit-live trace.is_pushing t q k.kept_flags.owned f,
              thread_exit-live trace.log_stack t p stacks.owned e,
            )
            refl,
        ap (dumped stores item_eq after) (
            dump_loop-deleted stores item_eq current trace.pushing_buffer t p trace.stack_buffer
              after.log_stack (stacks.listed t p e) (ground arith)),
      )
