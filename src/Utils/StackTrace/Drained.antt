-- ===== src/Utils/StackTrace/Drained.antt =====
-- What `dump` hands to its callback, and what it leaves.
use mathlib.Core.Path.{fun_ext}
use ccml.Base.{
  ℕ, ◌≡◌, refl, sym, ap, ◌∙◌, Bool, true, false, not, ◌&&◌, List, [], ◌∷◌, ◌++◌, map, Option, some,
  ◌==◌, ==-refl, arith, Bool-cases, Option-cases, inl, inr, if◌then◌else◌,
}
use ccml.Core.ThreadLocal.{ThreadLocal, updated}
use ccml.Utils.StackTrace.{
  Buffer, CustomStackTrace, Call, find_thread, stack_calls, before_calls, skipped, dump_stack,
  then_dump, dump_loop, dumped, dump,
}
use ccml.Utils.StackTrace.Entries.{Listed, Unique}
use ccml.Utils.StackTrace.Locals.{
  IsKept, local_of, local_of-known, with_value, with_value-IsKept, local_of-with_value,
}
use ccml.Utils.StackTrace.Dumps.{stack_calls-map}
use ccml.Utils.StackTrace.Emptiness.{local_of-none}
use ccml.Utils.StackTrace.Threads.{View, Represents}

-- The threads' view behind a dump, of the calling thread alone or of all.
unfoldable pub dumped_view : {T : Type 0} → Bool → ℕ → View T → View T
dumped_view only current v = record v {
  stacks = λ t. if only && not (t == current) then v.stacks t else [];
}

module _ {T : Type 0} (stores : ℕ → Bool) (item_eq : T → T → Bool) (only : Bool) (current : ℕ)
    (pushing : Buffer) where
  -- The items of a thread, the newest first, with the thread and the pointer to its flag.
  abbrev items_of : (ℕ → List T) → ℕ → List (Call stores item_eq)
  items_of stacks t = map (λ x. (t, find_thread t pushing, x)) (stacks t)

  -- The calls for the threads of a buffer.
  unfoldable pub calls_of : (ℕ → List T) → Buffer → List (Call stores item_eq)
  unfolding skipped
  calls_of stacks [] = []
  calls_of stacks ((t, p) ∷ buffer) =
      (if skipped stores item_eq only current t then [] else items_of stacks t)
      ++ calls_of stacks buffer

  -- What the threads have then.
  emptied : Buffer → (ℕ → List T) → ℕ → List T
  unfolding skipped
  emptied [] stacks = stacks
  emptied ((t, p) ∷ buffer) stacks =
      emptied buffer (if skipped stores item_eq only current t then stacks else updated stacks t [])

  -- A thread that is not listed does not matter.
  calls_of-updated :
      (t : ℕ) (new : List T) (stacks : ℕ → List T) (buffer : Buffer)
      → ((p : ℕ) → Listed t p buffer → ⊥)
      → calls_of (updated stacks t new) buffer ≡ calls_of stacks buffer
  unfolding calls_of
  calls_of-updated t new stacks [] h = refl
  calls_of-updated t new stacks ((u, q) ∷ buffer) h =
      let apart : (t == u) ≡ false = ground (arith, h q) in
      rw (apart, calls_of-updated t new stacks buffer (λ p l. h p (inr l))) refl

  module _ (listed : Buffer) where
    -- What the loop gives and leaves on the rest of a buffer.
    abbrev Drains :
        Buffer
        → ThreadLocal (List T)
        → Option (List (Call stores item_eq) × ThreadLocal (List T))
        → Type 0
    Drains buffer s r =
        (s' : ThreadLocal (List T)) × (r ≡ some (calls_of (local_of [] s) buffer, s'))
        × IsKept s' listed
        × (local_of [] s' ≡ emptied buffer (local_of [] s))

    -- One entry whose stack is dumped, before the rest.
    drain_first :
        (t p : ℕ) (l : List T) (buffer : Buffer) (s : ThreadLocal (List T))
        → IsKept s listed
        → s.specific t ≡ some p
        → s.objects p ≡ some l
        → ((q : ℕ) → Listed t q buffer → ⊥)
        → Drains buffer
            (with_value [] s p [])
            (dump_loop stores item_eq only current pushing buffer (with_value [] s p []))
        → (s' : ThreadLocal (List T)) × (then_dump stores item_eq
              (dump_stack stores item_eq t (find_thread t pushing) p (s.objects p) s)
              (λ x. dump_loop stores item_eq only current pushing buffer x)
            ≡ some (items_of (local_of [] s) t ++ calls_of (local_of [] s) buffer, s'))
          × IsKept s' listed
          × (local_of [] s' ≡ emptied buffer (updated (local_of [] s) t []))
    unfolding then_dump dump_stack before_calls
    drain_first t p l buffer s k at o alone (s', q, k', w) = (
      s',
      ap
            (λ o'.
              then_dump stores item_eq (dump_stack stores item_eq t (find_thread t pushing) p o' s)
                (λ x. dump_loop stores item_eq only current pushing buffer x))
            o
          ∙ (ap
                (before_calls stores item_eq
                  (stack_calls stores item_eq t (find_thread t pushing) l))
                q
              ∙ ap (λ c. some (c, s'))
                  (ap (λ c. c ++ calls_of (local_of [] (with_value [] s p [])) buffer)
                      (stack_calls-map stores item_eq t (find_thread t pushing) l
                        ∙ ap (map (λ x. (t, find_thread t pushing, x))) (sym shows))
                    ∙ ap (λ c. items_of (local_of [] s) t ++ c)
                        (ap (λ f. calls_of f buffer) others
                          ∙ calls_of-updated t [] (local_of [] s) buffer alone))),
      k',
      w ∙ ap (emptied buffer) others,
    )
      where
        shows : local_of [] s t ≡ l
        shows = local_of-known [] s t p l at o

        others : local_of [] (with_value [] s p []) ≡ updated (local_of [] s) t []
        others = fun_ext (λ u. local_of-with_value [] s t p [] u k.owned at)

    dump_loop-Drains :
        (buffer : Buffer) (s : ThreadLocal (List T))
        → IsKept s listed
        → ((t p : ℕ) → Listed t p buffer → s.specific t ≡ some p)
        → Unique buffer
        → Drains buffer s (dump_loop stores item_eq only current pushing buffer s)
    unfolding dump_loop calls_of emptied
    dump_loop-Drains [] s k sub once = (s, refl, k, refl)
    dump_loop-Drains ((t, p) ∷ buffer) s k sub once =
        let at = sub t p (inl (refl, refl)) in
        elim (Bool-cases (skipped stores item_eq only current t)) [
          | inl e ↦ rw e (dump_loop-Drains buffer s k (λ u q l. sub u q (inr l)) once.1)
          | inr e ↦ elim (Option-cases (s.objects p)) [
            | inl n ↦ absurd ((k.owned.live t p at).0 n)
            | inr (l, o) ↦ rw e (
                drain_first t p l buffer s k at o once.0 (
                  dump_loop-Drains buffer (with_value [] s p [])
                    (with_value-IsKept [] s t p [] listed k) (λ u q m. sub u q (inr m)) once.1))
          ]
        ]

  emptied-skipped :
      (u : ℕ) (buffer : Buffer) (stacks : ℕ → List T)
      → skipped stores item_eq only current u ≡ true
      → emptied buffer stacks u ≡ stacks u
  unfolding emptied
  emptied-skipped u [] stacks e = refl
  emptied-skipped u ((t, p) ∷ buffer) stacks e =
      emptied-skipped u buffer _ e ∙ elim (Bool-cases (t == u)) [
        | inl same ↦ let w : t ≡ u = ground arith in rw (w, e) refl
        | inr other ↦ elim (Bool-cases (skipped stores item_eq only current t)) [
          | inl y ↦ rw y refl
          | inr n ↦ rw (n, other) refl
        ]
      ]

  emptied-none :
      (u : ℕ) (buffer : Buffer) (stacks : ℕ → List T) → stacks u ≡ [] → emptied buffer stacks u ≡ []
  unfolding emptied
  emptied-none u [] stacks h = h
  emptied-none u ((t, p) ∷ buffer) stacks h =
      emptied-none u buffer _ (elim (Bool-cases (skipped stores item_eq only current t)) [
        | inl y ↦ rw y h
        | inr n ↦ rw n (ground (arith, h))
      ])

  emptied-Listed :
      (u q : ℕ) (buffer : Buffer) (stacks : ℕ → List T)
      → skipped stores item_eq only current u ≡ false
      → Listed u q buffer
      → emptied buffer stacks u ≡ []
  unfolding emptied
  emptied-Listed u q [] stacks e h = absurd h
  emptied-Listed u q ((t, p) ∷ buffer) stacks e (inr h) = emptied-Listed u q buffer _ e h
  emptied-Listed u q ((t, p) ∷ buffer) stacks e (inl h) =
      emptied-none u buffer _ (rw (h.0, e) (rw (==-refl u) refl))

  emptied_lem :
      (s : ThreadLocal (List T)) (buffer : Buffer) (u : ℕ)
      → IsKept s buffer
      → emptied buffer (local_of [] s) u
        ≡ (if skipped stores item_eq only current u then local_of [] s u else [])
  emptied_lem s buffer u k = elim (Bool-cases (skipped stores item_eq only current u)) [
    | inl e ↦ rw e (emptied-skipped u buffer (local_of [] s) e)
    | inr e ↦ rw e (elim (Option-cases (s.specific u)) [
      | inl n ↦ emptied-none u buffer (local_of [] s) (local_of-none stores item_eq s u n)
      | inr (p, h) ↦ emptied-Listed u p buffer (local_of [] s) e (k.listed u p h)
    ])
  ]

module _ {T : Type 0} (stores : ℕ → Bool) (item_eq : T → T → Bool) where
  -- A dump of a stack trace that keeps a stack for each thread is defined, also with other threads'
  -- stacks: it hands every listed thread's items to the callback, thread by thread, the newest first, or
  -- those of the calling thread alone if that is asked for; the stacks that it dumped are empty then,
  -- the others and all flags are as before, and every object still belongs to one thread.
  pub dump-Represents :
      (only : Bool) (current : ℕ) (v : View T) (trace : CustomStackTrace T)
      → Represents v trace
      → (after : CustomStackTrace T) × (dump stores item_eq only current trace
          ≡ some (
            calls_of stores item_eq only current trace.pushing_buffer v.stacks trace.stack_buffer,
            after,
          ))
        × Represents (dumped_view only current v) after
  unfolding dump dumped skipped dumped_view
  dump-Represents only current v trace k =
      let (s, e, kept, w) =
        dump_loop-Drains stores item_eq only current trace.pushing_buffer trace.stack_buffer
          trace.stack_buffer trace.log_stack k.kept_stacks k.kept_stacks.only
          k.kept_stacks.unique in
      (
        record trace { log_stack = s },
        ap (dumped stores item_eq trace) e
            ∙ ap
                (λ f. some (
                  calls_of stores item_eq only current trace.pushing_buffer f trace.stack_buffer,
                  record trace { log_stack = s },
                ))
                (fun_ext k.shows_stacks),
        record {
          kept_stacks = kept;
          kept_flags = k.kept_flags;
          shows_stacks = λ u.
              ap (λ f. f u) w
              ∙ (emptied_lem stores item_eq only current trace.pushing_buffer trace.log_stack
                    trace.stack_buffer u k.kept_stacks
                  ∙ ap (λ l. if only && not (u == current) then l else []) (k.shows_stacks u));
          shows_flags = k.shows_flags;
        },
      )
