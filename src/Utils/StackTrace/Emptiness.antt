-- ===== src/Utils/StackTrace/Emptiness.antt =====
-- What `empty` tells of the threads' stacks.
use ccml.Base.{
  ℕ, ◌≡◌, refl, sym, ap, ◌∙◌, Bool, true, false, List, [], ◌∷◌, none, some, Option-cases, ◌⊎◌, inl,
  inr,
}
use ccml.Core.ThreadLocal.{ThreadLocal}
use ccml.Core.ThreadLocal.Ownership.{IsOwned}
use ccml.Utils.StackTrace.{Buffer, CustomStackTrace, all_empty, empty}
use ccml.Utils.StackTrace.Entries.{Listed}
use ccml.Utils.StackTrace.Locals.{local_of, local_of-known}
use ccml.Utils.StackTrace.Threads.{View, Represents}

List-cases {ℓ} :
    {A : Type ℓ} (xs : List A) → (xs ≡ []) ⊎ ((x : A) × (rest : List A) × (xs ≡ x ∷ rest))
List-cases [] = inl refl
List-cases (x ∷ rest) = inr (x, rest, refl)

-- Some thread has something.
abbrev pub SomeEntry : {T : Type 0} → (ℕ → List T) → Type 0
SomeEntry {T} stacks = (t : ℕ) × (x : T) × (rest : List T) × (stacks t ≡ x ∷ rest)

module _ {T : Type 0} (stores : ℕ → Bool) (item_eq : T → T → Bool) where
  all_empty-Listed :
      (s : ThreadLocal (List T)) (buffer : Buffer)
      → IsOwned s
      → ((t p : ℕ) → Listed t p buffer → s.specific t ≡ some p)
      → ((all_empty stores item_eq s buffer ≡ some true)
          × ((t p : ℕ) → Listed t p buffer → local_of [] s t ≡ []))
        ⊎ ((all_empty stores item_eq s buffer ≡ some false) × SomeEntry (local_of [] s))
  unfolding all_empty
  all_empty-Listed s [] v only = inl (refl, λ t p h. absurd h)
  all_empty-Listed s ((u, q) ∷ buffer) v only = elim (Option-cases (s.objects q)) [
    | inl n ↦ absurd ((v.live u q (only u q (inl (refl, refl)))).0 n)
    | inr (l, o) ↦
        let shows = local_of-known [] s u q l (only u q (inl (refl, refl))) o in
        elim (List-cases l) [
          | inr (x, rest, e) ↦ inr (rw (all_empty, o, e) refl, (u, x, rest, shows ∙ e))
          | inl e ↦ elim (all_empty-Listed s buffer v (λ t p h. only t p (inr h))) [
            | inr h ↦ inr (rw (all_empty, o, e) h.0, h.1)
            | inl h ↦ inl (
              rw (all_empty, o, e) h.0,
              λ t p k. elim k [
                | inl m ↦ ap (local_of [] s) (sym m.0) ∙ (shows ∙ e)
                | inr m ↦ h.1 t p m
              ],
            )
          ]
        ]
  ]

  pub local_of-none :
      (s : ThreadLocal (List T)) (t : ℕ) → s.specific t ≡ none → local_of [] s t ≡ []
  unfolding local_of
  local_of-none s t e = rw e refl

  -- On a stack trace that keeps a stack for each thread, `empty` is defined; it says true exactly if no
  -- thread has anything on its stack, also for threads that have not used it, and false exactly if some
  -- thread has.
  pub empty-Represents :
      (v : View T) (trace : CustomStackTrace T)
      → Represents v trace
      → ((empty stores item_eq trace ≡ some true) × ((t : ℕ) → v.stacks t ≡ []))
        ⊎ ((empty stores item_eq trace ≡ some false) × SomeEntry v.stacks)
  unfolding empty
  empty-Represents v trace k =
      let s = trace.log_stack in
      let kept = k.kept_stacks in
      elim (all_empty-Listed s trace.stack_buffer kept.owned kept.only) [
        | inl h ↦ inl (
          h.0,
          λ t. sym (k.shows_stacks t) ∙ elim (Option-cases (s.specific t)) [
            | inl n ↦ local_of-none s t n
            | inr (p, e) ↦ h.1 t p (kept.listed t p e)
          ],
        )
        | inr (e, (t, x, rest, l)) ↦ inr (e, (t, x, rest, sym (k.shows_stacks t) ∙ l))
      ]
