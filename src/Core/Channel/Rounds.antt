-- ===== src/Core/Channel/Rounds.antt =====
-- The rounds of `readwritev`: its loop from any round on.
use ccml.Base.{
  ℕ, zero, suc, ◌+◌, ◌%◌, ◌^◌, ◌≤◌, ◌<◌, ◌≡◌, refl, sym, ap, subst, ◌∙◌, ◌⊎◌, inl, inr, List, [],
  ◌∷◌, ◌++◌, append_assoc, append-nil, Option, none, some, length, take, drop, lt→ltb, le→not-ltb,
  arith, take-append-drop, min, take-append,
}
use ccml.Utils.Logging.{Logged, quiet}
use ccml.Core.Channel.{
  Iovec, iov_len, advance, retreat, total_len, cells_of, skip, settle, Io, io_failed, io, Vectors,
  checked, unwind, readwritev_loop,
}
use ccml.Core.Channel.Skip.{
  consume, at_done, Partial, length-cells_of, cells_of-take, cells_of-consume, retreat-advance,
  advance-zero, iov_len-advance, consume-advance, skip_lem, total_len-consume,
}

module _ {ℓ} {A : Type ℓ} where
  -- The kernel's answers to a transfer: each moves at least one cell and no more than it was offered,
  -- and they go on until nothing is left.
  abbrev pub Serves : ℕ → List (Iovec A) → List Io → Type 0
  Serves max vs [] = total_len vs ≡ 0
  Serves max vs (io_failed ∷ answers) = total_len vs ≡ 0
  Serves max vs (io n ∷ answers) =
      (total_len vs ≡ 0)
      ⊎ ((0 < n)
          × (n ≤ total_len (take (min (length vs) max) vs))
          × Serves max (consume n vs) answers)

  -- The loop when everything is moved.
  pub readwritev_loop-stop :
      (max size total : ℕ) (passed left : List (Iovec A)) (done : ℕ) (moved : List A)
      (answers : List Io)
      → total ≤ size
      → readwritev_loop max size total passed left done moved answers
        ≡ some (quiet (record { size = size; moved = moved; iovs = unwind passed left }))
  unfolding readwritev_loop
  readwritev_loop-stop max size total passed left done moved [] h = rw (le→not-ltb size total h)
  readwritev_loop-stop max size total passed [] done moved (a ∷ answers) h =
      rw (le→not-ltb size total h)
  readwritev_loop-stop max size total passed (v ∷ vs) done moved (a ∷ answers) h =
      rw (le→not-ltb size total h)

  at_done-none_left :
      (done : ℕ) (vs : List (Iovec A))
      → Partial done vs
      → total_len (at_done done vs) ≡ 0
      → at_done done vs ≡ vs
  unfolding at_done Partial
  at_done-none_left done [] p e = refl
  at_done-none_left done (v ∷ vs) (inl z) e = rw z (ap (λ x. x ∷ vs) (advance-zero v))
  at_done-none_left done (v ∷ vs) (inr lt) e = absurd (omega (arith, iov_len-advance done v))

  checked-positive : (n : ℕ) (o : Option (Logged (Vectors A))) → 0 < n → checked (io n) o ≡ o
  unfolding checked
  checked-positive n none pos = refl
  checked-positive n (some r) pos = rw (lt→ltb 0 n pos)

  -- One round of the loop, for an answer that moved something.
  readwritev_loop-round :
      (max size total : ℕ) (passed : List (Iovec A)) (v : Iovec A) (vs : List (Iovec A)) (done : ℕ)
      (moved : List A) (n : ℕ) (answers : List Io) (passed' left : List (Iovec A)) (n' : ℕ)
      → size < total
      → 0 < n
      → size + n < 2 ^ 64
      → n + done < 2 ^ 64
      → skip passed (retreat done v ∷ vs) (n + done) ≡ (passed', left, n')
      → readwritev_loop max size total passed (v ∷ vs) done moved (io n ∷ answers)
        ≡ readwritev_loop max
            (size + n)
            total
            passed'
            (settle left n' done).0
            (settle left n' done).1
            (moved ++ take n (cells_of (take (min (length (v ∷ vs)) max) (v ∷ vs))))
            answers
  unfolding readwritev_loop
  readwritev_loop-round max size total passed v vs done moved n answers passed' left n' lt pos fits
        fits' run =
      let e : (n + done) % 2 ^ 64 ≡ n + done = omega arith in
      let e' : (size + n) % 2 ^ 64 ≡ size + n = omega arith in
      rw (lt→ltb size total lt, e, run, e') (checked-positive n _ pos)

  -- The cells of the first vectors are the first cells.
  take-cells_of :
      (n k : ℕ) (vs : List (Iovec A))
      → n ≤ total_len (take k vs)
      → take n (cells_of (take k vs)) ≡ take n (cells_of vs)
  take-cells_of n k vs h = sym (
      ap (take n) (cells_of-take k vs)
      ∙ take-append n (cells_of (take k vs)) (cells_of (drop k vs))
          (rw (length-cells_of (take k vs)) h))

  total_len-take : (k : ℕ) (vs : List (Iovec A)) → total_len (take k vs) ≤ total_len vs
  total_len-take zero vs = omega arith
  total_len-take (suc k) [] = omega arith
  total_len-take (suc k) (v ∷ vs) = omega (arith, total_len-take k vs)

  nil_of_length : (xs : List A) → length xs ≡ 0 → xs ≡ []
  nil_of_length [] h = refl
  nil_of_length (x ∷ xs) h = absurd (omega arith)

  -- What the loop returns from a round on: all that was left is moved, and the array is as it was.
  abbrev pub Finishes : ℕ → ℕ → ℕ → List (Iovec A) → List (Iovec A) → ℕ → List A → List Io → Type ℓ
  Finishes max size total passed vs done moved answers =
      readwritev_loop max size total passed (at_done done vs) done moved answers
      ≡ some (
          quiet (record {
            size = total;
            moved = moved ++ cells_of (at_done done vs);
            iovs = unwind passed vs;
          }))

  finished :
      (max size total : ℕ) (passed vs : List (Iovec A)) (done : ℕ) (moved : List A)
      (answers : List Io)
      → Partial done vs
      → size + total_len (at_done done vs) ≡ total
      → total_len (at_done done vs) ≡ 0
      → Finishes max size total passed vs done moved answers
  finished max size total passed vs done moved answers p e z =
      readwritev_loop-stop max size total passed (at_done done vs) done moved answers (omega arith)
      ∙ λ i. some (quiet (record { size = sizes i; moved = moves i; iovs = arrays i }))
    where
      sizes : size ≡ total
      sizes = omega arith

      nothing : cells_of (at_done done vs) ≡ []
      nothing = nil_of_length _ (length-cells_of (at_done done vs) ∙ z)

      moves : moved ≡ moved ++ cells_of (at_done done vs)
      moves = rw nothing (sym (append-nil moved))

      arrays : unwind passed (at_done done vs) ≡ unwind passed vs
      arrays = ap (unwind passed) (at_done-none_left done vs p z)

  settle_lem :
      (left : List (Iovec A)) (n done : ℕ)
      → Partial n left
      → ((settle left n done).0 ≡ at_done (settle left n done).1 left)
        × (at_done (settle left n done).1 left ≡ at_done n left)
        × Partial (settle left n done).1 left
  unfolding settle at_done Partial
  settle_lem [] n done p = (refl, refl, tt)
  settle_lem (v ∷ vs) n done p = (refl, refl, p)

  remaining_bound :
      (done : ℕ) (v : Iovec A) (vs : List (Iovec A)) → Partial done (v ∷ vs) → done ≤ iov_len v
  unfolding Partial
  remaining_bound done v vs p = ground arith

  pub at_done-cons :
      (done : ℕ) (v : Iovec A) (vs : List (Iovec A)) → at_done done (v ∷ vs) ≡ advance done v ∷ vs
  unfolding at_done
  at_done-cons done v vs = refl

  pub at_done-nil : (done : ℕ) → at_done {A = A} done [] ≡ []
  unfolding at_done
  at_done-nil done = refl

  -- The loop from any round on.
  pub readwritev_loop-Serves :
      (max size total : ℕ) (passed vs : List (Iovec A)) (done : ℕ) (moved : List A)
      (answers : List Io)
      → Partial done vs
      → size + total_len (at_done done vs) ≡ total
      → total + total < 2 ^ 64
      → total_len vs ≤ total
      → Serves max (at_done done vs) answers
      → Finishes max size total passed vs done moved answers
  readwritev_loop-Serves max size total passed vs done moved [] p e small whole s =
      finished max size total passed vs done moved [] p e s
  readwritev_loop-Serves max size total passed vs done moved (io_failed ∷ answers) p e small whole
        s =
      finished max size total passed vs done moved _ p e s
  readwritev_loop-Serves max size total passed vs done moved (io n ∷ answers) p e small whole
        (inl s) =
      finished max size total passed vs done moved _ p e s
  readwritev_loop-Serves max size total passed [] done moved (io n ∷ answers) p e small whole
        (inr s) =
      absurd (
        omega (
          arith,
          s.0,
          s.1,
          total_len-take (min (length (at_done {A = A} done [])) max) (at_done {A = A} done []),
          ap total_len (at_done-nil done),
        ))
  readwritev_loop-Serves max size total passed (v ∷ vs) done moved (io n ∷ answers) p e small whole
        (inr (pos, fits, serves)) =
      let within : done ≤ iov_len v = remaining_bound done v vs p in
      let array : List (Iovec A) = advance done v ∷ vs in
      let offered : List (Iovec A) = take (min (length array) max) array in
      let fits' : n ≤ total_len offered = rw (at_done-cons done v vs) at fits in
      let e' : size + total_len array ≡ total = rw (at_done-cons done v vs) at e in
      let serves' : Serves max (consume n array) answers = rw (at_done-cons done v vs) at serves in
      let below : n ≤ total_len array =
        omega (arith, total_len-take (min (length array) max) array) in
      let word : n + done < 2 ^ 64 = omega (arith, iov_len-advance done v) in
      let (passed', left, n', run, partial, unwound, spec, less) =
        skip_lem passed (v ∷ vs) (n + done) word in
      let (here, there, partial') = settle_lem left n' done partial in
      let d : ℕ = (settle left n' done).1 in
      let same : at_done d left ≡ consume n array =
        there ∙ (spec ∙ sym (consume-advance n done v vs within)) in
      let moved' : List A = moved ++ take n (cells_of offered) in
      let run' : skip passed (retreat done (advance done v) ∷ vs) (n + done) ≡ (passed', left, n') =
        ap (λ u. skip passed (u ∷ vs) (n + done)) (retreat-advance done v within) ∙ run in
      let later : Finishes max (size + n) total passed' left d moved' answers =
        readwritev_loop-Serves max (size + n) total passed' left d moved' answers partial'
          (omega (arith, ap total_len same, total_len-consume n array)) small (omega arith)
          (subst (λ l. Serves max l answers) (sym same) serves') in
      let all_moved : moved' ++ cells_of (at_done d left) ≡ moved ++ cells_of array =
        rw (same, cells_of-consume n array, take-cells_of n (min (length array) max) array fits')
          (append_assoc moved (take n (cells_of array)) (drop n (cells_of array))
            ∙ ap (◌++◌ moved) (take-append-drop n (cells_of array))) in
      rw (at_done-cons done v vs) (
        readwritev_loop-round max size total passed (advance done v) vs done moved n answers passed'
          left n' (omega arith) pos (omega arith) word run'
        ∙ (ap (λ l. readwritev_loop max (size + n) total passed' l d moved' answers) here
            ∙ (later ∙ λ i.
                some (quiet (record { size = total; moved = all_moved i; iovs = unwound i })))))
