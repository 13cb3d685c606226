-- ===== src/Core/Channel/Skip.antt =====
-- How `readwritev` steps over the vectors that are done with.
use ccml.Base.{
  ℕ, zero, suc, ◌+◌, ◌-◌, ◌^◌, ◌≤◌, ◌<◌, ◌≡◌, refl, sym, ap, ◌∙◌, ◌⊎◌, inl, inr, true, false, List,
  [], ◌∷◌, ◌++◌, append_assoc, append-nil, length, take, drop, length-append, ltb, arith,
  length-take, length-drop, drop-drop, take-append-drop, Bool-cases, take-length-append,
  drop-length-append, drop-append, drop-append_over, take-more, if◌then◌else◌,
}
use ccml.Core.Channel.{Iovec, iov_len, advance, retreat, total_len, cells_of, skip, unwind}

module _ {ℓ} {A : Type ℓ} where
  -- The vectors after the first `n` cells have been moved.
  unfoldable pub consume : ℕ → List (Iovec A) → List (Iovec A)
  consume n [] = []
  consume n (v ∷ vs) =
      let rest = consume (n - iov_len v) vs in if ltb n (iov_len v) then advance n v ∷ vs else rest

  -- The array with `done` cells of its first vector moved.
  unfoldable pub at_done : ℕ → List (Iovec A) → List (Iovec A)
  at_done done [] = []
  at_done done (v ∷ vs) = advance done v ∷ vs

  unfoldable pub Partial : ℕ → List (Iovec A) → Type 0
  Partial done [] = Unit {0}
  Partial done (v ∷ vs) = (done ≡ 0) ⊎ (done < iov_len v)

  pub length-cells_of : (vs : List (Iovec A)) → length (cells_of vs) ≡ total_len vs
  length-cells_of [] = refl
  length-cells_of (v ∷ vs) = omega (arith, length-append v.cells (cells_of vs), length-cells_of vs)

  pub cells_of-take :
      (k : ℕ) (vs : List (Iovec A)) → cells_of vs ≡ cells_of (take k vs) ++ cells_of (drop k vs)
  cells_of-take zero vs = refl
  cells_of-take (suc k) [] = refl
  cells_of-take (suc k) (v ∷ vs) =
      ap (◌++◌ v.cells) (cells_of-take k vs)
      ∙ sym (append_assoc v.cells (cells_of (take k vs)) (cells_of (drop k vs)))

  -- Consuming drops cells from the front.
  pub cells_of-consume :
      (n : ℕ) (vs : List (Iovec A)) → cells_of (consume n vs) ≡ drop n (cells_of vs)
  unfolding consume advance
  cells_of-consume zero [] = refl
  cells_of-consume (suc n) [] = refl
  cells_of-consume n (v ∷ vs) = elim (Bool-cases (ltb n (iov_len v))) [
    | inl h ↦ rw h (sym (drop-append n v.cells (cells_of vs) (ground arith)))
    | inr h ↦ rw h (
        cells_of-consume (n - iov_len v) vs
        ∙ sym (drop-append_over n v.cells (cells_of vs) (ground arith)))
  ]

  -- Going back by as much as a vector was advanced restores it.
  pub retreat-advance : (n : ℕ) (v : Iovec A) → n ≤ iov_len v → retreat n (advance n v) ≡ v
  unfolding retreat advance
  retreat-advance n v h = λ i. record { before = back i; cells = forth i }
    where
      k : length (v.before ++ take n v.cells) - n ≡ length v.before
      k = omega (arith, length-append v.before (take n v.cells), length-take n v.cells)

      back : take (length (v.before ++ take n v.cells) - n) (v.before ++ take n v.cells) ≡ v.before
      back = rw k (take-length-append v.before (take n v.cells))

      forth :
          drop (length (v.before ++ take n v.cells) - n) (v.before ++ take n v.cells)
            ++ drop n v.cells
          ≡ v.cells
      forth = rw (k, drop-length-append v.before (take n v.cells)) (take-append-drop n v.cells)

  pub advance-zero : (v : Iovec A) → advance 0 v ≡ v
  unfolding advance
  advance-zero v = λ i. record { before = append-nil v.before i; cells = v.cells }

  advance-advance : (m n : ℕ) (v : Iovec A) → advance n (advance m v) ≡ advance (m + n) v
  unfolding advance
  advance-advance m n v = λ i. record { before = befores i; cells = drop-drop n m v.cells i }
    where
      befores :
          (v.before ++ take m v.cells) ++ take n (drop m v.cells) ≡ v.before ++ take (m + n) v.cells
      befores =
          append_assoc v.before (take m v.cells) (take n (drop m v.cells))
          ∙ ap (◌++◌ v.before) (take-more m n v.cells)

  pub iov_len-advance : (n : ℕ) (v : Iovec A) → iov_len (advance n v) ≡ iov_len v - n
  unfolding advance
  iov_len-advance n v = length-drop n v.cells

  -- Consuming from a vector that is partly done is consuming that much more from the whole one.
  pub consume-advance :
      (n d : ℕ) (v : Iovec A) (vs : List (Iovec A))
      → d ≤ iov_len v
      → consume n (advance d v ∷ vs) ≡ consume (n + d) (v ∷ vs)
  unfolding consume
  consume-advance n d v vs h = elim (Bool-cases (ltb (n + d) (iov_len v))) [
    | inl lt ↦
        let lt' : ltb n (iov_len v - d) ≡ true = ground arith in
        let c : d + n ≡ n + d = omega arith in
        rw (iov_len-advance d v, lt, lt') (ap (λ x. x ∷ vs) (advance-advance d n v ∙ rw c))
    | inr ge ↦
        let ge' : ltb n (iov_len v - d) ≡ false = ground arith in
        let c : n - (iov_len v - d) ≡ n + d - iov_len v = ground arith in
        rw (iov_len-advance d v, ge, ge', c)
  ]

  -- What the inner loop does to `n` cells' worth of vectors.
  abbrev pub Skips : List (Iovec A) → List (Iovec A) → ℕ → Type ℓ
  Skips passed vs n =
      (passed' : List (Iovec A)) × (left : List (Iovec A)) × (n' : ℕ) × (skip passed vs n
        ≡ (passed', left, n'))
      × Partial n' left
      × (unwind passed' left ≡ unwind passed vs)
      × (at_done n' left ≡ consume n vs)
      × (total_len left ≤ total_len vs)

  skip-past :
      (passed : List (Iovec A)) (v : Iovec A) (vs : List (Iovec A)) (n : ℕ)
      → n < 2 ^ 64
      → ltb n (iov_len v) ≡ false
      → skip passed (v ∷ vs) n ≡ skip (v ∷ passed) vs (n - iov_len v)
  unfolding skip
  skip-past passed v vs n small ge = rw ge (ap (skip (v ∷ passed) vs) (ground arith))

  pub skip_lem : (passed vs : List (Iovec A)) (n : ℕ) → n < 2 ^ 64 → Skips passed vs n
  unfolding skip consume at_done Partial
  skip_lem passed [] n small = (passed, [], n, refl, tt, refl, refl, omega arith)
  skip_lem passed (v ∷ vs) n small = elim (Bool-cases (ltb n (iov_len v))) [
    | inl lt ↦ (passed, v ∷ vs, n, rw lt, inr (ground arith), refl, rw lt, omega arith)
    | inr ge ↦
        let (passed', left, n', run, partial, array, spec, less) =
          skip_lem (v ∷ passed) vs (n - iov_len v) (omega arith) in
        (
          passed',
          left,
          n',
          skip-past passed v vs n small ge ∙ run,
          partial,
          array,
          rw ge spec,
          omega arith,
        )
  ]

  pub total_len-consume :
      (n : ℕ) (vs : List (Iovec A)) → total_len (consume n vs) ≡ total_len vs - n
  total_len-consume n vs =
      sym (length-cells_of (consume n vs))
      ∙ (ap length (cells_of-consume n vs)
          ∙ (length-drop n (cells_of vs) ∙ ap (λ k. k - n) (length-cells_of vs)))
