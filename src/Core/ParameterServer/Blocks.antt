-- ===== src/Core/ParameterServer/Blocks.antt =====
-- The blocks that `ReadWriteBuffer` hands out.
use native.Mathlib.Nat.{
  div-mul-le_self, lt-div-mul-add, mod-eq_of_lt, dvd_of_mod-eq-zero, mod-eq-zero_of_dvd,
  div-mul_cancel, mul-mod_left, mul_assoc, dvd-mul_left_of_dvd,
}
use ccml.Base.{
  ℕ, ◌+◌, ◌-◌, ◌*◌, ◌/◌, ◌%◌, ◌^◌, ◌≤◌, ◌<◌, ◌≡◌, ◌⊎◌, sym, ap, ◌∙◌, true, false, List, [], ◌∷◌,
  length, sum, if◌then◌else◌, arith, Bool-cases, inl, inr,
}
use ccml.Core.ParameterServer.{
  Alignment, is_t_larger, align_element_count, ReadWriteBuffer, resize_with_align_hints,
  reset_align_alloc, round_up, next_block,
}

-- `n / c * c` for the sum that `round_up` makes.
div-mul_bounds : (n c : ℕ) → 0 < c → (n ≤ (n + c - 1) / c * c) × ((n + c - 1) / c * c + 1 ≤ n + c)
div-mul_bounds n c pos =
    omega (arith, div-mul-le_self (n + c - 1) c, lt-div-mul-add {a = n + c - 1} {b = c} pos)

ℕ-cases : (n : ℕ) → (n ≡ 0) ⊎ (0 < n)
ℕ-cases n = omega arith

-- The element type fits the alignment (the `static_assert`s), and where counts are rounded, the number of
-- elements is a power of two, so that the mask of `next_block` rounds.
pub record IsAligned (t : Alignment) : Type 0 where
  pub size_pos : 0 < t.size_of_t
  pub align_pos : 0 < t.align_bytes
  pub fits : (t.size_of_t % t.align_bytes ≡ 0) ⊎ (t.align_bytes % t.size_of_t ≡ 0)
  pub exponent : ℕ
  pub count_power : (is_t_larger t ≡ true) ⊎ (align_element_count t ≡ 2 ^ exponent)

module _ (t : Alignment) where
  -- `next_block` for one size after the other: where the blocks begin.
  pub next_blocks : ReadWriteBuffer → List ℕ → List ℕ
  unfolding next_block
  next_blocks b [] = []
  next_blocks b (n ∷ ns) = let (at, b') = next_block t b n in at ∷ next_blocks b' ns

  -- The blocks lie behind one another from `from` on, the last one before `end`, and each begins at a
  -- byte that is a multiple of the alignment.
  abbrev pub Placed : ℕ → ℕ → List ℕ → List ℕ → Type 0
  Placed from end [] [] = from ≤ end
  Placed from end [] (n ∷ ns) = ⊥
  Placed from end (at ∷ ats) [] = ⊥
  Placed from end (at ∷ ats) (n ∷ ns) =
      (from ≤ at) × ((at * t.size_of_t) % t.align_bytes ≡ 0) × Placed (at + n) end ats ns

  abbrev AtAlign : ℕ → Type 0
  AtAlign at = (at * t.size_of_t) % t.align_bytes ≡ 0

  module _ (v : IsAligned t) where
    size-mod-align : is_t_larger t ≡ true → t.size_of_t % t.align_bytes ≡ 0
    size-mod-align larger = elim v.fits [
      | inl h ↦ h
      | inr h ↦
          let cases : (t.align_bytes ≡ t.size_of_t) ⊎ (t.align_bytes < t.size_of_t) =
            ground arith in
          elim cases [
            | inl e ↦ ap (λ n. t.size_of_t % n) e ∙ (ap (λ n. n % t.size_of_t) (sym e) ∙ h)
            | inr l ↦ absurd (omega (arith, v.align_pos, h, mod-eq_of_lt l))
          ]
    ]

    larger-AtAlign : (at : ℕ) → is_t_larger t ≡ true → AtAlign at
    larger-AtAlign at larger = mod-eq-zero_of_dvd t.align_bytes (
        dvd-mul_left_of_dvd t.align_bytes (dvd_of_mod-eq-zero t.align_bytes (size-mod-align larger))
          at)

    count_lem : is_t_larger t ≡ false → align_element_count t * t.size_of_t ≡ t.align_bytes
    count_lem smaller =
        let l : t.size_of_t < t.align_bytes = ground arith in
        elim v.fits [
          | inl h ↦ absurd (omega (arith, v.size_pos, h, mod-eq_of_lt l))
          | inr h ↦ div-mul_cancel t.size_of_t (dvd_of_mod-eq-zero t.size_of_t h)
        ]

    count_pos : is_t_larger t ≡ false → 0 < align_element_count t
    count_pos smaller =
        let e = count_lem smaller in
        elim (ℕ-cases (align_element_count t)) [
          | inl z ↦ absurd (omega (arith, v.align_pos, e, ap (λ c. c * t.size_of_t) z))
          | inr p ↦ p
        ]

    rounded-AtAlign : (k : ℕ) → is_t_larger t ≡ false → AtAlign (k * align_element_count t)
    rounded-AtAlign k smaller =
        ap (λ n. n % t.align_bytes)
          (mul_assoc k (align_element_count t) t.size_of_t ∙ ap (λ n. k * n) (count_lem smaller))
        ∙ mul-mod_left k t.align_bytes

    -- What rounding can add behind a block.
    abbrev pub slack : ℕ
    slack = if is_t_larger t then 0 else align_element_count t - 1

    -- Where the next block begins.
    next_offset-bounds :
        (b : ReadWriteBuffer) (n : ℕ)
        → b.current_offset + n + slack < 2 ^ 64
        → let r = next_block t b n in
          (b.current_offset + n ≤ r.1.current_offset)
          × (r.1.current_offset ≤ b.current_offset + n + slack)
          × AtAlign r.1.current_offset
    unfolding next_block round_up
    next_offset-bounds b n fits = elim (Bool-cases (is_t_larger t)) [
      | inl larger ↦
          let small : (b.current_offset + n) % 2 ^ 64 ≡ b.current_offset + n = ground arith in
          rw (larger, small)
            (omega arith, omega arith, larger-AtAlign (b.current_offset + n) larger)
      | inr smaller ↦
          let pos = count_pos smaller in
          let small : (b.current_offset + n) % 2 ^ 64 ≡ b.current_offset + n = ground arith in
          let small' : (b.current_offset + n + align_element_count t - 1) % 2 ^ 64
              ≡ b.current_offset + n + align_element_count t - 1 =
            ground arith in
          let d = div-mul_bounds (b.current_offset + n) (align_element_count t) pos in
          rw (smaller, small, small') (d.0, omega arith, rounded-AtAlign _ smaller)
    ]

    -- What blocks of these sizes take at most.
    needed : List ℕ → ℕ
    needed [] = 0
    needed (n ∷ ns) = n + slack + needed ns

    needed_lem : (ns : List ℕ) → needed ns ≡ sum ns + length ns * slack
    unfolding needed
    needed_lem [] = omega arith
    needed_lem (n ∷ ns) = grind (arith, needed_lem ns)

    next_blocks-Placed :
        (b : ReadWriteBuffer) (ns : List ℕ) (from end : ℕ)
        → AtAlign b.current_offset
        → from ≤ b.current_offset
        → b.current_offset + needed ns ≤ end
        → end < 2 ^ 64
        → Placed from end (next_blocks b ns) ns
    unfolding next_blocks needed next_block
    next_blocks-Placed b [] from end al le room small = omega arith
    next_blocks-Placed b (n ∷ ns) from end al le room small =
        let r = next_offset-bounds b n (omega arith) in
        (
          le,
          al,
          next_blocks-Placed (next_block t b n).1 ns (b.current_offset + n) end r.2 r.0
              (omega (arith, r.1)) small,
        )

    resized :
        (b : ReadWriteBuffer) (ns : List ℕ)
        → sum ns + length ns * slack < 2 ^ 64
        → (resize_with_align_hints t b (sum ns) (length ns)).elements ≡ sum ns + length ns * slack
    unfolding resize_with_align_hints
    resized b ns fits = elim (Bool-cases (is_t_larger t)) [
      | inl larger ↦ rw larger (omega arith)
      | inr smaller ↦ rw smaller (mod-eq_of_lt (rw smaller at fits))
    ]

    -- After `resize_with_align_hints` with the total of some sizes and their number, and
    -- `reset_align_alloc`, the blocks of these sizes that `next_block` hands out lie inside the vector,
    -- do not overlap and are aligned. The vector has less than 2 ^ 64 elements, one of the size of the
    -- element type and the alignment is a multiple of the other, and either the type is larger than the
    -- alignment or the number of elements in the alignment, to whose multiples sizes are rounded, is a
    -- power of two.
    pub resize_with_align_hints-Placed :
        (b : ReadWriteBuffer) (ns : List ℕ)
        → sum ns + length ns * slack < 2 ^ 64
        → let b' = reset_align_alloc t (resize_with_align_hints t b (sum ns) (length ns)) in
          Placed 0 b'.elements (next_blocks b' ns) ns
    unfolding reset_align_alloc resize_with_align_hints
    resize_with_align_hints-Placed b ns fits =
        let zero_times : 0 * t.size_of_t ≡ 0 = omega arith in
        next_blocks-Placed (reset_align_alloc t (resize_with_align_hints t b (sum ns) (length ns)))
          ns 0 _ (ap (λ n. n % t.align_bytes) zero_times ∙ mod-eq_of_lt v.align_pos) (omega arith)
          (omega (arith, resized b ns fits, needed_lem ns)) (omega (arith, resized b ns fits))
