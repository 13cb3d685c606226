-- ===== src/Math/Matrix/Loops.antt =====
-- The methods of src/math/BaseMatrix.cpp that compute: loops over the elements of a matrix in memory.
use ccml.Base.{
  ℕ, zero, suc, ◌+◌, ◌*◌, ◌%◌, ◌^◌, ◌≤◌, ◌<◌, ◌≡◌, ◌⊎◌, inl, inr, refl, ap, ◌∙◌, [], ◌==◌,
  if◌then◌else◌, arith,
}
use ccml.Utils.Logging.{Logged, ◌>>◌, quiet}
use ccml.Math.Number.{Real}
use ccml.Math.Matrix.{BaseMatrix, check_same}

module _ (r : Real) where
  -- The numbers in memory, by address.
  abbrev pub Memory : Type 0
  Memory = ℕ → r.Carrier

  unfoldable pub store : ℕ → r.Carrier → Memory → Memory
  store at x memory a = if a == at then x else memory a

  -- `for(i = 0; i < n; i++) base[i] = f(base[i], other[i])`
  unfoldable pub each : (r.Carrier → r.Carrier → r.Carrier) → ℕ → ℕ → ℕ → Memory → Memory
  unfolding store
  each f base other zero memory = memory
  each f base other (suc n) memory =
      let before = each f base other n memory in
      store (base + n) (f (before (base + n)) (before (other + n))) before

  -- `_height * _width`
  abbrev pub size_of : BaseMatrix → ℕ
  size_of m = (m.height * m.width) % 2 ^ 64

  -- `-temp` for the clamped input
  unfoldable pub sigmoid_input : r.Carrier → r.Carrier
  sigmoid_input temp =
      let low = r.neg (r.number 40) in
      let high = r.number 13 in
      r.neg (if r.lt temp low then low else if r.lt high temp then high else temp)

  abbrev negated_input : r.Carrier → r.Carrier → r.Carrier
  negated_input out temp = sigmoid_input temp

  -- The second loop of `sigmoid`, which reads `out[1]` in every round.
  unfoldable pub sigmoid_loop : ℕ → ℕ → Memory → Memory
  unfolding store
  sigmoid_loop out zero memory = memory
  sigmoid_loop out (suc i) memory =
      let before = sigmoid_loop out i memory in
      store (out + i) (r.div (r.number 1) (r.add (r.number 1) (before (out + 1)))) before

  -- `sigmoid`: the memory after it.
  unfoldable pub sigmoid : BaseMatrix → BaseMatrix → Memory → Logged Memory
  unfolding each sigmoid_input sigmoid_loop
  sigmoid m b memory =
      check_same 620 b.height m.height
      >> check_same 621 b.width m.width
      >> quiet (
          sigmoid_loop b.data_at (size_of m)
            (each negated_input b.data_at m.data_at (size_of m) memory))

  -- One element of the first loop of `binary_label_cross_entropy`, where `label` is `out`.
  abbrev pub cross_entropy_input : r.Carrier → r.Carrier
  cross_entropy_input out = if r.lt r.half out then out else r.sub (r.number 1) out

  abbrev chosen : r.Carrier → r.Carrier → r.Carrier
  chosen cost out = cross_entropy_input out

  -- One element of the second loop.
  abbrev negated : r.Carrier → r.Carrier → r.Carrier
  negated cost same = r.mul cost (r.neg (r.number 1))

  -- `binary_label_cross_entropy`: both `out` and `label` are the data of `b`.
  unfoldable pub binary_label_cross_entropy :
      BaseMatrix → BaseMatrix → BaseMatrix → Memory → Logged Memory
  unfolding each
  binary_label_cross_entropy m b c memory =
      let costs = each chosen m.data_at b.data_at (size_of m) memory in
      check_same 733 m.height b.height
      >> check_same 734 m.height c.height
      >> check_same 735 m.width b.width
      >> check_same 736 m.width c.width
      >> quiet (each negated m.data_at m.data_at (size_of m) costs)

  -- One element of the loop of `apply_l2`.
  abbrev decayed : r.Carrier → r.Carrier → r.Carrier → r.Carrier
  decayed decay a rate = r.mul a (r.div (r.number 1) (r.add (r.number 1) (r.mul decay rate)))

  -- `apply_l2` with a matrix of learning rates.
  unfoldable pub apply_l2 : BaseMatrix → BaseMatrix → r.Carrier → r.Carrier → Memory → Memory
  unfolding each
  apply_l2 m lr learning_rate decay_rate memory =
      each (decayed (r.mul learning_rate decay_rate)) m.data_at lr.data_at (size_of m) memory

  -- Two arrays are the same one or do not overlap.
  abbrev pub Apart : ℕ → ℕ → ℕ → Type 0
  Apart base other n = (base ≡ other) ⊎ (base + n ≤ other) ⊎ (other + n ≤ base)

  -- The loop changes nothing outside its array.
  pub each_outside :
      (f : r.Carrier → r.Carrier → r.Carrier) (base other n : ℕ) (memory : Memory) (a : ℕ)
      → (a < base) ⊎ (base + n ≤ a)
      → each f base other n memory a ≡ memory a
  unfolding each store
  each_outside f base other zero memory a h = refl
  each_outside f base other (suc n) memory a h =
      let ih = each_outside f base other n memory a (omega arith) in ground arith

  -- Each element becomes what the body makes of the elements as they were.
  pub each_inside :
      (f : r.Carrier → r.Carrier → r.Carrier) (base other n : ℕ) (memory : Memory)
      → Apart base other n
      → (i : ℕ) → i < n
      → each f base other n memory (base + i) ≡ f (memory (base + i)) (memory (other + i))
  unfolding each store
  each_inside f base other zero memory apart i lt = ground arith
  each_inside f base other (suc n) memory apart i lt =
      let new = each_outside f base other n memory (base + n) (omega arith) in
      let old = each_outside f base other n memory (other + n) (omega arith) in
      let cases : (i ≡ n) ⊎ (i < n) = omega arith in
      elim cases [
        | inl e ↦ ground (arith, ap (λ k. memory (base + k)) e)
        | inr l ↦ let ih = each_inside f base other n memory (omega arith) i l in ground arith
      ]

  -- `apply_l2` with a matrix of rates shrinks each element by its own rate and touches nothing else, if
  -- the rates are not stored across the elements.
  pub apply_l2-each :
      (m lr : BaseMatrix) (learning_rate decay_rate : r.Carrier) (memory : Memory)
      → Apart m.data_at lr.data_at (size_of m)
      → ((i : ℕ)
          → i < size_of m
          → apply_l2 m lr learning_rate decay_rate memory (m.data_at + i)
            ≡ r.mul (memory (m.data_at + i)) (
                r.div (r.number 1) (
                  r.add
                    (r.number 1)
                    (r.mul (r.mul learning_rate decay_rate) (memory (lr.data_at + i))))))
        × ((a : ℕ)
            → (a < m.data_at) ⊎ (m.data_at + size_of m ≤ a)
            → apply_l2 m lr learning_rate decay_rate memory a ≡ memory a)
  unfolding apply_l2
  apply_l2-each m lr learning_rate decay_rate memory apart = (
    λ i lt.
        each_inside (decayed (r.mul learning_rate decay_rate)) m.data_at lr.data_at (size_of m)
          memory apart i lt,
    λ a out.
        each_outside (decayed (r.mul learning_rate decay_rate)) m.data_at lr.data_at (size_of m)
          memory a out,
  )

  -- Each cost is the negative of the output where that is above one half, and of one minus the output
  -- elsewhere: the labels, the matrix `c`, are not used. The costs and the outputs are not stored
  -- across each other.
  pub binary_label_cross_entropy-each :
      (m b c : BaseMatrix) (memory : Memory)
      → Apart m.data_at b.data_at (size_of m)
      → (i : ℕ) → i < size_of m
      → (binary_label_cross_entropy m b c memory).value (m.data_at + i)
        ≡ r.mul (cross_entropy_input (memory (b.data_at + i))) (r.neg (r.number 1))
  unfolding binary_label_cross_entropy
  binary_label_cross_entropy-each m b c memory apart i lt =
      let costs = each chosen m.data_at b.data_at (size_of m) memory in
      each_inside negated m.data_at m.data_at (size_of m) costs (inl refl) i lt
      ∙ ap (λ x. r.mul x (r.neg (r.number 1)))
          (each_inside chosen m.data_at b.data_at (size_of m) memory apart i lt)

  -- From its third element on, the second loop of `sigmoid` gives all elements one value.
  sigmoid_loop-first :
      (out n : ℕ) (memory : Memory)
      → 1 < n
      → sigmoid_loop out n memory (out + 1)
        ≡ r.div (r.number 1) (r.add (r.number 1) (memory (out + 1)))
  unfolding sigmoid_loop store
  sigmoid_loop-first out zero memory h = ground arith
  sigmoid_loop-first out (suc zero) memory h = ground arith
  sigmoid_loop-first out (suc (suc zero)) memory h = ground arith
  sigmoid_loop-first out (suc (suc (suc n))) memory h =
      let ih = sigmoid_loop-first out (suc (suc n)) memory (omega arith) in ground arith

  sigmoid_loop-rest :
      (out n i : ℕ) (memory : Memory)
      → 1 < i
      → i < n
      → sigmoid_loop out n memory (out + i)
        ≡ r.div
            (r.number 1)
            (r.add (r.number 1) (r.div (r.number 1) (r.add (r.number 1) (memory (out + 1)))))
  unfolding sigmoid_loop store
  sigmoid_loop-rest out zero i memory low high = ground arith
  sigmoid_loop-rest out (suc n) i memory low high =
      let cases : (i ≡ n) ⊎ (i < n) = omega arith in
      elim cases [
        | inl e ↦ let first = sigmoid_loop-first out n memory (omega arith) in ground arith
        | inr l ↦ let ih = sigmoid_loop-rest out n i memory low l in ground arith
      ]

  -- For matrices of one shape that are not stored across each other, `sigmoid` logs nothing, and all
  -- its outputs from the third on have one value, which depends on the second input alone.
  pub sigmoid_constant :
      (m b : BaseMatrix) (memory : Memory)
      → m.height ≡ b.height
      → m.width ≡ b.width
      → Apart b.data_at m.data_at (size_of m)
      → ((sigmoid m b memory).log ≡ [])
        × ((i : ℕ)
            → 1 < i
            → i < size_of m
            → (sigmoid m b memory).value (b.data_at + i)
              ≡ r.div (r.number 1) (
                  r.add (r.number 1) (
                    r.div
                      (r.number 1)
                      (r.add (r.number 1) (sigmoid_input (memory (m.data_at + 1)))))))
  unfolding sigmoid
  sigmoid_constant m b memory h w apart = (
    ground arith,
    λ i low high.
        let inputs = each negated_input b.data_at m.data_at (size_of m) memory in
        let all = sigmoid_loop-rest b.data_at (size_of m) i inputs low high in
        let second =
          each_inside negated_input b.data_at m.data_at (size_of m) memory apart 1 (omega arith) in
        all
        ∙ ap
            (λ x.
              r.div (r.number 1) (r.add (r.number 1) (r.div (r.number 1) (r.add (r.number 1) x))))
            second,
  )
