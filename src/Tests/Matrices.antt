-- ===== src/Tests/Matrices.antt =====
-- The theorems on matrices at concrete inputs.
use ccml.Base.{ℕ, ◌+◌, ◌*◌, ◌-◌, ◌^◌, ◌<◌, ◌≡◌, ◌≢◌, ◌↔◌, inr, refl, false, [], ltb, ◌==◌, arith}
use ccml.Utils.Logging.{quiet}
use ccml.Math.Number.{Real}
use ccml.Math.Matrix.{BaseMatrix, MatrixOffset, apply_quaternary}
use ccml.Math.Matrix.Checks.{apply_quaternary-quiet}
use ccml.Math.Matrix.Several
use ccml.Math.Matrix.Several.{TernaryOp, QuaternaryOp}
use ccml.Math.Matrix.Loops.{Memory, sigmoid, sigmoid_constant, size_of}
use ccml.Math.Matrix.Pair.{add_col_vector, add_row_vector, add_bias, add_vector_dense}
use ccml.Math.Matrix.Ranges.{Ordered}

-- Numbers that can be computed with: natural ones, where a negative result is 0.
abbrev naturals : Real
naturals = record {
  Carrier = ℕ;
  number = λ n. n;
  half = 0;
  neg = λ x. 0;
  add = λ x y. x + y;
  sub = λ x y. x - y;
  mul = λ x y. x * y;
  div = λ x y. x;
  exp = λ x. 2 ^ x;
  log = λ x. x;
  sqrt = λ x. x;
  pow = λ x y. x ^ y;
  lt = ltb;
  eq = ◌==◌;
}

naturals-Ordered : Ordered naturals
naturals-Ordered = record { irreflexive = λ x. ground arith; asymmetric = λ x y h. ground arith }

-- Two rows and three columns.
abbrev dense : ℕ → BaseMatrix
dense at = record { height = 2; width = 3; stride = 3; data_at = at; trans = false; sparse = false }

abbrev from_column_one : MatrixOffset
from_column_one = record {
  a_col = 1;
  a_row = 0;
  b_col = 0;
  b_row = 0;
  c_col = 0;
  c_row = 0;
  d_col = 0;
  d_row = 0;
}

apply_quaternary-quiet_example :
    ((apply_quaternary {Op = QuaternaryOp naturals} Several.rank_loss
        (dense 0)
        (dense 6)
        (dense 12)
        (dense 18)).log
      ≡ [])
    ↔ (((false ≡ false) × (false ≡ false) × (false ≡ false) × (false ≡ false))
        × (((dense 0).height ≡ (dense 6).height) × ((dense 0).width ≡ (dense 6).width))
        × (((dense 0).height ≡ (dense 12).height) × ((dense 0).width ≡ (dense 12).width))
        × (((dense 0).height ≡ (dense 18).height) × ((dense 0).width ≡ (dense 18).width)))
apply_quaternary-quiet_example =
    apply_quaternary-quiet {Op = QuaternaryOp naturals} Several.rank_loss (dense 0) (dense 6)
      (dense 12) (dense 18) (omega arith) (omega arith)

-- Element n holds n.
abbrev numbers : Memory naturals
numbers a = a

sigmoid_constant_example :
    ((sigmoid naturals (dense 0) (dense 6) numbers).log ≡ [])
    × ((i : ℕ)
        → 1 < i
        → i < size_of naturals (dense 0)
        → (sigmoid naturals (dense 0) (dense 6) numbers).value (6 + i) ≡ 1)
sigmoid_constant_example =
    sigmoid_constant naturals (dense 0) (dense 6) numbers refl refl (inr (inr (omega arith)))

add_vector_dense_example :
    ((add_col_vector naturals (λ op m b i j o. quiet 0) (dense 0) (dense 6)).log ≢ [])
    × ((add_row_vector naturals (λ op m b i j o. quiet 0) (dense 0) (dense 6)).log ≢ [])
    × ((add_bias naturals (λ op m b i j o. quiet 0) (dense 0) (dense 6) 3).log ≢ [])
add_vector_dense_example =
    add_vector_dense naturals (λ op m b i j o. quiet 0) (dense 0) (dense 6) 3 refl
