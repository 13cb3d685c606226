-- ===== src/Math/Matrix/Pair.antt =====
-- The methods of src/math/BaseMatrix.cpp on two matrices. Most call the `apply_binary` with a shape, over
-- the overload with an offset that is defined nowhere and that the model takes as a parameter.
use ccml.Base.{ℕ, ◌+◌, ◌%◌, ◌^◌, true, false, leb, if◌then◌else◌, ◌≡◌, ◌≢◌, []}
use ccml.Utils.Logging.{Logged, cc_log, fatal, ◌>>◌, quiet}
use ccml.Math.Number.{Real}
use ccml.Math.Matrix.{
  BaseMatrix, MatrixOffset, new_offset, apply_binary, apply_binary_vector, check_same, void,
}
use ccml.Math.Matrix.Checks.{apply_binary_vector_dense}
use ccml.Math.Matrix.Binary
use ccml.Math.Matrix.Binary.{BinaryOp, PlainOp}

module _ (r : Real)
    (apply_binary_at : BinaryOp r → BaseMatrix → BaseMatrix → ℕ → ℕ → MatrixOffset → Logged ℕ) where
  -- `apply_binary` with a class of `binary`, its result dropped.
  abbrev apply : BinaryOp r → BaseMatrix → BaseMatrix → Logged (Unit {0})
  apply op m b = void (apply_binary apply_binary_at op m b)

  pub sub : BaseMatrix → BaseMatrix → Logged (Unit {0})
  unfolding apply_binary
  sub m b = apply (Binary.plain Binary.sub) m b

  pub relu : BaseMatrix → BaseMatrix → Logged (Unit {0})
  unfolding apply_binary
  relu m b = apply (Binary.plain Binary.relu) m b

  pub relu_derivative : BaseMatrix → BaseMatrix → Logged (Unit {0})
  unfolding apply_binary
  relu_derivative m b = apply (Binary.plain Binary.relu_derivative) m b

  pub soft_relu : BaseMatrix → BaseMatrix → Logged (Unit {0})
  unfolding apply_binary
  soft_relu m b = apply (Binary.plain Binary.soft_relu) m b

  pub soft_relu_derivative : BaseMatrix → BaseMatrix → Logged (Unit {0})
  unfolding apply_binary
  soft_relu_derivative m b = apply (Binary.plain Binary.soft_relu_derivative) m b

  pub square : BaseMatrix → BaseMatrix → Logged (Unit {0})
  unfolding apply_binary
  square m b = apply (Binary.plain Binary.square) m b

  pub square_derivative : BaseMatrix → BaseMatrix → Logged (Unit {0})
  unfolding apply_binary
  square_derivative m b = apply (Binary.plain Binary.square_derivative) m b

  pub tanh : BaseMatrix → BaseMatrix → Logged (Unit {0})
  unfolding apply_binary
  tanh m b = apply (Binary.plain Binary.tanh) m b

  pub tanh_derivative : BaseMatrix → BaseMatrix → Logged (Unit {0})
  unfolding apply_binary
  tanh_derivative m b = apply (Binary.plain Binary.tanh_derivative) m b

  pub reciprocal_derivative : BaseMatrix → BaseMatrix → Logged (Unit {0})
  unfolding apply_binary
  reciprocal_derivative m b = apply (Binary.plain Binary.reciprocal_derivative) m b

  pub abs : BaseMatrix → BaseMatrix → Logged (Unit {0})
  unfolding apply_binary
  abs m b = apply (Binary.plain Binary.abs) m b

  pub abs_derivative : BaseMatrix → BaseMatrix → Logged (Unit {0})
  unfolding apply_binary
  abs_derivative m b = apply (Binary.plain Binary.abs_derivative) m b

  pub sigmoid_derivative : BaseMatrix → BaseMatrix → Logged (Unit {0})
  unfolding apply_binary
  sigmoid_derivative m b = apply (Binary.plain Binary.sigmoid_derivative) m b

  pub exp_derivative : BaseMatrix → BaseMatrix → Logged (Unit {0})
  unfolding apply_binary
  exp_derivative m b = apply (Binary.plain Binary.exp_derivative) m b

  pub sign : BaseMatrix → BaseMatrix → Logged (Unit {0})
  unfolding apply_binary
  sign m b = apply (Binary.plain Binary.sign) m b

  pub exp : BaseMatrix → BaseMatrix → Logged (Unit {0})
  unfolding apply_binary
  exp m b = apply (Binary.plain Binary.exp) m b

  pub sqrt : BaseMatrix → BaseMatrix → Logged (Unit {0})
  unfolding apply_binary
  sqrt m b = apply (Binary.plain Binary.sqrt) m b

  pub add1 : BaseMatrix → BaseMatrix → r.Carrier → Logged (Unit {0})
  unfolding apply_binary
  add1 m b t = apply (Binary.add1 t) m b

  pub sub1 : BaseMatrix → BaseMatrix → r.Carrier → Logged (Unit {0})
  unfolding apply_binary
  sub1 m b t = apply (Binary.sub1 t) m b

  pub is_equal_to : BaseMatrix → BaseMatrix → r.Carrier → Logged (Unit {0})
  unfolding apply_binary
  is_equal_to m b t = apply (Binary.is_equal_to t) m b

  pub add_scalar : BaseMatrix → BaseMatrix → r.Carrier → Logged (Unit {0})
  unfolding apply_binary
  add_scalar m b t = apply (Binary.add_scalar t) m b

  pub sub_scalar : BaseMatrix → BaseMatrix → r.Carrier → Logged (Unit {0})
  unfolding apply_binary
  sub_scalar m b t = apply (Binary.sub_scalar t) m b

  pub mul_scalar : BaseMatrix → BaseMatrix → r.Carrier → Logged (Unit {0})
  unfolding apply_binary
  mul_scalar m b t = apply (Binary.mul_scalar t) m b

  pub div_scalar : BaseMatrix → BaseMatrix → r.Carrier → Logged (Unit {0})
  unfolding apply_binary
  div_scalar m b t = apply (Binary.div_scalar t) m b

  pub add2 : BaseMatrix → BaseMatrix → r.Carrier → r.Carrier → Logged (Unit {0})
  unfolding apply_binary
  add2 m b t1 t2 = apply (Binary.add2 t1 t2) m b

  pub scaled_tanh : BaseMatrix → BaseMatrix → r.Carrier → r.Carrier → Logged (Unit {0})
  unfolding apply_binary
  scaled_tanh m b t1 t2 = apply (Binary.scaled_tanh t1 t2) m b

  pub dot_mul : BaseMatrix → BaseMatrix → Logged (Unit {0})
  unfolding apply_binary
  dot_mul m b = apply (Binary.plain Binary.dot_mul) m b

  -- The parameters are computed from those of `scaled_tanh`.
  pub scaled_tanh_derivative : BaseMatrix → BaseMatrix → r.Carrier → r.Carrier → Logged (Unit {0})
  unfolding apply_binary
  scaled_tanh_derivative m b t1 t2 =
      apply (Binary.scaled_tanh_derivative (r.mul t1 t1) (r.div t2 t1)) m b

  pub brelu : BaseMatrix → BaseMatrix → Logged (Unit {0})
  unfolding apply_binary
  brelu m b = apply (Binary.brelu (r.number 0) (r.number 24)) m b

  pub brelu_derivative : BaseMatrix → BaseMatrix → Logged (Unit {0})
  unfolding apply_binary
  brelu_derivative m b = apply (Binary.brelu_derivative (r.number 0) (r.number 24)) m b

  -- `add(b)` for `real`: the checks alone.
  pub add : BaseMatrix → BaseMatrix → Logged (Unit {0})
  add m b = check_same 427 m.height b.height >> check_same 428 m.width b.width >> quiet tt

  pub inv_sqrt : BaseMatrix → BaseMatrix → Logged (Unit {0})
  inv_sqrt m b = check_same 679 m.height b.height >> check_same 680 m.width b.width >> quiet tt

  -- `add_at_offset`; the column offset is a `size_t` in both comparisons.
  pub add_at_offset : BaseMatrix → BaseMatrix → ℕ → Logged (Unit {0})
  unfolding new_offset
  add_at_offset m b col_offset =
      if leb ((col_offset + b.width) % 2 ^ 64) m.width
      then void (
          apply_binary_at (Binary.plain Binary.add) m b m.height m.width
            (new_offset col_offset 0 0 0 0 0 0 0))
      else if leb ((col_offset + m.width) % 2 ^ 64) b.width
      then void (
          apply_binary_at (Binary.plain Binary.add) m b m.height m.width
            (new_offset 0 0 col_offset 0 0 0 0 0))
      else cc_log fatal "BaseMatrix.cpp" 445

  -- `add_col_vector`, `add_row_vector`, `add_bias`: these call the overload that is defined.
  pub add_col_vector : BaseMatrix → BaseMatrix → Logged (Unit {0})
  unfolding new_offset apply_binary_vector
  add_col_vector m b = void (
      apply_binary_vector {Op = BinaryOp r} (Binary.plain Binary.add) m b m.height m.width
        (new_offset 0 0 0 0 0 0 0 0) false true)

  pub add_row_vector : BaseMatrix → BaseMatrix → Logged (Unit {0})
  unfolding new_offset apply_binary_vector
  add_row_vector m b = void (
      apply_binary_vector {Op = BinaryOp r} (Binary.plain Binary.add) m b m.height m.width
        (new_offset 0 0 0 0 0 0 0 0) true false)

  pub add_bias : BaseMatrix → BaseMatrix → r.Carrier → Logged (Unit {0})
  unfolding new_offset apply_binary_vector
  add_bias m b scale = void (
      apply_binary_vector {Op = BinaryOp r} (Binary.add1 scale) m b m.height m.width
        (new_offset 0 0 0 0 0 0 0 0) true false)

-- `add_col_vector`, `add_row_vector` and `add_bias` log a failed check for every vector that is not
-- sparse.
pub add_vector_dense :
    (r : Real)
    (apply_binary_at : BinaryOp r → BaseMatrix → BaseMatrix → ℕ → ℕ → MatrixOffset → Logged ℕ)
    (m b : BaseMatrix) (scale : r.Carrier)
    → b.sparse ≡ false
    → ((add_col_vector r apply_binary_at m b).log ≢ [])
      × ((add_row_vector r apply_binary_at m b).log ≢ [])
      × ((add_bias r apply_binary_at m b scale).log ≢ [])
unfolding add_col_vector add_row_vector add_bias
add_vector_dense r at m b scale h = (
  apply_binary_vector_dense {Op = BinaryOp r} (Binary.plain Binary.add) m b m.height m.width
      (new_offset 0 0 0 0 0 0 0 0) false true h,
  apply_binary_vector_dense {Op = BinaryOp r} (Binary.plain Binary.add) m b m.height m.width
      (new_offset 0 0 0 0 0 0 0 0) true false h,
  apply_binary_vector_dense {Op = BinaryOp r} (Binary.add1 scale) m b m.height m.width
      (new_offset 0 0 0 0 0 0 0 0) true false h,
)
