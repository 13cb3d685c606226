-- ===== src/Math/Matrix/Templates.antt =====
-- Methods of src/math/BaseMatrix.cpp that have a specialisation for `real`. First the specialisations on two
-- matrices whose body is a comment, which do nothing, as add_p2p does for every type; then the
-- templates of the others, for any other element type.
use ccml.Base.{ℕ}
use ccml.Utils.Logging.{Logged, quiet}
use ccml.Math.Number.{Real}
use ccml.Math.Matrix.{BaseMatrix, MatrixOffset, apply_binary, apply_unary, void}
use ccml.Math.Matrix.Binary
use ccml.Math.Matrix.Binary.{BinaryOp}
use ccml.Math.Matrix.Unary
use ccml.Math.Matrix.Unary.{UnaryOp}

module _ (r : Real) where
  -- `pow(b, t)`
  pub pow_of : BaseMatrix → BaseMatrix → r.Carrier → Logged (Unit {0})
  pow_of m b t = quiet tt

  -- `apply_l1(lr, learning_rate, decay_rate)`
  pub apply_l1_real : BaseMatrix → BaseMatrix → r.Carrier → r.Carrier → Logged (Unit {0})
  apply_l1_real m lr learning_rate decay_rate = quiet tt

-- `log(b)`
pub log_of : BaseMatrix → BaseMatrix → Logged (Unit {0})
log_of m b = quiet tt

pub add_p2p : BaseMatrix → BaseMatrix → Logged (Unit {0})
add_p2p m b = quiet tt

module _ (r : Real)
    (apply_binary_at : BinaryOp r → BaseMatrix → BaseMatrix → ℕ → ℕ → MatrixOffset → Logged ℕ) where
  -- `add(b)`
  pub add_template : BaseMatrix → BaseMatrix → Logged (Unit {0})
  unfolding apply_binary
  add_template m b = void (apply_binary apply_binary_at (Binary.plain Binary.add) m b)

  -- `apply_l1(lr, learning_rate, decay_rate)`
  pub apply_l1_template : BaseMatrix → BaseMatrix → r.Carrier → r.Carrier → Logged (Unit {0})
  unfolding apply_binary
  apply_l1_template m lr learning_rate decay_rate =
      void (apply_binary apply_binary_at (Binary.apply_l1 (r.mul learning_rate decay_rate)) m lr)

  -- `apply_l1(learning_rate, decay_rate)`
  -- `unary::ApplyL1`
  abbrev apply_l1_op : r.Carrier → UnaryOp r
  apply_l1_op t = Unary.apply_l1 t

  pub apply_l1_all_template : BaseMatrix → r.Carrier → r.Carrier → Logged (Unit {0})
  unfolding apply_unary
  apply_l1_all_template m learning_rate decay_rate =
      void (apply_unary (apply_l1_op (r.mul learning_rate decay_rate)) m)
