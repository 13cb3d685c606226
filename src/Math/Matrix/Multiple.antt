-- ===== src/Math/Matrix/Multiple.antt =====
-- The methods of src/math/BaseMatrix.cpp on three and on four matrices: each applies its class of
-- `ternary` or `quaternary`.

use ccml.Utils.Logging.{Logged}
use ccml.Math.Number.{Real}
use ccml.Math.Matrix.{BaseMatrix, apply_ternary, apply_quaternary, void}
use ccml.Math.Matrix.Several
use ccml.Math.Matrix.Several.{TernaryOp, QuaternaryOp}

module _ (r : Real) where
  abbrev apply3 : TernaryOp r → BaseMatrix → BaseMatrix → BaseMatrix → Logged (Unit {0})
  apply3 op m b c = void (apply_ternary op m b c)

  abbrev apply4 :
      QuaternaryOp r → BaseMatrix → BaseMatrix → BaseMatrix → BaseMatrix → Logged (Unit {0})
  apply4 op m b c d = void (apply_quaternary op m b c d)

  pub soft_cross_entropy : BaseMatrix → BaseMatrix → BaseMatrix → Logged (Unit {0})
  unfolding apply_ternary
  soft_cross_entropy m b c = apply3 Several.soft_cross_entropy m b c

  pub soft_cross_entropy_bp : BaseMatrix → BaseMatrix → BaseMatrix → Logged (Unit {0})
  unfolding apply_ternary
  soft_cross_entropy_bp m b c = apply3 Several.soft_cross_entropy_bp m b c

  pub binary_label_cross_entropy_bp : BaseMatrix → BaseMatrix → BaseMatrix → Logged (Unit {0})
  unfolding apply_ternary
  binary_label_cross_entropy_bp m b c = apply3 Several.binary_label_cross_entropy_bp m b c

  pub add : BaseMatrix → BaseMatrix → BaseMatrix → Logged (Unit {0})
  unfolding apply_ternary
  add m b c = apply3 Several.add m b c

  pub sub : BaseMatrix → BaseMatrix → BaseMatrix → Logged (Unit {0})
  unfolding apply_ternary
  sub m b c = apply3 Several.sub m b c

  pub add2 : BaseMatrix → BaseMatrix → BaseMatrix → Logged (Unit {0})
  unfolding apply_ternary
  add2 m b c = apply3 Several.add2 m b c

  pub dot_mul : BaseMatrix → BaseMatrix → BaseMatrix → Logged (Unit {0})
  unfolding apply_ternary
  dot_mul m b c = apply3 Several.dot_mul m b c

  pub dot_div : BaseMatrix → BaseMatrix → BaseMatrix → Logged (Unit {0})
  unfolding apply_ternary
  dot_div m b c = apply3 Several.dot_div m b c

  pub logistic_regression_loss : BaseMatrix → BaseMatrix → BaseMatrix → Logged (Unit {0})
  unfolding apply_ternary
  logistic_regression_loss m b c = apply3 Several.logistic_regression_loss m b c

  pub logistic_regression_loss_bp : BaseMatrix → BaseMatrix → BaseMatrix → Logged (Unit {0})
  unfolding apply_ternary
  logistic_regression_loss_bp m b c = apply3 Several.logistic_regression_loss_bp m b c

  pub bigger_than : BaseMatrix → BaseMatrix → BaseMatrix → Logged (Unit {0})
  unfolding apply_ternary
  bigger_than m b c = apply3 Several.bigger_than m b c

  pub add1 : BaseMatrix → BaseMatrix → BaseMatrix → r.Carrier → r.Carrier → Logged (Unit {0})
  unfolding apply_ternary
  add1 m b c t1 t2 = apply3 (Several.add1 t1 t2) m b c

  pub sub1 : BaseMatrix → BaseMatrix → BaseMatrix → r.Carrier → r.Carrier → Logged (Unit {0})
  unfolding apply_ternary
  sub1 m b c t1 t2 = apply3 (Several.sub1 t1 t2) m b c

  pub dot_div_2p : BaseMatrix → BaseMatrix → BaseMatrix → r.Carrier → r.Carrier → Logged (Unit {0})
  unfolding apply_ternary
  dot_div_2p m b c t1 t2 = apply3 (Several.dot_div_2p t1 t2) m b c

  pub add3 :
      BaseMatrix → BaseMatrix → BaseMatrix → r.Carrier → r.Carrier → r.Carrier → Logged (Unit {0})
  unfolding apply_ternary
  add3 m b c t1 t2 t3 = apply3 (Several.add3 t1 t2 t3) m b c

  pub rank_loss : BaseMatrix → BaseMatrix → BaseMatrix → BaseMatrix → Logged (Unit {0})
  unfolding apply_quaternary
  rank_loss m b c d = apply4 Several.rank_loss m b c d

  pub rank_loss_bp : BaseMatrix → BaseMatrix → BaseMatrix → BaseMatrix → Logged (Unit {0})
  unfolding apply_quaternary
  rank_loss_bp m b c d = apply4 Several.rank_loss_bp m b c d

  pub sgd_update :
      BaseMatrix
      → BaseMatrix
      → BaseMatrix
      → BaseMatrix
      → r.Carrier
      → r.Carrier
      → r.Carrier
      → Logged (Unit {0})
  unfolding apply_quaternary
  sgd_update m b c d t1 t2 t3 = apply4 (Several.sgd_update t1 t2 t3) m b c d
