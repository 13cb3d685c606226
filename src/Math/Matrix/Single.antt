-- ===== src/Math/Matrix/Single.antt =====
-- The methods of src/math/BaseMatrix.cpp on one matrix: each applies its class of `unary`. Where the
-- body of a method for `real` is a comment, the method does nothing.
use ccml.Base.{ℕ}
use ccml.Utils.Logging.{Logged, quiet}
use ccml.Math.Number.{Real}
use ccml.Math.Matrix.{BaseMatrix, new_offset, apply_unary, apply_unary_at, void}
use ccml.Math.Matrix.Unary
use ccml.Math.Matrix.Unary.{UnaryOp}

module _ (r : Real) where
  -- `apply_unary` with a class of `unary`, its result dropped.
  abbrev apply : UnaryOp r → BaseMatrix → Logged (Unit {0})
  apply op m = void (apply_unary op m)

  pub neg : BaseMatrix → Logged (Unit {0})
  unfolding apply_unary
  neg m = apply Unary.neg m

  pub exp : BaseMatrix → Logged (Unit {0})
  unfolding apply_unary
  exp m = apply Unary.exp m

  pub sqrt : BaseMatrix → Logged (Unit {0})
  unfolding apply_unary
  sqrt m = apply Unary.sqrt m

  pub square : BaseMatrix → Logged (Unit {0})
  unfolding apply_unary
  square m = apply Unary.square m

  pub reciprocal : BaseMatrix → Logged (Unit {0})
  unfolding apply_unary
  reciprocal m = apply Unary.reciprocal m

  pub abs : BaseMatrix → Logged (Unit {0})
  unfolding apply_unary
  abs m = apply Unary.abs m

  pub sign : BaseMatrix → Logged (Unit {0})
  unfolding apply_unary
  sign m = apply Unary.sign m

  pub zero : BaseMatrix → Logged (Unit {0})
  unfolding apply_unary
  zero m = apply Unary.zero m

  pub sub_scalar : BaseMatrix → r.Carrier → Logged (Unit {0})
  unfolding apply_unary
  sub_scalar m t = apply (Unary.sub_scalar t) m

  pub mul_scalar : BaseMatrix → r.Carrier → Logged (Unit {0})
  unfolding apply_unary
  mul_scalar m t = apply (Unary.mul_scalar t) m

  pub div_scalar : BaseMatrix → r.Carrier → Logged (Unit {0})
  unfolding apply_unary
  div_scalar m t = apply (Unary.div_scalar t) m

  pub assign : BaseMatrix → r.Carrier → Logged (Unit {0})
  unfolding apply_unary
  assign m t = apply (Unary.assign t) m

  pub add : BaseMatrix → r.Carrier → Logged (Unit {0})
  unfolding apply_unary
  add m t = apply (Unary.add t) m

  pub add2 : BaseMatrix → r.Carrier → r.Carrier → Logged (Unit {0})
  unfolding apply_unary
  add2 m t1 t2 = apply (Unary.add2 t1 t2) m

  pub clip : BaseMatrix → r.Carrier → r.Carrier → Logged (Unit {0})
  unfolding apply_unary
  clip m t1 t2 = apply (Unary.clip t1 t2) m

  pub down_clip : BaseMatrix → r.Carrier → Logged (Unit {0})
  unfolding apply_unary
  down_clip m t = apply (Unary.down_clip t) m

  pub bigger_than_scalar : BaseMatrix → r.Carrier → Logged (Unit {0})
  unfolding apply_unary
  bigger_than_scalar m t = apply (Unary.bigger_than_scalar t) m

  -- `log()` and `pow(t)`
  pub log : BaseMatrix → Logged (Unit {0})
  log m = quiet tt

  pub pow : BaseMatrix → r.Carrier → Logged (Unit {0})
  pow m t = quiet tt

  -- `zero_at_offset`; a negative column offset is the `size_t` that it becomes.
  pub zero_at_offset : BaseMatrix → ℕ → ℕ → Logged (Unit {0})
  unfolding apply_unary_at new_offset
  zero_at_offset m col_offset num_columns = void (
      apply_unary_at {Op = UnaryOp r} Unary.zero m m.height num_columns
        (new_offset col_offset 0 0 0 0 0 0 0))

  -- `apply_l1` with a learning rate, for `real`
  pub apply_l1 : BaseMatrix → r.Carrier → r.Carrier → Logged (Unit {0})
  apply_l1 m learning_rate decay_rate = quiet tt

  -- `apply_l2` with a learning rate
  pub apply_l2 : BaseMatrix → r.Carrier → r.Carrier → Logged (Unit {0})
  unfolding mul_scalar
  apply_l2 m learning_rate decay_rate =
      mul_scalar m (r.div (r.number 1) (r.add (r.number 1) (r.mul learning_rate decay_rate)))
