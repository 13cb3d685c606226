-- ===== src/Math/Matrix/Several.antt =====
-- The classes of the namespaces `ternary` and `quaternary` in src/math/BaseMatrix.cpp: what
-- `cpu_operator` does to the elements of three and of four matrices.
use ccml.Base.{if◌then◌else◌}
use ccml.Math.Number.{Real, clamp}

module _ (r : Real) where
  pub data TernaryOp : Type 0 where
    soft_cross_entropy soft_cross_entropy_bp : TernaryOp
    binary_label_cross_entropy binary_label_cross_entropy_bp : TernaryOp
    add sub add2 dot_mul dot_div bigger_than : TernaryOp
    logistic_regression_loss logistic_regression_loss_bp : TernaryOp
    add1 sub1 dot_div_2p : (t1 t2 : r.Carrier) → TernaryOp
    add3 : (t1 t2 t3 : r.Carrier) → TernaryOp

  -- `cpu_operator(T& a, T& b, T& c)`: what `a` becomes; `b` and `c` stay.
  pub ternary_operator : TernaryOp → r.Carrier → r.Carrier → r.Carrier → r.Carrier
  ternary_operator soft_cross_entropy a b c =
      r.sub (r.mul (r.neg c) (r.log b))
        (r.mul (r.sub (r.number 1) c) (r.log (r.sub (r.number 1) b)))
  ternary_operator soft_cross_entropy_bp a b c =
      r.add a (r.div (r.sub b c) (r.mul b (r.sub (r.number 1) b)))
  ternary_operator binary_label_cross_entropy a b c =
      if r.lt r.half c then r.neg (r.log b) else r.neg (r.log (r.sub (r.number 1) b))
  ternary_operator binary_label_cross_entropy_bp a b c = r.add a (
      if r.lt r.half c
      then r.div (r.neg (r.number 1)) b
      else r.div (r.number 1) (r.sub (r.number 1) b))
  ternary_operator add a b c = r.add b c
  ternary_operator sub a b c = r.sub c c
  ternary_operator add2 a b c = r.add a (r.add b c)
  ternary_operator dot_mul a b c = r.mul b c
  ternary_operator dot_div a b c = if r.eq b (r.number 0) then r.number 0 else r.div b c
  ternary_operator bigger_than a b c = if r.lt c b then r.number 1 else r.number 0
  ternary_operator logistic_regression_loss a b c =
      let x = clamp r (r.neg (r.number 40)) (r.number 40) b in
      r.sub (r.log (r.add (r.number 1) (r.exp x))) (r.mul c x)
  ternary_operator logistic_regression_loss_bp a b c =
      let x = r.exp (clamp r (r.neg (r.number 40)) (r.number 40) b) in
      r.sub (r.div x (r.add (r.number 1) x)) c
  ternary_operator (add1 t1 t2) a b c = r.add (r.mul t1 b) (r.mul t2 c)
  ternary_operator (sub1 t1 t2) a b c = r.sub (r.mul t1 b) (r.mul t2 c)
  ternary_operator (dot_div_2p t1 t2) a b c = r.div (r.add b t1) (r.add c t2)
  ternary_operator (add3 t1 t2 t3) a b c = r.add (r.add (r.mul t1 a) (r.mul t2 b)) (r.mul t3 c)

  pub data QuaternaryOp : Type 0 where
    rank_loss rank_loss_bp : QuaternaryOp
    sgd_update : (t1 t2 t3 : r.Carrier) → QuaternaryOp

  -- `cpu_operator(T& a, T& b, T& c, T& d)`: what `a` and `c` become; `b` and `d` stay.
  pub quaternary_operator :
      QuaternaryOp → r.Carrier → r.Carrier → r.Carrier → r.Carrier → r.Carrier × r.Carrier
  quaternary_operator rank_loss a b c d =
      let x = clamp r (r.neg (r.number 40)) (r.number 40) (r.sub b c) in
      (r.sub (r.log (r.add (r.number 1) (r.exp x))) (r.mul x d), c)
  quaternary_operator rank_loss_bp a b c d =
      let x = r.exp (clamp r (r.neg (r.number 40)) (r.number 40) (r.sub b c)) in
      (r.sub (r.div x (r.add (r.number 1) x)) d, c)
  quaternary_operator (sgd_update t1 t2 t3) a b c d =
      (a, r.sub (r.mul t2 c) (r.mul t1 (r.add b (r.mul t3 a))))
