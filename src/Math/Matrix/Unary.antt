-- ===== src/Math/Matrix/Unary.antt =====
-- The classes of the namespace `unary` in src/math/BaseMatrix.cpp, which the macros of
-- src/math/MatrixOps.h make: what `cpu_operator` does to an element.
use ccml.Base.{if◌then◌else◌}
use ccml.Math.Number.{Real, of_bool}

module _ (r : Real) where
  pub data UnaryOp : Type 0 where
    neg exp log sqrt square reciprocal abs sign zero : UnaryOp
    pow sub_scalar mul_scalar div_scalar assign add : (t : r.Carrier) → UnaryOp
    add2 clip : (t1 t2 : r.Carrier) → UnaryOp
    down_clip bigger_than_scalar apply_l1 : (t : r.Carrier) → UnaryOp

  -- `cpu_operator(T& a)`: what `a` becomes.
  unfoldable pub unary_operator : UnaryOp → r.Carrier → r.Carrier
  unary_operator neg a = r.neg a
  unary_operator exp a = r.exp a
  unary_operator log a = r.log a
  unary_operator sqrt a = r.sqrt a
  unary_operator square a = r.mul a a
  unary_operator reciprocal a = r.div (r.number 1) a
  unary_operator abs a = if r.lt (r.number 0) a then a else r.neg a
  unary_operator sign a = r.sub (of_bool r (r.lt (r.number 0) a)) (r.sub a (r.number 0))
  unary_operator zero a = r.number 0
  unary_operator (pow t) a = r.pow a t
  unary_operator (sub_scalar t) a = r.sub a t
  unary_operator (mul_scalar t) a = r.mul a t
  unary_operator (div_scalar t) a = r.div a t
  unary_operator (assign t) a = t
  unary_operator (add t) a = r.add a t
  unary_operator (add2 t1 t2) a = r.add (r.mul a t1) t2
  unary_operator (clip t1 t2) a = if r.lt a t1 then t1 else if r.lt t2 a then t2 else a
  unary_operator (down_clip t) a = if r.lt t a then a else t
  unary_operator (bigger_than_scalar t) a = if r.lt t a then r.number 1 else r.number 0
  unary_operator (apply_l1 t) a =
      if r.lt t a then r.sub a t else if r.lt a (r.neg t) then r.add a t else r.number 0
