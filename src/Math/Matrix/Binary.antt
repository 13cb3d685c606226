-- ===== src/Math/Matrix/Binary.antt =====
-- The classes of the namespace `binary` in src/math/BaseMatrix.cpp: what `cpu_operator` does to the
-- elements of two matrices.
use ccml.Base.{if◌then◌else◌, ◌&&◌}
use ccml.Math.Number.{Real, of_bool, clamp}

module _ (r : Real) where
  -- The classes that have no parameter.
  pub data PlainOp : Type 0 where
    add sub relu relu_derivative soft_relu soft_relu_derivative : PlainOp
    square square_derivative tanh tanh_derivative reciprocal_derivative : PlainOp
    abs abs_derivative sigmoid sigmoid_derivative exp_derivative sign : PlainOp
    exp log sqrt inv_sqrt dot_mul : PlainOp

  pub data BinaryOp : Type 0 where
    plain : PlainOp → BinaryOp
    add1 pow sub1 is_equal_to add_scalar sub_scalar : (t : r.Carrier) → BinaryOp
    mul_scalar div_scalar apply_l1 apply_l2 : (t : r.Carrier) → BinaryOp
    add2 brelu brelu_derivative : (t1 t2 : r.Carrier) → BinaryOp
    scaled_tanh scaled_tanh_derivative : (t1 t2 : r.Carrier) → BinaryOp

  -- `2.0 / (1.0 + exp(-2 * b)) - 1.0`, with what stands for `-2 * b` given
  abbrev tanh_of : r.Carrier → r.Carrier
  tanh_of x = r.sub (r.div (r.number 2) (r.add (r.number 1) (r.exp x))) (r.number 1)

  -- `cpu_operator(T& a, T& b)` of the classes that have no parameter: what `a` and `b` become.
  unfoldable pub plain_operator : PlainOp → r.Carrier → r.Carrier → r.Carrier × r.Carrier
  plain_operator add a b = (r.add a b, b)
  plain_operator sub a b = (r.sub a b, b)
  plain_operator relu a b = (a, if r.lt (r.number 0) a then a else r.number 0)
  plain_operator relu_derivative a b = (r.mul a (of_bool r (r.lt (r.number 0) b)), b)
  plain_operator soft_relu a b =
      (a, r.log (r.add (r.number 1) (r.exp (clamp r (r.neg (r.number 40)) (r.number 40) a))))
  plain_operator soft_relu_derivative a b = (
    r.mul a (
        r.sub (r.number 1)
          (r.exp (r.mul (r.neg (r.number 1)) (clamp r (r.neg (r.number 40)) (r.number 40) b)))),
    b,
  )
  plain_operator square a b = (a, r.mul a a)
  plain_operator square_derivative a b = (r.mul a (r.mul (r.number 2) b), b)
  plain_operator tanh a b = (a, tanh_of (r.mul (r.neg (r.number 2)) b))
  plain_operator tanh_derivative a b = (r.mul a (r.sub (r.number 1) (r.mul b b)), b)
  plain_operator reciprocal_derivative a b = (r.mul a (r.mul (r.neg b) b), b)
  plain_operator abs a b = (a, if r.lt (r.number 0) a then a else r.neg a)
  plain_operator abs_derivative a b =
      (if r.lt (r.number 0) b then a else if r.lt b (r.number 0) then r.neg a else r.number 0, b)
  plain_operator sigmoid a b =
      let low = r.neg (r.number 40) in
      let high = r.number 13 in
      let tmp = if r.lt a low then low else if r.lt high a then high else a in
      (a, r.div (r.number 1) (r.add (r.number 1) (r.exp (r.neg tmp))))
  plain_operator sigmoid_derivative a b = (r.mul a (r.mul b (r.sub (r.number 1) b)), b)
  plain_operator exp_derivative a b = (r.mul a b, b)
  plain_operator sign a b = (a, if r.lt (r.number 0) a then r.number 1 else r.neg (r.number 1))
  plain_operator exp a b = (r.exp b, b)
  plain_operator log a b = (r.log b, b)
  plain_operator sqrt a b = (r.sqrt b, b)
  plain_operator inv_sqrt a b = (r.div (r.number 1) (r.sqrt b), b)
  plain_operator dot_mul a b = (r.mul a b, b)

  -- `cpu_operator` of all classes.
  unfoldable pub binary_operator : BinaryOp → r.Carrier → r.Carrier → r.Carrier × r.Carrier
  unfolding plain_operator
  binary_operator (add1 t) a b = (r.add a (r.mul b t), b)
  binary_operator (pow t) a b = (r.pow b t, b)
  binary_operator (sub1 t) a b = (r.sub a (r.mul b t), b)
  binary_operator (is_equal_to t) a b = (of_bool r (r.eq b t), b)
  binary_operator (add_scalar t) a b = (r.add b t, b)
  binary_operator (sub_scalar t) a b = (r.sub b t, b)
  binary_operator (mul_scalar t) a b = (r.mul b t, b)
  binary_operator (div_scalar t) a b = (r.div b t, b)
  binary_operator (apply_l1 t) a b =
      let lambda = r.mul t b in
      (
        if r.lt lambda a
            then r.sub a lambda
            else if r.lt a (r.neg lambda)
            then r.add a lambda
            else r.number 0,
        b,
      )
  binary_operator (apply_l2 t) a b =
      (r.mul a (r.div (r.number 1) (r.add (r.number 1) (r.mul t b))), b)
  binary_operator (add2 t1 t2) a b = (r.add (r.mul t1 a) (r.mul t2 b), b)
  binary_operator (brelu t1 t2) a b =
      let b' = if r.lt t1 a then a else t1 in (a, if r.lt b' t2 then b' else t2)
  binary_operator (brelu_derivative t1 t2) a b = (r.mul a (of_bool r (r.lt t1 b && r.lt b t2)), b)
  binary_operator (scaled_tanh t1 t2) a b =
      (a, r.mul t1 (tanh_of (r.mul (r.mul (r.neg (r.number 2)) t2) a)))
  binary_operator (scaled_tanh_derivative t1 t2) a b =
      (r.mul a (r.mul t2 (r.sub t1 (r.mul b b))), b)
  binary_operator (plain op) a b = plain_operator op a b
