-- ===== src/Math/Matrix/Ranges.antt =====
-- The ranges of the element operations of src/math/BaseMatrix.cpp that bound their input.
use ccml.Base.{◌≡◌, refl, true, false, arith}
use ccml.Math.Number.{Real}
use ccml.Math.Matrix.Unary
use ccml.Math.Matrix.Unary.{UnaryOp, unary_operator}
use ccml.Math.Matrix.Binary
use ccml.Math.Matrix.Binary.{BinaryOp, PlainOp, binary_operator, plain_operator}

-- What is relied on of the comparison of numbers; IEEE 754 gives both, for NaN too.
pub record Ordered (r : Real) : Type 0 where
  pub irreflexive : (x : r.Carrier) → r.lt x x ≡ false
  pub asymmetric : (x y : r.Carrier) → r.lt x y ≡ true → r.lt y x ≡ false

module _ (r : Real) (o : Ordered r) where
  open o use {irreflexive, asymmetric}

  -- `clip` gives a number that is not below its first bound and not above its second one, and clipping
  -- again changes nothing, if the bounds are not the wrong way round.
  pub clip_bounds :
      (t1 t2 a : r.Carrier)
      → r.lt t2 t1 ≡ false
      → (r.lt (unary_operator r (Unary.clip t1 t2) a) t1 ≡ false)
        × (r.lt t2 (unary_operator r (Unary.clip t1 t2) a) ≡ false)
        × (unary_operator r (Unary.clip t1 t2) (unary_operator r (Unary.clip t1 t2) a)
            ≡ unary_operator r (Unary.clip t1 t2) a)
  unfolding unary_operator
  clip_bounds t1 t2 a h = ground (arith, irreflexive t1, irreflexive t2)

  -- `relu` and `brelu` write to the second matrix alone; `relu` gives no number below 0, and `brelu`
  -- none below its first bound or above its second one, if the bounds are not the wrong way round.
  pub relu_bounds :
      (t1 t2 a b : r.Carrier)
      → r.lt t2 t1 ≡ false
      → let u = binary_operator r (Binary.plain Binary.relu) a b in
        let v = binary_operator r (Binary.brelu t1 t2) a b in
        (u.0 ≡ a)
        × (v.0 ≡ a)
        × (r.lt u.1 (r.number 0) ≡ false)
        × (r.lt v.1 t1 ≡ false)
        × (r.lt t2 v.1 ≡ false)
  unfolding binary_operator plain_operator
  relu_bounds t1 t2 a b h = (
    refl,
    refl,
    ground (arith, irreflexive (r.number 0), asymmetric (r.number 0) a),
    ground (arith, irreflexive t1, irreflexive t2, asymmetric t1 a, asymmetric a t2),
    ground (arith, irreflexive t1, irreflexive t2, asymmetric t1 t2, asymmetric a t2),
  )
