-- ===== src/Math/Number.antt =====
-- The arithmetic of `real` (src/utils/TypeDefs.h): the machine's floating point, a parameter of all
-- that uses it. Intermediate results in double are not told apart from `real`.
use ccml.Base.{ℕ, Bool, if◌then◌else◌}

pub record Real : Type 1 where
  pub Carrier : Type 0
  pub number : ℕ → Carrier  -- a literal
  pub half : Carrier  -- the literal 0.5
  pub neg : Carrier → Carrier
  pub add : Carrier → Carrier → Carrier
  pub sub : Carrier → Carrier → Carrier
  pub mul : Carrier → Carrier → Carrier
  pub div : Carrier → Carrier → Carrier
  pub exp : Carrier → Carrier
  pub log : Carrier → Carrier
  pub sqrt : Carrier → Carrier
  pub pow : Carrier → Carrier → Carrier
  pub lt : Carrier → Carrier → Bool
  pub eq : Carrier → Carrier → Bool

-- A condition as a number.
abbrev pub of_bool : (r : Real) → Bool → r.Carrier
of_bool r b = if b then r.number 1 else r.number 0

-- A number moved to the next bound if it is above `high` or below `low`: the test of `high` is first.
abbrev pub clamp : (r : Real) → r.Carrier → r.Carrier → r.Carrier → r.Carrier
clamp r low high a = if r.lt high a then high else if r.lt a low then low else a
