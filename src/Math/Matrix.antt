-- ===== src/Math/Matrix.antt =====
-- src/math/BaseMatrix.h and the apply functions of src/math/BaseMatrix.cpp: the shape of a matrix, the
-- submatrix that an operation is about, and the checks of it. The element operations behind the
-- checks are not called yet (`todo` in the source), so an apply function changes no matrix.
pub mod Unary
pub mod Binary
pub mod Several
pub mod Checks
pub mod Loops
pub mod Single
pub mod Pair
pub mod Multiple
pub mod Ranges
pub mod Templates
use ccml.Base.{
  ℕ, ◌+◌, ◌-◌, ◌*◌, ◌%◌, ◌^◌, Bool, true, false, not, ◌&&◌, ltb, leb, ◌==◌, if◌then◌else◌,
}
use ccml.Utils.Logging.{Logged, cc_check, cc_log, fatal, ◌>>=◌, ◌>>◌, quiet}

pub record MatrixOffset : Type 0 where
  pub a_col : ℕ
  pub a_row : ℕ
  pub b_col : ℕ
  pub b_row : ℕ
  pub c_col : ℕ
  pub c_row : ℕ
  pub d_col : ℕ
  pub d_row : ℕ

-- The constructor, which gives `_aRow` the value of `bRow`.
unfoldable pub new_offset : ℕ → ℕ → ℕ → ℕ → ℕ → ℕ → ℕ → ℕ → MatrixOffset
new_offset a_col a_row b_col b_row c_col c_row d_col d_row = record {
  a_col = a_col;
  a_row = b_row;
  b_col = b_col;
  b_row = b_row;
  c_col = c_col;
  c_row = c_row;
  d_col = d_col;
  d_row = d_row;
}

-- `BaseMatrixT`. `data` is the address of the first element, counted in elements; `sparse` is what the
-- virtual `is_sparse` returns, false for the class itself.
pub record BaseMatrix : Type 0 where
  pub height : ℕ
  pub width : ℕ
  pub stride : ℕ
  pub data_at : ℕ
  pub trans : Bool
  pub sparse : Bool

-- The constructor that has no stride.
pub new_matrix : ℕ → ℕ → ℕ → Bool → BaseMatrix
new_matrix height width address trans = record {
  height = height;
  width = width;
  stride = width;
  data_at = address;
  trans = trans;
  sparse = false;
}

-- `set_data` and `row_buf`
pub set_data : BaseMatrix → ℕ → BaseMatrix
set_data m address = record m { data_at = address }

pub row_buf : BaseMatrix → ℕ → ℕ
row_buf m row = m.data_at + m.width * row

-- A `size_t` that becomes an `int` and, in a sum with a `size_t`, a `size_t` again: the 32 low bits
-- with the sign extended.
unfoldable pub through_int : ℕ → ℕ
through_int n = let low = n % 2 ^ 32 in if ltb low (2 ^ 31) then low else low + 2 ^ 64 - 2 ^ 32

-- `CC_CHECK_LE(dim + offset, size)` at a line
unfoldable pub check_dim : ℕ → ℕ → ℕ → ℕ → Logged (Unit {0})
unfolding through_int
check_dim line dim offset size =
    cc_check (leb ((through_int dim + offset) % 2 ^ 64) size) "BaseMatrix.cpp" line

-- The two checks of CAL_MATRIX_START_ADDRESS at a line.
unfoldable pub check_start : ℕ → ℕ → ℕ → ℕ → ℕ → Logged (Unit {0})
check_start line height width col row =
    cc_check (leb col width) "BaseMatrix.cpp" line
    >> cc_check (leb row height) "BaseMatrix.cpp" line

-- `CC_CHECK(!m.is_sparse())` at a line
abbrev pub check_dense : ℕ → BaseMatrix → Logged (Unit {0})
check_dense line m = cc_check (not m.sparse) "BaseMatrix.cpp" line

-- `CC_CHECK_EQ` of two sizes at a line
abbrev pub check_same : ℕ → ℕ → ℕ → Logged (Unit {0})
check_same line m n = cc_check (m == n) "BaseMatrix.cpp" line

-- A method returns nothing where the function that it calls returns 0.
abbrev pub void : Logged ℕ → Logged (Unit {0})
void m = record { log = m.log; value = tt }

module _ {ℓ} {Op : Type ℓ} where
  -- `apply_unary` with an offset.
  pub apply_unary_at : Op → BaseMatrix → ℕ → ℕ → MatrixOffset → Logged ℕ
  unfolding check_start check_dim
  apply_unary_at op m num_rows num_cols offset =
      check_dense 31 m
      >> check_start 37 m.height m.width offset.a_col offset.b_row
      >> check_dim 39 num_rows offset.a_row m.height
      >> check_dim 40 num_cols offset.a_col m.width
      >> quiet 0

  pub apply_unary : Op → BaseMatrix → Logged ℕ
  unfolding new_offset apply_unary_at
  apply_unary op m = apply_unary_at op m m.height m.width (new_offset 0 0 0 0 0 0 0 0)

  -- `apply_binary` with an offset and the two type arguments, which say whether `b` is a row vector and
  -- whether it is a column vector. The macro call names a member `_weight` of `b`, which does not
  -- exist; the model takes the height.
  pub apply_binary_vector :
      Op → BaseMatrix → BaseMatrix → ℕ → ℕ → MatrixOffset → Bool → Bool → Logged ℕ
  unfolding check_start check_dim
  apply_binary_vector op m b num_rows num_cols offset row_vector col_vector =
      check_dense 66 m
      >> cc_check b.sparse "BaseMatrix.cpp" 67
      >> check_start 76 m.height m.width offset.a_col offset.b_row
      >> check_start 77 b.height b.width offset.b_col offset.b_row
      >> check_dim 78 num_rows offset.a_row m.height
      >> check_dim 79 num_cols offset.b_col m.width
      >> (if not row_vector then check_dim 82 num_rows offset.b_row b.height else quiet tt)
      >> (if not col_vector then check_dim 85 num_cols offset.b_col b.width else quiet tt)
      >> quiet 0

  -- `apply_ternary` with an offset and the two type arguments, about `c`.
  pub apply_ternary_vector :
      Op → BaseMatrix → BaseMatrix → BaseMatrix → ℕ → ℕ → MatrixOffset → Bool → Bool → Logged ℕ
  unfolding check_start check_dim
  apply_ternary_vector op m b c num_rows num_cols offset row_vector col_vector =
      check_dense 129 m
      >> check_dense 130 b
      >> check_dense 131 c
      >> check_start 142 m.height m.width offset.a_col offset.a_row
      >> check_start 143 b.height b.width offset.b_col offset.b_row
      >> check_start 144 c.height c.width offset.c_col offset.c_row
      >> check_dim 146 num_rows offset.a_row m.height
      >> check_dim 147 num_cols offset.a_col m.width
      >> check_dim 148 num_rows offset.b_row b.height
      >> check_dim 149 num_cols offset.b_col b.width
      >> (if not row_vector then check_dim 152 num_rows offset.c_row c.height else quiet tt)
      >> (if not col_vector then check_dim 155 num_cols offset.c_col c.width else quiet tt)
      >> quiet 0

  pub apply_ternary_at : Op → BaseMatrix → BaseMatrix → BaseMatrix → ℕ → ℕ → MatrixOffset → Logged ℕ
  unfolding apply_ternary_vector
  apply_ternary_at op m b c num_rows num_cols offset =
      apply_ternary_vector op m b c num_rows num_cols offset false false

  pub apply_ternary : Op → BaseMatrix → BaseMatrix → BaseMatrix → Logged ℕ
  unfolding new_offset apply_ternary_at
  apply_ternary op m b c =
      check_same 99 m.height b.height
      >> check_same 100 m.width b.width
      >> check_same 101 m.height c.height
      >> check_same 102 m.width c.width
      >> apply_ternary_at op m b c m.height m.width (new_offset 0 0 0 0 0 0 0 0)

  pub apply_quaternary_at :
      Op → BaseMatrix → BaseMatrix → BaseMatrix → BaseMatrix → ℕ → ℕ → MatrixOffset → Logged ℕ
  unfolding check_start check_dim
  apply_quaternary_at op m b c d num_rows num_cols offset =
      check_dense 187 m
      >> check_dense 188 b
      >> check_dense 189 c
      >> check_dense 190 d
      >> check_start 204 m.height m.width offset.a_col offset.a_row
      >> check_start 205 b.height b.width offset.b_col offset.b_row
      >> check_start 206 c.height c.width offset.c_col offset.c_row
      >> check_start 207 d.height d.width offset.d_col offset.d_row
      >> check_dim 209 num_rows offset.a_row m.height
      >> check_dim 210 num_cols offset.a_col m.width
      >> check_dim 211 num_rows offset.b_row b.height
      >> check_dim 212 num_cols offset.b_col b.width
      >> check_dim 213 num_rows offset.c_row c.height
      >> check_dim 214 num_cols offset.c_col c.width
      >> check_dim 215 num_rows offset.d_row d.height
      >> check_dim 216 num_cols offset.d_col d.width
      >> quiet 0

  pub apply_quaternary : Op → BaseMatrix → BaseMatrix → BaseMatrix → BaseMatrix → Logged ℕ
  unfolding new_offset apply_quaternary_at
  apply_quaternary op m b c d =
      check_same 168 m.height b.height
      >> check_same 169 m.width b.width
      >> check_same 170 m.height c.height
      >> check_same 171 m.width c.width
      >> check_same 172 m.height d.height
      >> check_same 173 m.width d.width
      >> apply_quaternary_at op m b c d m.height m.width (new_offset 0 0 0 0 0 0 0 0)

  -- `aggregate` over `b` and `c`. The overload over `b` alone calls a macro that does not exist.
  pub aggregate : Op → BaseMatrix → BaseMatrix → BaseMatrix → MatrixOffset → Bool → Bool → Logged ℕ
  unfolding check_start
  aggregate op m b c offset row_vector col_vector =
      check_start 276 m.height m.width offset.a_col offset.a_row
      >> check_start 277 b.height b.width offset.b_col offset.b_row
      >> check_start 278 c.height c.width offset.c_col offset.c_row
      >> (if row_vector && not col_vector
          then quiet tt
          else if not row_vector && col_vector
          then quiet tt
          else cc_log fatal "BaseMatrix.cpp" 287)
      >> quiet 0

-- What is relied on of the `apply_binary` that has an offset and no type arguments: it is declared in
-- the header and defined nowhere.
module _ {ℓ} {Op : Type ℓ}
    (apply_binary_at : Op → BaseMatrix → BaseMatrix → ℕ → ℕ → MatrixOffset → Logged ℕ) where
  pub apply_binary : Op → BaseMatrix → BaseMatrix → Logged ℕ
  unfolding new_offset
  apply_binary op m b =
      cc_check (m.height == b.height && m.width == b.width) "BaseMatrix.cpp" 51
      >> apply_binary_at op m b m.height m.width (new_offset 0 0 0 0 0 0 0 0)
