-- ===== src/Math/Matrix/Checks.antt =====
-- What the checks of the apply functions of src/math/BaseMatrix.cpp accept.
use ccml.Base.{ℕ, ◌+◌, ◌^◌, ◌≤◌, ◌<◌, ◌≡◌, ◌≢◌, ◌↔◌, Bool, false, [], arith}
use ccml.Utils.Logging.Quiet.{◌⨾◌, quiet_end}
use ccml.Math.Matrix.{
  BaseMatrix, MatrixOffset, new_offset, through_int, check_dim, check_start, check_dense,
  check_same, apply_unary_at, apply_binary_vector, apply_ternary_at, apply_ternary_vector,
  apply_ternary, apply_quaternary_at, apply_quaternary,
}

dense_quiet : (line : ℕ) (m : BaseMatrix) → ((check_dense line m).log ≡ []) ↔ (m.sparse ≡ false)
dense_quiet line m = ground arith

same_quiet : (line m n : ℕ) → ((check_same line m n).log ≡ []) ↔ (m ≡ n)
same_quiet line m n = ground arith

check_dim-quiet :
    (line dim offset size : ℕ)
    → dim < 2 ^ 31
    → offset < 2 ^ 63
    → ((check_dim line dim offset size).log ≡ []) ↔ (dim + offset ≤ size)
unfolding check_dim through_int
check_dim-quiet line dim offset size small far = ground arith

check_start-quiet :
    (line height width col row : ℕ)
    → ((check_start line height width col row).log ≡ []) ↔ ((col ≤ width) × (row ≤ height))
unfolding check_start
check_start-quiet line height width col row = ground arith

module _ {ℓ} {Op : Type ℓ} (op : Op) where
  -- A unary operation on a submatrix logs nothing exactly when the matrix is not sparse and the
  -- submatrix lies inside it, for sizes below 2 ^ 31; the row of a second matrix, which the address is
  -- computed with, is at most the height.
  pub apply_unary_at-quiet :
      (m : BaseMatrix) (num_rows num_cols : ℕ) (offset : MatrixOffset)
      → num_rows < 2 ^ 31
      → num_cols < 2 ^ 31
      → offset.a_row < 2 ^ 63
      → offset.a_col < 2 ^ 63
      → ((apply_unary_at op m num_rows num_cols offset).log ≡ []) ↔ (
          (m.sparse ≡ false)
          × (offset.b_row ≤ m.height)
          × (num_rows + offset.a_row ≤ m.height)
          × (num_cols + offset.a_col ≤ m.width))
  unfolding apply_unary_at
  apply_unary_at-quiet m num_rows num_cols offset h w fr fc =
      let all = quiet_end (
        dense_quiet 31 m
        ⨾ check_start-quiet 37 m.height m.width offset.a_col offset.b_row
        ⨾ check_dim-quiet 39 num_rows offset.a_row m.height h fr
        ⨾ check_dim-quiet 40 num_cols offset.a_col m.width w fc) in
      ground (arith, all)

  -- A binary operation logs a failed check for every second matrix that is not sparse, whatever the
  -- shapes and the offsets.
  pub apply_binary_vector_dense :
      (m b : BaseMatrix) (num_rows num_cols : ℕ) (offset : MatrixOffset)
      (row_vector col_vector : Bool)
      → b.sparse ≡ false
      → (apply_binary_vector op m b num_rows num_cols offset row_vector col_vector).log ≢ []
  unfolding apply_binary_vector
  apply_binary_vector_dense m b num_rows num_cols offset row_vector col_vector h = ground arith

  apply_ternary_at-quiet :
      (m b c : BaseMatrix)
      → m.height < 2 ^ 31
      → m.width < 2 ^ 31
      → ((apply_ternary_at op m b c m.height m.width (new_offset 0 0 0 0 0 0 0 0)).log ≡ []) ↔ (
          ((m.sparse ≡ false) × (b.sparse ≡ false) × (c.sparse ≡ false))
          × ((m.height ≤ b.height) × (m.width ≤ b.width))
          × ((m.height ≤ c.height) × (m.width ≤ c.width)))
  unfolding apply_ternary_at apply_ternary_vector new_offset
  apply_ternary_at-quiet m b c h w =
      let all = quiet_end (
        dense_quiet 129 m
        ⨾ dense_quiet 130 b
        ⨾ dense_quiet 131 c
        ⨾ check_start-quiet 142 m.height m.width 0 0
        ⨾ check_start-quiet 143 b.height b.width 0 0
        ⨾ check_start-quiet 144 c.height c.width 0 0
        ⨾ check_dim-quiet 146 m.height 0 m.height h (omega arith)
        ⨾ check_dim-quiet 147 m.width 0 m.width w (omega arith)
        ⨾ check_dim-quiet 148 m.height 0 b.height h (omega arith)
        ⨾ check_dim-quiet 149 m.width 0 b.width w (omega arith)
        ⨾ check_dim-quiet 152 m.height 0 c.height h (omega arith)
        ⨾ check_dim-quiet 155 m.width 0 c.width w (omega arith)) in
      ground (arith, all)

  -- A ternary operation logs nothing exactly when no matrix is sparse and all have the same shape, for
  -- shapes below 2 ^ 31.
  pub apply_ternary-quiet :
      (m b c : BaseMatrix)
      → m.height < 2 ^ 31
      → m.width < 2 ^ 31
      → ((apply_ternary op m b c).log ≡ []) ↔ (
          ((m.sparse ≡ false) × (b.sparse ≡ false) × (c.sparse ≡ false))
          × ((m.height ≡ b.height) × (m.width ≡ b.width))
          × ((m.height ≡ c.height) × (m.width ≡ c.width)))
  unfolding apply_ternary
  apply_ternary-quiet m b c h w =
      let all =
        same_quiet 99 m.height b.height
        ⨾ same_quiet 100 m.width b.width
        ⨾ same_quiet 101 m.height c.height
        ⨾ same_quiet 102 m.width c.width
        ⨾ apply_ternary_at-quiet m b c h w in
      ground (arith, all)

  apply_quaternary_at-quiet :
      (m b c d : BaseMatrix)
      → m.height < 2 ^ 31
      → m.width < 2 ^ 31
      → ((apply_quaternary_at op m b c d m.height m.width (new_offset 0 0 0 0 0 0 0 0)).log ≡ [])
        ↔ (((m.sparse ≡ false) × (b.sparse ≡ false) × (c.sparse ≡ false) × (d.sparse ≡ false))
            × ((m.height ≤ b.height) × (m.width ≤ b.width))
            × ((m.height ≤ c.height) × (m.width ≤ c.width))
            × ((m.height ≤ d.height) × (m.width ≤ d.width)))
  unfolding apply_quaternary_at new_offset
  apply_quaternary_at-quiet m b c d h w =
      let all = quiet_end (
        dense_quiet 187 m
        ⨾ dense_quiet 188 b
        ⨾ dense_quiet 189 c
        ⨾ dense_quiet 190 d
        ⨾ check_start-quiet 204 m.height m.width 0 0
        ⨾ check_start-quiet 205 b.height b.width 0 0
        ⨾ check_start-quiet 206 c.height c.width 0 0
        ⨾ check_start-quiet 207 d.height d.width 0 0
        ⨾ check_dim-quiet 209 m.height 0 m.height h (omega arith)
        ⨾ check_dim-quiet 210 m.width 0 m.width w (omega arith)
        ⨾ check_dim-quiet 211 m.height 0 b.height h (omega arith)
        ⨾ check_dim-quiet 212 m.width 0 b.width w (omega arith)
        ⨾ check_dim-quiet 213 m.height 0 c.height h (omega arith)
        ⨾ check_dim-quiet 214 m.width 0 c.width w (omega arith)
        ⨾ check_dim-quiet 215 m.height 0 d.height h (omega arith)
        ⨾ check_dim-quiet 216 m.width 0 d.width w (omega arith)) in
      ground (arith, all)

  -- A quaternary operation logs nothing exactly when no matrix is sparse and all have the same shape,
  -- for shapes below 2 ^ 31.
  pub apply_quaternary-quiet :
      (m b c d : BaseMatrix)
      → m.height < 2 ^ 31
      → m.width < 2 ^ 31
      → ((apply_quaternary op m b c d).log ≡ []) ↔ (
          ((m.sparse ≡ false) × (b.sparse ≡ false) × (c.sparse ≡ false) × (d.sparse ≡ false))
          × ((m.height ≡ b.height) × (m.width ≡ b.width))
          × ((m.height ≡ c.height) × (m.width ≡ c.width))
          × ((m.height ≡ d.height) × (m.width ≡ d.width)))
  unfolding apply_quaternary
  apply_quaternary-quiet m b c d h w =
      let all =
        same_quiet 168 m.height b.height
        ⨾ same_quiet 169 m.width b.width
        ⨾ same_quiet 170 m.height c.height
        ⨾ same_quiet 171 m.width c.width
        ⨾ same_quiet 172 m.height d.height
        ⨾ same_quiet 173 m.width d.width
        ⨾ apply_quaternary_at-quiet m b c d h w in
      ground (arith, all)
