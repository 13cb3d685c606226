-- ===== src/Math/Vector.antt =====
-- src/math/Vector.h: vectors over memory handles. A pointer is a buffer and an index into it. Which
-- memory a vector gets is virtual and has no implementation in the repository: `new_memory` is a
-- parameter, and so is `create`.
pub mod Backing
use ccml.Base.{
  ℕ, ◌+◌, ◌-◌, ◌*◌, ◌%◌, ◌^◌, Bool, true, false, not, ◌||◌, Option, none, some, ltb, leb,
  if◌then◌else◌,
}
use ccml.Utils.Logging.{Logged, cc_check, ◌>>=◌, ◌>>◌, quiet}
use ccml.Math.Memory.{MemoryHandle}

-- `T*`
pub record Pointer : Type 0 where
  pub buf : ℕ
  pub index : ℕ

-- `data + start`
unfoldable pub at_index : Pointer → ℕ → Pointer
at_index p start = record p { index = p.index + start }

-- The fields of `BaseMatrixT` and `VectorT`. `_size` is a reference to `_width`.
pub record VectorT : Type 0 where
  pub height : ℕ
  pub width : ℕ
  pub stride : ℕ
  pub data_ptr : Pointer
  pub trans : Bool
  pub memory_handle : Option MemoryHandle

-- `BaseVector(size, data)`, which is also `VectorT(size, data)`.
pub new_base_vector : ℕ → Pointer → VectorT
new_base_vector size data_ptr = record {
  height = 1;
  width = size;
  stride = size;
  data_ptr = data_ptr;
  trans = false;
  memory_handle = none;
}

-- `reinterpret_cast<T*>(handle->get_buf())`
abbrev pub start_of : MemoryHandle → Pointer
start_of h = record { buf = h.buf; index = 0 }

-- `VectorT(size, memory_handle, offset)`
pub new_vector : ℕ → MemoryHandle → ℕ → VectorT
unfolding new_base_vector at_index
new_vector size h offset = record (new_base_vector size (at_index (start_of h) offset)) {
  memory_handle = some h;
}

unfoldable pub get_size : VectorT → ℕ
get_size v = v.width

-- `get_data`, both of them, and `get_memory_handle`
pub get_data : VectorT → Pointer
get_data v = v.data_ptr

pub get_memory_handle : VectorT → Option MemoryHandle
get_memory_handle v = v.memory_handle

-- `sizeof(T)` and the virtual function.
module _ (sizeof : ℕ) (new_memory : ℕ → MemoryHandle) where
  -- `!_memory_handle || bytes > _memory_handle->get_alloc_size()`
  pub too_small : Option MemoryHandle → ℕ → Bool
  too_small none bytes = true
  too_small (some h) bytes = ltb h.alloc_size bytes

  pub with_memory : VectorT → MemoryHandle → VectorT
  with_memory v h = record v { memory_handle = some h; data_ptr = start_of h }

  -- `resize`
  pub resize : VectorT → ℕ → VectorT
  unfolding too_small with_memory
  resize v new_size =
      let bytes = (new_size * sizeof) % 2 ^ 64 in
      let w = if too_small v.memory_handle bytes then with_memory v (new_memory bytes) else v in
      record w { width = new_size }

  -- `resize_or_create`
  pub resize_or_create : (ℕ → VectorT) → Option VectorT → ℕ → VectorT
  unfolding resize
  resize_or_create create none size = create size
  resize_or_create create (some v) size = resize v size

-- `sub_vec_from` with a pointer.
pub sub_vec_from_pointer : VectorT → Pointer → ℕ → ℕ → VectorT
unfolding at_index
sub_vec_from_pointer v src start size = record v { width = size; data_ptr = at_index src start }

-- `sub_vec_from` with a vector; the sum wraps.
pub sub_vec_from : VectorT → VectorT → ℕ → ℕ → Logged VectorT
unfolding at_index get_size
sub_vec_from v src start size =
    cc_check (ltb start (get_size src)) "Vector.h" 97
    >> cc_check (leb ((start + size) % 2 ^ 64) (get_size src)) "Vector.h" 98
    >> quiet (record v { width = size; data_ptr = at_index src.data_ptr start })

-- `sub_vec_from` with an interval, whose length wraps.
pub sub_vec_from_interval : VectorT → VectorT → ℕ × ℕ → Logged VectorT
unfolding sub_vec_from
sub_vec_from_interval v src (first, second) =
    sub_vec_from v src first ((second + 2 ^ 64 - first) % 2 ^ 64)

-- `sub_vec`; its check is `CHECK_LE`, which the repository does not define: here it logs like the
-- others. `create` makes a vector over a pointer.
pub sub_vec : (Pointer → ℕ → VectorT) → VectorT → ℕ → ℕ → Logged VectorT
unfolding at_index get_size
sub_vec create v start size =
    cc_check (leb ((start + size) % 2 ^ 64) (get_size v)) "Vector.h" 106
    >> quiet (create (at_index v.data_ptr start) size)
