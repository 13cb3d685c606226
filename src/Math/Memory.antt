-- ===== src/Math/Memory.antt =====
-- src/math/MemoryHandle.h and src/math/MemoryHandle.cpp: how many bytes a handle asks the pool for, and
-- the life of a handle.
use ccml.Base.{
  ℕ, ◌+◌, ◌*◌, ◌/◌, ◌%◌, ◌^◌, ◌≤◌, ◌<◌, ◌≡◌, refl, [], not, true, leb, ◌==◌, ◌⊎◌, if◌then◌else◌,
  arith,
}
use ccml.Utils.Logging.{Logged, cc_check, ◌>>=◌, ◌>>◌, quiet}
use ccml.Math.Pool.{Allocator, PoolAllocator, alloc, free}
use ccml.Math.Pool.Cache.{alloc-free}

-- `_alloc_size` as the constructor of `MemoryHandle` computes it. `& ~(1023)` clears the ten low
-- bits, which is `/ 1024 * 1024`; the sum wraps at 2 ^ 64.
unfoldable pub alloc_size : ℕ → ℕ
alloc_size size =
    if leb size 256
    then 256
    else if leb size 512
    then 512
    else if leb size (2 ^ 16)
    then (size + 1023) % 2 ^ 64 / 1024 * 1024
    else size

-- The size that is asked for covers the request and is less than 1024 bytes above it if it is above
-- 256; up to 2 ^ 16 bytes it is 256, 512 or a multiple of 1024, and from there on it is the request.
pub alloc_size_bounds :
    (size : ℕ)
    → (size ≤ alloc_size size)
      × (alloc_size size < size + 1024)
      × ((size ≤ 512) ⊎ (alloc_size size % 1024 ≡ 0) ⊎ (alloc_size size ≡ size))
unfolding alloc_size
alloc_size_bounds size = ground arith

-- Rounding a rounded size changes nothing, and a larger request never gets a smaller buffer.
pub alloc_size_monotone :
    (m n : ℕ) → m ≤ n → (alloc_size m ≤ alloc_size n) × (alloc_size (alloc_size m) ≡ alloc_size m)
unfolding alloc_size
alloc_size_monotone m n h = (ground arith, ground arith)

pub record MemoryHandle : Type 0 where
  pub size : ℕ
  pub alloc_size : ℕ
  pub buf : ℕ

module _ (a : Allocator) where
  -- The constructor of `CpuMemoryHandle`, over the pool of the storage engine.
  pub new_cpu_handle : PoolAllocator a → ℕ → Logged (MemoryHandle × PoolAllocator a)
  new_cpu_handle p size =
      cc_check (not (size == 0)) "MemoryHandle.cpp" 33
      >> (alloc a p (alloc_size size) >>= λ r.
          quiet (record { size = size; alloc_size = alloc_size size; buf = r.0 }, r.1))

  -- The destructor.
  pub delete_cpu_handle : PoolAllocator a → MemoryHandle → PoolAllocator a
  delete_cpu_handle p h = free a p h.buf h.alloc_size

  -- With a pool, the buffer of a handle that is destroyed goes to the next handle whose request is
  -- rounded to the same size: with no message if the request is not 0, and with no call of the
  -- allocator.
  pub new_cpu_handle-delete_cpu_handle :
      (p : PoolAllocator a) (h : MemoryHandle) (size : ℕ)
      → 0 < p.size_limit
      → 0 < size
      → alloc_size size ≡ h.alloc_size
      → let r = new_cpu_handle (delete_cpu_handle p h) size in
        (r.value.0.buf ≡ h.buf) × (r.log ≡ []) × (r.value.1.allocator ≡ p.allocator)
  unfolding new_cpu_handle delete_cpu_handle
  new_cpu_handle-delete_cpu_handle p h size on pos same =
      let reuse = alloc-free a p h.buf h.alloc_size on in
      rw (same, checked) (reuse.1, rw (reuse.0) refl, reuse.2)
    where
      checked : not (size == 0) ≡ true
      checked = ground arith
