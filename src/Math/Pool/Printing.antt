-- ===== src/Math/Pool/Printing.antt =====
-- `print_all` of src/math/PoolAllocator.cpp: the messages that it logs, and the size in the last one. The
-- loops go through the map and through each vector in some order; the size does not depend on it.
use ccml.Base.{ℕ, ◌<◌, ◌+◌, ◌*◌, ◌%◌, ◌^◌, ◌≡◌, List, [], ◌∷◌, length, arith}
use ccml.Utils.Logging.{Logged, cc_log, info, ◌>>=◌, ◌>>◌, quiet}
use ccml.Math.Pool.{Allocator, PoolAllocator, Buckets}
use ccml.Math.Pool.Cache.{held_bytes}

-- The inner loop, from a size on.
pub print_ptrs : ℕ → List ℕ → ℕ → Logged ℕ
print_ptrs size [] memory_size = quiet memory_size
print_ptrs size (ptr ∷ ptrs) memory_size =
    cc_log info "PoolAllocator.cpp" 73 >> print_ptrs size ptrs ((memory_size + size) % 2 ^ 64)

pub print_buckets : Buckets → ℕ → Logged ℕ
unfolding print_ptrs
print_buckets [] memory_size = quiet memory_size
print_buckets ((size, ptrs) ∷ rest) memory_size =
    cc_log info "PoolAllocator.cpp" 71
    >> (print_ptrs size ptrs memory_size >>= λ n. print_buckets rest n)

-- `print_all`; the value is the size that its last message shows.
pub print_all : (a : Allocator) → PoolAllocator a → Logged ℕ
unfolding print_buckets
print_all a p =
    cc_log info "PoolAllocator.cpp" 69
    >> (print_buckets p.pool 0 >>= λ memory_size.
        cc_log info "PoolAllocator.cpp" 77 >> quiet memory_size)

print_ptrs-value :
    (size : ℕ) (ptrs : List ℕ) (n : ℕ)
    → n < 2 ^ 64
    → (print_ptrs size ptrs n).value ≡ (n + size * length ptrs) % 2 ^ 64
unfolding print_ptrs
print_ptrs-value size [] n h = omega arith
print_ptrs-value size (ptr ∷ ptrs) n h =
    omega (arith, print_ptrs-value size ptrs ((n + size) % 2 ^ 64) (omega arith))

print_buckets-value :
    (pool : Buckets) (n : ℕ)
    → n < 2 ^ 64
    → (print_buckets pool n).value ≡ (n + held_bytes pool) % 2 ^ 64
unfolding print_buckets held_bytes
print_buckets-value [] n h = omega arith
print_buckets-value ((size, ptrs) ∷ rest) n h =
    let first = print_ptrs-value size ptrs n h in
    omega
      (arith, first, print_buckets-value rest (print_ptrs size ptrs n).value (omega (arith, first)))

-- The size that print_all shows is the number of bytes that the pool holds, modulo 2 ^ 64.
print_all-value :
    (a : Allocator) (p : PoolAllocator a) → (print_all a p).value ≡ held_bytes p.pool % 2 ^ 64
unfolding print_all
print_all-value a p = omega (arith, print_buckets-value p.pool 0 (omega arith))
