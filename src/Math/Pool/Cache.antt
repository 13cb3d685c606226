-- ===== src/Math/Pool/Cache.antt =====
-- The pool as a cache of buffers by size, and its count of bytes.
use ccml.Base.{
  ℕ, ◌+◌, ◌*◌, ◌^◌, ◌%◌, ◌<◌, ◌≡◌, ◌≢◌, refl, ap, List, [], ◌∷◌, ◌==◌, lt→ltb, arith, ==-refl,
  if◌then◌else◌, length,
}
use ccml.Utils.Logging.{quiet}
use ccml.Math.Pool.{Allocator, Buckets, find, bucket, assign, PoolAllocator, alloc_hit, alloc, free}

-- Writing one bucket changes that bucket only.
pub bucket-assign :
    (size k : ℕ) (ptrs : List ℕ) (pool : Buckets)
    → bucket k (assign size ptrs pool) ≡ (if size == k then ptrs else bucket k pool)
unfolding bucket find assign
bucket-assign size k ptrs [] = ground arith
bucket-assign size k ptrs ((j, old) ∷ rest) = ground (arith, bucket-assign size k ptrs rest)

module _ (a : Allocator) where
  -- `free` with a pool.
  free-on :
      (p : PoolAllocator a) (ptr size : ℕ)
      → 0 < p.size_limit
      → free a p ptr size ≡ record p {
        pool = assign size (ptr ∷ bucket size p.pool) p.pool;
        pool_memory_size = (p.pool_memory_size + size) % 2 ^ 64;
      }
  unfolding free
  free-on p ptr size on = rw (lt→ltb 0 p.size_limit on)

  -- `alloc` with a pool that has a buffer of the size.
  alloc-on :
      (p : PoolAllocator a) (size buf : ℕ) (rest : List ℕ)
      → 0 < p.size_limit
      → bucket size p.pool ≡ buf ∷ rest
      → alloc a p size
        ≡ quiet (buf, record p { pool = assign size rest p.pool; pool_memory_size = size })
  unfolding alloc alloc_hit
  alloc-on p size buf rest on e = rw (lt→ltb 0 p.size_limit on, e, alloc)

  bucket-assign-assign :
      (size : ℕ) (ptrs : List ℕ) (pool : Buckets) (k : ℕ)
      → bucket k (assign size (bucket size pool) (assign size ptrs pool)) ≡ bucket k pool
  bucket-assign-assign size ptrs pool k = ground (
    arith,
    bucket-assign size k (bucket size pool) (assign size ptrs pool),
    bucket-assign size k ptrs pool,
  )

  -- With a pool, a buffer that is freed is the next one that `alloc` returns for its size: at once, with no
  -- message and no call of the allocator, and every size has the cached buffers that it had before.
  pub alloc-free :
      (p : PoolAllocator a) (ptr size : ℕ)
      → 0 < p.size_limit
      → let r = alloc a (free a p ptr size) size in
        (r.log ≡ [])
        × (r.value.0 ≡ ptr)
        × (r.value.1.allocator ≡ p.allocator)
        × ((k : ℕ) → bucket k r.value.1.pool ≡ bucket k p.pool)
  alloc-free p ptr size on =
      rw
        (
          free-on p ptr size on,
          alloc-on freed size ptr (bucket size p.pool) on
              (rw (bucket-assign size size (ptr ∷ bucket size p.pool) p.pool, ==-refl size)),
        )
        (refl, refl, refl, bucket-assign-assign size (ptr ∷ bucket size p.pool) p.pool)
    where
      freed : PoolAllocator a
      freed = record p {
        pool = assign size (ptr ∷ bucket size p.pool) p.pool;
        pool_memory_size = (p.pool_memory_size + size) % 2 ^ 64;
      }

-- The bytes that the pool really holds.
unfoldable pub held_bytes : Buckets → ℕ
held_bytes [] = 0
held_bytes ((k, ptrs) ∷ rest) = k * length ptrs + held_bytes rest

held_bytes-assign :
    (size : ℕ) (ptrs : List ℕ) (pool : Buckets)
    → held_bytes (assign size ptrs pool) + size * length (bucket size pool)
      ≡ held_bytes pool + size * length ptrs
unfolding held_bytes assign bucket find
held_bytes-assign size ptrs [] = omega arith
held_bytes-assign size ptrs ((j, old) ∷ rest) = ground (arith, held_bytes-assign size ptrs rest)

module _ (a : Allocator) where
  -- `_pool_memory_size` is the number of bytes in the pool.
  abbrev pub Counted : PoolAllocator a → Type 0
  Counted p = p.pool_memory_size ≡ held_bytes p.pool

  -- With a pool, freeing keeps the count, if it does not pass 2 ^ 64.
  pub free-Counted :
      (p : PoolAllocator a) (ptr size : ℕ)
      → 0 < p.size_limit
      → p.pool_memory_size + size < 2 ^ 64
      → Counted p
      → Counted (free a p ptr size)
  unfolding free
  free-Counted p ptr size on fits c =
      rw (lt→ltb 0 p.size_limit on)
        (omega (arith, held_bytes-assign size (ptr ∷ bucket size p.pool) p.pool))

  -- With a pool, taking a cached buffer keeps the count only if the pool held exactly two buffers' worth of
  -- bytes: `alloc` sets the count to the size of the buffer, where the pool holds that much less.
  pub alloc-Counted :
      (p : PoolAllocator a) (size : ℕ)
      → 0 < p.size_limit
      → bucket size p.pool ≢ []
      → Counted p
      → Counted ((alloc a p size).value).1
      → held_bytes p.pool ≡ 2 * size
  unfolding alloc
  alloc-Counted p size on full c c' = go (bucket size p.pool) refl full
    where
      go : (ptrs : List ℕ) → bucket size p.pool ≡ ptrs → ptrs ≢ [] → held_bytes p.pool ≡ 2 * size
      go [] e n = absurd (n refl)
      go (buf ∷ rest) e n =
          let h : size ≡ held_bytes (assign size rest p.pool) =
            rw (lt→ltb 0 p.size_limit on, e, alloc) at c' in
          omega (arith, held_bytes-assign size rest p.pool, ap (λ l. size * length l) e)
