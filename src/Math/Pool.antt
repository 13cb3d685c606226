-- ===== src/Math/Pool.antt =====
-- src/math/PoolAllocator.h, src/math/PoolAllocator.cpp and src/math/Allocator.h: the memory pool over an
-- allocator. A `size_t` keeps its wrap-around at 2 ^ 64. The lock makes each call one step.
pub mod Cache
pub mod Ownership
pub mod Printing
use ccml.Base.{
  ℕ, zero, suc, ◌+◌, ◌*◌, ◌^◌, ◌%◌, ◌≡◌, Bool, true, false, not, List, [], ◌∷◌, ◌++◌, map, Option,
  none, some, length, ltb, leb, ◌==◌, if◌then◌else◌,
}
use ccml.Utils.Logging.{Logged, cc_check, ◌>>=◌, ◌>>◌, quiet}

-- The heap behind `posix_memalign` and `::free`: a state, what an aligned request returns (the
-- return code and the pointer that it stores, 0 for a null pointer), and what `free` does.
pub record Heap : Type 1 where
  pub State : Type 0
  pub posix_memalign : State → ℕ → ℕ → State × ℕ × ℕ
  pub release : State → ℕ → State

-- `std::unordered_map<size_t, std::vector<void*>>`; the head of a list is the back of the vector.
abbrev pub Buckets : Type 0
Buckets = List (ℕ × List ℕ)

module _ (heap : Heap) where
  open heap use {State, posix_memalign, release}

  -- `CpuAllocator::alloc`
  pub cpu_alloc : State → ℕ → Logged (ℕ × State)
  cpu_alloc h size =
      let (h', code, ptr) = posix_memalign h 32 size in
      cc_check (code == 0) "Allocator.h" 33
      >> cc_check (not (ptr == 0)) "Allocator.h" 34
      >> quiet (ptr, h')

  -- `CpuAllocator::free`
  pub cpu_free : State → ℕ → State
  cpu_free h ptr = if ptr == 0 then h else release h ptr

-- An `Allocator`, by its two virtual functions over a state.
pub record Allocator : Type 1 where
  pub State : Type 0
  pub alloc : State → ℕ → Logged (ℕ × State)
  pub free : State → ℕ → State

-- `class CpuAllocator : public Allocator`
abbrev pub cpu_allocator : Heap → Allocator
cpu_allocator heap = record { State = heap.State; alloc = cpu_alloc heap; free = cpu_free heap }

-- `_pool.find(size)`, with the vector if there is one
unfoldable pub find : ℕ → Buckets → Option (List ℕ)
find size [] = none
find size ((k, ptrs) ∷ rest) = if k == size then some ptrs else find size rest

-- The vector at `size` becomes `ptrs`.
pub assign : ℕ → List ℕ → Buckets → Buckets
assign size ptrs [] = (size, ptrs) ∷ []
assign size ptrs ((k, old) ∷ rest) =
    if k == size then (k, ptrs) ∷ rest else (k, old) ∷ assign size ptrs rest

-- `_pool[size]`: a key that is missing has the empty vector.
unfoldable pub bucket : ℕ → Buckets → List ℕ
unfolding find
bucket size pool = elim (find size pool) [ none ↦ [] | some ptrs ↦ ptrs ]

module _ (a : Allocator) where
  open a use {State}

  pub record PoolAllocator : Type 0 where
    pub allocator : State
    pub pool : Buckets
    pub size_limit : ℕ
    pub pool_memory_size : ℕ

  -- The constructor.
  pub new_pool : State → ℕ → PoolAllocator
  new_pool s limit = record { allocator = s; pool = []; size_limit = limit; pool_memory_size = 0 }

  -- The inner loop of `free_all`, from the front of the vector, the end of the list.
  pub free_each : State → List ℕ → State
  free_each s [] = s
  free_each s (ptr ∷ ptrs) = a.free (free_each s ptrs) ptr

  pub free_buckets : State → Buckets → State
  unfolding free_each
  free_buckets s [] = s
  free_buckets s ((k, ptrs) ∷ rest) = free_buckets (free_each s ptrs) rest

  pub free_all : PoolAllocator → PoolAllocator
  unfolding free_buckets
  free_all p = record p {
    allocator = free_buckets p.allocator p.pool;
    pool_memory_size = 0;
    pool = [];
  }

  -- The destructor.
  pub delete_pool : PoolAllocator → PoolAllocator
  unfolding free_all
  delete_pool p = free_all p

  -- `_allocator->alloc(size)`
  pub alloc_through : PoolAllocator → ℕ → Logged (ℕ × PoolAllocator)
  alloc_through p size = a.alloc p.allocator size >>= λ r. quiet (r.0, record p { allocator = r.1 })

  -- The branch that finds no buffer of this size.
  pub alloc_miss : PoolAllocator → ℕ → Logged (ℕ × PoolAllocator)
  unfolding free_all alloc_through
  alloc_miss p size =
      if leb p.size_limit p.pool_memory_size
      then alloc_through (free_all p) size
      else alloc_through p size

  -- The branch that takes the last buffer of the vector.
  pub alloc_hit : PoolAllocator → ℕ → ℕ → List ℕ → Logged (ℕ × PoolAllocator)
  unfolding assign
  alloc_hit p size buf rest =
      quiet (buf, record p { pool = assign size rest p.pool; pool_memory_size = size })

  unfoldable pub alloc : PoolAllocator → ℕ → Logged (ℕ × PoolAllocator)
  unfolding bucket alloc_miss alloc_hit
  alloc p size =
      if ltb 0 p.size_limit
      then elim (bucket size p.pool) [
        | [] ↦ alloc_miss p size
        | buf ∷ rest ↦ alloc_hit p size buf rest
      ]
      else alloc_through p size

  pub free : PoolAllocator → ℕ → ℕ → PoolAllocator
  unfolding bucket assign
  free p ptr size =
      if ltb 0 p.size_limit
      then record p {
        pool = assign size (ptr ∷ bucket size p.pool) p.pool;
        pool_memory_size = (p.pool_memory_size + size) % 2 ^ 64;
      }
      else record p { allocator = a.free p.allocator ptr }
