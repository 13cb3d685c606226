-- ===== src/Tests/Memory.antt =====
-- The theorems of Math at concrete inputs.
use mathlib.Core.List.{erase, cons-perm_iff_perm-erase}
use mathlib.Core.List.Perm
use native.Mathlib.Decide.{ℕ_discrete}
use ccml.Base.{ℕ, ◌+◌, ◌*◌, ◌≤◌, ◌≡◌, ◌≢◌, refl, List, [], ◌∷◌, some, Perm, arith}
use ccml.Utils.Logging.{quiet}
use ccml.Math.Pool.{Allocator, PoolAllocator, new_pool, alloc, free, bucket}
use ccml.Math.Pool.Ownership.{Tracks, Owns, Call, allocs, frees, run, run-new_pool-Owns}
use ccml.Math.Pool.Cache.{alloc-free, Counted, held_bytes, alloc-Counted}
use ccml.Math.Storage.{StorageEngine, done, init, Reach, here, get_cpu_allocator_once}
use ccml.Math.Storage

-- An allocator that hands out the numbers from 1 on.
record Counter : Type 0 where
  count : ℕ
  blocks : List ℕ

abbrev counting : Allocator
counting = record {
  State = Counter;
  alloc = λ s size.
      quiet (s.count + 1, record { count = s.count + 1; blocks = (s.count + 1) ∷ s.blocks });
  free = λ s ptr. record s { blocks = erase ℕ_discrete s.blocks ptr };
}

abbrev fresh : Counter
fresh = record { count = 0; blocks = [] }

erased :
    (l : List ℕ) (ptr : ℕ) (rest : List ℕ)
    → Perm l (ptr ∷ rest)
    → Perm (erase ℕ_discrete l ptr) rest
erased l ptr rest h = Perm.symm ((cons-perm_iff_perm-erase ℕ_discrete).0 (Perm.symm h)).1

abbrev counting_tracks : Tracks counting
counting_tracks = record {
  live = λ s. s.blocks;
  live-alloc = λ s size. Perm.refl _;
  live-free = λ s ptr rest h. erased s.blocks ptr rest h;
}

abbrev calls : List Call
calls = allocs 256 ∷ allocs 512 ∷ frees 1 256 ∷ allocs 256 ∷ []

run-new_pool-Owns_example :
    Owns counting counting_tracks
      (run counting (new_pool counting fresh 1024, []) calls).0
      (run counting (new_pool counting fresh 1024, []) calls).1
run-new_pool-Owns_example = run-new_pool-Owns counting counting_tracks fresh 1024 calls refl

-- A pool that has one buffer of 256 bytes, and a count that agrees.
abbrev small_pool : PoolAllocator counting
small_pool = record {
  allocator = fresh;
  pool = (256, 7 ∷ []) ∷ [];
  size_limit = 1024;
  pool_memory_size = 256;
}

alloc-free_example : (alloc counting (free counting small_pool 9 512) 512).value.0 ≡ 9
alloc-free_example = (alloc-free counting small_pool 9 512 (omega arith)).1

pool_Counted : Counted counting small_pool
unfolding held_bytes
pool_Counted = refl

-- Two buffers of 256 bytes: the one case in which the count stays right.
abbrev two_buffers : PoolAllocator counting
two_buffers = record {
  allocator = fresh;
  pool = (256, 7 ∷ 8 ∷ []) ∷ [];
  size_limit = 1024;
  pool_memory_size = 512;
}

two_buffers_full : bucket 256 two_buffers.pool ≢ []
unfolding bucket
two_buffers_full h = cc

two_buffers-Counted : Counted counting two_buffers
unfolding held_bytes
two_buffers-Counted = refl

two_buffers_after : Counted counting ((alloc counting two_buffers 256).value).1
unfolding held_bytes alloc
two_buffers_after = refl

alloc-Counted_example : held_bytes two_buffers.pool ≡ 2 * 256
alloc-Counted_example =
    alloc-Counted counting two_buffers 256 (omega arith) two_buffers_full two_buffers-Counted
      two_buffers_after

-- One thread creates the pool while another one waits for the lock.
raced : (s : Storage.System) × Reach s × (s.engine.created ≡ 1)
raced =
    let r1 : Reach _ = Storage.next here (Storage.pick 0 (Storage.lock_shared refl)) in
    let r2 : Reach _ = Storage.next r1 (Storage.pick 1 (Storage.lock_shared refl)) in
    let r3 : Reach _ = Storage.next r2 (Storage.pick 0 (Storage.missing refl)) in
    let r4 : Reach _ = Storage.next r3 (Storage.pick 1 (Storage.missing refl)) in
    let r5 : Reach _ = Storage.next r4 (Storage.pick 0 (Storage.lock refl refl)) in
    let r6 : Reach _ = Storage.next r5 (Storage.pick 0 (Storage.is_null refl)) in
    let r7 : Reach _ = Storage.next r6 (Storage.pick 0 Storage.create) in (_, r7, refl)

get_cpu_allocator_once_example :
    (raced.0.engine.created ≤ 1)
    × ((i p : ℕ) → raced.0.pc i ≡ done p → (raced.0.engine.cpu_allocator ≡ some p) × (p ≡ 0))
get_cpu_allocator_once_example = get_cpu_allocator_once raced.1
