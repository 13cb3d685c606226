-- ===== src/Math/Pool/Ownership.antt =====
-- Who holds each block that came out of the underlying allocator.
use mathlib.Core.List.{perm_middle}
use mathlib.Core.List.Perm
use ccml.Base.{
  ℕ, zero, suc, ◌≡◌, refl, sym, Option, none, some, Option-cases, true, List, [], ◌∷◌, ◌++◌, Perm,
  append_assoc, ◌==◌, ltb, leb, arith, Bool-cases, inl, inr,
}
use ccml.Math.Pool.{
  Allocator, Buckets, find, bucket, assign, PoolAllocator, free_each, free_buckets, free_all,
  alloc_through, alloc_miss, alloc, free, new_pool,
}

-- The blocks that the pool keeps.
pub pooled : Buckets → List ℕ
pooled [] = []
pooled ((k, ptrs) ∷ rest) = ptrs ++ pooled rest

-- Putting a block into its bucket adds it to the pool.
pooled-assign_push :
    (size ptr : ℕ) (old : List ℕ) (pool : Buckets)
    → bucket size pool ≡ old
    → Perm (pooled (assign size (ptr ∷ old) pool)) (ptr ∷ pooled pool)
unfolding pooled assign bucket find
pooled-assign_push size ptr old [] e = rw (← e) (Perm.refl _)
pooled-assign_push size ptr old ((k, ptrs) ∷ rest) e = elim (Bool-cases (k == size)) [
  | inl hit ↦ let same : ptrs ≡ old = ground arith in rw (hit, same) (Perm.refl _)
  | inr miss ↦ rw miss (
      Perm.trans
        (Perm.append (Perm.refl ptrs) (pooled-assign_push size ptr old rest (ground arith)))
        (perm_middle ptrs _))
]

-- Taking the last block of a bucket removes it from the pool.
pooled-assign_pop :
    (size buf : ℕ) (ptrs : List ℕ) (pool : Buckets)
    → bucket size pool ≡ buf ∷ ptrs
    → Perm (pooled pool) (buf ∷ pooled (assign size ptrs pool))
unfolding pooled assign bucket find
pooled-assign_pop size buf ptrs [] h = cc
pooled-assign_pop size buf ptrs ((k, old) ∷ rest) h = elim (Bool-cases (k == size)) [
  | inl hit ↦ let e : old ≡ buf ∷ ptrs = ground arith in rw (hit, e) (Perm.refl _)
  | inr miss ↦
      let e : bucket size rest ≡ buf ∷ ptrs = ground arith in
      rw miss (
        Perm.trans (Perm.append (Perm.refl old) (pooled-assign_pop size buf ptrs rest e))
          (perm_middle old _))
]

-- What is relied on of an allocator: it has a list of live blocks, `alloc` adds the block that it
-- returns, and `free` of a live block removes it.
pub record Tracks (a : Allocator) : Type 0 where
  pub live : a.State → List ℕ
  pub live-alloc :
      (s : a.State) (size : ℕ)
      → Perm (live ((a.alloc s size).value).1) (((a.alloc s size).value).0 ∷ live s)
  pub live-free :
      (s : a.State) (ptr : ℕ) (rest : List ℕ)
      → Perm (live s) (ptr ∷ rest)
      → Perm (live (a.free s ptr)) rest

module _ (a : Allocator) (t : Tracks a) where
  open t use {live, live-alloc, live-free}

  -- The live blocks are those of the pool and those that the callers hold, each once.
  abbrev pub Owns : PoolAllocator a → List ℕ → Type 0
  Owns p out = Perm (live p.allocator) (pooled p.pool ++ out)

  live-free_each :
      (s : a.State) (ptrs out : List ℕ)
      → Perm (live s) (ptrs ++ out)
      → Perm (live (free_each a s ptrs)) out
  unfolding free_each
  live-free_each s [] out h = h
  live-free_each s (ptr ∷ ptrs) out h =
      live-free (free_each a s ptrs) ptr out
        (live-free_each s ptrs (ptr ∷ out) (Perm.trans h (Perm.symm (perm_middle ptrs out))))

  live-free_buckets :
      (s : a.State) (pool : Buckets) (out : List ℕ)
      → Perm (live s) (pooled pool ++ out)
      → Perm (live (free_buckets a s pool)) out
  unfolding free_buckets pooled
  live-free_buckets s [] out h = h
  live-free_buckets s ((k, ptrs) ∷ rest) out h = live-free_buckets (free_each a s ptrs) rest out (
      live-free_each s ptrs (pooled rest ++ out) (rw (sym (append_assoc ptrs (pooled rest) out)) h))

  -- `free_all` hands every pooled block back and touches no block that a caller holds.
  pub free_all-Owns :
      (p : PoolAllocator a) (out : List ℕ)
      → Owns p out
      → Owns (free_all a p) out × (pooled (free_all a p).pool ≡ [])
  unfolding free_all pooled
  free_all-Owns p out h = (live-free_buckets p.allocator p.pool out h, refl)

  alloc_through-Owns :
      (p : PoolAllocator a) (size : ℕ) (out : List ℕ)
      → Owns p out
      → Owns ((alloc_through a p size).value).1 (((alloc_through a p size).value).0 ∷ out)
  unfolding alloc_through
  alloc_through-Owns p size out h =
      Perm.trans (live-alloc p.allocator size)
        (Perm.trans (Perm.cons _ h) (Perm.symm (perm_middle (pooled p.pool) out)))

  alloc_miss-Owns :
      (p : PoolAllocator a) (size : ℕ) (out : List ℕ)
      → Owns p out
      → Owns ((alloc_miss a p size).value).1 (((alloc_miss a p size).value).0 ∷ out)
  unfolding alloc_miss
  alloc_miss-Owns p size out h = elim (Bool-cases (leb p.size_limit p.pool_memory_size)) [
    | inl full ↦ rw full (alloc_through-Owns (free_all a p) size out (free_all-Owns p out h).0)
    | inr room ↦ rw room (alloc_through-Owns p size out h)
  ]

  alloc_bucket-Owns :
      (p : PoolAllocator a) (size : ℕ) (out ptrs : List ℕ)
      → ltb 0 p.size_limit ≡ true
      → bucket size p.pool ≡ ptrs
      → Owns p out
      → Owns ((alloc a p size).value).1 (((alloc a p size).value).0 ∷ out)
  unfolding alloc
  alloc_bucket-Owns p size out [] on e h = rw (on, e) (alloc_miss-Owns p size out h)
  alloc_bucket-Owns p size out (buf ∷ ptrs) on e h =
      rw (on, e)
        (Perm.trans h (
          Perm.trans (Perm.append (pooled-assign_pop size buf ptrs p.pool e) (Perm.refl out))
            (Perm.symm (perm_middle (pooled (assign size ptrs p.pool)) out))))

  -- Whatever branch it takes, `alloc` adds one block to those that the callers hold: one that no
  -- caller held and that is no longer in the pool.
  pub alloc-Owns :
      (p : PoolAllocator a) (size : ℕ) (out : List ℕ)
      → Owns p out
      → Owns ((alloc a p size).value).1 (((alloc a p size).value).0 ∷ out)
  unfolding alloc
  alloc-Owns p size out h = elim (Bool-cases (ltb 0 p.size_limit)) [
    | inl on ↦ alloc_bucket-Owns p size out (bucket size p.pool) on refl h
    | inr off ↦ rw off (alloc_through-Owns p size out h)
  ]

  -- `free` of a block that a caller holds gives it to the pool, or to the allocator if there is no
  -- pool.
  pub free-Owns :
      (p : PoolAllocator a) (ptr size : ℕ) (out : List ℕ)
      → Owns p (ptr ∷ out)
      → Owns (free a p ptr size) out
  unfolding free
  free-Owns p ptr size out h = elim (Bool-cases (ltb 0 p.size_limit)) [
    | inl on ↦ rw on (
        Perm.trans h (
          Perm.trans (perm_middle (pooled p.pool) out)
            (Perm.append (Perm.symm (pooled-assign_push size ptr _ p.pool refl)) (Perm.refl out))))
    | inr off ↦ rw off (
        live-free p.allocator ptr (pooled p.pool ++ out)
          (Perm.trans h (perm_middle (pooled p.pool) out)))
  ]

-- One call of a caller: it allocates, or it frees the block that it holds at the given place.
pub data Call : Type 0 where
  allocs : ℕ → Call
  frees : ℕ → ℕ → Call

-- The block at a place, and the others; `none` if nobody holds a block there.
pick : List ℕ → ℕ → Option (ℕ × List ℕ)
pick [] i = none
pick (x ∷ xs) zero = some (x, xs)
pick (x ∷ xs) (suc i) = elim (pick xs i) [ none ↦ none | some (y, ys) ↦ some (y, x ∷ ys) ]

pick-perm : (xs : List ℕ) (i y : ℕ) (ys : List ℕ) → pick xs i ≡ some (y, ys) → Perm xs (y ∷ ys)
unfolding pick
pick-perm [] i y ys h = cc
pick-perm (x ∷ xs) zero y ys h =
    let e : x ≡ y = ground arith in let f : xs ≡ ys = ground arith in rw (e, f) (Perm.refl _)
pick-perm (x ∷ xs) (suc i) y ys h = elim (Option-cases (pick xs i)) [
  | inl e ↦ let bad : ◌≡◌ {A = Option (ℕ × List ℕ)} none (some (y, ys)) = rw (e, pick) at h in cc
  | inr (r, e) ↦
      let same : ◌≡◌ {A = Option (ℕ × List ℕ)} (some (r.0, x ∷ r.1)) (some (y, ys)) =
        rw (e, pick) at h in
      let e₀ : r.0 ≡ y = ground arith in
      let e₁ : x ∷ r.1 ≡ ys = ground arith in
      rw (← e₀, ← e₁) (Perm.trans (Perm.cons x (pick-perm xs i r.0 r.1 e)) (Perm.swap r.0 x r.1))
]

module _ (a : Allocator) where
  -- The pool and the blocks held after one call. Freeing what nobody holds is not done.
  pub step : PoolAllocator a × List ℕ → Call → PoolAllocator a × List ℕ
  unfolding pick
  step (p, out) (allocs size) = let r = (alloc a p size).value in (r.1, r.0 ∷ out)
  step (p, out) (frees i size) = elim (pick out i) [
    | none ↦ (p, out)
    | some (ptr, rest) ↦ (free a p ptr size, rest)
  ]

  pub run : PoolAllocator a × List ℕ → List Call → PoolAllocator a × List ℕ
  run s [] = s
  run s (c ∷ cs) = run (step s c) cs

module _ (a : Allocator) (t : Tracks a) where
  step-Owns :
      (p : PoolAllocator a) (out : List ℕ) (c : Call)
      → Owns a t p out
      → Owns a t (step a (p, out) c).0 (step a (p, out) c).1
  unfolding step
  step-Owns p out (allocs size) h = alloc-Owns a t p size out h
  step-Owns p out (frees i size) h = elim (Option-cases (pick out i)) [
    | inl e ↦ rw (e, step) h
    | inr (r, e) ↦
        rw (e, step)
          (free-Owns a t p r.0 size r.1
            (Perm.trans h (Perm.append (Perm.refl _) (pick-perm out i r.0 r.1 e))))
  ]

  run-Owns :
      (p : PoolAllocator a) (out : List ℕ) (cs : List Call)
      → Owns a t p out
      → Owns a t (run a (p, out) cs).0 (run a (p, out) cs).1
  unfolding run
  run-Owns p out [] h = h
  run-Owns p out (c ∷ cs) h =
      run-Owns (step a (p, out) c).0 (step a (p, out) c).1 cs (step-Owns p out c h)

  -- After any history of a new pool, the live blocks of the allocator are exactly the pooled blocks
  -- and those that the callers hold, each counted once: none is lost, and none is handed out twice. The
  -- allocator keeps track of its live blocks and starts with none; callers free what they hold, under
  -- any size.
  pub run-new_pool-Owns :
      (s : a.State) (limit : ℕ) (cs : List Call)
      → t.live s ≡ []
      → Owns a t (run a (new_pool a s limit, []) cs).0 (run a (new_pool a s limit, []) cs).1
  unfolding new_pool pooled
  run-new_pool-Owns s limit cs e = run-Owns (new_pool a s limit) [] cs (rw e (Perm.refl _))
