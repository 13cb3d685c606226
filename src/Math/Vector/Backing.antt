-- ===== src/Math/Vector/Backing.antt =====
-- Whether a vector's elements lie in memory that it may use.
use ccml.Base.{
  ℕ, ◌+◌, ◌-◌, ◌*◌, ◌%◌, ◌^◌, ◌≤◌, ◌<◌, ◌≡◌, ◌↔◌, refl, false, [], Option, none, some, leb, ltb,
  arith, le→not-ltb, Bool-cases, inl, inr,
}
use ccml.Utils.Logging.{cc_check}
use ccml.Utils.Logging.Quiet.{◌⨾◌, quiet_end}
use ccml.Math.Memory.{MemoryHandle}
use ccml.Math.Vector.{
  Pointer, at_index, VectorT, start_of, get_size, too_small, with_memory, resize, sub_vec_from,
  sub_vec_from_interval,
}

-- The pointer is the start of the handle's memory, which has so many bytes.
abbrev pub Holds : Pointer → ℕ → Option MemoryHandle → Type 0
Holds p bytes none = ⊥
Holds p bytes (some h) = (p ≡ start_of h) × (bytes ≤ h.alloc_size)

-- The vector's elements are the first ones in memory of its own.
abbrev pub IsBacked : ℕ → VectorT → Type 0
IsBacked sizeof v = Holds v.data_ptr (v.width * sizeof) v.memory_handle

-- It stands at the start of its memory, or has none yet.
abbrev pub AtStart : Pointer → Option MemoryHandle → Type 0
AtStart p none = Unit {0}
AtStart p (some h) = p ≡ start_of h

too_small-Holds :
    (sizeof : ℕ) (new_memory : ℕ → MemoryHandle) (p : Pointer) (o : Option MemoryHandle) (bytes : ℕ)
    → AtStart p o
    → too_small sizeof new_memory o bytes ≡ false
    → Holds p bytes o
unfolding too_small
too_small-Holds sizeof new_memory p none bytes start h = cc
too_small-Holds sizeof new_memory p (some m) bytes start h = (start, ground arith)

-- A vector that has no memory, or stands at the start of its own, has after `resize` the new size
-- and all its elements in memory of its own. The size in bytes is below 2 ^ 64, and new memory
-- has as many bytes as were asked for.
pub resize-IsBacked :
    (sizeof : ℕ) (new_memory : ℕ → MemoryHandle) (v : VectorT) (new_size : ℕ)
    → new_size * sizeof < 2 ^ 64
    → new_size * sizeof ≤ (new_memory (new_size * sizeof)).alloc_size
    → AtStart v.data_ptr v.memory_handle
    → IsBacked sizeof (resize sizeof new_memory v new_size)
      × (get_size (resize sizeof new_memory v new_size) ≡ new_size)
unfolding resize with_memory get_size
resize-IsBacked sizeof new_memory v new_size small enough start =
    let same : (new_size * sizeof) % 2 ^ 64 ≡ new_size * sizeof = omega arith in
    rw same (elim (Bool-cases (too_small sizeof new_memory v.memory_handle (new_size * sizeof))) [
      | inl e ↦ rw e ((refl, enough), refl)
      | inr e ↦ rw e (
        too_small-Holds sizeof new_memory v.data_ptr v.memory_handle (new_size * sizeof) start e,
        refl,
      )
    ])

-- `resize` of a vector that was made a part of another one: if its memory has the bytes, it still
-- stands in the other one and has the new size, however few elements are there.
pub resize-sub_vec_from :
    (sizeof : ℕ) (new_memory : ℕ → MemoryHandle) (v src : VectorT) (h : MemoryHandle)
    (start size new_size : ℕ)
    → v.memory_handle ≡ some h
    → new_size * sizeof ≤ h.alloc_size
    → h.alloc_size < 2 ^ 64
    → ((resize sizeof new_memory (sub_vec_from v src start size).value new_size).data_ptr
        ≡ at_index src.data_ptr start)
      × (get_size (resize sizeof new_memory (sub_vec_from v src start size).value new_size)
          ≡ new_size)
unfolding resize sub_vec_from get_size too_small
resize-sub_vec_from sizeof new_memory v src h start size new_size e fits small =
    let same : (new_size * sizeof) % 2 ^ 64 ≡ new_size * sizeof = omega arith in
    rw (same, e, le→not-ltb h.alloc_size (new_size * sizeof) fits) (refl, refl)

check_lt : (m n : ℕ) → ((cc_check (ltb m n) "Vector.h" 97).log ≡ []) ↔ (m < n)
check_lt m n = ground arith

check_le : (m n : ℕ) → ((cc_check (leb m n) "Vector.h" 98).log ≡ []) ↔ (m ≤ n)
check_le m n = ground arith

-- `sub_vec_from` with an interval logs nothing exactly when it starts inside of the other vector and ends
-- there, also when it ends before it starts: the size is then the length modulo 2 ^ 64.
pub sub_vec_from_interval-quiet :
    (v src : VectorT) (first second : ℕ)
    → first < 2 ^ 64
    → second < 2 ^ 64
    → (((sub_vec_from_interval v src (first, second)).log ≡ [])
        ↔ ((first < get_size src) × (second ≤ get_size src)))
      × (get_size (sub_vec_from_interval v src (first, second)).value
          ≡ (second + 2 ^ 64 - first) % 2 ^ 64)
unfolding sub_vec_from_interval sub_vec_from get_size
sub_vec_from_interval-quiet v src first second f s =
    (rw same (quiet_end (check_lt first src.width ⨾ check_le second src.width)), refl)
  where
    same : (first + (second + 2 ^ 64 - first) % 2 ^ 64) % 2 ^ 64 ≡ second
    same = omega arith
