-- ===== src/Core/Channel.antt =====
-- src/core/SocketChannel.h and src/core/SocketChannel.cpp: reading and writing whole buffers over a socket
-- that moves a part at a time, vectored transfers, and framed messages. What the kernel answers to
-- each system call is a list that the functions take; where it ends the thread waits for good,
-- which is `none`.
pub mod Buffer
pub mod Skip
pub mod Rounds
pub mod Vectored
pub mod Progress
use ccml.Base.{
  ℕ, zero, suc, ◌+◌, ◌-◌, ◌*◌, ◌/◌, ◌%◌, ◌^◌, Bool, true, false, not, ◌&&◌, List, [], ◌∷◌, ◌++◌,
  map, Option, none, some, length, take, drop, get_elem?, sum, ltb, leb, ◌==◌, if◌then◌else◌, min,
}
use ccml.Utils.Logging.{LogMessage, Logged, cc_check, ◌>>=◌, ◌>>◌, quiet}

abbrev pub Bytes : Type 0
Bytes = List ℕ

-- What `::read` did: it failed (-1), or it stored so many bytes, none at the end of the stream.
pub data Answer : Type 0 where
  failed : Answer
  got : Bytes → Answer

-- What a call returns, what it moved, and the answers that are left for later calls.
pub record Transfer {ℓ} (A : Type ℓ) : Type ℓ where
  pub total : ℕ
  pub moved : List A
  pub rest : List Answer

-- `SocketChannel::read` from `total` on; `buf` is what the buffer holds by then.
pub read_loop : ℕ → Bytes → ℕ → List Answer → Option (Logged (Transfer ℕ))
read_loop total buf size [] =
    if ltb total size then none else some (quiet (record { total = total; moved = buf; rest = [] }))
read_loop total buf size (failed ∷ answers) =
    if ltb total size
    then some (
        cc_check false "SocketChannel.cpp" 24
        >> quiet (record { total = total; moved = buf; rest = answers }))
    else some (quiet (record { total = total; moved = buf; rest = failed ∷ answers }))
read_loop total buf size (got bytes ∷ answers) =
    let go_on = read_loop (total + length bytes) (buf ++ bytes) size answers in
    if ltb total size
    then (if length bytes == 0
        then some (quiet (record { total = total; moved = buf; rest = answers }))
        else go_on)
    else some (quiet (record { total = total; moved = buf; rest = got bytes ∷ answers }))

pub read : ℕ → List Answer → Option (Logged (Transfer ℕ))
unfolding read_loop
read size answers = read_loop 0 [] size answers

-- What `::write` did: it failed, or took so many bytes of those that it was given.
pub data Written : Type 0 where
  write_failed : Written
  wrote : ℕ → Written

-- `SocketChannel::write` from `total` on: the number of bytes written, and the bytes on the wire.
pub write_loop : Bytes → ℕ → Bytes → List Written → Option (Logged (ℕ × Bytes))
write_loop buf total wire [] = if ltb total (length buf) then none else some (quiet (total, wire))
write_loop buf total wire (write_failed ∷ answers) =
    if ltb total (length buf)
    then some (cc_check false "SocketChannel.cpp" 37 >> quiet (total, wire))
    else some (quiet (total, wire))
write_loop buf total wire (wrote n ∷ answers) =
    let go_on = write_loop buf (total + n) (wire ++ take n (drop total buf)) answers in
    if ltb total (length buf)
    then (if n == 0 then some (quiet (total, wire)) else go_on)
    else some (quiet (total, wire))

unfoldable pub write : Bytes → List Written → Option (Logged (ℕ × Bytes))
unfolding write_loop
write buf answers = write_loop buf 0 [] answers

-- An `iovec`: a pointer into a buffer, by the cells before it and the `iov_len` cells from it on. A
-- cell is what the transfer is about: a byte to send, or a place to store one.
pub record Iovec {ℓ} (A : Type ℓ) : Type ℓ where
  pub before : List A
  pub cells : List A

module _ {ℓ} {A : Type ℓ} where
  abbrev pub iov_len : Iovec A → ℕ
  iov_len v = length v.cells

  -- A pointer to the start of a buffer.
  abbrev pub whole : List A → Iovec A
  whole cells = record { before = []; cells = cells }

  -- `iov_base + n`, `iov_len - n`
  unfoldable pub advance : ℕ → Iovec A → Iovec A
  advance n v = record { before = v.before ++ take n v.cells; cells = drop n v.cells }

  -- `iov_base - n`, `iov_len + n`
  pub retreat : ℕ → Iovec A → Iovec A
  retreat n v =
      let k = length v.before - n in
      record { before = take k v.before; cells = drop k v.before ++ v.cells }

  abbrev pub total_len : List (Iovec A) → ℕ
  total_len [] = 0
  total_len (v ∷ vs) = iov_len v + total_len vs

  -- What is left to move.
  abbrev pub cells_of : List (Iovec A) → List A
  cells_of [] = []
  cells_of (v ∷ vs) = v.cells ++ cells_of vs

  -- The inner `while`: steps over the vectors that are done with. Returns those passed, newest
  -- first, the others, and what is left of `length`.
  pub skip : List (Iovec A) → List (Iovec A) → ℕ → List (Iovec A) × List (Iovec A) × ℕ
  skip passed [] n = (passed, [], n)
  skip passed (v ∷ vs) n =
      let rest = skip (v ∷ passed) vs ((n + 2 ^ 64 - iov_len v) % 2 ^ 64) in
      if ltb n (iov_len v) then (passed, v ∷ vs, n) else rest

-- `UIO_MAXIOV`
abbrev pub uio_maxiov : ℕ
uio_maxiov = 1024

-- A size that is passed as an `int`, as far as a loop from 0 counts: a negative `int` counts as 0.
unfoldable pub int_count : ℕ → ℕ
int_count n = let w = n % 2 ^ 32 in if ltb w (2 ^ 31) then w else 0

-- What `::readv` or `::writev` did: it failed (-1), or it moved so many cells.
pub data Io : Type 0 where
  io_failed : Io
  io : ℕ → Io

-- The result as a `size_t`.
abbrev pub io_word : Io → ℕ
io_word io_failed = 2 ^ 64 - 1
io_word (io n) = n

-- `length > 0` for the signed result
abbrev pub io_positive : Io → Bool
io_positive io_failed = false
io_positive (io n) = ltb 0 n

-- What a vectored transfer did: the bytes counted, the cells moved in order, the array of vectors.
pub record Vectors {ℓ} (A : Type ℓ) : Type ℓ where
  pub size : ℕ
  pub moved : List A
  pub iovs : List (Iovec A)

module _ {ℓ} {A : Type ℓ} where
  abbrev pub io_moved : Io → List A → List A
  io_moved io_failed cells = []
  io_moved (io n) cells = take n cells

  -- `xs`, turned round, in front of `ys`
  abbrev pub unwind : List (Iovec A) → List (Iovec A) → List (Iovec A)
  unwind [] ys = ys
  unwind (x ∷ xs) ys = unwind xs (x ∷ ys)

  -- The vectors from `current_iov` on and `current_iov_size_done`, at the end of a round.
  pub settle : List (Iovec A) → ℕ → ℕ → List (Iovec A) × ℕ
  unfolding advance
  settle [] n done = ([], done)
  settle (v ∷ vs) n done = (advance n v ∷ vs, n)

  -- A round's check of the answer, logged before what the later rounds log.
  pub checked : Io → Option (Logged (Vectors A)) → Option (Logged (Vectors A))
  checked a none = none
  checked a (some r) = some (cc_check (io_positive a) "SocketChannel.cpp" 65 >> r)

  -- The loop of `readwritev`: `left` are the vectors from `current_iov` on, `passed` those before it.
  -- With no vector left `iovs[current_iov]` is past the array, which is `none` too.
  pub readwritev_loop :
      ℕ
      → ℕ
      → ℕ
      → List (Iovec A)
      → List (Iovec A)
      → ℕ
      → List A
      → List Io
      → Option (Logged (Vectors A))
  unfolding skip retreat settle checked
  readwritev_loop max size total passed left done moved [] =
      if ltb size total
      then none
      else some (quiet (record { size = size; moved = moved; iovs = unwind passed left }))
  readwritev_loop max size total passed [] done moved (a ∷ answers) =
      if ltb size total
      then none
      else some (quiet (record { size = size; moved = moved; iovs = unwind passed [] }))
  readwritev_loop max size total passed (v ∷ vs) done moved (a ∷ answers) =
      let offered = take (min (length (v ∷ vs)) max) (v ∷ vs) in
      let (passed', left', n) = skip passed (retreat done v ∷ vs) ((io_word a + done) % 2 ^ 64) in
      let (left'', done') = settle left' n done in
      let go_on =
        readwritev_loop max ((size + io_word a) % 2 ^ 64) total passed' left'' done'
          (moved ++ io_moved a (cells_of offered)) answers in
      if ltb size total
      then checked a go_on
      else some (quiet (record { size = size; moved = moved; iovs = unwind passed (v ∷ vs) }))

  -- What lies in the array behind the vectors that the loop is given is not touched.
  pub array_with : List (Iovec A) → Option (Logged (Vectors A)) → Option (Logged (Vectors A))
  array_with rest none = none
  array_with rest (some r) = some (r >>= λ v. quiet (record v { iovs = v.iovs ++ rest }))

  -- `readv` and `writev`: the vectors that `num_iovs` counts are moved. That number and `current_iov`
  -- are an `int` from 0 on, so `num_iovs - current_iov` is the number of those left. Past the vectors
  -- counted the array is taken to end, which it does if there are less than 2 ^ 32.
  pub readwritev : ℕ → List (Iovec A) → List Io → Option (Logged (Vectors A))
  unfolding readwritev_loop array_with
  readwritev max iovs answers =
      let counted = take (int_count (length iovs)) iovs in
      array_with (drop (int_count (length iovs)) iovs)
        (readwritev_loop max 0 (total_len counted % 2 ^ 64) [] counted 0 [] answers)
