-- ===== src/Core/Channel/Buffer.antt =====
-- `read` and `write` of a whole buffer.
use ccml.Base.{
  ℕ, ◌+◌, ◌-◌, ◌≤◌, ◌<◌, ◌≡◌, sym, ap, ◌∙◌, List, [], ◌∷◌, ◌++◌, append_assoc, append-nil, some,
  length, take, length-append, le→not-ltb, arith, take-all, take-more, subst, ◌⊎◌, inl, inr,
}
use ccml.Utils.Logging.{Logged, quiet}
use ccml.Core.Channel.{
  Bytes, Answer, failed, got, read_loop, read, Written, write_failed, wrote, write_loop, write,
}

-- The answers, up to `rest`, deliver these bytes in parts of at least one byte.
pub data Fills : Bytes → List Answer → List Answer → Type 0 where
  full : {rest : List Answer} → Fills [] rest rest
  part :
      {bytes all : Bytes} {answers rest : List Answer} (chunk : Bytes)
      → 0 < length chunk
      → all ≡ chunk ++ bytes
      → Fills bytes answers rest
      → Fills all (got chunk ∷ answers) rest

read_loop-stop :
    (total : ℕ) (buf : Bytes) (size : ℕ) (answers : List Answer)
    → size ≤ total
    → read_loop total buf size answers
      ≡ some (quiet (record { total = total; moved = buf; rest = answers }))
unfolding read_loop
read_loop-stop total buf size [] h = rw (le→not-ltb total size h)
read_loop-stop total buf size (failed ∷ later) h = rw (le→not-ltb total size h)
read_loop-stop total buf size (got b ∷ later) h = rw (le→not-ltb total size h)

read_loop-part :
    (total : ℕ) (buf : Bytes) (size : ℕ) (chunk : Bytes) (answers : List Answer)
    → total < size
    → 0 < length chunk
    → read_loop total buf size (got chunk ∷ answers)
      ≡ read_loop (total + length chunk) (buf ++ chunk) size answers
unfolding read_loop
read_loop-part total buf size chunk answers h k = ground arith

read_loop-Fills :
    (total : ℕ) (buf : Bytes) (size : ℕ) {bytes : Bytes} {answers rest : List Answer}
    → Fills bytes answers rest
    → total + length bytes ≡ size
    → read_loop total buf size answers
      ≡ some (quiet (record { total = size; moved = buf ++ bytes; rest = rest }))
read_loop-Fills total buf size full e =
    let same : total ≡ size = omega arith in
    rw (append-nil buf, same) (read_loop-stop size buf size _ (omega arith))
read_loop-Fills total buf size (part {bytes} {all} {answers} {rest} chunk pos eq fills) e =
    let split : length all ≡ length chunk + length bytes =
      ap length eq ∙ length-append chunk bytes in
    read_loop-part total buf size chunk answers (omega arith) pos
    ∙ (read_loop-Fills (total + length chunk) (buf ++ chunk) size fills (omega arith)
        ∙ ap (λ b. some (quiet (record { total = size; moved = b; rest = rest })))
            (append_assoc buf chunk bytes ∙ ap (◌++◌ buf) (sym eq)))

-- `read` of so many bytes returns them all, in order, however the kernel cuts them into parts, logs
-- nothing and leaves the later answers.
pub read-Fills :
    {bytes : Bytes} {answers rest : List Answer}
    → Fills bytes answers rest
    → read (length bytes) answers
      ≡ some (quiet (record { total = length bytes; moved = bytes; rest = rest }))
unfolding read
read-Fills {bytes} fills = read_loop-Fills 0 [] (length bytes) fills (omega arith)

-- The kernel never takes more bytes than it is given.
abbrev pub Takes : ℕ → List Written → Type 0
Takes left [] = Unit {0}
Takes left (write_failed ∷ answers) = Unit {0}
Takes left (wrote n ∷ answers) = (n ≤ left) × Takes (left - n) answers

-- It takes at least one byte each time, and goes on until it has them all.
abbrev pub TakesAll : ℕ → List Written → Type 0
TakesAll left [] = left ≡ 0
TakesAll left (write_failed ∷ answers) = left ≡ 0
TakesAll left (wrote n ∷ answers) =
    (left ≡ 0) ⊎ ((0 < n) × (n ≤ left) × TakesAll (left - n) answers)

write_loop-wire :
    (buf : Bytes) (total : ℕ) (answers : List Written) (r : Logged (ℕ × Bytes))
    → total ≤ length buf
    → Takes (length buf - total) answers
    → write_loop buf total (take total buf) answers ≡ some r
    → (r.value.1 ≡ take r.value.0 buf) × (r.value.0 ≤ length buf)
unfolding write_loop
write_loop-wire buf total [] r le t h = ground arith
write_loop-wire buf total (write_failed ∷ answers) r le t h = ground arith
write_loop-wire buf total (wrote n ∷ answers) r le t h = ground (
  arith,
  take-more total n buf,
  write_loop-wire buf (total + n) answers r (omega arith) (subst (λ k. Takes k answers) same t.1),
)
  where
    same : length buf - total - n ≡ length buf - (total + n)
    same = omega arith

-- Whatever the kernel answers, when `write` returns, the wire has exactly the first bytes of the
-- buffer, as many as `write` says, if the kernel never takes more than it is given.
pub write-wire :
    (buf : Bytes) (answers : List Written) (r : Logged (ℕ × Bytes))
    → Takes (length buf) answers
    → write buf answers ≡ some r
    → (r.value.1 ≡ take r.value.0 buf) × (r.value.0 ≤ length buf)
unfolding write
write-wire buf answers r t h =
    let e : length buf ≡ length buf - 0 = omega arith in
    write_loop-wire buf 0 answers r (omega arith) (subst (λ k. Takes k answers) e t) h

write_loop-all :
    (buf : Bytes) (total : ℕ) (answers : List Written)
    → total ≤ length buf
    → TakesAll (length buf - total) answers
    → write_loop buf total (take total buf) answers ≡ some (quiet (length buf, buf))
unfolding write_loop
write_loop-all buf total [] le t = ground (arith, take-all total buf)
write_loop-all buf total (write_failed ∷ answers) le t = ground (arith, take-all total buf)
write_loop-all buf total (wrote n ∷ answers) le (inl e) = ground (arith, take-all total buf)
write_loop-all buf total (wrote n ∷ answers) le (inr (pos, fits, t)) =
    let same : length buf - total - n ≡ length buf - (total + n) = omega arith in
    ground (
      arith,
      take-more total n buf,
      write_loop-all buf (total + n) answers (omega arith) (subst (λ k. TakesAll k answers) same t),
    )

-- If the kernel takes at least one byte each time until it has all, `write` returns the length of
-- the buffer, with no message and the whole buffer on the wire.
pub write-all :
    (buf : Bytes) (answers : List Written)
    → TakesAll (length buf) answers
    → write buf answers ≡ some (quiet (length buf, buf))
unfolding write
write-all buf answers t =
    let e : length buf ≡ length buf - 0 = omega arith in
    write_loop-all buf 0 answers (omega arith) (subst (λ k. TakesAll k answers) e t)
