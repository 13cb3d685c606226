-- ===== src/Core/Channel/Progress.antt =====
-- How many of the kernel's answers a `read` takes.
use ccml.Base.{
  lt→ltb, ℕ, ◌+◌, ◌≤◌, ◌<◌, ◌≡◌, refl, List, [], ◌∷◌, ◌++◌, Option, none, some, length, arith,
}
use ccml.Utils.Logging.{Logged, quiet}
use ccml.Core.Channel.{Answer, Bytes, failed, got, Transfer, read_loop, read}

-- A result, if there is one, has this property.
abbrev pub Yields {ℓ} : {A : Type ℓ} → (A → Type 0) → Option (Logged A) → Type 0
Yields P none = Unit {0}
Yields P (some a) = P a.value

pub Yields-weaken {ℓ} :
    {A : Type ℓ} (P Q : A → Type 0) (o : Option (Logged A))
    → ((a : A) → P a → Q a)
    → Yields P o
    → Yields Q o
Yields-weaken P Q none f h = tt
Yields-weaken P Q (some a) f h = f a.value h

Yields-some {ℓ} :
    {A : Type ℓ} (P : A → Type 0) (o : Option (Logged A))
    → ((a : Logged A) → o ≡ some a → P a.value)
    → Yields P o
Yields-some P none f = tt
Yields-some P (some a) f = f a refl

-- A transfer has left fewer answers than there were, if it moved something.
abbrev pub Consumes : ℕ → Transfer ℕ → Type 0
Consumes n t = (length t.rest ≤ n) × (0 < t.total → length t.rest < n)

read_loop-rest :
    (total : ℕ) (buf : Bytes) (size : ℕ) (answers : List Answer) (t : Logged (Transfer ℕ))
    → read_loop total buf size answers ≡ some t
    → (length t.value.rest ≤ length answers)
      × (total ≤ t.value.total)
      × (total < t.value.total → length t.value.rest < length answers)
unfolding read_loop
read_loop-rest total buf size [] t h = ground arith
read_loop-rest total buf size (failed ∷ answers) t h = ground arith
read_loop-rest total buf size (got bytes ∷ answers) t h =
    ground (arith, read_loop-rest (total + length bytes) (buf ++ bytes) size answers t)

-- `read` leaves a part of the answers, and takes at least one for a byte.
pub read-Consumes :
    (size : ℕ) (answers : List Answer) → Yields (Consumes (length answers)) (read size answers)
unfolding read
read-Consumes size answers =
    Yields-some (Consumes (length answers)) (read_loop 0 [] size answers)
      (λ t h. let x = read_loop-rest 0 [] size answers t h in (x.0, x.2))

-- At the end of the stream `read` returns 0.
pub read-closed :
    (size : ℕ) (later : List Answer)
    → 0 < size
    → read size (got [] ∷ later) ≡ some (quiet (record { total = 0; moved = []; rest = later }))
unfolding read read_loop
read-closed size later h = rw (lt→ltb 0 size h) refl
