-- ===== src/Core/Message/Words.antt =====
-- Words and arrays of words are read back from their bytes.
use native.Mathlib.Nat.{pow-suc}
use ccml.Base.{
  ℕ, zero, suc, ◌*◌, ◌/◌, ◌^◌, ◌<◌, ◌≡◌, refl, ap, List, [], ◌∷◌, ◌++◌, length, sum, length-append,
  arith, All,
}
use ccml.Core.Channel.{Bytes}
use ccml.Core.Message.{bytes_of, word_of, words_bytes, words_of}

pub length-bytes_of : (k n : ℕ) → length (bytes_of k n) ≡ k
unfolding bytes_of
length-bytes_of zero n = refl
length-bytes_of (suc k) n = ap suc (length-bytes_of k (n / 256))

word_of-bytes_of : (k n : ℕ) → n < 256 ^ k → word_of (bytes_of k n) ≡ n
unfolding bytes_of word_of
word_of-bytes_of zero n h = omega arith
word_of-bytes_of (suc k) n h =
    omega (arith, word_of-bytes_of k (n / 256) (omega (arith, pow-suc 256 k)))

pub word_of-bytes_of8 : (n : ℕ) → n < 2 ^ 64 → word_of (bytes_of 8 n) ≡ n
word_of-bytes_of8 n h = word_of-bytes_of 8 n h

pub length-words_bytes : (ws : List ℕ) → length (words_bytes ws) ≡ length ws * 8
unfolding words_bytes
length-words_bytes [] = refl
length-words_bytes (w ∷ ws) = omega (
  arith,
  length-append (bytes_of 8 w) (words_bytes ws),
  length-bytes_of 8 w,
  length-words_bytes ws,
)

-- The first eight bytes are the first word.
words_of-bytes_of :
    (n w : ℕ) (bs : Bytes)
    → words_of (suc n) (bytes_of 8 w ++ bs) ≡ word_of (bytes_of 8 w) ∷ words_of n bs
unfolding words_of bytes_of
words_of-bytes_of n w bs = refl

words_bytes-cons : (w : ℕ) (ws : List ℕ) → words_bytes (w ∷ ws) ≡ bytes_of 8 w ++ words_bytes ws
unfolding words_bytes
words_bytes-cons w ws = refl

-- An array of words is read back from its bytes.
pub words_of-words_bytes :
    (ws : List ℕ) → All (λ w. w < 2 ^ 64) ws → words_of (length ws) (words_bytes ws) ≡ ws
words_of-words_bytes [] h = unfold words_of in refl
words_of-words_bytes (w ∷ ws) h = rw (
  words_bytes-cons w ws,
  words_of-bytes_of (length ws) w (words_bytes ws),
  word_of-bytes_of8 w h.0,
  words_of-words_bytes ws h.1,
)

pub below_sum : (n : ℕ) (ws : List ℕ) → sum ws < n → All (λ w. w < n) ws
below_sum n [] h = tt
below_sum n (w ∷ ws) h = (omega arith, below_sum n ws (omega arith))
