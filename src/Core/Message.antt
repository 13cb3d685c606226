-- ===== src/Core/Message.antt =====
-- src/core/SocketChannel.h and src/core/SocketChannel.cpp: framed messages. A message is a header of two
-- 64-bit words, its total length and its number of blocks, then a word for the length of each block,
-- then the blocks. Words are little endian, as the machine stores them.
pub mod Words
pub mod Framing
pub mod Reader
pub mod Progress
use ccml.Base.{
  ℕ, zero, suc, ◌+◌, ◌-◌, ◌*◌, ◌/◌, ◌%◌, ◌^◌, Bool, true, false, not, List, [], ◌∷◌, ◌++◌, map,
  Option, none, some, length, take, drop, get_elem?, sum, ltb, leb, ◌==◌, if◌then◌else◌,
}
use ccml.Utils.Logging.{LogMessage, Logged, cc_check, ◌>>=◌, ◌>>◌, quiet}
use ccml.Core.Channel.{
  Bytes, Answer, Transfer, read, Iovec, whole, total_len, Io, Vectors, readwritev, uio_maxiov,
}

-- The bytes of a word, lowest first, and back. Missing bytes count as 0.
pub bytes_of : ℕ → ℕ → Bytes
bytes_of zero n = []
bytes_of (suc k) n = n % 256 ∷ bytes_of k (n / 256)

pub word_of : Bytes → ℕ
word_of [] = 0
word_of (b ∷ bs) = b + 256 * word_of bs

-- An array of words.
unfoldable pub words_bytes : List ℕ → Bytes
unfolding bytes_of
words_bytes [] = []
words_bytes (w ∷ ws) = bytes_of 8 w ++ words_bytes ws

pub words_of : ℕ → Bytes → List ℕ
unfolding word_of
words_of zero bs = []
words_of (suc n) bs = word_of (take 8 bs) ∷ words_of n (drop 8 bs)

-- `sizeof(header)`
abbrev pub header_size : ℕ
header_size = 16

unfoldable pub header_bytes : ℕ → ℕ → Bytes
unfolding bytes_of
header_bytes total_length num_iovs = bytes_of 8 total_length ++ bytes_of 8 num_iovs

-- The vectors that `write_message` sends for the user's blocks.
unfoldable pub message_iovs : ℕ → List Bytes → List (Iovec ℕ)
unfolding header_bytes words_bytes
message_iovs total_length user =
    whole (header_bytes total_length (length user))
    ∷ whole (words_bytes (map length user))
    ∷ map whole user

-- `header.total_length`: the header is part of the vectors, whatever it holds.
pub message_length : List Bytes → ℕ
unfolding message_iovs
message_length user = total_len (message_iovs 0 user) % 2 ^ 64

-- The check of `write_message` on what `writev` returned.
pub sent : ℕ → Option (Logged (Vectors ℕ)) → Option (Logged Bytes)
sent total_length none = none
sent total_length (some r) =
    some (r >>= λ v. cc_check (v.size == total_length) "SocketChannel.cpp" 137 >> quiet v.moved)

-- `write_message`: what goes on the wire.
pub write_message : List Bytes → List Io → Option (Logged Bytes)
unfolding message_length sent
write_message user answers =
    sent (message_length user)
      (readwritev uio_maxiov (message_iovs (message_length user) user) answers)

pub record MessageReader : Type 0 where
  pub num_blocks : List ℕ
  pub current_block_index : ℕ

-- `get_num_blocks`, `get_total_length`
unfoldable pub get_num_blocks : MessageReader → ℕ
get_num_blocks r = (length r.num_blocks + 2 ^ 64 - r.current_block_index) % 2 ^ 64

pub get_total_length : MessageReader → ℕ
get_total_length r = sum (drop r.current_block_index r.num_blocks) % 2 ^ 64

-- `get_block_length`, which does not use its argument; `none` is a read past the end of the vector.
pub get_block_length : MessageReader → ℕ → Option ℕ
get_block_length r i = get_elem? r.num_blocks (r.current_block_index + 1)

pub get_next_block_length : MessageReader → Option ℕ
unfolding get_block_length
get_next_block_length r = get_block_length r 0

-- What the constructor of `MessageReader` makes of what it read.
pub lengths_read : ℕ → Option (Logged (Transfer ℕ)) → Option (Logged (MessageReader × List Answer))
unfolding words_of
lengths_read num_blocks none = none
lengths_read num_blocks (some r) = some (
    r >>= λ t.
    cc_check (t.total == num_blocks * 8) "SocketChannel.cpp" 144
    >> quiet (record { num_blocks = words_of num_blocks t.moved; current_block_index = 0 }, t.rest))

-- The constructor, which reads the lengths into a vector of zeros.
pub new_reader : ℕ → List Answer → Option (Logged (MessageReader × List Answer))
unfolding lengths_read
new_reader num_blocks answers = lengths_read num_blocks (read (num_blocks * 8) answers)

-- `CC_CHECK_EQ(message_reader->get_total_length() + sizeof(header) + …, header.total_length)`
pub check_length : ℕ → MessageReader × List Answer → Logged (Option MessageReader × List Answer)
unfolding get_total_length get_num_blocks
check_length total_length (r, answers) =
    cc_check ((get_total_length r + header_size + get_num_blocks r * 8) % 2 ^ 64 == total_length)
      "SocketChannel.cpp" 112
    >> quiet (some r, answers)

pub checked_reader :
    ℕ
    → Option (Logged (MessageReader × List Answer))
    → Option (Logged (Option MessageReader × List Answer))
unfolding check_length
checked_reader total_length none = none
checked_reader total_length (some r) = some (r >>= check_length total_length)

-- `read_message` after the header, whose bytes are given.
pub read_lengths : Bytes → List Answer → Option (Logged (Option MessageReader × List Answer))
unfolding new_reader checked_reader
read_lengths header answers =
    checked_reader (word_of (take 8 header)) (new_reader (word_of (drop 8 header)) answers)

-- `CC_CHECK(length == sizeof(header))`, logged before what comes later.
pub check_header :
    Logged (Transfer ℕ)
    → Option (Logged (Option MessageReader × List Answer))
    → Option (Logged (Option MessageReader × List Answer))
check_header t none = none
check_header t (some r) =
    some (t >>= λ u. cc_check (u.total == header_size) "SocketChannel.cpp" 109 >> r)

pub header_read :
    Bytes → Option (Logged (Transfer ℕ)) → Option (Logged (Option MessageReader × List Answer))
unfolding read_lengths check_header
header_read junk none = none
header_read junk (some t) =
    if t.value.total == 0
    then some (record { log = t.log; value = (none, t.value.rest) })
    else check_header t
        (read_lengths (t.value.moved ++ drop (length t.value.moved) junk) t.value.rest)

-- `read_message`. The reader is `none` at the end of the stream. `junk` is what the local `header`,
-- which is not initialised, holds before it is read.
pub read_message : Bytes → List Answer → Option (Logged (Option MessageReader × List Answer))
unfolding header_read
read_message junk answers = header_read junk (read header_size answers)

-- The bytes stored, the reader, and the answers left.
abbrev pub Block : Type 0
Block = Bytes × MessageReader × List Answer

-- `read_next_block` with the length that it asked for.
pub block_read : MessageReader → ℕ → Option (Logged (Transfer ℕ)) → Option (Logged Block)
block_read r len none = none
block_read r len (some t) = some (
    cc_check (ltb r.current_block_index (length r.num_blocks)) "SocketChannel.cpp" 163
    >> (t >>= λ u.
        cc_check (u.total == len) "SocketChannel.cpp" 164
        >> quiet (u.moved, record r { current_block_index = r.current_block_index + 1 }, u.rest)))

pub next_block : MessageReader → List Answer → Option ℕ → Option (Logged Block)
unfolding block_read
next_block r answers none = none
next_block r answers (some len) = block_read r len (read len answers)

-- `read_next_block`
pub read_next_block : MessageReader → List Answer → Option (Logged Block)
unfolding get_next_block_length next_block
read_next_block r answers = next_block r answers (get_next_block_length r)

-- The destructor's check that every block was read.
pub delete_reader : MessageReader → Logged (Unit {0})
delete_reader r = cc_check (r.current_block_index == length r.num_blocks) "SocketChannel.h" 60

-- One round of the loop of `read_blocks`: its length, in front of those of the other rounds.
pub lengths_step : Option ℕ → Option (List ℕ × MessageReader) → Option (List ℕ × MessageReader)
lengths_step none rest = none
lengths_step (some len) none = none
lengths_step (some len) (some (lens, r)) = some (len ∷ lens, r)

-- The lengths that the loop of `read_blocks` asks for, one for each buffer, and the reader then.
pub block_lengths : ℕ → MessageReader → Option (List ℕ × MessageReader)
unfolding get_next_block_length lengths_step
block_lengths zero r = some ([], r)
block_lengths (suc n) r =
    lengths_step (get_next_block_length r)
      (block_lengths n (record r { current_block_index = r.current_block_index + 1 }))

-- The places of a buffer: its number, and how far in.
pub places : ℕ → ℕ → ℕ → List (ℕ × ℕ)
places buf at zero = []
places buf at (suc len) = (buf, at) ∷ places buf (at + 1) len

pub buffers : ℕ → List ℕ → List (Iovec (ℕ × ℕ))
unfolding places
buffers buf [] = []
buffers buf (len ∷ lens) = whole (places buf 0 len) ∷ buffers (buf + 1) lens

-- The check of `read_blocks` on what `readv` returned, logged behind the first check.
pub blocks_read :
    Logged (Unit {0})
    → ℕ
    → MessageReader
    → Option (Logged (Vectors (ℕ × ℕ)))
    → Option (Logged (List (ℕ × ℕ) × MessageReader))
blocks_read before total r none = none
blocks_read before total r (some v) = some (
    before >> (v >>= λ w. cc_check (w.size == total) "SocketChannel.cpp" 159 >> quiet (w.moved, r)))

-- `read_blocks` with the lengths.
pub into_blocks :
    Logged (Unit {0})
    → List Io
    → Option (List ℕ × MessageReader)
    → Option (Logged (List (ℕ × ℕ) × MessageReader))
unfolding buffers blocks_read
into_blocks before answers none = none
into_blocks before answers (some (lens, r)) =
    blocks_read before (sum lens % 2 ^ 64) r (readwritev uio_maxiov (buffers 0 lens) answers)

-- `read_blocks` into so many buffers: the places filled, in order, and the reader.
pub read_blocks : ℕ → MessageReader → List Io → Option (Logged (List (ℕ × ℕ) × MessageReader))
unfolding block_lengths into_blocks
read_blocks n r answers =
    into_blocks
      (cc_check (leb ((r.current_block_index + n) % 2 ^ 64) (length r.num_blocks))
        "SocketChannel.cpp" 148)
      answers (block_lengths n r)
