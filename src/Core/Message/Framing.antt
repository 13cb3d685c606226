-- ===== src/Core/Message/Framing.antt =====
-- `write_message` and `read_message` agree on the frame of a message.
use ccml.Base.{
  ℕ, ◌+◌, ◌-◌, ◌*◌, ◌%◌, ◌^◌, ◌<◌, ◌≤◌, ◌≡◌, refl, sym, ap, ◌∙◌, true, false, List, [], ◌∷◌, ◌++◌,
  map, flatten, append-nil, some, length, take, drop, sum, length-append, length-map, ◌==◌, ==-refl,
  arith, drop-all,
}
use ccml.Utils.Logging.{quiet, cc_check, ◌>>◌}
use ccml.Core.Channel.{Bytes, Answer, whole, total_len, cells_of, Io, Vectors, uio_maxiov}
use ccml.Core.Channel.Buffer.{Fills, read-Fills}
use ccml.Core.Channel.Rounds.{Serves}
use ccml.Core.Channel.Vectored.{readwritev-Serves, readwritev-negative}
use ccml.Core.Message.{
  bytes_of, word_of, words_bytes, words_of, header_size, header_bytes, message_iovs, message_length,
  sent, write_message, new_reader, check_length, read_lengths, read_message, lengths_read,
  header_read,
}
use ccml.Core.Message.Words.{
  length-bytes_of, word_of-bytes_of8, length-words_bytes, words_of-words_bytes, below_sum,
}

total_len-whole : (bs : List Bytes) → total_len (map whole bs) ≡ sum (map length bs)
total_len-whole [] = refl
total_len-whole (b ∷ bs) = ap (λ n. length b + n) (total_len-whole bs)

cells_of-whole : (bs : List Bytes) → cells_of (map whole bs) ≡ flatten bs
unfolding flatten
cells_of-whole [] = refl
cells_of-whole (b ∷ bs) = ap (◌++◌ b) (cells_of-whole bs)

-- The bytes of the header, of the lengths and of the blocks.
total_len-message_iovs :
    (n : ℕ) (user : List Bytes)
    → total_len (message_iovs n user) ≡ header_size + length user * 8 + sum (map length user)
unfolding message_iovs header_bytes
total_len-message_iovs n user = omega (
  arith,
  length-append (bytes_of 8 n) (bytes_of 8 (length user)),
  length-bytes_of 8 n,
  length-bytes_of 8 (length user),
  length-words_bytes (map length user),
  length-map length user,
  total_len-whole user,
)

-- The message is small enough for the 64-bit words of its frame.
abbrev pub Fits : List Bytes → Type 0
Fits user = header_size + length user * 8 + sum (map length user) < 2 ^ 63

message_length_lem :
    (user : List Bytes)
    → Fits user
    → message_length user ≡ header_size + length user * 8 + sum (map length user)
unfolding message_length
message_length_lem user h = omega (arith, total_len-message_iovs 0 user)

sent-quiet : (n : ℕ) (v : Vectors ℕ) → v.size ≡ n → sent n (some (quiet v)) ≡ some (quiet v.moved)
unfolding sent
sent-quiet n v h = rw (h, ==-refl n)

-- A message that `write_message` can send: it fits, and `writev` gets the number of its vectors, two
-- more than its blocks, as an `int`.
abbrev pub Sendable : List Bytes → Type 0
Sendable user = Fits user × (length user + 2 < 2 ^ 31)

length-message_iovs : (n : ℕ) (user : List Bytes) → length (message_iovs n user) ≡ length user + 2
unfolding message_iovs
length-message_iovs n user = omega (arith, length-map (whole {A = ℕ}) user)

-- However the kernel cuts the transfer, `write_message` puts the header, the lengths of the blocks
-- and the blocks on the wire, in this order and whole, and logs nothing, for a message of less than
-- 2 ^ 63 bytes and less than 2 ^ 31 - 2 blocks.
pub write_message-Serves :
    (user : List Bytes) (answers : List Io)
    → Sendable user
    → Serves uio_maxiov (message_iovs (message_length user) user) answers
    → write_message user answers
      ≡ some (
          quiet (
            header_bytes (message_length user) (length user)
            ++ (words_bytes (map length user) ++ flatten user)))
unfolding write_message
write_message-Serves user answers (small, few) serves =
    ap (sent (message_length user)) (
      readwritev-Serves uio_maxiov (message_iovs (message_length user) user) answers
        (omega (arith, total_len-message_iovs (message_length user) user))
        (omega (arith, length-message_iovs (message_length user) user)) serves)
    ∙ (sent-quiet (message_length user) written total ∙ ap (λ b. some (quiet b)) cells)
  where
    written : Vectors ℕ
    written = record {
      size = total_len (message_iovs (message_length user) user);
      moved = cells_of (message_iovs (message_length user) user);
      iovs = message_iovs (message_length user) user;
    }

    total : total_len (message_iovs (message_length user) user) ≡ message_length user
    total =
        omega
          (arith, total_len-message_iovs (message_length user) user, message_length_lem user small)

    cells :
        cells_of (message_iovs (message_length user) user)
        ≡ header_bytes (message_length user) (length user)
          ++ (words_bytes (map length user) ++ flatten user)
    cells =
        unfold message_iovs in
        ap
          (λ b.
            header_bytes (message_length user) (length user)
            ++ (words_bytes (map length user) ++ b))
          (cells_of-whole user)

-- A message of so many blocks that the number of its vectors is negative as an `int`, from 2 ^ 31 - 2
-- blocks to less than 2 ^ 32 - 2, is not sent: `write_message` puts nothing on the wire, whatever the
-- kernel would answer, and only logs that its check failed. The message has less than 2 ^ 63 bytes.
pub write_message-negative :
    (user : List Bytes) (answers : List Io)
    → Fits user
    → 2 ^ 31 ≤ length user + 2
    → length user + 2 < 2 ^ 32
    → write_message user answers ≡ some (cc_check false "SocketChannel.cpp" 137 >> quiet [])
unfolding write_message sent
write_message-negative user answers small many below =
    let n : length (message_iovs (message_length user) user) ≡ length user + 2 =
      length-message_iovs (message_length user) user in
    let unequal : (0 == message_length user) ≡ false =
      ground (arith, message_length_lem user small) in
    ap (sent (message_length user)) (
      readwritev-negative uio_maxiov (message_iovs (message_length user) user) answers
        (omega arith))
    ∙ rw unequal refl

-- What `read_message` checks of the lengths.
check_length_lem :
    (user : List Bytes) (answers : List Answer)
    → Fits user
    → check_length
        (message_length user)
        (record { num_blocks = map length user; current_block_index = 0 }, answers)
      ≡ quiet (some (record { num_blocks = map length user; current_block_index = 0 }), answers)
unfolding check_length
check_length_lem user answers small = rw same
  where
    same :
        ((sum (map length user) % 2 ^ 64
              + header_size
              + (length (map length user) + 2 ^ 64 - 0) % 2 ^ 64 * 8)
            % 2 ^ 64
          == message_length user)
        ≡ true
    same = ground (arith, message_length_lem user small, length-map length user)

new_reader_lem :
    (user : List Bytes) (answers rest : List Answer)
    → Fits user
    → Fills (words_bytes (map length user)) answers rest
    → new_reader (length user) answers
      ≡ some (quiet (record { num_blocks = map length user; current_block_index = 0 }, rest))
unfolding new_reader lengths_read
new_reader_lem user answers rest small fills =
    let n : length (words_bytes (map length user)) ≡ length user * 8 =
      length-words_bytes (map length user) ∙ ap (λ k. k * 8) (length-map length user) in
    ap (lengths_read (length user)) (rw n at (read-Fills fills))
    ∙ rw (==-refl (length user * 8)) (
        ap (λ ws. some (quiet (record { num_blocks = ws; current_block_index = 0 }, rest)))
          (ap (λ k. words_of k (words_bytes (map length user))) (sym (length-map length user))
            ∙ words_of-words_bytes (map length user)
                (below_sum (2 ^ 64) (map length user) (omega arith))))

-- The two words of a header.
header_words :
    (m n : ℕ)
    → m < 2 ^ 64
    → n < 2 ^ 64
    → (word_of (take 8 (header_bytes m n)) ≡ m) × (word_of (drop 8 (header_bytes m n)) ≡ n)
header_words m n h k = (first ∙ word_of-bytes_of8 m h, second ∙ word_of-bytes_of8 n k)
  where
    first : word_of (take 8 (header_bytes m n)) ≡ word_of (bytes_of 8 m)
    first = unfold header_bytes bytes_of in refl

    second : word_of (drop 8 (header_bytes m n)) ≡ word_of (bytes_of 8 n)
    second = unfold header_bytes bytes_of in refl

-- `read_message` gets from the header and the lengths that `write_message` sends, however the kernel
-- cuts them, a reader that stands at the first block and has the lengths of all blocks; it logs
-- nothing and leaves the blocks to be read. The message has less than 2 ^ 63 bytes.
pub read_message-write_message :
    (user : List Bytes) (junk : Bytes) (answers middle rest : List Answer)
    → Fits user
    → length junk ≡ header_size
    → Fills (header_bytes (message_length user) (length user)) answers middle
    → Fills (words_bytes (map length user)) middle rest
    → read_message junk answers
      ≡ some (quiet (some (record { num_blocks = map length user; current_block_index = 0 }), rest))
unfolding read_message header_read read_lengths
read_message-write_message user junk answers middle rest small full head lengths =
    ap (header_read junk) (rw size at (read-Fills head))
    ∙ rw (
      size,
      drop-all header_size junk (omega arith),
      append-nil header,
      words.0,
      words.1,
      new_reader_lem user middle rest small lengths,
      check_length_lem user rest small,
    )
  where
    header : Bytes
    header = header_bytes (message_length user) (length user)

    size : length (header_bytes (message_length user) (length user)) ≡ header_size
    size = unfold header_bytes bytes_of in refl

    words :
        (word_of (take 8 (header_bytes (message_length user) (length user))) ≡ message_length user)
        × (word_of (drop 8 (header_bytes (message_length user) (length user))) ≡ length user)
    words =
        header_words (message_length user) (length user)
          (omega (arith, message_length_lem user small)) (omega arith)
