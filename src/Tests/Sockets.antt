-- ===== src/Tests/Sockets.antt =====
-- The theorems on channels and messages at concrete inputs.
use ccml.Base.{
  ℕ, zero, suc, sum, ap, false, ◌^◌, ◌≤◌, ◌≡◌, refl, sym, append-nil, inr, List, [], ◌∷◌, ◌++◌, map,
  flatten, some, length, take, arith,
}
use ccml.Utils.Logging.{Logged, ◌>>◌, quiet, cc_check}
use ccml.Core.Channel.{
  Bytes, got, read, wrote, write, Iovec, whole, Io, io, readwritev, uio_maxiov, advance,
}
use ccml.Core.Channel.Buffer.{Fills, full, part, read-Fills, write-wire}
use ccml.Core.Channel.Skip.{consume}
use ccml.Core.Channel.Rounds.{Serves}
use ccml.Core.Channel.Vectored.{readwritev-Serves}
use ccml.Core.Message.{
  header_bytes, words_bytes, message_length, message_iovs, write_message, read_message,
}
use ccml.Core.Message.Framing.{
  Fits, write_message-Serves, write_message-negative, read_message-write_message,
}

-- Five bytes that come in two parts.
five : Fills (1 ∷ 2 ∷ 3 ∷ 4 ∷ 5 ∷ []) (got (1 ∷ 2 ∷ []) ∷ got (3 ∷ 4 ∷ 5 ∷ []) ∷ []) []
five = part (1 ∷ 2 ∷ []) (omega arith) refl (part (3 ∷ 4 ∷ 5 ∷ []) (omega arith) refl full)

read-Fills_example :
    read 5 (got (1 ∷ 2 ∷ []) ∷ got (3 ∷ 4 ∷ 5 ∷ []) ∷ [])
    ≡ some (quiet (record { total = 5; moved = 1 ∷ 2 ∷ 3 ∷ 4 ∷ 5 ∷ []; rest = [] }))
read-Fills_example = read-Fills five

abbrev sent_two : Logged (ℕ × Bytes)
sent_two = quiet (2, 1 ∷ 2 ∷ [])

stops : write (1 ∷ 2 ∷ 3 ∷ []) (wrote 2 ∷ wrote 0 ∷ []) ≡ some sent_two
unfolding write
stops = refl

write-wire_example : (◌≡◌ {A = Bytes} (1 ∷ 2 ∷ []) (take 2 (1 ∷ 2 ∷ 3 ∷ []))) × (2 ≤ 3)
write-wire_example =
    write-wire (1 ∷ 2 ∷ 3 ∷ []) (wrote 2 ∷ wrote 0 ∷ []) sent_two (omega arith) stops

-- Three vectors, moved in parts that end inside them.
abbrev vectors : List (Iovec ℕ)
vectors = whole (1 ∷ 2 ∷ 3 ∷ []) ∷ whole [] ∷ whole (4 ∷ 5 ∷ []) ∷ []

abbrev parts : List Io
parts = io 2 ∷ io 2 ∷ io 1 ∷ []

parts_serve : Serves uio_maxiov vectors parts
unfolding consume advance
parts_serve =
    inr (
      omega arith,
      omega arith,
      inr (omega arith, omega arith, inr (omega arith, omega arith, refl)),
    )

readwritev-Serves_example :
    readwritev uio_maxiov vectors parts
    ≡ some (quiet (record { size = 5; moved = 1 ∷ 2 ∷ 3 ∷ 4 ∷ 5 ∷ []; iovs = vectors }))
readwritev-Serves_example =
    readwritev-Serves uio_maxiov vectors parts (omega arith) (omega arith) parts_serve

-- A message with two blocks.
abbrev blocks : List Bytes
blocks = (65 ∷ 66 ∷ []) ∷ (67 ∷ []) ∷ []

blocks_Fits : Fits blocks
blocks_Fits = omega arith

message-Serves :
    Serves uio_maxiov (message_iovs (message_length blocks) blocks) (io 20 ∷ io 15 ∷ [])
unfolding consume message_iovs advance
message-Serves = inr (omega arith, omega arith, inr (omega arith, omega arith, refl))

write_message-Serves_example :
    write_message blocks (io 20 ∷ io 15 ∷ [])
    ≡ some (
        quiet
          (header_bytes (message_length blocks) 2 ++ (words_bytes (2 ∷ 1 ∷ []) ++ flatten blocks)))
write_message-Serves_example =
    write_message-Serves blocks (io 20 ∷ io 15 ∷ []) (blocks_Fits, omega arith) message-Serves

-- So many empty blocks.
many : ℕ → List Bytes
many zero = []
many (suc n) = [] ∷ many n

many-size : (n : ℕ) → (length (many n) ≡ n) × (sum (map length (many n)) ≡ 0)
unfolding many
many-size zero = (refl, refl)
many-size (suc n) = (ap suc (many-size n).0, omega (arith, (many-size n).1))

write_message-negative_example :
    write_message (many (2 ^ 31)) (io 20 ∷ [])
    ≡ some (cc_check false "SocketChannel.cpp" 137 >> quiet [])
write_message-negative_example =
    write_message-negative (many (2 ^ 31)) (io 20 ∷ []) (omega (arith, many-size (2 ^ 31)))
      (omega (arith, many-size (2 ^ 31))) (omega (arith, many-size (2 ^ 31)))

abbrev head : Bytes
head = header_bytes (message_length blocks) 2

abbrev lengths : Bytes
lengths = words_bytes (2 ∷ 1 ∷ [])

head_filled :
    Fills
      (header_bytes (message_length blocks) (length blocks))
      (got head ∷ got lengths ∷ [])
      (got lengths ∷ [])
unfolding header_bytes
head_filled = part head (omega arith) (sym (append-nil head)) full

lengths_filled : Fills (words_bytes (map length blocks)) (got lengths ∷ []) []
unfolding words_bytes
lengths_filled = part lengths (omega arith) (sym (append-nil lengths)) full

abbrev no_header : Bytes
no_header = 0 ∷ 0 ∷ 0 ∷ 0 ∷ 0 ∷ 0 ∷ 0 ∷ 0 ∷ 0 ∷ 0 ∷ 0 ∷ 0 ∷ 0 ∷ 0 ∷ 0 ∷ 0 ∷ []

read_message-write_message_example :
    read_message no_header (got head ∷ got lengths ∷ [])
    ≡ some (quiet (some (record { num_blocks = 2 ∷ 1 ∷ []; current_block_index = 0 }), []))
read_message-write_message_example =
    read_message-write_message blocks no_header (got head ∷ got lengths ∷ []) (got lengths ∷ []) []
      blocks_Fits refl head_filled lengths_filled
