-- ===== src/Core/Message/Progress.antt =====
-- How many of the kernel's answers it takes to read a message.
use ccml.Base.{
  [], ◌∷◌, ap, ◌≡◌, ℕ, suc, ◌≤◌, ◌<◌, List, ◌++◌, Option, none, some, length, drop, ◌==◌, arith,
  Bool-cases, inl, inr,
}
use ccml.Utils.Logging.{Logged, quiet}
use ccml.Core.Channel.{Answer, got, Bytes, Transfer, read}
use ccml.Core.Channel.Progress.{Yields, Yields-weaken, Consumes, read-Consumes, read-closed}
use ccml.Core.Message.{
  MessageReader, header_size, lengths_read, new_reader, check_length, checked_reader, read_lengths,
  check_header, header_read, read_message, Block, block_read, next_block, read_next_block,
  get_next_block_length,
}

-- At most so many answers are left behind a block.
abbrev pub BlockLeaves : ℕ → Block → Type 0
BlockLeaves n b = length b.2 ≤ n

block_read-Yields :
    (r : MessageReader) (len n : ℕ) (o : Option (Logged (Transfer ℕ)))
    → Yields (Consumes n) o
    → Yields (BlockLeaves n) (block_read r len o)
unfolding block_read
block_read-Yields r len n none h = tt
block_read-Yields r len n (some t) h = h.0

next_block-Yields :
    (r : MessageReader) (answers : List Answer) (o : Option ℕ)
    → Yields (BlockLeaves (length answers)) (next_block r answers o)
unfolding next_block
next_block-Yields r answers none = tt
next_block-Yields r answers (some len) =
    block_read-Yields r len (length answers) (read len answers) (read-Consumes len answers)

pub read_next_block-Yields :
    (r : MessageReader) (answers : List Answer)
    → Yields (BlockLeaves (length answers)) (read_next_block r answers)
unfolding read_next_block
read_next_block-Yields r answers = next_block-Yields r answers (get_next_block_length r)

-- A reader comes with fewer answers than there were.
abbrev pub MessageLeaves : ℕ → Option MessageReader × List Answer → Type 0
MessageLeaves n (none, rest) = Unit {0}
MessageLeaves n (some r, rest) = length rest < n

lengths_read-Yields :
    (num_blocks n : ℕ) (o : Option (Logged (Transfer ℕ)))
    → Yields (Consumes n) o
    → Yields (λ x. length x.1 ≤ n) (lengths_read num_blocks o)
unfolding lengths_read
lengths_read-Yields num_blocks n none h = tt
lengths_read-Yields num_blocks n (some t) h = h.0

checked_reader-Yields :
    (total n : ℕ) (o : Option (Logged (MessageReader × List Answer)))
    → Yields (λ x. length x.1 ≤ n) o
    → Yields (MessageLeaves (suc n)) (checked_reader total o)
unfolding checked_reader check_length
checked_reader-Yields total n none h = tt
checked_reader-Yields total n (some r) h = omega arith

read_lengths-Yields :
    (header : Bytes) (answers : List Answer)
    → Yields (MessageLeaves (suc (length answers))) (read_lengths header answers)
unfolding read_lengths new_reader
read_lengths-Yields header answers =
    checked_reader-Yields _ (length answers) _
      (lengths_read-Yields _ (length answers) _ (read-Consumes _ answers))

check_header-Yields :
    (n : ℕ) (t : Logged (Transfer ℕ)) (o : Option (Logged (Option MessageReader × List Answer)))
    → Yields (MessageLeaves n) o
    → Yields (MessageLeaves n) (check_header t o)
unfolding check_header
check_header-Yields n t none h = tt
check_header-Yields n t (some r) h = h

weaker :
    (n k : ℕ)
    → n ≤ k
    → (m : Option MessageReader × List Answer) → MessageLeaves n m
    → MessageLeaves k m
weaker n k le (none, rest) h = tt
weaker n k le (some r, rest) h = omega arith

header_read-Yields :
    (junk : Bytes) (n : ℕ) (o : Option (Logged (Transfer ℕ)))
    → Yields (Consumes n) o
    → Yields (MessageLeaves n) (header_read junk o)
unfolding header_read
header_read-Yields junk n none h = tt
header_read-Yields junk n (some t) h = elim (Bool-cases (t.value.total == 0)) [
  | inl e ↦ rw e tt
  | inr e ↦ rw e (
      check_header-Yields n t _ (
        Yields-weaken (MessageLeaves (suc (length t.value.rest))) (MessageLeaves n) _
          (weaker _ n (ground arith))
          (read_lengths-Yields (t.value.moved ++ drop (length t.value.moved) junk) t.value.rest)))
]

-- Each message that `read_message` gets, whole or cut short, takes at least one answer of the kernel.
pub read_message-Yields :
    (junk : Bytes) (answers : List Answer)
    → Yields (MessageLeaves (length answers)) (read_message junk answers)
unfolding read_message
read_message-Yields junk answers =
    header_read-Yields junk (length answers) _ (read-Consumes header_size answers)

-- At the end of the stream `read_message` gets no reader.
pub read_message-closed :
    (junk : Bytes) (later : List Answer)
    → read_message junk (got [] ∷ later) ≡ some (quiet (none, later))
unfolding read_message header_read
read_message-closed junk later = ap (header_read junk) (read-closed header_size later (omega arith))
