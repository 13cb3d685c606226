-- ===== src/Core/Message/Reader.antt =====
-- Which length `read_next_block` asks for.
use ccml.Base.{
  ℕ, zero, suc, ◌+◌, ◌≤◌, ◌<◌, ◌≡◌, refl, ap, ◌∙◌, List, [], ◌∷◌, none, some, Option, length,
  get_elem?, lt→ltb, ==-refl, arith,
}
use ccml.Utils.Logging.{quiet}
use ccml.Core.Channel.{Bytes, Answer, Io}
use ccml.Core.Channel.Buffer.{Fills, read-Fills}
use ccml.Core.Message.{
  MessageReader, get_block_length, get_next_block_length, block_read, next_block, read_next_block,
  lengths_step, block_lengths, into_blocks, read_blocks,
}

pub get_elem?-past {ℓ} : {A : Type ℓ} (xs : List A) (i : ℕ) → length xs ≤ i → get_elem? xs i ≡ none
get_elem?-past [] i h = refl
get_elem?-past (x ∷ xs) zero h = absurd (omega arith)
get_elem?-past (x ∷ xs) (suc i) h = get_elem?-past xs i (omega arith)

get_elem?-below {ℓ} :
    {A : Type ℓ} (xs : List A) (i : ℕ) (x : A) → get_elem? xs i ≡ some x → i < length xs
get_elem?-below [] i x h = cc
get_elem?-below (y ∷ xs) zero x h = omega arith
get_elem?-below (y ∷ xs) (suc i) x h = omega (arith, get_elem?-below xs i x h)

-- The last block can never be read: at it `read_next_block` reads past the array of lengths. So no
-- message with one block can be read at all.
pub read_next_block_last :
    (r : MessageReader) (answers : List Answer)
    → length r.num_blocks ≤ r.current_block_index + 1
    → read_next_block r answers ≡ none
unfolding read_next_block get_block_length
read_next_block_last r answers h =
    ap (next_block r answers) (get_elem?-past r.num_blocks (r.current_block_index + 1) h)

pub get_next_block_length_lem :
    (r : MessageReader)
    → get_next_block_length r ≡ get_elem? r.num_blocks (r.current_block_index + 1)
unfolding get_next_block_length get_block_length
get_next_block_length_lem r = refl

-- At any other block `read_next_block` takes as many bytes as the block after it has, and goes on to
-- that block.
pub read_next_block_shifted :
    (r : MessageReader) {bytes : Bytes} {answers rest : List Answer}
    → get_elem? r.num_blocks (r.current_block_index + 1) ≡ some (length bytes)
    → Fills bytes answers rest
    → read_next_block r answers
      ≡ some (quiet (bytes, record r { current_block_index = r.current_block_index + 1 }, rest))
unfolding read_next_block get_block_length block_read
read_next_block_shifted r {bytes} {answers} {rest} h fills =
    ap (next_block r answers) h
    ∙ (ap (block_read r (length bytes)) (read-Fills fills)
        ∙ rw (lt→ltb r.current_block_index (length r.num_blocks) inside, ==-refl (length bytes)))
  where
    inside : r.current_block_index < length r.num_blocks
    inside =
        omega (arith, get_elem?-below r.num_blocks (r.current_block_index + 1) (length bytes) h)

lengths_step-none : (o : Option ℕ) → lengths_step o none ≡ none
unfolding lengths_step
lengths_step-none none = refl
lengths_step-none (some len) = refl

block_lengths_past :
    (n : ℕ) (r : MessageReader)
    → length r.num_blocks ≤ r.current_block_index + suc n
    → block_lengths (suc n) r ≡ none
unfolding block_lengths get_block_length lengths_step
block_lengths_past zero r h =
    ap
      (λ o.
        lengths_step o (some ([], record r { current_block_index = r.current_block_index + 1 })))
      (get_elem?-past r.num_blocks (r.current_block_index + 1) h)
block_lengths_past (suc n) r h =
    ap (lengths_step (get_elem? r.num_blocks (r.current_block_index + 1))) (
      block_lengths_past n (record r { current_block_index = r.current_block_index + 1 })
        (omega arith))
    ∙ lengths_step-none (get_elem? r.num_blocks (r.current_block_index + 1))

-- Reading all blocks that are left, or more, into buffers is a read past the array of lengths, however
-- many there are: the loop asks for the length behind each block.
pub read_blocks_all :
    (n : ℕ) (r : MessageReader) (answers : List Io)
    → 0 < n
    → length r.num_blocks ≤ r.current_block_index + n
    → read_blocks n r answers ≡ none
unfolding read_blocks into_blocks
read_blocks_all zero r answers pos h = absurd (omega arith)
read_blocks_all (suc n) r answers pos h = rw (block_lengths_past n r h) refl
