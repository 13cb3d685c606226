-- ===== src/Core/Proto/Dispatch.antt =====
-- Which service a request gets, on the messages that clients send.
use ccml.Base.{
  ℕ, ◌+◌, ◌-◌, ◌^◌, ◌++◌, [], append-nil, get_elem?, ◌<◌, ◌≡◌, sym, ap, ◌∙◌, true, List, ◌∷◌, map,
  some, length, leb, arith, length-map,
}
use ccml.Utils.Logging.{behind, after_log, quiet, cc_check}
use ccml.Utils.Logging.Quiet.{after_log-quiet}
use ccml.Core.Channel.{Bytes, Answer}
use ccml.Core.Channel.Buffer.{Fills}
use ccml.Core.Message.{MessageReader, Block, get_num_blocks}
use ccml.Core.Message.Reader.{get_next_block_length_lem, read_next_block_shifted}
use ccml.Core.Proto.{
  Services, find_service, dispatch, zeros, stored, read_into, read_string, handle_named,
  handle_request,
}

-- The reader that `read_message` makes for a message of these blocks.
abbrev pub reader_of : List Bytes → MessageReader
reader_of blocks = record { num_blocks = map length blocks; current_block_index = 0 }

pub two_blocks :
    (name proto : Bytes) (user : List Bytes)
    → length user + 2 < 2 ^ 64
    → leb 2 (get_num_blocks (reader_of (name ∷ proto ∷ user))) ≡ true
unfolding get_num_blocks
two_blocks name proto user small = ground (arith, length-map length user)

zeros_none : (n : ℕ) → zeros (n - n) ≡ []
unfolding zeros
zeros_none n = let e : n - n ≡ 0 = omega arith in ap zeros e

pub read_string_shifted :
    (r : MessageReader) {bytes : Bytes} {answers rest : List Answer}
    → get_elem? r.num_blocks (r.current_block_index + 1) ≡ some (length bytes)
    → Fills bytes answers rest
    → read_string r answers
      ≡ some (quiet (bytes, record r { current_block_index = r.current_block_index + 1 }, rest))
unfolding read_string read_into stored
read_string_shifted r {bytes} {answers} {rest} h fills =
    ap (read_into r answers) (get_next_block_length_lem r ∙ h)
    ∙ (ap (behind (λ b. some (quiet (stored (length bytes) b)))) (read_next_block_shifted r h fills)
        ∙ ap
            (λ s.
              some (quiet (s, record r { current_block_index = r.current_block_index + 1 }, rest)))
            (ap (λ z. bytes ++ z) (zeros_none (length bytes)) ∙ append-nil bytes))

-- For the message that a client sends for a function, the server looks up a name with as many bytes as
-- the protobuf has: it is what comes next on the wire. The function, or the error for a name that is
-- not registered, then gets the reader at the second block. The message has less than 2 ^ 64 - 2
-- further blocks.
pub handle_request_shifted :
    (m : Services) (name proto : Bytes) (user : List Bytes) {looked : Bytes}
    {answers rest : List Answer}
    → length user + 2 < 2 ^ 64
    → length looked ≡ length proto
    → Fills looked answers rest
    → handle_request m (reader_of (name ∷ proto ∷ user)) answers
      ≡ dispatch
          (find_service looked m)
          (record (reader_of (name ∷ proto ∷ user)) { current_block_index = 1 })
          rest
unfolding handle_request handle_named
handle_request_shifted m name proto user {looked} {answers} {rest} small same fills =
    ap
      (λ g.
        behind (λ _. behind (handle_named m) (read_string r answers))
          (some (cc_check g "ProtoServer.cpp" 19)))
      (two_blocks name proto user small)
    ∙ (ap (λ b. after_log {0, 0} (quiet tt) (behind (handle_named m) b))
          (read_string_shifted r (ap some (sym same)) fills)
        ∙ (after_log-quiet {0, 0} tt _ ∙ after_log-quiet {A = Block} (looked, next, rest) _))
  where
    r : MessageReader
    r = reader_of (name ∷ proto ∷ user)

    next : MessageReader
    next = record r { current_block_index = 1 }
