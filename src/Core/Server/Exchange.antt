-- ===== src/Core/Server/Exchange.antt =====
-- The requests of one connection, from their bytes to those of the responses.
use mathlib.Core.List.{map-append}
use ccml.Base.{
  suc, sym, refl, ℕ, ◌≡◌, ap, ◌∙◌, List, [], ◌∷◌, ◌++◌, map, flatten, length, some, append_assoc,
  append-nil,
}
use ccml.Utils.Logging.{LogMessage, cc_log, info, ◌>>=◌, ◌>>◌, quiet, behind, after_log}
use ccml.Core.Channel.{Bytes, Answer, got, Io, uio_maxiov}
use ccml.Core.Channel.Buffer.{Fills}
use ccml.Core.Channel.Rounds.{Serves}
use ccml.Core.Message.{
  MessageReader, header_size, header_bytes, words_bytes, message_iovs, message_length,
}
use ccml.Core.Message.Framing.{Fits, Sendable, write_message-Serves, read_message-write_message}
use ccml.Core.Message.Progress.{read_message-closed}
use ccml.Core.Proto.{Service}
use ccml.Core.Server.{
  Served, finished, waits, out_of_fuel, responses, continued, answered, handled, message_read,
  requested, worker_loop, info_first, info_last, run,
}

-- The bytes of a message.
abbrev pub frame : List Bytes → Bytes
frame blocks =
    header_bytes (message_length blocks) (length blocks)
    ++ (words_bytes (map length blocks) ++ flatten blocks)

abbrev reader_for : List Bytes → MessageReader
reader_for user = record { num_blocks = map length user; current_block_index = 0 }

-- The writes of the responses to one request, from its response number `n` on, each of which the kernel
-- takes whole.
abbrev pub Writes : (ℕ → List Io) → ℕ → List (List Bytes) → Type 0
Writes ios n [] = Unit {0}
Writes ios n (blocks ∷ more) =
    Sendable blocks
    × Serves uio_maxiov (message_iovs (message_length blocks) blocks) (ios n)
    × Writes ios (suc n) more

responses-Writes :
    (ios : ℕ → List Io) (n : ℕ) (rs : List (List Bytes))
    → Writes ios n rs
    → responses ios n rs ≡ some (quiet (map frame rs))
unfolding responses
responses-Writes ios n [] h = refl
responses-Writes ios n (blocks ∷ more) (fits, serves, h) =
    ap
      (λ w.
        behind (λ wire. behind (λ wires. some (quiet (wire ∷ wires))) (responses ios (suc n) more))
          w)
      (write_message-Serves blocks (ios n) fits serves)
    ∙ ap
        (λ r.
          after_log (quiet (frame blocks))
            (behind (λ wires. some (quiet (frame blocks ∷ wires))) r))
        (responses-Writes ios (suc n) more h)

-- What two pieces of a worker's round log and send, in front of the rest.
continued-continued :
    (log log' : List LogMessage) (wire wire' : List Bytes) (s : Served)
    → continued log wire (continued log' wire' s) ≡ continued (log ++ log') (wire ++ wire') s
unfolding continued
continued-continued log log' wire wire' (finished r) = λ i. finished (record {
  log = sym (append_assoc log log' r.log) i;
  value = sym (append_assoc wire wire' r.value) i;
})
continued-continued log log' wire wire' waits = refl
continued-continued log log' wire wire' out_of_fuel = refl

module _ (server : Service) (junk : ℕ → Bytes) (ios : ℕ → ℕ → List Io) where
  -- One round of the loop, for a whole message: the worker sends the responses, and goes on with the
  -- answers that the server leaves.
  pub worker_loop-round :
      (fuel : ℕ) (user : List Bytes) (log : List LogMessage) (rs : List (List Bytes))
      (answers middle rest later : List Answer)
      → Fits user
      → length (junk fuel) ≡ header_size
      → Fills (header_bytes (message_length user) (length user)) answers middle
      → Fills (words_bytes (map length user)) middle rest
      → server (reader_for user) rest ≡ some (record { log = log; value = (rs, later) })
      → Writes (ios fuel) 0 rs
      → worker_loop server junk ios (suc fuel) answers
        ≡ continued log (map frame rs) (worker_loop server junk ios fuel later)
  unfolding worker_loop requested message_read handled answered
  worker_loop-round fuel user log rs answers middle rest later fits full head lengths served
        writes =
      ap (λ m. requested server (ios fuel) m next)
        (read_message-write_message user (junk fuel) answers middle rest fits full head lengths)
      ∙ (ap (λ h. continued [] [] (handled (ios fuel) 0 h next)) served
          ∙ (ap (λ w. continued [] [] (continued log [] (answered w later next)))
                (responses-Writes (ios fuel) 0 rs writes)
              ∙ (continued-continued [] log [] [] (continued [] (map frame rs) (next later))
                  ∙ (continued-continued log [] [] (map frame rs) (next later)
                      ∙ ap (λ l. continued l (map frame rs) (next later)) (append-nil log)))))
    where
      next : List Answer → Served
      next left = worker_loop server junk ios fuel left

  -- A connection on which a client sends whole messages, each behind what the server reads of the one
  -- before, and then closes it, in as many rounds as there are messages and one more. What the server
  -- logs, and its responses, any number to a message, are listed.
  pub data Conversation : ℕ → List Answer → List LogMessage → List (List Bytes) → Type 0 where
    closes : (fuel : ℕ) (later : List Answer) → Conversation (suc fuel) (got [] ∷ later) [] []
    asks :
        (fuel : ℕ) (user : List Bytes) (log more_log : List LogMessage)
        (rs more : List (List Bytes)) (answers middle rest later : List Answer)
        → Fits user
        → length (junk fuel) ≡ header_size
        → Fills (header_bytes (message_length user) (length user)) answers middle
        → Fills (words_bytes (map length user)) middle rest
        → server (reader_for user) rest ≡ some (record { log = log; value = (rs, later) })
        → Writes (ios fuel) 0 rs
        → Conversation fuel later more_log more
        → Conversation (suc fuel) answers (log ++ more_log) (rs ++ more)

  worker_loop-Conversation :
      (fuel : ℕ) (answers : List Answer) (log : List LogMessage) (rs : List (List Bytes))
      → Conversation fuel answers log rs
      → worker_loop server junk ios fuel answers
        ≡ finished (record { log = log; value = map frame rs })
  unfolding worker_loop requested message_read continued
  worker_loop-Conversation _ _ _ _ (closes fuel later) =
      ap (λ m. requested server (ios fuel) m (λ left. worker_loop server junk ios fuel left))
        (read_message-closed (junk fuel) later)
  worker_loop-Conversation _ _ _ _
        (asks fuel user log more_log rs more answers middle rest later fits full head lengths served
          writes others) =
      worker_loop-round fuel user log rs answers middle rest later fits full head lengths served
        writes
      ∙ (ap (continued log (map frame rs))
            (worker_loop-Conversation fuel later more_log more others)
          ∙ ap (λ w. finished (record { log = log ++ more_log; value = w }))
              (sym (map-append frame rs more)))

  -- A worker serves a connection of any number of requests: it hands each message to the server, puts
  -- the frames of all the responses on the wire, in the order of the requests, however the kernel
  -- cuts what it reads and writes, and ends when the client closes the connection. It logs its start,
  -- what the server logs for the messages, in their order, and its end. All messages have less than
  -- 2 ^ 63 bytes, the responses have less than 2 ^ 31 - 2 blocks, and there are enough rounds for the
  -- messages and the end.
  pub run-Conversation :
      (fuel : ℕ) (answers : List Answer) (log : List LogMessage) (rs : List (List Bytes))
      → Conversation fuel answers log rs
      → run server junk ios fuel answers
        ≡ finished (
            cc_log info "LightServer.cpp" 27
            >> (record { log = log; value = map frame rs } >>= λ wire.
                cc_log info "LightServer.cpp" 44 >> quiet wire))
  unfolding run info_first info_last
  run-Conversation fuel answers log rs c =
      ap (λ r. info_first 27 (info_last 44 r)) (worker_loop-Conversation fuel answers log rs c)
