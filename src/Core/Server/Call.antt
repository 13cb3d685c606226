-- ===== src/Core/Server/Call.antt =====
-- A remote call, from the client's `send` over the server's worker to the client's `recv`.
use ccml.Base.{
  ℕ, ◌+◌, ◌<◌, ◌^◌, ◌≡◌, Bool, true, List, [], ◌∷◌, ◌++◌, suc, Option, some, length, map, arith,
}
use ccml.Utils.Logging.{LogMessage, quiet}
use ccml.Core.Channel.{Bytes, Answer, Io, uio_maxiov}
use ccml.Core.Channel.Buffer.{Fills}
use ccml.Core.Channel.Rounds.{Serves}
use ccml.Core.Message.{
  MessageReader, header_size, header_bytes, words_bytes, message_iovs, message_length,
}
use ccml.Core.Message.Framing.{Sendable}
use ccml.Core.Proto.{
  FunctionEx, delete_argument, Services, find_service, service_ex, send, handle_request, recv,
}
use ccml.Core.Proto.Dispatch.{reader_of}
use ccml.Core.Proto.Call.{stepped, handle_request_call}
use ccml.Core.Proto.Client.{send_lem, recv_lem}
use ccml.Core.Server.{continued, worker_loop}
use ccml.Core.Server.Exchange.{frame, worker_loop-round}

-- A message that can be sent, as the kernel delivers it: the header and the lengths of its blocks, in parts.
pub record Arrives (blocks : List Bytes) (junk : Bytes) (answers middle rest : List Answer)
    : Type 0 where
  pub sendable : Sendable blocks
  pub full : length junk ≡ header_size
  pub head : Fills (header_bytes (message_length blocks) (length blocks)) answers middle
  pub lengths : Fills (words_bytes (map length blocks)) middle rest

module _ {Request Response : Type 0} (serialize_request : Request → Bool × Bytes)
    (parse_request : Bytes → Bool × Request) (serialize : Response → Bool × Bytes)
    (parse : Bytes → Bool × Response) (bytes : Response → Bytes)
    (good : (x : Response) → serialize x ≡ (true, bytes x)) where
  -- A remote call of a registered function, of the kind that gets the reader, returns what the
  -- function answers: the client puts the frame of the call on the wire; the server's worker, in its
  -- round for the call, puts the frame of the response there, logs what the function and then the
  -- destructor of the reader log, and goes on with what the function did not read; and the client
  -- receives the function's response, with the reader at the blocks behind it, however the kernel cuts
  -- what is sent and received. The name, the protobuf and the block behind it have the same number of
  -- bytes, as have the two first blocks of the response; protobuf reads back what it writes; the
  -- function answers once; the call and the response have less than 2 ^ 63 bytes and less than
  -- 2 ^ 31 - 2 blocks.
  pub call_returns :
      (m : Services) (func : FunctionEx Request Response) (junk : ℕ → Bytes) (ios : ℕ → ℕ → List Io)
      (fuel : ℕ) (sent : List Io) (name proto first first' : Bytes) (user iovs : List Bytes)
      (request : Request) (response : Response) (log : List LogMessage)
      (left : Option MessageReader) (answers a1 a2 a3 a4 later back b1 b2 b3 : List Answer)
      (local_header : Bytes)
      → serialize_request request ≡ (true, proto)
      → parse_request proto ≡ (true, request)
      → parse (bytes response) ≡ (true, response)
      → length name ≡ length proto
      → length first ≡ length proto
      → length first' ≡ length (bytes response)
      → find_service name m ≡ some (service_ex parse_request serialize func)
      → Serves uio_maxiov
          (message_iovs
            (message_length (name ∷ proto ∷ first ∷ user))
            (name ∷ proto ∷ first ∷ user))
          sent
      → Arrives (name ∷ proto ∷ first ∷ user) (junk fuel) answers a1 a2
      → Fills name a2 a3
      → Fills proto a3 a4
      → func request (stepped (stepped (reader_of (name ∷ proto ∷ first ∷ user)))) a4
        ≡ some (record { log = log; value = ((response, first' ∷ iovs) ∷ [], left, later) })
      → Serves uio_maxiov
          (message_iovs
            (message_length (bytes response ∷ first' ∷ iovs))
            (bytes response ∷ first' ∷ iovs))
          (ios fuel 0)
      → Arrives (bytes response ∷ first' ∷ iovs) local_header back b1 b2
      → Fills (bytes response) b2 b3
      → (send serialize_request parse name request (first ∷ user) sent
          ≡ some (quiet (frame (name ∷ proto ∷ first ∷ user))))
        × (worker_loop (handle_request m) junk ios (suc fuel) answers
            ≡ continued
                (log ++ (delete_argument left).log)
                (frame (bytes response ∷ first' ∷ iovs) ∷ [])
                (worker_loop (handle_request m) junk ios fuel later))
        × (recv serialize_request parse local_header back
            ≡ some (quiet (response, stepped (reader_of (bytes response ∷ first' ∷ iovs)), b3)))
  call_returns m func junk ios fuel sent name proto first first' user iovs request response log left
        answers a1 a2 a3 a4 later back b1 b2 b3 local_header written read_back parsed_back named
        sized sized' found serves call name_in proto_in answer serves' reply out_in =
      (
        send_lem serialize_request parse name request proto (first ∷ user) sent written
            call.sendable serves,
        worker_loop-round (handle_request m) junk ios fuel (name ∷ proto ∷ first ∷ user)
            (log ++ (delete_argument left).log) ((bytes response ∷ first' ∷ iovs) ∷ []) answers a1
            a2 later call.sendable.0 call.full call.head call.lengths
            (handle_request_call parse_request serialize m func bytes name proto first name proto
              user request ((response, first' ∷ iovs) ∷ []) log left good read_back few named sized
              found name_in proto_in answer)
            (reply.sendable, serves', tt),
        recv_lem serialize_request parse local_header (bytes response) first' iovs response back b1
            b2 b3 reply.sendable.0 reply.full reply.head reply.lengths sized' out_in parsed_back,
      )
    where
      few : length user + 3 < 2 ^ 64
      few = ground (arith, call.sendable)
