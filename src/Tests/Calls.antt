-- ===== src/Tests/Calls.antt =====
-- A remote call at concrete blocks.
use ccml.Base.{
  ◌<◌, ◌≡◌, refl, sym, append-nil, inl, inr, Bool, true, List, [], ◌∷◌, map, none, some, length,
  arith,
}
use ccml.Utils.Logging.{quiet}
use ccml.Core.Channel.{Bytes, Answer, got, io, uio_maxiov, advance}
use ccml.Core.Channel.Skip.{consume}
use ccml.Core.Channel.Buffer.{Fills, full, part}
use ccml.Core.Channel.Rounds.{Serves}
use ccml.Core.Message.{header_bytes, words_bytes, message_iovs, message_length}
use ccml.Core.Proto.{
  FunctionEx, delete_argument, Services, find_service, service, service_ex, send, handle_request,
  recv,
}
use ccml.Core.Proto.Dispatch.{reader_of}
use ccml.Core.Proto.Call.{stepped, handle_request_short}
use ccml.Core.Server.{continued, worker_loop}
use ccml.Core.Server.Exchange.{frame}
use ccml.Core.Server.Call.{Arrives, call_returns}

-- Protobufs are the bytes of their values.
abbrev pub same : Bytes → Bool × Bytes
same bytes = (true, bytes)

-- The function `ab` answers with the request and one block. It leaves its reader as it is.
abbrev pub answer : FunctionEx Bytes Bytes
answer request r answers = some (quiet ((request, (5 ∷ 6 ∷ []) ∷ []) ∷ [], some r, answers))

abbrev pub functions : Services
functions =
    (97 ∷ 98 ∷ [], service_ex same same answer)
    ∷ (99 ∷ [], service same same (λ (request : Bytes). quiet (request ∷ [])))
    ∷ []

abbrev remote_call : List Bytes
remote_call = (97 ∷ 98 ∷ []) ∷ (1 ∷ 2 ∷ []) ∷ (7 ∷ 8 ∷ []) ∷ []

abbrev pub reply : List Bytes
reply = (1 ∷ 2 ∷ []) ∷ (5 ∷ 6 ∷ []) ∷ []

abbrev pub no_header : Bytes
no_header = 0 ∷ 0 ∷ 0 ∷ 0 ∷ 0 ∷ 0 ∷ 0 ∷ 0 ∷ 0 ∷ 0 ∷ 0 ∷ 0 ∷ 0 ∷ 0 ∷ 0 ∷ 0 ∷ []

-- A message that comes with its header whole and its lengths whole.
abbrev pub delivered : List Bytes → List Answer → List Answer
delivered blocks rest =
    got (header_bytes (message_length blocks) (length blocks))
    ∷ got (words_bytes (map length blocks))
    ∷ rest

abbrev remote_call_in : List Answer
remote_call_in = got (97 ∷ 98 ∷ []) ∷ got (1 ∷ 2 ∷ []) ∷ got (7 ∷ 8 ∷ []) ∷ []

abbrev reply_in : List Answer
reply_in = got (1 ∷ 2 ∷ []) ∷ got (5 ∷ 6 ∷ []) ∷ []

pub whole_part :
    (bytes : Bytes) (rest : List Answer) → 0 < length bytes → Fills bytes (got bytes ∷ rest) rest
whole_part bytes rest h = part bytes h (sym (append-nil bytes)) full

remote_call-Arrives :
    Arrives remote_call no_header
      (delivered remote_call remote_call_in)
      (got (words_bytes (map length remote_call)) ∷ remote_call_in)
      remote_call_in
unfolding header_bytes words_bytes
remote_call-Arrives = record {
  sendable = (omega arith, omega arith);
  full = refl;
  head = whole_part _ _ (omega arith);
  lengths = whole_part _ _ (omega arith);
}

reply-Arrives :
    Arrives reply no_header
      (delivered reply reply_in)
      (got (words_bytes (map length reply)) ∷ reply_in)
      reply_in
unfolding header_bytes words_bytes
reply-Arrives = record {
  sendable = (omega arith, omega arith);
  full = refl;
  head = whole_part _ _ (omega arith);
  lengths = whole_part _ _ (omega arith);
}

remote_call-Serves :
    Serves uio_maxiov (message_iovs (message_length remote_call) remote_call) (io 40 ∷ io 6 ∷ [])
unfolding consume message_iovs advance
remote_call-Serves = inr (omega arith, omega arith, inr (omega arith, omega arith, refl))

pub reply-Serves : Serves uio_maxiov (message_iovs (message_length reply) reply) (io 36 ∷ [])
unfolding consume message_iovs advance
reply-Serves = inr (omega arith, omega arith, refl)

pub found : find_service (97 ∷ 98 ∷ []) functions ≡ some (service_ex same same answer)
unfolding find_service
found = refl

call_returns_example :
    (send same same (97 ∷ 98 ∷ []) (1 ∷ 2 ∷ []) ((7 ∷ 8 ∷ []) ∷ []) (io 40 ∷ io 6 ∷ [])
      ≡ some (quiet (frame remote_call)))
    × (worker_loop
          (handle_request functions)
          (λ round. no_header)
          (λ round write. io 36 ∷ [])
          2
          (delivered remote_call remote_call_in)
        ≡ continued
            (delete_argument (some (stepped (stepped (reader_of remote_call))))).log
            (frame reply ∷ [])
            (worker_loop
              (handle_request functions)
              (λ round. no_header)
              (λ round write. io 36 ∷ [])
              1
              (got (7 ∷ 8 ∷ []) ∷ [])))
    × (recv same same no_header (delivered reply reply_in)
        ≡ some (quiet (1 ∷ 2 ∷ [], stepped (reader_of reply), got (5 ∷ 6 ∷ []) ∷ [])))
call_returns_example =
    call_returns same same same same (λ bytes. bytes) (λ bytes. refl) functions answer
      (λ round. no_header) (λ round write. io 36 ∷ []) 1 (io 40 ∷ io 6 ∷ []) (97 ∷ 98 ∷ [])
      (1 ∷ 2 ∷ []) (7 ∷ 8 ∷ []) (5 ∷ 6 ∷ []) [] [] (1 ∷ 2 ∷ []) (1 ∷ 2 ∷ []) []
      (some (stepped (stepped (reader_of remote_call)))) (delivered remote_call remote_call_in)
      (got (words_bytes (map length remote_call)) ∷ remote_call_in) remote_call_in
      (got (1 ∷ 2 ∷ []) ∷ got (7 ∷ 8 ∷ []) ∷ []) (got (7 ∷ 8 ∷ []) ∷ []) (got (7 ∷ 8 ∷ []) ∷ [])
      (delivered reply reply_in) (got (words_bytes (map length reply)) ∷ reply_in) reply_in
      (got (5 ∷ 6 ∷ []) ∷ []) no_header refl refl refl refl refl refl found remote_call-Serves
      remote_call-Arrives (whole_part _ _ (omega arith)) (whole_part _ _ (omega arith)) refl
      reply-Serves reply-Arrives (whole_part _ _ (omega arith))

-- The function `c` with no block behind the protobuf.
short_found :
    find_service (99 ∷ []) functions
    ≡ some (service same same (λ (request : Bytes). quiet (request ∷ [])))
unfolding find_service
short_found = refl

handle_request_short_example :
    handle_request functions
      (reader_of ((99 ∷ []) ∷ (1 ∷ []) ∷ []))
      (got (99 ∷ []) ∷ got (1 ∷ []) ∷ [])
    ≡ none
handle_request_short_example =
    handle_request_short same same functions (99 ∷ []) (1 ∷ [])
      (λ (request : Bytes). quiet (request ∷ [])) answer refl
      (whole_part (99 ∷ []) (got (1 ∷ []) ∷ []) (omega arith)) (inl short_found)
