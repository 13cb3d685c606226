-- ===== src/Core/Proto/Call.antt =====
-- What becomes of a call of a registered function.
use ccml.Base.{
  ◌⊎◌, inl, inr, ℕ, ◌+◌, ◌≤◌, ◌<◌, ◌^◌, ◌≡◌, refl, ap, ◌∙◌, Bool, true, List, [], ◌∷◌, ◌++◌,
  append-nil, Option, none, some, length, map, get_elem?, arith,
}
use ccml.Utils.Logging.{LogMessage, Logged, quiet}
use ccml.Core.Channel.{Bytes, Answer}
use ccml.Core.Channel.Buffer.{Fills}
use ccml.Core.Message.{MessageReader}
use ccml.Core.Message.Reader.{get_next_block_length_lem, get_elem?-past}
use ccml.Core.Proto.{
  Services, find_service, dispatch, read_into, read_string, parsed, all_blocks, response_blocks,
  service_ex, service, handle_request, FunctionEx, delete_argument,
}
use ccml.Core.Proto.Dispatch.{reader_of, read_string_shifted, handle_request_shifted}

-- The reader one block further.
abbrev pub stepped : MessageReader → MessageReader
stepped r = record r { current_block_index = r.current_block_index + 1 }

pub read_string_last :
    (r : MessageReader) (answers : List Answer)
    → length r.num_blocks ≤ r.current_block_index + 1
    → read_string r answers ≡ none
unfolding read_string read_into
read_string_last r answers h =
    ap (read_into r answers)
      (get_next_block_length_lem r ∙ get_elem?-past r.num_blocks (r.current_block_index + 1) h)

module _ {Request Response : Type 0} (parse : Bytes → Bool × Request)
    (serialize : Response → Bool × Bytes) where
  -- The blocks of the responses, where protobuf writes each as `bytes` says.
  abbrev pub blocks_of : (Response → Bytes) → List (Response × List Bytes) → List (List Bytes)
  blocks_of bytes xs = map (λ (x : Response × List Bytes). bytes x.0 ∷ x.1) xs

  all_blocks-quiet :
      (line : ℕ) (bytes : Response → Bytes) (xs : List (Response × List Bytes))
      → ((x : Response) → serialize x ≡ (true, bytes x))
      → all_blocks parse serialize line xs ≡ quiet (blocks_of bytes xs)
  unfolding all_blocks response_blocks
  all_blocks-quiet line bytes [] good = refl
  all_blocks-quiet line bytes (x ∷ xs) good =
      rw (good x.0, all_blocks-quiet line bytes xs good) refl

  -- At the last block of its message, or behind it, neither kind of function can read its protobuf.
  pub services_last :
      (func : Request → Logged (List Response)) (func_ex : FunctionEx Request Response)
      (r : MessageReader) (answers : List Answer)
      → length r.num_blocks ≤ r.current_block_index + 1
      → (service parse serialize func r answers ≡ none)
        × (service_ex parse serialize func_ex r answers ≡ none)
  unfolding service service_ex
  services_last func func_ex r answers h =
      let e = read_string_last r answers h in (rw e refl, rw e refl)

  -- A function that gets its protobuf is called with the value, and with the reader behind it; what it
  -- leaves of the reader is destroyed behind it.
  pub service_ex_lem :
      (func : FunctionEx Request Response) (bytes : Response → Bytes) (r : MessageReader)
      (request : Request) {proto : Bytes} {answers rest later : List Answer}
      (xs : List (Response × List Bytes)) (log : List LogMessage) (left : Option MessageReader)
      → ((x : Response) → serialize x ≡ (true, bytes x))
      → get_elem? r.num_blocks (r.current_block_index + 1) ≡ some (length proto)
      → Fills proto answers rest
      → parse proto ≡ (true, request)
      → func request (stepped r) rest ≡ some (record { log = log; value = (xs, left, later) })
      → service_ex parse serialize func r answers
        ≡ some (record {
          log = log ++ (delete_argument left).log;
          value = (blocks_of bytes xs, later);
        })
  unfolding service_ex parsed
  service_ex_lem func bytes r request {proto} {answers} {rest} {later} xs log left good same fills p
        f =
      rw (read_string_shifted r same fills, p, f, all_blocks-quiet 93 bytes xs good)
        (ap (λ l. some (record { log = log ++ l; value = (blocks_of bytes xs, later) }))
          (append-nil (delete_argument left).log))

  -- A call with no block behind its protobuf cannot be answered: whatever function is found by what is
  -- looked up, of either kind, its read of the protobuf is past the array of lengths, which is
  -- undefined.
  pub handle_request_short :
      (m : Services) (name proto : Bytes) (func : Request → Logged (List Response))
      (func_ex : FunctionEx Request Response) {looked : Bytes} {answers rest : List Answer}
      → length looked ≡ length proto
      → Fills looked answers rest
      → (find_service looked m ≡ some (service parse serialize func))
        ⊎ (find_service looked m ≡ some (service_ex parse serialize func_ex))
      → handle_request m (reader_of (name ∷ proto ∷ [])) answers ≡ none
  unfolding dispatch
  handle_request_short m name proto func func_ex {rest = rest} same fills found =
      let last =
        services_last func func_ex (stepped (reader_of (name ∷ proto ∷ []))) rest (omega arith) in
      handle_request_shifted m name proto [] (omega arith) same fills
      ∙ elim found [ inl e ↦ rw e last.0 | inr e ↦ rw e last.1 ]

  -- A call of a registered function, of the kind that gets the reader, by a message of three
  -- blocks or more: as many bytes as the second block has are looked up as its name, and the function
  -- is called with the value of the next bytes, as many as the third block has, and with the reader.
  -- Each of its responses becomes a message, its protobuf before its blocks, and what it leaves of the
  -- reader is destroyed. Protobuf parses what is sent and writes each response.
  pub handle_request_call :
      (m : Services) (func : FunctionEx Request Response) (bytes : Response → Bytes)
      (name proto first looked value : Bytes) (user : List Bytes) (request : Request)
      {answers middle rest later : List Answer} (xs : List (Response × List Bytes))
      (log : List LogMessage) (left : Option MessageReader)
      → ((x : Response) → serialize x ≡ (true, bytes x))
      → parse value ≡ (true, request)
      → length user + 3 < 2 ^ 64
      → length looked ≡ length proto
      → length first ≡ length value
      → find_service looked m ≡ some (service_ex parse serialize func)
      → Fills looked answers middle
      → Fills value middle rest
      → func request (stepped (stepped (reader_of (name ∷ proto ∷ first ∷ user)))) rest
        ≡ some (record { log = log; value = (xs, left, later) })
      → handle_request m (reader_of (name ∷ proto ∷ first ∷ user)) answers
        ≡ some (record {
          log = log ++ (delete_argument left).log;
          value = (blocks_of bytes xs, later);
        })
  unfolding dispatch
  handle_request_call m func bytes name proto first looked value user request {answers} {middle} xs
        log left good p small named sized found fills fills' f =
      handle_request_shifted m name proto (first ∷ user) (omega arith) named fills
      ∙ (ap (λ o. dispatch o (stepped (reader_of (name ∷ proto ∷ first ∷ user))) middle) found
          ∙ service_ex_lem func bytes (stepped (reader_of (name ∷ proto ∷ first ∷ user))) request xs
              log left good (ap some sized) fills' p f)
