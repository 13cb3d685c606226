-- ===== src/Core/Proto.antt =====
-- src/core/ProtoServer.h and src/core/ProtoServer.cpp: requests by function name over messages whose
-- first block is the name and whose second block is a protobuf. `SerializeToString` and
-- `ParseFromString` are parameters: whether they succeed, and the bytes or the value.
pub mod Registry
pub mod Dispatch
pub mod Progress
pub mod Call
pub mod Client
use ccml.Base.{
  ℕ, zero, suc, ◌-◌, length, Bool, true, false, not, List, [], ◌∷◌, ◌++◌, Option, none, some, leb,
  if◌then◌else◌,
}
use ccml.Utils.Logging.{Logged, cc_check, cc_log, error, ◌>>=◌, ◌>>◌, quiet, behind}
use ccml.Utils.Str.{Text, str_eq}
use ccml.Core.Channel.{Bytes, Answer, Io}
use ccml.Core.Message.{
  MessageReader, Block, get_num_blocks, get_next_block_length, read_next_block, delete_reader,
  write_message, read_message,
}

-- What became of a request: the calls of the callback, each with the blocks of a response, and the
-- answers left. `none` is a call that waits for good or is undefined.
abbrev pub Handled : Type 0
Handled = Option (Logged (List (List Bytes) × List Answer))

-- `ServiceFunction`, also the type of the virtual `handle_request` of a server.
abbrev pub Service : Type 0
Service = MessageReader → List Answer → Handled

-- `_name_to_function_map`
abbrev pub Services : Type 0
Services = List (Text × Service)

unfoldable pub find_service : Text → Services → Option Service
unfolding str_eq
find_service name [] = none
find_service name ((k, f) ∷ rest) = if str_eq k name then some f else find_service name rest

-- `_name_to_function_map[function_name] = function`
pub assign_service : Text → Service → Services → Services
unfolding str_eq
assign_service name f [] = (name, f) ∷ []
assign_service name f ((k, g) ∷ rest) =
    if str_eq k name then (k, f) ∷ rest else (k, g) ∷ assign_service name f rest

-- `count`
is_registered : Option Service → Bool
is_registered none = false
is_registered (some f) = true

pub register_service_function_implement : Text → Service → Services → Logged Services
unfolding find_service assign_service is_registered
register_service_function_implement name f m =
    cc_check (not (is_registered (find_service name m))) "ProtoServer.cpp" 39
    >> quiet (assign_service name f m)

-- The branches of `handle_request`; at the end of the second one the reader is destroyed.
pub dispatch : Option Service → MessageReader → List Answer → Handled
dispatch (some f) r answers = f r answers
dispatch none r answers =
    some (cc_log error "ProtoServer.cpp" 32 >> (delete_reader r >> quiet ([] ∷ [], answers)))

-- `std::string(n, 0)`
zeros : ℕ → Bytes
zeros zero = []
zeros (suc n) = 0 ∷ zeros n

-- What a string of zeros of the length holds when the block was read into it.
pub stored : ℕ → Block → Block
unfolding zeros
stored len (bytes, r, rest) = (bytes ++ zeros (len - length bytes), r, rest)

pub read_into : MessageReader → List Answer → Option ℕ → Option (Logged Block)
unfolding stored
read_into r answers none = none
read_into r answers (some len) =
    behind (λ b. some (quiet (stored len b))) (read_next_block r answers)

-- `std::string s(reader->get_next_block_length(), 0); reader->read_next_block(&s[0]);`
pub read_string : MessageReader → List Answer → Option (Logged Block)
unfolding read_into
read_string r answers = read_into r answers (get_next_block_length r)

-- `handle_request` behind the read of the name.
pub handle_named : Services → Block → Handled
unfolding find_service dispatch
handle_named m (name, r, answers) = dispatch (find_service name m) r answers

-- `ProtoServer::handle_request`, as it is built with CCML_DISABLE_TIMER; without it the time is stored in
-- a thread-local first, which nothing reads.
pub handle_request : Services → Service
unfolding handle_named read_string
handle_request m r answers =
    behind (λ _. behind (handle_named m) (read_string r answers))
      (some (cc_check (leb 2 (get_num_blocks r)) "ProtoServer.cpp" 19))

-- A function that gets the request and the reader: its calls of the callback, what its argument holds
-- when it returns, and the answers left. The argument holds the reader, at the block that was read up
-- to, or nothing if the function has handed the reader on.
abbrev pub FunctionEx : Type 0 → Type 0 → Type 0
FunctionEx Request Response =
    Request
    → MessageReader
    → List Answer
    → Option (Logged (List (Response × List Bytes) × Option MessageReader × List Answer))

-- The destructor of a `std::unique_ptr<MessageReader>`.
pub delete_argument : Option MessageReader → Logged (Unit {0})
delete_argument none = quiet tt
delete_argument (some r) = delete_reader r

module _ {Request Response : Type 0} (parse : Bytes → Bool × Request)
    (serialize : Response → Bool × Bytes) where
  -- `CC_CHECK(request.ParseFromString(str))` at a line of the header
  parsed : ℕ → Block → Logged (Request × MessageReader × List Answer)
  parsed line (str, r, answers) =
      let (good, request) = parse str in
      cc_check good "ProtoServer.h" line >> quiet (request, r, answers)

  -- `pcob`: the blocks that the callback gets for a response and its output vectors.
  pub response_blocks : ℕ → Response × List Bytes → Logged (List Bytes)
  response_blocks line (response, output_iovs) =
      let (good, out) = serialize response in
      cc_check good "ProtoServer.h" line >> quiet (out ∷ output_iovs)

  pub all_blocks : ℕ → List (Response × List Bytes) → Logged (List (List Bytes))
  unfolding response_blocks
  all_blocks line [] = quiet []
  all_blocks line (x ∷ xs) =
      response_blocks line x >>= λ b. all_blocks line xs >>= λ bs. quiet (b ∷ bs)

  abbrev respond : ℕ → List (Response × List Bytes) × List Answer → Handled
  respond line (responses, answers) = some (all_blocks line responses >>= λ bs. quiet (bs, answers))

  -- The calls of `pcob`, then the destructor of the argument that holds the reader.
  abbrev respond_ex :
      ℕ → List (Response × List Bytes) × Option MessageReader × List Answer → Handled
  respond_ex line (responses, reader, answers) =
      some (all_blocks line responses >>= λ bs. delete_argument reader >> quiet (bs, answers))

  -- The function that `register_service_function_ex` registers.
  pub service_ex : FunctionEx Request Response → Service
  unfolding parsed all_blocks read_string delete_argument
  service_ex func r answers = behind (respond_ex 93) (
      behind (λ (request, r', rest). func request r' rest)
        (behind (λ b. some (parsed 89 b)) (read_string r answers)))

  -- `message_reader.reset()`
  abbrev released : Request × MessageReader × List Answer → Option (Logged (Request × List Answer))
  released (request, r, answers) = some (delete_reader r >> quiet (request, answers))

  abbrev without_iovs : List Response → List (Response × List Bytes)
  without_iovs [] = []
  without_iovs (x ∷ xs) = (x, []) ∷ without_iovs xs

  -- The function that `register_service_function` registers: `func` does not get the reader, which is
  -- destroyed before.
  pub service : (Request → Logged (List Response)) → Service
  unfolding parsed all_blocks read_string
  service func r answers = behind (respond 116) (
      behind (λ (request, rest). some (func request >>= λ xs. quiet (without_iovs xs, rest)))
        (behind released (behind (λ b. some (parsed 111 b)) (read_string r answers))))

  -- `register_service_function_ex` and `register_service_function`
  pub register_service_function_ex : Text → FunctionEx Request Response → Services → Logged Services
  unfolding service_ex register_service_function_implement
  register_service_function_ex name func m =
      register_service_function_implement name (service_ex func) m

  pub register_service_function :
      Text → (Request → Logged (List Response)) → Services → Logged Services
  unfolding service register_service_function_implement
  register_service_function name func m = register_service_function_implement name (service func) m

module _ {Request Response : Type 0} (serialize : Request → Bool × Bytes)
    (parse : Bytes → Bool × Response) where
  -- `ProtoClient::send`: what goes on the wire.
  pub send : Text → Request → List Bytes → List Io → Option (Logged Bytes)
  send name proto user answers =
      let (good, proto_string) = serialize proto in
      behind (λ _. write_message (name ∷ proto_string ∷ user) answers)
        (some (cc_check good "ProtoServer.cpp" 48))

  -- `recv` behind the read of the block.
  received : Block → Option (Logged (Response × MessageReader × List Answer))
  received (str, r, answers) =
      let (good, proto) = parse str in
      some (cc_check good "ProtoServer.cpp" 67 >> quiet (proto, r, answers))

  -- `recv` with the reader; a null reader is used all the same, which is undefined.
  with_reader :
      Option MessageReader × List Answer → Option (Logged (Response × MessageReader × List Answer))
  unfolding received read_string
  with_reader (none, answers) = none
  with_reader (some r, answers) =
      behind (λ _. behind received (read_string r answers))
        (some (cc_check (leb 1 (get_num_blocks r)) "ProtoServer.cpp" 63))

  -- `ProtoClient::recv`
  pub recv : Bytes → List Answer → Option (Logged (Response × MessageReader × List Answer))
  unfolding with_reader
  recv junk answers = behind with_reader (read_message junk answers)

  -- `send_recv`, both overloads: what goes on the wire, and what comes back.
  pub send_recv :
      Bytes
      → Text
      → Request
      → List Bytes
      → List Io
      → List Answer
      → Option (Logged (Bytes × Response × MessageReader × List Answer))
  unfolding send recv
  send_recv junk name proto iovs ios answers =
      behind
        (λ wire.
          behind (λ (proto_out, r, rest). some (quiet (wire, proto_out, r, rest)))
            (recv junk answers))
        (send name proto iovs ios)
