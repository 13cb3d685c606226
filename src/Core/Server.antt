-- ===== src/Core/Server.antt =====
-- src/core/LightServer.h and src/core/LightServer.cpp: the thread that accepts connections, the
-- worker that serves one, and the client's side. What the system calls answer are parameters.
pub mod Connection
pub mod Accept
pub mod Session
pub mod Exchange
pub mod Call
use ccml.Base.{
  ℕ, zero, suc, ◌+◌, Bool, true, false, not, List, [], ◌∷◌, ◌++◌, Option, none, some, if◌then◌else◌,
}
use ccml.Utils.Logging.{behind, LogMessage, Logged, cc_check, cc_log, info, ◌>>=◌, ◌>>◌, quiet}
use ccml.Utils.Str.{Text}
use ccml.Core.Channel.{Bytes, Answer, Io}
use ccml.Core.Message.{MessageReader, read_message, write_message}
use ccml.Core.Proto.{Handled, Service}

-- How a worker ends: its loop ends (the messages logged, and what it put on the wire), a call of it
-- waits for good or is undefined, or it takes more rounds than the fuel.
pub data Served : Type 0 where
  finished : Logged (List Bytes) → Served
  waits : Served
  out_of_fuel : Served

-- The callback, once for each response: every call is one `write_message`, whose `writev` calls the
-- kernel answers with `ios` of the call's number. The messages of the writes stand behind those
-- of the handler.
pub responses : (ℕ → List Io) → ℕ → List (List Bytes) → Option (Logged (List Bytes))
responses ios n [] = some (quiet [])
responses ios n (blocks ∷ more) =
    behind (λ wire. behind (λ wires. some (quiet (wire ∷ wires))) (responses ios (suc n) more))
      (write_message blocks (ios n))

-- The rest of the loop behind one request.
pub continued : List LogMessage → List Bytes → Served → Served
continued log wire (finished r) = finished (record { log = log ++ r.log; value = wire ++ r.value })
continued log wire waits = waits
continued log wire out_of_fuel = out_of_fuel

-- The callback's writes, then the rest.
pub answered : Option (Logged (List Bytes)) → List Answer → (List Answer → Served) → Served
unfolding continued
answered none rest loop = waits
answered (some w) rest loop = continued w.log w.value (loop rest)

-- The handler's part of a round.
pub handled : (ℕ → List Io) → ℕ → Handled → (List Answer → Served) → Served
unfolding responses answered continued
handled ios n none loop = waits
handled ios n (some h) loop =
    continued h.log [] (answered (responses ios n h.value.0) h.value.1 loop)

-- What `read_message` gave: a request, or the end of the stream, which leaves the loop.
pub message_read :
    Service → (ℕ → List Io) → Option MessageReader × List Answer → (List Answer → Served) → Served
unfolding handled
message_read server ios (none, rest) loop = finished (quiet [])
message_read server ios (some r, rest) loop = handled ios 0 (server r rest) loop

-- One round of the loop, behind its `read_message`.
pub requested :
    Service
    → (ℕ → List Io)
    → Option (Logged (Option MessageReader × List Answer))
    → (List Answer → Served)
    → Served
unfolding message_read continued
requested server ios none loop = waits
requested server ios (some m) loop = continued m.log [] (message_read server ios m.value loop)

-- The loop of `SocketWorker::run`. In each round `junk` is what the local header of `read_message`
-- holds before it is read, and `ios` what the kernel answers to the writes.
pub worker_loop : Service → (ℕ → Bytes) → (ℕ → ℕ → List Io) → ℕ → List Answer → Served
unfolding requested
worker_loop server junk ios zero answers = out_of_fuel
worker_loop server junk ios (suc fuel) answers =
    requested server (ios fuel) (read_message (junk fuel) answers)
      (λ rest. worker_loop server junk ios fuel rest)

-- `LOG(INFO)` at a line, then the rest.
pub info_first : ℕ → Served → Served
info_first line (finished r) = finished (cc_log info "LightServer.cpp" line >>= λ _. r)
info_first line waits = waits
info_first line out_of_fuel = out_of_fuel

pub info_last : ℕ → Served → Served
info_last line (finished r) = finished (r >>= λ w. cc_log info "LightServer.cpp" line >> quiet w)
info_last line waits = waits
info_last line out_of_fuel = out_of_fuel

-- `SocketWorker::run`
pub run : Service → (ℕ → Bytes) → (ℕ → ℕ → List Io) → ℕ → List Answer → Served
unfolding worker_loop info_first info_last
run server junk ios fuel answers =
    info_first 27 (info_last 44 (worker_loop server junk ios fuel answers))
