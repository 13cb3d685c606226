-- ===== src/Core/Server/Accept.antt =====
-- src/core/LightServer.cpp: the thread that accepts connections.
pub mod Stopping
use ccml.Base.{
  ℕ, Bool, true, false, not, List, [], ◌∷◌, ◌++◌, Option, none, some, if◌then◌else◌, map,
}
use ccml.Utils.Logging.{after_log, Logged, cc_check, cc_log, info, ◌>>=◌, ◌>>◌, quiet}
use ccml.Utils.Str.{Text}
use ccml.Core.Server.Connection.{Descriptor, SocketChannel, is_open, create_channel, set_option}

-- `SocketServer`
pub record SocketServer : Type 0 where
  pub socket : Descriptor
  pub port : ℕ
  pub addr : Text
  pub max_pending_connections : ℕ
  pub stopping : Bool

-- `SocketServer::SocketServer`
pub new_server : Text → ℕ → SocketServer
new_server addr port = record {
  socket = some 0;
  port = port;
  addr = addr;
  max_pending_connections = 100;
  stopping = false;
}

-- What `accept` returned, and what `inet_ntop` made of the client's address.
pub record Client : Type 0 where
  pub newsockfd : Descriptor
  pub named : Bool
  pub peer_name : Text

-- What happens while the thread runs, in the order of the runs of `accept` and of the destructor.
pub data Event : Type 0 where
  -- another thread runs the first line of the destructor
  stopped : Event
  -- `accept` returns
  connected : Client → Event

-- The workers that the loop starts, and the events after its end.
abbrev pub Accepted : Type 0
Accepted = List SocketChannel × List Event

-- A round that starts a worker, before the others.
pub start_worker : Client → Option (Logged Accepted) → Option (Logged Accepted)
unfolding create_channel
start_worker c none = none
start_worker c (some r) = some (
    cc_check (is_open c.newsockfd) "LightServer.cpp" 95
    >> cc_check c.named "LightServer.cpp" 98
    >> (r >>= λ (workers, events).
        quiet (create_channel c.newsockfd c.peer_name ∷ workers, events)))

-- The loop of `tcp_server`. Without another connection it waits in `accept`.
pub accept_loop : Bool → List Event → Option (Logged Accepted)
unfolding start_worker
accept_loop stopping [] = none
accept_loop stopping (stopped ∷ events) = accept_loop true events
accept_loop stopping (connected c ∷ events) =
    let go_on = accept_loop stopping events in
    if stopping then some (quiet ([], events)) else start_worker c go_on

-- What the system calls before the loop answer.
pub record ServerCalls : Type 0 where
  pub opened : Descriptor
  -- `gethostbyname` returned a host
  pub host_found : Bool
  pub option_set : ℕ → Bool
  pub bound : Bool

-- The address to bind to; a host that is not found is used all the same.
pub server_address : Text → Bool → Option (Logged (Unit {0}))
server_address [] host_found = some (quiet tt)
server_address (c ∷ addr) host_found = if host_found then some (quiet tt) else none

-- The loop and what comes behind it, behind what was logged before.
pub accepting : Logged (Unit {0}) → Option (Logged Accepted) → Option (Logged Accepted)
accepting before none = none
accepting before (some r) =
    some (before >> (r >>= λ a. cc_log info "LightServer.cpp" 105 >> quiet a))

pub listening :
    SocketServer → ServerCalls → Option (Logged (Unit {0})) → List Event → Option (Logged Accepted)
unfolding set_option accepting accept_loop
listening s calls none events = none
listening s calls (some host) events =
    accepting
      (cc_check (is_open calls.opened) "LightServer.cpp" 69
        >> host
        >> set_option calls.option_set
        >> cc_check calls.bound "LightServer.cpp" 84)
      (accept_loop s.stopping events)

-- `tcp_server`
pub tcp_server : SocketServer → ServerCalls → List Event → Option (Logged Accepted)
unfolding listening server_address
tcp_server s calls events = listening s calls (server_address s.addr calls.host_found) events

-- `SocketServer::run`
pub run : SocketServer → ServerCalls → List Event → Option (Logged Accepted)
unfolding tcp_server
run s calls events = after_log (cc_log info "LightServer.cpp" 109) (tcp_server s calls events)

-- `SocketServer::~SocketServer` up to its `join`, for the thread: the flag, then a connection of its own.
unfoldable pub delete_server : Client → List Event
delete_server trigger = stopped ∷ connected trigger ∷ []
