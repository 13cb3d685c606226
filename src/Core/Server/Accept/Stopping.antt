-- ===== src/Core/Server/Accept/Stopping.antt =====
-- How the thread that accepts connections ends.
use ccml.Base.{ℕ, ◌≡◌, refl, ap, ◌∙◌, true, false, List, [], ◌∷◌, ◌++◌, map, Option, none, some}
use ccml.Utils.Logging.{Logged, cc_log, info, quiet}
use ccml.Utils.Logging.Quiet.{result, result-after_log}
use ccml.Utils.Str.{Text}
use ccml.Core.Server.Connection.{SocketChannel, create_channel}
use ccml.Core.Server.Accept.{
  SocketServer, new_server, Client, Event, stopped, connected, Accepted, start_worker, accept_loop,
  ServerCalls, server_address, accepting, listening, tcp_server, run,
}

-- The channel of the worker that a client gets.
abbrev pub channel_of : Client → SocketChannel
channel_of c = record { tcp_socket = c.newsockfd; peer_name = c.peer_name }

-- One more worker.
abbrev with_worker : Client → Option Accepted → Option Accepted
with_worker c none = none
with_worker c (some (workers, events)) = some (channel_of c ∷ workers, events)

start_worker-result :
    (c : Client) (o : Option (Logged Accepted))
    → result (start_worker c o) ≡ with_worker c (result o)
unfolding start_worker create_channel
start_worker-result c none = refl
start_worker-result c (some r) = refl

accept_loop-stopped :
    (before : List Client) (last : Client) (after : List Event)
    → result (accept_loop false (map connected before ++ (stopped ∷ connected last ∷ after)))
      ≡ some (map channel_of before, after)
unfolding accept_loop
accept_loop-stopped [] last after = refl
accept_loop-stopped (c ∷ before) last after =
    start_worker-result c _ ∙ ap (with_worker c) (accept_loop-stopped before last after)

accepting-result :
    (log : Logged (Unit {0})) (o : Option (Logged Accepted)) → result (accepting log o) ≡ result o
unfolding accepting
accepting-result log none = refl
accepting-result log (some r) = refl

listening-result :
    (s : SocketServer) (calls : ServerCalls) (host : Logged (Unit {0})) (events : List Event)
    → result (listening s calls (some host) events) ≡ result (accept_loop s.stopping events)
unfolding listening
listening-result s calls host events = accepting-result _ (accept_loop s.stopping events)

server_address_found : (addr : Text) → server_address addr true ≡ some (quiet tt)
unfolding server_address
server_address_found [] = refl
server_address_found (c ∷ addr) = refl

-- The thread gives every client that connects before the server is destroyed a worker of its own, in
-- order, whatever the calls report. The first connection after that, the destructor's or that of a
-- client that was faster, ends the loop without a worker. The host of the address was found.
pub run_stopped :
    (addr : Text) (port : ℕ) (calls : ServerCalls) (before : List Client) (last : Client)
    (after : List Event)
    → calls.host_found ≡ true
    → result (
        run
          (new_server addr port)
          calls
          (map connected before ++ (stopped ∷ connected last ∷ after)))
      ≡ some (map channel_of before, after)
unfolding run tcp_server new_server
run_stopped addr port calls before last after h =
    result-after_log (cc_log info "LightServer.cpp" 109)
      (listening s calls (server_address addr calls.host_found) events)
    ∙ (ap (λ host. result (listening s calls host events))
          (ap (server_address addr) h ∙ server_address_found addr)
        ∙ (listening-result s calls (quiet tt) events ∙ accept_loop-stopped before last after))
  where
    s : SocketServer
    s = record {
      socket = some 0;
      port = port;
      addr = addr;
      max_pending_connections = 100;
      stopping = false;
    }

    events : List Event
    events = map connected before ++ (stopped ∷ connected last ∷ after)
