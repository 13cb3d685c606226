-- ===== src/Tests/Servers.antt =====
-- The theorems on servers at concrete inputs.
use ccml.Base.{
  ℕ, ◌≤◌, ◌<◌, ◌≡◌, ◌⊎◌, inr, ◌↔◌, refl, Bool, true, List, [], ◌∷◌, ◌++◌, map, none, some, length,
  arith,
}
use ccml.Utils.Logging.{quiet}
use ccml.Utils.Logging.Quiet.{result}
use ccml.Utils.Str.{Text, split}
use ccml.Core.Channel.{Bytes, got}
use ccml.Core.Channel.Buffer.{Fills, full, part}
use ccml.Core.Proto.{Service, Services, find_service, dispatch, handle_request, service}
use ccml.Core.Proto.Registry.{register_list, replay, view_of, AllNew, register_list_refines}
use ccml.Core.Proto.Dispatch.{reader_of, handle_request_shifted}
use ccml.Core.Server.Accept
use ccml.Core.Server.Accept.{Client, connected, ServerCalls, new_server, delete_server}
use ccml.Core.Server.Accept.Stopping.{channel_of, run_stopped}
use ccml.Core.ServerMain.{MainFlags, main}
use ccml.Core.ServerMain.Slots.{device_servers}
use ccml.Core.ServerMain.Devices.{main_devices}
use ccml.Core.ParameterServer.{
  Alignment, ReadWriteBuffer, resize_with_align_hints, reset_align_alloc,
}
use ccml.Core.ParameterServer.Blocks.{
  IsAligned, Placed, next_blocks, resize_with_align_hints-Placed,
}

-- A service that answers the length of its request, which is any bytes.
abbrev parse_any : Bytes → Bool × Bytes
parse_any bytes = (true, bytes)

abbrev serialize_any : Bytes → Bool × Bytes
serialize_any bytes = (true, bytes)

abbrev length_service : Service
length_service = service parse_any serialize_any (λ request. quiet ((length request ∷ []) ∷ []))

abbrev echo_service : Service
echo_service = service parse_any serialize_any (λ request. quiet (request ∷ []))

abbrev services : Services
services = ((97 ∷ []), length_service) ∷ ((98 ∷ []), echo_service) ∷ []

register_list_refines_example :
    (view_of (register_list services []).value ≡ replay services (λ name. none))
    × (((register_list services []).log ≡ []) ↔ AllNew services (λ name. none))
register_list_refines_example = register_list_refines services

-- The function `a` with a protobuf of two bytes: `ab` is looked up.
two_bytes : Fills (97 ∷ 98 ∷ []) (got (97 ∷ 98 ∷ []) ∷ got (99 ∷ []) ∷ []) (got (99 ∷ []) ∷ [])
two_bytes = part (97 ∷ 98 ∷ []) (omega arith) refl full

handle_request_shifted_example :
    handle_request services
      (reader_of ((97 ∷ []) ∷ (98 ∷ 99 ∷ []) ∷ []))
      (got (97 ∷ 98 ∷ []) ∷ got (99 ∷ []) ∷ [])
    ≡ dispatch
        (find_service (97 ∷ 98 ∷ []) services)
        (record { num_blocks = 1 ∷ 2 ∷ []; current_block_index = 1 })
        (got (99 ∷ []) ∷ [])
handle_request_shifted_example =
    handle_request_shifted services (97 ∷ []) (98 ∷ 99 ∷ []) [] (omega arith) refl two_bytes

-- Two clients, then the destructor's connection.
abbrev client : ℕ → Client
client n = record { newsockfd = some n; named = true; peer_name = 49 ∷ [] }

abbrev calls : ServerCalls
calls = record { opened = some 3; host_found = true; option_set = λ line. true; bound = true }

run_stopped_example :
    result (
      Accept.run
        (new_server (97 ∷ []) 80)
        calls
        (map connected (client 4 ∷ client 5 ∷ []) ++ delete_server (client 6)))
    ≡ some (map channel_of (client 4 ∷ client 5 ∷ []), [])
unfolding delete_server
run_stopped_example = run_stopped (97 ∷ []) 80 calls (client 4 ∷ client 5 ∷ []) (client 6) [] refl

-- Two devices, `a` and `b`, one port and one for sparse parameters.
abbrev flags : MainFlags
flags = record { num_ports = 1; num_ports_for_sparse = 1; port = 7164; nics = 97 ∷ 44 ∷ 98 ∷ [] }

abbrev devices : List Text
devices = (97 ∷ []) ∷ (98 ∷ []) ∷ []

devices-split : split (97 ∷ 44 ∷ 98 ∷ []) 44 ≡ some devices
unfolding split
devices-split = refl

main_devices_example :
    ((2 ≤ 2)
      × (result (main (λ s. true) (λ device. device) flags)
          ≡ some (device_servers (λ s. true) (λ device. device) 7164 0 2 devices)))
    ⊎ ((2 < 2) × (main (λ s. true) (λ device. device) flags ≡ none))
main_devices_example =
    main_devices (λ s. true) (λ device. device) flags 97 (44 ∷ 98 ∷ []) devices refl devices-split
      (omega arith)

-- The device `a` gets both servers of the first port.
both_ports :
    device_servers (λ s. true) (λ device. device) 7164 0 2 devices
    ≡ ((97 ∷ []), 7164) ∷ ((97 ∷ []), 7164) ∷ ((98 ∷ []), 7165) ∷ ((98 ∷ []), 7165) ∷ []
both_ports = refl

-- Elements of four bytes, aligned to 32 bytes.
abbrev floats : Alignment
floats = record { size_of_t = 4; align_bytes = 32 }

floats-IsAligned : IsAligned floats
floats-IsAligned = record {
  size_pos = omega arith;
  align_pos = omega arith;
  fits = inr (omega arith);
  exponent = 3;
  count_power = inr refl;
}

abbrev empty_buffer : ReadWriteBuffer
empty_buffer = record { elements = 0; current_offset = 0 }

resize_with_align_hints-Placed_example :
    let b' = reset_align_alloc floats (resize_with_align_hints floats empty_buffer 14 3) in
    Placed floats 0 b'.elements (next_blocks floats b' (3 ∷ 8 ∷ 3 ∷ [])) (3 ∷ 8 ∷ 3 ∷ [])
resize_with_align_hints-Placed_example =
    resize_with_align_hints-Placed floats floats-IsAligned empty_buffer (3 ∷ 8 ∷ 3 ∷ [])
      (omega arith)
