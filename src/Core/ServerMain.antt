-- ===== src/Core/ServerMain.antt =====
-- src/core/ParameterServerMain.cpp: the servers that the program starts. The flags are not
-- negative, and the sum of the two numbers of ports is an `int`.
-- `ParameterServer::init` has no body in the repository and `get_ip_addr` asks the kernel: whether
-- a server's `init` succeeds, and the address of a device, are parameters.
pub mod Slots
pub mod Devices
use ccml.Base.{
  ℕ, zero, suc, ◌+◌, ◌*◌, Bool, true, false, List, [], ◌∷◌, ◌++◌, Option, none, some, length,
  get_elem?,
}
use ccml.Utils.Logging.{Logged, cc_check, cc_log, info, ◌>>=◌, ◌>>◌, quiet, behind}
use ccml.Utils.Str.{Text, split}

-- `ParameterServer(addr, port)`
abbrev pub ServerAt : Type 0
ServerAt = Text × ℕ

-- `pservers`, whose pointers are null until they are set.
abbrev pub Slots : Type 0
Slots = List (Option ServerAt)

-- `resize`, of an empty vector.
pub empty_slots : ℕ → Slots
empty_slots zero = []
empty_slots (suc n) = none ∷ empty_slots n

before_slot : Option ServerAt → Option Slots → Option Slots
before_slot x none = none
before_slot x (some slots) = some (x ∷ slots)

-- `pservers[i].reset(server)`; out of range is undefined.
pub set_slot : ℕ → ServerAt → Slots → Option Slots
unfolding before_slot
set_slot i s [] = none
set_slot zero s (x ∷ slots) = some (some s ∷ slots)
set_slot (suc i) s (x ∷ slots) = before_slot x (set_slot i s slots)

-- The last loop of `main`: the servers that are joined, in order; a null pointer is undefined.
pub join_servers : Slots → Option (List ServerAt)
join_servers [] = some []
join_servers (none ∷ slots) = none
join_servers (some s ∷ slots) = elim (join_servers slots) [
  | none ↦ none
  | some rest ↦ some (s ∷ rest)
]

-- They are the result; the join logs nothing.
abbrev pub joined_all : Option (List ServerAt) → Option (Logged (List ServerAt))
joined_all none = none
joined_all (some servers) = some (quiet servers)

abbrev pub joined : Slots → Option (Logged (List ServerAt))
joined slots = joined_all (join_servers slots)

-- `FLAGS_num_ports`, `FLAGS_num_ports_for_sparse`, `FLAGS_port`, `FLAGS_nics`
pub record MainFlags : Type 0 where
  pub num_ports : ℕ
  pub num_ports_for_sparse : ℕ
  pub port : ℕ
  pub nics : Text

module _ (init : ServerAt → Bool) (ip_addr : Text → Text) where
  -- The check and the message of a server that is made, at two lines.
  started : ℕ → ServerAt → Option Slots → Option (Logged Slots)
  started line server none = none
  started line server (some slots) = some (
      cc_check (init server) "ParameterServerMain.cpp" line
      >> cc_log info "ParameterServerMain.cpp" (line + 1)
      >> quiet slots)

  -- The loop without devices, for the ports from `i` on: so many are left.
  pub port_loop : ℕ → ℕ → ℕ → Slots → Option (Logged Slots)
  unfolding started set_slot
  port_loop port i zero slots = some (quiet slots)
  port_loop port i (suc k) slots =
      behind (λ filled. port_loop port (suc i) k filled)
        (started 28 ([], port + i) (set_slot i ([], port + i) slots))

  -- A round of the inner loop, with `devices[i]`.
  pub device_round : ℕ → Option Text → ℕ → Slots → Option (Logged Slots)
  unfolding started set_slot
  device_round port_i none slot slots = none
  device_round port_i (some device) slot slots =
      started 42 (ip_addr device, port_i) (set_slot slot (ip_addr device, port_i) slots)

  -- The inner loop from `j` on: so many devices are left. Every round asks for `devices[i]`.
  pub device_loop : ℕ → ℕ → List Text → ℕ → ℕ → Slots → Option (Logged Slots)
  unfolding device_round
  device_loop port i devices j zero slots = some (quiet slots)
  device_loop port i devices j (suc k) slots =
      behind (λ filled. device_loop port i devices (suc j) k filled)
        (device_round (port + i) (get_elem? devices i) (i * length devices + j) slots)

  -- The outer loop.
  pub nic_loop : ℕ → ℕ → List Text → ℕ → Slots → Option (Logged Slots)
  unfolding device_loop
  nic_loop port i devices zero slots = some (quiet slots)
  nic_loop port i devices (suc k) slots =
      behind (λ filled. nic_loop port (suc i) devices k filled)
        (device_loop port i devices 0 (length devices) slots)

  -- The else branch.
  pub with_devices : ℕ → ℕ → Option (List Text) → Option (Logged Slots)
  unfolding nic_loop empty_slots
  with_devices port num_ports none = none
  with_devices port num_ports (some devices) =
      nic_loop port 0 devices num_ports (empty_slots (length devices * num_ports))

  -- The two branches: by whether FLAGS_nics is empty.
  pub start_servers : ℕ → ℕ → Text → Option (Logged Slots)
  unfolding port_loop with_devices
  start_servers port num_ports [] = port_loop port 0 num_ports (empty_slots num_ports)
  start_servers port num_ports (c ∷ nics) = with_devices port num_ports (split (c ∷ nics) 44)

  -- `main` behind `init_main`: the servers joined, in order.
  pub main : MainFlags → Option (Logged (List ServerAt))
  unfolding start_servers join_servers
  main flags =
      behind joined
        (start_servers flags.port (flags.num_ports + flags.num_ports_for_sparse) flags.nics)
