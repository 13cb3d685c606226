-- ===== src/Core/Server/Connection.antt =====
-- src/core/LightServer.h and src/core/LightServer.cpp: sockets and their options, the channel that a
-- client opens, and the address of a device. What the system calls answer are arguments; -1 for a
-- descriptor is `none`.
use ccml.Base.{ℕ, ◌≡◌, refl, Bool, true, false, [], ◌∷◌, Option, none, some, if◌then◌else◌}
use ccml.Utils.Logging.{Logged, cc_check, cc_log, info, behind, ◌>>◌, quiet}
use ccml.Utils.Logging.Quiet.{result}
use ccml.Utils.Str.{Text}

abbrev pub Descriptor : Type 0
Descriptor = Option ℕ

-- `fd >= 0`
unfoldable pub is_open : Descriptor → Bool
is_open none = false
is_open (some fd) = true

-- `create_channel`, `SocketChannel`
pub record SocketChannel : Type 0 where
  pub tcp_socket : Descriptor
  pub peer_name : Text

unfoldable pub create_channel : Descriptor → Text → SocketChannel
create_channel sock peer_name = record { tcp_socket = sock; peer_name = peer_name }

-- `get_peer_name`
pub get_peer_name : SocketChannel → Text
get_peer_name channel = channel.peer_name

-- `SocketChannel::~SocketChannel`: the descriptor that is closed.
unfoldable pub delete_channel : SocketChannel → Logged Descriptor
delete_channel channel = cc_log info "SocketChannel.cpp" 17 >> quiet channel.tcp_socket

-- `FLAGS_small_messages`, a local of `set_option`
abbrev flags_small_messages : Bool
flags_small_messages = false

-- `set_option`; `good` says of a line whether its `setsockopt` returned 0 or more.
unfoldable pub set_option : (ℕ → Bool) → Logged (Unit {0})
set_option good =
    cc_check (good 144) "LightServer.cpp" 144
    >> cc_check (good 145) "LightServer.cpp" 145
    >> cc_check (good 146) "LightServer.cpp" 146
    >> (if flags_small_messages
        then (cc_check (good 150) "LightServer.cpp" 150
            >> cc_check (good 152) "LightServer.cpp" 152)
        else quiet tt)
    >> cc_check (good 155) "LightServer.cpp" 155

-- What the system calls of the constructor of `SocketClient` answer.
pub record ClientCalls : Type 0 where
  pub sockfd : Descriptor
  -- `gethostbyname_r` returned 0
  pub resolved : Bool
  -- and stored a host
  pub host_found : Bool
  pub option_set : ℕ → Bool
  pub connected : Bool

-- A `std::string` whose object was overwritten with zeros: its length is 0.
abbrev overwritten : Text → Text
overwritten s = []

-- `SocketClient::SocketClient`: the channel, and the string that `server_addr` refers to by then. The
-- `memset` is applied to that string, not to the address. Without a host the null pointer is used.
pub new_client : Text → ClientCalls → Option (Logged (SocketChannel × Text))
unfolding set_option create_channel is_open
new_client server_addr calls =
    if calls.host_found
    then some (
        cc_check (is_open calls.sockfd) "LightServer.cpp" 121
        >> cc_check calls.resolved "LightServer.cpp" 122
        >> set_option calls.option_set
        >> cc_check calls.connected "LightServer.cpp" 133
        >> quiet (create_channel calls.sockfd (overwritten server_addr), overwritten server_addr))
    else none

-- `SocketClient::get_socketchannel`
pub get_socketchannel : SocketChannel × Text → SocketChannel
get_socketchannel (channel, addr) = channel

-- The address that the destructor of a server connects to: "127.0.0.1" if it has none.
abbrev trigger_address : Text → Text
trigger_address [] = 49 ∷ 50 ∷ 55 ∷ 46 ∷ 48 ∷ 46 ∷ 48 ∷ 46 ∷ 49 ∷ []
trigger_address (c ∷ addr) = c ∷ addr

-- The client that the destructor makes and destroys: the descriptor that is closed.
pub trigger : Text → ClientCalls → Option (Logged Descriptor)
unfolding new_client delete_channel
trigger addr calls =
    behind (λ (channel, used). some (delete_channel channel))
      (new_client (trigger_address addr) calls)

-- However the connection of the destructor goes, its descriptor is closed, unless the host is not found.
trigger_closes :
    (addr : Text) (calls : ClientCalls)
    → calls.host_found ≡ true
    → result (trigger addr calls) ≡ some calls.sockfd
unfolding trigger new_client delete_channel create_channel
trigger_closes addr calls h = rw h refl

-- `get_ip_addr`; `address` is what `inet_ntoa` makes of the address that `ioctl` stored, or of the
-- uninitialised one.
pub get_ip_addr : Descriptor → Bool → Text → Logged Text
get_ip_addr sockfd ioctl_good address =
    cc_check (is_open sockfd) "LightServer.cpp" 164
    >> cc_check ioctl_good "LightServer.cpp" 169
    >> quiet address
