-- ===== src/Server.antt =====
-- MintServer/src/MTLibrary/TCPServer.h and TCPServer.cpp: what the threads of the server share and
-- do. A list of nodes is the sequence of what its nodes hold; a locked operation is one step.
pub mod Start
pub mod Select
pub mod Gameplay
pub mod Sender
use winsock_multi_thread_ser.Base.{
  ℕ, zero, suc, ◌+◌, ◌^◌, ◌-◌, Bool, true, false, Option, none, some, List, [], ◌∷◌, ◌++◌, ltb,
  ◌==◌, if◌then◌else◌, length, take, Bytes, Ptr, null, Run, ok, ◌>>=◌, replicate,
}
use winsock_multi_thread_ser.Receive.{packet_buffer_max}
use winsock_multi_thread_ser.Tool.{TimerInfo, s_memcpy}
use winsock_multi_thread_ser.Packet.{RecvPacketInfo, SendPacketInfo}

-- `INVALID_SOCKET`, `(SOCKET)(~0)` of 64 bits.
abbrev pub invalid_socket : ℕ
invalid_socket = 2 ^ 64 - 1

-- `CONNECTION_MAX`.
abbrev pub connection_max : ℕ
connection_max = 1000

pub record SocketInfo : Type 0 where
  pub socket : ℕ
  pub ip : Bytes

-- `s2c_packet_order_number` is the address of the client's node, in which the counter is.
pub record SocketSendInfo : Type 0 where
  pub socket : ℕ
  pub s2c_packet_order_number : Ptr

-- `SocketClient`, with the address of its node. The member `S2C_PacketOrderNumber`, which the send
-- thread writes through a pointer, is in `s2c_orders` of the server.
pub record SocketClient : Type 0 where
  pub node : Ptr
  pub socket : ℕ
  pub ip : Bytes
  pub c2s_packet_order_number : ℕ
  pub alive_timeout : TimerInfo
  pub alive_timeout_flag : Bool
  pub user_data : Ptr

-- `TCPServer`. `closed` are the sockets that were given to `closesocket`, the last one first, the
-- events are those of the accept, gameplay and send threads. `user` are the members of
-- the class below.
pub record Server (A : Type 0) : Type 0 where
  pub accept_list : List SocketInfo
  pub socket_recv_list : List SocketInfo
  pub socket_send_list : List SocketSendInfo
  pub socket_send_cache : List SocketSendInfo
  pub packet_recv_list : List RecvPacketInfo
  pub packet_send_list : List SendPacketInfo
  pub client_list : List SocketClient
  pub s2c_orders : Ptr → ℕ
  pub listen_socket : ℕ
  pub run_flag : Bool
  pub select_time_mode_flag : Bool
  pub accept_event : Bool
  pub gameplay_event : Bool
  pub send_event : Bool
  pub closed : List ℕ
  pub user : A

-- The virtual functions of a class below TCPServer, on its members. The first one returns the
-- client's `pUserData`. The last one answers a packet of a client: it gets its user data, its socket
-- and the packet, and returns the nodes that it gave to `AddSendList`.
pub record UserHandlers (A : Type 0) : Type 0 where
  pub v_user_create_client_node : A → Run (A × Ptr)
  pub v_user_free_client_node : Ptr → A → Run (A × Ptr)
  pub v_on_gameplay_receive_packet : Ptr → ℕ → Bytes → A → Run (A × List SendPacketInfo)

-- `CloseSocket`: the reference is set to `INVALID_SOCKET`; the sockets that are closed.
unfoldable pub close_socket : ℕ → List ℕ → ℕ × List ℕ
close_socket socket closed =
    if socket == invalid_socket then (socket, closed) else (invalid_socket, socket ∷ closed)

-- The loops that look for a socket: the first entry, and the list without it.
unfoldable pub get_socket_client_node : ℕ → List SocketClient → Option SocketClient
get_socket_client_node socket [] = none
get_socket_client_node socket (c ∷ cs) =
    if c.socket == socket then some c else get_socket_client_node socket cs

-- The list without the node of that client.
pub unlink_client : ℕ → List SocketClient → List SocketClient
unlink_client socket [] = []
unlink_client socket (c ∷ cs) = if c.socket == socket then cs else c ∷ unlink_client socket cs

-- What is written through the pointer to the first client with a socket.
pub set_client : ℕ → SocketClient → List SocketClient → List SocketClient
set_client socket d [] = []
set_client socket d (c ∷ cs) = if c.socket == socket then d ∷ cs else c ∷ set_client socket d cs

abbrev or_empty : Option Bytes → Bytes
or_empty none = []
or_empty (some b) = b

unfoldable pub unlink_send : ℕ → List SocketSendInfo → List SocketSendInfo
unlink_send socket [] = []
unlink_send socket (e ∷ es) = if e.socket == socket then es else e ∷ unlink_send socket es

-- `sMemcpy` between two arrays.
unfoldable pub copy_array : Bytes → ℕ → Bytes → ℕ → Run Bytes
copy_array dest dest_length src src_length = do
  d ← s_memcpy (some dest) dest_length (some src) src_length
  ok (or_empty d)

-- `Packet` and `IP` of a node that comes from its list: all bytes are 0.
abbrev pub blank_packet : Bytes
blank_packet = replicate packet_buffer_max 0

abbrev pub ip_length : ℕ
ip_length = 16

abbrev pub blank_ip : Bytes
blank_ip = replicate ip_length 0
