-- ===== src/Client.antt =====
-- MintClient/src/main.cpp: the console client. What Winsock, the keyboard and the clock answer are
-- in the state, or arguments.
pub mod Packets
pub mod Recv
pub mod Input
use winsock_multi_thread_ser.Base.{
  ℕ, zero, suc, ◌+◌, ◌-◌, ◌*◌, Bool, true, false, not, List, [], ◌∷◌, ◌++◌, ◌==◌, if◌then◌else◌,
  replicate, Bytes, Ptr, Run, ok, out_of_fuel, ◌>>=◌,
}
use winsock_multi_thread_ser.Receive
use winsock_multi_thread_ser.Send
use winsock_multi_thread_ser.Send.{Sent, complete, gave_up, pending}
use winsock_multi_thread_ser.Task.{TaskNode, v_add_task, task_run_count_unlimited}
use winsock_multi_thread_ser.Packet.{name_buffer_max}
use winsock_multi_thread_ser.Server.{invalid_socket}

-- A packet that was printed: its text, its length, and whether it had the expected order number.
pub record Shown : Type 0 where
  pub text : Bytes
  pub packet_length : ℕ
  pub in_order : Bool

-- `TCPClient` with its `SocketClient`, and round it: what `send` and `recv` will answer, the bytes
-- that the socket has been given, and what was printed. `tasks` is the list of `TaskManager`, whose
-- first node is `pAliveNode`.
pub record TcpClient : Type 0 where
  pub socket : ℕ
  pub name : Bytes
  pub s2c_packet_order_number : ℕ
  pub c2s_packet_order_number : ℕ
  pub recv_packet : Bytes
  pub recv_packet_length : ℕ
  pub recv_packet_buffer_index : ℕ
  pub tasks : List TaskNode
  pub send_answers : List Send.Answer
  pub recv_answers : List Receive.Answer
  pub given : Bytes
  pub shown : List Shown

-- `sizeof(PacketBuffer)`: the head and `PACKET_BUFFER_MAX` bytes.
abbrev pub packet_buffer_size : ℕ
packet_buffer_size = 518

-- The constructor, with the answers that are to come.
abbrev pub new_client : List Send.Answer → List Receive.Answer → TcpClient
new_client send_answers recv_answers = record {
  socket = 0;
  name = replicate name_buffer_max 0;
  s2c_packet_order_number = 0;
  c2s_packet_order_number = 0;
  recv_packet = replicate packet_buffer_size 0;
  recv_packet_length = 0;
  recv_packet_buffer_index = 0;
  tasks = [];
  send_answers = send_answers;
  recv_answers = recv_answers;
  given = [];
  shown = [];
}

-- The result of `WSAStartup`, the socket, and whether `connect` and `ioctlsocket` succeed.
pub record ConnectAnswers : Type 0 where
  pub startup : ℕ
  pub new_socket : ℕ
  pub connected : Bool
  pub non_blocking : Bool

-- `CreateWinsock`, and what it returns.
unfoldable pub create_winsock : ConnectAnswers → TcpClient → TcpClient × Bool
create_winsock a c =
    let with_socket : TcpClient = record c { socket = a.new_socket } in
    if not (a.startup == 0)
    then (c, false)
    else if a.new_socket == invalid_socket
    then (with_socket, false)
    else if not a.connected
    then (with_socket, false)
    else (with_socket, a.non_blocking)

abbrev pub task_alive : ℕ
task_alive = 1

-- `Create`, and what it returns.
unfoldable pub create : ConnectAnswers → TcpClient → TcpClient × Bool
unfolding create_winsock v_add_task
create a c =
    let w = create_winsock a c in
    if w.1
    then (
      record w.0 {
        recv_packet_length = Receive.packet_length_size;
        tasks = v_add_task task_alive 30000 task_run_count_unlimited 0 [];
      },
      true,
    )
    else w

-- `SendEx`, whose loop is that of the server's `SendEx` and whose result nobody looks at.
after_send : TcpClient → Sent → Run TcpClient
after_send c (complete out answers) =
    ok (record c { given = c.given ++ out; send_answers = answers })
after_send c (gave_up out answers) =
    ok (record c { given = c.given ++ out; send_answers = answers })
after_send c (pending out) = out_of_fuel

unfoldable pub client_send_ex : Bytes → ℕ → TcpClient → Run TcpClient
unfolding after_send
client_send_ex packet packet_length c = do
  r ← Send.send_ex c.send_answers packet packet_length
  after_send c r
