-- ===== src/Client/Packets.antt =====
-- The packets of the client: Send_C2S_Alive, Send_C2S_Name, Send_C2S_Message, Send_C2S_Message_2 and
-- vOnRunTask.
pub mod Delivered
use winsock_multi_thread_ser.Base.{
  ℕ, ◌+◌, ◌%◌, List, [], ◌∷◌, ◌++◌, ◌==◌, if◌then◌else◌, replicate, Bytes, inc16, u16, Run, ok,
  ◌>>=◌,
}
use winsock_multi_thread_ser.CString.{strcpy_s}
use winsock_multi_thread_ser.Task.{TaskNode}
use winsock_multi_thread_ser.Packet.{
  head_bytes, head_size, name_buffer_max, message_buffer_max, packet_c2s_alive, packet_c2s_name,
  packet_c2s_message, packet_c2s_message_2,
}
use winsock_multi_thread_ser.Client.{TcpClient, client_send_ex, task_alive}

-- A packet: its head and the array behind it.
unfoldable pub c2s_packet : ℕ → ℕ → ℕ → Bytes → Bytes
unfolding head_bytes
c2s_packet packet_length packet_type order array =
    head_bytes (record {
      packet_length = packet_length;
      packet_type = packet_type;
      packet_order_number = order;
    })
    ++ array

-- `++Client.C2S_PacketOrderNumber`.
abbrev pub next_order : TcpClient → TcpClient
next_order c = record c { c2s_packet_order_number = inc16 c.c2s_packet_order_number }

unfoldable pub send_c2s_alive : TcpClient → Run TcpClient
unfolding c2s_packet client_send_ex
send_c2s_alive c =
    client_send_ex (c2s_packet head_size packet_c2s_alive (inc16 c.c2s_packet_order_number) [])
      head_size (next_order c)

-- The three functions that send a text of a given length in an array of a given size.
unfoldable pub send_text : ℕ → ℕ → Bytes → ℕ → TcpClient → Run TcpClient
unfolding c2s_packet client_send_ex strcpy_s
send_text packet_type size buff buff_length c = do
  let packet_length = (head_size + buff_length) % u16
  array ← strcpy_s (replicate size 0) size buff
  client_send_ex (c2s_packet packet_length packet_type (inc16 c.c2s_packet_order_number) array)
      packet_length (next_order c)

unfoldable pub send_c2s_name : Bytes → ℕ → TcpClient → Run TcpClient
unfolding send_text
send_c2s_name = send_text packet_c2s_name name_buffer_max

unfoldable pub send_c2s_message : Bytes → ℕ → TcpClient → Run TcpClient
unfolding send_text
send_c2s_message = send_text packet_c2s_message message_buffer_max

unfoldable pub send_c2s_message_2 : Bytes → ℕ → TcpClient → Run TcpClient
unfolding send_text
send_c2s_message_2 = send_text packet_c2s_message_2 message_buffer_max

-- `vOnRunTask`.
unfoldable pub v_on_run_task : TcpClient → TaskNode → Run (TcpClient × TaskNode)
unfolding send_c2s_alive
v_on_run_task c node =
    if node.task_number == task_alive then (do c ← send_c2s_alive c; ok (c, node)) else ok (c, node)
