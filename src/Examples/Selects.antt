-- ===== src/Examples/Selects.antt =====
-- Tests of the select thread: socket 11 sends a packet of three bytes, 12 is closed, 13 is not ready.
use winsock_multi_thread_ser.Base.{
  ℕ, ◌≡◌, ◌||◌, refl, true, false, Bool, List, [], ◌∷◌, replicate, Bytes, ok, Returns, ◌==◌,
  if◌then◌else◌,
}
use winsock_multi_thread_ser.Receive.{
  Answer, got, closed, packet, lost, receive_ex, receive_loop, receive_rest, write_at,
}
use winsock_multi_thread_ser.Server.Start.{WinsockAnswers}
use winsock_multi_thread_ser.Server.{Server, SocketInfo, blank_packet}
use winsock_multi_thread_ser.Server.Select.{receive_nodes, accept_list_create_client_node}
use winsock_multi_thread_ser.Server.Select.Accept.{
  Accepted, accept_list_create_client_node-Accepted,
}
use winsock_multi_thread_ser.Server.Select.Nodes.{
  done, idle, arrived, left, Told, packet_of, release_of, receive_nodes-Told,
}

abbrev node : ℕ → SocketInfo
node k = record { socket = k; ip = replicate 16 0 }

abbrev nodes : List SocketInfo
nodes = node 11 ∷ node 12 ∷ node 13 ∷ []

abbrev server : Server ℕ
server = record {
  accept_list = [];
  socket_recv_list = nodes;
  socket_send_list = [];
  socket_send_cache = [];
  packet_recv_list = [];
  packet_send_list = [];
  client_list = [];
  s2c_orders = λ a. 0;
  listen_socket = 10;
  run_flag = true;
  select_time_mode_flag = false;
  accept_event = false;
  gameplay_event = false;
  send_event = false;
  closed = [];
  user = 0;
}

abbrev ready : ℕ → Bool
ready k = k == 11 || k == 12

abbrev answers : ℕ → List Answer
answers k = if k == 11 then got (3 ∷ 0 ∷ []) ∷ got (65 ∷ []) ∷ [] else closed ∷ []

abbrev bytes : Bytes
bytes = 3 ∷ 0 ∷ 65 ∷ replicate 509 0

first : receive_ex (answers 11) blank_packet ≡ ok (packet bytes 3 [])
unfolding receive_ex receive_loop receive_rest write_at
first = refl

second : receive_ex (answers 12) blank_packet ≡ ok (lost [])
unfolding receive_ex receive_loop receive_rest
second = refl

receive_nodes-Told_example :
    Returns
      (Told server (node 11 ∷ node 13 ∷ []) (packet_of 11 bytes 3 ∷ release_of 12 ∷ []))
      (receive_nodes ready answers [] nodes server)
receive_nodes-Told_example =
    receive_nodes-Told ready answers [] server
      (arrived refl first (left refl second (idle refl done))) refl

abbrev accepting : Server ℕ
accepting = record server { accept_list = node 21 ∷ node 22 ∷ [] }

accept_list_create_client_node-Accepted_example :
    Returns (Accepted accepting (node 21 ∷ node 22 ∷ [])) (accept_list_create_client_node accepting)
accept_list_create_client_node-Accepted_example =
    accept_list_create_client_node-Accepted accepting (refl, (refl, tt))

-- All calls of Winsock succeed but `listen`.
abbrev refused : WinsockAnswers
refused = record { startup = 0; socket = 10; bound = true; listening = false; non_blocking = true }
