-- ===== src/Examples/Threads.antt =====
-- Tests of the gameplay thread and of the send thread, with a game that counts its players.
use winsock_multi_thread_ser.Base.{
  ℕ, ◌+◌, ◌-◌, ◌≡◌, refl, true, false, [], ◌∷◌, arith, length, replicate, Returns, ok, some,
}
use winsock_multi_thread_ser.CString.{strcmp_equal}
use winsock_multi_thread_ser.Packet.{
  create_client, release_client, packet, RecvPacketInfo, SendPacketInfo, send_all, head_of,
}
use winsock_multi_thread_ser.Server.{
  Server, SocketClient, SocketSendInfo, UserHandlers, get_socket_client_node,
}
use winsock_multi_thread_ser.Server.Select.{recv_free_client_node}
use winsock_multi_thread_ser.Server.Gameplay.{gameplay_nodes, create_client_node}
use winsock_multi_thread_ser.Server.Gameplay.Clients.{clients_with}
use winsock_multi_thread_ser.Server.Gameplay.Leave.{
  GoesOn, gameplay_nodes-mismatch, gameplay_nodes-create-release,
}
use winsock_multi_thread_ser.Server.Sender.{send_node}
use winsock_multi_thread_ser.Server.Sender.Targets.{Frames}
use winsock_multi_thread_ser.Server.Sender.Cache.{frames_to, send_node-stale}

abbrev game : UserHandlers ℕ
game = record {
  v_user_create_client_node = λ players. ok (players + 1, 900);
  v_user_free_client_node = λ player players. ok (players - 1, 0);
  v_on_gameplay_receive_packet = λ player socket bytes players. ok (players, []);
}

abbrev client : SocketClient
client = record {
  node = 100;
  socket = 11;
  ip = replicate 16 0;
  c2s_packet_order_number = 4;
  alive_timeout = record { start_time = 0; end_time = 0 };
  alive_timeout_flag = false;
  user_data = 900;
}

abbrev entry : SocketSendInfo
entry = record { socket = 11; s2c_packet_order_number = 100 }

abbrev server : Server ℕ
server = record {
  accept_list = [];
  socket_recv_list = record { socket = 11; ip = replicate 16 0 } ∷ [];
  socket_send_list = entry ∷ [];
  socket_send_cache = entry ∷ [];
  packet_recv_list = [];
  packet_send_list = [];
  client_list = client ∷ [];
  s2c_orders = λ a. 7;
  listen_socket = 10;
  run_flag = true;
  select_time_mode_flag = false;
  accept_event = false;
  gameplay_event = false;
  send_event = false;
  closed = [];
  user = 1;
}

-- A packet that should have the number 5, and has 6.
abbrev bad : RecvPacketInfo
bad = record {
  action_type = packet;
  socket = 11;
  packet_length = 8;
  packet = 8 ∷ 0 ∷ 3 ∷ 0 ∷ 6 ∷ 0 ∷ 65 ∷ 0 ∷ [];
}

abbrev release : ℕ → RecvPacketInfo
release k = record {
  action_type = release_client;
  socket = k;
  packet_length = 0;
  packet = replicate 16 0;
}

abbrev joiner : RecvPacketInfo
joiner = record {
  action_type = create_client;
  socket = 12;
  packet_length = 0;
  packet = replicate 16 49;
}

bad-GoesOn : GoesOn bad
unfolding strcmp_equal
bad-GoesOn = refl

release-GoesOn : (k : ℕ) → GoesOn (release k)
unfolding strcmp_equal
release-GoesOn k = refl

joiner-GoesOn : GoesOn joiner
unfolding strcmp_equal
joiner-GoesOn = refl

found : get_socket_client_node 11 server.client_list ≡ some client
unfolding get_socket_client_node
found = refl

bad_number : (head_of bad.packet).packet_order_number ≡ 6
unfolding head_of
bad_number = refl

gameplay_nodes-mismatch_example :
    Returns
      (λ s'.
        (length s'.client_list ≡ 1)
        × (clients_with 11 s'.client_list ≡ 0)
        × (s'.user ≡ 1)
        × (s'.closed ≡ 11 ∷ []))
      (gameplay_nodes game 5000 (λ i. 200 + i) (bad ∷ release 11 ∷ []) server)
gameplay_nodes-mismatch_example =
    gameplay_nodes-mismatch game 5000 (λ i. 200 + i) server client bad (release 11) found refl
      (λ e. omega arith) refl bad-GoesOn (λ e. omega (arith, bad_number)) refl refl
      (release-GoesOn 11)

gameplay_nodes-create-release_example :
    Returns
      (λ s'.
        (s'.client_list ≡ client ∷ [])
        × (s'.socket_send_list ≡ entry ∷ [])
        × (s'.user ≡ 1)
        × (s'.closed ≡ 12 ∷ []))
      (gameplay_nodes game 5000 (λ i. 200 + i) (joiner ∷ release 12 ∷ []) server)
gameplay_nodes-create-release_example =
    gameplay_nodes-create-release game 5000 (λ i. 200 + i) server joiner (release 12) 2 1 900 0 refl
      refl (λ e. omega arith) (omega arith) refl refl refl joiner-GoesOn refl refl
      (release-GoesOn 12)

abbrev message : SendPacketInfo
message = record {
  send_type = send_all;
  socket = 11;
  packet_length = 8;
  packet = 8 ∷ 0 ∷ 4 ∷ 0 ∷ 0 ∷ 0 ∷ 65 ∷ 66 ∷ [];
}

-- Socket 11 leaves, and socket 12 joins.
send_node-stale_example :
    Returns
      (λ s'.
        Frames message.packet 8 s'.s2c_orders (entry ∷ []) (send_node message [] s').1
        × (frames_to 11 (send_node message [] s').1 ≡ 1)
        × (frames_to 12 (send_node message [] s').1 ≡ 0))
      (create_client_node game 200 joiner
        (recv_free_client_node (record { socket = 11; ip = replicate 16 0 }) [] server))
send_node-stale_example =
    send_node-stale game server (record { socket = 11; ip = replicate 16 0 }) [] 200 joiner (2, 900)
      message [] refl (omega arith) refl refl (omega arith) refl refl (omega arith)
      (λ a. ground arith)
