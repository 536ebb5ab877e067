-- ===== src/Server/Gameplay.antt =====
-- TCPServer.cpp: the gameplay thread.
pub mod Clients
pub mod Leave
pub mod Numbered
pub mod Faults
pub mod Alive
use winsock_multi_thread_ser.Base.{
  ℕ, suc, Bool, true, false, ◌&&◌, Option, none, some, List, [], ◌∷◌, ◌++◌, ◌==◌, if◌then◌else◌,
  Bytes, byte_at, Ptr, inc16, update, Run, ok, ◌>>=◌,
}
use winsock_multi_thread_ser.CString.{strcmp_equal}
use winsock_multi_thread_ser.Tool.{s_delay_time}
use winsock_multi_thread_ser.Receive.{packet_buffer_max}
use winsock_multi_thread_ser.Packet.{
  ActionType, create_client, release_client, packet, RecvPacketInfo, SendType, SendPacketInfo,
  head_of, buffer_of, packet_c2s_alive,
}
use winsock_multi_thread_ser.Server.{
  Server, SocketClient, UserHandlers, close_socket, get_socket_client_node, unlink_client,
  set_client, unlink_send, copy_array, blank_packet, blank_ip, ip_length,
}

-- "server_exit"
abbrev pub server_exit_text : Bytes
server_exit_text = b's' ∷ b'e' ∷ b'r' ∷ b'v' ∷ b'e' ∷ b'r' ∷ b'_' ∷ b'e' ∷ b'x' ∷ b'i' ∷ b't' ∷ []

-- The loop of `CheckClientAlive`: the timers and flags of the clients, and what is closed.
abbrev pub check_client : ℕ → SocketClient → SocketClient × Bool
check_client now c =
    let r = s_delay_time now c.alive_timeout 60000 in
    if r.0
    then (record c { alive_timeout = r.1; alive_timeout_flag = true }, true)
    else (record c { alive_timeout = r.1 }, false)

abbrev pub check_clients : ℕ → List SocketClient → List SocketClient
check_clients now [] = []
check_clients now (c ∷ cs) = (check_client now c).0 ∷ check_clients now cs

abbrev pub timed_out : ℕ → List SocketClient → List ℕ → List ℕ
timed_out now [] closed = closed
timed_out now (c ∷ cs) closed =
    timed_out now cs (if (check_client now c).1 then c.socket ∷ closed else closed)

-- `AddSendList` up to the link: `packet_length` bytes of the packet are copied.
unfoldable pub new_send_packet : SendType → ℕ → Bytes → ℕ → Run SendPacketInfo
unfolding copy_array
new_send_packet send_type socket bytes packet_length = do
  p ← copy_array blank_packet packet_buffer_max bytes packet_length
  ok (record { send_type = send_type; socket = socket; packet_length = packet_length; packet = p })

module _ {A : Type 0} where
  -- `ServerExit`: the three threads are awakened.
  pub server_exit : Server A → Server A
  server_exit s =
      let l = close_socket s.listen_socket s.closed in
      record s {
        run_flag = false;
        listen_socket = l.0;
        closed = l.1;
        accept_event = true;
        gameplay_event = true;
        send_event = true;
      }

  -- `AddSendList` of nodes that are filled.
  pub add_send_list : List SendPacketInfo → Server A → Server A
  add_send_list [] s = s
  add_send_list (n ∷ ns) s =
      add_send_list ns
        (record s { packet_send_list = s.packet_send_list ++ n ∷ []; send_event = true })

  module _ (h : UserHandlers A) where
    -- `CreateClientNode`, where `node` is what `ClientList.GetNode` returned.
    unfoldable pub create_client_node : Ptr → RecvPacketInfo → Server A → Run (Server A)
    unfolding copy_array
    create_client_node node n s = do
      ip ← copy_array blank_ip ip_length n.packet ip_length
      (user', data') ← h.v_user_create_client_node s.user
      ok (record s {
        user = user';
        client_list =
            s.client_list
            ++ record {
              node = node;
              socket = n.socket;
              ip = ip;
              c2s_packet_order_number = 0;
              alive_timeout = record { start_time = 0; end_time = 0 };
              alive_timeout_flag = false;
              user_data = data';
            }
              ∷ [];
        s2c_orders = update s.s2c_orders node 0;
        socket_send_list =
            s.socket_send_list ++ record { socket = n.socket; s2c_packet_order_number = node } ∷ [];
      })

    -- `FreeClientNode`, at the client that its loop finds; with none it logs and returns.
    free_client : RecvPacketInfo → Option SocketClient → Server A → Run (Server A)
    free_client n none s = ok s
    free_client n (some c) s = do
      (user', data') ← h.v_user_free_client_node c.user_data s.user
      ok (record s {
        user = user';
        closed = if c.alive_timeout_flag then s.closed else (close_socket c.socket s.closed).1;
        socket_send_list = unlink_send n.socket s.socket_send_list;
        client_list = unlink_client n.socket s.client_list;
        s2c_orders = update s.s2c_orders c.node 0;
      })

    unfoldable pub free_client_node : RecvPacketInfo → Server A → Run (Server A)
    unfolding free_client
    free_client_node n s = free_client n (get_socket_client_node n.socket s.client_list) s

    -- The packet with the expected order number: the heartbeat is cleared, and the user's handler
    -- answers what is not a heartbeat.
    pub answer_packet : RecvPacketInfo → SocketClient → Server A → Run (Server A)
    unfolding add_send_list
    answer_packet n c s =
        if (head_of n.packet).packet_type == packet_c2s_alive
        then ok (record s { client_list = set_client n.socket c s.client_list })
        else do
          (user', packets) ← h.v_on_gameplay_receive_packet c.user_data c.socket n.packet s.user
          ok (
              add_send_list packets
                (record s { user = user'; client_list = set_client n.socket c s.client_list }))

    -- `CheckClientAlive`.
    check_client_alive : ℕ → Server A → Server A
    check_client_alive now s = record s {
      client_list = check_clients now s.client_list;
      closed = timed_out now s.client_list s.closed;
    }

    -- The case `ACTION__PACKET`, at the client that the socket belongs to.
    pub on_packet : ℕ → RecvPacketInfo → Option SocketClient → Server A → Run (Server A)
    unfolding answer_packet check_client_alive
    on_packet now n none s = ok s
    on_packet now n (some c) s =
        let order = inc16 c.c2s_packet_order_number in
        let counted = record c { c2s_packet_order_number = order } in
        if (head_of n.packet).packet_order_number == order
        then (do
          s ←
              answer_packet n
                (record counted { alive_timeout = record { start_time = 0; end_time = 0 } }) s
          ok (check_client_alive now s))
        else (let l = close_socket c.socket s.closed in
            ok (record s {
              client_list = set_client n.socket (record counted { socket = l.0 }) s.client_list;
              closed = l.1;
            }))

    -- The switch of `Gameplay_InThread`.
    pub dispatch : ℕ → Ptr → RecvPacketInfo → ActionType → Server A → Run (Server A)
    unfolding create_client_node free_client_node on_packet
    dispatch now node n create_client s = create_client_node node n s
    dispatch now node n release_client s = free_client_node n s
    dispatch now node n packet s = on_packet now n (get_socket_client_node n.socket s.client_list) s

    -- One round of the inner loop of `Gameplay_InThread` at the first node of the queue, and whether
    -- the loop goes on.
    pub gameplay_node :
        ℕ → Ptr → RecvPacketInfo → List RecvPacketInfo → Server A → Run (Server A × Bool)
    unfolding strcmp_equal dispatch server_exit
    gameplay_node now node n rest s =
        if strcmp_equal (buffer_of n.packet) server_exit_text
        then ok (server_exit (record s { packet_recv_list = rest }), false)
        else do
          s ← dispatch now node n n.action_type s
          ok (record s { packet_recv_list = rest }, true)

    -- The inner loop of `Gameplay_InThread` at the time `now`. `nodes` is where `ClientList.GetNode`
    -- finds its next nodes.
    pub gameplay_nodes : ℕ → (ℕ → Ptr) → List RecvPacketInfo → Server A → Run (Server A)
    unfolding gameplay_node
    gameplay_nodes now nodes [] s = ok s
    gameplay_nodes now nodes (n ∷ rest) s = do
      (s', goes_on) ← gameplay_node now (nodes 0) n rest s
      if goes_on then gameplay_nodes now (λ i. nodes (suc i)) rest s' else ok s'

    -- One round of `Gameplay_InThread`: the event is reset, and the queue is emptied.
    pub gameplay_in_thread : ℕ → (ℕ → Ptr) → Server A → Run (Server A)
    unfolding gameplay_nodes
    gameplay_in_thread now nodes s =
        gameplay_nodes now nodes s.packet_recv_list (record s { gameplay_event = false })
