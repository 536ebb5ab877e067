-- ===== src/Server/Gameplay/Leave.antt =====
-- How clients leave: in order, and after a packet with a wrong order number.
use winsock_multi_thread_ser.Base.{
  ℕ, ◌≡◌, ◌≢◌, ◌≤◌, refl, sym, ap, false, some, [], ◌∷◌, ◌++◌, arith, ◌==◌, length, take, Ptr,
  inc16, ok, Returns, returns,
}
use winsock_multi_thread_ser.Tool.Copy.{s_memcpy-min}
use winsock_multi_thread_ser.CString.{strcmp_equal}
use winsock_multi_thread_ser.Packet.{
  create_client, release_client, packet, RecvPacketInfo, head_of, buffer_of,
}
use winsock_multi_thread_ser.Server.{
  Server, SocketClient, SocketSendInfo, blank_ip, UserHandlers, invalid_socket, close_socket,
  get_socket_client_node, set_client, copy_array,
}
use winsock_multi_thread_ser.Server.Gameplay.{
  server_exit_text, gameplay_node, gameplay_nodes, dispatch, on_packet, free_client,
  free_client_node, create_client_node,
}
use winsock_multi_thread_ser.Server.Gameplay.Clients.{
  clients_with, sends_to, get_socket_client_node-none, get_socket_client_node-socket,
  get_socket_client_node-last, unlink_client-last, unlink_send-last, length-set_client,
  clients_with-set_client,
}

-- A node of the queue that does not tell the server to end.
abbrev pub GoesOn : RecvPacketInfo → Type 0
GoesOn n = strcmp_equal (buffer_of n.packet) server_exit_text ≡ false

module _ {A : Type 0} (h : UserHandlers A) where
  -- The gameplay thread gets a packet with a wrong order number from the only client with its
  -- socket, a valid one, and then the notice of the select thread that this socket is at its end,
  -- where the text of neither node is the one that ends the server: the socket is closed once, but
  -- behind the two nodes the list is as long as before, no client in it has the socket, and the
  -- user's data is as before, since the notice finds no client to free.
  pub gameplay_nodes-mismatch :
      (now : ℕ) (nodes : ℕ → Ptr) (s : Server A) (c : SocketClient) (bad release : RecvPacketInfo)
      → get_socket_client_node bad.socket s.client_list ≡ some c
      → clients_with bad.socket s.client_list ≡ 1
      → bad.socket ≢ invalid_socket
      → bad.action_type ≡ packet
      → GoesOn bad
      → (head_of bad.packet).packet_order_number ≢ inc16 c.c2s_packet_order_number
      → release.action_type ≡ release_client
      → release.socket ≡ bad.socket
      → GoesOn release
      → Returns
          (λ s'.
            (length s'.client_list ≡ length s.client_list)
            × (clients_with bad.socket s'.client_list ≡ 0)
            × (s'.user ≡ s.user)
            × (s'.closed ≡ bad.socket ∷ s.closed))
          (gameplay_nodes h now nodes (bad ∷ release ∷ []) s)
  unfolding gameplay_nodes gameplay_node dispatch on_packet free_client_node free_client
      close_socket
  gameplay_nodes-mismatch now nodes s c bad release found one valid is_packet go wrong is_release
        same go' =
      let is_c : c.socket ≡ bad.socket =
        get_socket_client_node-socket bad.socket s.client_list c found in
      let open_socket : (c.socket == invalid_socket) ≡ false = ground (arith, is_c, valid) in
      let differs : ((head_of bad.packet).packet_order_number == inc16 c.c2s_packet_order_number)
          ≡ false =
        ground (arith, wrong) in
      let cut_off : SocketClient = record c {
        c2s_packet_order_number = inc16 c.c2s_packet_order_number;
        socket = invalid_socket;
      } in
      let gone =
        clients_with-set_client bad.socket cut_off s.client_list one (λ e. valid (sym e)) in
      rw
        (
          go,
          is_packet,
          found,
          differs,
          open_socket,
          go',
          is_release,
          same,
          get_socket_client_node-none bad.socket (set_client bad.socket cut_off s.client_list) gone,
        )
        (returns (
          length-set_client bad.socket cut_off s.client_list,
          gone,
          refl,
          ap (λ k. k ∷ s.closed) is_c,
        ))

  -- A new client that leaves in order. Where no client and no entry of the send list has its socket,
  -- its address has 16 bytes at least, and the user's functions return, the gameplay thread comes
  -- back to the same clients and the same send list behind the two notices: the socket is closed
  -- once, and the user's data is what the two functions make of it.
  pub gameplay_nodes-create-release :
      (now : ℕ) (nodes : ℕ → Ptr) (s : Server A) (new release : RecvPacketInfo) (user₁ user₂ : A)
      (data₁ data₂ : Ptr)
      → clients_with new.socket s.client_list ≡ 0
      → sends_to new.socket s.socket_send_list ≡ 0
      → new.socket ≢ invalid_socket
      → 16 ≤ length new.packet
      → h.v_user_create_client_node s.user ≡ ok (user₁, data₁)
      → h.v_user_free_client_node data₁ user₁ ≡ ok (user₂, data₂)
      → new.action_type ≡ create_client
      → GoesOn new
      → release.action_type ≡ release_client
      → release.socket ≡ new.socket
      → GoesOn release
      → Returns
          (λ s'.
            (s'.client_list ≡ s.client_list)
            × (s'.socket_send_list ≡ s.socket_send_list)
            × (s'.user ≡ user₂)
            × (s'.closed ≡ new.socket ∷ s.closed))
          (gameplay_nodes h now nodes (new ∷ release ∷ []) s)
  unfolding gameplay_nodes gameplay_node dispatch create_client_node free_client_node free_client
      close_socket copy_array
  gameplay_nodes-create-release now nodes s new release user₁ user₂ data₁ data₂ no_client no_send
        valid long creates frees is_new go is_release same go' =
      let client : SocketClient = record {
        node = nodes 0;
        socket = new.socket;
        ip = take 16 new.packet ++ [];
        c2s_packet_order_number = 0;
        alive_timeout = record { start_time = 0; end_time = 0 };
        alive_timeout_flag = false;
        user_data = data₁;
      } in
      let entry : SocketSendInfo = record {
        socket = new.socket;
        s2c_packet_order_number = nodes 0;
      } in
      let open_socket : (new.socket == invalid_socket) ≡ false = ground (arith, valid) in
      rw
        (
          go,
          is_new,
          s_memcpy-min blank_ip new.packet 16 16 (omega arith) (omega (arith, long)),
          creates,
          go',
          is_release,
          same,
          get_socket_client_node-last s.client_list client no_client,
          frees,
          open_socket,
        )
        (returns (
          unlink_client-last s.client_list client no_client,
          unlink_send-last s.socket_send_list entry no_send,
          refl,
          refl,
        ))
