-- ===== src/Server/Sender.antt =====
-- TCPServer.cpp: the send thread, and the end of the server.
pub mod Targets
pub mod Cache
pub mod Wire
use winsock_multi_thread_ser.Base.{
  ℕ, Bool, true, false, not, List, [], ◌∷◌, ◌++◌, ◌==◌, if◌then◌else◌, length, Bytes, Ptr, inc16,
  update,
}
use winsock_multi_thread_ser.Packet.{
  SendType, send_all, send_self, send_non_self, send_group_all, send_group_self,
  send_group_non_self, SendPacketInfo, set_order,
}
use winsock_multi_thread_ser.Server.{Server, SocketClient, SocketSendInfo, close_socket}

-- A call of `SendEx`.
pub record Frame : Type 0 where
  pub socket : ℕ
  pub packet : Bytes
  pub packet_length : ℕ

-- One round of the loops over the cache: the counter is raised through the pointer, its new value is
-- written into the packet, and the packet is sent.
send_one : SocketSendInfo → Bytes → ℕ → (Ptr → ℕ) → Frame × Bytes × (Ptr → ℕ)
send_one e packet packet_length orders =
    let order = inc16 (orders e.s2c_packet_order_number) in
    let packet' = set_order order packet in
    (
      record { socket = e.socket; packet = packet'; packet_length = packet_length },
      packet',
      update orders e.s2c_packet_order_number order,
    )

-- The loop of `SEND__ALL`: the calls of `SendEx` and the counters behind it.
pub send_to_all : List SocketSendInfo → Bytes → ℕ → (Ptr → ℕ) → List Frame × (Ptr → ℕ)
unfolding send_one
send_to_all [] packet packet_length orders = ([], orders)
send_to_all (e ∷ es) packet packet_length orders =
    let r = send_one e packet packet_length orders in
    let later = send_to_all es r.1 packet_length r.2 in (r.0 ∷ later.0, later.1)

-- The loop of `SEND__NON_SELF`, which passes over the sender's socket.
pub send_to_others : ℕ → List SocketSendInfo → Bytes → ℕ → (Ptr → ℕ) → List Frame × (Ptr → ℕ)
unfolding send_one
send_to_others socket [] packet packet_length orders = ([], orders)
send_to_others socket (e ∷ es) packet packet_length orders =
    let r = send_one e packet packet_length orders in
    let later = send_to_others socket es r.1 packet_length r.2 in
    let same = send_to_others socket es packet packet_length orders in
    if socket == e.socket then same else (r.0 ∷ later.0, later.1)

-- The switch of `Send_InThread`.
send_by_type : SendType → SendPacketInfo → List SocketSendInfo → (Ptr → ℕ) → List Frame × (Ptr → ℕ)
unfolding send_to_all send_to_others
send_by_type send_all n cache orders = send_to_all cache n.packet n.packet_length orders
send_by_type send_self n cache orders = ([], orders)
send_by_type send_non_self n cache orders =
    send_to_others n.socket cache n.packet n.packet_length orders
send_by_type send_group_all n cache orders = ([], orders)
send_by_type send_group_self n cache orders = ([], orders)
send_by_type send_group_non_self n cache orders = ([], orders)

module _ {A : Type 0} where
  -- The socket list is copied into the cache if the two have different numbers of entries.
  refresh_cache : Server A → Server A
  refresh_cache s =
      if not (length s.socket_send_cache == length s.socket_send_list)
      then record s { socket_send_cache = s.socket_send_list }
      else s

  -- One round of the inner loop of `Send_InThread` at the first node of the queue.
  pub send_node : SendPacketInfo → List SendPacketInfo → Server A → Server A × List Frame
  unfolding refresh_cache send_by_type
  send_node n rest s =
      let s' = refresh_cache s in
      let r = send_by_type n.send_type n s'.socket_send_cache s'.s2c_orders in
      (record s' { s2c_orders = r.1; packet_send_list = rest }, r.0)

  send_nodes : List SendPacketInfo → Server A → Server A × List Frame
  unfolding send_node
  send_nodes [] s = (s, [])
  send_nodes (n ∷ rest) s =
      let r = send_node n rest s in let later = send_nodes rest r.0 in (later.0, r.1 ++ later.1)

  -- One round of `Send_InThread`: the event is reset, and the queue is emptied.
  pub send_in_thread : Server A → Server A × List Frame
  unfolding send_nodes
  send_in_thread s = send_nodes s.packet_send_list (record s { send_event = false })

-- The first loop of `ShutdownAndCloseSocket`: every socket is closed once. The second loop gives the
-- nodes to the free list and does not unlink them; it is left out.
close_clients : List SocketClient → List ℕ → List ℕ
close_clients [] closed = closed
close_clients (c ∷ cs) closed = close_clients cs (close_socket c.socket closed).1
