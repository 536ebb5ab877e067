-- ===== src/Server/Select/Accept.antt =====
-- How new connections come from the accept thread to the gameplay thread.
use winsock_multi_thread_ser.Base.{
  ℕ, ◌≡◌, refl, sym, ap, ◌∙◌, List, [], ◌∷◌, ◌++◌, arith, append_assoc, append_nil, take,
  take-append, length, length-replicate, replicate, Bytes, Run, ok, Returns, returns,
}
use winsock_multi_thread_ser.Tool.Copy.{s_memcpy-min}
use winsock_multi_thread_ser.Receive.{packet_buffer_max}
use winsock_multi_thread_ser.Packet.{ActionType, RecvPacketInfo}
use winsock_multi_thread_ser.Server.{
  Server, SocketInfo, copy_array, blank_packet, blank_ip, ip_length,
}
use winsock_multi_thread_ser.Server.Select.{
  accept_nodes, accept_list_create_client_node, notice_gameplay_thread_create_client_node,
  to_gameplay,
}

-- Every node has its array of 16 bytes.
abbrev pub FullIps : List SocketInfo → Type 0
FullIps [] = Unit {0}
FullIps (a ∷ rest) = (length a.ip ≡ ip_length) × FullIps rest

-- What the gameplay thread is told of a new connection.
abbrev pub create_of : SocketInfo → RecvPacketInfo
create_of a = record {
  action_type = ActionType.create_client;
  socket = a.socket;
  packet_length = 0;
  packet = a.ip ++ replicate 496 0;
}

abbrev pub creates_of : List SocketInfo → List RecvPacketInfo
creates_of [] = []
creates_of (a ∷ rest) = create_of a ∷ creates_of rest

whole : (ip : Bytes) → length ip ≡ ip_length → take ip_length ip ≡ ip
whole ip h =
    ap (λ k. take k ip) (sym h) ∙ ap (take (length ip)) (sym (append_nil ip)) ∙ take-append ip []

copy_ip : (ip : Bytes) → length ip ≡ ip_length → copy_array blank_ip ip_length ip ip_length ≡ ok ip
unfolding copy_array
copy_ip ip h =
    rw (s_memcpy-min blank_ip ip ip_length ip_length (omega arith) (omega (arith, h)))
      (ap ok (append_nil (take ip_length ip) ∙ whole ip h))

copy_ip_to_packet :
    (ip : Bytes)
    → length ip ≡ ip_length
    → copy_array blank_packet packet_buffer_max ip ip_length ≡ ok (ip ++ replicate 496 0)
unfolding copy_array
copy_ip_to_packet ip h =
    rw
      (s_memcpy-min blank_packet ip packet_buffer_max ip_length
        (omega (arith, length-replicate {A = ℕ} packet_buffer_max 0)) (omega (arith, h)))
      (ap (λ l. ok (l ++ replicate 496 0)) (whole ip h))

module _ {A : Type 0} where
  abbrev pub Accepted : Server A → List SocketInfo → Server A → Type 0
  Accepted s nodes s' =
      (s'.accept_list ≡ [])
      × (s'.socket_recv_list ≡ s.socket_recv_list ++ nodes)
      × (s'.packet_recv_list ≡ s.packet_recv_list ++ creates_of nodes)
      × (s'.closed ≡ s.closed)

  Returns-Accepted :
      (s s₁ : Server A) (a : SocketInfo) (rest : List SocketInfo) (m : Run (Server A))
      → s₁.socket_recv_list ≡ s.socket_recv_list ++ a ∷ []
      → s₁.packet_recv_list ≡ s.packet_recv_list ++ create_of a ∷ []
      → s₁.closed ≡ s.closed
      → Returns (Accepted s₁ rest) m
      → Returns (Accepted s (a ∷ rest)) m
  Returns-Accepted s s₁ a rest m p q c (returns h) = returns (
    h.0,
    h.1 ∙ ap (λ l. l ++ rest) p ∙ append_assoc s.socket_recv_list (a ∷ []) rest,
    h.2
        ∙ ap (λ l. l ++ creates_of rest) q
        ∙ append_assoc s.packet_recv_list (create_of a ∷ []) (creates_of rest),
    h.3 ∙ c,
  )

  accept_nodes-Accepted :
      (nodes : List SocketInfo) (s : Server A)
      → FullIps nodes
      → Returns (Accepted s nodes) (accept_nodes nodes s)
  unfolding accept_nodes notice_gameplay_thread_create_client_node
  accept_nodes-Accepted [] s h =
      returns (refl, sym (append_nil s.socket_recv_list), sym (append_nil s.packet_recv_list), refl)
  accept_nodes-Accepted (a ∷ rest) s h =
      let moved : Server A = record (to_gameplay (create_of a) s) {
        socket_recv_list = s.socket_recv_list ++ a ∷ [];
        accept_list = rest;
      } in
      rw (copy_ip a.ip h.0, copy_ip_to_packet a.ip h.0)
        (Returns-Accepted s moved a rest _ refl refl refl (accept_nodes-Accepted rest moved h.1))

  -- The select thread in timer mode empties the accept list: where all nodes have arrays of 16 bytes
  -- for their addresses, it ends without undefined behaviour, all connections are behind the others
  -- in the receive list, in order, and behind what was queued the gameplay thread is told to create a
  -- client for each of them, with its address; no socket is closed.
  pub accept_list_create_client_node-Accepted :
      (s : Server A)
      → FullIps s.accept_list
      → Returns (Accepted s s.accept_list) (accept_list_create_client_node s)
  unfolding accept_list_create_client_node
  accept_list_create_client_node-Accepted s h = accept_nodes-Accepted s.accept_list s h
