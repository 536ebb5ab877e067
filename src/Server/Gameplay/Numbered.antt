-- ===== src/Server/Gameplay/Numbered.antt =====
-- Order numbers that stay in step: what the gameplay thread counts for a client.
use winsock_multi_thread_ser.Base.{
  ℕ, suc, ◌+◌, ◌%◌, ◌<◌, ◌≡◌, refl, sym, ap, ◌∙◌, inl, inr, true, false, some, List, [], ◌∷◌, arith,
  ◌==◌, Bool-cases, length, Bytes, Ptr, inc16, u16, Returns, returns, Returns-bind,
}
use winsock_multi_thread_ser.Tool.{s_delay_time}
use winsock_multi_thread_ser.Packet.{
  packet, RecvPacketInfo, SendPacketInfo, head_of, packet_c2s_alive,
}
use winsock_multi_thread_ser.Server.{Server, SocketClient, UserHandlers, get_socket_client_node}
use winsock_multi_thread_ser.Server.Gameplay.{
  gameplay_node, gameplay_nodes, dispatch, on_packet, answer_packet, add_send_list, check_client,
  check_clients, check_client_alive,
}
use winsock_multi_thread_ser.Server.Gameplay.Clients.{
  get_socket_client_node-socket, get_socket_client_node-set_client,
}
use winsock_multi_thread_ser.Server.Gameplay.Leave.{GoesOn}

-- Packets of one client, none of which ends the server, numbered one by one behind `order`, whose
-- bytes are `Fine`.
abbrev pub Numbered : (Bytes → Type 0) → ℕ → ℕ → List RecvPacketInfo → Type 0
Numbered Fine k order [] = Unit {0}
Numbered Fine k order (n ∷ ns) =
    ((n.action_type ≡ packet)
      × (n.socket ≡ k)
      × GoesOn n
      × ((head_of n.packet).packet_order_number ≡ inc16 order)
      × Fine n.packet)
    × Numbered Fine k (inc16 order) ns

-- The client with a socket, its user's data, and what it has counted.
abbrev pub Counts : ℕ → Ptr → ℕ → List SocketClient → Type 0
Counts k player order cs =
    (c : SocketClient) × (get_socket_client_node k cs ≡ some c)
    × (c.user_data ≡ player)
    × (c.c2s_packet_order_number ≡ order)

pub check_client-same :
    (now : ℕ) (c : SocketClient)
    → ((check_client now c).0.socket ≡ c.socket)
      × ((check_client now c).0.user_data ≡ c.user_data)
      × ((check_client now c).0.c2s_packet_order_number ≡ c.c2s_packet_order_number)
check_client-same now c = elim (Bool-cases (s_delay_time now c.alive_timeout 60000).0) [
  | inl due ↦ rw due (refl, refl, refl)
  | inr early ↦ rw early (refl, refl, refl)
]

-- Looking for silent clients changes no counter.
check_clients-Counts :
    (now k : ℕ) (player : Ptr) (order : ℕ) (cs : List SocketClient)
    → Counts k player order cs
    → Counts k player order (check_clients now cs)
unfolding get_socket_client_node
check_clients-Counts now k player order [] h = ground (arith, h.1)
check_clients-Counts now k player order (c ∷ cs) h =
    let same = check_client-same now c in
    elim (Bool-cases (c.socket == k)) [
      | inl hit ↦
          let first : c.c2s_packet_order_number ≡ order = ground (arith, h.1, h.3, hit) in
          let data' : c.user_data ≡ player = ground (arith, h.1, h.2, hit) in
          let hit' : ((check_client now c).0.socket == k) ≡ true = ap (λ x. x == k) same.0 ∙ hit in
          ((check_client now c).0, rw hit' refl, same.1 ∙ data', same.2 ∙ first)
      | inr miss ↦
          let rest : Counts k player order (check_clients now cs) =
            check_clients-Counts now k player order cs (h.0, rw miss at h.1, h.2, h.3) in
          let miss' : ((check_client now c).0.socket == k) ≡ false =
            ap (λ x. x == k) same.0 ∙ miss in
          rw miss' rest
    ]

module _ {A : Type 0} (Good : Ptr → A → Type 0) where
  -- The counter of the client, and the user's state.
  abbrev pub Serves : ℕ → Ptr → ℕ → Server A → Type 0
  Serves k player order s = Counts k player order s.client_list × Good player s.user

  add_send_list-Serves :
      (k : ℕ) (player : Ptr) (order : ℕ) (ns : List SendPacketInfo) (s : Server A)
      → Serves k player order s
      → Serves k player order (add_send_list ns s)
  unfolding add_send_list
  add_send_list-Serves k player order [] s v = v
  add_send_list-Serves k player order (n ∷ ns) s v = add_send_list-Serves k player order ns _ v

module _ {A : Type 0} (h : UserHandlers A) where
  module _ (Good : Ptr → A → Type 0) (Fine : Bytes → Type 0) where
    -- The user's handler returns on such a packet, and leaves the user's state good.
    abbrev pub Answers : Type 0
    Answers =
        (player : Ptr) (socket : ℕ) (bytes : Bytes) (u : A)
        → Good player u
        → Fine bytes
        → Returns (λ r. Good player r.0) (h.v_on_gameplay_receive_packet player socket bytes u)

    answer_packet-Serves :
        (order : ℕ) (n : RecvPacketInfo) (c d : SocketClient) (s : Server A)
        → Answers
        → get_socket_client_node n.socket s.client_list ≡ some c
        → Good d.user_data s.user
        → Fine n.packet
        → d.socket ≡ n.socket
        → d.c2s_packet_order_number ≡ order
        → Returns (Serves Good n.socket d.user_data order) (answer_packet h n d s)
    unfolding answer_packet
    answer_packet-Serves order n c d s answers found good fine same counted =
        let there = get_socket_client_node-set_client n.socket c d s.client_list found same in
        elim (Bool-cases ((head_of n.packet).packet_type == packet_c2s_alive)) [
          | inl alive ↦ rw alive (returns ((d, there, refl, counted), good))
          | inr other ↦ rw other (
              Returns-bind (answers d.user_data d.socket n.packet s.user good fine) (λ r u.
                returns (
                  add_send_list-Serves Good n.socket d.user_data order r.1 _
                    ((d, there, refl, counted), u))))
        ]

    on_packet-Serves :
        (now : ℕ) (n : RecvPacketInfo) (c : SocketClient) (s : Server A)
        → Answers
        → get_socket_client_node n.socket s.client_list ≡ some c
        → Good c.user_data s.user
        → Fine n.packet
        → (head_of n.packet).packet_order_number ≡ inc16 c.c2s_packet_order_number
        → Returns
            (Serves Good n.socket c.user_data (inc16 c.c2s_packet_order_number))
            (on_packet h now n (some c) s)
    unfolding on_packet check_client_alive
    on_packet-Serves now n c s answers found good fine next =
        let order = inc16 c.c2s_packet_order_number in
        let same = get_socket_client_node-socket n.socket s.client_list c found in
        let ok : ((head_of n.packet).packet_order_number == order) ≡ true = ground (arith, next) in
        rw ok (
          Returns-bind (answer_packet-Serves order n c _ s answers found good fine same refl)
            (λ s' v.
              returns
                (check_clients-Counts now n.socket c.user_data order s'.client_list v.0, v.1)))

    -- Packets of one client that are numbered one by one behind its counter, where the user's handler
    -- returns on each: the gameplay thread handles them all without undefined behaviour, the list
    -- has the client still, with its socket and the user's data, and the counter has gone on by the
    -- number of packets, modulo 2 ^ 16.
    pub gameplay_nodes-Numbered :
        (now : ℕ) (nodes : ℕ → Ptr) (k : ℕ) (player : Ptr) (order : ℕ) (ns : List RecvPacketInfo)
        (s : Server A)
        → Answers
        → Serves Good k player order s
        → order < u16
        → Numbered Fine k order ns
        → Returns
            (Serves Good k player ((order + length ns) % u16))
            (gameplay_nodes h now nodes ns s)
    unfolding gameplay_nodes gameplay_node dispatch
    gameplay_nodes-Numbered now nodes k player order [] s answers v small e =
        let same : order ≡ (order + 0) % u16 = omega (arith, small) in
        returns ((v.0.0, v.0.1, v.0.2, v.0.3 ∙ same), v.1)
    gameplay_nodes-Numbered now nodes k player order (n ∷ ns) s answers v small
          ((is_packet, from, goes, next, fine), e) =
        let c = v.0.0 in
        let found : get_socket_client_node n.socket s.client_list ≡ some c = rw from v.0.1 in
        let good : Good c.user_data s.user = rw (v.0.2) v.1 in
        let counted : inc16 c.c2s_packet_order_number ≡ inc16 order = ap inc16 v.0.3 in
        let more : (inc16 order + length ns) % u16 ≡ (order + suc (length ns)) % u16 =
          omega arith in
        let answered = on_packet-Serves now n c s answers found good fine (next ∙ sym counted) in
        rw (goes, is_packet, found)
          (Returns-bind {P = λ r. Serves Good k player (inc16 order) r.0 × (r.1 ≡ true)}
            (Returns-bind answered
              (λ s' w. returns (rw (sym from, sym counted, sym v.0.2) w, refl)))
            (λ r w.
              let later =
                gameplay_nodes-Numbered now (λ i. nodes (suc i)) k player (inc16 order) ns r.0
                  answers w.0 (omega arith) e in
              rw (w.1, sym more) later))
