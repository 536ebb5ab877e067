-- ===== src/Server/Select/Nodes.antt =====
-- What the select thread does with the sockets that are ready.
use winsock_multi_thread_ser.Base.{
  ℕ, ◌≡◌, refl, sym, ap, ◌∙◌, Bool, true, false, List, [], ◌∷◌, ◌++◌, append_assoc, append_nil,
  Bytes, Run, ok, Returns, returns,
}
use winsock_multi_thread_ser.Receive.{Answer, packet, bad_length, lost, receive_ex}
use winsock_multi_thread_ser.Packet.{ActionType, RecvPacketInfo}
use winsock_multi_thread_ser.Server.{Server, SocketInfo, blank_packet}
use winsock_multi_thread_ser.Server.Select.{
  receive_nodes, to_gameplay, after_receive, recv_free_client_node,
  notice_gameplay_thread_free_client_node,
}

-- The notices to the gameplay thread.
abbrev pub packet_of : ℕ → Bytes → ℕ → RecvPacketInfo
packet_of socket bytes n = record {
  action_type = ActionType.packet;
  socket = socket;
  packet_length = n;
  packet = bytes;
}

abbrev pub release_of : ℕ → RecvPacketInfo
release_of socket = record {
  action_type = ActionType.release_client;
  socket = socket;
  packet_length = 0;
  packet = blank_packet;
}

-- How `ReceiveEx` ends at each of the nodes: which of them stay, and what is told of them, in order.
pub data Reads (ready : ℕ → Bool) (answers : ℕ → List Answer)
    : List SocketInfo → List SocketInfo → List RecvPacketInfo → Type 0 where
  done : Reads ready answers [] [] []
  idle :
      {n : SocketInfo} {ns ks : List SocketInfo} {es : List RecvPacketInfo}
      → ready n.socket ≡ false
      → Reads ready answers ns ks es
      → Reads ready answers (n ∷ ns) (n ∷ ks) es
  arrived :
      {n : SocketInfo} {ns ks : List SocketInfo} {es : List RecvPacketInfo} {bytes : Bytes} {k : ℕ}
      {later : List Answer}
      → ready n.socket ≡ true
      → receive_ex (answers n.socket) blank_packet ≡ ok (packet bytes k later)
      → Reads ready answers ns ks es
      → Reads ready answers (n ∷ ns) (n ∷ ks) (packet_of n.socket bytes k ∷ es)
  dropped :
      {n : SocketInfo} {ns ks : List SocketInfo} {es : List RecvPacketInfo} {later : List Answer}
      → ready n.socket ≡ true
      → receive_ex (answers n.socket) blank_packet ≡ ok (bad_length later)
      → Reads ready answers ns ks es
      → Reads ready answers (n ∷ ns) (n ∷ ks) es
  left :
      {n : SocketInfo} {ns ks : List SocketInfo} {es : List RecvPacketInfo} {later : List Answer}
      → ready n.socket ≡ true
      → receive_ex (answers n.socket) blank_packet ≡ ok (lost later)
      → Reads ready answers ns ks es
      → Reads ready answers (n ∷ ns) ks (release_of n.socket ∷ es)

module _ {A : Type 0} where
  abbrev pub Told : Server A → List SocketInfo → List RecvPacketInfo → Server A → Type 0
  Told s nodes es s' =
      (s'.socket_recv_list ≡ nodes)
      × (s'.packet_recv_list ≡ s.packet_recv_list ++ es)
      × (s'.client_list ≡ s.client_list)
      × (s'.closed ≡ s.closed)

  Returns-Told :
      (s s₁ : Server A) (xs : List SocketInfo) (e : RecvPacketInfo) (es : List RecvPacketInfo)
      (m : Run (Server A))
      → s₁.packet_recv_list ≡ s.packet_recv_list ++ e ∷ []
      → s₁.client_list ≡ s.client_list
      → s₁.closed ≡ s.closed
      → Returns (Told s₁ xs es) m
      → Returns (Told s xs (e ∷ es)) m
  Returns-Told s s₁ xs e es m p c d (returns h) = returns (
    h.0,
    h.1 ∙ ap (λ l. l ++ es) p ∙ append_assoc s.packet_recv_list (e ∷ []) es,
    h.2 ∙ c,
    h.3 ∙ d,
  )

  -- The loop over the receive list, wherever it stands. The nodes whose connection is at its end
  -- leave the list, all others stay in their order; behind what was queued, the gameplay thread is
  -- told of each packet and of each lost connection, in the order of the list; no client and no
  -- socket is touched.
  pub receive_nodes-Told :
      (ready : ℕ → Bool) (answers : ℕ → List Answer) (kept : List SocketInfo)
      {ns ks : List SocketInfo} {es : List RecvPacketInfo} (s : Server A)
      → Reads ready answers ns ks es
      → s.socket_recv_list ≡ kept ++ ns
      → Returns (Told s (kept ++ ks) es) (receive_nodes ready answers kept ns s)
  unfolding receive_nodes after_receive recv_free_client_node
      notice_gameplay_thread_free_client_node
  receive_nodes-Told ready answers kept s done e =
      returns (e, sym (append_nil s.packet_recv_list), refl, refl)
  receive_nodes-Told ready answers kept s (idle {n} {ns} {ks} {es} off r) e =
      rw (off, ← append_assoc kept (n ∷ []) ks)
        (receive_nodes-Told ready answers (kept ++ n ∷ []) s r
          (e ∙ sym (append_assoc kept (n ∷ []) ns)))
  receive_nodes-Told ready answers kept s (arrived {n} {ns} {ks} {es} {bytes} {k} on a r) e =
      rw (on, a, ← append_assoc kept (n ∷ []) ks)
        (Returns-Told s (to_gameplay (packet_of n.socket bytes k) s) _ _ es _ refl refl refl (
          receive_nodes-Told ready answers (kept ++ n ∷ []) _ r
            (e ∙ sym (append_assoc kept (n ∷ []) ns))))
  receive_nodes-Told ready answers kept s (dropped {n} {ns} {ks} {es} on a r) e =
      rw (on, a, ← append_assoc kept (n ∷ []) ks)
        (receive_nodes-Told ready answers (kept ++ n ∷ []) s r
          (e ∙ sym (append_assoc kept (n ∷ []) ns)))
  receive_nodes-Told ready answers kept s (left {n} {ns} {ks} {es} on a r) e =
      rw (on, a)
        (Returns-Told s (recv_free_client_node n (kept ++ ns) s) _ _ es _ refl refl refl
          (receive_nodes-Told ready answers kept _ r refl))
