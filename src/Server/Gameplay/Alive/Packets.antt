-- ===== src/Server/Gameplay/Alive/Packets.antt =====
-- The heartbeat: what one packet does to the clients and their sockets.
use mathlib.Core.Path.{subst}
use winsock_multi_thread_ser.Base.{
  ℕ, ◌+◌, ◌<◌, ◌≡◌, ◌≢◌, refl, sym, ap, ◌∙◌, inl, inr, true, Option, none, some, List, [], ◌∷◌,
  ◌++◌, arith, ◌==◌, Bool-cases, ==-refl, Bytes, Ptr, inc16, count, Returns, returns, Returns-bind,
}
use winsock_multi_thread_ser.Packet.{RecvPacketInfo, SendPacketInfo, head_of, packet_c2s_alive}
use winsock_multi_thread_ser.Server.{
  Server, SocketClient, UserHandlers, invalid_socket, close_socket, get_socket_client_node,
  set_client,
}
use winsock_multi_thread_ser.Server.Gameplay.{
  on_packet, answer_packet, add_send_list, check_clients, timed_out, check_client_alive,
}
use winsock_multi_thread_ser.Server.Gameplay.Clients.{clients_with, get_socket_client_node-socket}
use winsock_multi_thread_ser.Server.Gameplay.Alive.{
  Entries, Heard, Entries-found, check_clients-Heard, clients_with-check, timed_out-Heard,
  Entries-cleared, set_client-other, clients_with-same, timed_out-cleared, Players, Players-found,
  Players-set_client, Players-check,
}

module _ {A : Type 0} (Player : Ptr → Type 0) (Good : A → Type 0) where
  -- The client is there once, was heard of at `last`, and its socket was closed `times` often; the
  -- user's data of all clients is that of players, and the user's state is good.
  pub record Open (k last order times : ℕ) (s : Server A) : Type 0 where
    pub once : clients_with k s.client_list ≡ 1
    pub heard : Entries (Heard last order) k s.client_list
    pub closings : count k s.closed ≡ times
    pub players : Players Player s.client_list
    pub good : Good s.user

  add_send_list-same :
      (ns : List SendPacketInfo) (s : Server A)
      → ((add_send_list ns s).client_list ≡ s.client_list)
        × ((add_send_list ns s).closed ≡ s.closed)
        × ((add_send_list ns s).user ≡ s.user)
  unfolding add_send_list
  add_send_list-same [] s = (refl, refl, refl)
  add_send_list-same (n ∷ ns) s =
      add_send_list-same ns
        (record s { packet_send_list = s.packet_send_list ++ n ∷ []; send_event = true })

  module _ (h : UserHandlers A) (Fine : Bytes → Type 0) where
    -- The user's handler returns for a player, a packet that is fine and a good state, and leaves a
    -- good state behind.
    abbrev pub Replies : Type 0
    Replies =
        (player : Ptr) (socket : ℕ) (bytes : Bytes) (u : A)
        → Player player
        → Good u
        → Fine bytes
        → Returns (λ r. Good r.0) (h.v_on_gameplay_receive_packet player socket bytes u)

    -- What an answer does to the clients and to the sockets.
    pub answer_packet-same :
        (n : RecvPacketInfo) (d : SocketClient) (s : Server A)
        → Replies
        → Player d.user_data
        → Good s.user
        → Fine n.packet
        → Returns
            (λ s'.
              (s'.client_list ≡ set_client n.socket d s.client_list)
              × (s'.closed ≡ s.closed)
              × Good s'.user)
            (answer_packet h n d s)
    unfolding answer_packet
    answer_packet-same n d s replies plays good fine =
        elim (Bool-cases ((head_of n.packet).packet_type == packet_c2s_alive)) [
          | inl alive ↦ rw alive (returns (refl, refl, good))
          | inr other ↦ rw other (
              Returns-bind (replies d.user_data d.socket n.packet s.user plays good fine) (λ r u.
                let same = add_send_list-same r.1 _ in
                returns (same.0, same.1, subst Good (sym same.2) u)))
        ]

    pub own-Open :
        (now last order times : ℕ) (n : RecvPacketInfo) (c : SocketClient) (s : Server A)
        → Replies
        → Fine n.packet
        → now ≢ 0
        → get_socket_client_node n.socket s.client_list ≡ some c
        → (head_of n.packet).packet_order_number ≡ inc16 order
        → Open n.socket last order times s
        → Returns (Open n.socket now (inc16 order) times) (on_packet h now n (some c) s)
    unfolding on_packet check_client_alive
    own-Open now last order times n c s replies fine some_time found next v =
        let (start, flag, counted) =
          Entries-found (Heard last order) n.socket s.client_list c v.heard found in
        let counted' : inc16 c.c2s_packet_order_number ≡ inc16 order = ap inc16 counted in
        let next' : ((head_of n.packet).packet_order_number == inc16 c.c2s_packet_order_number)
            ≡ true =
          rw (next ∙ sym counted') (==-refl (inc16 c.c2s_packet_order_number)) in
        let there = get_socket_client_node-socket n.socket s.client_list c found in
        let plays = Players-found Player n.socket s.client_list c v.players found in
        rw next' (
          Returns-bind (answer_packet-same n _ s replies plays v.good fine) (λ s' same.
            returns (record {
              once =
                  clients_with-check now n.socket s'.client_list
                  ∙ ap (clients_with n.socket) same.0
                  ∙ clients_with-same n.socket _ s.client_list there
                  ∙ v.once;
              heard =
                  subst (λ cs. Entries (Heard now (inc16 order)) n.socket (check_clients now cs))
                    (sym same.0)
                    (Entries-cleared now n.socket (inc16 order) _ s.client_list some_time v.once
                      there refl flag counted');
              closings =
                  ap (λ cs. count n.socket (timed_out now cs s'.closed)) same.0
                  ∙ timed_out-cleared now n.socket _ s.client_list s'.closed some_time v.once there
                      refl
                  ∙ ap (count n.socket) same.1
                  ∙ v.closings;
              players = Players-check Player now s'.client_list (
                  subst (Players Player) (sym same.0)
                    (Players-set_client Player n.socket _ s.client_list plays v.players));
              good = same.2;
            })))

    -- Another client was written.
    written-Open :
        (k last order times j : ℕ) (d : SocketClient) (s : Server A) (closed : List ℕ)
        → j ≢ k
        → d.socket ≢ k
        → Player d.user_data
        → Open k last order times s
        → count k closed ≡ count k s.closed
        → Open k last order times
            (record s { client_list = set_client j d s.client_list; closed = closed })
    written-Open k last order times j d s closed ne out plays v e =
        let r = set_client-other (Heard last order) k j d s.client_list ne out v.heard in
        record {
          once = r.1 ∙ v.once;
          heard = r.0;
          closings = e ∙ v.closings;
          players = Players-set_client Player j d s.client_list plays v.players;
          good = v.good;
        }

    checked-Open :
        (now k last order times j : ℕ) (d : SocketClient) (s s' : Server A)
        → last ≢ 0
        → now < last + 60000
        → j ≢ k
        → d.socket ≢ k
        → Player d.user_data
        → Open k last order times s
        → Good s'.user
        → s'.client_list ≡ set_client j d s.client_list
        → s'.closed ≡ s.closed
        → Open k last order times (check_client_alive h now s')
    unfolding check_client_alive
    checked-Open now k last order times j d s s' some_time soon ne out plays v good list closed =
        let r = set_client-other (Heard last order) k j d s.client_list ne out v.heard in
        let heard : Entries (Heard last order) k s'.client_list =
          subst (Entries (Heard last order) k) (sym list) r.0 in
        record {
          once = clients_with-check now k s'.client_list ∙ ap (clients_with k) list ∙ r.1 ∙ v.once;
          heard = check_clients-Heard now k last order s'.client_list some_time soon heard;
          closings =
              timed_out-Heard now k last order s'.client_list s'.closed some_time soon heard
              ∙ ap (count k) closed
              ∙ v.closings;
          players = Players-check Player now s'.client_list (
              subst (Players Player) (sym list)
                (Players-set_client Player j d s.client_list plays v.players));
          good = good;
        }

    pub other-Open :
        (now k last order times : ℕ) (n : RecvPacketInfo) (found : Option SocketClient)
        (s : Server A)
        → Replies
        → Fine n.packet
        → get_socket_client_node n.socket s.client_list ≡ found
        → k ≢ invalid_socket
        → last ≢ 0
        → now < last + 60000
        → n.socket ≢ k
        → Open k last order times s
        → Returns (Open k last order times) (on_packet h now n found s)
    unfolding on_packet check_client_alive close_socket
    other-Open now k last order times n none s replies fine e valid some_time soon ne v = returns v
    other-Open now k last order times n (some c) s replies fine e valid some_time soon ne v =
        let out : c.socket ≢ k =
          λ q. ne (sym (get_socket_client_node-socket n.socket s.client_list c e) ∙ q) in
        let order' = inc16 c.c2s_packet_order_number in
        let plays = Players-found Player n.socket s.client_list c v.players e in
        elim (Bool-cases ((head_of n.packet).packet_order_number == order')) [
          | inl right ↦ rw right (
              Returns-bind (answer_packet-same n _ s replies plays v.good fine) (λ s' same.
                returns (
                  checked-Open now k last order times n.socket _ s s' some_time soon ne out plays v
                    same.2 same.0 same.1)))
          | inr wrong ↦ rw wrong (elim (Bool-cases (c.socket == invalid_socket)) [
            | inl closed_before ↦ rw closed_before (
                returns (written-Open k last order times n.socket _ s s.closed ne out plays v refl))
            | inr opened ↦ rw opened (
                returns (
                  written-Open k last order times n.socket _ s (c.socket ∷ s.closed) ne
                    (λ q. valid (sym q)) plays v (ground (arith, out))))
          ])
        ]
