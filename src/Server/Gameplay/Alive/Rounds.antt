-- ===== src/Server/Gameplay/Alive/Rounds.antt =====
-- The heartbeat in the gameplay thread: whose socket `CheckClientAlive` closes, and whose it does not.
use mathlib.Core.Path.{subst}
use winsock_multi_thread_ser.Base.{
  ℕ, ◌+◌, ◌≤◌, ◌<◌, ◌≡◌, ◌≢◌, refl, sym, ap, ◌∙◌, inl, inr, true, false, some, List, [], ◌∷◌, ◌==◌,
  ==-refl, Option-cases, Bytes, Ptr, inc16, count, Run, ok, ◌>>=◌, Returns, returns, Returns-bind,
}
use winsock_multi_thread_ser.Packet.{packet, RecvPacketInfo, head_of}
use winsock_multi_thread_ser.Server.{
  Server, SocketClient, UserHandlers, invalid_socket, get_socket_client_node,
}
use winsock_multi_thread_ser.Server.Gameplay.{
  gameplay_node, gameplay_nodes, dispatch, on_packet, timed_out, check_client_alive,
}
use winsock_multi_thread_ser.Server.Gameplay.Clients.{clients_with, get_socket_client_node-socket}
use winsock_multi_thread_ser.Server.Gameplay.Leave.{GoesOn}
use winsock_multi_thread_ser.Server.Gameplay.Alive.{
  Heard, Entries-only, clients_with-found, timed_out-found, set_client-found, Players,
  Players-found,
}
use winsock_multi_thread_ser.Server.Gameplay.Alive.Packets.{
  Open, Replies, answer_packet-same, own-Open, other-Open,
}

-- Packets that the gameplay thread takes one by one, each with the time at which it does: those of the
-- socket `k`, numbered one by one behind `order`, and those of others, which it takes less than 60
-- seconds after the last one of `k`, at `last`; none ends the server, and the bytes of all are `Fine`.
pub data Steady (Fine : Bytes → Type 0) (k : ℕ) : ℕ → ℕ → List (ℕ × RecvPacketInfo) → Type 0 where
  no_packet : {last order : ℕ} → Steady Fine k last order []
  from_client :
      {last order now : ℕ} {n : RecvPacketInfo} {es : List (ℕ × RecvPacketInfo)}
      → n.action_type ≡ packet
      → GoesOn n
      → Fine n.packet
      → now ≢ 0
      → n.socket ≡ k
      → (head_of n.packet).packet_order_number ≡ inc16 order
      → Steady Fine k now (inc16 order) es
      → Steady Fine k last order ((now, n) ∷ es)
  from_other :
      {last order now : ℕ} {n : RecvPacketInfo} {es : List (ℕ × RecvPacketInfo)}
      → n.action_type ≡ packet
      → GoesOn n
      → Fine n.packet
      → now < last + 60000
      → n.socket ≢ k
      → Steady Fine k last order es
      → Steady Fine k last order ((now, n) ∷ es)

-- The packets one by one, each as a round of the gameplay thread at its time.
abbrev pub rounds :
    {A : Type 0} → UserHandlers A → List (ℕ × RecvPacketInfo) → Server A → Run (Server A)
rounds h [] s = ok s
rounds h (e ∷ es) s = do s' ← gameplay_nodes h e.0 (λ i. 0) (e.1 ∷ []) s; rounds h es s'

module _ {A : Type 0} (h : UserHandlers A) (Player : Ptr → Type 0) (Good : A → Type 0)
    (Fine : Bytes → Type 0) where
  round-Open :
      (now k times now' order' : ℕ) (n : RecvPacketInfo) (s : Server A)
      → n.action_type ≡ packet
      → GoesOn n
      → Returns
          (Open Player Good k now' order' times)
          (on_packet h now n (get_socket_client_node n.socket s.client_list) s)
      → Returns (Open Player Good k now' order' times) (gameplay_nodes h now (λ i. 0) (n ∷ []) s)
  unfolding gameplay_nodes gameplay_node dispatch
  round-Open now k times now' order' n s is_packet goes r =
      rw (goes, is_packet)
        (Returns-bind {P = λ r. Open Player Good k now' order' times r.0 × (r.1 ≡ true)}
          (Returns-bind r (λ s' v. returns (
            record {
              once = v.once;
              heard = v.heard;
              closings = v.closings;
              players = v.players;
              good = v.good;
            },
            refl,
          )))
          (λ r w. rw (w.1) (returns w.0)))

  rounds-Open :
      (k last order times : ℕ) (es : List (ℕ × RecvPacketInfo)) (s : Server A)
      → Replies Player Good h Fine
      → k ≢ invalid_socket
      → last ≢ 0
      → Steady Fine k last order es
      → Open Player Good k last order times s
      → Returns
          (λ s'. (clients_with k s'.client_list ≡ 1) × (count k s'.closed ≡ times))
          (rounds h es s)
  rounds-Open k last order times [] s replies valid some_time no_packet v =
      returns (v.once, v.closings)
  rounds-Open k last order times ((now, n) ∷ es) s replies valid some_time
        (from_client is_packet goes fine now_some from next rest) v =
      let here : Open Player Good n.socket last order times s =
        subst (λ j. Open Player Good j last order times s) (sym from) v in
      elim (Option-cases (get_socket_client_node n.socket s.client_list)) [
        | inl nobody ↦ absurd (clients_with-found n.socket s.client_list here.once nobody)
        | inr (c, found) ↦
            let answered : Returns (Open Player Good n.socket now (inc16 order) times)
                (on_packet h now n (get_socket_client_node n.socket s.client_list) s) =
              rw found (
                own-Open Player Good h Fine now last order times n c s replies fine now_some found
                  next here) in
            Returns-bind
              (round-Open now n.socket times now (inc16 order) n s is_packet goes answered)
              (λ s' w.
                rounds-Open k now (inc16 order) times es s' replies valid now_some rest
                  (subst (λ j. Open Player Good j now (inc16 order) times s') from w))
      ]
  rounds-Open k last order times ((now, n) ∷ es) s replies valid some_time
        (from_other is_packet goes fine soon ne rest) v =
      Returns-bind
        (round-Open now k times last order n s is_packet goes (
          other-Open Player Good h Fine now k last order times n
            (get_socket_client_node n.socket s.client_list) s replies fine refl valid some_time soon
            ne v))
        (λ s' w. rounds-Open k last order times es s' replies valid some_time rest w)

  -- A client that is heard of in time is not closed, where the user's handler replies to packets that
  -- are fine, in a good state, and all clients are its players.
  pub rounds-alive :
      (c : SocketClient) (last : ℕ) (es : List (ℕ × RecvPacketInfo)) (s : Server A)
      → Replies Player Good h Fine
      → Players Player s.client_list
      → Good s.user
      → c.socket ≢ invalid_socket
      → last ≢ 0
      → get_socket_client_node c.socket s.client_list ≡ some c
      → clients_with c.socket s.client_list ≡ 1
      → c.alive_timeout.start_time ≡ last
      → c.alive_timeout_flag ≡ false
      → Steady Fine c.socket last c.c2s_packet_order_number es
      → Returns
          (λ s'.
            (clients_with c.socket s'.client_list ≡ 1)
            × (count c.socket s'.closed ≡ count c.socket s.closed))
          (rounds h es s)
  rounds-alive c last es s replies players good valid some_time found once start flag steady =
      rounds-Open c.socket last c.c2s_packet_order_number (count c.socket s.closed) es s replies
        valid some_time steady
        (record {
          once = once;
          heard =
              Entries-only (Heard last c.c2s_packet_order_number) c.socket s.client_list c once
                found (start, flag, refl);
          closings = refl;
          players = players;
          good = good;
        })

  -- A silent client is closed, when another one is heard of with its next order number, under the same
  -- conditions on the user's handler.
  pub silent-closed :
      (now last : ℕ) (c d : SocketClient) (n : RecvPacketInfo) (s : Server A)
      → Replies Player Good h Fine
      → Players Player s.client_list
      → Good s.user
      → n.action_type ≡ packet
      → GoesOn n
      → Fine n.packet
      → get_socket_client_node n.socket s.client_list ≡ some d
      → (head_of n.packet).packet_order_number ≡ inc16 d.c2s_packet_order_number
      → get_socket_client_node c.socket s.client_list ≡ some c
      → n.socket ≢ c.socket
      → c.alive_timeout.start_time ≡ last
      → last ≢ 0
      → last + 60000 ≤ now
      → Returns
          (λ s'. count c.socket s.closed < count c.socket s'.closed)
          (gameplay_nodes h now (λ i. 0) (n ∷ []) s)
  unfolding gameplay_nodes gameplay_node dispatch on_packet check_client_alive
  silent-closed now last c d n s replies players good is_packet goes fine from next found ne start
        some_time late =
      let ok : ((head_of n.packet).packet_order_number == inc16 d.c2s_packet_order_number) ≡ true =
        rw next (==-refl (inc16 d.c2s_packet_order_number)) in
      let there = get_socket_client_node-socket n.socket s.client_list d from in
      let plays = Players-found Player n.socket s.client_list d players from in
      let answered : Returns (λ s'. count c.socket s.closed < count c.socket s'.closed)
          (on_packet h now n (get_socket_client_node n.socket s.client_list) s) =
        rw (from, ok)
          (Returns-bind (answer_packet-same Player Good h Fine n _ s replies plays good fine)
            (λ s' same. returns (
              subst
                (λ closed.
                  count c.socket closed < count c.socket (timed_out now s'.client_list s'.closed))
                same.1
                (timed_out-found now c.socket last c s'.client_list s'.closed start some_time late (
                  ap (get_socket_client_node c.socket) same.0
                  ∙ set_client-found c.socket n.socket _ s.client_list ne (λ q. ne (sym there ∙ q))
                  ∙ found))))) in
      rw (goes, is_packet)
        (Returns-bind
          {P = λ r. (count c.socket s.closed < count c.socket r.0.closed) × (r.1 ≡ true)}
          (Returns-bind answered (λ s' v. returns (v, refl))) (λ r w. rw (w.1) (returns w.0)))
