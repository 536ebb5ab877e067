-- ===== src/Server/Gameplay/Alive.antt =====
-- The heartbeat: what `CheckClientAlive` does to the clients and their sockets.
pub mod Packets
pub mod Rounds
use mathlib.Core.Path.{subst}
use winsock_multi_thread_ser.Base.{
  ℕ, zero, suc, ◌+◌, ◌≤◌, ◌<◌, ◌≡◌, ◌≢◌, refl, sym, ap, ◌∙◌, inl, inr, Bool, true, false, Option,
  none, some, List, [], ◌∷◌, ◌++◌, arith, ◌==◌, if◌then◌else◌, Bool-cases, ==-cases, ==-eq,
  ==-of_ne, ==-refl, Option-cases, Bytes, Ptr, inc16, count, Run, ok, ◌>>=◌, Returns, returns,
  Returns-bind, Returns-map,
}
use winsock_multi_thread_ser.Tool.{s_delay_time}
use winsock_multi_thread_ser.Packet.{
  packet, RecvPacketInfo, SendPacketInfo, head_of, packet_c2s_alive,
}
use winsock_multi_thread_ser.Server.{
  Server, SocketClient, UserHandlers, invalid_socket, close_socket, get_socket_client_node,
  set_client,
}
use winsock_multi_thread_ser.Server.Gameplay.{
  gameplay_node, gameplay_nodes, dispatch, on_packet, answer_packet, add_send_list, check_client,
  check_clients, timed_out, check_client_alive,
}
use winsock_multi_thread_ser.Server.Gameplay.Clients.{clients_with, get_socket_client_node-socket}
use winsock_multi_thread_ser.Server.Gameplay.Leave.{GoesOn}
use winsock_multi_thread_ser.Server.Gameplay.Numbered.{check_client-same}

-- What holds of each client with a socket.
abbrev pub Entries : (SocketClient → Type 0) → ℕ → List SocketClient → Type 0
Entries P k [] = Unit {0}
Entries P k (c ∷ cs) = (c.socket ≡ k → P c) × Entries P k cs

-- A client that was heard of at `last`, when the last order number was `order`.
abbrev pub Heard : ℕ → ℕ → SocketClient → Type 0
Heard last order c =
    (c.alive_timeout.start_time ≡ last)
    × (c.alive_timeout_flag ≡ false)
    × (c.c2s_packet_order_number ≡ order)

pub Entries-none :
    (P : SocketClient → Type 0) (k : ℕ) (cs : List SocketClient)
    → clients_with k cs ≡ 0
    → Entries P k cs
Entries-none P k [] h = tt
Entries-none P k (c ∷ cs) h =
    (λ e. absurd (ground (arith, h, e)), Entries-none P k cs (ground (arith, h)))

same_client : {c d : SocketClient} → some c ≡ some d → c ≡ d
same_client e = cc

pub Entries-found :
    (P : SocketClient → Type 0) (k : ℕ) (cs : List SocketClient) (c : SocketClient)
    → Entries P k cs
    → get_socket_client_node k cs ≡ some c
    → P c
unfolding get_socket_client_node
Entries-found P k [] c v e = cc
Entries-found P k (d ∷ cs) c v e = elim (Bool-cases (d.socket == k)) [
  | inl same ↦ subst P (same_client (rw same at e)) (v.0 (==-eq d.socket k same))
  | inr other ↦ Entries-found P k cs c v.1 (rw other at e)
]

pub Entries-only :
    (P : SocketClient → Type 0) (k : ℕ) (cs : List SocketClient) (c : SocketClient)
    → clients_with k cs ≡ 1
    → get_socket_client_node k cs ≡ some c
    → P c
    → Entries P k cs
unfolding get_socket_client_node
Entries-only P k [] c one e p = tt
Entries-only P k (d ∷ cs) c one e p = elim (Bool-cases (d.socket == k)) [
  | inl same ↦ (
    λ q. subst P (sym (same_client (rw same at e))) p,
    Entries-none P k cs (ground (arith, one, same)),
  )
  | inr other ↦ (
    λ q. absurd (ground (arith, q, other)),
    Entries-only P k cs c (ground (arith, one, other)) (rw other at e) p,
  )
]

pub clients_with-found :
    (k : ℕ) (cs : List SocketClient) → clients_with k cs ≡ 1 → get_socket_client_node k cs ≢ none
unfolding get_socket_client_node
clients_with-found k [] h e = omega (arith, h)
clients_with-found k (c ∷ cs) h e = elim (Bool-cases (c.socket == k)) [
  | inl same ↦ ground (arith, e, same)
  | inr other ↦ clients_with-found k cs (ground (arith, h, other)) (rw other at e)
]

-- The loop of `CheckClientAlive`.
pub check_clients-Heard :
    (now k last order : ℕ) (cs : List SocketClient)
    → last ≢ 0
    → now < last + 60000
    → Entries (Heard last order) k cs
    → Entries (Heard last order) k (check_clients now cs)
unfolding s_delay_time
check_clients-Heard now k last order [] some_time soon v = tt
check_clients-Heard now k last order (c ∷ cs) some_time soon v =
    (ground (arith, v.0), check_clients-Heard now k last order cs some_time soon v.1)

pub clients_with-check :
    (now k : ℕ) (cs : List SocketClient) → clients_with k (check_clients now cs) ≡ clients_with k cs
unfolding s_delay_time
clients_with-check now k [] = refl
clients_with-check now k (c ∷ cs) = ground (arith, clients_with-check now k cs)

pub timed_out-Heard :
    (now k last order : ℕ) (cs : List SocketClient) (closed : List ℕ)
    → last ≢ 0
    → now < last + 60000
    → Entries (Heard last order) k cs
    → count k (timed_out now cs closed) ≡ count k closed
unfolding s_delay_time
timed_out-Heard now k last order [] closed some_time soon v = refl
timed_out-Heard now k last order (c ∷ cs) closed some_time soon v = ground (
  arith,
  v.0,
  timed_out-Heard now k last order cs (c.socket ∷ closed) some_time soon v.1,
  timed_out-Heard now k last order cs closed some_time soon v.1,
)

-- The client is written again, after its timer was cleared.
pub Entries-cleared :
    (now k order : ℕ) (d : SocketClient) (cs : List SocketClient)
    → now ≢ 0
    → clients_with k cs ≡ 1
    → d.socket ≡ k
    → d.alive_timeout.start_time ≡ 0
    → d.alive_timeout_flag ≡ false
    → d.c2s_packet_order_number ≡ order
    → Entries (Heard now order) k (check_clients now (set_client k d cs))
unfolding set_client s_delay_time
Entries-cleared now k order d [] some_time one e clear flag counted = tt
Entries-cleared now k order d (c ∷ cs) some_time one e clear flag counted =
    elim (Bool-cases (c.socket == k)) [
      | inl same ↦
          let none_left : clients_with k cs ≡ 0 = ground (arith, one, same) in
          rw same (
            ground (arith, e, clear, flag, counted, some_time),
            Entries-none (Heard now order) k (check_clients now cs)
                (clients_with-check now k cs ∙ none_left),
          )
      | inr other ↦
          let rest =
            Entries-cleared now k order d cs some_time (ground (arith, one, other)) e clear flag
              counted in
          let out : (check_client now c).0.socket ≢ k = ground (arith, other) in
          rw other (λ q. absurd (out q), rest)
    ]

-- Another client is written.
pub set_client-other :
    (P : SocketClient → Type 0) (k j : ℕ) (d : SocketClient) (cs : List SocketClient)
    → j ≢ k
    → d.socket ≢ k
    → Entries P k cs
    → Entries P k (set_client j d cs) × (clients_with k (set_client j d cs) ≡ clients_with k cs)
unfolding set_client
set_client-other P k j d [] ne out v = (tt, refl)
set_client-other P k j d (c ∷ cs) ne out v = elim (Bool-cases (c.socket == j)) [
  | inl same ↦ rw same ((λ e. absurd (out e), v.1), ground (arith, same, ne, out))
  | inr other ↦
      let rest = set_client-other P k j d cs ne out v.1 in
      rw other ((v.0, rest.0), ground (arith, rest.1))
]

timed_out-none :
    (now k : ℕ) (cs : List SocketClient) (closed : List ℕ)
    → clients_with k cs ≡ 0
    → count k (timed_out now cs closed) ≡ count k closed
unfolding s_delay_time
timed_out-none now k [] closed h = refl
timed_out-none now k (c ∷ cs) closed h =
    let rest : clients_with k cs ≡ 0 = ground (arith, h) in
    ground (
      arith,
      h,
      timed_out-none now k cs (c.socket ∷ closed) rest,
      timed_out-none now k cs closed rest,
    )

-- A client with the socket is written in place of the one that is there.
pub clients_with-same :
    (k : ℕ) (d : SocketClient) (cs : List SocketClient)
    → d.socket ≡ k
    → clients_with k (set_client k d cs) ≡ clients_with k cs
unfolding set_client
clients_with-same k d [] e = refl
clients_with-same k d (c ∷ cs) e = elim (Bool-cases (c.socket == k)) [
  | inl same ↦ rw same (ground (arith, e, same))
  | inr other ↦ rw other (ground (arith, clients_with-same k d cs e))
]

pub timed_out-cleared :
    (now k : ℕ) (d : SocketClient) (cs : List SocketClient) (closed : List ℕ)
    → now ≢ 0
    → clients_with k cs ≡ 1
    → d.socket ≡ k
    → d.alive_timeout.start_time ≡ 0
    → count k (timed_out now (set_client k d cs) closed) ≡ count k closed
unfolding set_client s_delay_time
timed_out-cleared now k d [] closed some_time one e clear = refl
timed_out-cleared now k d (c ∷ cs) closed some_time one e clear =
    elim (Bool-cases (c.socket == k)) [
      | inl same ↦
          let none_left : clients_with k cs ≡ 0 = ground (arith, one, same) in
          rw (same, clear) (timed_out-none now k cs closed none_left)
      | inr other ↦
          let one' : clients_with k cs ≡ 1 = ground (arith, one, other) in
          rw other (
            ground (
              arith,
              other,
              timed_out-cleared now k d cs (c.socket ∷ closed) some_time one' e clear,
              timed_out-cleared now k d cs closed some_time one' e clear,
            ))
    ]

-- What holds of the user's data of all clients.
abbrev pub Players : (Ptr → Type 0) → List SocketClient → Type 0
Players P [] = Unit {0}
Players P (c ∷ cs) = P c.user_data × Players P cs

pub Players-found :
    (P : Ptr → Type 0) (k : ℕ) (cs : List SocketClient) (c : SocketClient)
    → Players P cs
    → get_socket_client_node k cs ≡ some c
    → P c.user_data
unfolding get_socket_client_node
Players-found P k [] c v e = cc
Players-found P k (d ∷ cs) c v e = elim (Bool-cases (d.socket == k)) [
  | inl same ↦ subst (λ x. P x.user_data) (same_client (rw same at e)) v.0
  | inr other ↦ Players-found P k cs c v.1 (rw other at e)
]

pub Players-set_client :
    (P : Ptr → Type 0) (k : ℕ) (d : SocketClient) (cs : List SocketClient)
    → P d.user_data
    → Players P cs
    → Players P (set_client k d cs)
unfolding set_client
Players-set_client P k d [] p v = tt
Players-set_client P k d (c ∷ cs) p v = elim (Bool-cases (c.socket == k)) [
  | inl same ↦ rw same (p, v.1)
  | inr other ↦ rw other (v.0, Players-set_client P k d cs p v.1)
]

pub Players-check :
    (P : Ptr → Type 0) (now : ℕ) (cs : List SocketClient)
    → Players P cs
    → Players P (check_clients now cs)
Players-check P now [] v = tt
Players-check P now (c ∷ cs) v =
    (subst P (sym (check_client-same now c).1) v.0, Players-check P now cs v.1)

timed_out-le :
    (now k : ℕ) (cs : List SocketClient) (closed : List ℕ)
    → count k closed ≤ count k (timed_out now cs closed)
timed_out-le now k [] closed = omega arith
timed_out-le now k (c ∷ cs) closed =
    ground (arith, timed_out-le now k cs (c.socket ∷ closed), timed_out-le now k cs closed)

-- A client whose time is over.
pub timed_out-found :
    (now k last : ℕ) (c : SocketClient) (cs : List SocketClient) (closed : List ℕ)
    → c.alive_timeout.start_time ≡ last
    → last ≢ 0
    → last + 60000 ≤ now
    → get_socket_client_node k cs ≡ some c
    → count k closed < count k (timed_out now cs closed)
unfolding get_socket_client_node s_delay_time
timed_out-found now k last c [] closed start some_time late e = cc
timed_out-found now k last c (d ∷ cs) closed start some_time late e =
    elim (Bool-cases (d.socket == k)) [
      | inl same ↦
          let it : d ≡ c = same_client (rw same at e) in
          let start' : d.alive_timeout.start_time ≡ last =
            ap (λ x. x.alive_timeout.start_time) it ∙ start in
          ground (arith, same, start', some_time, late, timed_out-le now k cs (d.socket ∷ closed))
      | inr other ↦
          let e' = rw other at e in
          ground (
            arith,
            timed_out-found now k last c cs (d.socket ∷ closed) start some_time late e',
            timed_out-found now k last c cs closed start some_time late e',
          )
    ]

pub set_client-found :
    (k j : ℕ) (d : SocketClient) (cs : List SocketClient)
    → j ≢ k
    → d.socket ≢ k
    → get_socket_client_node k (set_client j d cs) ≡ get_socket_client_node k cs
unfolding get_socket_client_node set_client
set_client-found k j d [] ne out = refl
set_client-found k j d (c ∷ cs) ne out = elim (Bool-cases (c.socket == j)) [
  | inl same ↦
      let miss : (c.socket == k) ≡ false = ground (arith, same, ne) in
      rw (same, ==-of_ne d.socket k out, miss) refl
  | inr other ↦ elim (Bool-cases (c.socket == k)) [
    | inl hit ↦ rw (other, hit) refl
    | inr miss ↦ rw (other, miss) (set_client-found k j d cs ne out)
  ]
]
