-- ===== src/Server/Gameplay/Clients.antt =====
-- Searches in the client list by socket.
use winsock_multi_thread_ser.Base.{
  ℕ, suc, ◌+◌, ◌≡◌, ◌≢◌, refl, ap, inl, inr, true, false, none, some, List, [], ◌∷◌, ◌++◌, arith,
  ◌==◌, if◌then◌else◌, length, Bool-cases,
}
use winsock_multi_thread_ser.Server.{
  SocketClient, SocketSendInfo, get_socket_client_node, unlink_client, set_client, unlink_send,
}

-- How many clients have a socket.
abbrev pub clients_with : ℕ → List SocketClient → ℕ
clients_with k [] = 0
clients_with k (c ∷ cs) = (if c.socket == k then 1 else 0) + clients_with k cs

-- How many entries of the send list have it.
abbrev pub sends_to : ℕ → List SocketSendInfo → ℕ
sends_to k [] = 0
sends_to k (e ∷ es) = (if e.socket == k then 1 else 0) + sends_to k es

pub get_socket_client_node-none :
    (k : ℕ) (cs : List SocketClient) → clients_with k cs ≡ 0 → get_socket_client_node k cs ≡ none
unfolding get_socket_client_node
get_socket_client_node-none k [] h = refl
get_socket_client_node-none k (c ∷ cs) h =
    let other : (c.socket == k) ≡ false = ground (arith, h) in
    rw other (get_socket_client_node-none k cs (ground (arith, h)))

pub get_socket_client_node-socket :
    (k : ℕ) (cs : List SocketClient) (c : SocketClient)
    → get_socket_client_node k cs ≡ some c
    → c.socket ≡ k
unfolding get_socket_client_node
get_socket_client_node-socket k [] c h = ground arith
get_socket_client_node-socket k (d ∷ cs) c h = ground (arith, get_socket_client_node-socket k cs c)

-- A client that is linked behind others with other sockets.
pub get_socket_client_node-last :
    (cs : List SocketClient) (c : SocketClient)
    → clients_with c.socket cs ≡ 0
    → get_socket_client_node c.socket (cs ++ c ∷ []) ≡ some c
unfolding get_socket_client_node
get_socket_client_node-last [] c h = ground arith
get_socket_client_node-last (d ∷ cs) c h =
    let other : (d.socket == c.socket) ≡ false = ground (arith, h) in
    rw other (get_socket_client_node-last cs c (ground (arith, h)))

pub unlink_client-last :
    (cs : List SocketClient) (c : SocketClient)
    → clients_with c.socket cs ≡ 0
    → unlink_client c.socket (cs ++ c ∷ []) ≡ cs
unfolding unlink_client
unlink_client-last [] c h = ground arith
unlink_client-last (d ∷ cs) c h =
    let other : (d.socket == c.socket) ≡ false = ground (arith, h) in
    rw other (ap (λ l. d ∷ l) (unlink_client-last cs c (ground (arith, h))))

pub unlink_send-last :
    (es : List SocketSendInfo) (e : SocketSendInfo)
    → sends_to e.socket es ≡ 0
    → unlink_send e.socket (es ++ e ∷ []) ≡ es
unfolding unlink_send
unlink_send-last [] e h = ground arith
unlink_send-last (d ∷ es) e h =
    let other : (d.socket == e.socket) ≡ false = ground (arith, h) in
    rw other (ap (λ l. d ∷ l) (unlink_send-last es e (ground (arith, h))))

-- What is written through a pointer to a client adds no client and removes none.
pub length-set_client :
    (k : ℕ) (d : SocketClient) (cs : List SocketClient) → length (set_client k d cs) ≡ length cs
unfolding set_client
length-set_client k d [] = refl
length-set_client k d (c ∷ cs) = elim (Bool-cases (c.socket == k)) [
  | inl same ↦ rw same refl
  | inr other ↦ rw other (ap suc (length-set_client k d cs))
]

-- The only client with a socket gets another one.
pub clients_with-set_client :
    (k : ℕ) (d : SocketClient) (cs : List SocketClient)
    → clients_with k cs ≡ 1
    → d.socket ≢ k
    → clients_with k (set_client k d cs) ≡ 0
unfolding set_client
clients_with-set_client k d [] h n = absurd (omega (arith, h))
clients_with-set_client k d (c ∷ cs) h n = elim (Bool-cases (c.socket == k)) [
  | inl same ↦ rw same (ground (arith, h, n, same))
  | inr other ↦
      let rest : clients_with k cs ≡ 1 = ground (arith, h, other) in
      rw other (ground (arith, clients_with-set_client k d cs rest n, other))
]

-- What was written through the pointer to a client is found again.
pub get_socket_client_node-set_client :
    (k : ℕ) (c d : SocketClient) (cs : List SocketClient)
    → get_socket_client_node k cs ≡ some c
    → d.socket ≡ k
    → get_socket_client_node k (set_client k d cs) ≡ some d
unfolding get_socket_client_node set_client
get_socket_client_node-set_client k c d [] found e = ground (arith, found)
get_socket_client_node-set_client k c d (x ∷ xs) found e = elim (Bool-cases (x.socket == k)) [
  | inl same ↦ let hit : (d.socket == k) ≡ true = ground (arith, e) in rw (same, hit) refl
  | inr other ↦ rw (other, other) (get_socket_client_node-set_client k c d xs (rw other at found) e)
]
