-- ===== src/Server/Sender/Wire.antt =====
-- The bytes that a socket gets of a broadcast.
use winsock_multi_thread_ser.Base.{
  ℕ, ◌+◌, ◌≤◌, ◌<◌, ◌≡◌, ◌≢◌, refl, ap, ◌∙◌, inl, inr, false, Option, none, some, List, [], ◌∷◌,
  ◌++◌, arith, ◌==◌, if◌then◌else◌, Bool-cases, length, take, take-append, take-append_add, Bytes,
  Ptr, count, inc16, update,
}
use winsock_multi_thread_ser.Packet.{HeadPacketInfo, head_bytes, head_size, word, set_order}
use winsock_multi_thread_ser.Server.{SocketSendInfo}
use winsock_multi_thread_ser.Server.Gameplay.Clients.{sends_to}
use winsock_multi_thread_ser.Server.Sender.{Frame, send_to_all, send_to_others}
use winsock_multi_thread_ser.Server.Sender.Targets.{counters, others, send_to_others-eq-send_to_all}

-- The first entry with a socket.
abbrev pub entry_of : ℕ → List SocketSendInfo → Option SocketSendInfo
entry_of k [] = none
entry_of k (e ∷ es) = if e.socket == k then some e else entry_of k es

-- The bytes of each frame to a socket, in order.
abbrev pub bytes_to : ℕ → List Frame → List Bytes
bytes_to k [] = []
bytes_to k (f ∷ fs) =
    if f.socket == k then take f.packet_length f.packet ∷ bytes_to k fs else bytes_to k fs

-- A head with another order number.
abbrev pub numbered : ℕ → HeadPacketInfo → HeadPacketInfo
numbered order h = record h { packet_order_number = order }

set_order-head_bytes :
    (n : ℕ) (h : HeadPacketInfo) (rest : Bytes)
    → set_order n (head_bytes h ++ rest) ≡ head_bytes (numbered n h) ++ rest
unfolding set_order head_bytes word
set_order-head_bytes n h rest = refl

take-message :
    (h : HeadPacketInfo) (text junk : Bytes)
    → take (head_size + length text) (head_bytes h ++ (text ++ junk)) ≡ head_bytes h ++ text
unfolding head_bytes word
take-message h text junk =
    take-append_add (length text) (head_bytes h) (text ++ junk)
    ∙ ap (λ l. head_bytes h ++ l) (take-append text junk)

-- The counter of an entry is among those of the list.
entry_of-count :
    (k : ℕ) (es : List SocketSendInfo) (e : SocketSendInfo)
    → entry_of k es ≡ some e
    → 0 < count e.s2c_packet_order_number (counters es)
entry_of-count k [] e found = ground (arith, found)
entry_of-count k (d ∷ es) e found = elim (Bool-cases (d.socket == k)) [
  | inl hit ↦
      let same : d.s2c_packet_order_number ≡ e.s2c_packet_order_number =
        ground (arith, found, hit) in
      ground (arith, same)
  | inr miss ↦ omega (arith, entry_of-count k es e (rw miss at found))
]

-- A socket with no entry gets nothing.
send_to_all-none :
    (k : ℕ) (es : List SocketSendInfo) (p : Bytes) (n : ℕ) (orders : Ptr → ℕ)
    → sends_to k es ≡ 0
    → bytes_to k (send_to_all es p n orders).0 ≡ []
unfolding send_to_all
send_to_all-none k [] p n orders h = refl
send_to_all-none k (e ∷ es) p n orders h =
    let order = inc16 (orders e.s2c_packet_order_number) in
    let miss : (e.socket == k) ≡ false = ground (arith, h) in
    rw miss (
      send_to_all-none k es (set_order order p) n (update orders e.s2c_packet_order_number order)
        (ground (arith, h)))

-- A broadcast gives the socket of just one entry the message once, with the entry's counter plus one
-- as order number, where no two entries share a counter.
pub send_to_all-bytes :
    (k : ℕ) (es : List SocketSendInfo) (e : SocketSendInfo) (h : HeadPacketInfo) (text junk : Bytes)
    (orders : Ptr → ℕ)
    → entry_of k es ≡ some e
    → sends_to k es ≡ 1
    → ((a : Ptr) → count a (counters es) ≤ 1)
    → bytes_to k
        (send_to_all es (head_bytes h ++ (text ++ junk)) (head_size + length text) orders).0
      ≡ (head_bytes (numbered (inc16 (orders e.s2c_packet_order_number)) h) ++ text) ∷ []
unfolding send_to_all
send_to_all-bytes k [] e h text junk orders found single one = ground (arith, found)
send_to_all-bytes k (d ∷ es) e h text junk orders found single one =
    let order = inc16 (orders d.s2c_packet_order_number) in
    elim (Bool-cases (d.socket == k)) [
      | inl hit ↦
          let same : d.s2c_packet_order_number ≡ e.s2c_packet_order_number =
            ground (arith, found, hit) in
          rw
            (
              hit,
              set_order-head_bytes order h (text ++ junk),
              send_to_all-none k es (head_bytes (numbered order h) ++ (text ++ junk))
                  (head_size + length text) (update orders d.s2c_packet_order_number order)
                  (ground (arith, single, hit)),
            )
            (ap (λ l. l ∷ []) (take-message (numbered order h) text junk)
              ∙ ap (λ a. (head_bytes (numbered (inc16 (orders a)) h) ++ text) ∷ []) same)
      | inr miss ↦
          let later =
            send_to_all-bytes k es e (numbered order h) text junk
              (update orders d.s2c_packet_order_number order) (rw miss at found)
              (ground (arith, single, miss)) (λ a. omega (arith, one a)) in
          let there = entry_of-count k es e (rw miss at found) in
          let apart : (e.s2c_packet_order_number == d.s2c_packet_order_number) ≡ false =
            ground (arith, there, one e.s2c_packet_order_number) in
          rw (miss, set_order-head_bytes order h (text ++ junk)) (rw apart at later)
    ]

entry_of-others :
    (sender k : ℕ) (es : List SocketSendInfo)
    → k ≢ sender
    → entry_of k (others sender es) ≡ entry_of k es
entry_of-others sender k [] n = refl
entry_of-others sender k (e ∷ es) n = elim (Bool-cases (sender == e.socket)) [
  | inl same ↦
      let miss : (e.socket == k) ≡ false = ground (arith, n, same) in
      rw (same, miss) (entry_of-others sender k es n)
  | inr other ↦ elim (Bool-cases (e.socket == k)) [
    | inl hit ↦ rw (other, hit) refl
    | inr miss ↦ rw (other, miss) (entry_of-others sender k es n)
  ]
]

sends_to-others :
    (sender k : ℕ) (es : List SocketSendInfo)
    → k ≢ sender
    → sends_to k (others sender es) ≡ sends_to k es
sends_to-others sender k [] n = refl
sends_to-others sender k (e ∷ es) n = ground (arith, n, sends_to-others sender k es n)

count-others :
    (a sender : ℕ) (es : List SocketSendInfo)
    → count a (counters (others sender es)) ≤ count a (counters es)
count-others a sender [] = omega arith
count-others a sender (e ∷ es) = ground (arith, count-others a sender es)

-- The same for the broadcast to all others, and an entry with another socket than the sender's.
pub send_to_others-bytes :
    (sender k : ℕ) (es : List SocketSendInfo) (e : SocketSendInfo) (h : HeadPacketInfo)
    (text junk : Bytes) (orders : Ptr → ℕ)
    → k ≢ sender
    → entry_of k es ≡ some e
    → sends_to k es ≡ 1
    → ((a : Ptr) → count a (counters es) ≤ 1)
    → bytes_to k
        (send_to_others sender es
          (head_bytes h ++ (text ++ junk))
          (head_size + length text)
          orders).0
      ≡ (head_bytes (numbered (inc16 (orders e.s2c_packet_order_number)) h) ++ text) ∷ []
send_to_others-bytes sender k es e h text junk orders n found single one =
    rw
      (send_to_others-eq-send_to_all sender es (head_bytes h ++ (text ++ junk))
        (head_size + length text) orders)
      (send_to_all-bytes k (others sender es) e h text junk orders
        (entry_of-others sender k es n ∙ found) (sends_to-others sender k es n ∙ single)
        (λ a. omega (arith, one a, count-others a sender es)))
