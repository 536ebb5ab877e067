-- ===== src/Server/Sender/Targets.antt =====
-- Who gets a broadcast, and with which order number.
use winsock_multi_thread_ser.Base.{
  ℕ, ◌≤◌, ◌<◌, ◌≡◌, refl, ◌∙◌, inl, inr, List, [], ◌∷◌, arith, ◌==◌, if◌then◌else◌, Bool-cases,
  length, Bytes, Ptr, count, inc16, update,
}
use winsock_multi_thread_ser.Packet.{head_of, buffer_of, set_order}
use winsock_multi_thread_ser.Packet.Head.{head_of-set_order}
use winsock_multi_thread_ser.Server.{SocketSendInfo}
use winsock_multi_thread_ser.Server.Sender.{Frame, send_to_all, send_to_others}

-- The addresses of the counters, in order.
abbrev pub counters : List SocketSendInfo → List Ptr
counters [] = []
counters (e ∷ es) = e.s2c_packet_order_number ∷ counters es

-- The entries of all others.
abbrev pub others : ℕ → List SocketSendInfo → List SocketSendInfo
others socket [] = []
others socket (e ∷ es) = if socket == e.socket then others socket es else e ∷ others socket es

-- One frame for each entry, in order: to its socket, with the counter raised by one as order number,
-- and otherwise the packet as it was queued.
abbrev pub Frames : Bytes → ℕ → (Ptr → ℕ) → List SocketSendInfo → List Frame → Type 0
Frames packet packet_length orders [] [] = Unit {0}
Frames packet packet_length orders [] (f ∷ fs) = ⊥
Frames packet packet_length orders (e ∷ es) [] = ⊥
Frames packet packet_length orders (e ∷ es) (f ∷ fs) =
    ((f.socket ≡ e.socket)
      × (f.packet_length ≡ packet_length)
      × (head_of f.packet ≡ record {
        packet_length = (head_of packet).packet_length;
        packet_type = (head_of packet).packet_type;
        packet_order_number = inc16 (orders e.s2c_packet_order_number);
      })
      × (buffer_of f.packet ≡ buffer_of packet))
    × Frames packet packet_length orders es fs

-- Frames of a packet are frames of any packet that differs from it in the order number at most, and
-- depend on the counters of the entries only.
Frames-same :
    (p q : Bytes) (n : ℕ) (orders orders' : Ptr → ℕ) (es : List SocketSendInfo) (fs : List Frame)
    → (head_of p).packet_length ≡ (head_of q).packet_length
    → (head_of p).packet_type ≡ (head_of q).packet_type
    → buffer_of p ≡ buffer_of q
    → ((a : Ptr) → 0 < count a (counters es) → orders a ≡ orders' a)
    → Frames p n orders es fs
    → Frames q n orders' es fs
Frames-same p q n orders orders' [] [] l t b o h = tt
Frames-same p q n orders orders' [] (f ∷ fs) l t b o h = absurd h
Frames-same p q n orders orders' (e ∷ es) [] l t b o h = absurd h
Frames-same p q n orders orders' (e ∷ es) (f ∷ fs) l t b o h =
    let here : orders e.s2c_packet_order_number ≡ orders' e.s2c_packet_order_number =
      o e.s2c_packet_order_number (ground arith) in
    (
      (h.0.0, h.0.1, rw (← l, ← t, ← here) h.0.2, h.0.3 ∙ b),
      Frames-same p q n orders orders' es fs l t b (λ a i. o a (ground arith)) h.1,
    )

-- `SEND__ALL`: where no two cached entries share a counter and the packet has a head, each cached
-- socket gets exactly one frame, in the order of the cache, with its own counter plus one modulo
-- 2^16 as order number and the rest of the packet unchanged; and each of these counters is raised by
-- one while all others stay.
pub send_to_all-Frames :
    (es : List SocketSendInfo) (packet : Bytes) (n : ℕ) (orders : Ptr → ℕ)
    → 6 ≤ length packet
    → ((a : Ptr) → count a (counters es) ≤ 1)
    → let r = send_to_all es packet n orders in
      Frames packet n orders es r.0
      × ((a : Ptr) → r.1 a ≡ (if count a (counters es) == 0 then orders a else inc16 (orders a)))
unfolding send_to_all
send_to_all-Frames [] packet n orders h one = (tt, λ a. refl)
send_to_all-Frames (e ∷ es) packet n orders h one =
    let c = e.s2c_packet_order_number in
    let order = inc16 (orders c) in
    let p' = set_order order packet in
    let k = head_of-set_order order packet (omega arith) h in
    let rec =
      send_to_all-Frames es p' n (update orders c order) (omega (arith, k.2))
        (λ a. omega (arith, one a)) in
    let head_length : (head_of p').packet_length ≡ (head_of packet).packet_length =
      ground (arith, k.0) in
    let head_type : (head_of p').packet_type ≡ (head_of packet).packet_type = ground (arith, k.0) in
    (
      (
        (refl, refl, k.0, k.1),
        Frames-same p' packet n (update orders c order) orders es _ head_length head_type k.1
            (λ a i. ground (arith, one a)) rec.0,
      ),
      λ a. ground (arith, rec.1 a, one a),
    )

-- `SEND__NON_SELF` is `SEND__ALL` over the entries with another socket than the sender's.
pub send_to_others-eq-send_to_all :
    (socket : ℕ) (es : List SocketSendInfo) (packet : Bytes) (n : ℕ) (orders : Ptr → ℕ)
    → send_to_others socket es packet n orders ≡ send_to_all (others socket es) packet n orders
unfolding send_to_others send_to_all
send_to_others-eq-send_to_all socket [] packet n orders = refl
send_to_others-eq-send_to_all socket (e ∷ es) packet n orders =
    elim (Bool-cases (socket == e.socket)) [
      | inl same ↦ rw same (send_to_others-eq-send_to_all socket es packet n orders)
      | inr other ↦
          let order = inc16 (orders e.s2c_packet_order_number) in
          rw
            (
              other,
              send_to_others-eq-send_to_all socket es (set_order order packet) n
                  (update orders e.s2c_packet_order_number order),
            )
            refl
    ]
