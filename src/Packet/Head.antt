-- ===== src/Packet/Head.antt =====
-- Round trips of the head of a packet.
use winsock_multi_thread_ser.Base.{ℕ, ◌≤◌, ◌<◌, ◌≡◌, refl, [], ◌∷◌, ◌++◌, arith, length, u16, Bytes}
use winsock_multi_thread_ser.Packet.{HeadPacketInfo, head_bytes, head_of, buffer_of, set_order}

-- What one side writes as the head of a packet, the other side reads, whatever bytes follow, if
-- all three numbers are 16-bit words; and the bytes that follow are the buffer.
pub head_of-head_bytes :
    (h : HeadPacketInfo) (rest : Bytes)
    → h.packet_length < u16
    → h.packet_type < u16
    → h.packet_order_number < u16
    → (head_of (head_bytes h ++ rest) ≡ h) × (buffer_of (head_bytes h ++ rest) ≡ rest)
unfolding head_bytes head_of
head_of-head_bytes h rest a b c = (ground arith, refl)

-- The send thread writes an order number into a packet: it is read back, and the length, the type
-- and the buffer stay.
pub head_of-set_order :
    (n : ℕ) (p : Bytes)
    → n < u16
    → 6 ≤ length p
    → (head_of (set_order n p) ≡ record {
      packet_length = (head_of p).packet_length;
      packet_type = (head_of p).packet_type;
      packet_order_number = n;
    })
      × (buffer_of (set_order n p) ≡ buffer_of p)
      × (length (set_order n p) ≡ length p)
unfolding set_order head_of
head_of-set_order n [] h k = absurd (omega arith)
head_of-set_order n (a ∷ []) h k = absurd (omega arith)
head_of-set_order n (a ∷ b ∷ []) h k = absurd (omega arith)
head_of-set_order n (a ∷ b ∷ c ∷ []) h k = absurd (omega arith)
head_of-set_order n (a ∷ b ∷ c ∷ d ∷ []) h k = absurd (omega arith)
head_of-set_order n (a ∷ b ∷ c ∷ d ∷ e ∷ []) h k = absurd (omega arith)
head_of-set_order n (a ∷ b ∷ c ∷ d ∷ e ∷ f ∷ rest) h k = (ground arith, refl, refl)
