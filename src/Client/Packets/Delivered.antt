-- ===== src/Client/Packets/Delivered.antt =====
-- A packet of the client on its way to the server.
use winsock_multi_thread_ser.Base.{
  ℕ, suc, ◌+◌, ◌-◌, ◌%◌, ◌≤◌, ◌<◌, ◌≡◌, refl, sym, ap, ◌∙◌, List, ◌∷◌, ◌++◌, arith, lt→ltb, length,
  length-append, length-replicate, take, drop, take-append, take-append_add, drop-replicate,
  append_assoc, replicate, Bytes, count, inc16, u16, ok,
}
use winsock_multi_thread_ser.CString.{c_string, c_string-append, strcpy_s}
use winsock_multi_thread_ser.Receive.{
  Answer, packet, packet_length_of, packet_buffer_max, receive_ex, recv_retry_max,
}
use winsock_multi_thread_ser.Receive.Delivery.{Delivers}
use winsock_multi_thread_ser.Receive.Reassembly.{receive_ex-packet}
use winsock_multi_thread_ser.Send
use winsock_multi_thread_ser.Send.{send_retry_max}
use winsock_multi_thread_ser.Send.Complete.{Takes, send_ex-complete}
use winsock_multi_thread_ser.Packet.{
  HeadPacketInfo, head_bytes, word, head_size, head_of, buffer_of, message_buffer_max,
}
use winsock_multi_thread_ser.Packet.Head.{head_of-head_bytes}
use winsock_multi_thread_ser.Server.{blank_packet}
use winsock_multi_thread_ser.Client.{TcpClient, client_send_ex, after_send}
use winsock_multi_thread_ser.Client.Packets.{c2s_packet, next_order, send_text}

-- The head of the next packet of a client, with a text behind it.
abbrev pub text_head : ℕ → Bytes → TcpClient → HeadPacketInfo
text_head packet_type text c = record {
  packet_length = head_size + length text;
  packet_type = packet_type;
  packet_order_number = inc16 c.c2s_packet_order_number;
}

-- The bytes that go over the wire.
abbrev pub wire : ℕ → Bytes → TcpClient → Bytes
wire packet_type text c = head_bytes (text_head packet_type text c) ++ text

-- The client behind a packet that was sent as a whole.
abbrev pub sent : Bytes → List Send.Answer → TcpClient → TcpClient
sent bytes answers c = record (next_order c) { given = c.given ++ bytes; send_answers = answers }

take-c2s_packet :
    (packet_type : ℕ) (text tail : Bytes) (c : TcpClient)
    → take (head_size + length text) (
        c2s_packet
          (head_size + length text)
          packet_type
          (inc16 c.c2s_packet_order_number)
          (text ++ tail))
      ≡ wire packet_type text c
unfolding c2s_packet head_bytes word
take-c2s_packet packet_type text tail c =
    let head = head_bytes (text_head packet_type text c) in
    take-append_add (length text) head (text ++ tail) ∙ ap (λ l. head ++ l) (take-append text tail)

length-c2s_packet :
    (packet_length packet_type order : ℕ) (array : Bytes)
    → length (c2s_packet packet_length packet_type order array) ≡ head_size + length array
unfolding c2s_packet head_bytes word
length-c2s_packet packet_length packet_type order array = omega arith

-- A text that fits into its array, where `send` takes all bytes in any pieces: the socket gets the
-- head with the next order number and then the text, and the order number is kept.
pub send_text-wire :
    {k : ℕ} {rest : List Send.Answer} (packet_type size : ℕ) (text junk : Bytes) (c : TcpClient)
    → count 0 text ≡ 0
    → length text < size
    → size ≤ message_buffer_max
    → Takes (head_size + length text) c.send_answers rest k
    → k < send_retry_max
    → send_text packet_type size (text ++ 0 ∷ junk) (length text) c
      ≡ ok (sent (wire packet_type text c) rest c)
unfolding send_text strcpy_s client_send_ex after_send
send_text-wire {rest} packet_type size text junk c no_zero short small t few =
    let n = head_size + length text in
    let tail : Bytes = 0 ∷ drop (length text + 1) (replicate size 0) in
    let whole : n % u16 ≡ n = omega (arith, short, small) in
    let bytes = c2s_packet n packet_type (inc16 c.c2s_packet_order_number) (text ++ tail) in
    let room : n ≤ length bytes = omega (
      arith,
      length-c2s_packet n packet_type (inc16 c.c2s_packet_order_number) (text ++ tail),
      length-append text tail,
    ) in
    rw
      (
        c_string-append text junk no_zero,
        lt→ltb (length text) size short,
        whole,
        (send_ex-complete bytes t room few).0,
        take-c2s_packet packet_type text tail c,
      )
      refl

-- The first two bytes announce the length.
packet_length_of-wire :
    (packet_type : ℕ) (text : Bytes) (c : TcpClient)
    → length text < message_buffer_max
    → packet_length_of (take 2 (wire packet_type text c)) ≡ head_size + length text
unfolding head_bytes word
packet_length_of-wire packet_type text c short = omega (arith, short)

split-wire :
    (packet_type : ℕ) (text : Bytes) (c : TcpClient)
    → take 2 (wire packet_type text c) ++ drop 2 (wire packet_type text c) ≡ wire packet_type text c
unfolding head_bytes word
split-wire packet_type text c = refl

-- The bytes behind the packet in a blank node: a zero byte at least.
drop-blank_packet :
    (n : ℕ)
    → n < packet_buffer_max
    → drop n blank_packet ≡ 0 ∷ replicate (packet_buffer_max - n - 1) 0
drop-blank_packet n h =
    let left : packet_buffer_max - n ≡ suc (packet_buffer_max - n - 1) = omega (arith, h) in
    drop-replicate {A = ℕ} n packet_buffer_max 0 (omega (arith, h)) ∙ ap (λ k. replicate k 0) left

-- From the client to the server: where the text has no zero byte and fits into its array, `send`
-- takes the bytes in any pieces, and `recv` brings them to the server in any other pieces, with
-- fewer than 5000 times `WSAEWOULDBLOCK` on each side, `ReceiveEx` puts the packet into a blank node:
-- the server reads the length, the type, the next order number of the client, and the same text.
pub send_text-receive_ex :
    {i j k : ℕ} {rest : List Send.Answer} {answers mid later : List Answer} (packet_type size : ℕ)
    (text junk : Bytes) (c : TcpClient)
    → count 0 text ≡ 0
    → length text < size
    → size ≤ message_buffer_max
    → packet_type < u16
    → Takes (head_size + length text) c.send_answers rest i
    → i < send_retry_max
    → Delivers 2 (take 2 (wire packet_type text c)) answers mid j
    → Delivers (head_size + length text - 2) (drop 2 (wire packet_type text c)) mid later k
    → j + k < recv_retry_max
    → let p = wire packet_type text c ++ drop (head_size + length text) blank_packet in
      (send_text packet_type size (text ++ 0 ∷ junk) (length text) c
        ≡ ok (sent (wire packet_type text c) rest c))
      × (receive_ex answers blank_packet ≡ ok (packet p (head_size + length text) later))
      × (head_of p ≡ text_head packet_type text c)
      × (c_string (buffer_of p) ≡ ok text)
send_text-receive_ex {k} {mid} {later} packet_type size text junk c no_zero short small typed t few
      d e waits =
    let n = head_size + length text in
    let w = wire packet_type text c in
    let announced = packet_length_of-wire packet_type text c (omega (arith, short, small)) in
    let blank = drop n blank_packet in
    let e' : Delivers (packet_length_of (take 2 w) - 2) (drop 2 w) mid later k = rw announced e in
    let received =
      receive_ex-packet blank_packet d e' (omega (arith, announced))
        (omega (arith, announced, short, small, length-replicate {A = ℕ} packet_buffer_max 0))
        waits in
    let read =
      head_of-head_bytes (text_head packet_type text c) (text ++ blank)
        (omega (arith, short, small)) typed (omega arith) in
    let form : take 2 w ++ (drop 2 w ++ drop (packet_length_of (take 2 w)) blank_packet)
        ≡ w ++ blank =
      rw announced (
        sym (append_assoc (take 2 w) (drop 2 w) blank)
        ∙ ap (λ l. l ++ blank) (split-wire packet_type text c)) in
    let ends = drop-blank_packet n (omega (arith, short, small)) in
    let regroup = append_assoc (head_bytes (text_head packet_type text c)) text blank in
    (
      send_text-wire packet_type size text junk c no_zero short small t few,
      received.0
          ∙ ap (λ l. ok (packet l (packet_length_of (take 2 w)) later)) form
          ∙ ap (λ l. ok (packet (w ++ blank) l later)) announced,
      ap head_of regroup ∙ read.0,
      ap c_string (ap buffer_of regroup ∙ read.1 ∙ ap (λ l. text ++ l) ends)
          ∙ c_string-append text (replicate (packet_buffer_max - n - 1) 0) no_zero,
    )
