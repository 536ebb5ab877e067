-- ===== src/GameServer/Answers.antt =====
-- What players get to see of a message.
use winsock_multi_thread_ser.Base.{
  ℕ, ◌+◌, ◌-◌, ◌≤◌, ◌<◌, ◌≡◌, refl, ap, ◌∙◌, false, arith, [], ◌∷◌, ◌++◌, ltb, length,
  length-append, take, replicate, length-replicate, take-append_add, take-take-append,
  drop-replicate, length-take, Bytes, count, lt→ltb, ok, fault,
}
use Prim.Native.Nat.{min}
use winsock_multi_thread_ser.CString.{c_string-append}
use winsock_multi_thread_ser.Tool.Copy.{s_memcpy-min}
use winsock_multi_thread_ser.Receive.{packet_buffer_max}
use winsock_multi_thread_ser.Packet.{
  SendType, HeadPacketInfo, head_bytes, head_size, word, message_buffer_max,
}
use winsock_multi_thread_ser.Server.{copy_array, blank_packet}
use winsock_multi_thread_ser.Server.Gameplay.{new_send_packet}
use winsock_multi_thread_ser.GameServer.{print_message, message_packet, answer_message}

-- "name : message"
abbrev pub chat_line : Bytes → Bytes → Bytes
chat_line name message = name ++ (b' ' ∷ b':' ∷ b' ' ∷ message)

-- The head of such a packet, before the send thread numbers it.
abbrev pub message_head : ℕ → Bytes → HeadPacketInfo
message_head packet_type text = record {
  packet_length = head_size + length text;
  packet_type = packet_type;
  packet_order_number = 0;
}

-- The bytes of a packet that are copied into its node.
take-message_packet :
    (packet_type : ℕ) (text : Bytes)
    → length text ≤ message_buffer_max
    → take (head_size + length text) (message_packet packet_type text)
      ≡ head_bytes (message_head packet_type text) ++ text
unfolding message_packet head_bytes word
take-message_packet packet_type text h =
    let head = head_bytes (message_head packet_type text) in
    take-append_add (length text) head
      (take message_buffer_max (text ++ replicate message_buffer_max 0))
    ∙ ap (λ l. head ++ l)
        (take-take-append message_buffer_max text (replicate message_buffer_max 0) h)

length-message_packet :
    (packet_type : ℕ) (text : Bytes)
    → length text ≤ message_buffer_max
    → head_size + length text ≤ length (message_packet packet_type text)
unfolding message_packet head_bytes word
length-message_packet packet_type text h =
    let zeros : Bytes = replicate message_buffer_max 0 in
    let room : length (text ++ zeros) ≡ length text + message_buffer_max =
      length-append text zeros in
    omega (arith, h, length-take message_buffer_max (text ++ zeros) (omega (arith, room)))

-- A packet in a node of the send queue.
new_send_packet_lem :
    (send_type : SendType) (packet_type socket : ℕ) (text : Bytes)
    → length text ≤ message_buffer_max
    → new_send_packet send_type socket (message_packet packet_type text) (head_size + length text)
      ≡ ok (record {
        send_type = send_type;
        socket = socket;
        packet_length = head_size + length text;
        packet =
            head_bytes (message_head packet_type text)
            ++ text
            ++ replicate (packet_buffer_max - head_size - length text) 0;
      })
unfolding new_send_packet copy_array
new_send_packet_lem send_type packet_type socket text h =
    let n = head_size + length text in
    let least : min packet_buffer_max n ≡ n = omega (arith, h) in
    let room : packet_buffer_max - n ≡ packet_buffer_max - head_size - length text = omega arith in
    rw
      (
        s_memcpy-min blank_packet (message_packet packet_type text) packet_buffer_max n
            (omega (arith, length-replicate {A = ℕ} packet_buffer_max 0))
            (omega (arith, length-message_packet packet_type text h)),
        least,
        take-message_packet packet_type text h,
        drop-replicate {A = ℕ} n packet_buffer_max 0 (omega (arith, h)),
        room,
      )
      refl

-- A player's message, where name and message are C strings and fit into 126 characters with the
-- separator: one packet is queued, and it is numbered 0, has the right length and type in its head,
-- "name : message" behind it, and zeros up to the end of the buffer.
pub answer_message-fits :
    (send_type : SendType) (packet_type socket : ℕ) (name junk message rest : Bytes)
    → count 0 name ≡ 0
    → count 0 message ≡ 0
    → length (chat_line name message) < 127
    → answer_message send_type packet_type socket (name ++ 0 ∷ junk) (message ++ 0 ∷ rest)
      ≡ ok (
          record {
            send_type = send_type;
            socket = socket;
            packet_length = head_size + length (chat_line name message);
            packet =
                head_bytes (message_head packet_type (chat_line name message))
                ++ chat_line name message
                ++ replicate (packet_buffer_max - head_size - length (chat_line name message)) 0;
          }
          ∷ [])
unfolding answer_message print_message
answer_message-fits send_type packet_type socket name junk message rest h k fits =
    let line = chat_line name message in
    rw
      (
        c_string-append name junk h,
        c_string-append message rest k,
        lt→ltb (length line) 127 fits,
        new_send_packet_lem send_type packet_type socket line (omega (arith, fits)),
      )
      refl

-- A message that is too long with the sender's name: `sprintf_s` ends the process, whatever the
-- packet.
pub answer_message-too_long :
    (send_type : SendType) (packet_type socket : ℕ) (name junk message rest : Bytes)
    → count 0 name ≡ 0
    → count 0 message ≡ 0
    → 127 ≤ length (chat_line name message)
    → answer_message send_type packet_type socket (name ++ 0 ∷ junk) (message ++ 0 ∷ rest) ≡ fault
unfolding answer_message print_message
answer_message-too_long send_type packet_type socket name junk message rest h k long =
    let no : ltb (length (chat_line name message)) 127 ≡ false = ground (arith, long) in
    rw (c_string-append name junk h, c_string-append message rest k, no) refl
