-- ===== src/Client/Recv/Calls.antt =====
-- A packet that reaches the client over several calls of RecvEx.
use winsock_multi_thread_ser.Base.{
  ℕ, zero, suc, ◌+◌, ◌-◌, ◌≤◌, ◌<◌, ◌≡◌, refl, sym, ap, ◌∙◌, Bool, true, false, List, [], ◌∷◌, ◌++◌,
  arith, ltb, leb, lt→ltb, ◌==◌, if◌then◌else◌, length, take, drop, take-append-drop,
  drop-replicate, drop-add, append_assoc, replicate, Bytes, count, inc16, u16, Run, ok, ◌>>=◌,
}
use winsock_multi_thread_ser.CString.{c_string-append}
use winsock_multi_thread_ser.Receive.{
  Answer, got, would_block, packet_length_of, packet_length_size, recv_retry_max,
}
use winsock_multi_thread_ser.Receive.Delivery.{
  Delivers, all, piece, wait, receive_loop-Delivers, write-write, write_at-ok, length-write,
}
use winsock_multi_thread_ser.Packet.{HeadPacketInfo, head_bytes, word, head_size}
use winsock_multi_thread_ser.Packet.Head.{head_of-head_bytes}
use winsock_multi_thread_ser.Client.{TcpClient, packet_buffer_size}
use winsock_multi_thread_ser.Client.Recv.{
  header, nothing, header_loop, after_header, after_rest, recv_ex, recv_calls, show_packet,
  clear_recv_packet_info,
}

-- What a call leads to, with `w` calls to come.
abbrev next : ℕ → TcpClient × Bool → Run (TcpClient × Bool)
next w x = if x.1 then recv_calls w x.0 else ok (x.0, false)

-- The client with bytes of the header in its packet.
abbrev filled : TcpClient → Bytes → ℕ → List Answer → TcpClient
filled c bytes index answers = record c {
  recv_packet = bytes;
  recv_packet_buffer_index = index;
  recv_packet_length = 0;
  recv_answers = answers;
}

-- A piece of the header.
header_loop-got :
    (bytes : Bytes) (answers : List Answer) (max : ℕ) (c : TcpClient)
    → 0 < length bytes
    → length bytes ≤ max
    → c.recv_packet_buffer_index + length bytes ≤ length c.recv_packet
    → header_loop (got bytes ∷ answers) max c
      ≡ header_loop answers (max - length bytes) (record c {
        recv_packet =
            take c.recv_packet_buffer_index c.recv_packet
            ++ (bytes ++ drop (c.recv_packet_buffer_index + length bytes) c.recv_packet);
        recv_packet_buffer_index = c.recv_packet_buffer_index + length bytes;
      })
unfolding header_loop
header_loop-got bytes answers zero c h k room = absurd (omega (arith, h, k))
header_loop-got bytes answers (suc max) c h k room =
    let some : ltb 0 (length bytes) ≡ true = lt→ltb _ _ h in
    let fits : leb (length bytes) (suc max) ≡ true = ground (arith, k) in
    rw (some, fits, write_at-ok c.recv_packet bytes c.recv_packet_buffer_index room) refl

-- No data for now: the call ends.
header_loop-would_block :
    (answers : List Answer) (max : ℕ) (c : TcpClient)
    → 0 < max
    → header_loop (would_block ∷ answers) max c
      ≡ ok (nothing (record c { recv_packet_length = max; recv_answers = answers }))
unfolding header_loop
header_loop-would_block answers zero c h = absurd (omega (arith, h))
header_loop-would_block answers (suc max) c h = refl

-- The header in any pieces: each `WSAEWOULDBLOCK` ends a call, and the next one goes on behind the
-- bytes that are there.
header-Delivers :
    {n w : ℕ} {s : Bytes} {answers rest : List Answer} (c : TcpClient)
    → Delivers n s answers rest w
    → c.recv_packet_buffer_index + n ≤ length c.recv_packet
    → ((header_loop answers n c >>= after_header) >>= next w) ≡ (
        after_header (
          header (
            filled c
              (take c.recv_packet_buffer_index c.recv_packet
                ++ (s ++ drop (c.recv_packet_buffer_index + n) c.recv_packet))
              (c.recv_packet_buffer_index + n)
              rest))
        >>= next 0)
unfolding header_loop recv_calls recv_ex after_header
header-Delivers c (all {rest}) room =
    let i : c.recv_packet_buffer_index + 0 ≡ c.recv_packet_buffer_index = omega arith in
    rw (i, take-append-drop c.recv_packet_buffer_index c.recv_packet) refl
header-Delivers {rest} c (piece {n} {k} {s} {answers} bytes pos d) room =
    let i = c.recv_packet_buffer_index in
    let written = take i c.recv_packet ++ (bytes ++ drop (i + length bytes) c.recv_packet) in
    let size = length-write c.recv_packet bytes i (omega (arith, room)) in
    let more : (length bytes + n) - length bytes ≡ n = omega arith in
    let sum : i + length bytes + n ≡ i + (length bytes + n) = omega arith in
    rw
      (
        header_loop-got bytes answers (length bytes + n) c pos (omega arith) (omega (arith, room)),
        more,
      )
      (header-Delivers
          (record c { recv_packet = written; recv_packet_buffer_index = i + length bytes }) d
          (omega (arith, size, room))
        ∙ ap (λ b. after_header (header (filled c b (i + length bytes + n) rest)) >>= next 0)
            (write-write c.recv_packet bytes s i n (omega (arith, room)))
        ∙ ap
            (λ j.
              after_header (
                header (
                  filled c
                    (take i c.recv_packet
                      ++ ((bytes ++ s) ++ drop (i + (length bytes + n)) c.recv_packet))
                    j rest))
              >>= next 0)
            sum)
header-Delivers c (wait {n} {k} {s} {answers} pos d) room =
    let again : TcpClient = record c { recv_packet_length = n; recv_answers = answers } in
    rw (header_loop-would_block answers n c pos) (header-Delivers again d room)

-- The bytes behind a packet in the blank array of the client.
abbrev zeros : Bytes → Bytes
zeros text = 0 ∷ replicate (packet_buffer_size - (head_size + length text) - 1) 0

module _ (h : HeadPacketInfo) (text : Bytes) where
  abbrev message : Bytes
  message = head_bytes h ++ text

  abbrev buffer : Bytes
  buffer = take 2 message ++ drop 2 (replicate packet_buffer_size 0)

  length-buffer : length buffer ≡ packet_buffer_size
  unfolding head_bytes word
  length-buffer = refl

  announced :
      h.packet_length ≡ head_size + length text
      → length text < 512
      → packet_length_of buffer ≡ head_size + length text
  unfolding head_bytes word
  announced e short = omega (arith, e, short)

  -- The array with the whole packet.
  full :
      length text < 512
      → take 2 buffer ++ (drop 2 message ++ drop (2 + (head_size + length text - 2)) buffer)
        ≡ head_bytes h ++ (text ++ zeros text)
  unfolding head_bytes word
  full short =
      let n = head_size + length text in
      let blank : Bytes = replicate packet_buffer_size 0 in
      let left : packet_buffer_size - (2 + (n - 2)) ≡ suc (packet_buffer_size - n - 1) =
        omega (arith, short) in
      let behind : drop (2 + (n - 2)) buffer ≡ zeros text =
        sym (drop-add 2 (n - 2) buffer)
        ∙ drop-add 2 (n - 2) blank
        ∙ drop-replicate {A = ℕ} (2 + (n - 2)) packet_buffer_size 0 (omega (arith, short))
        ∙ ap (λ j. replicate j 0) left in
      rw (behind, append_assoc) refl

-- A message of fewer than 512 characters, none of them zero, that reaches a client between two packets,
-- with its length, a type and an order number in its head: the header may take any number of calls,
-- then the rest comes within one call, with fewer than 5000 times `WSAEWOULDBLOCK`. Behind the last
-- of these calls the text was printed once, with its length and with whether it had the expected
-- order number, and the client waits for the next packet.
pub recv_calls-Shown :
    {w k : ℕ} {answers mid rest : List Answer} (h : HeadPacketInfo) (text : Bytes) (c : TcpClient)
    → h.packet_length ≡ head_size + length text
    → length text < 512
    → h.packet_type < u16
    → h.packet_order_number < u16
    → count 0 text ≡ 0
    → Delivers 2 (take 2 (head_bytes h ++ text)) answers mid w
    → Delivers (head_size + length text - 2) (drop 2 (head_bytes h ++ text)) mid rest k
    → k < recv_retry_max
    → recv_calls (suc w) (clear_recv_packet_info (record c { recv_answers = answers }))
      ≡ ok (
        clear_recv_packet_info (record c {
          recv_answers = rest;
          s2c_packet_order_number = inc16 c.s2c_packet_order_number;
          shown =
              c.shown
              ++ record {
                text = text;
                packet_length = head_size + length text;
                in_order = h.packet_order_number == inc16 c.s2c_packet_order_number;
              }
                ∷ [];
        }),
        true,
      )
unfolding recv_calls recv_ex after_header after_rest show_packet clear_recv_packet_info
recv_calls-Shown {answers} {rest} h text c announces short typed ordered no_zero d e waits =
    let n = head_size + length text in
    let start : TcpClient = clear_recv_packet_info (record c { recv_answers = answers }) in
    let loop =
      receive_loop-Delivers 2 0 (buffer h text) e (omega (arith, short, length-buffer h text))
        (omega (arith, waits)) in
    let less : packet_length_of (buffer h text) - packet_length_size ≡ n - 2 =
      omega (arith, announced h text announces short) in
    let read =
      head_of-head_bytes h (text ++ zeros text) (omega (arith, announces, short)) typed ordered in
    let whole : 2 + (n - 2) ≡ n = omega arith in
    header-Delivers start d (omega arith)
    ∙ rw
        (
          less,
          loop,
          full h text short,
          read.0,
          read.1,
          c_string-append text (replicate (packet_buffer_size - n - 1) 0) no_zero,
          whole,
        )
        refl
