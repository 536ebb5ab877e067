-- ===== src/Receive/Reassembly.antt =====
-- What ReceiveEx as a whole makes of the bytes that a peer sends.
use winsock_multi_thread_ser.Base.{
  ℕ, ◌+◌, ◌-◌, ◌≤◌, ◌<◌, ◌≡◌, refl, ap, ◌∙◌, sym, true, false, some, List, [], ◌∷◌, ◌++◌, arith,
  length, take, drop, ltb, lt→ltb, le→ltb, ok, fault, Bytes, length-append, length-drop,
  take-append, drop-append, drop-add, ◌>>=◌, ◌⊎◌, inl, inr,
}
use winsock_multi_thread_ser.Receive.{
  Answer, complete, packet, bad_length, lost, finish, packet_length_of, receive_loop, receive_rest,
  receive_ex, result, recv_retry_max, packet_length_size,
}
use winsock_multi_thread_ser.Receive.Delivery.{
  Delivers, Delivers-length, Breaks, Breaks-pos, receive_loop-Delivers, receive_loop-Breaks,
  receive_loop_overrun,
}

-- The length that a header of two bytes announces is read from its copy in the buffer.
packet_length_of-append :
    (head tail : Bytes) → length head ≡ 2 → packet_length_of (head ++ tail) ≡ packet_length_of head
packet_length_of-append [] tail h = absurd (omega arith)
packet_length_of-append (a ∷ []) tail h = absurd (omega arith)
packet_length_of-append (a ∷ b ∷ []) tail h = refl
packet_length_of-append (a ∷ b ∷ c ∷ r) tail h = absurd (omega arith)

module _ {head : Bytes} {answers mid : List Answer} {j : ℕ} (buffer : Bytes)
    (d : Delivers 2 head answers mid j) (room : 2 ≤ length buffer) where
  -- The first loop.
  header_loop :
      j < recv_retry_max
      → receive_loop answers packet_length_size 0 0 buffer
        ≡ ok (complete (head ++ drop 2 buffer) 2 j mid)
  header_loop h =
      let zero_add : 0 + j ≡ j = omega arith in
      let loop = receive_loop-Delivers 0 0 buffer d room (omega arith) in rw zero_add at loop

  header_size : length head ≡ 2
  header_size = Delivers-length d

  header_length : packet_length_of (head ++ drop 2 buffer) ≡ packet_length_of head
  header_length = packet_length_of-append head (drop 2 buffer) header_size

  buffer_size : length (head ++ drop 2 buffer) ≡ length buffer
  buffer_size = omega (arith, length-append head (drop 2 buffer), length-drop 2 buffer, header_size)

  module _ (long : 2 ≤ packet_length_of head) (h : j < recv_retry_max) where
    -- Behind the header the second loop runs on what is left of the packet.
    body_loop : receive_ex answers buffer ≡ (
        receive_loop mid (packet_length_of head - 2) 2 j (head ++ drop 2 buffer) >>= λ r.
        ok (finish (packet_length_of head) r))
    unfolding receive_ex receive_rest
    body_loop =
        let test : ltb (packet_length_of head) 2 ≡ false = le→ltb _ _ long in
        rw (header_loop h, header_length, test)

-- Whatever pieces the peer's bytes arrive in: when they are a header of two bytes that announces
-- `L` bytes, 2 at least and no more than the buffer has, and then the other `L - 2` bytes, and
-- `recv` answers `WSAEWOULDBLOCK` fewer than 5000 times in between, `ReceiveEx` puts exactly these
-- bytes at the start of the buffer, keeps what is behind them, links the packet with length `L`,
-- leaves all later answers to later calls and returns true.
pub receive_ex-packet :
    {head body : Bytes} {answers mid rest : List Answer} {j k : ℕ} (buffer : Bytes)
    → Delivers 2 head answers mid j
    → Delivers (packet_length_of head - 2) body mid rest k
    → 2 ≤ packet_length_of head
    → packet_length_of head ≤ length buffer
    → j + k < recv_retry_max
    → (receive_ex answers buffer
        ≡ ok (
            packet
              (head ++ (body ++ drop (packet_length_of head) buffer))
              (packet_length_of head)
              rest))
      × (length (head ++ body) ≡ packet_length_of head)
receive_ex-packet {head} {body} {mid} {rest} {j} {k} buffer d e long room few =
    let size = Delivers-length d in
    let len = packet_length_of head in
    let loop =
      receive_loop-Delivers 2 j (head ++ drop 2 buffer) e
        (omega (arith, buffer_size buffer d (omega arith))) few in
    let cut : take 2 (head ++ drop 2 buffer) ≡ head =
      ap (λ n. take n (head ++ drop 2 buffer)) (sym size) ∙ take-append head (drop 2 buffer) in
    let tail : drop (2 + (len - 2)) (head ++ drop 2 buffer) ≡ drop len buffer =
      sym (drop-add 2 (len - 2) (head ++ drop 2 buffer))
      ∙ ap (drop (len - 2))
          (ap (λ n. drop n (head ++ drop 2 buffer)) (sym size) ∙ drop-append head (drop 2 buffer))
      ∙ drop-add 2 (len - 2) buffer
      ∙ ap (λ n. drop n buffer) (omega arith) in
    (
      rw (body_loop buffer d (omega arith) long (omega arith), loop, cut, tail) refl,
      omega (arith, length-append head body, size, Delivers-length e),
    )

-- The announced length is not checked against the buffer: when it is larger than the buffer and the
-- peer sends that many bytes, `ReceiveEx` writes behind the end of the buffer, for every buffer of
-- at least two bytes and whatever pieces the bytes arrive in.
pub receive_ex_overrun :
    {head body : Bytes} {answers mid rest : List Answer} {j k : ℕ} (buffer : Bytes)
    → Delivers 2 head answers mid j
    → Delivers (packet_length_of head - 2) body mid rest k
    → 2 ≤ length buffer
    → length buffer < packet_length_of head
    → j + k < recv_retry_max
    → receive_ex answers buffer ≡ fault
receive_ex_overrun {head} {j} buffer d e room large few =
    let size = buffer_size buffer d room in
    rw
      (
        body_loop buffer d room (omega arith) (omega arith),
        receive_loop_overrun 2 j (head ++ drop 2 buffer) e (omega arith) (omega arith) few,
      )
      refl

-- An announced length below 2 ends the call behind the header: no packet is linked, the later
-- answers are left, and the call returns true, so the connection stays.
pub receive_ex-bad_length :
    {head : Bytes} {answers mid : List Answer} {j : ℕ} (buffer : Bytes)
    → Delivers 2 head answers mid j
    → 2 ≤ length buffer
    → j < recv_retry_max
    → packet_length_of head < 2
    → (receive_ex answers buffer ≡ ok (bad_length mid)) × (result (bad_length mid) ≡ some true)
unfolding receive_ex receive_rest result
receive_ex-bad_length {head} buffer d room h short =
    let test : ltb (packet_length_of head) 2 ≡ true = lt→ltb _ _ short in
    (rw (header_loop buffer d room h, header_length buffer d room, test) refl, refl)

-- Where the connection ends or fails inside the header, or behind a header that announces at least
-- 2 bytes and no more than the buffer has, before the announced bytes are there, no packet is linked
-- and the call returns false, so that the select loop releases the client.
pub receive_ex-lost :
    {answers rest : List Answer} {k : ℕ} (buffer : Bytes)
    → 2 ≤ length buffer
    → ((Breaks 2 answers rest k × (k < recv_retry_max))
        ⊎ ((head : Bytes) × (mid : List Answer) × (j : ℕ) × Delivers 2 head answers mid j
            × Breaks (packet_length_of head - 2) mid rest k
            × (packet_length_of head ≤ length buffer)
            × (j + k < recv_retry_max)))
    → (receive_ex answers buffer ≡ ok (lost rest)) × (result (lost rest) ≡ some false)
unfolding receive_ex receive_rest result
receive_ex-lost buffer room (inl (b, few)) =
    (rw (receive_loop-Breaks 0 0 buffer b room (omega arith)) refl, refl)
receive_ex-lost buffer room (inr (head, mid, j, d, b, size, few)) =
    let long : 2 ≤ packet_length_of head = omega (arith, Breaks-pos b) in
    let full = buffer_size buffer d room in
    (
      rw
          (
            body_loop buffer d room long (omega arith),
            receive_loop-Breaks 2 j (head ++ drop 2 buffer) b (omega arith) few,
          )
          refl,
      refl,
    )
