-- ===== src/Send/Complete.antt =====
-- What SendEx gives to the socket.
use mathlib.Core.List.{append_assoc, append-nil}
use winsock_multi_thread_ser.Base.{
  ℕ, zero, suc, ◌+◌, ◌-◌, ◌≤◌, ◌<◌, ◌≡◌, refl, some, inl, inr, Bool-cases, true, false, ◌&&◌, List,
  [], ◌∷◌, ◌++◌, arith, length, take, drop, take-add, drop-add, ltb, leb, lt→ltb, Bytes, ok,
}
use winsock_multi_thread_ser.Send.{
  given, Answer, took, would_block, failed, Sent, complete, send_loop, send_ex, result,
  send_retry_max,
}

-- `send` takes `n` bytes in pieces of at least one byte, with `k` times `WSAEWOULDBLOCK`.
pub data Takes : ℕ → List Answer → List Answer → ℕ → Type 0 where
  all : {rest : List Answer} → Takes 0 rest rest 0
  piece :
      {n k : ℕ} {answers rest : List Answer} (m : ℕ)
      → 0 < m
      → Takes n answers rest k
      → Takes (m + n) (took m ∷ answers) rest k
  wait :
      {n k : ℕ} {answers rest : List Answer}
      → 0 < n
      → Takes n answers rest k
      → Takes n (would_block ∷ answers) rest (suc k)

send_loop-took :
    (answers : List Answer) (n max index retry : ℕ) (packet out : Bytes)
    → 0 < n
    → n ≤ max
    → index + max ≤ length packet
    → send_loop (took n ∷ answers) max index retry packet out
      ≡ send_loop answers (max - n) (index + n) retry packet (out ++ take n (drop index packet))
unfolding send_loop
send_loop-took answers n zero index retry packet out h k r = absurd (omega arith)
send_loop-took answers n (suc max) index retry packet out h k r =
    let one : ltb 0 n ≡ true = lt→ltb _ _ h in
    let fits : leb n (suc max) ≡ true = ground arith in
    let inside : leb (index + suc max) (length packet) ≡ true = ground arith in
    rw (one, fits, inside)

send_loop-would_block :
    (answers : List Answer) (max index retry : ℕ) (packet out : Bytes)
    → 0 < max
    → retry + 1 < send_retry_max
    → send_loop (would_block ∷ answers) max index retry packet out
      ≡ send_loop answers max index (retry + 1) packet out
unfolding send_loop
send_loop-would_block answers zero index retry packet out h r = absurd (omega arith)
send_loop-would_block answers (suc max) index retry packet out h r =
    let again : ltb (retry + 1) send_retry_max ≡ true = lt→ltb _ _ r in rw again

send_loop-Takes :
    {n k : ℕ} {answers rest : List Answer} (index retry : ℕ) (packet out : Bytes)
    → Takes n answers rest k
    → index + n ≤ length packet
    → retry + k < send_retry_max
    → send_loop answers n index retry packet out
      ≡ ok (complete (out ++ take n (drop index packet)) rest)
unfolding send_loop
send_loop-Takes index retry packet out all h r = rw append-nil
send_loop-Takes index retry packet out (piece {n} {k} {answers} m pos t) h r =
    let step = send_loop-took answers m (m + n) index retry packet out pos (omega arith) h in
    let less : (m + n) - m ≡ n = omega arith in
    let next = out ++ take m (drop index packet) in
    let rec = send_loop-Takes (index + m) retry packet next t (omega arith) r in
    rw (step, less, rec, append_assoc, ← drop-add index m packet, take-add m n (drop index packet))
send_loop-Takes index retry packet out (wait {n} {k} {answers} pos t) h r =
    let step = send_loop-would_block answers n index retry packet out pos (omega arith) in
    rw step (send_loop-Takes index (retry + 1) packet out t h (omega arith))

-- When `send` takes the bytes in any pieces, with fewer than 5000 times `WSAEWOULDBLOCK` in between,
-- and the packet's memory has the given length, then `SendEx` gives the socket exactly the first
-- `packet_length` bytes of the packet, in order and each once, and leaves the later answers. But it
-- returns `false`, as it does for a failure.
pub send_ex-complete :
    {n k : ℕ} {answers rest : List Answer} (packet : Bytes)
    → Takes n answers rest k
    → n ≤ length packet
    → k < send_retry_max
    → (send_ex answers packet n ≡ ok (complete (take n packet) rest))
      × (result (complete (take n packet) rest) ≡ some false)
unfolding send_ex result
send_ex-complete packet t h r = (send_loop-Takes 0 0 packet [] t (omega arith) (omega arith), refl)

took-prefix :
    (packet out : Bytes) (index n : ℕ)
    → out ≡ take index packet
    → out ++ take n (drop index packet) ≡ take (index + n) packet
took-prefix packet out index n h = rw (h, take-add index n packet)

send_loop-prefix :
    (answers : List Answer) (max index retry : ℕ) (packet out : Bytes) (r : Sent)
    → out ≡ take index packet
    → send_loop answers max index retry packet out ≡ ok r
    → (m : ℕ) × (given r ≡ take m packet) × (m ≤ index + max)
unfolding send_loop
send_loop-prefix answers zero index retry packet out r h e = (index, ground arith, omega arith)
send_loop-prefix [] (suc max) index retry packet out r h e = (index, ground arith, omega arith)
send_loop-prefix (took n ∷ answers) (suc max) index retry packet out r h e =
    elim (Bool-cases ((ltb 0 n && leb n (suc max)) && leb (index + suc max) (length packet))) [
      | inl c ↦
          let (m, p, q) =
            send_loop-prefix answers (suc max - n) (index + n) retry packet
              (out ++ take n (drop index packet)) r (took-prefix packet out index n h)
              (rw c at e) in
          let small : n ≤ suc max = ground arith in (m, p, omega arith)
      | inr c ↦ ground arith
    ]
send_loop-prefix (would_block ∷ answers) (suc max) index retry packet out r h e =
    elim (Bool-cases (ltb (retry + 1) send_retry_max)) [
      | inl c ↦ send_loop-prefix answers (suc max) index (retry + 1) packet out r h (rw c at e)
      | inr c ↦ (index, ground arith, omega arith)
    ]
send_loop-prefix (failed ∷ answers) (suc max) index retry packet out r h e =
    (index, ground arith, omega arith)

-- Whatever `send` answers, failures included: wherever `SendEx` stops, what it has given to the
-- socket is a prefix of the packet of at most `packet_length` bytes, so no byte is skipped, doubled
-- or out of order.
pub send_ex-prefix :
    (answers : List Answer) (packet : Bytes) (packet_length : ℕ) (r : Sent)
    → send_ex answers packet packet_length ≡ ok r
    → (m : ℕ) × (given r ≡ take m packet) × (m ≤ packet_length)
unfolding send_ex
send_ex-prefix answers packet packet_length r e =
    let (m, p, q) = send_loop-prefix answers packet_length 0 0 packet [] r refl e in
    (m, p, omega arith)
