-- ===== src/Receive/Delivery.antt =====
-- What the peer sends, in any pieces, and what a loop of `ReceiveEx` makes of it.
use mathlib.Core.List.{append_assoc}
use native.Mathlib.Nat.{add_assoc}
use winsock_multi_thread_ser.Base.{
  Bool-cases, inl, inr, sym, take-append-drop, length-take, length-drop, take-append, drop-append,
  drop-add, lt→ltb, ℕ, zero, suc, ◌+◌, ◌-◌, ◌≤◌, ◌<◌, ◌≡◌, refl, ap, ◌∙◌, List, [], ◌∷◌, ◌++◌,
  arith, length, take, drop, ok, fault, Bytes, ◌>>=◌, length-append, true, false, ltb, leb,
}
use winsock_multi_thread_ser.Receive.{
  closed, failed, disconnect, Answer, got, would_block, write_at, complete, receive_loop,
  recv_retry_max,
}

-- When `n` bytes are asked for, the answers bring exactly the bytes `s`, each answer at least one
-- and no more than are still missing, with `k` times `WSAEWOULDBLOCK` among them; `rest` is left.
pub data Delivers : ℕ → Bytes → List Answer → List Answer → ℕ → Type 0 where
  all : {rest : List Answer} → Delivers 0 [] rest rest 0
  piece :
      {n k : ℕ} {s : Bytes} {answers rest : List Answer} (bytes : Bytes)
      → 0 < length bytes
      → Delivers n s answers rest k
      → Delivers (length bytes + n) (bytes ++ s) (got bytes ∷ answers) rest k
  wait :
      {n k : ℕ} {s : Bytes} {answers rest : List Answer}
      → 0 < n
      → Delivers n s answers rest k
      → Delivers n s (would_block ∷ answers) rest (suc k)

-- A stretch of bytes written at `i`, seen from its end.
take-write :
    (buffer bytes tail : Bytes) (i : ℕ)
    → i ≤ length buffer
    → take (i + length bytes) (take i buffer ++ (bytes ++ tail)) ≡ take i buffer ++ bytes
take-write buffer bytes tail i h =
    let front = take i buffer ++ bytes in
    let size : i + length bytes ≡ length front =
      omega (arith, length-append (take i buffer) bytes, length-take i buffer) in
    rw (size, ← append_assoc) (take-append front tail)

drop-write :
    (buffer bytes tail : Bytes) (i : ℕ)
    → i ≤ length buffer
    → drop (i + length bytes) (take i buffer ++ (bytes ++ tail)) ≡ tail
drop-write buffer bytes tail i h =
    let front = take i buffer ++ bytes in
    let size : i + length bytes ≡ length front =
      omega (arith, length-append (take i buffer) bytes, length-take i buffer) in
    rw (size, ← append_assoc) (drop-append front tail)

pub length-write :
    (buffer bytes : Bytes) (i : ℕ)
    → i + length bytes ≤ length buffer
    → length (take i buffer ++ (bytes ++ drop (i + length bytes) buffer)) ≡ length buffer
length-write buffer bytes i h =
    let tail = drop (i + length bytes) buffer in
    omega (
      arith,
      length-append (take i buffer) (bytes ++ tail),
      length-append bytes tail,
      length-take i buffer,
      length-drop (i + length bytes) buffer,
    )

-- One call of `recv` that brings bytes within its contract.
receive_loop-got :
    (bytes : Bytes) (answers : List Answer) (m index retry : ℕ) (buffer : Bytes)
    → 0 < length bytes
    → length bytes ≤ m
    → receive_loop (got bytes ∷ answers) m index retry buffer ≡ (
        write_at buffer index bytes >>= λ b.
        receive_loop answers (m - length bytes) (index + length bytes) retry b)
unfolding receive_loop
receive_loop-got bytes answers zero index retry buffer h k = absurd (omega arith)
receive_loop-got bytes answers (suc m) index retry buffer h k =
    let one : ltb 0 (length bytes) ≡ true = lt→ltb _ _ h in
    let fits : leb (length bytes) (suc m) ≡ true = ground arith in rw (one, fits)

-- One call that brings nothing yet.
receive_loop-would_block :
    (answers : List Answer) (m index retry : ℕ) (buffer : Bytes)
    → 0 < m
    → retry + 1 < recv_retry_max
    → receive_loop (would_block ∷ answers) m index retry buffer
      ≡ receive_loop answers m index (retry + 1) buffer
unfolding receive_loop
receive_loop-would_block answers zero index retry buffer h k = absurd (omega arith)
receive_loop-would_block answers (suc m) index retry buffer h k =
    let again : ltb (retry + 1) recv_retry_max ≡ true = lt→ltb _ _ k in rw again

pub write_at-ok :
    (buffer bytes : Bytes) (i : ℕ)
    → i + length bytes ≤ length buffer
    → write_at buffer i bytes ≡ ok (take i buffer ++ (bytes ++ drop (i + length bytes) buffer))
unfolding write_at
write_at-ok buffer bytes i h = ground arith

write_at-fault :
    (buffer bytes : Bytes) (i : ℕ)
    → leb (i + length bytes) (length buffer) ≡ false
    → write_at buffer i bytes ≡ fault
unfolding write_at
write_at-fault buffer bytes i h = rw h

-- A piece written in front of what the rest of the loop writes.
pub write-write :
    (buffer bytes s : Bytes) (index n : ℕ)
    → index + length bytes ≤ length buffer
    → let next = take index buffer ++ (bytes ++ drop (index + length bytes) buffer) in
      take (index + length bytes) next ++ (s ++ drop (index + length bytes + n) next)
      ≡ take index buffer ++ ((bytes ++ s) ++ drop (index + (length bytes + n)) buffer)
write-write buffer bytes s index n room =
    let next = take index buffer ++ (bytes ++ drop (index + length bytes) buffer) in
    let tail = drop (index + length bytes) buffer in
    let end : drop (index + length bytes + n) next ≡ drop (index + (length bytes + n)) buffer =
      sym (drop-add (index + length bytes) n next)
      ∙ ap (drop n) (drop-write buffer bytes tail index (omega (arith, room)))
      ∙ drop-add (index + length bytes) n buffer
      ∙ ap (λ j. drop j buffer) (add_assoc index (length bytes) n) in
    rw (take-write buffer bytes tail index (omega (arith, room)), end, append_assoc, append_assoc)
      refl

-- A loop that gets its bytes in any pieces writes them one behind the other, and nothing else.
pub receive_loop-Delivers :
    {n k : ℕ} {s : Bytes} {answers rest : List Answer} (index retry : ℕ) (buffer : Bytes)
    → Delivers n s answers rest k
    → index + n ≤ length buffer
    → retry + k < recv_retry_max
    → receive_loop answers n index retry buffer
      ≡ ok (
          complete
            (take index buffer ++ (s ++ drop (index + n) buffer))
            (index + n)
            (retry + k)
            rest)
unfolding receive_loop
receive_loop-Delivers index retry buffer (all {rest}) h r =
    let i : index + 0 ≡ index = omega arith in
    let k : retry + 0 ≡ retry = omega arith in rw (i, k, take-append-drop index buffer)
receive_loop-Delivers {rest} index retry buffer (piece {n} {k} {s} {answers} bytes pos d) h r =
    let next = take index buffer ++ (bytes ++ drop (index + length bytes) buffer) in
    let more : (length bytes + n) - length bytes ≡ n = omega arith in
    let size = length-write buffer bytes index (omega arith) in
    let rec = receive_loop-Delivers (index + length bytes) retry next d (omega arith) r in
    rw (
      receive_loop-got bytes answers (length bytes + n) index retry buffer pos (omega arith),
      write_at-ok buffer bytes index (omega arith),
      more,
      rec,
      write-write buffer bytes s index n (omega arith),
      add_assoc,
    )
receive_loop-Delivers index retry buffer (wait {n} {k} {s} {answers} pos d) h r =
    let rec = receive_loop-Delivers index (retry + 1) buffer d h (omega arith) in
    let next = receive_loop-would_block answers n index retry buffer pos (omega arith) in
    let sum : retry + 1 + k ≡ retry + suc k = omega arith in rw (next, rec, sum)

pub Delivers-length :
    {n k : ℕ} {s : Bytes} {answers rest : List Answer} → Delivers n s answers rest k → length s ≡ n
Delivers-length all = refl
Delivers-length (piece {n} {s} bytes pos d) =
    omega (arith, length-append bytes s, Delivers-length d)
Delivers-length (wait pos d) = Delivers-length d

-- More bytes than the buffer has room for: some call of `recv` writes behind its end.
pub receive_loop_overrun :
    {n k : ℕ} {s : Bytes} {answers rest : List Answer} (index retry : ℕ) (buffer : Bytes)
    → Delivers n s answers rest k
    → index ≤ length buffer
    → length buffer < index + n
    → retry + k < recv_retry_max
    → receive_loop answers n index retry buffer ≡ fault
receive_loop_overrun index retry buffer all h o r = absurd (omega arith)
receive_loop_overrun index retry buffer (piece {n} {k} {s} {answers} bytes pos d) h o r =
    let next = take index buffer ++ (bytes ++ drop (index + length bytes) buffer) in
    let got_bytes =
      receive_loop-got bytes answers (length bytes + n) index retry buffer pos (omega arith) in
    let more : (length bytes + n) - length bytes ≡ n = omega arith in
    elim (Bool-cases (leb (index + length bytes) (length buffer))) [
      | inl e ↦
          let room : index + length bytes ≤ length buffer = ground arith in
          let size = length-write buffer bytes index room in
          rw (got_bytes, write_at-ok buffer bytes index room, more)
            (receive_loop_overrun (index + length bytes) retry next d (omega arith) (omega arith) r)
      | inr e ↦ rw (got_bytes, write_at-fault buffer bytes index e) refl
    ]
receive_loop_overrun index retry buffer (wait {n} {k} {s} {answers} pos d) h o r =
    let next = receive_loop-would_block answers n index retry buffer pos (omega arith) in
    rw next (receive_loop_overrun index (retry + 1) buffer d h o (omega arith))

-- When `n` bytes are asked for, the connection ends before they are there, or fails.
pub data Breaks : ℕ → List Answer → List Answer → ℕ → Type 0 where
  ends : {n : ℕ} {rest : List Answer} → 0 < n → Breaks n (closed ∷ rest) rest 0
  fails : {n : ℕ} {rest : List Answer} → 0 < n → Breaks n (failed ∷ rest) rest 0
  piece :
      {n k : ℕ} {answers rest : List Answer} (bytes : Bytes)
      → 0 < length bytes
      → Breaks n answers rest k
      → Breaks (length bytes + n) (got bytes ∷ answers) rest k
  wait :
      {n k : ℕ} {answers rest : List Answer}
      → 0 < n
      → Breaks n answers rest k
      → Breaks n (would_block ∷ answers) rest (suc k)

pub Breaks-pos : {n k : ℕ} {answers rest : List Answer} → Breaks n answers rest k → 0 < n
Breaks-pos (ends pos) = pos
Breaks-pos (fails pos) = pos
Breaks-pos (piece bytes pos b) = omega arith
Breaks-pos (wait pos b) = pos

receive_loop-end :
    (n index retry : ℕ) (rest : List Answer) (buffer : Bytes)
    → 0 < n
    → (receive_loop (closed ∷ rest) n index retry buffer ≡ ok (disconnect rest))
      × (receive_loop (failed ∷ rest) n index retry buffer ≡ ok (disconnect rest))
unfolding receive_loop
receive_loop-end zero index retry rest buffer h = absurd (omega arith)
receive_loop-end (suc n) index retry rest buffer h = (refl, refl)

pub receive_loop-Breaks :
    {n k : ℕ} {answers rest : List Answer} (index retry : ℕ) (buffer : Bytes)
    → Breaks n answers rest k
    → index + n ≤ length buffer
    → retry + k < recv_retry_max
    → receive_loop answers n index retry buffer ≡ ok (disconnect rest)
receive_loop-Breaks index retry buffer (ends {n} {rest} pos) h r =
    (receive_loop-end n index retry rest buffer pos).0
receive_loop-Breaks index retry buffer (fails {n} {rest} pos) h r =
    (receive_loop-end n index retry rest buffer pos).1
receive_loop-Breaks index retry buffer (piece {n} {k} {answers} bytes pos d) h r =
    let next = take index buffer ++ (bytes ++ drop (index + length bytes) buffer) in
    let more : (length bytes + n) - length bytes ≡ n = omega arith in
    let size = length-write buffer bytes index (omega arith) in
    rw
      (
        receive_loop-got bytes answers (length bytes + n) index retry buffer pos (omega arith),
        write_at-ok buffer bytes index (omega arith),
        more,
      )
      (receive_loop-Breaks (index + length bytes) retry next d (omega arith) r)
receive_loop-Breaks index retry buffer (wait {n} {k} {answers} pos d) h r =
    rw (receive_loop-would_block answers n index retry buffer pos (omega arith))
      (receive_loop-Breaks index (retry + 1) buffer d h (omega arith))
