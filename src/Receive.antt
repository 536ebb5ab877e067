-- ===== src/Receive.antt =====
-- MintServer/src/MTLibrary/TCPServer.cpp, ReceiveEx: one packet is put together from what `recv`
-- delivers. The answers of `recv` are an argument, one for each call.
pub mod Delivery
pub mod Reassembly
use winsock_multi_thread_ser.Base.{
  ℕ, zero, suc, ◌+◌, ◌-◌, ◌*◌, Bool, Option, none, some, true, false, ◌&&◌, List, [], ◌∷◌, ◌++◌,
  ltb, leb, ◌==◌, if◌then◌else◌, length, take, drop, Run, ok, fault, ◌>>=◌, Bytes, byte_at,
}

-- What a call of `recv` brings: bytes, the peer's end of the connection (0), `WSAEWOULDBLOCK`, or
-- another error.
pub data Answer : Type 0 where
  got : Bytes → Answer
  closed : Answer
  would_block : Answer
  failed : Answer

-- `PACKET_BUFFER_MAX`, `PACKET_LENGTH_SIZE` and `recv_retry_max`.
abbrev pub packet_buffer_max : ℕ
packet_buffer_max = 512

abbrev pub packet_length_size : ℕ
packet_length_size = 2

abbrev pub recv_retry_max : ℕ
recv_retry_max = 5000

-- The bytes that `recv` writes from `buffer[index]` on. Behind the end of the array that is
-- undefined.
unfoldable pub write_at : Bytes → ℕ → Bytes → Run Bytes
write_at buffer index bytes =
    if leb (index + length bytes) (length buffer)
    then ok (take index buffer ++ (bytes ++ drop (index + length bytes) buffer))
    else fault

-- Where one of the two loops of `ReceiveEx` ends: with all bytes that it asked for, at the end of
-- the connection, or in a further call of `recv` that no answer is given for.
pub data Loop : Type 0 where
  complete : Bytes → ℕ → ℕ → List Answer → Loop
  disconnect : List Answer → Loop
  pending : Loop

-- A loop, at `recv_packet_max`, `buff_packet_index` and `recv_retry_count`. An answer with no bytes
-- or with more bytes than asked for breaks the contract of `recv`.
unfoldable pub receive_loop : List Answer → ℕ → ℕ → ℕ → Bytes → Run Loop
unfolding write_at
receive_loop answers zero index retry buffer = ok (complete buffer index retry answers)
receive_loop [] (suc max) index retry buffer = ok pending
receive_loop (got bytes ∷ answers) (suc max) index retry buffer =
    if ltb 0 (length bytes) && leb (length bytes) (suc max)
    then (do
      buffer ← write_at buffer index bytes
      receive_loop answers (suc max - length bytes) (index + length bytes) retry buffer)
    else fault
receive_loop (closed ∷ answers) (suc max) index retry buffer = ok (disconnect answers)
receive_loop (would_block ∷ answers) (suc max) index retry buffer =
    let again = receive_loop answers (suc max) index (retry + 1) buffer in
    if ltb (retry + 1) recv_retry_max then again else ok (disconnect answers)
receive_loop (failed ∷ answers) (suc max) index retry buffer = ok (disconnect answers)

-- `head_packet->PacketLength`: the first two bytes, the lower one first.
abbrev pub packet_length_of : Bytes → ℕ
packet_length_of buffer = byte_at buffer 0 + 256 * byte_at buffer 1

-- The outcome of `ReceiveEx`: the packet goes to `PacketRecvList` (true), its length is less than 2
-- and its node is freed (true), or the connection is at its end and the node is freed (false).
pub data Received : Type 0 where
  packet : Bytes → ℕ → List Answer → Received
  bad_length : List Answer → Received
  lost : List Answer → Received
  waiting : Received

abbrev finish : ℕ → Loop → Received
finish packet_length (complete buffer index retry answers) = packet buffer packet_length answers
finish packet_length (disconnect answers) = lost answers
finish packet_length pending = waiting

-- The part behind the first loop. `PacketLength - PACKET_LENGTH_SIZE` is an `int`: below 0 the
-- second loop is skipped and the test for 0 fails.
unfoldable pub receive_rest : Loop → Run Received
unfolding receive_loop
receive_rest (disconnect answers) = ok (lost answers)
receive_rest pending = ok waiting
receive_rest (complete buffer index retry answers) =
    let packet_length = packet_length_of buffer in
    if ltb packet_length packet_length_size then ok (bad_length answers) else (do
      r ← receive_loop answers (packet_length - packet_length_size) index retry buffer
      ok (finish packet_length r))

-- `ReceiveEx`, on the `Packet` array of the node that it got.
unfoldable pub receive_ex : List Answer → Bytes → Run Received
unfolding receive_loop receive_rest
receive_ex answers buffer = do
  r ← receive_loop answers packet_length_size 0 0 buffer
  receive_rest r

-- What it returns to the select loop; nothing while it waits.
unfoldable pub result : Received → Option Bool
result (packet buffer packet_length answers) = some true
result (bad_length answers) = some true
result (lost answers) = some false
result waiting = none
