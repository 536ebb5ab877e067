-- ===== src/Send.antt =====
-- MintServer/src/MTLibrary/TCPServer.cpp, SendEx: a packet is given to `send` piece by piece. The
-- answers of `send` are an argument, one for each call.
pub mod Complete
pub mod Ends
use winsock_multi_thread_ser.Base.{
  ℕ, zero, suc, ◌+◌, ◌-◌, Bool, Option, none, some, true, false, ◌&&◌, List, [], ◌∷◌, ◌++◌, ltb,
  leb, if◌then◌else◌, length, take, drop, Bytes, Run, ok, fault, ◌>>=◌,
}

-- What a call of `send` answers: the number of bytes that it took, `WSAEWOULDBLOCK`, or another
-- error.
pub data Answer : Type 0 where
  took : ℕ → Answer
  would_block : Answer
  failed : Answer

abbrev pub send_retry_max : ℕ
send_retry_max = 5000

-- Where the loop ends: all bytes are taken, the loop gives up, or a further call of `send` has no
-- answer; with the bytes that the socket has been given, in order.
pub data Sent : Type 0 where
  complete : Bytes → List Answer → Sent
  gave_up : Bytes → List Answer → Sent
  pending : Bytes → Sent

-- The loop of `SendEx` at `send_packet_max`, `buff_packet_index` and `send_retry_count`. A piece
-- that reaches behind the end of the packet's memory is undefined, and so is an answer with no
-- bytes or with more than were offered, which breaks the contract of `send`.
pub send_loop : List Answer → ℕ → ℕ → ℕ → Bytes → Bytes → Run Sent
send_loop answers zero index retry packet out = ok (complete out answers)
send_loop [] (suc max) index retry packet out = ok (pending out)
send_loop (took n ∷ answers) (suc max) index retry packet out =
    let more =
      send_loop answers (suc max - n) (index + n) retry packet
        (out ++ take n (drop index packet)) in
    if (ltb 0 n && leb n (suc max)) && leb (index + suc max) (length packet) then more else fault
send_loop (would_block ∷ answers) (suc max) index retry packet out =
    let again = send_loop answers (suc max) index (retry + 1) packet out in
    if ltb (retry + 1) send_retry_max then again else ok (gave_up out answers)
send_loop (failed ∷ answers) (suc max) index retry packet out = ok (gave_up out answers)

-- `SendEx` of `packet_length` bytes.
unfoldable pub send_ex : List Answer → Bytes → ℕ → Run Sent
unfolding send_loop
send_ex answers packet packet_length = send_loop answers packet_length 0 0 packet []

-- What it returns: `false` behind the loop, and `false` in the loop; nothing while it waits.
pub result : Sent → Option Bool
result (complete out answers) = some false
result (gave_up out answers) = some false
result (pending out) = none

-- The bytes that the socket has been given.
abbrev pub given : Sent → Bytes
given (complete out answers) = out
given (gave_up out answers) = out
given (pending out) = out
