-- ===== src/Examples/Packets.antt =====
-- Tests of packets received and sent in pieces.
use winsock_multi_thread_ser.Base.{
  ℕ, zero, suc, replicate, length-replicate, Returns, ◌≡◌, List, [], ◌∷◌, arith, ok, fault, Bytes,
}
use winsock_multi_thread_ser.Receive.{Answer, got, would_block, packet, receive_ex}
use winsock_multi_thread_ser.Receive.Delivery.{Delivers, all, piece, wait}
use winsock_multi_thread_ser.Receive.Reassembly.{receive_ex-packet, receive_ex_overrun}
use winsock_multi_thread_ser.Send
use winsock_multi_thread_ser.Send.Ends.{Contract, Ended, send_ex-Ended}

-- An array of eight bytes, a packet of five in three pieces, and the first byte of the next.
abbrev buffer : Bytes
buffer = 0 ∷ 0 ∷ 0 ∷ 0 ∷ 0 ∷ 0 ∷ 0 ∷ 0 ∷ []

abbrev body : List Answer
body = got (7 ∷ 8 ∷ []) ∷ got (9 ∷ []) ∷ got (4 ∷ []) ∷ []

abbrev pieces : List Answer
pieces = got (5 ∷ []) ∷ would_block ∷ got (0 ∷ []) ∷ body

header : Delivers 2 (5 ∷ 0 ∷ []) pieces body 1
header = piece (5 ∷ []) (omega arith) (wait (omega arith) (piece (0 ∷ []) (omega arith) all))

rest : Delivers 3 (7 ∷ 8 ∷ 9 ∷ []) body (got (4 ∷ []) ∷ []) 0
rest = piece (7 ∷ 8 ∷ []) (omega arith) (piece (9 ∷ []) (omega arith) all)

receive_ex-packet_example :
    (receive_ex pieces buffer
      ≡ ok (packet (5 ∷ 0 ∷ 7 ∷ 8 ∷ 9 ∷ 0 ∷ 0 ∷ 0 ∷ []) 5 (got (4 ∷ []) ∷ [])))
    × (◌≡◌ {A = ℕ} 5 5)
receive_ex-packet_example =
    receive_ex-packet buffer header rest (omega arith) (omega arith) (omega arith)

receive_ex_overrun_example : receive_ex pieces (0 ∷ 0 ∷ 0 ∷ 0 ∷ []) ≡ fault
receive_ex_overrun_example =
    receive_ex_overrun (0 ∷ 0 ∷ 0 ∷ 0 ∷ []) header rest (omega arith) (omega arith) (omega arith)

-- `send` takes two bytes, and then waits for ever.
abbrev stuck : List Send.Answer
stuck = Send.took 2 ∷ replicate 5002 Send.would_block

waits-Contract : (n m : ℕ) → Contract m (replicate n Send.would_block)
waits-Contract zero zero = tt
waits-Contract zero (suc m) = tt
waits-Contract (suc n) zero = tt
waits-Contract (suc n) (suc m) = waits-Contract n (suc m)

send_ex-Ended_example :
    Returns (Ended (1 ∷ 2 ∷ 3 ∷ 4 ∷ []) 3) (Send.send_ex stuck (1 ∷ 2 ∷ 3 ∷ 4 ∷ []) 3)
send_ex-Ended_example =
    send_ex-Ended stuck (1 ∷ 2 ∷ 3 ∷ 4 ∷ []) 3 (omega arith, omega arith, waits-Contract 5002 1)
      (omega arith) (omega (arith, length-replicate 5002 Send.would_block))
