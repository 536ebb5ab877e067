-- ===== src/Send/Ends.antt =====
-- SendEx ends, whatever `send` answers within its contract.
use winsock_multi_thread_ser.Base.{
  ℕ, zero, suc, ◌+◌, ◌-◌, ◌≤◌, ◌<◌, ◌≡◌, refl, inl, inr, true, false, Bool-cases, some, List, [],
  ◌∷◌, arith, ltb, leb, ◌&&◌, length, take, take-add, Bytes, Returns, returns,
}
use winsock_multi_thread_ser.Send.{
  Answer, took, would_block, failed, send_retry_max, Sent, send_loop, send_ex, result, given,
}

-- The contract of `send`, where so many bytes are left: it takes one byte at least, and no more than it
-- is offered.
abbrev pub Contract : ℕ → List Answer → Type 0
Contract max [] = Unit {0}
Contract zero (a ∷ answers) = Unit {0}
Contract (suc max) (took n ∷ answers) = (0 < n) × (n ≤ suc max) × Contract (suc max - n) answers
Contract (suc max) (would_block ∷ answers) = Contract (suc max) answers
Contract (suc max) (failed ∷ answers) = Unit {0}

-- The loop has ended, and the socket has the first bytes of the packet, at most so many.
abbrev pub Ended : Bytes → ℕ → Sent → Type 0
Ended packet max r = (result r ≡ some false) × (m : ℕ) × (given r ≡ take m packet) × (m ≤ max)

send_loop-Ended :
    (answers : List Answer) (max index retry : ℕ) (packet : Bytes)
    → Contract max answers
    → index + max ≤ length packet
    → retry < send_retry_max
    → max + (send_retry_max - retry) ≤ length answers
    → Returns
        (Ended packet (index + max))
        (send_loop answers max index retry packet (take index packet))
unfolding send_loop result
send_loop-Ended answers zero index retry packet c room less enough =
    returns (refl, index, refl, omega arith)
send_loop-Ended [] (suc max) index retry packet c room less enough = absurd (omega (arith, enough))
send_loop-Ended (took n ∷ answers) (suc max) index retry packet c room less enough =
    let fits : ((ltb 0 n && leb n (suc max)) && leb (index + suc max) (length packet)) ≡ true =
      ground (arith, c.0, c.1, room) in
    let rest =
      send_loop-Ended answers (suc max - n) (index + n) retry packet c.2 (omega (arith, room, c.1))
        less (omega (arith, enough, c.0, c.1)) in
    let sum : (index + n) + (suc max - n) ≡ index + suc max = omega (arith, c.1) in
    rw (fits, take-add index n packet, ← sum) rest
send_loop-Ended (would_block ∷ answers) (suc max) index retry packet c room less enough =
    elim (Bool-cases (ltb (retry + 1) send_retry_max)) [
      | inl again ↦ rw again (
          send_loop-Ended answers (suc max) index (retry + 1) packet c room (ground (arith, again))
            (omega (arith, less, enough)))
      | inr full ↦ rw full (returns (refl, index, refl, omega arith))
    ]
send_loop-Ended (failed ∷ answers) (suc max) index retry packet c room less enough =
    returns (refl, index, refl, omega arith)

-- Where the packet's memory has the given length, `send` keeps its contract, and there is an answer for
-- each of `packet_length` bytes and 5000 more: `SendEx` ends and returns `false`, without undefined
-- behaviour, and has given the socket a prefix of the packet of at most `packet_length` bytes.
pub send_ex-Ended :
    (answers : List Answer) (packet : Bytes) (packet_length : ℕ)
    → Contract packet_length answers
    → packet_length ≤ length packet
    → packet_length + send_retry_max ≤ length answers
    → Returns (Ended packet packet_length) (send_ex answers packet packet_length)
unfolding send_ex
send_ex-Ended answers packet packet_length c room enough =
    let none_given : 0 + packet_length ≡ packet_length = omega arith in
    let loop =
      send_loop-Ended answers packet_length 0 0 packet c (omega (arith, room)) (omega arith)
        (omega (arith, enough)) in
    rw none_given at loop
