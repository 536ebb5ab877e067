-- ===== src/Examples/Server.antt =====
-- Tests of the threads of the server and of the answers of the game.
use winsock_multi_thread_ser.Base.{
  ℕ, ◌≡◌, List, [], ◌∷◌, ◌==◌, if◌then◌else◌, arith, Bytes, Ptr, count, inc16,
}
use winsock_multi_thread_ser.Packet.{HeadPacketInfo}
use winsock_multi_thread_ser.Server.{SocketSendInfo}
use winsock_multi_thread_ser.Server.Sender.{send_to_all}
use winsock_multi_thread_ser.Server.Sender.Targets.{Frames, counters, send_to_all-Frames}

abbrev head : HeadPacketInfo
head = record { packet_length = 300; packet_type = 4; packet_order_number = 513 }

-- A packet of type 4 with two bytes in its buffer.
abbrev message : Bytes
message = 8 ∷ 0 ∷ 4 ∷ 0 ∷ 0 ∷ 0 ∷ 65 ∷ 66 ∷ []

-- Three sockets with their counters, the second of which is about to wrap.
abbrev cache : List SocketSendInfo
cache =
    record { socket = 11; s2c_packet_order_number = 100 }
    ∷ record { socket = 12; s2c_packet_order_number = 200 }
    ∷ record { socket = 13; s2c_packet_order_number = 300 }
    ∷ []

abbrev orders : Ptr → ℕ
orders a = if a == 200 then 65535 else 7

send_to_all-Frames_example :
    let r = send_to_all cache message 8 orders in
    Frames message 8 orders cache r.0
    × ((a : Ptr) → r.1 a ≡ (if count a (counters cache) == 0 then orders a else inc16 (orders a)))
send_to_all-Frames_example =
    send_to_all-Frames cache message 8 orders (omega arith) (λ a. ground arith)
