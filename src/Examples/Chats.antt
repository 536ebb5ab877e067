-- ===== src/Examples/Chats.antt =====
-- A message of "bo" on its way to another player.
use winsock_multi_thread_ser.Base.{List, [], ◌∷◌, Bytes}
use winsock_multi_thread_ser.Receive.{Answer, got, would_block}
use winsock_multi_thread_ser.Server.{SocketSendInfo}
use winsock_multi_thread_ser.Client.{TcpClient, new_client}

-- The sender with the socket 11, and two others.
abbrev entries : List SocketSendInfo
entries =
    record { socket = 10; s2c_packet_order_number = 100 }
    ∷ record { socket = 11; s2c_packet_order_number = 200 }
    ∷ record { socket = 12; s2c_packet_order_number = 300 }
    ∷ []

-- The other player has got seven packets.
abbrev listener : TcpClient
listener = record (new_client [] []) { s2c_packet_order_number = 7 }

-- "bo : hi"
abbrev line : Bytes
line = 98 ∷ 111 ∷ 32 ∷ 58 ∷ 32 ∷ 104 ∷ 105 ∷ []

abbrev body : List Answer
body = got (6 ∷ 0 ∷ 8 ∷ 0 ∷ line) ∷ []

abbrev pieces : List Answer
pieces = would_block ∷ got (13 ∷ []) ∷ would_block ∷ got (0 ∷ []) ∷ body
