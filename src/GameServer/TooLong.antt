-- ===== src/GameServer/TooLong.antt =====
-- The longest message of a player: what does not fit into the line of PrintMessage ends the server.
use winsock_multi_thread_ser.Base.{
  ℕ, ◌⊎◌, ◌≤◌, ◌≡◌, refl, inl, inr, some, List, ◌∷◌, ◌++◌, length, arith, Bytes, Ptr, count, inc16,
  fault,
}
use winsock_multi_thread_ser.Packet.{
  send_all, send_non_self, packet_s2c_message, packet_s2c_message_2, packet_c2s_message,
  packet_c2s_message_2, packet, RecvPacketInfo, head_of, buffer_of,
}
use winsock_multi_thread_ser.Server.{Server, SocketClient, get_socket_client_node}
use winsock_multi_thread_ser.Server.Gameplay.{gameplay_nodes}
use winsock_multi_thread_ser.Server.Gameplay.Leave.{GoesOn}
use winsock_multi_thread_ser.Server.Gameplay.Faults.{gameplay_nodes-fault}
use winsock_multi_thread_ser.GameServer.{
  GameServer, game_handlers, v_on_gameplay_receive_packet, player_name,
}
use winsock_multi_thread_ser.GameServer.Answers.{chat_line, answer_message-too_long}
use winsock_multi_thread_ser.GameServer.Session.{Plays}

-- The packet is a message, of one of the two kinds.
abbrev pub IsMessage : ℕ → Type 0
IsMessage packet_type = (packet_type ≡ packet_c2s_message) ⊎ (packet_type ≡ packet_c2s_message_2)

game-too_long :
    (player : Ptr) (socket : ℕ) (bytes message more : Bytes) (g : GameServer) (p : Plays player g)
    → IsMessage (head_of bytes).packet_type
    → buffer_of bytes ≡ message ++ 0 ∷ more
    → count 0 message ≡ 0
    → 127 ≤ length (chat_line p.named.text message)
    → game_handlers.v_on_gameplay_receive_packet player socket bytes g ≡ fault
unfolding v_on_gameplay_receive_packet game_handlers player_name
game-too_long player socket bytes message more g p (inl t) buffer no_zero long =
    rw (p.there, t, p.live, p.named.bytes, buffer)
      (rw
        (answer_message-too_long send_all packet_s2c_message socket p.named.text p.named.junk
          message more p.named.no_zero no_zero long)
        refl)
game-too_long player socket bytes message more g p (inr t) buffer no_zero long =
    rw (p.there, t, p.live, p.named.bytes, buffer)
      (rw
        (answer_message-too_long send_non_self packet_s2c_message_2 socket p.named.text p.named.junk
          message more p.named.no_zero no_zero long)
        refl)

-- A client whose player has a name in the game ends the server with one packet: if it is a message of
-- either kind, a C string that makes 127 characters or more with the name and the separator, has the
-- next order number, and is not the text that ends the server in order, then the gameplay thread
-- comes to `fault` at it, whatever is behind it in the queue.
pub gameplay_nodes-too_long :
    (now : ℕ) (nodes : ℕ → Ptr) (c : SocketClient) (message more : Bytes) (n : RecvPacketInfo)
    (rest : List RecvPacketInfo) (s : Server GameServer) (p : Plays c.user_data s.user)
    → n.action_type ≡ packet
    → GoesOn n
    → get_socket_client_node n.socket s.client_list ≡ some c
    → (head_of n.packet).packet_order_number ≡ inc16 c.c2s_packet_order_number
    → IsMessage (head_of n.packet).packet_type
    → buffer_of n.packet ≡ message ++ 0 ∷ more
    → count 0 message ≡ 0
    → 127 ≤ length (chat_line p.named.text message)
    → gameplay_nodes game_handlers now nodes (n ∷ rest) s ≡ fault
gameplay_nodes-too_long now nodes c message more n rest s p is_packet goes found next kind buffer
      no_zero long =
    gameplay_nodes-fault game_handlers now nodes c n rest s is_packet goes found next
      (ground (arith, kind))
      (game-too_long c.user_data c.socket n.packet message more s.user p kind buffer no_zero long)
