-- ===== src/Chat.antt =====
-- From a message of a player to the screens of the others: GameServer.cpp, the send thread of
-- TCPServer.cpp, and RecvEx of the client.
use winsock_multi_thread_ser.Base.{ℕ, ◌+◌, ◌-◌, ◌++◌, length, replicate, Bytes}
use winsock_multi_thread_ser.Receive.{packet_buffer_max}
use winsock_multi_thread_ser.Packet.{
  HeadPacketInfo, SendPacketInfo, send_non_self, head_bytes, head_size, packet_s2c_message_2,
}
use winsock_multi_thread_ser.Server.Sender.Wire.{numbered}
use winsock_multi_thread_ser.GameServer.Answers.{message_head}

-- The head of the message with a text, under an order number.
abbrev pub line_head : ℕ → Bytes → HeadPacketInfo
line_head order line = numbered order (message_head packet_s2c_message_2 line)

-- The packet that the game queues for it.
abbrev pub queued : ℕ → Bytes → SendPacketInfo
queued sender line = record {
  send_type = send_non_self;
  socket = sender;
  packet_length = head_size + length line;
  packet =
      head_bytes (message_head packet_s2c_message_2 line)
      ++ (line ++ replicate (packet_buffer_max - head_size - length line) 0);
}
