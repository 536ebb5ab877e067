-- ===== src/Packet.antt =====
-- MintServer/src/MTLibrary/Packet.h: the nodes of the two packet queues and the head of a packet on
-- the wire, whose words have their lower byte first.
pub mod Head
use winsock_multi_thread_ser.Base.{
  ℕ, zero, suc, ◌+◌, ◌*◌, ◌/◌, ◌%◌, List, [], ◌∷◌, ◌++◌, Bytes, byte_at, drop,
}

-- `_ACTION_TYPE_`: what the gameplay thread is told to do.
pub data ActionType : Type 0 where
  create_client : ActionType
  release_client : ActionType
  packet : ActionType

pub record RecvPacketInfo : Type 0 where
  pub action_type : ActionType
  pub socket : ℕ
  pub packet_length : ℕ
  pub packet : Bytes

-- `_SEND_TYPE_`: who gets a packet.
pub data SendType : Type 0 where
  send_all : SendType
  send_self : SendType
  send_non_self : SendType
  send_group_all : SendType
  send_group_self : SendType
  send_group_non_self : SendType

pub record SendPacketInfo : Type 0 where
  pub send_type : SendType
  pub socket : ℕ
  pub packet_length : ℕ
  pub packet : Bytes

-- `NAME_BUFFER_MAX` and `MESSAGE_BUFFER_MAX`.
abbrev pub name_buffer_max : ℕ
name_buffer_max = 16

abbrev pub message_buffer_max : ℕ
message_buffer_max = 128

-- `_PACKET_TYPE_`, the values on the wire.
abbrev pub packet_c2s_alive : ℕ
packet_c2s_alive = 1

abbrev pub packet_c2s_name : ℕ
packet_c2s_name = 2

abbrev pub packet_c2s_message : ℕ
packet_c2s_message = 3

abbrev pub packet_s2c_message : ℕ
packet_s2c_message = 4

abbrev pub packet_c2s_message_2 : ℕ
packet_c2s_message_2 = 5

abbrev pub packet_s2c_message_2 : ℕ
packet_s2c_message_2 = 6

pub record HeadPacketInfo : Type 0 where
  pub packet_length : ℕ
  pub packet_type : ℕ
  pub packet_order_number : ℕ

-- `sizeof(HeadPacketInfo)`: three words.
abbrev pub head_size : ℕ
head_size = 6

-- A `WORD` in memory.
unfoldable pub word : ℕ → Bytes
word n = n % 256 ∷ (n / 256) % 256 ∷ []

unfoldable pub head_bytes : HeadPacketInfo → Bytes
unfolding word
head_bytes h = word h.packet_length ++ (word h.packet_type ++ word h.packet_order_number)

-- The word at an offset.
abbrev pub word_at : Bytes → ℕ → ℕ
word_at p i = byte_at p i + 256 * byte_at p (suc i)

-- A packet seen through a `HeadPacketInfo` pointer, and `Buffer` of `PacketBuffer`.
unfoldable pub head_of : Bytes → HeadPacketInfo
head_of p = record {
  packet_length = word_at p 0;
  packet_type = word_at p 2;
  packet_order_number = word_at p 4;
}

abbrev pub buffer_of : Bytes → Bytes
buffer_of p = drop head_size p

-- `head_packet->PacketOrderNumber = n`, written into the packet.
unfoldable pub set_order : ℕ → Bytes → Bytes
set_order n (a ∷ b ∷ c ∷ d ∷ e ∷ f ∷ rest) = a ∷ b ∷ c ∷ d ∷ n % 256 ∷ (n / 256) % 256 ∷ rest
set_order n p = p
