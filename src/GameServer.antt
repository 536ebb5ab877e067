-- ===== src/GameServer.antt =====
-- MintServer/src/GameServer.cpp and GameServer.h: the players, and the answers to their packets.
pub mod Answers
pub mod Session
pub mod Alive
pub mod TooLong
use winsock_multi_thread_ser.Base.{
  ℕ, zero, suc, ◌+◌, Bool, true, false, List, [], ◌∷◌, ◌++◌, ltb, ◌==◌, if◌then◌else◌, length, take,
  replicate, Bytes, Ptr, null, Run, ok, fault, ◌>>=◌, update, Layout, arith,
}
use winsock_multi_thread_ser.CString.{c_string}
use winsock_multi_thread_ser.Memory.{MemoryPool}
use winsock_multi_thread_ser.TmpDoublyList.{TmpDoublyList, get_node, free_node, link, unlink}
use winsock_multi_thread_ser.Packet.{
  SendType, send_all, send_non_self, SendPacketInfo, head_of, buffer_of, head_bytes, head_size,
  name_buffer_max, message_buffer_max, packet_c2s_name, packet_c2s_message, packet_s2c_message,
  packet_c2s_message_2, packet_s2c_message_2,
}
use winsock_multi_thread_ser.Server.{Server, UserHandlers, copy_array}
use winsock_multi_thread_ser.Server.Gameplay.{new_send_packet}

pub record PlayerInfo : Type 0 where
  pub id : ℕ
  pub name : Bytes

instance pub PlayerInfo-Layout : Layout PlayerInfo
PlayerInfo-Layout = record {
  size_of = 40;
  size_pos = omega arith;
  zero_data = record { id = 0; name = replicate name_buffer_max 0 };
}

-- The members of GameServer, the memory pool, and what `new` will answer to the pool when it is full:
-- the buffer and the node of each call.
pub record GameServer : Type 0 where
  pub memory_pool : MemoryPool
  pub player_info_list : TmpDoublyList PlayerInfo
  pub new_buffer : ℕ → Ptr
  pub new_node : ℕ → Ptr

-- `vUserCreateClientNode`.
pub v_user_create_client_node : GameServer → Run (GameServer × Ptr)
v_user_create_client_node g = do
  (pool, l, player_node) ← get_node (g.new_buffer 0) (g.new_node 0) g.memory_pool g.player_info_list
  l ← link player_node l
  ok (
    record {
      memory_pool = pool;
      player_info_list = l;
      new_buffer = λ i. g.new_buffer (suc i);
      new_node = λ i. g.new_node (suc i);
    },
    player_node,
  )

-- `vUserFreeClientNode`, and `pUserData` behind it. Without a player it logs and returns.
pub v_user_free_client_node : Ptr → GameServer → Run (GameServer × Ptr)
v_user_free_client_node player_node g = if player_node == null then ok (g, player_node) else do
  (l, unlinked) ← unlink player_node g.player_info_list
  (l, cleared) ← free_node player_node l
  ok (record g { player_info_list = l }, null)

-- `sprintf_s(s2c_packet.Message, size, "%s : %s", name, message)`: with a text that does not fit
-- with its zero byte, the process is ended.
unfoldable pub print_message : ℕ → Bytes → Bytes → Run Bytes
unfolding c_string
print_message size name message = do
  n ← c_string name
  m ← c_string message
  let text = n ++ (b' ' ∷ b':' ∷ b' ' ∷ m)
  if ltb (length text) size then ok text else fault

-- The S2C packet of a text: the head, and the array `Message`, which is 0 behind the text.
unfoldable pub message_packet : ℕ → Bytes → Bytes
unfolding head_bytes
message_packet packet_type text =
    head_bytes (record {
      packet_length = head_size + length text;
      packet_type = packet_type;
      packet_order_number = 0;
    })
    ++ take message_buffer_max (text ++ replicate message_buffer_max 0)

-- The two cases that pass a message on.
unfoldable pub answer_message : SendType → ℕ → ℕ → Bytes → Bytes → Run (List SendPacketInfo)
unfolding print_message message_packet new_send_packet
answer_message send_type packet_type socket name message = do
  text ← print_message 127 name message
  node ←
      new_send_packet send_type socket (message_packet packet_type text) (head_size + length text)
  ok (node ∷ [])

-- The case `PACKET__C2S_NAME`: 16 bytes are copied into the player's node.
set_name : Ptr → Bytes → GameServer → Run GameServer
set_name player_node message g =
    let l = g.player_info_list in
    if l.live player_node
    then (do
      name ← copy_array (l.node_data player_node).name name_buffer_max message name_buffer_max
      ok (record g {
        player_info_list = record l {
          node_data =
              update l.node_data player_node (record (l.node_data player_node) { name = name });
        };
      }))
    else fault

-- The name of a player, read through the pointer.
pub player_name : Ptr → GameServer → Run Bytes
player_name player_node g =
    if g.player_info_list.live player_node
    then ok (g.player_info_list.node_data player_node).name
    else fault

-- `vOnGameplayReceivePacket`. A packet of another type gets no answer.
pub v_on_gameplay_receive_packet :
    Ptr → ℕ → Bytes → GameServer → Run (GameServer × List SendPacketInfo)
unfolding set_name player_name answer_message
v_on_gameplay_receive_packet player_node socket bytes g =
    let packet_type = (head_of bytes).packet_type in
    if player_node == null
    then ok (g, [])
    else if packet_type == packet_c2s_name
    then (do g ← set_name player_node (buffer_of bytes) g; ok (g, []))
    else if packet_type == packet_c2s_message
    then (do
      name ← player_name player_node g
      nodes ← answer_message send_all packet_s2c_message socket name (buffer_of bytes)
      ok (g, nodes))
    else if packet_type == packet_c2s_message_2
    then (do
      name ← player_name player_node g
      nodes ← answer_message send_non_self packet_s2c_message_2 socket name (buffer_of bytes)
      ok (g, nodes))
    else ok (g, [])

-- The virtual functions of TCPServer.
pub game_handlers : UserHandlers GameServer
game_handlers = record {
  v_user_create_client_node = v_user_create_client_node;
  v_user_free_client_node = v_user_free_client_node;
  v_on_gameplay_receive_packet = v_on_gameplay_receive_packet;
}
