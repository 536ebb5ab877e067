-- ===== src/Examples/Sessions.antt =====
-- A session of a player: a name, a message and a heartbeat.
use winsock_multi_thread_ser.Base.{
  ◌+◌, ◌++◌, ◌≡◌, refl, inl, some, true, false, [], ◌∷◌, arith, replicate, Bytes, Returns, ◌==◌,
  fault,
}
use winsock_multi_thread_ser.CString.{strcmp_equal}
use winsock_multi_thread_ser.Memory.{MemoryPool}
use winsock_multi_thread_ser.TmpDoublyList.{TmpDoublyList}
use winsock_multi_thread_ser.Packet.{packet, RecvPacketInfo, head_of}
use winsock_multi_thread_ser.Server.{Server, SocketClient, get_socket_client_node}
use winsock_multi_thread_ser.Server.Gameplay.{gameplay_nodes}
use winsock_multi_thread_ser.Server.Gameplay.Numbered.{Numbered, Serves}
use winsock_multi_thread_ser.GameServer.{GameServer, PlayerInfo, game_handlers}
use winsock_multi_thread_ser.Server.Gameplay.Leave.{GoesOn}
use winsock_multi_thread_ser.GameServer.TooLong.{gameplay_nodes-too_long}
use winsock_multi_thread_ser.GameServer.Session.{
  Plays, Spoken, name, message, alive, gameplay_nodes-Spoken,
}

-- "bo"
abbrev pub player : PlayerInfo
player = record { id = 0; name = 98 ∷ 111 ∷ replicate 14 0 }

abbrev players : TmpDoublyList PlayerInfo
players = record {
  object_count_max = 4;
  buffer_list = 0;
  buffer_list_count = 1;
  head_node = 900;
  tail_node = 900;
  node_use_count = 1;
  node_link_count = 1;
  free_list = 0;
  free_list_count = 0;
  live = λ a. a == 900;
  node_data = λ a. player;
  node_number = λ a. 0;
  next = λ a. 0;
  prev = λ a. 0;
}

abbrev pool : MemoryPool
pool = record {
  buffer = 1000;
  buffer_byte_max = 1024;
  now_buffer_position_link = 1000;
  now_buffer_use_length = 0;
  extra_buffers = [];
  extra_buffer_size = 0;
}

abbrev pub game : GameServer
game = record {
  memory_pool = pool;
  player_info_list = players;
  new_buffer = λ i. 5000 + i;
  new_node = λ i. 6000 + i;
}

-- Its counter is about to start anew.
abbrev client : SocketClient
client = record {
  node = 100;
  socket = 11;
  ip = replicate 16 0;
  c2s_packet_order_number = 65534;
  alive_timeout = record { start_time = 0; end_time = 0 };
  alive_timeout_flag = false;
  user_data = 900;
}

abbrev server : Server GameServer
server = record {
  accept_list = [];
  socket_recv_list = record { socket = 11; ip = replicate 16 0 } ∷ [];
  socket_send_list = record { socket = 11; s2c_packet_order_number = 100 } ∷ [];
  socket_send_cache = [];
  packet_recv_list = [];
  packet_send_list = [];
  client_list = client ∷ [];
  s2c_orders = λ a. 7;
  listen_socket = 10;
  run_flag = true;
  select_time_mode_flag = false;
  accept_event = false;
  gameplay_event = false;
  send_event = false;
  closed = [];
  user = game;
}

abbrev node : Bytes → RecvPacketInfo
node bytes = record { action_type = packet; socket = 11; packet_length = 8; packet = bytes }

-- The new name "al", the message "hi", and a heartbeat.
abbrev new_name : RecvPacketInfo
new_name = node (8 ∷ 0 ∷ 2 ∷ 0 ∷ 255 ∷ 255 ∷ 97 ∷ 108 ∷ replicate 14 0)

abbrev greeting : RecvPacketInfo
greeting = node (8 ∷ 0 ∷ 3 ∷ 0 ∷ 0 ∷ 0 ∷ 104 ∷ 105 ∷ replicate 14 0)

abbrev heartbeat : RecvPacketInfo
heartbeat = node (6 ∷ 0 ∷ 1 ∷ 0 ∷ 1 ∷ 0 ∷ replicate 16 0)

in_game : Serves Plays 11 900 65534 server
unfolding get_socket_client_node
in_game = (
  (client, refl, refl, refl),
  record {
    there = refl;
    live = refl;
    size = refl;
    named = record {
      text = 98 ∷ 111 ∷ [];
      junk = replicate 13 0;
      bytes = refl;
      no_zero = refl;
      short = omega arith;
    };
  },
)

packets-Numbered : Numbered Spoken 11 65534 (new_name ∷ greeting ∷ heartbeat ∷ [])
unfolding strcmp_equal head_of
packets-Numbered = (
  (
    refl,
    refl,
    refl,
    refl,
    name refl
        (record {
          text = 97 ∷ 108 ∷ [];
          junk = replicate 13 0;
          bytes = refl;
          no_zero = refl;
          short = omega arith;
        })
        (omega arith),
  ),
  (
    (
      refl,
      refl,
      refl,
      refl,
      message refl (record {
        text = 104 ∷ 105 ∷ [];
        junk = replicate 13 0;
        bytes = refl;
        no_zero = refl;
        short = omega arith;
      }),
    ),
    ((refl, refl, refl, refl, alive refl), tt),
  ),
)

gameplay_nodes-Spoken_example :
    Returns (Serves Plays 11 900 1) (
      gameplay_nodes game_handlers 5000
        (λ i. 200 + i)
        (new_name ∷ greeting ∷ heartbeat ∷ [])
        server)
gameplay_nodes-Spoken_example =
    gameplay_nodes-Spoken 5000 (λ i. 200 + i) 11 900 65534 (new_name ∷ greeting ∷ heartbeat ∷ [])
      server in_game (omega arith) packets-Numbered

-- 125 times "a", behind "bo : ".
abbrev long : Bytes
long = replicate 125 97

abbrev too_long : RecvPacketInfo
too_long = node (8 ∷ 0 ∷ 3 ∷ 0 ∷ 255 ∷ 255 ∷ (long ++ 0 ∷ []))

too_long-GoesOn : GoesOn too_long
unfolding strcmp_equal
too_long-GoesOn = refl

too_long_head :
    ((head_of too_long.packet).packet_order_number ≡ 65535)
    × ((head_of too_long.packet).packet_type ≡ 3)
unfolding head_of
too_long_head = (refl, refl)

found_client : get_socket_client_node 11 server.client_list ≡ some client
unfolding get_socket_client_node
found_client = refl

gameplay_nodes-too_long_example :
    gameplay_nodes game_handlers 5000 (λ i. 200 + i) (too_long ∷ heartbeat ∷ []) server ≡ fault
unfolding in_game
gameplay_nodes-too_long_example =
    gameplay_nodes-too_long 5000 (λ i. 200 + i) client long [] too_long (heartbeat ∷ []) server
      in_game.1 refl too_long-GoesOn found_client too_long_head.0 (inl too_long_head.1) refl refl
      (omega arith)
