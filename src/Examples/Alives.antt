-- ===== src/Examples/Alives.antt =====
-- Tests of the heartbeat, with two players of the game.
use winsock_multi_thread_ser.Base.{
  ℕ, ◌+◌, ◌<◌, ◌≡◌, refl, true, false, [], ◌∷◌, ◌||◌, ◌==◌, arith, replicate, Ptr, count, Returns,
  some,
}
use winsock_multi_thread_ser.CString.{strcmp_equal}
use winsock_multi_thread_ser.Packet.{packet, RecvPacketInfo, head_of}
use winsock_multi_thread_ser.Server.{Server, SocketClient, get_socket_client_node}
use winsock_multi_thread_ser.Server.Gameplay.{gameplay_nodes}
use winsock_multi_thread_ser.Server.Gameplay.Leave.{GoesOn}
use winsock_multi_thread_ser.Server.Gameplay.Clients.{clients_with}
use winsock_multi_thread_ser.Server.Gameplay.Alive.Rounds.{
  no_packet, from_client, from_other, rounds,
}
use winsock_multi_thread_ser.GameServer.{GameServer, game_handlers}
use winsock_multi_thread_ser.GameServer.Session.{HoldsText, Spoken, Plays}
use winsock_multi_thread_ser.GameServer.Alive.{rounds-Spoken, gameplay_nodes-silent}
use winsock_multi_thread_ser.Examples.Sessions.{game, player}

-- Two players, both with the name "bo".
abbrev two_players : GameServer
two_players = record game {
  player_info_list = record game.player_info_list { live = λ a. a == 900 || a == 932 };
}

bo-HoldsText : HoldsText 16 player.name
bo-HoldsText = record {
  text = 98 ∷ 111 ∷ [];
  junk = replicate 13 0;
  bytes = refl;
  no_zero = refl;
  short = omega arith;
}

both-Plays : Plays 900 two_players × Plays 932 two_players
both-Plays = (
  record { there = refl; live = refl; size = refl; named = bo-HoldsText },
  record { there = refl; live = refl; size = refl; named = bo-HoldsText },
)

-- Heard of one second after the start of the system.
abbrev client : ℕ → Ptr → SocketClient
client socket player = record {
  node = 100 + socket;
  socket = socket;
  ip = replicate 16 0;
  c2s_packet_order_number = 4;
  alive_timeout = record { start_time = 1000; end_time = 1000 };
  alive_timeout_flag = false;
  user_data = player;
}

abbrev server : Server GameServer
server = record {
  accept_list = [];
  socket_recv_list = [];
  socket_send_list = [];
  socket_send_cache = [];
  packet_recv_list = [];
  packet_send_list = [];
  client_list = client 11 900 ∷ client 12 932 ∷ [];
  s2c_orders = λ a. 0;
  listen_socket = 10;
  run_flag = true;
  select_time_mode_flag = false;
  accept_event = false;
  gameplay_event = false;
  send_event = false;
  closed = [];
  user = two_players;
}

abbrev message : ℕ → ℕ → RecvPacketInfo
message socket order = record {
  action_type = packet;
  socket = socket;
  packet_length = 8;
  packet = 8 ∷ 0 ∷ 3 ∷ 0 ∷ order ∷ 0 ∷ 65 ∷ 0 ∷ [];
}

message-Spoken : (socket order : ℕ) → Spoken (message socket order).packet
unfolding head_of
message-Spoken socket order =
    Spoken.message refl
      (record { text = 65 ∷ []; junk = []; bytes = refl; no_zero = refl; short = omega arith })

message-GoesOn : (socket : ℕ) → (GoesOn (message socket 5)) × (GoesOn (message socket 6))
unfolding strcmp_equal
message-GoesOn socket = (refl, refl)

order_of_message : (socket : ℕ) → (head_of (message socket 5).packet).packet_order_number ≡ 5
unfolding head_of
order_of_message socket = refl

found_client :
    (get_socket_client_node 11 server.client_list ≡ some (client 11 900))
    × (get_socket_client_node 12 server.client_list ≡ some (client 12 932))
unfolding get_socket_client_node
found_client = (refl, refl)

-- Socket 12 sends at 50 s, socket 11 just before 61 s, and socket 12 again before 120 s, with a number that
-- is too high.
rounds-Spoken_example :
    Returns
      (λ s'. (clients_with 11 s'.client_list ≡ 1) × (count 11 s'.closed ≡ 0))
      (rounds game_handlers
        ((50000, message 12 5) ∷ (60900, message 11 5) ∷ (120000, message 12 5) ∷ [])
        server)
rounds-Spoken_example =
    rounds-Spoken (client 11 900) 1000
      ((50000, message 12 5) ∷ (60900, message 11 5) ∷ (120000, message 12 5) ∷ []) server
      (both-Plays.0, (both-Plays.1, tt)) (omega arith) (omega arith) found_client.0 refl refl refl
      (from_other refl (message-GoesOn 12).0 (message-Spoken 12 5) (omega arith) (omega arith) (
        from_client refl (message-GoesOn 11).0 (message-Spoken 11 5) (omega arith) refl
          (order_of_message 11)
          (from_other refl (message-GoesOn 12).0 (message-Spoken 12 5) (omega arith) (omega arith)
            no_packet)))

-- Socket 12 is silent until socket 11 sends at 61 s.
gameplay_nodes-silent_example :
    Returns
      (λ s'. 0 < count 12 s'.closed)
      (gameplay_nodes game_handlers 61000 (λ i. 0) (message 11 5 ∷ []) server)
gameplay_nodes-silent_example =
    gameplay_nodes-silent 61000 1000 (client 12 932) (client 11 900) (message 11 5) server
      (both-Plays.0, (both-Plays.1, tt)) refl (message-GoesOn 11).0 (message-Spoken 11 5)
      found_client.0 (order_of_message 11) found_client.1 (omega arith) refl (omega arith)
      (omega arith)
