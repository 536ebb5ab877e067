-- ===== src/GameServer/Alive.antt =====
-- The heartbeat with the answers of the game: whom the gameplay thread closes, and whom it does not.
use winsock_multi_thread_ser.Base.{
  ℕ, ◌+◌, ◌≤◌, ◌<◌, ◌≡◌, ◌≢◌, ◌∙◌, inl, inr, false, some, List, [], ◌∷◌, ◌++◌, ◌==◌, arith,
  Bool-cases, length, take, drop, update, Bytes, Ptr, count, inc16, Returns, returns, Returns-bind,
  Returns-map,
}
use winsock_multi_thread_ser.Tool.Copy.{s_memcpy-min, length-s_memcpy}
use winsock_multi_thread_ser.Packet.{
  send_all, send_non_self, packet_s2c_message, packet_s2c_message_2, packet, RecvPacketInfo,
  head_of, buffer_of, name_buffer_max,
}
use winsock_multi_thread_ser.Server.{
  Server, SocketClient, invalid_socket, get_socket_client_node, copy_array,
}
use winsock_multi_thread_ser.Server.Gameplay.{gameplay_nodes}
use winsock_multi_thread_ser.Server.Gameplay.Clients.{clients_with}
use winsock_multi_thread_ser.Server.Gameplay.Leave.{GoesOn}
use winsock_multi_thread_ser.Server.Gameplay.Alive.{Players}
use winsock_multi_thread_ser.Server.Gameplay.Alive.Packets.{Replies}
use winsock_multi_thread_ser.Server.Gameplay.Alive.Rounds.{
  Steady, rounds, rounds-alive, silent-closed,
}
use winsock_multi_thread_ser.GameServer.{
  GameServer, game_handlers, v_on_gameplay_receive_packet, set_name,
}
use winsock_multi_thread_ser.GameServer.Session.{
  HoldsText, Spoken, alive, name, message, message_2, Plays, take-HoldsText, said,
}

-- Whoever plays in one game plays in another one.
abbrev Stay : GameServer → GameServer → Type 0
Stay g g' = (q : Ptr) → Plays q g → Plays q g'

-- The game after a player got a name.
abbrev renamed : Ptr → Bytes → GameServer → GameServer
renamed player new_name g = record g {
  player_info_list = record g.player_info_list {
    node_data =
        update g.player_info_list.node_data player
          (record (g.player_info_list.node_data player) { name = new_name });
  };
}

renamed-Stay :
    (player : Ptr) (new_name : Bytes) (g : GameServer)
    → length new_name ≡ name_buffer_max
    → HoldsText name_buffer_max new_name
    → Stay g (renamed player new_name g)
renamed-Stay player new_name g size named q w = elim (Bool-cases (q == player)) [
  | inl same ↦ record { there = w.there; live = w.live; size = rw same size; named = rw same named }
  | inr other ↦ record {
    there = w.there;
    live = w.live;
    size = rw other w.size;
    named = rw other w.named;
  }
]

-- A new name of one player leaves all players in the game.
set_name-Stay :
    (player : Ptr) (array : Bytes) (g : GameServer)
    → Plays player g
    → HoldsText name_buffer_max array
    → name_buffer_max ≤ length array
    → Returns (Stay g) (set_name player array g)
unfolding set_name copy_array
set_name-Stay player array g p v room =
    let old = (g.player_info_list.node_data player).name in
    rw (p.live, s_memcpy-min old array name_buffer_max name_buffer_max (omega (arith, p.size)) room)
      (returns (
        renamed-Stay player (take name_buffer_max array ++ drop name_buffer_max old) g
          (length-s_memcpy old array name_buffer_max (omega (arith, p.size)) room ∙ p.size)
          (take-HoldsText old array v)))

game-Stay :
    (player : Ptr) (socket : ℕ) (bytes : Bytes) (g : GameServer)
    → Plays player g
    → Spoken bytes
    → Returns (λ r. Stay g r.0) (game_handlers.v_on_gameplay_receive_packet player socket bytes g)
unfolding v_on_gameplay_receive_packet game_handlers
game-Stay player socket bytes g p (alive t) = rw (p.there, t) (returns (λ q w. w))
game-Stay player socket bytes g p (name t v room) =
    rw (p.there, t)
      (Returns-bind (set_name-Stay player (buffer_of bytes) g p v room) (λ g' stay. returns stay))
game-Stay player socket bytes g p (message t v) =
    rw (p.there, t)
      (said (Stay g) send_all packet_s2c_message socket (buffer_of bytes) player g (λ q w. w) p v)
game-Stay player socket bytes g p (message_2 t v) =
    rw (p.there, t)
      (said (Stay g) send_non_self packet_s2c_message_2 socket (buffer_of bytes) player g (λ q w. w)
        p v)

-- The game replies to the players of a first state `g₀`, in all states in which they play.
game-Replies : (g₀ : GameServer) → Replies (λ q. Plays q g₀) (Stay g₀) game_handlers Spoken
game-Replies g₀ player socket bytes g plays stay fine =
    Returns-map (game-Stay player socket bytes g (stay player plays) fine)
      (λ r later q w. later q (stay q w))

-- A client that is heard of in time is not closed, with the answers of the game. If the list has the
-- client once, its timer runs since `last`, its timeout flag is not set, its socket is valid, and all
-- clients in the list have players with names in the game, then the gameplay thread handles all
-- packets of a sequence, without undefined behaviour, where each is a heartbeat, a name of at most 15
-- characters or a message of at most 108, none is the text that ends the server, those of the client
-- are numbered one by one behind its counter and not handled at time 0, and those of others are
-- handled less than 60 seconds after the last one of the client: the client stays in the list, and
-- its socket is closed no more often than before.
pub rounds-Spoken :
    (c : SocketClient) (last : ℕ) (es : List (ℕ × RecvPacketInfo)) (s : Server GameServer)
    → Players (λ q. Plays q s.user) s.client_list
    → c.socket ≢ invalid_socket
    → last ≢ 0
    → get_socket_client_node c.socket s.client_list ≡ some c
    → clients_with c.socket s.client_list ≡ 1
    → c.alive_timeout.start_time ≡ last
    → c.alive_timeout_flag ≡ false
    → Steady Spoken c.socket last c.c2s_packet_order_number es
    → Returns
        (λ s'.
          (clients_with c.socket s'.client_list ≡ 1)
          × (count c.socket s'.closed ≡ count c.socket s.closed))
        (rounds game_handlers es s)
rounds-Spoken c last es s players =
    rounds-alive game_handlers (λ q. Plays q s.user) (Stay s.user) Spoken c last es s
      (game-Replies s.user) players (λ q w. w)

-- A silent client is closed, when another one is heard of, with the answers of the game. If all
-- clients in the list have players with names in the game, and a packet of another client, with the
-- next order number of this one, that is a heartbeat, a name of at most 15 characters or a message of
-- at most 108 and is not the text that ends the server, is handled 60 seconds after `last` or later,
-- then the gameplay thread returns from it, and has closed the socket of a client whose timer runs
-- since `last` once more than before at least.
pub gameplay_nodes-silent :
    (now last : ℕ) (c d : SocketClient) (n : RecvPacketInfo) (s : Server GameServer)
    → Players (λ q. Plays q s.user) s.client_list
    → n.action_type ≡ packet
    → GoesOn n
    → Spoken n.packet
    → get_socket_client_node n.socket s.client_list ≡ some d
    → (head_of n.packet).packet_order_number ≡ inc16 d.c2s_packet_order_number
    → get_socket_client_node c.socket s.client_list ≡ some c
    → n.socket ≢ c.socket
    → c.alive_timeout.start_time ≡ last
    → last ≢ 0
    → last + 60000 ≤ now
    → Returns
        (λ s'. count c.socket s.closed < count c.socket s'.closed)
        (gameplay_nodes game_handlers now (λ i. 0) (n ∷ []) s)
gameplay_nodes-silent now last c d n s players =
    silent-closed game_handlers (λ q. Plays q s.user) (Stay s.user) Spoken now last c d n s
      (game-Replies s.user) players (λ q w. w)
