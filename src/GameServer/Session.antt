-- ===== src/GameServer/Session.antt =====
-- What a player may send without harm: the user's handler, and with it the gameplay thread, returns.
use winsock_multi_thread_ser.Base.{
  ℕ, suc, ◌+◌, ◌-◌, ◌%◌, ◌≤◌, ◌<◌, ◌≡◌, ap, ◌∙◌, true, false, arith, List, ◌∷◌, ◌++◌, ◌==◌, length,
  length-append, take-append_add, ==-refl, take, drop, append_assoc, Bytes, Ptr, null, count, u16,
  ok, ◌>>=◌, Returns, returns, Returns-bind,
}
use winsock_multi_thread_ser.Tool.Copy.{s_memcpy-min, length-s_memcpy}
use winsock_multi_thread_ser.Packet.{
  SendType, send_all, send_non_self, packet_s2c_message, packet_s2c_message_2, RecvPacketInfo,
  SendPacketInfo, head_of, buffer_of, name_buffer_max, packet_c2s_alive, packet_c2s_name,
  packet_c2s_message, packet_c2s_message_2,
}
use winsock_multi_thread_ser.Server.{Server, copy_array}
use winsock_multi_thread_ser.Server.Gameplay.{gameplay_nodes}
use winsock_multi_thread_ser.Server.Gameplay.Numbered.{
  Numbered, Answers, Serves, gameplay_nodes-Numbered,
}
use winsock_multi_thread_ser.GameServer.{
  GameServer, game_handlers, v_on_gameplay_receive_packet, set_name, player_name, answer_message,
}
use winsock_multi_thread_ser.GameServer.Answers.{answer_message-fits}

-- A C string at the front of an array, shorter than `max`.
pub record HoldsText (max : ℕ) (array : Bytes) : Type 0 where
  pub text : Bytes
  pub junk : Bytes
  pub bytes : array ≡ text ++ 0 ∷ junk
  pub no_zero : count 0 text ≡ 0
  pub short : length text < max

-- The bytes of a packet that is a heartbeat, a name of at most 15 characters, or a message of at most
-- 108, which fits behind any name.
pub data Spoken : Bytes → Type 0 where
  alive : {bytes : Bytes} → (head_of bytes).packet_type ≡ packet_c2s_alive → Spoken bytes
  name :
      {bytes : Bytes}
      → (head_of bytes).packet_type ≡ packet_c2s_name
      → HoldsText name_buffer_max (buffer_of bytes)
      → name_buffer_max ≤ length (buffer_of bytes)
      → Spoken bytes
  message :
      {bytes : Bytes}
      → (head_of bytes).packet_type ≡ packet_c2s_message
      → HoldsText 109 (buffer_of bytes)
      → Spoken bytes
  message_2 :
      {bytes : Bytes}
      → (head_of bytes).packet_type ≡ packet_c2s_message_2
      → HoldsText 109 (buffer_of bytes)
      → Spoken bytes

-- The player's node is one of the list, and holds a name.
pub record Plays (player : Ptr) (g : GameServer) : Type 0 where
  pub there : (player == null) ≡ false
  pub live : g.player_info_list.live player ≡ true
  pub size : length (g.player_info_list.node_data player).name ≡ name_buffer_max
  pub named : HoldsText name_buffer_max (g.player_info_list.node_data player).name

pub take-HoldsText :
    (old array : Bytes)
    → HoldsText name_buffer_max array
    → HoldsText name_buffer_max (take name_buffer_max array ++ drop name_buffer_max old)
take-HoldsText old array v =
    let m = name_buffer_max - length v.text - 1 in
    let split : name_buffer_max ≡ length v.text + suc m = omega (arith, v.short) in
    record {
      text = v.text;
      junk = take m v.junk ++ drop name_buffer_max old;
      bytes =
          ap (λ l. l ++ drop name_buffer_max old)
            (ap (take name_buffer_max) v.bytes
              ∙ ap (λ n. take n (v.text ++ 0 ∷ v.junk)) split
              ∙ take-append_add (suc m) v.text (0 ∷ v.junk))
          ∙ append_assoc v.text (0 ∷ take m v.junk) (drop name_buffer_max old);
      no_zero = v.no_zero;
      short = v.short;
    }

set_name-Plays :
    (player : Ptr) (array : Bytes) (g : GameServer)
    → Plays player g
    → HoldsText name_buffer_max array
    → name_buffer_max ≤ length array
    → Returns (Plays player) (set_name player array g)
unfolding set_name copy_array
set_name-Plays player array g p v room =
    let old = (g.player_info_list.node_data player).name in
    rw (p.live, s_memcpy-min old array name_buffer_max name_buffer_max (omega (arith, p.size)) room)
      (returns (record {
        there = p.there;
        live = p.live;
        size =
            rw (==-refl player)
              (length-s_memcpy old array name_buffer_max (omega (arith, p.size)) room ∙ p.size);
        named = rw (==-refl player) (take-HoldsText old array v);
      }))

-- A player's message changes nothing in the game.
pub said :
    (P : GameServer → Type 0) (send_type : SendType) (packet_type socket : ℕ) (array : Bytes)
    (player : Ptr) (g : GameServer)
    → P g
    → Plays player g
    → HoldsText 109 array
    → Returns {A = GameServer × List SendPacketInfo}
        (λ r. P r.0)
        (player_name player g >>= λ n.
          answer_message send_type packet_type socket n array >>= λ nodes. ok (g, nodes))
unfolding player_name
said P send_type packet_type socket array player g same p v =
    let fits =
      answer_message-fits send_type packet_type socket p.named.text p.named.junk v.text v.junk
        p.named.no_zero v.no_zero
        (omega (
          arith,
          p.named.short,
          v.short,
          length-append p.named.text (b' ' ∷ b':' ∷ b' ' ∷ v.text),
        )) in
    rw (p.live, p.named.bytes, v.bytes) (rw fits (returns same))

game-Answers : Answers game_handlers Plays Spoken
unfolding v_on_gameplay_receive_packet game_handlers
game-Answers player socket bytes g p (alive t) = rw (p.there, t) (returns p)
game-Answers player socket bytes g p (name t v room) =
    rw (p.there, t)
      (Returns-bind (set_name-Plays player (buffer_of bytes) g p v room) (λ g' p'. returns p'))
game-Answers player socket bytes g p (message t v) =
    rw (p.there, t)
      (said (Plays player) send_all packet_s2c_message socket (buffer_of bytes) player g p p v)
game-Answers player socket bytes g p (message_2 t v) =
    rw (p.there, t)
      (said (Plays player) send_non_self packet_s2c_message_2 socket (buffer_of bytes) player g p p
        v)

-- A client whose player is in the game sends heartbeats, names of at most 15 characters and messages
-- of at most 108, numbered one by one behind its counter, none of which is the word that ends the
-- server: the gameplay thread handles them all with the answers of the game, without undefined
-- behaviour; the list has the client still, with its socket and its player, who is in the game and
-- has a name, and the counter has gone on by the number of packets, modulo 2 ^ 16.
pub gameplay_nodes-Spoken :
    (now : ℕ) (nodes : ℕ → Ptr) (k : ℕ) (player : Ptr) (order : ℕ) (ns : List RecvPacketInfo)
    (s : Server GameServer)
    → Serves Plays k player order s
    → order < u16
    → Numbered Spoken k order ns
    → Returns
        (Serves Plays k player ((order + length ns) % u16))
        (gameplay_nodes game_handlers now nodes ns s)
gameplay_nodes-Spoken now nodes k player order ns s =
    gameplay_nodes-Numbered game_handlers Plays Spoken now nodes k player order ns s game-Answers
