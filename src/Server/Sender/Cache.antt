-- ===== src/Server/Sender/Cache.antt =====
-- Which sockets the send thread takes for connected.
use winsock_multi_thread_ser.Base.{
  ℕ, ◌+◌, ◌≤◌, ◌<◌, ◌≡◌, refl, ◌∙◌, inl, inr, true, List, [], ◌∷◌, arith, ◌==◌, if◌then◌else◌,
  Bool-cases, length, length-append, Bytes, Ptr, count, ok, Returns, returns,
}
use winsock_multi_thread_ser.Tool.Copy.{s_memcpy-min}
use winsock_multi_thread_ser.Packet.{send_all, SendPacketInfo, RecvPacketInfo}
use winsock_multi_thread_ser.Server.{
  Server, SocketInfo, SocketSendInfo, UserHandlers, unlink_send, copy_array, blank_ip,
}
use winsock_multi_thread_ser.Server.Select.{
  recv_free_client_node, notice_gameplay_thread_free_client_node,
}
use winsock_multi_thread_ser.Server.Gameplay.{create_client_node}
use winsock_multi_thread_ser.Server.Gameplay.Clients.{sends_to}
use winsock_multi_thread_ser.Server.Sender.{
  Frame, send_to_all, send_by_type, refresh_cache, send_node,
}
use winsock_multi_thread_ser.Server.Sender.Targets.{Frames, counters, send_to_all-Frames}

-- The entries that a packet is sent by: the cache if it has as many entries as the list.
abbrev pub entries : {A : Type 0} → Server A → List SocketSendInfo
entries s =
    if length s.socket_send_cache == length s.socket_send_list
    then s.socket_send_cache
    else s.socket_send_list

send_node-eq :
    {A : Type 0} (s : Server A) (n : SendPacketInfo) (rest : List SendPacketInfo)
    → n.send_type ≡ send_all
    → (send_node n rest s).1 ≡ (send_to_all (entries s) n.packet n.packet_length s.s2c_orders).0
unfolding send_node refresh_cache send_by_type
send_node-eq s n rest all =
    elim (Bool-cases (length s.socket_send_cache == length s.socket_send_list)) [
      | inl same ↦ rw (all, same) refl
      | inr other ↦ rw (all, other) refl
    ]

-- A broadcast goes to the sockets of the cache where that has as many entries as the list, and else
-- to those of the list: one frame each, numbered by the counter of its socket, where no two of
-- these entries share a counter and the packet has a head.
pub send_node-Frames :
    {A : Type 0} (s : Server A) (n : SendPacketInfo) (rest : List SendPacketInfo)
    → n.send_type ≡ send_all
    → 6 ≤ length n.packet
    → ((a : Ptr) → count a (counters (entries s)) ≤ 1)
    → Frames n.packet n.packet_length s.s2c_orders (entries s) (send_node n rest s).1
send_node-Frames s n rest all long once =
    rw (send_node-eq s n rest all)
      (send_to_all-Frames (entries s) n.packet n.packet_length s.s2c_orders long once).0

send_node-cached :
    {A : Type 0} (s : Server A) (n : SendPacketInfo) (rest : List SendPacketInfo)
    → n.send_type ≡ send_all
    → 6 ≤ length n.packet
    → length s.socket_send_cache ≡ length s.socket_send_list
    → ((a : Ptr) → count a (counters s.socket_send_cache) ≤ 1)
    → Frames n.packet n.packet_length s.s2c_orders s.socket_send_cache (send_node n rest s).1
send_node-cached s n rest all long same once =
    let full : (length s.socket_send_cache == length s.socket_send_list) ≡ true =
      ground (arith, same) in
    rw (send_node-eq s n rest all, full)
      (send_to_all-Frames s.socket_send_cache n.packet n.packet_length s.s2c_orders long once).0

length-unlink_send :
    (k : ℕ) (es : List SocketSendInfo)
    → 0 < sends_to k es
    → length (unlink_send k es) + 1 ≡ length es
unfolding unlink_send
length-unlink_send k [] h = absurd (omega (arith, h))
length-unlink_send k (e ∷ es) h = ground (arith, length-unlink_send k es)

-- How many frames go to a socket.
abbrev pub frames_to : ℕ → List Frame → ℕ
frames_to k [] = 0
frames_to k (f ∷ fs) = (if f.socket == k then 1 else 0) + frames_to k fs

frames_to-Frames :
    (k : ℕ) (packet : Bytes) (n : ℕ) (orders : Ptr → ℕ) (es : List SocketSendInfo) (fs : List Frame)
    → Frames packet n orders es fs
    → frames_to k fs ≡ sends_to k es
frames_to-Frames k packet n orders [] [] h = refl
frames_to-Frames k packet n orders [] (f ∷ fs) h = absurd h
frames_to-Frames k packet n orders (e ∷ es) [] h = absurd h
frames_to-Frames k packet n orders (e ∷ es) (f ∷ fs) h =
    rw (h.0.0, frames_to-Frames k packet n orders es fs h.1) refl

-- One client leaves and another one joins while the send thread sleeps. If the cache had as many
-- entries as the send list, which has the socket of the client that leaves, just one entry of the
-- cache has that socket and none that of the new client, no two entries of the cache share a counter,
-- the address in the notice has 16 bytes at least, and the user's function returns, then the next
-- packet for all, which has a head, goes by the entries of the old cache: one frame goes to the socket
-- of the client that has left, and none to the new client.
pub send_node-stale :
    {A : Type 0} (h : UserHandlers A) (s : Server A) (leaver : SocketInfo)
    (others : List SocketInfo) (node : Ptr) (joiner : RecvPacketInfo) (r : A × Ptr)
    (n : SendPacketInfo) (rest : List SendPacketInfo)
    → length s.socket_send_cache ≡ length s.socket_send_list
    → 0 < sends_to leaver.socket s.socket_send_list
    → sends_to leaver.socket s.socket_send_cache ≡ 1
    → sends_to joiner.socket s.socket_send_cache ≡ 0
    → 16 ≤ length joiner.packet
    → h.v_user_create_client_node s.user ≡ ok r
    → n.send_type ≡ send_all
    → 6 ≤ length n.packet
    → ((a : Ptr) → count a (counters s.socket_send_cache) ≤ 1)
    → Returns
        (λ s'.
          Frames n.packet n.packet_length s'.s2c_orders s.socket_send_cache (send_node n rest s').1
          × (frames_to leaver.socket (send_node n rest s').1 ≡ 1)
          × (frames_to joiner.socket (send_node n rest s').1 ≡ 0))
        (create_client_node h node joiner (recv_free_client_node leaver others s))
unfolding create_client_node recv_free_client_node notice_gameplay_thread_free_client_node
    copy_array
send_node-stale h s leaver others node joiner r n rest fresh connected cached unknown long creates
      all head once =
    let entry : SocketSendInfo = record {
      socket = joiner.socket;
      s2c_packet_order_number = node;
    } in
    rw (s_memcpy-min blank_ip joiner.packet 16 16 (omega arith) (omega (arith, long)), creates)
      (returns (
        let sent =
          send_node-cached _ n rest all head
            (omega (
              arith,
              fresh,
              length-unlink_send leaver.socket s.socket_send_list connected,
              length-append (unlink_send leaver.socket s.socket_send_list) (entry ∷ []),
            ))
            once in
        (
          sent,
          frames_to-Frames leaver.socket _ _ _ s.socket_send_cache _ sent ∙ cached,
          frames_to-Frames joiner.socket _ _ _ s.socket_send_cache _ sent ∙ unknown,
        )))
