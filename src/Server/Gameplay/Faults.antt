-- ===== src/Server/Gameplay/Faults.antt =====
-- Undefined behaviour in the user's handler ends the gameplay thread of TCPServer.cpp.
use winsock_multi_thread_ser.Base.{
  ℕ, ◌≡◌, refl, true, false, some, List, ◌∷◌, ◌==◌, ==-refl, Ptr, inc16, fault,
}
use winsock_multi_thread_ser.Packet.{packet, RecvPacketInfo, head_of, packet_c2s_alive}
use winsock_multi_thread_ser.Server.{Server, SocketClient, UserHandlers, get_socket_client_node}
use winsock_multi_thread_ser.Server.Gameplay.{
  gameplay_node, gameplay_nodes, dispatch, on_packet, answer_packet,
}
use winsock_multi_thread_ser.Server.Gameplay.Leave.{GoesOn}

-- A packet with the next order number, that is no heartbeat and does not end the server, is given to
-- the user's handler.
pub gameplay_nodes-fault :
    {A : Type 0} (h : UserHandlers A) (now : ℕ) (nodes : ℕ → Ptr) (c : SocketClient)
    (n : RecvPacketInfo) (rest : List RecvPacketInfo) (s : Server A)
    → n.action_type ≡ packet
    → GoesOn n
    → get_socket_client_node n.socket s.client_list ≡ some c
    → (head_of n.packet).packet_order_number ≡ inc16 c.c2s_packet_order_number
    → ((head_of n.packet).packet_type == packet_c2s_alive) ≡ false
    → h.v_on_gameplay_receive_packet c.user_data c.socket n.packet s.user ≡ fault
    → gameplay_nodes h now nodes (n ∷ rest) s ≡ fault
unfolding gameplay_nodes gameplay_node dispatch on_packet answer_packet
gameplay_nodes-fault h now nodes c n rest s is_packet goes found next spoken fails =
    let ok : ((head_of n.packet).packet_order_number == inc16 c.c2s_packet_order_number) ≡ true =
      rw next (==-refl (inc16 c.c2s_packet_order_number)) in
    rw (goes, is_packet, found, ok, spoken, fails) refl
