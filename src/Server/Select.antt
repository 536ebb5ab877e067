-- ===== src/Server/Select.antt =====
-- TCPServer.cpp: the select thread and the accept thread. What `accept`, `select` and `recv` answer
-- are arguments.
pub mod Nodes
pub mod Accept
use winsock_multi_thread_ser.Base.{
  ℕ, Bool, true, false, ◌&&◌, ◌||◌, take, List, [], ◌∷◌, ◌++◌, leb, ◌==◌, if◌then◌else◌, length,
  Bytes, Run, ok, fault, out_of_fuel, ltb, ◌>>=◌,
}
use winsock_multi_thread_ser.Receive.{
  Answer, Received, packet, bad_length, lost, waiting, receive_ex, packet_buffer_max,
}
use winsock_multi_thread_ser.Packet.{ActionType, RecvPacketInfo}
use winsock_multi_thread_ser.Server.{
  Server, SocketInfo, connection_max, close_socket, unlink_send, copy_array, blank_packet, blank_ip,
  ip_length,
}

-- What a call of `accept` brings.
pub data AcceptAnswer : Type 0 where
  connection : ℕ → Bytes → AcceptAnswer
  would_block : AcceptAnswer
  error : AcceptAnswer

-- `FD_SETSIZE` where `FD_SET` is used, and the places that the array of the system's `fd_set` has.
abbrev pub fd_setsize : ℕ
fd_setsize = 1000

abbrev pub fd_array_size : ℕ
fd_array_size = 64

-- The sockets of the receive list.
abbrev pub sockets : List SocketInfo → List ℕ
sockets [] = []
sockets (n ∷ ns) = n.socket ∷ sockets ns

abbrev pub contains : List ℕ → ℕ → Bool
contains [] x = false
contains (y ∷ ys) x = y == x || contains ys x

-- `FD_SET`: a socket that is not in the set is put behind the others while there are fewer than
-- `FD_SETSIZE`. Behind the array, that is undefined.
abbrev pub fd_set : ℕ → List ℕ → Run (List ℕ)
fd_set socket fds =
    if contains fds socket
    then ok fds
    else if ltb (length fds) fd_setsize
    then (if ltb (length fds) fd_array_size then ok (fds ++ socket ∷ []) else fault)
    else ok fds

abbrev pub fd_sets : List ℕ → List ℕ → Run (List ℕ)
fd_sets [] fds = ok fds
fd_sets (socket ∷ more) fds = do fds ← fd_set socket fds; fd_sets more fds

-- `FD_ISSET` behind `select`: the socket was put into the set, and `select` left it there.
abbrev pub fd_isset : List ℕ → (ℕ → Bool) → ℕ → Bool
fd_isset fds ready socket = contains fds socket && ready socket

module _ {A : Type 0} where
  -- `PacketRecvList.LockLink` and `GameplayThread.Awake`.
  abbrev pub to_gameplay : RecvPacketInfo → Server A → Server A
  to_gameplay n s = record s {
    packet_recv_list = s.packet_recv_list ++ n ∷ [];
    gameplay_event = true;
  }

  -- `NoticeGameplayThreadCreateClientNode`.
  notice_gameplay_thread_create_client_node : SocketInfo → Server A → Run (Server A)
  unfolding copy_array
  notice_gameplay_thread_create_client_node accept_node s = do
    p ← copy_array blank_packet packet_buffer_max accept_node.ip ip_length
    ok (
        to_gameplay
          (record {
            action_type = ActionType.create_client;
            socket = accept_node.socket;
            packet_length = 0;
            packet = p;
          })
          s)

  -- `NoticeGameplayThreadFreeClientNode`.
  unfoldable pub notice_gameplay_thread_free_client_node : ℕ → Server A → Server A
  notice_gameplay_thread_free_client_node socket s =
      to_gameplay
        (record {
          action_type = ActionType.release_client;
          socket = socket;
          packet_length = 0;
          packet = blank_packet;
        })
        s

  -- The loop of `AcceptListCreateClientNode`, over the nodes of the accept list.
  accept_nodes : List SocketInfo → Server A → Run (Server A)
  unfolding notice_gameplay_thread_create_client_node
  accept_nodes [] s = ok (record s { accept_list = [] })
  accept_nodes (a ∷ rest) s = do
    ip ← copy_array blank_ip ip_length a.ip ip_length
    s ← notice_gameplay_thread_create_client_node a (record s {
      socket_recv_list = s.socket_recv_list ++ record { socket = a.socket; ip = ip } ∷ [];
    })
    accept_nodes rest (record s { accept_list = rest })

  pub accept_list_create_client_node : Server A → Run (Server A)
  unfolding accept_nodes
  accept_list_create_client_node s = accept_nodes s.accept_list s

  -- `RecvFreeClientNode` of a node, where `rest` is the receive list without it.
  unfoldable pub recv_free_client_node : SocketInfo → List SocketInfo → Server A → Server A
  unfolding notice_gameplay_thread_free_client_node
  recv_free_client_node n rest s = notice_gameplay_thread_free_client_node n.socket (record s {
    socket_recv_list = rest;
    socket_send_list = unlink_send n.socket s.socket_send_list;
  })

  -- What `ReceiveEx` does to the queue, and what it returns.
  after_receive : ℕ → Received → Server A → Run (Server A × Bool)
  after_receive socket (packet buffer packet_length answers) s = ok (
    to_gameplay
        (record {
          action_type = ActionType.packet;
          socket = socket;
          packet_length = packet_length;
          packet = buffer;
        })
        s,
    true,
  )
  after_receive socket (bad_length answers) s = ok (s, true)
  after_receive socket (lost answers) s = ok (s, false)
  after_receive socket waiting s = out_of_fuel

  -- The second loop of `Select_InMainThread`: `kept` are the nodes that it has passed, `ready` is
  -- `FD_ISSET`, and `answers` are what `recv` answers for each socket.
  pub receive_nodes :
      (ℕ → Bool) → (ℕ → List Answer) → List SocketInfo → List SocketInfo → Server A → Run (Server A)
  unfolding after_receive recv_free_client_node
  receive_nodes ready answers kept [] s = ok s
  receive_nodes ready answers kept (n ∷ rest) s =
      if ready n.socket
      then (do
        r ← receive_ex (answers n.socket) blank_packet
        (s', stays) ← after_receive n.socket r s
        if stays
            then receive_nodes ready answers (kept ++ n ∷ []) rest s'
            else receive_nodes ready answers kept rest (recv_free_client_node n (kept ++ rest) s'))
      else receive_nodes ready answers (kept ++ n ∷ []) rest s

  -- One round of `Select_InMainThread`. `ready` are the sockets that `select` left in the set. The
  -- accept list is emptied in timer mode, a new connection wakes the accept thread, and all ready
  -- sockets are read.
  pub select_in_main_thread : (ℕ → Bool) → (ℕ → List Answer) → Server A → Run (Server A)
  unfolding accept_list_create_client_node receive_nodes
  select_in_main_thread ready answers s = do
    fds ← fd_sets (s.listen_socket ∷ sockets s.socket_recv_list) []
    s ← if s.select_time_mode_flag then accept_list_create_client_node s else ok s
    let s' : Server A =
        (if fd_isset fds ready s.listen_socket
          then record s { select_time_mode_flag = true; accept_event = true }
          else s)
    receive_nodes (fd_isset fds ready) answers [] s'.socket_recv_list s'

  -- One round of the inner loop of `Accept_InThread`, and whether the loop goes on. A connection is
  -- refused while the client list is full.
  pub accept_in_thread : AcceptAnswer → Server A → Server A × Bool
  accept_in_thread (connection socket ip) s =
      if leb connection_max (length s.client_list)
      then (record s { closed = (close_socket socket s.closed).1 }, true)
      else (
        record s { accept_list = s.accept_list ++ record { socket = socket; ip = ip } ∷ [] },
        true,
      )
  accept_in_thread would_block s =
      if length s.accept_list == 0
      then (record s { select_time_mode_flag = false }, false)
      else (s, true)
  accept_in_thread error s = (s, false)
