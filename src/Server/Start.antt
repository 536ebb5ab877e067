-- ===== src/Server/Start.antt =====
-- TCPServer.cpp: Create and CreateWinsock. What Winsock and `new` answer are arguments.
use winsock_multi_thread_ser.Base.{
  ℕ, ◌*◌, ◌≡◌, ◌≢◌, ◌↔◌, Bool, true, false, not, [], arith, ◌==◌, ◌||◌, if◌then◌else◌, Ptr,
}
use winsock_multi_thread_ser.Memory.{MemoryPool, s_memory_pool_create}
use winsock_multi_thread_ser.Server.{Server, invalid_socket}

-- The result of `WSAStartup`, the socket, and whether `bind`, `listen` and `ioctlsocket` succeed.
pub record WinsockAnswers : Type 0 where
  pub startup : ℕ
  pub socket : ℕ
  pub bound : Bool
  pub listening : Bool
  pub non_blocking : Bool

-- `CreateWinsock`: what it returns, and `ListenSocket` behind it.
pub create_winsock : WinsockAnswers → ℕ → Bool × ℕ
create_winsock a listen_socket =
    if not (a.startup == 0)
    then (false, listen_socket)
    else if a.socket == invalid_socket
    then (false, a.socket)
    else if not a.bound
    then (false, a.socket)
    else if not a.listening
    then (false, a.socket)
    else if not a.non_blocking
    then (false, a.socket)
    else (true, a.socket)

-- `100 * MB`.
abbrev pub memory_pool_bytes_max : ℕ
memory_pool_bytes_max = 100 * (1024 * 1024)

module _ {A : Type 0} where
  -- The lists and flags when all is created.
  abbrev pub started : Server A → Server A
  started s = record s {
    accept_list = [];
    socket_recv_list = [];
    socket_send_list = [];
    packet_recv_list = [];
    packet_send_list = [];
    client_list = [];
    run_flag = true;
  }

  -- `Create`: what it returns, the pool, and the server. The events of the threads are not set.
  pub create : Ptr → WinsockAnswers → MemoryPool → Server A → Bool × MemoryPool × Server A
  unfolding create_winsock
  create new_buffer a pool s =
      let pool' = (s_memory_pool_create new_buffer memory_pool_bytes_max pool).0 in
      let w = create_winsock a s.listen_socket in
      let opened : Server A = record s { listen_socket = w.1 } in
      if w.0 then (true, pool', started opened) else (false, pool', opened)

  -- `Create` succeeds exactly if each of the five calls of Winsock does; the server runs behind it if
  -- it succeeded or ran before, and only then the client list is emptied.
  pub create-run_flag :
      (new_buffer : Ptr) (a : WinsockAnswers) (pool : MemoryPool) (s : Server A)
      → (((create new_buffer a pool s).0 ≡ true) ↔ (
          (a.startup ≡ 0)
          × (a.socket ≢ invalid_socket)
          × (a.bound ≡ true)
          × (a.listening ≡ true)
          × (a.non_blocking ≡ true)))
        × ((create new_buffer a pool s).2.run_flag ≡ ((create new_buffer a pool s).0 || s.run_flag))
        × ((create new_buffer a pool s).2.client_list
            ≡ (if (create new_buffer a pool s).0 then [] else s.client_list))
  unfolding create create_winsock
  create-run_flag new_buffer a pool s = (ground arith, ground arith, ground arith)
