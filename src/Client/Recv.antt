-- ===== src/Client/Recv.antt =====
-- The client's RecvEx: the header is received over as many calls as it takes, the rest in one call.
pub mod Calls
use winsock_multi_thread_ser.Base.{
  ℕ, zero, suc, ◌+◌, ◌-◌, Bool, true, false, ◌&&◌, List, [], ◌∷◌, ◌++◌, ltb, leb, ◌==◌,
  if◌then◌else◌, length, replicate, Bytes, inc16, Run, ok, fault, out_of_fuel, ◌>>=◌,
}
use winsock_multi_thread_ser.CString.{c_string}
use winsock_multi_thread_ser.Receive
use winsock_multi_thread_ser.Receive.{
  Answer, got, closed, would_block, failed, write_at, receive_loop, Loop, complete, disconnect,
  pending, packet_length_of, packet_length_size,
}
use winsock_multi_thread_ser.Packet.{head_of, buffer_of}
use winsock_multi_thread_ser.Client.{TcpClient, Shown, packet_buffer_size}

-- Where the first loop ends: with the header, with an error or the end of the connection, without
-- further data for now, or in a call of `recv` that no answer is given for.
pub data HeaderLoop : Type 0 where
  header : TcpClient → HeaderLoop
  broken : TcpClient → HeaderLoop
  nothing : TcpClient → HeaderLoop
  unanswered : HeaderLoop

-- `ClearRecvPacketInfo`.
unfoldable pub clear_recv_packet_info : TcpClient → TcpClient
clear_recv_packet_info c = record c {
  recv_packet = replicate packet_buffer_size 0;
  recv_packet_length = packet_length_size;
  recv_packet_buffer_index = 0;
}

-- The first loop, at `recv_packet_length` and the answers of `recv`.
unfoldable pub header_loop : List Answer → ℕ → TcpClient → Run HeaderLoop
unfolding write_at
header_loop answers zero c =
    ok (header (record c { recv_packet_length = 0; recv_answers = answers }))
header_loop [] (suc max) c = ok unanswered
header_loop (got bytes ∷ answers) (suc max) c =
    if ltb 0 (length bytes) && leb (length bytes) (suc max)
    then (do
      b ← write_at c.recv_packet c.recv_packet_buffer_index bytes
      header_loop answers (suc max - length bytes) (record c {
        recv_packet = b;
        recv_packet_buffer_index = c.recv_packet_buffer_index + length bytes;
      }))
    else fault
header_loop (closed ∷ answers) (suc max) c =
    ok (broken (record c { recv_packet_length = suc max; recv_answers = answers }))
header_loop (would_block ∷ answers) (suc max) c =
    ok (nothing (record c { recv_packet_length = suc max; recv_answers = answers }))
header_loop (failed ∷ answers) (suc max) c =
    ok (broken (record c { recv_packet_length = suc max; recv_answers = answers }))

-- The end of `RecvEx`: the packet is printed.
unfoldable pub show_packet : TcpClient → Run TcpClient
unfolding c_string clear_recv_packet_info
show_packet c = do
  let order = inc16 c.s2c_packet_order_number
  text ← c_string (buffer_of c.recv_packet)
  ok (
      clear_recv_packet_info (record c {
        s2c_packet_order_number = order;
        shown =
            c.shown
            ++ record {
              text = text;
              packet_length = c.recv_packet_buffer_index;
              in_order = (head_of c.recv_packet).packet_order_number == order;
            }
              ∷ [];
      }))

-- Behind the second loop, which is that of the server's `ReceiveEx`.
unfoldable pub after_rest : TcpClient → Loop → Run (TcpClient × Bool)
unfolding show_packet
after_rest c (complete buffer index retry answers) = do
  c ←
      show_packet (record c {
        recv_packet = buffer;
        recv_packet_buffer_index = index;
        recv_answers = answers;
      })
  ok (c, true)
after_rest c (disconnect answers) =
    ok (clear_recv_packet_info (record c { recv_answers = answers }), false)
after_rest c pending = out_of_fuel

-- What `RecvEx` does behind the first loop. `PacketLength - PACKET_LENGTH_SIZE` is an `int`: below 0
-- the second loop is skipped, as at 0.
unfoldable pub after_header : HeaderLoop → Run (TcpClient × Bool)
unfolding after_rest
after_header (header c) = do
  r ←
      receive_loop c.recv_answers (packet_length_of c.recv_packet - packet_length_size)
        c.recv_packet_buffer_index 0 c.recv_packet
  after_rest c r
after_header (broken c) = ok (c, false)
after_header (nothing c) = ok (c, true)
after_header unanswered = out_of_fuel

-- `RecvEx`, and what it returns.
unfoldable pub recv_ex : TcpClient → Run (TcpClient × Bool)
unfolding header_loop after_header
recv_ex c = do r ← header_loop c.recv_answers c.recv_packet_length c; after_header r

-- The calls of `RecvEx` in the rounds of `ChatInput`, until one returns `false`.
unfoldable pub recv_calls : ℕ → TcpClient → Run (TcpClient × Bool)
recv_calls zero c = ok (c, true)
recv_calls (suc n) c = do (c, stays) ← recv_ex c; if stays then recv_calls n c else ok (c, false)
