-- ===== src/Client/Input/Enter.antt =====
-- What the enter key makes of the line that is typed.
use winsock_multi_thread_ser.Base.{
  ℕ, suc, ◌+◌, ◌-◌, ◌≤◌, ◌<◌, ◌≡◌, ◌≢◌, ◌↔◌, refl, ap, ◌∙◌, true, false, List, ◌∷◌, ◌++◌, arith,
  ltb, le→ltb, length, replicate, Bytes, count, ok, fault,
}
use winsock_multi_thread_ser.CString.{c_string-append, strcmp_equal, strcpy_s}
use winsock_multi_thread_ser.Receive.{packet_buffer_max}
use winsock_multi_thread_ser.Send
use winsock_multi_thread_ser.Send.{send_retry_max}
use winsock_multi_thread_ser.Send.Complete.{Takes}
use winsock_multi_thread_ser.Packet.{head_size, message_buffer_max, packet_c2s_message_2}
use winsock_multi_thread_ser.Client.{TcpClient}
use winsock_multi_thread_ser.Client.Packets.{send_text, send_c2s_message_2}
use winsock_multi_thread_ser.Client.Packets.Delivered.{wire, sent, send_text-wire}
use winsock_multi_thread_ser.Client.Input.{Chat, blank_chat, enter_key, exit_text}
use winsock_multi_thread_ser.Task.{TaskNode}
use winsock_multi_thread_ser.Tool.{TimerInfo, s_delay_time}
use winsock_multi_thread_ser.Tool.Timer.{s_delay_time-armed}
use winsock_multi_thread_ser.Client.Input.Editing.{Holds}

Holds-zero :
    (text : Bytes) (k : Chat)
    → Holds text k
    → k.buff_message ≡ text ++ 0 ∷ replicate (packet_buffer_max - length text - 1) 0
Holds-zero text k v =
    let left : packet_buffer_max - length text ≡ suc (packet_buffer_max - length text - 1) =
      omega (arith, v.room) in
    v.buff ∙ ap (λ j. text ++ replicate j 0) left

-- Enter sends the line: where it has 1 to 127 characters, none of them zero, and is not "exit", the
-- first task has a delay, and `send` takes all bytes in any pieces, with fewer than 5000 times
-- `WSAEWOULDBLOCK` in between, the socket gets the packet of the line with the next order number,
-- the line is blank again, the timer of the first task, which is the heartbeat, is stopped, the
-- other tasks stay, and the loop goes on. The stopped timer does not fire at its next poll, at a
-- time `first` that is not 0, and fires at the one behind that, at `second`, just when the delay
-- has passed since `first`.
pub enter_key-sent :
    {i : ℕ} {rest : List Send.Answer} (text : Bytes) (k : Chat) (c : TcpClient) (alive : TaskNode)
    (more : List TaskNode) (first second : ℕ)
    → c.tasks ≡ alive ∷ more
    → alive.delay_time ≢ 0
    → first ≢ 0
    → Holds text k
    → 0 < length text
    → length text < message_buffer_max
    → count 0 text ≡ 0
    → strcmp_equal k.buff_message exit_text ≡ false
    → Takes (head_size + length text) c.send_answers rest i
    → i < send_retry_max
    → let stopped : TimerInfo = record { start_time = 0; end_time = alive.timer.end_time } in
      (enter_key k c
        ≡ ok (
          blank_chat,
          record (sent (wire packet_c2s_message_2 text c) rest c) {
            tasks = record alive { timer = stopped } ∷ more;
          },
          true,
        ))
      × ((s_delay_time first stopped alive.delay_time).0 ≡ false)
      × (((s_delay_time second (s_delay_time first stopped alive.delay_time).1 alive.delay_time).0
            ≡ true)
          ↔ (first + alive.delay_time ≤ second))
unfolding enter_key send_c2s_message_2
enter_key-sent {rest} text k c alive more first second tasks delay run v some short no_zero go t
      few =
    let typed : ltb 0 k.buff_message_length ≡ true = ground (arith, v.size, some) in
    let stopped : TimerInfo = record { start_time = 0; end_time = alive.timer.end_time } in
    let armed = s_delay_time-armed alive.delay_time first second stopped delay run refl in
    (
      rw (go, typed, Holds-zero text k v, v.size)
          (rw
            (
              send_text-wire packet_c2s_message_2 message_buffer_max text
                  (replicate (packet_buffer_max - length text - 1) 0) c no_zero short (omega arith)
                  t few,
              tasks,
            )
            refl),
      armed.0,
      armed.1,
    )

-- A typed line of 128 characters or more, none of them zero, that is not "exit": enter ends the
-- client, since `strcpy_s` finds no room in the 128 bytes of the packet.
pub enter_key-too_long :
    (text : Bytes) (k : Chat) (c : TcpClient)
    → Holds text k
    → message_buffer_max ≤ length text
    → count 0 text ≡ 0
    → strcmp_equal k.buff_message exit_text ≡ false
    → enter_key k c ≡ fault
unfolding enter_key send_c2s_message_2 send_text strcpy_s
enter_key-too_long text k c v long no_zero go =
    let typed : ltb 0 k.buff_message_length ≡ true = ground (arith, v.size, long) in
    let no_room : ltb (length text) message_buffer_max ≡ false = le→ltb _ _ long in
    rw
      (
        go,
        typed,
        Holds-zero text k v,
        v.size,
        c_string-append text (replicate (packet_buffer_max - length text - 1) 0) no_zero,
        no_room,
      )
      refl
