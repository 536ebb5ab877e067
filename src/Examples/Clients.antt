-- ===== src/Examples/Clients.antt =====
-- Tests of the console client, and of the gameplay thread with its packets.
use winsock_multi_thread_ser.Base.{
  ℕ, ◌-◌, ◌+◌, ◌≤◌, ◌≡◌, ◌↔◌, refl, true, false, List, [], ◌∷◌, ◌++◌, arith, length, drop,
  replicate, Bytes, ok, fault, Returns,
}
use winsock_multi_thread_ser.CString.{c_string, strcmp_equal}
use winsock_multi_thread_ser.Receive
use winsock_multi_thread_ser.Receive.{got, would_block, receive_ex}
use winsock_multi_thread_ser.Receive.Delivery.{Delivers, all, piece, wait}
use winsock_multi_thread_ser.Send
use winsock_multi_thread_ser.Send.Complete.{Takes}
use winsock_multi_thread_ser.Packet.{
  HeadPacketInfo, head_bytes, word, head_of, buffer_of, packet_c2s_message_2,
}
use winsock_multi_thread_ser.Server.{blank_packet}
use winsock_multi_thread_ser.Client.{TcpClient, new_client}
use winsock_multi_thread_ser.Client.Packets.{send_text}
use winsock_multi_thread_ser.Client.Packets.Delivered.{text_head, wire, sent, send_text-receive_ex}
use winsock_multi_thread_ser.Client.Recv.{recv_calls, clear_recv_packet_info}
use winsock_multi_thread_ser.Client.Recv.Calls.{recv_calls-Shown}
use winsock_multi_thread_ser.Client.Input.{Chat, blank_chat, enter_key}
use winsock_multi_thread_ser.Task.{TaskNode}
use winsock_multi_thread_ser.Tool.{s_delay_time}
use winsock_multi_thread_ser.Client.Input.Editing.{Holds, edit_keys, edit_keys-Holds}
use winsock_multi_thread_ser.Client.Input.Enter.{enter_key-sent, enter_key-too_long}

-- `send` takes five bytes, has no room, and takes three.
abbrev sends : List Send.Answer
sends = Send.took 5 ∷ Send.would_block ∷ Send.took 3 ∷ []

sends-Takes : Takes 8 sends [] 1
sends-Takes =
    Takes.piece 5 (omega arith) (Takes.wait (omega arith) (Takes.piece 3 (omega arith) Takes.all))

-- "hi", as the third packet of a client.
abbrev hi : Bytes
hi = 104 ∷ 105 ∷ []

abbrev client : TcpClient
client = record (new_client sends []) { c2s_packet_order_number = 2 }

-- The packet is received as one byte, a wait, a byte, and the rest.
abbrev body : List Receive.Answer
body = got (3 ∷ 0 ∷ 3 ∷ 0 ∷ 104 ∷ 105 ∷ []) ∷ []

abbrev pieces : List Receive.Answer
pieces = got (8 ∷ []) ∷ would_block ∷ got (0 ∷ []) ∷ body

head-Delivers : Delivers 2 (8 ∷ 0 ∷ []) pieces body 1
head-Delivers = piece (8 ∷ []) (omega arith) (wait (omega arith) (piece (0 ∷ []) (omega arith) all))

body-Delivers : Delivers 6 (3 ∷ 0 ∷ 3 ∷ 0 ∷ 104 ∷ 105 ∷ []) body [] 0
body-Delivers = piece (3 ∷ 0 ∷ 3 ∷ 0 ∷ 104 ∷ 105 ∷ []) (omega arith) all

send_text-receive_ex_example :
    (send_text 3 128 (104 ∷ 105 ∷ 0 ∷ 7 ∷ []) 2 client ≡ ok (sent (wire 3 hi client) [] client))
    × (receive_ex pieces blank_packet
        ≡ ok (Receive.packet (wire 3 hi client ++ drop 8 blank_packet) 8 []))
    × (head_of (wire 3 hi client ++ drop 8 blank_packet) ≡ text_head 3 hi client)
    × (c_string (buffer_of (wire 3 hi client ++ drop 8 blank_packet)) ≡ ok hi)
unfolding head_bytes word
send_text-receive_ex_example =
    send_text-receive_ex 3 128 hi (7 ∷ []) client refl (omega arith) (omega arith) (omega arith)
      sends-Takes (omega arith) head-Delivers body-Delivers (omega arith)

-- The same bytes as a message of the server.
abbrev message_head : HeadPacketInfo
message_head = record { packet_length = 8; packet_type = 3; packet_order_number = 3 }

abbrev listener : TcpClient
listener = record (new_client [] []) { s2c_packet_order_number = 2 }

recv_calls-Shown_example :
    recv_calls 2 (clear_recv_packet_info (record listener { recv_answers = pieces }))
    ≡ ok (
      clear_recv_packet_info (record listener {
        recv_answers = [];
        s2c_packet_order_number = 3;
        shown = record { text = hi; packet_length = 8; in_order = true } ∷ [];
      }),
      true,
    )
unfolding head_bytes word
recv_calls-Shown_example =
    recv_calls-Shown message_head hi listener refl (omega arith) (omega arith) (omega arith) refl
      head-Delivers body-Delivers (omega arith)

-- "a", a backspace, another backspace, "h", "i".
blank-Holds : Holds [] blank_chat
blank-Holds = record { buff = refl; size = refl; room = omega arith }

edit_keys-Holds_example : Returns (Holds hi) (edit_keys (97 ∷ 8 ∷ 8 ∷ 104 ∷ 105 ∷ []) blank_chat)
edit_keys-Holds_example = edit_keys-Holds (97 ∷ 8 ∷ 8 ∷ 104 ∷ 105 ∷ []) [] blank_chat blank-Holds

abbrev typed : Bytes → Chat
typed text = record {
  buff_message = text ++ replicate (512 - length text) 0;
  buff_message_length = length text;
}

-- The task of the heartbeat, armed at some time.
abbrev heartbeat : ℕ → TaskNode
heartbeat start = record {
  task_number = 1;
  delay_time = 30000;
  run_count = 0;
  user_data = 0;
  timer = record { start_time = start; end_time = 80000 };
}

enter_key-sent_example :
    (enter_key (typed hi) (record client { tasks = heartbeat 70000 ∷ [] })
      ≡ ok (
        blank_chat,
        record (sent
            (wire packet_c2s_message_2 hi client)
            []
            (record client { tasks = heartbeat 70000 ∷ [] })) { tasks = heartbeat 0 ∷ [] },
        true,
      ))
    × ((s_delay_time 90000 (heartbeat 0).timer 30000).0 ≡ false)
    × (((s_delay_time 120000 (s_delay_time 90000 (heartbeat 0).timer 30000).1 30000).0 ≡ true)
        ↔ (90000 + 30000 ≤ 120000))
unfolding strcmp_equal
enter_key-sent_example =
    enter_key-sent hi (typed hi) (record client { tasks = heartbeat 70000 ∷ [] }) (heartbeat 70000)
      [] 90000 120000 refl (omega arith) (omega arith)
      (record { buff = refl; size = refl; room = omega arith }) (omega arith) (omega arith) refl
      refl sends-Takes (omega arith)

abbrev long : Bytes
long = replicate 200 97

enter_key-too_long_example : enter_key (typed long) client ≡ fault
unfolding strcmp_equal
enter_key-too_long_example =
    enter_key-too_long long (typed long) client
      (record { buff = refl; size = refl; room = omega arith }) (omega arith) refl refl
