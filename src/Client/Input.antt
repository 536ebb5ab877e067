-- ===== src/Client/Input.antt =====
-- The client's NameInput, ChatInput, Shutdown, Release and Run.
pub mod Editing
pub mod Enter
use winsock_multi_thread_ser.Base.{
  ℕ, zero, suc, ◌+◌, ◌-◌, ◌%◌, Bool, true, false, Option, none, some, List, [], ◌∷◌, ◌++◌, ltb,
  ◌==◌, if◌then◌else◌, length, drop, replicate, Bytes, byte_at, Run, ok, fault, out_of_fuel, ◌>>=◌,
}
use winsock_multi_thread_ser.CString.{c_string, strcmp_equal}
use winsock_multi_thread_ser.Tool.{TimerInfo}
use winsock_multi_thread_ser.Receive.{
  Answer, got, closed, would_block, failed, write_at, packet_buffer_max,
}
use winsock_multi_thread_ser.Task.{TaskNode, v_run_task}
use winsock_multi_thread_ser.Server.{invalid_socket}
use winsock_multi_thread_ser.Client.{TcpClient, ConnectAnswers, create}
use winsock_multi_thread_ser.Client.Packets.{send_c2s_name, send_c2s_message_2, v_on_run_task}
use winsock_multi_thread_ser.Client.Recv.{recv_ex}

-- `NameInput`, where `lines` are what the calls of `fgets` read: at most 15 characters each.
name_input : List Bytes → TcpClient → Run TcpClient
name_input [] c = out_of_fuel
name_input (line ∷ lines) c = do
  name ← write_at c.name 0 (line ++ 0 ∷ [])
  text ← c_string name
  let again = name_input lines (record c { name = name })
  if byte_at name 0 == 10
      then again
      else if ltb 0 (length text)
      then (do
        cut ← write_at name (length text - 1) (0 ∷ [])
        send_c2s_name cut (length text - 1) (record c { name = cut }))
      else again

-- `buff_message` and `buff_message_length` of `ChatInput`.
pub record Chat : Type 0 where
  pub buff_message : Bytes
  pub buff_message_length : ℕ

abbrev pub blank_chat : Chat
blank_chat = record { buff_message = replicate packet_buffer_max 0; buff_message_length = 0 }

abbrev pub backspace_key_code : ℕ
backspace_key_code = 8

abbrev pub enter_key_code : ℕ
enter_key_code = 13

-- "exit"
abbrev pub exit_text : Bytes
exit_text = b'e' ∷ b'x' ∷ b'i' ∷ b't' ∷ []

-- A key other than enter: a backspace takes the last character, any other one is saved while there is
-- room.
pub edit_key : ℕ → Chat → Run Chat
unfolding write_at
edit_key ch k =
    if ch == backspace_key_code
    then (if k.buff_message_length == 0 then ok k else do
      b ← write_at k.buff_message (k.buff_message_length - 1) (0 ∷ [])
      ok (record { buff_message = b; buff_message_length = k.buff_message_length - 1 }))
    else if ltb (k.buff_message_length + 1) packet_buffer_max
    then (do
      b ← write_at k.buff_message k.buff_message_length (ch % 256 ∷ [])
      ok (record { buff_message = b; buff_message_length = k.buff_message_length + 1 }))
    else ok k

-- `Client.pAliveNode->StartTime = 0`.
abbrev pub reset_alive : List TaskNode → List TaskNode
reset_alive [] = []
reset_alive (t ∷ ts) =
    record t { timer = record { start_time = 0; end_time = t.timer.end_time } } ∷ ts

-- The enter key: "exit" ends the loop, and any other text is sent.
pub enter_key : Chat → TcpClient → Run (Chat × TcpClient × Bool)
enter_key k c =
    if strcmp_equal k.buff_message exit_text
    then ok (k, c, false)
    else if ltb 0 k.buff_message_length
    then (do
      c ← send_c2s_message_2 k.buff_message k.buff_message_length c
      ok (blank_chat, record c { tasks = reset_alive c.tasks }, true))
    else ok (k, c, true)

-- A key, if one is hit, and whether the loop goes on.
chat_key : Option ℕ → Chat → TcpClient → Run (Chat × TcpClient × Bool)
unfolding enter_key edit_key
chat_key none k c = ok (k, c, true)
chat_key (some ch) k c =
    if ch == enter_key_code then enter_key k c else do k ← edit_key ch k; ok (k, c, true)

-- `TaskManager->vRunTask` at the time `now`.
run_tasks : ℕ → TcpClient → Run TcpClient
run_tasks now c = do
  (c, tasks) ← v_run_task v_on_run_task (λ i. now) c.tasks c
  ok (record c { tasks = tasks })

-- The end of a round of `ChatInput`, and whether there is another one.
chat_network : ℕ → TcpClient → Run (TcpClient × Bool)
unfolding run_tasks
chat_network now c = do
  (c, connected) ← recv_ex c
  if connected then (do c ← run_tasks now c; ok (c, true)) else ok (c, false)

-- `ChatInput`, where each round has a key, if one is hit, and the time.
pub chat_input : List (Option ℕ × ℕ) → Chat → TcpClient → Run TcpClient
unfolding chat_key chat_network
chat_input [] k c = out_of_fuel
chat_input ((key, now) ∷ rounds) k c = do
  (k, c, stays) ← chat_key key k c
  if stays
      then (do
        (c, connected) ← chat_network now c
        if connected then chat_input rounds k c else ok c)
      else ok c

-- The last loop of `Shutdown`, over what `recv` answers.
drain : List Answer → Run (List Answer)
drain [] = out_of_fuel
drain (got bytes ∷ answers) = drain answers
drain (closed ∷ answers) = ok answers
drain (would_block ∷ answers) = ok answers
drain (failed ∷ answers) = ok answers

-- `Shutdown`, where `done` says whether `shutdown` succeeds.
pub shutdown : Bool → TcpClient → Run TcpClient
unfolding drain
shutdown done c =
    if done
    then (do answers ← drain c.recv_answers; ok (record c { recv_answers = answers }))
    else ok c

-- `Release`.
pub release : Bool → TcpClient → Run TcpClient
unfolding shutdown
release done c = do c ← shutdown done c; ok (record c { socket = invalid_socket; tasks = [] })

-- `Run`, from `Create` to `Release`; `done` is the answer of `shutdown`.
pub run : ConnectAnswers → List Bytes → List (Option ℕ × ℕ) → Bool → TcpClient → Run TcpClient
unfolding name_input chat_input release
run a lines rounds done c =
    let made = create a c in
    if made.1
    then (do c ← name_input lines made.0; c ← chat_input rounds blank_chat c; release done c)
    else release done made.0
