-- ===== src/Tool.antt =====
-- MintServer/src/MTLibrary/Tool.cpp: the bounded copy and the polled timer. A buffer is the list of
-- its bytes, a null pointer is `none`, and the clock's answer is an argument.
pub mod Copy
pub mod Timer
use winsock_multi_thread_ser.Base.{
  ℕ, ◌+◌, Bool, true, false, not, ◌&&◌, ◌||◌, Option, none, some, List, ◌++◌, leb, ltb, ◌==◌,
  if◌then◌else◌, length, take, drop, Bytes, Run, ok, fault, ◌>>=◌,
}

-- The C library's `memcpy`: a read or a write outside the buffers is undefined.
pub memcpy : Bytes → Bytes → ℕ → Run Bytes
memcpy dest src n =
    if leb n (length dest) && leb n (length src) then ok (take n src ++ drop n dest) else fault

-- `Tool::sMemcpy`: the new contents of the destination.
pub s_memcpy : Option Bytes → ℕ → Option Bytes → ℕ → Run (Option Bytes)
unfolding memcpy
s_memcpy none dest_buff_length src_buff src_buff_length = ok none
s_memcpy (some dest) dest_buff_length none src_buff_length = ok (some dest)
s_memcpy (some dest) dest_buff_length (some src) src_buff_length =
    if ltb dest_buff_length src_buff_length
    then (do d ← memcpy dest src dest_buff_length; ok (some d))
    else (do d ← memcpy dest src src_buff_length; ok (some d))

-- The two times that a caller of `Tool::sDelayTime` keeps, in milliseconds.
pub record TimerInfo : Type 0 where
  pub start_time : ℕ
  pub end_time : ℕ

-- `Tool::sDelayTime`. `now` is what `timeGetTime` returns. The difference is taken in 64 signed
-- bits, so it is at least the delay exactly when `start_time + delay_time <= now`.
unfoldable pub s_delay_time : ℕ → TimerInfo → ℕ → Bool × TimerInfo
s_delay_time now t delay_time =
    if t.start_time == 0
    then (if delay_time == 0 then (true, t) else (false, record t { start_time = now }))
    else (if leb (t.start_time + delay_time) now
        then (true, record { start_time = now; end_time = now })
        else (false, record t { end_time = now }))
