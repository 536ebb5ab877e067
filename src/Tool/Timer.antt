-- ===== src/Tool/Timer.antt =====
-- How the polled timer fires.
use winsock_multi_thread_ser.Base.{
  ℕ, ◌+◌, ◌≤◌, ◌≡◌, ◌≢◌, ◌↔◌, true, false, List, [], ◌∷◌, arith, if◌then◌else◌,
}
use winsock_multi_thread_ser.Tool.{TimerInfo, s_delay_time}

-- Polls of one timer at the given times: the timer after the last, and the times at which it fired.
pub polls : ℕ → TimerInfo → List ℕ → List ℕ
polls delay t [] = []
polls delay t (now ∷ rest) =
    let r = s_delay_time now t delay in
    let later = polls delay r.1 rest in if r.0 then now ∷ later else later

-- Two firings in a row are at least `delay` apart.
abbrev pub Spaced : ℕ → ℕ → List ℕ → Type 0
Spaced delay last [] = Unit {0}
Spaced delay last (t ∷ ts) = (last + delay ≤ t) × Spaced delay t ts

-- No poll is at time 0, at which the code takes a running timer for a stopped one.
abbrev pub NonZero : List ℕ → Type 0
NonZero [] = Unit {0}
NonZero (t ∷ ts) = (t ≢ 0) × NonZero ts

-- Once a timer with a delay runs, it fires only when the delay has passed since it was armed, and
-- after that only when the delay has passed since it fired last, whatever the times of the polls
-- are (but for the time 0).
pub polls-Spaced :
    (delay : ℕ) (t : TimerInfo) (times : List ℕ)
    → delay ≢ 0
    → t.start_time ≢ 0
    → NonZero times
    → Spaced delay t.start_time (polls delay t times)
unfolding polls s_delay_time
polls-Spaced delay t [] h s n = tt
polls-Spaced delay t (now ∷ rest) h s n = ground (
  arith,
  polls-Spaced delay (record { start_time = now; end_time = now }) rest,
  polls-Spaced delay (record t { end_time = now }) rest,
)

-- A stopped timer with a delay does not fire at its first poll: it is armed there, and the next
-- poll fires exactly when the delay has passed.
pub s_delay_time-armed :
    (delay first second : ℕ) (t : TimerInfo)
    → delay ≢ 0
    → first ≢ 0
    → t.start_time ≡ 0
    → ((s_delay_time first t delay).0 ≡ false)
      × (((s_delay_time second (s_delay_time first t delay).1 delay).0 ≡ true)
          ↔ (first + delay ≤ second))
unfolding s_delay_time
s_delay_time-armed delay first second t h f s = ground arith
