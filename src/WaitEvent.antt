-- ===== src/WaitEvent.antt =====
-- MintServer/src/MTLibrary/WaitEvent.cpp, and the loops of TCPServer.cpp that wait: a worker thread
-- with its event and its queue, and the threads that link nodes for it. The event is reset by hand.
use winsock_multi_thread_ser.Base.{
  ℕ, ◌+◌, ◌-◌, ◌≤◌, ◌<◌, ◌≡◌, refl, inl, inr, ◌⊎◌, Bool, true, false, arith, ◌==◌, if◌then◌else◌,
  Bool-cases,
}

-- Where the worker is: in `WaitForSingleObject`, in front of `ResetEvent`, or in its inner loop.
pub data Place : Type 0 where
  waiting : Place
  woken : Place
  draining : Place

-- `in_flight` counts the threads that have linked a node and not called `Awake` yet.
pub record Worker : Type 0 where
  pub place : Place
  pub event : Bool
  pub pending : ℕ
  pub in_flight : ℕ

abbrev pub created : Worker
created = record { place = waiting; event = false; pending = 0; in_flight = 0 }

-- `LockLink` and `Awake` of another thread.
unfoldable pub lock_link : Worker → Worker
lock_link w = record w { pending = w.pending + 1; in_flight = w.in_flight + 1 }

unfoldable pub awake : Worker → Worker
awake w = record w { event = true; in_flight = w.in_flight - 1 }

-- The next step of the worker: `WaitForSingleObject` returns if the event is set, `ResetEvent`, and
-- a round of the inner loop, which takes a node or ends.
unfoldable pub work_at : Place → Worker → Worker
work_at waiting w = if w.event then record w { place = woken } else w
work_at woken w = record w { place = draining; event = false }
work_at draining w =
    if w.pending == 0 then record w { place = waiting } else record w { pending = w.pending - 1 }

unfoldable pub work : Worker → Worker
unfolding work_at
work w = work_at w.place w

-- The worker and the others take turns in any order.
pub data Reached : Worker → Type 0 where
  start : Reached created
  links : {w : Worker} → Reached w → Reached (lock_link w)
  awakes : {w : Worker} → 0 < w.in_flight → Reached w → Reached (awake w)
  works : {w : Worker} → Reached w → Reached (work w)

-- What a worker that waits can rely on.
abbrev Rouses : Place → Worker → Type 0
Rouses waiting w = 0 < w.pending → (w.event ≡ true) ⊎ (0 < w.in_flight)
Rouses woken w = Unit {0}
Rouses draining w = Unit {0}

work-Rouses :
    (p : Place) (w : Worker) → w.place ≡ p → Rouses p w → Rouses (work_at p w).place (work_at p w)
unfolding work_at
work-Rouses waiting w e r = elim (Bool-cases w.event) [
  | inl on ↦ rw on tt
  | inr off ↦ rw (off, e) (λ some. ground (arith, r some))
]
work-Rouses woken w e r = tt
work-Rouses draining w e r = elim (Bool-cases (w.pending == 0)) [
  | inl none ↦ rw none (λ some. absurd (ground (arith, none, some)))
  | inr more ↦ rw (more, e) tt
]

link-Rouses : (p : Place) (w : Worker) → Rouses p (lock_link w)
unfolding lock_link
link-Rouses waiting w = λ some. inr (omega arith)
link-Rouses woken w = tt
link-Rouses draining w = tt

awake-Rouses : (p : Place) (w : Worker) → Rouses p (awake w)
unfolding awake
awake-Rouses waiting w = λ some. inl refl
awake-Rouses woken w = tt
awake-Rouses draining w = tt

Reached-Rouses : {w : Worker} → Reached w → Rouses w.place w
unfolding lock_link awake work
Reached-Rouses start = λ some. absurd (omega (arith, some))
Reached-Rouses (links {w} r) = link-Rouses w.place w
Reached-Rouses (awakes {w} some r) = awake-Rouses w.place w
Reached-Rouses (works {w} r) = work-Rouses w.place w refl (Reached-Rouses r)

work_at-le : (p : Place) (w : Worker) → (work_at p w).pending ≤ w.pending
unfolding work_at
work_at-le waiting w = ground arith
work_at-le woken w = omega arith
work_at-le draining w = ground arith

three-lower :
    (p : Place) (w : Worker)
    → w.place ≡ p
    → Rouses p w
    → 0 < w.pending
    → w.in_flight ≡ 0
    → (work (work (work w))).pending < w.pending
unfolding work work_at
three-lower waiting w e r some quiet =
    let on : w.event ≡ true = ground (arith, r some, quiet) in
    let more : (w.pending == 0) ≡ false = ground (arith, some) in
    rw (e, on, more) (omega (arith, some))
three-lower woken w e r some quiet =
    let more : (w.pending == 0) ≡ false = ground (arith, some) in
    rw (e, more) (ground (arith, some))
three-lower draining w e r some quiet =
    let more : (w.pending == 0) ≡ false = ground (arith, some) in
    let first : (work w).pending < w.pending = rw (e, more) (omega (arith, some)) in
    omega (
      arith,
      first,
      work_at-le (work w).place (work w),
      work_at-le (work (work w)).place (work (work w)),
    )

-- No wake-up is lost, whatever the order in which the threads take turns: as soon as each thread
-- that has linked a node has also called `Awake`, three steps of the worker alone take at least one
-- node from a queue that is not empty.
pub work-pending :
    {w : Worker}
    → Reached w
    → 0 < w.pending
    → w.in_flight ≡ 0
    → (work (work (work w))).pending < w.pending
work-pending {w} r some quiet = three-lower w.place w refl (Reached-Rouses r) some quiet
