-- ===== src/Examples/Waits.antt =====
-- A test of the wait events: a second node is linked while the worker is woken for the first.
use winsock_multi_thread_ser.Base.{◌<◌, refl, arith}
use winsock_multi_thread_ser.WaitEvent.{
  Worker, created, lock_link, awake, work, Reached, start, links, awakes, works, work_at,
  work-pending,
}

abbrev twice : Worker
twice = awake (lock_link (work (awake (lock_link created))))

twice-Reached : Reached twice
unfolding lock_link awake work work_at
twice-Reached = awakes (omega arith) (links (works (awakes (omega arith) (links start))))

work-pending_example : (work (work (work twice))).pending < 2
unfolding lock_link awake work work_at
work-pending_example = work-pending twice-Reached (omega arith) refl
