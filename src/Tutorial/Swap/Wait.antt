-- ===== src/Tutorial/Swap/Wait.antt =====
-- `Wait` of the swap program: when it is over, and what the values of the players are then.
use mathlib.Core.Path.{subst}
use winsock_multi_thread_ser.Base.{
  ℕ, ◌+◌, ◌-◌, ◌*◌, ◌%◌, ◌^◌, ◌<◌, ◌≤◌, ◌≡◌, refl, ap, inl, inr, true, false, ==-eq, ==-refl,
  Option-cases, none, List, [], arith, length, total-zero,
}
use winsock_multi_thread_ser.Tutorial.Threads.{Action, schedule}
use winsock_multi_thread_ser.Tutorial.Swap.{created, create_pool, wait}
use winsock_multi_thread_ser.Tutorial.Held.{Keeps, started-Held}
use winsock_multi_thread_ser.Tutorial.Moves.{holder-left}
use winsock_multi_thread_ser.Tutorial.Gate.{Behind, Behind-fresh, gated-Moves}
use winsock_multi_thread_ser.Tutorial.Sections.Schedule.{sections-settled}
use winsock_multi_thread_ser.Tutorial.Sections.{Sound, sections, to_enter}
use winsock_multi_thread_ser.Tutorial.Pool.{
  pool_of, pool-all, pool-quiet, pool-total, pool-ended, counted-ended, ended-counted,
}
use winsock_multi_thread_ser.Tutorial.Fair.{AreRounds, in_rounds}
use winsock_multi_thread_ser.Tutorial.Swap.Safe.{Swapped, IsSwap, Swap, IsSwap-Swap}

module _ (pool : ℕ) (f : ℕ → List Action) (swaps : (t : ℕ) → IsSwap (f t)) where
  swap : (t : ℕ) → Swap pool (f t)
  swap t = IsSwap-Swap pool (f t) (swaps t)

  pool-Keeps : (t : ℕ) → Keeps (Behind 0) [] (pool_of pool f t)
  pool-Keeps = pool-all pool f (Keeps (Behind 0) []) refl (λ t. (swap t).keeps)

  -- The section is free when all threads have ended.
  ended-free :
      (ts : List ℕ)
      → ((t : ℕ) → (schedule ts (create_pool pool f)).left t ≡ [])
      → (schedule ts (create_pool pool f)).holder 0 ≡ none
  ended-free ts over =
      let w = schedule ts (create_pool pool f) in
      let (held, v) =
        started-Held (Behind 0) (Behind-fresh 0) ts created (pool_of pool f) pool-Keeps in
      elim (Option-cases (w.holder 0)) [
        | inl free ↦ free
        | inr (h, e) ↦ absurd ((holder-left (Behind 0) held w v 0 h e).1 (over h.thread))
      ]

  created-Swapped : Swapped pool pool created
  unfolding created
  created-Swapped = (omega arith, omega arith)

  -- `Wait` returns only when all threads have ended, in whatever order they have gone on. Then the
  -- players have each other's values if the number of threads, below 2 ^ 32, is odd, and their own
  -- ones if it is even. Each thread is one of the three that swap under `BigLocker`.
  pub wait-Swapped :
      (ts : List ℕ)
      → pool < 2 ^ 32
      → wait pool (schedule ts (create_pool pool f)) ≡ true
      → let w = schedule ts (create_pool pool f) in
        ((t : ℕ) → w.left t ≡ [])
        × (w.cells.shared 0 ≡ 1 + pool % 2)
        × (w.cells.shared 1 ≡ 2 - pool % 2)
  unfolding wait
  wait-Swapped ts most waited =
      let w = schedule ts (create_pool pool f) in
      let over =
        counted-ended pool f most (λ t. (swap t).counts) (λ t. (swap t).last) created ts
          (==-eq w.end_counter pool waited) in
      let none_left : to_enter (Swapped pool) pool w ≡ 0 =
        total-zero pool (λ t. sections (w.left t)) (λ t l. ap sections (over t)) in
      let values : Swapped pool 0 w.cells =
        subst (λ m. Swapped pool m w.cells) none_left
          (sections-settled (Swapped pool) pool ts created (pool_of pool f)
            (pool-all pool f (Sound (Swapped pool) false) tt (λ t. (swap t).sound))
            (pool-quiet pool f)
            (rw (pool-total pool f sections (λ t. (swap t).once)) created-Swapped)
            (ended-free ts over)) in
      (over, omega (arith, values.0), omega (arith, values.1))

  -- `Wait` returns: if each of the threads, fewer than 2 ^ 32, is given the processor in each round, then
  -- 11 rounds for each thread are enough, in whatever order the threads go in them. Each thread is
  -- one of the three that swap under `BigLocker`; so the order in which `SwapValue_Safe_Slow_2` takes the
  -- sections of the two players may differ from thread to thread.
  pub wait-rounds :
      (rs : List (List ℕ))
      → pool < 2 ^ 32
      → AreRounds pool rs
      → 11 * pool ≤ length rs
      → wait pool (schedule (in_rounds rs) (create_pool pool f)) ≡ true
  unfolding wait
  wait-rounds rs most all enough =
      let over =
        pool-ended pool f 11 created rs (λ t. (swap t).short)
          (gated-Moves 0 created (pool_of pool f) pool-Keeps) all enough in
      rw
        (ended-counted pool f most (λ t. (swap t).counts) (λ t. (swap t).last) created
          (in_rounds rs) over)
        (==-refl pool)
