-- ===== src/Tutorial/Pool.antt =====
-- The thread pools of Example/Toturial-3: `pool` threads, each with its program.

use native.Mathlib.Decide.{dec_lt}
use winsock_multi_thread_ser.Base.{
  ℕ, ◌*◌, ◌^◌, ◌<◌, ◌≤◌, ◌≡◌, refl, ap, ◌∙◌, lt→ltb, le→ltb, List, [], ◌∷◌, arith, ltb,
  if◌then◌else◌, length, total, total-ones, total-le,
}
use winsock_multi_thread_ser.Tutorial.Threads.{Action, Cells, started, schedule}
use winsock_multi_thread_ser.Tutorial.Ended.{
  increments, LastCounts, LastCounts-tail, LastCounts-nil, Counts, schedule-Counts, Counts-ended,
  ended-Counts,
}
use winsock_multi_thread_ser.Tutorial.Fair.{AreRounds, in_rounds, Flows, rounds-ended}

-- `Create` of a `TestThread` starts the threads of `ThreadPool`.
abbrev pub pool_of : ℕ → (ℕ → List Action) → ℕ → List Action
pool_of pool f t = if ltb t pool then f t else []

module _ (pool : ℕ) (f : ℕ → List Action) where
  -- What holds of each program, and of a thread that does not exist.
  pub pool-all :
      (P : List Action → Type 0) → P [] → ((t : ℕ) → P (f t)) → (t : ℕ) → P (pool_of pool f t)
  pool-all P nil one t = elim (dec_lt t pool) [
    | yes l ↦ rw (lt→ltb t pool l) (one t)
    | no out ↦ rw (le→ltb t pool (omega (arith, out))) nil
  ]

  pub pool-inside : (t : ℕ) → t < pool → pool_of pool f t ≡ f t
  pool-inside t l = rw (lt→ltb t pool l) refl

  pub pool-quiet : (t : ℕ) → pool ≤ t → pool_of pool f t ≡ []
  pool-quiet t l = rw (le→ltb t pool l) refl

  -- As many as the threads, when each program counts once.
  pub pool-total :
      (count : List Action → ℕ)
      → ((t : ℕ) → count (f t) ≡ 1)
      → total pool (λ t. count (pool_of pool f t)) ≡ pool
  pool-total count one =
      total-ones pool (λ t. count (pool_of pool f t)) (λ t l. ap count (pool-inside t l) ∙ one t)

  -- All threads end in rounds, if they are never all held up.
  pub pool-ended :
      (most : ℕ) (c : Cells) (rs : List (List ℕ))
      → ((t : ℕ) → length (f t) ≤ most)
      → Flows (started c (pool_of pool f))
      → AreRounds pool rs
      → most * pool ≤ length rs
      → (t : ℕ) → (schedule (in_rounds rs) (started c (pool_of pool f))).left t ≡ []
  pool-ended most c rs short flows all enough =
      let few =
        total-le pool most (λ t. length (pool_of pool f t))
          (pool-all (λ p. length p ≤ most) (omega arith) short) in
      rounds-ended pool rs (started c (pool_of pool f)) all flows pool-quiet
        (omega (arith, few, enough))

  -- Programs that count once, and what holds of all that they may have left.
  module _ (most : pool < 2 ^ 32) (one : (t : ℕ) → increments (f t) ≡ 1) (Q : List Action → Type 0)
      (Q-tail : (a : Action) (ops : List Action) → Q (a ∷ ops) → Q ops) (Q-nil : Q [])
      (last : (t : ℕ) → Q (f t)) (c : Cells) (ts : List ℕ) where
    pub pool-Counts : Counts pool most Q Q-tail (schedule ts (started c (pool_of pool f)))
    pool-Counts = schedule-Counts pool most Q Q-tail ts (started c (pool_of pool f)) (record {
      sum = omega (arith, pool-total increments one);
      last = pool-all Q Q-nil last;
      quiet = pool-quiet;
    })

  module _ (most : pool < 2 ^ 32) (one : (t : ℕ) → increments (f t) ≡ 1)
      (last : (t : ℕ) → LastCounts (f t)) where
    -- `EndCounter` has reached the number of threads just when all of them have ended.
    pub counted-ended :
        (c : Cells) (ts : List ℕ)
        → (schedule ts (started c (pool_of pool f))).end_counter ≡ pool
        → (t : ℕ) → (schedule ts (started c (pool_of pool f))).left t ≡ []
    counted-ended c ts e t =
        let w = schedule ts (started c (pool_of pool f)) in
        let v = pool-Counts most one LastCounts LastCounts-tail tt last c ts in
        LastCounts-nil (w.left t) (v.last t)
          (Counts-ended pool most LastCounts LastCounts-tail w v e t)

    pub ended-counted :
        (c : Cells) (ts : List ℕ)
        → ((t : ℕ) → (schedule ts (started c (pool_of pool f))).left t ≡ [])
        → (schedule ts (started c (pool_of pool f))).end_counter ≡ pool
    ended-counted c ts over =
        ended-Counts pool most LastCounts LastCounts-tail (schedule ts (started c (pool_of pool f)))
          (pool-Counts most one LastCounts LastCounts-tail tt last c ts)
          (λ t. ap increments (over t))
