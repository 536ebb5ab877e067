-- ===== src/Tutorial/Swap/Fast.antt =====
-- `SwapValue_Safe_Fast`, which holds one section at a time.
use winsock_multi_thread_ser.Base.{
  ℕ, suc, ◌+◌, ◌*◌, ◌%◌, ◌^◌, ◌<◌, ◌≤◌, ◌≡◌, refl, inl, inr, true, Bool-cases, ==-refl, List, [],
  ◌∷◌, ◌++◌, arith, ◌==◌, length,
}
use winsock_multi_thread_ser.Tutorial.Threads.{Action, interlocked_increment, schedule}
use winsock_multi_thread_ser.Tutorial.Swap.{
  swap_value_safe_fast, fast_swaps, test_swap_d_in_thread, created, create_pool, wait,
}
use winsock_multi_thread_ser.Tutorial.Held.{Keeps}
use winsock_multi_thread_ser.Tutorial.Order.{Rises, rising-Moves}
use winsock_multi_thread_ser.Tutorial.Ended.{increments, LastCounts}
use winsock_multi_thread_ser.Tutorial.Pool.{pool_of, pool-all, pool-ended, ended-counted}
use winsock_multi_thread_ser.Tutorial.Fair.{AreRounds, in_rounds}

-- What is used of the rest of such a thread, which `count` more swaps come in front of.
record Fast (count : ℕ) (p : List Action) : Type 0 where
  keeps : Keeps (Rises 3) [] p
  counts : increments p ≡ 1
  last : LastCounts p
  short : length p ≤ 10 * count + 1

-- One more swap in front.
Fast-more :
    (a b count : ℕ) (p : List Action)
    → a < 2
    → b < 2
    → Fast count p
    → Fast (suc count) (swap_value_safe_fast a b ++ p)
unfolding swap_value_safe_fast
Fast-more a b count p low high v = record {
  keeps = ground (arith, v.keeps);
  counts = omega (arith, v.counts);
  last = LastCounts-cons _ p v.counts v.last;
  short = omega (arith, v.short);
}
  where
    LastCounts-cons :
        (x : Action) (p : List Action) → increments p ≡ 1 → LastCounts p → LastCounts (x ∷ p)
    LastCounts-cons x [] one l = absurd (omega (arith, one))
    LastCounts-cons x (y ∷ p) one l = l

Fast-swaps : (cs : List ℕ) → Fast (length cs) (fast_swaps cs ++ interlocked_increment ∷ [])
unfolding fast_swaps swap_value_safe_fast
Fast-swaps [] = record { keeps = refl; counts = refl; last = refl; short = omega arith }
Fast-swaps (c ∷ cs) =
    let rest = Fast-swaps cs in
    let more = fast_swaps cs ++ interlocked_increment ∷ [] in
    elim (Bool-cases (c % 2 == 0)) [
      | inl even ↦ rw even (Fast-more 1 0 (length cs) more (omega arith) (omega arith) rest)
      | inr odd ↦ rw odd (Fast-more 0 1 (length cs) more (omega arith) (omega arith) rest)
    ]

test_swap_d-Fast : (cs : List ℕ) → Fast (length cs) (test_swap_d_in_thread cs)
unfolding test_swap_d_in_thread
test_swap_d-Fast = Fast-swaps

-- `Wait` returns for threads that run `TestSwap_D_InThread`, each with up to `rounds` swaps, and fewer
-- than 2 ^ 32 threads: if each of them is given the processor in each round of a schedule, then as many
-- rounds as the threads have actions at most are enough.
pub wait-Fast :
    (pool most : ℕ) (cs : ℕ → List ℕ) (rs : List (List ℕ))
    → pool < 2 ^ 32
    → ((t : ℕ) → length (cs t) ≤ most)
    → AreRounds pool rs
    → (10 * most + 1) * pool ≤ length rs
    → wait pool (schedule (in_rounds rs) (create_pool pool (λ t. test_swap_d_in_thread (cs t))))
      ≡ true
unfolding wait
wait-Fast pool most cs rs small few all enough =
    let f : ℕ → List Action = λ t. test_swap_d_in_thread (cs t) in
    let fast : (t : ℕ) → Fast (length (cs t)) (f t) = λ t. test_swap_d-Fast (cs t) in
    let over =
      pool-ended pool f (10 * most + 1) created rs (λ t. omega (arith, (fast t).short, few t))
        (rising-Moves 3 created (pool_of pool f)
          (pool-all pool f (Keeps (Rises 3) []) refl (λ t. (fast t).keeps)))
        all enough in
    rw
      (ended-counted pool f small (λ t. (fast t).counts) (λ t. (fast t).last) created (in_rounds rs)
        over)
      (==-refl pool)
