-- ===== src/Examples/Tutorials.antt =====
-- Tests of the programs of Example/Toturial-3, with two threads and with two tasks.
use winsock_multi_thread_ser.Base.{
  ℕ, zero, suc, ◌+◌, ◌%◌, ◌≡◌, refl, inl, inr, Bool-cases, true, some, none, List, [], ◌∷◌, ◌++◌,
  arith, ◌==◌, if◌then◌else◌, replicate,
}
use winsock_multi_thread_ser.Tutorial.Threads.{
  Action, lock, perform, counted, enter, leave, act, go_on, schedule, started,
}
use winsock_multi_thread_ser.Tutorial.Swap.{
  exchange, swap_value_safe_slow_1, swap_value_safe_fast, swap_value_dead_lock_1,
  swap_value_dead_lock_2, test_swap_a_in_thread, test_swap_b_in_thread, test_swap_c_in_thread,
  fast_swaps, test_swap_d_in_thread, created, create_pool, a_or_b, create, create_c, get_player,
  wait,
}
use winsock_multi_thread_ser.Tutorial.Swap.Safe.{IsSwap}
use winsock_multi_thread_ser.Tutorial.Swap.Wait.{wait-Swapped, wait-rounds}
use winsock_multi_thread_ser.Tutorial.Swap.Fast.{wait-Fast}
use winsock_multi_thread_ser.Tutorial.Swap.DeadLock.{dead_lock-forever}
use winsock_multi_thread_ser.Tutorial.Fair.{AreRounds, IsRound, in_rounds}

a_or_b-IsSwap : (t : ℕ) → IsSwap (a_or_b t)
a_or_b-IsSwap t = elim (Bool-cases (t % 2 == 0)) [
  | inl even ↦ rw even (inl refl)
  | inr odd ↦ rw odd (inr (inl refl))
]

-- The first thread is interrupted in its swap.
abbrev interrupted : List ℕ
interrupted = 0 ∷ 0 ∷ 0 ∷ 1 ∷ replicate 4 0 ++ replicate 7 1

interrupted-wait : wait 2 (schedule interrupted (create_pool 2 a_or_b)) ≡ true
unfolding wait schedule go_on act enter leave perform counted test_swap_a_in_thread
    test_swap_b_in_thread swap_value_safe_slow_1 exchange
interrupted-wait = refl

wait-Swapped_example :
    let w = schedule interrupted (create_pool 2 a_or_b) in
    ((t : ℕ) → w.left t ≡ []) × (w.cells.shared 0 ≡ 1) × (w.cells.shared 1 ≡ 2)
wait-Swapped_example =
    wait-Swapped 2 a_or_b a_or_b-IsSwap interrupted (omega arith) interrupted-wait

abbrev both : List ℕ
both = 1 ∷ 0 ∷ []

both-IsRound : IsRound 2 both
both-IsRound t l = ground (arith, l)

AreRounds-replicate : (n k : ℕ) (r : List ℕ) → IsRound n r → AreRounds n (replicate k r)
AreRounds-replicate n zero r i = tt
AreRounds-replicate n (suc k) r i = (i, AreRounds-replicate n k r i)

-- The two threads take the sections of the players in opposite orders.
wait-rounds_example :
    wait 2 (schedule (in_rounds (replicate 22 both)) (create_pool 2 test_swap_c_in_thread)) ≡ true
wait-rounds_example =
    wait-rounds 2 test_swap_c_in_thread (λ t. inr (inr (t, refl))) (replicate 22 both) (omega arith)
      (AreRounds-replicate 2 22 both both-IsRound) (omega arith)

abbrev two_swaps : ℕ → List ℕ
two_swaps t = t ∷ (t + 1) ∷ []

wait-Fast_example :
    wait 2 (
      schedule
        (in_rounds (replicate 42 both))
        (create_pool 2 (λ t. test_swap_d_in_thread (two_swaps t))))
    ≡ true
wait-Fast_example =
    wait-Fast 2 2 two_swaps (replicate 42 both) (omega arith) (λ t. omega arith)
      (AreRounds-replicate 2 42 both both-IsRound) (omega arith)

-- One swap each, interrupted between the reads: both end, and the value 2 is lost.
abbrev one_swap : ℕ → List Action
one_swap t = test_swap_d_in_thread (t ∷ [])

fast_lost :
    let w = schedule (replicate 3 1 ++ replicate 11 0 ++ replicate 8 1) (create_pool 2 one_swap) in
    (wait 2 w ≡ true) × (w.cells.shared 0 ≡ 1) × (w.cells.shared 1 ≡ 1)
unfolding wait schedule go_on act enter leave perform counted test_swap_d_in_thread fast_swaps
    swap_value_safe_fast created
fast_lost = (refl, refl, refl)

abbrev crossing : ℕ → List Action
crossing t =
    if t == 0 then swap_value_dead_lock_1 0 1 else if t == 1 then swap_value_dead_lock_2 0 1 else []

dead_lock-forever_example :
    let w = schedule (0 ∷ 1 ∷ 0 ∷ 1 ∷ 2 ∷ 0 ∷ []) (started created crossing) in
    (lock 1 ∷ w.left 0 ≡ swap_value_dead_lock_1 0 1)
    × (lock 2 ∷ w.left 1 ≡ swap_value_dead_lock_2 0 1)
unfolding swap_value_dead_lock_1 swap_value_dead_lock_2 exchange
dead_lock-forever_example =
    dead_lock-forever 0 1 0 1 [] [] created crossing (omega arith) (omega arith) refl refl
      (0 ∷ 1 ∷ 2 ∷ 0 ∷ [])

get_player_out : (get_player 1 ≡ some 1) × (get_player 2 ≡ none)
unfolding get_player
get_player_out = (refl, refl)

create_pool_of_1000 :
    (create ≡ create_pool 1000 a_or_b)
    × (create_c (λ t. t) ≡ create_pool 1000 test_swap_c_in_thread)
unfolding create create_c
create_pool_of_1000 = (refl, refl)
