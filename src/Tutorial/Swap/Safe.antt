-- ===== src/Tutorial/Swap/Safe.antt =====
-- Swaps with `BigLocker`: they come to an end in any order of the threads, and each is done at once.
use mathlib.Core.Path.{subst}
use winsock_multi_thread_ser.Base.{
  ℕ, ◌+◌, ◌-◌, ◌%◌, ◌≤◌, ◌≡◌, refl, sym, inl, inr, ◌⊎◌, false, Bool-cases, ==-refl, List, [], ◌∷◌,
  ◌++◌, arith, ◌==◌, length,
}
use winsock_multi_thread_ser.Tutorial.Threads.{
  Action, unlock, interlocked_increment, Cells, perform,
}
use winsock_multi_thread_ser.Tutorial.Swap.{
  exchange, swap_value_safe_slow_1, swap_value_safe_slow_2, test_swap_a_in_thread,
  test_swap_b_in_thread, test_swap_c_in_thread,
}
use winsock_multi_thread_ser.Tutorial.Held.{Keeps}
use winsock_multi_thread_ser.Tutorial.Gate.{Behind}
use winsock_multi_thread_ser.Tutorial.Ended.{increments, LastCounts}
use winsock_multi_thread_ser.Tutorial.Sections.{Section, Sound, sections}

-- The values of the players while `m` of `pool` swaps are still to come.
abbrev pub Swapped : ℕ → ℕ → Cells → Type 0
Swapped pool m c = (c.shared 0 ≡ 1 + (pool + m) % 2) × (c.shared 1 ≡ 2 - (pool + m) % 2)

module _ (pool : ℕ) where
  exchange-Section : (more : List Action) → Section (Swapped pool) (exchange 0 1 ++ unlock 0 ∷ more)
  unfolding exchange perform
  exchange-Section more t m c v = rw (==-refl t) (omega (arith, v))

  exchange_back-Section :
      (more : List Action) → Section (Swapped pool) (exchange 1 0 ++ unlock 0 ∷ more)
  unfolding exchange perform
  exchange_back-Section more t m c v = rw (==-refl t) (omega (arith, v))

  test_swap_a-Sound : Sound (Swapped pool) false test_swap_a_in_thread
  unfolding test_swap_a_in_thread swap_value_safe_slow_1 exchange
  test_swap_a-Sound = (exchange-Section (interlocked_increment ∷ []), tt)

  test_swap_b-Sound : Sound (Swapped pool) false test_swap_b_in_thread
  unfolding test_swap_b_in_thread swap_value_safe_slow_1 exchange
  test_swap_b-Sound = (exchange_back-Section (interlocked_increment ∷ []), tt)

  slow_2-Sound :
      Sound (Swapped pool) false (swap_value_safe_slow_2 0 1 ++ interlocked_increment ∷ [])
  unfolding swap_value_safe_slow_2 exchange perform
  slow_2-Sound = (λ t m c v. rw (==-refl t) (omega (arith, v)), tt)

  slow_2_back-Sound :
      Sound (Swapped pool) false (swap_value_safe_slow_2 1 0 ++ interlocked_increment ∷ [])
  unfolding swap_value_safe_slow_2 exchange perform
  slow_2_back-Sound = (λ t m c v. rw (==-refl t) (omega (arith, v)), tt)

test_swap_a-Keeps : Keeps (Behind 0) [] test_swap_a_in_thread
unfolding test_swap_a_in_thread swap_value_safe_slow_1 exchange
test_swap_a-Keeps = ground arith

test_swap_b-Keeps : Keeps (Behind 0) [] test_swap_b_in_thread
unfolding test_swap_b_in_thread swap_value_safe_slow_1 exchange
test_swap_b-Keeps = ground arith

slow_2-Keeps : Keeps (Behind 0) [] (swap_value_safe_slow_2 0 1 ++ interlocked_increment ∷ [])
unfolding swap_value_safe_slow_2 exchange
slow_2-Keeps = ground arith

slow_2_back-Keeps : Keeps (Behind 0) [] (swap_value_safe_slow_2 1 0 ++ interlocked_increment ∷ [])
unfolding swap_value_safe_slow_2 exchange
slow_2_back-Keeps = ground arith

-- A thread of `Create`, in either branch of its `#if`.
abbrev pub IsSwap : List Action → Type 0
IsSwap p =
    (p ≡ test_swap_a_in_thread)
    ⊎ (p ≡ test_swap_b_in_thread)
    ⊎ ((c : ℕ) × (p ≡ test_swap_c_in_thread c))

-- What is used of such a thread.
pub record Swap (pool : ℕ) (p : List Action) : Type 0 where
  pub sound : Sound (Swapped pool) false p
  pub keeps : Keeps (Behind 0) [] p
  pub once : sections p ≡ 1
  pub counts : increments p ≡ 1
  pub last : LastCounts p
  pub short : length p ≤ 11

pub IsSwap-Swap : (pool : ℕ) (p : List Action) → IsSwap p → Swap pool p
unfolding test_swap_a_in_thread test_swap_b_in_thread test_swap_c_in_thread swap_value_safe_slow_1
    swap_value_safe_slow_2 exchange
IsSwap-Swap pool p (inl a) = subst (Swap pool) (sym a) (record {
  sound = test_swap_a-Sound pool;
  keeps = test_swap_a-Keeps;
  once = refl;
  counts = refl;
  last = refl;
  short = omega arith;
})
IsSwap-Swap pool p (inr (inl b)) = subst (Swap pool) (sym b) (record {
  sound = test_swap_b-Sound pool;
  keeps = test_swap_b-Keeps;
  once = refl;
  counts = refl;
  last = refl;
  short = omega arith;
})
IsSwap-Swap pool p (inr (inr (c, e))) = subst (Swap pool) (sym e) (elim (Bool-cases (c % 2 == 0)) [
  | inl even ↦ rw even (record {
    sound = slow_2_back-Sound pool;
    keeps = slow_2_back-Keeps;
    once = refl;
    counts = refl;
    last = refl;
    short = omega arith;
  })
  | inr odd ↦ rw odd (record {
    sound = slow_2-Sound pool;
    keeps = slow_2-Keeps;
    once = refl;
    counts = refl;
    last = refl;
    short = omega arith;
  })
])
