-- ===== src/Tutorial/Swap.antt =====
-- Example/Toturial-3/3 - thread - multi-lock/thread - multi-lock/main.cpp: two players whose values
-- are swapped by many threads, with one critical section for all, one for each player, or both.
pub mod Safe
pub mod Wait
pub mod Fast
pub mod DeadLock
use winsock_multi_thread_ser.Base.{
  ℕ, ◌+◌, ◌%◌, Bool, Option, none, some, List, [], ◌∷◌, ◌++◌, ltb, ◌==◌, if◌then◌else◌,
}
use winsock_multi_thread_ser.Tutorial.Pool.{pool_of}
use winsock_multi_thread_ser.Tutorial.Threads.{
  Action, lock, unlock, load, store, interlocked_increment, Cells, Threads, started,
}

abbrev pub player_max : ℕ
player_max = 2

abbrev pub thread_pool_max : ℕ
thread_pool_max = 1000

-- The critical sections: `BigLocker`, and `Locker` of a player.
abbrev pub big_locker : ℕ
big_locker = 0

abbrev pub locker : ℕ → ℕ
locker player = player + 1

-- `GetPlayer`, with the index for the address of the player.
unfoldable pub get_player : ℕ → Option ℕ
get_player index = if ltb index player_max then some index else none

-- The three assignments of a swap. The first local variable is `a_value`, the second one holds
-- `player_b->Value` between its read and its write.
unfoldable pub exchange : ℕ → ℕ → List Action
exchange a b = load a 0 ∷ load b 1 ∷ store a 1 ∷ store b 0 ∷ []

unfoldable pub swap_value_safe_slow_1 : ℕ → ℕ → List Action
unfolding exchange
swap_value_safe_slow_1 a b = lock big_locker ∷ exchange a b ++ unlock big_locker ∷ []

unfoldable pub swap_value_safe_slow_2 : ℕ → ℕ → List Action
unfolding exchange
swap_value_safe_slow_2 a b =
    lock big_locker ∷ lock (locker a) ∷ lock (locker b) ∷ exchange a b
    ++ unlock (locker b) ∷ unlock (locker a) ∷ unlock big_locker ∷ []

-- The local variables are `backup_a_value` and `backup_b_value`.
unfoldable pub swap_value_safe_fast : ℕ → ℕ → List Action
swap_value_safe_fast a b =
    lock (locker a)
    ∷ load a 0
    ∷ unlock (locker a)
    ∷ lock (locker b)
    ∷ load b 1
    ∷ store b 0
    ∷ unlock (locker b)
    ∷ lock (locker a)
    ∷ store a 1
    ∷ unlock (locker a)
    ∷ []

unfoldable pub swap_value_dead_lock_1 : ℕ → ℕ → List Action
unfolding exchange
swap_value_dead_lock_1 a b =
    lock (locker a) ∷ lock (locker b) ∷ exchange a b ++ unlock (locker b) ∷ unlock (locker a) ∷ []

unfoldable pub swap_value_dead_lock_2 : ℕ → ℕ → List Action
unfolding exchange
swap_value_dead_lock_2 a b =
    lock (locker b) ∷ lock (locker a) ∷ exchange a b ++ unlock (locker a) ∷ unlock (locker b) ∷ []

-- `TestSwap_A_InThread` to `TestSwap_D_InThread`, with the players that `GetPlayer` finds. `c` is the
-- value of the static counter that `++c` has given the thread.
unfoldable pub test_swap_a_in_thread : List Action
unfolding swap_value_safe_slow_1
test_swap_a_in_thread = swap_value_safe_slow_1 0 1 ++ interlocked_increment ∷ []

unfoldable pub test_swap_b_in_thread : List Action
unfolding swap_value_safe_slow_1
test_swap_b_in_thread = swap_value_safe_slow_1 1 0 ++ interlocked_increment ∷ []

unfoldable pub test_swap_c_in_thread : ℕ → List Action
unfolding swap_value_safe_slow_2
test_swap_c_in_thread c =
    (if c % 2 == 0 then swap_value_safe_slow_2 1 0 else swap_value_safe_slow_2 0 1)
    ++ interlocked_increment ∷ []

-- The loop of `TestSwap_D_InThread`, for the numbers that `++c` gives its rounds.
unfoldable pub fast_swaps : List ℕ → List Action
unfolding swap_value_safe_fast
fast_swaps [] = []
fast_swaps (c ∷ cs) =
    (if c % 2 == 0 then swap_value_safe_fast 1 0 else swap_value_safe_fast 0 1) ++ fast_swaps cs

unfoldable pub test_swap_d_in_thread : List ℕ → List Action
unfolding fast_swaps
test_swap_d_in_thread cs = fast_swaps cs ++ interlocked_increment ∷ []

-- `PlayerInfo::Create` for each player: the shared variables are the values of the players.
unfoldable pub created : Cells
created = record { shared = λ a. if ltb a player_max then a + 1 else 0; locals = λ t r. 0 }

-- The threads of `ThreadPool`, `pool` of them.
abbrev pub create_pool : ℕ → (ℕ → List Action) → Threads
create_pool pool f = started created (pool_of pool f)

-- `Create` of `TestThread`. With `#if 1`, the threads run `TestSwap_A_InThread` and
-- `TestSwap_B_InThread` in turn; the other branch runs `TestSwap_C_InThread` in all of them.
abbrev pub a_or_b : ℕ → List Action
a_or_b t = if t % 2 == 0 then test_swap_a_in_thread else test_swap_b_in_thread

unfoldable pub create : Threads
create = create_pool thread_pool_max a_or_b

unfoldable pub create_c : (ℕ → ℕ) → Threads
create_c c = create_pool thread_pool_max (λ t. test_swap_c_in_thread (c t))

-- `Wait` is over.
unfoldable pub wait : ℕ → Threads → Bool
wait pool w = w.end_counter == pool
