-- ===== src/Tutorial/Counters.antt =====
-- Example/Toturial-3/1 - thread/thread/main.cpp and 2 - thread - lock/thread - lock/main.cpp: threads
-- that count in shared variables, without a critical section and with one.
use mathlib.Core.Path.{subst}
use winsock_multi_thread_ser.Base.{
  ℕ, ◌⊎◌, ◌+◌, ◌*◌, ◌^◌, ◌<◌, ◌≤◌, ◌≡◌, refl, ap, inl, inr, Bool, true, false, ◌↔◌, ==-eq, ==-refl,
  Option-cases, none, List, [], ◌∷◌, ◌++◌, arith, ◌==◌, length, total-zero,
}
use winsock_multi_thread_ser.Tutorial.Threads.{
  Action, lock, unlock, load, store, add_one, interlocked_increment, Cells, Threads, started,
  perform, counted, act, go_on, schedule,
}
use winsock_multi_thread_ser.Tutorial.Held.{Keeps, started-Held}
use winsock_multi_thread_ser.Tutorial.Moves.{holder-left}
use winsock_multi_thread_ser.Tutorial.Gate.{Behind, Behind-fresh, gated-Moves}
use winsock_multi_thread_ser.Tutorial.Sections.Schedule.{sections-settled}
use winsock_multi_thread_ser.Tutorial.Sections.{Sound, sections, to_enter}
use winsock_multi_thread_ser.Tutorial.Pool.{
  pool_of, pool-all, pool-quiet, pool-total, pool-ended, pool-Counts,
}
use winsock_multi_thread_ser.Tutorial.Ended.{increments, Counts-ended, ended-Counts}
use winsock_multi_thread_ser.Tutorial.Fair.{AreRounds, in_rounds}

-- The shared variables: `gCounter`, `Counter`, and the `EndCounter` of the second program. They are 32
-- bits wide.
abbrev pub g_counter : ℕ
g_counter = 0

abbrev pub counter : ℕ
counter = 1

abbrev pub end_counter : ℕ
end_counter = 2

-- `++` of a shared variable.
unfoldable pub increment : ℕ → List Action
increment a = load a 0 ∷ add_one 0 ∷ store a 0 ∷ []

-- `printf` of `Counter` reads it.
unfoldable pub print : List Action
print = load counter 0 ∷ []

-- `sTestThreadProc` of the first program, up to the return. `Sleep` at both ends changes nothing that
-- is shared, and any thread may wait between its actions as long as the others like.
unfoldable pub s_test_thread_proc : List Action
unfolding increment print
s_test_thread_proc = increment g_counter ++ increment counter ++ interlocked_increment ∷ print

-- `Test_InThread` of the second program.
unfoldable pub test_in_thread : List Action
unfolding increment
test_in_thread =
    lock 0 ∷ increment g_counter ++ increment counter ++ increment end_counter ++ unlock 0 ∷ []

-- `Create`, for a pool of some size.
abbrev created : Cells
created = record { shared = λ a. 0; locals = λ t r. 0 }

unfoldable pub create : ℕ → Threads
create pool = started created (pool_of pool (λ t. s_test_thread_proc))

unfoldable pub create_locked : ℕ → Threads
create_locked pool = started created (pool_of pool (λ t. test_in_thread))

-- `Wait` is over, in the first program and in the second one.
unfoldable pub wait : ℕ → Threads → Bool
wait pool w = w.end_counter == pool

unfoldable pub wait_locked : ℕ → Threads → Bool
wait_locked pool w = w.cells.shared end_counter == pool

-- The three variables while `m` of `pool` threads have not been in the section yet.
abbrev pub Counted : ℕ → ℕ → Cells → Type 0
Counted pool m c =
    (c.shared g_counter + m ≡ pool)
    × (c.shared counter + m ≡ pool)
    × (c.shared end_counter + m ≡ pool)

test_in_thread-Sound : (pool : ℕ) → pool < 2 ^ 32 → Sound (Counted pool) false test_in_thread
unfolding test_in_thread increment perform
test_in_thread-Sound pool most = (λ t m c v. rw (==-refl t) (omega (arith, v, most)), tt)

test_in_thread-Keeps : Keeps (Behind 0) [] test_in_thread
unfolding test_in_thread increment
test_in_thread-Keeps = ground arith

pool-Keeps : (pool t : ℕ) → Keeps (Behind 0) [] (pool_of pool (λ t. test_in_thread) t)
pool-Keeps pool =
    pool-all pool (λ t. test_in_thread) (Keeps (Behind 0) []) refl (λ t. test_in_thread-Keeps)

one_section : sections test_in_thread ≡ 1
unfolding test_in_thread increment
one_section = refl

eleven : length test_in_thread ≤ 11
unfolding test_in_thread increment
eleven = omega arith

-- In the second program no count is lost: whenever the section is free, each of the three variables is
-- the number of threads, of fewer than 2 ^ 32, that have been in it, in whatever order they have gone on.
pub create_locked-Counted :
    (pool : ℕ) (ts : List ℕ)
    → pool < 2 ^ 32
    → (schedule ts (create_locked pool)).holder 0 ≡ none
    → Counted pool
        (to_enter (Counted pool) pool (schedule ts (create_locked pool)))
        (schedule ts (create_locked pool)).cells
unfolding create_locked
create_locked-Counted pool ts most =
    sections-settled (Counted pool) pool ts created (pool_of pool (λ t. test_in_thread))
      (pool-all pool (λ t. test_in_thread) (Sound (Counted pool) false) tt
        (λ t. test_in_thread-Sound pool most))
      (pool-quiet pool (λ t. test_in_thread))
      (rw (pool-total pool (λ t. test_in_thread) sections (λ t. one_section)) (omega arith))

-- In the second program all threads, fewer than 2 ^ 32, end and `Wait` returns, if each is given the
-- processor in each round and there are 11 rounds for each: then all three variables are the number of
-- the threads, and nobody is in the section.
pub wait_locked-rounds :
    (pool : ℕ) (rs : List (List ℕ))
    → pool < 2 ^ 32
    → AreRounds pool rs
    → 11 * pool ≤ length rs
    → let w = schedule (in_rounds rs) (create_locked pool) in
      (wait_locked pool w ≡ true) × ((t : ℕ) → w.left t ≡ []) × Counted pool 0 w.cells
unfolding wait_locked create_locked
wait_locked-rounds pool rs most all enough =
    let f : ℕ → List Action = λ t. test_in_thread in
    let w = schedule (in_rounds rs) (create_locked pool) in
    let over =
      pool-ended pool f 11 created rs (λ t. eleven)
        (gated-Moves 0 created (pool_of pool f) (pool-Keeps pool)) all enough in
    let (held, v) =
      started-Held (Behind 0) (Behind-fresh 0) (in_rounds rs) created (pool_of pool f)
        (pool-Keeps pool) in
    let free : w.holder 0 ≡ none = elim (Option-cases (w.holder 0)) [
      | inl free ↦ free
      | inr (h, e) ↦ absurd ((holder-left (Behind 0) held w v 0 h e).1 (over h.thread))
    ] in
    let none_left : to_enter (Counted pool) pool w ≡ 0 =
      total-zero pool (λ t. sections (w.left t)) (λ t l. ap sections (over t)) in
    let values : Counted pool 0 w.cells =
      subst (λ m. Counted pool m w.cells) none_left
        (create_locked-Counted pool (in_rounds rs) most free) in
    let reached : w.cells.shared end_counter ≡ pool = omega (arith, values.2) in
    (rw (reached, ==-refl pool) refl, over, values)

one_increment : increments s_test_thread_proc ≡ 1
unfolding s_test_thread_proc increment
one_increment = refl

-- Behind its increment of `EndCounter`, a thread has the `printf` left or nothing.
Prints : List Action → Type 0
unfolding print
Prints [] = Unit {0}
Prints (a ∷ ops) = (increments (a ∷ ops) ≡ 0 → a ∷ ops ≡ print) × Prints ops

Prints-tail : (a : Action) (ops : List Action) → Prints (a ∷ ops) → Prints ops
unfolding Prints
Prints-tail a ops p = p.1

Prints-left : (ops : List Action) → Prints ops → increments ops ≡ 0 → (ops ≡ print) ⊎ (ops ≡ [])
unfolding Prints
Prints-left [] p none_left = inr refl
Prints-left (a ∷ ops) p none_left = inl (p.0 none_left)

s_test_thread_proc-Prints : Prints s_test_thread_proc
unfolding Prints s_test_thread_proc increment print
s_test_thread_proc-Prints = (
  λ e. absurd (omega (arith, e)),
  (
    λ e. absurd (omega (arith, e)),
    (
      λ e. absurd (omega (arith, e)),
      (
        λ e. absurd (omega (arith, e)),
        (
          λ e. absurd (omega (arith, e)),
          (λ e. absurd (omega (arith, e)), (λ e. absurd (omega (arith, e)), (λ e. refl, tt))),
        ),
      ),
    ),
  ),
)

print-increments : (ops : List Action) → (ops ≡ print) ⊎ (ops ≡ []) → increments ops ≡ 0
unfolding print
print-increments ops (inl e) = ap increments e
print-increments ops (inr e) = ap increments e

-- In the first program, with fewer than 2 ^ 32 threads, `Wait` returns just when each thread has nothing
-- left but the `printf` of `Counter`, or not even that, in whatever order they have gone on: both `++`
-- of every thread are over then, and `InterlockedIncrement` has lost no count.
pub wait-counted :
    (pool : ℕ) (ts : List ℕ)
    → pool < 2 ^ 32
    → let w = schedule ts (create pool) in
      (wait pool w ≡ true) ↔ ((t : ℕ) → (w.left t ≡ print) ⊎ (w.left t ≡ []))
unfolding wait create Prints
wait-counted pool ts most =
    let f : ℕ → List Action = λ t. s_test_thread_proc in
    let w = schedule ts (create pool) in
    let v =
      pool-Counts pool f most (λ t. one_increment) Prints Prints-tail tt
        (λ t. s_test_thread_proc-Prints) created ts in
    (
      λ waited t.
          Prints-left (w.left t) (v.last t)
            (Counts-ended pool most Prints Prints-tail w v (==-eq w.end_counter pool waited) t),
      λ over.
          rw
            (ended-Counts pool most Prints Prints-tail w v
              (λ t. print-increments (w.left t) (over t)))
            (==-refl pool),
    )

-- Two threads of the first program, which both read before one of them writes: `Wait` returns, and one
-- count of each variable is lost.
create-lost :
    let w = schedule (0 ∷ 1 ∷ 0 ∷ 1 ∷ 0 ∷ 1 ∷ 0 ∷ 1 ∷ 0 ∷ 1 ∷ 0 ∷ 1 ∷ 0 ∷ 1 ∷ []) (create 2) in
    (wait 2 w ≡ true) × (w.cells.shared g_counter ≡ 1) × (w.cells.shared counter ≡ 1)
unfolding wait create s_test_thread_proc increment schedule go_on act perform counted
create-lost = (refl, refl, refl)
