-- ===== src/Examples/Producers.antt =====
-- Tests of the programs of Example/Toturial-3 that count, and that produce and consume.
use winsock_multi_thread_ser.Base.{
  ℕ, zero, suc, ◌⊎◌, ◌≡◌, ◌↔◌, refl, true, List, [], ◌∷◌, arith, replicate,
}
use winsock_multi_thread_ser.Tutorial.Threads.{schedule}
use winsock_multi_thread_ser.Tutorial.Fair.{AreRounds, in_rounds}
use winsock_multi_thread_ser.Tutorial.Counters.{
  create, create_locked, wait, wait_locked, Counted, print, wait-counted, wait_locked-rounds,
}
use winsock_multi_thread_ser.Tutorial.Produce.{
  Turn, counted, create_start, producer_at, consumer_at, turn, run,
}
use winsock_multi_thread_ser.Tutorial.Produce
use winsock_multi_thread_ser.Tutorial.Produce.Ends.{Over, wait-printed, wait-turns}

abbrev both : List ℕ
both = 1 ∷ 0 ∷ []

AreRounds-replicate : (k : ℕ) → AreRounds 2 (replicate k both)
AreRounds-replicate zero = tt
AreRounds-replicate (suc k) = (λ t l. ground (arith, l), AreRounds-replicate k)

wait_locked-rounds_example :
    let w = schedule (in_rounds (replicate 22 both)) (create_locked 2) in
    (wait_locked 2 w ≡ true) × ((t : ℕ) → w.left t ≡ []) × Counted 2 0 w.cells
wait_locked-rounds_example =
    wait_locked-rounds 2 (replicate 22 both) (omega arith) (AreRounds-replicate 22) (omega arith)

wait-counted_example :
    let w = schedule (in_rounds (replicate 7 both)) (create 2) in
    (wait 2 w ≡ true) ↔ ((t : ℕ) → (w.left t ≡ print) ⊎ (w.left t ≡ []))
wait-counted_example = wait-counted 2 (in_rounds (replicate 7 both)) (omega arith)

abbrev all_three : List Turn
all_three = Turn.consumer ∷ Turn.main ∷ Turn.producer ∷ []

all-AreRounds : (k : ℕ) → Produce.Ends.AreRounds (replicate k all_three)
all-AreRounds zero = tt
all-AreRounds (suc k) = (λ t. ground arith, all-AreRounds k)

wait-turns_example :
    Produce.wait (run 2 (Produce.Ends.in_rounds (replicate 89 all_three)) Produce.created) ≡ true
wait-turns_example =
    wait-turns 2 (replicate 89 all_three) (omega arith) (omega arith) (all-AreRounds 89)
      (omega arith)

printed-wait :
    Produce.wait (run 2 (Produce.Ends.in_rounds (replicate 60 all_three)) Produce.created) ≡ true
unfolding run turn create_start producer_at consumer_at counted Produce.wait
printed-wait = refl

wait-printed_example :
    let w = run 2 (Produce.Ends.in_rounds (replicate 60 all_three)) Produce.created in
    Over w × (w.printed ≡ 1 ∷ 2 ∷ []) × (w.task_list ≡ [])
wait-printed_example =
    wait-printed 2 (Produce.Ends.in_rounds (replicate 60 all_three)) (omega arith) (omega arith)
      printed-wait
