-- ===== src/Tutorial/Produce/Steps.antt =====
-- How many steps the producer and the consumer have left, and that each step counts.

use winsock_multi_thread_ser.Base.{
  ℕ, ◌+◌, ◌-◌, ◌*◌, ◌^◌, ◌<◌, ◌≡◌, refl, ap, inl, inr, ◌⊎◌, true, false, some, List, [], ◌∷◌, arith,
  ◌==◌, erase, length, length-append,
}
use winsock_multi_thread_ser.Tutorial.Produce.{
  Signal, on, returns, Producer, Consumer, Test, create_start, counted, producer_at,
  lock_get_head_node, taken, consumer_at, Turn, turn,
}
use winsock_multi_thread_ser.Tutorial.Produce.Alternation.{unstarted}
use winsock_multi_thread_ser.Tutorial.Produce.Stop.{Runs}

-- How many steps are left at most.
abbrev pub glow : Signal → ℕ
glow on = 1
glow _ = 0

abbrev pub steps_p : Producer → ℕ
steps_p Producer.loop = 5
steps_p Producer.waiting = 4
steps_p Producer.woken = 3
steps_p Producer.inner = 17
steps_p Producer.testing = 16
steps_p Producer.counting = 15
steps_p (Producer.linking n) = 42
steps_p Producer.starting = 38
steps_p Producer.releasing = 2
steps_p Producer.ending = 1
steps_p Producer.over = 0

abbrev pub steps_c : Consumer → ℕ
steps_c Consumer.loop = 5
steps_c Consumer.waiting = 4
steps_c Consumer.woken = 3
steps_c Consumer.taking = 28
steps_c (Consumer.printing n) = 27
steps_c (Consumer.unlinking n) = 26
steps_c Consumer.testing = 27
steps_c Consumer.stopping = 26
steps_c Consumer.starting = 25
steps_c Consumer.releasing = 2
steps_c Consumer.ending = 1
steps_c Consumer.over = 0

-- A thread that does nothing when it is given the processor.
abbrev pub ProducerRests : Test → Type 0
ProducerRests w =
    (w.producer ≡ Producer.over)
    ⊎ ((w.producer ≡ Producer.waiting) × (returns w.producer_event ≡ false))

abbrev pub ConsumerRests : Test → Type 0
ConsumerRests w =
    (w.consumer ≡ Consumer.over)
    ⊎ ((w.consumer ≡ Consumer.waiting) × (returns w.consumer_event ≡ false))

module _ (max : ℕ) where
  abbrev pub steps : Test → ℕ
  steps w =
      30 * (max - w.task_counter)
      + 3 * length w.task_list
      + 19 * unstarted w.create_over
      + 18 * glow w.producer_event
      + 30 * glow w.consumer_event
      + steps_p w.producer
      + steps_c w.consumer

  producer-steps :
      (p : Producer) (w : Test)
      → w.producer ≡ p
      → max < 2 ^ 32
      → Runs max w
      → ProducerRests w ⊎ (steps (producer_at max p w) < steps w)
  unfolding producer_at counted
  producer-steps Producer.loop w e small v = inr (ground arith)
  producer-steps Producer.waiting w e small v = ground arith
  producer-steps Producer.woken w e small v = inr (ground arith)
  producer-steps Producer.inner w e small v = inr (ground arith)
  producer-steps Producer.testing w e small v = inr (ground arith)
  producer-steps Producer.counting w e small v = inr (ground arith)
  producer-steps (Producer.linking n) w e small v =
      inr (ground (arith, length-append w.task_list (n ∷ [])))
  producer-steps Producer.starting w e small v = inr (ground arith)
  producer-steps Producer.releasing w e small v = inr (ground arith)
  producer-steps Producer.ending w e small v = inr (ground arith)
  producer-steps Producer.over w e small v = inl (inl e)

  taken-steps :
      (tasks : List ℕ) → steps_c (taken (lock_get_head_node tasks)) < steps_c Consumer.taking
  taken-steps [] = omega arith
  taken-steps (n ∷ tasks) = omega arith

  erase-head :
      (n : ℕ) (tasks : List ℕ)
      → lock_get_head_node tasks ≡ some n
      → length (erase n tasks) + 1 ≡ length tasks
  erase-head n [] e = cc
  erase-head n (h ∷ tasks) e =
      let same : (h == n) ≡ true = ground (arith, e) in rw same (omega arith)

  consumer-steps :
      (c : Consumer) (w : Test)
      → w.consumer ≡ c
      → Runs max w
      → ConsumerRests w ⊎ (steps (consumer_at max c w) < steps w)
  unfolding consumer_at counted
  consumer-steps Consumer.loop w e v = inr (ground arith)
  consumer-steps Consumer.waiting w e v = ground arith
  consumer-steps Consumer.woken w e v = inr (ground arith)
  consumer-steps Consumer.taking w e v = inr (omega (arith, taken-steps w.task_list, ap steps_c e))
  consumer-steps (Consumer.printing n) w e v = inr (ground arith)
  consumer-steps (Consumer.unlinking n) w e v =
      let shorter : length (erase n w.task_list) + 1 ≡ length w.task_list = elim v [
        | inl g ↦ erase-head n w.task_list (g.unlinks n e).0
        | inr h ↦ absurd (ground (arith, h.leaves_c, e))
      ] in
      inr (omega (arith, shorter, ap steps_c e))
  consumer-steps Consumer.testing w e v = inr (ground arith)
  consumer-steps Consumer.stopping w e v = inr (ground arith)
  consumer-steps Consumer.starting w e v = inr (ground arith)
  consumer-steps Consumer.releasing w e v = inr (ground arith)
  consumer-steps Consumer.ending w e v = inr (ground arith)
  consumer-steps Consumer.over w e v = inl (inl e)

  main-steps : (w : Test) → (w.create_over ≡ true) ⊎ (steps (create_start w) < steps w)
  unfolding create_start
  main-steps w = ground arith

  abbrev pub Rests : Turn → Test → Type 0
  Rests Turn.main w = w.create_over ≡ true
  Rests Turn.producer w = ProducerRests w
  Rests Turn.consumer w = ConsumerRests w

  pub turn-steps :
      (t : Turn) (w : Test)
      → max < 2 ^ 32
      → Runs max w
      → Rests t w ⊎ (steps (turn max t w) < steps w)
  unfolding turn
  turn-steps Turn.main w small v = main-steps w
  turn-steps Turn.producer w small v = producer-steps w.producer w refl small v
  turn-steps Turn.consumer w small v = consumer-steps w.consumer w refl v

  pub Rests-turn : (t : Turn) (w : Test) → Rests t w → turn max t w ≡ w
  unfolding turn create_start producer_at consumer_at
  Rests-turn Turn.main w r = rw r refl
  Rests-turn Turn.producer w (inl e) = rw e refl
  Rests-turn Turn.producer w (inr (e, r)) = rw (e, r) refl
  Rests-turn Turn.consumer w (inl e) = rw e refl
  Rests-turn Turn.consumer w (inr (e, r)) = rw (e, r) refl
