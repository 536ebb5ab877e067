-- ===== src/Tutorial/Produce/Stop.antt =====
-- What holds behind the change of `RunFlag`.
use winsock_multi_thread_ser.Base.{
  ℕ, ◌+◌, ◌^◌, ◌<◌, ◌≡◌, refl, inl, inr, ◌⊎◌, true, false, List, [], ◌∷◌, arith,
}
use winsock_multi_thread_ser.Tutorial.Produce.{
  on, closed, returns, Producer, Consumer, Test, created, create_start, counted, producer_at,
  consumer_at, Turn, turn, run,
}
use winsock_multi_thread_ser.Tutorial.Produce.Alternation.{
  upto, Going, producer-Going, consumer-Going, create_start-Going,
}

-- The places that are left when `RunFlag` is not set, and those behind `Release`.
abbrev leaving_p : Producer → ℕ
leaving_p Producer.testing = 0
leaving_p Producer.counting = 0
leaving_p (Producer.linking n) = 0
leaving_p Producer.starting = 0
leaving_p _ = 1

abbrev leaving_c : Consumer → ℕ
leaving_c Consumer.starting = 1
leaving_c Consumer.loop = 1
leaving_c Consumer.releasing = 1
leaving_c Consumer.ending = 1
leaving_c Consumer.over = 1
leaving_c _ = 0

abbrev gone_p : Producer → ℕ
gone_p Producer.ending = 1
gone_p Producer.over = 1
gone_p _ = 0

abbrev end_p : Producer → ℕ
end_p Producer.over = 1
end_p _ = 0

abbrev end_c : Consumer → ℕ
end_c Consumer.over = 1
end_c _ = 0

module _ (max : ℕ) where
  -- All tasks are printed, and both threads leave: the producer does not wait for ever.
  pub record Stopped (w : Test) : Type 0 where
    pub halts : w.run_flag ≡ false
    pub all_counted : w.task_counter ≡ max
    pub nothing : w.task_list ≡ []
    pub all_printed : w.printed ≡ upto max
    pub leaves_p : leaving_p w.producer ≡ 1
    pub leaves_c : leaving_c w.consumer ≡ 1
    pub wakes :
        w.producer ≡ Producer.waiting
        → (w.consumer ≡ Consumer.starting) ⊎ (returns w.producer_event ≡ true)
    pub wakes_p : w.producer ≡ Producer.woken → w.producer_event ≡ on
    pub shut : w.producer_event ≡ closed → gone_p w.producer ≡ 1
    pub ended : w.end_counter ≡ end_p w.producer + end_c w.consumer

  producer-Stopped :
      (p : Producer) (w : Test) → w.producer ≡ p → Stopped w → Stopped (producer_at max p w)
  unfolding producer_at counted
  producer-Stopped Producer.loop w e v = ground arith
  producer-Stopped Producer.waiting w e v = ground arith
  producer-Stopped Producer.woken w e v = ground arith
  producer-Stopped Producer.inner w e v = ground arith
  producer-Stopped Producer.testing w e v = ground arith
  producer-Stopped Producer.counting w e v = ground arith
  producer-Stopped (Producer.linking n) w e v = ground arith
  producer-Stopped Producer.starting w e v = ground arith
  producer-Stopped Producer.releasing w e v = ground arith
  producer-Stopped Producer.ending w e v = ground arith
  producer-Stopped Producer.over w e v = v

  consumer-Stopped :
      (c : Consumer) (w : Test) → w.consumer ≡ c → Stopped w → Stopped (consumer_at max c w)
  unfolding consumer_at counted
  consumer-Stopped Consumer.loop w e v = ground arith
  consumer-Stopped Consumer.waiting w e v = ground arith
  consumer-Stopped Consumer.woken w e v = ground arith
  consumer-Stopped Consumer.taking w e v = ground arith
  consumer-Stopped (Consumer.printing n) w e v = ground arith
  consumer-Stopped (Consumer.unlinking n) w e v = ground arith
  consumer-Stopped Consumer.testing w e v = ground arith
  consumer-Stopped Consumer.stopping w e v = ground arith
  consumer-Stopped Consumer.starting w e v = ground arith
  consumer-Stopped Consumer.releasing w e v = ground arith
  consumer-Stopped Consumer.ending w e v = ground arith
  consumer-Stopped Consumer.over w e v = v

  create_start-Stopped : (w : Test) → Stopped w → Stopped (create_start w)
  unfolding create_start
  create_start-Stopped w v = ground arith

  stopping-Stopped :
      (w : Test)
      → w.consumer ≡ Consumer.stopping
      → Going max w
      → Stopped (consumer_at max Consumer.stopping w)
  unfolding consumer_at
  stopping-Stopped w e v = ground (arith, e, v)

  -- Either way, in whatever order the threads go on.
  abbrev pub Runs : Test → Type 0
  Runs w = Going max w ⊎ Stopped w

  consumer-Runs :
      (c : Consumer) (w : Test) → w.consumer ≡ c → Going max w → Runs (consumer_at max c w)
  consumer-Runs Consumer.loop w e v = inl (consumer-Going max Consumer.loop w e (λ q. cc) v)
  consumer-Runs Consumer.waiting w e v = inl (consumer-Going max Consumer.waiting w e (λ q. cc) v)
  consumer-Runs Consumer.woken w e v = inl (consumer-Going max Consumer.woken w e (λ q. cc) v)
  consumer-Runs Consumer.taking w e v = inl (consumer-Going max Consumer.taking w e (λ q. cc) v)
  consumer-Runs (Consumer.printing n) w e v =
      inl (consumer-Going max (Consumer.printing n) w e (λ q. cc) v)
  consumer-Runs (Consumer.unlinking n) w e v =
      inl (consumer-Going max (Consumer.unlinking n) w e (λ q. cc) v)
  consumer-Runs Consumer.testing w e v = inl (consumer-Going max Consumer.testing w e (λ q. cc) v)
  consumer-Runs Consumer.starting w e v = inl (consumer-Going max Consumer.starting w e (λ q. cc) v)
  consumer-Runs Consumer.releasing w e v =
      inl (consumer-Going max Consumer.releasing w e (λ q. cc) v)
  consumer-Runs Consumer.ending w e v = inl (consumer-Going max Consumer.ending w e (λ q. cc) v)
  consumer-Runs Consumer.over w e v = inl (consumer-Going max Consumer.over w e (λ q. cc) v)
  consumer-Runs Consumer.stopping w e v = inr (stopping-Stopped w e v)

  pub turn-Runs : (t : Turn) (w : Test) → max < 2 ^ 32 → Runs w → Runs (turn max t w)
  unfolding turn
  turn-Runs Turn.main w small (inl v) = inl (create_start-Going max w v)
  turn-Runs Turn.main w small (inr v) = inr (create_start-Stopped w v)
  turn-Runs Turn.producer w small (inl v) = inl (producer-Going max w.producer w refl v small)
  turn-Runs Turn.producer w small (inr v) = inr (producer-Stopped w.producer w refl v)
  turn-Runs Turn.consumer w small (inl v) = consumer-Runs w.consumer w refl v
  turn-Runs Turn.consumer w small (inr v) = inr (consumer-Stopped w.consumer w refl v)

  pub run-Runs : (ts : List Turn) (w : Test) → max < 2 ^ 32 → Runs w → Runs (run max ts w)
  unfolding run
  run-Runs [] w small v = v
  run-Runs (t ∷ ts) w small v = run-Runs ts (turn max t w) small (turn-Runs t w small v)

  pub created-Runs : 0 < max → Runs created
  created-Runs some_tasks = inl (ground (arith, some_tasks))
