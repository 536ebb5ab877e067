-- ===== src/Tutorial/Produce/Alternation.antt =====
-- Which of the two threads may go on, and what they have done by then.
use winsock_multi_thread_ser.Base.{
  ℕ, zero, suc, ◌+◌, ◌%◌, ◌^◌, ==-refl, ◌<◌, ◌≤◌, ◌≡◌, ◌≢◌, refl, sym, ap, ◌∙◌, Bool, true, false,
  some, List, [], ◌∷◌, ◌++◌, arith, erase, append_nil, append_assoc,
}
use winsock_multi_thread_ser.Tutorial.Produce.{
  Signal, off, on, closed, Producer, Consumer, Test, create_start, counted, producer_at,
  lock_get_head_node, taken, consumer_at,
}

-- 1, 2 and so on.
abbrev pub upto : ℕ → List ℕ
upto zero = []
upto (suc n) = upto n ++ suc n ∷ []

abbrev pub lit : Signal → ℕ
lit off = 0
lit on = 1
lit closed = 2

abbrev pub unstarted : Bool → ℕ
unstarted false = 1
unstarted true = 0

-- 1 behind `ResetEvent` and up to the start of the other thread, 2 behind the loop.
abbrev pub busy_p : Producer → ℕ
busy_p Producer.loop = 0
busy_p Producer.waiting = 0
busy_p Producer.woken = 0
busy_p Producer.releasing = 2
busy_p Producer.ending = 2
busy_p Producer.over = 2
busy_p _ = 1

abbrev pub busy_c : Consumer → ℕ
busy_c Consumer.loop = 0
busy_c Consumer.waiting = 0
busy_c Consumer.woken = 0
busy_c Consumer.releasing = 2
busy_c Consumer.ending = 2
busy_c Consumer.over = 2
busy_c _ = 1

abbrev pub woken_p : Producer → ℕ
woken_p Producer.woken = 1
woken_p _ = 0

abbrev pub woken_c : Consumer → ℕ
woken_c Consumer.woken = 1
woken_c _ = 0

-- Before the next task is counted, and behind `LockLink`.
abbrev early_p : Producer → ℕ
early_p Producer.inner = 1
early_p Producer.testing = 1
early_p Producer.counting = 1
early_p _ = 0

abbrev late_p : Producer → ℕ
late_p Producer.starting = 1
late_p _ = 0

-- Between two nodes, and behind the last one.
abbrev early_c : Consumer → ℕ
early_c Consumer.taking = 1
early_c (Consumer.printing n) = 1
early_c _ = 0

abbrev late_c : Consumer → ℕ
late_c Consumer.testing = 1
late_c Consumer.stopping = 1
late_c Consumer.starting = 1
late_c _ = 0

module _ (max : ℕ) where
  -- While `RunFlag` is set, just one of the two threads, or an event, is on its way.
  pub record Going (w : Test) : Type 0 where
    pub runs : w.run_flag ≡ true
    pub token :
        unstarted w.create_over
          + lit w.producer_event
          + lit w.consumer_event
          + busy_p w.producer
          + busy_c w.consumer
        ≡ 1
    pub wakes_p : woken_p w.producer ≤ lit w.producer_event
    pub wakes_c : woken_c w.consumer ≤ lit w.consumer_event
    pub none_over : w.end_counter ≡ 0
    pub at_most : w.task_counter ≤ max
    pub before :
        unstarted w.create_over + lit w.producer_event + early_p w.producer ≡ 1
        → (w.task_counter < max) × (w.task_list ≡ []) × (w.printed ≡ upto w.task_counter)
    pub links :
        (n : ℕ)
        → w.producer ≡ Producer.linking n
        → (w.task_list ≡ []) × (w.printed ++ n ∷ [] ≡ upto w.task_counter)
    pub behind :
        late_p w.producer + lit w.consumer_event + early_c w.consumer ≡ 1
        → w.printed ++ w.task_list ≡ upto w.task_counter
    pub prints :
        (n : ℕ) → w.consumer ≡ Consumer.printing n → lock_get_head_node w.task_list ≡ some n
    pub unlinks :
        (n : ℕ)
        → w.consumer ≡ Consumer.unlinking n
        → (lock_get_head_node w.task_list ≡ some n)
          × (w.printed ++ erase n w.task_list ≡ upto w.task_counter)
    pub done : late_c w.consumer ≡ 1 → (w.task_list ≡ []) × (w.printed ≡ upto w.task_counter)
    pub stops : w.consumer ≡ Consumer.stopping → w.task_counter ≡ max
    pub goes : w.consumer ≡ Consumer.starting → w.task_counter < max

early_c-le : (c : Consumer) → early_c c + late_c c ≤ busy_c c
early_c-le c = ground arith

early_p-le : (p : Producer) → early_p p + late_p p ≤ busy_p p
early_p-le p = ground arith

module _ (max : ℕ) where
  pub counting-Going :
      (w : Test)
      → w.producer ≡ Producer.counting
      → Going max w
      → max < 2 ^ 32
      → Going max (producer_at max Producer.counting w)
  unfolding producer_at counted
  counting-Going w e v small =
      let (few, nothing, now) = v.before (ground (arith, e, v.token, early_c-le w.consumer)) in
      let next : (w.task_counter + 1) % 2 ^ 32 ≡ suc w.task_counter = omega (arith, few, small) in
      let then_next : w.printed ++ (w.task_counter + 1) % 2 ^ 32 ∷ []
          ≡ upto ((w.task_counter + 1) % 2 ^ 32) =
        rw (next, now) refl in
      ground (arith, e, few, nothing, then_next, early_c-le w.consumer, early_p-le w.producer)

  pub producer-Going :
      (p : Producer) (w : Test)
      → w.producer ≡ p
      → Going max w
      → max < 2 ^ 32
      → Going max (producer_at max p w)
  unfolding producer_at counted
  producer-Going Producer.loop w e v small =
      ground (arith, early_c-le w.consumer, early_p-le w.producer)
  producer-Going Producer.waiting w e v small =
      ground (arith, early_c-le w.consumer, early_p-le w.producer)
  producer-Going Producer.woken w e v small =
      ground (arith, early_c-le w.consumer, early_p-le w.producer)
  producer-Going Producer.inner w e v small =
      ground (arith, early_c-le w.consumer, early_p-le w.producer)
  producer-Going Producer.testing w e v small =
      ground (arith, early_c-le w.consumer, early_p-le w.producer)
  producer-Going Producer.counting w e v small = counting-Going w e v small
  producer-Going (Producer.linking n) w e v small =
      let (nothing, then_n) = v.links n e in
      let all : w.printed ++ (w.task_list ++ n ∷ []) ≡ upto w.task_counter = rw nothing then_n in
      ground (arith, all, early_c-le w.consumer, early_p-le w.producer)
  producer-Going Producer.starting w e v small =
      ground (arith, early_c-le w.consumer, early_p-le w.producer)
  producer-Going Producer.releasing w e v small =
      ground (arith, early_c-le w.consumer, early_p-le w.producer)
  producer-Going Producer.ending w e v small =
      ground (arith, early_c-le w.consumer, early_p-le w.producer)
  producer-Going Producer.over w e v small = v

  taking-Going :
      (w : Test)
      → (tasks : List ℕ) → w.task_list ≡ tasks
      → w.consumer ≡ Consumer.taking
      → Going max w
      → Going max (record w { consumer = taken (lock_get_head_node tasks) })
  taking-Going w [] q e v =
      let now = v.behind (ground (arith, e, v.token, early_p-le w.producer)) in
      let all : w.printed ≡ upto w.task_counter =
        sym (append_nil w.printed) ∙ ap (λ l. w.printed ++ l) (sym q) ∙ now in
      ground (arith, e, q, all, early_p-le w.producer)
  taking-Going w (n ∷ tasks) q e v = ground (arith, e, q, early_p-le w.producer)

  printing-Going :
      (w : Test) (n : ℕ) (tasks : List ℕ)
      → w.task_list ≡ tasks
      → w.consumer ≡ Consumer.printing n
      → Going max w
      → Going max (record w { consumer = Consumer.unlinking n; printed = w.printed ++ n ∷ [] })
  printing-Going w n [] q e v = absurd (ground (arith, v.prints n e, q))
  printing-Going w n (h ∷ tasks) q e v =
      let same : h ≡ n = ground (arith, v.prints n e, q) in
      let now = v.behind (ground (arith, e, v.token, early_p-le w.producer)) in
      let rest : erase n w.task_list ≡ tasks = rw (q, same, ==-refl n) refl in
      let all : (w.printed ++ n ∷ []) ++ erase n w.task_list ≡ upto w.task_counter =
        ap (λ l. (w.printed ++ n ∷ []) ++ l) rest
        ∙ append_assoc w.printed (n ∷ []) tasks
        ∙ ap (λ x. w.printed ++ x ∷ tasks) (sym same)
        ∙ ap (λ l. w.printed ++ l) (sym q)
        ∙ now in
      ground (arith, e, v.prints n e, all, early_p-le w.producer)

  pub consumer-Going :
      (c : Consumer) (w : Test)
      → w.consumer ≡ c
      → c ≢ Consumer.stopping
      → Going max w
      → Going max (consumer_at max c w)
  unfolding consumer_at
  consumer-Going Consumer.loop w e ne v = ground (arith, early_p-le w.producer)
  consumer-Going Consumer.waiting w e ne v = ground (arith, early_p-le w.producer)
  consumer-Going Consumer.woken w e ne v = ground (arith, early_p-le w.producer)
  consumer-Going Consumer.taking w e ne v = taking-Going w w.task_list refl e v
  consumer-Going (Consumer.printing n) w e ne v = printing-Going w n w.task_list refl e v
  consumer-Going (Consumer.unlinking n) w e ne v =
      ground (arith, v.unlinks n e, early_p-le w.producer)
  consumer-Going Consumer.testing w e ne v = ground (arith, early_p-le w.producer)
  consumer-Going Consumer.stopping w e ne v = absurd (ne refl)
  consumer-Going Consumer.starting w e ne v = ground (arith, early_p-le w.producer)
  consumer-Going Consumer.releasing w e ne v = ground (arith, early_p-le w.producer)
  consumer-Going Consumer.ending w e ne v = ground (arith, early_p-le w.producer)
  consumer-Going Consumer.over w e ne v = v

  pub create_start-Going : (w : Test) → Going max w → Going max (create_start w)
  unfolding create_start
  create_start-Going w v = ground (arith, early_p-le w.producer, early_c-le w.consumer)
