-- ===== src/Tutorial/Produce/Ends.antt =====
-- The producer and the consumer come to their ends.
use mathlib.Core.Path.{subst}
use winsock_multi_thread_ser.Base.{
  ℕ, ◌+◌, ◌*◌, ◌^◌, ◌<◌, ◌≤◌, ◌≡◌, refl, sym, ap, ◌∙◌, inl, inr, ◌⊎◌, true, List, [], ◌∷◌, ◌++◌,
  arith, length,
}
use winsock_multi_thread_ser.Tutorial.Produce.{
  Producer, Consumer, Test, created, create_start, Turn, turn, run, wait,
}
use winsock_multi_thread_ser.Tutorial.Produce.Alternation.{upto}
use winsock_multi_thread_ser.Tutorial.Produce.Stop.{
  Stopped, Runs, turn-Runs, run-Runs, created-Runs,
}
use winsock_multi_thread_ser.Tutorial.Produce.Steps.{
  ProducerRests, ConsumerRests, steps, Rests, turn-steps, Rests-turn,
}

-- Both threads are at their ends.
abbrev pub Over : Test → Type 0
Over w = (w.producer ≡ Producer.over) × (w.consumer ≡ Consumer.over)

-- The rounds: everybody is in each of them.
abbrev Has : Turn → List Turn → Type 0
Has t [] = ⊥
Has t (x ∷ xs) = (t ≡ x) ⊎ Has t xs

abbrev pub AreRounds : List (List Turn) → Type 0
AreRounds [] = Unit {0}
AreRounds (r ∷ rs) = ((t : Turn) → Has t r) × AreRounds rs

abbrev pub in_rounds : List (List Turn) → List Turn
in_rounds [] = []
in_rounds (r ∷ rs) = r ++ in_rounds rs

module _ (max : ℕ) where
  -- If nobody can go on, both are over.
  Rests-Over :
      (w : Test) → Runs max w → w.create_over ≡ true → ProducerRests w → ConsumerRests w → Over w
  Rests-Over w (inl v) main p c = absurd (ground (arith, v, main, p, c))
  Rests-Over w (inr v) main p c = ground (arith, v, main, p, c)

  run-le :
      (ts : List Turn) (w : Test)
      → max < 2 ^ 32
      → Runs max w
      → steps max (run max ts w) ≤ steps max w
  unfolding run
  run-le [] w small v = omega arith
  run-le (t ∷ ts) w small v =
      let rest = run-le ts (turn max t w) small (turn-Runs max t w small v) in
      elim (turn-steps max t w small v) [
        | inl r ↦ omega (arith, rest, ap (steps max) (Rests-turn max t w r))
        | inr lower ↦ omega (arith, rest, lower)
      ]

  -- A round in which nobody could do anything, or some step was done.
  round-steps :
      (r : List Turn) (w : Test)
      → max < 2 ^ 32
      → Runs max w
      → ((t : Turn) → Has t r → Rests max t w) ⊎ (steps max (run max r w) < steps max w)
  unfolding run
  round-steps [] w small v = inl (λ t i. absurd i)
  round-steps (t ∷ r) w small v = elim (turn-steps max t w small v) [
    | inl rests ↦
        let same = Rests-turn max t w rests in
        elim (round-steps r w small v) [
          | inl all ↦
              inl (λ u i. elim i [
                | inl e ↦ subst (λ x. Rests max x w) (sym e) rests
                | inr j ↦ all u j
              ])
          | inr lower ↦ inr (subst (λ x. steps max (run max r x) < steps max w) (sym same) lower)
        ]
    | inr lower ↦
        inr (omega (arith, lower, run-le r (turn max t w) small (turn-Runs max t w small v)))
  ]

  run-Over : (ts : List Turn) (w : Test) → Over w → Over (run max ts w)
  unfolding run turn create_start
  run-Over [] w o = o
  run-Over (Turn.main ∷ ts) w o = run-Over ts (create_start w) (ground arith)
  run-Over (Turn.producer ∷ ts) w (p, c) =
      subst (λ x. Over (run max ts x)) (sym (Rests-turn max Turn.producer w (inl p)))
        (run-Over ts w (p, c))
  run-Over (Turn.consumer ∷ ts) w (p, c) =
      subst (λ x. Over (run max ts x)) (sym (Rests-turn max Turn.consumer w (inl c)))
        (run-Over ts w (p, c))

  run-append : (ts us : List Turn) (w : Test) → run max (ts ++ us) w ≡ run max us (run max ts w)
  unfolding run
  run-append [] us w = refl
  run-append (t ∷ ts) us w = run-append ts us (turn max t w)

  rounds-Over :
      (rs : List (List Turn)) (w : Test)
      → max < 2 ^ 32
      → Runs max w
      → AreRounds rs
      → steps max w ≤ length rs
      → Over (run max (in_rounds rs) w)
  unfolding run
  rounds-Over [] w small v all few = ground (arith, few)
  rounds-Over (r ∷ rs) w small v all few =
      subst Over (sym (run-append r (in_rounds rs) w)) (elim (round-steps r w small v) [
        | inl rest ↦
            let over =
              Rests-Over w v (rest Turn.main (all.0 Turn.main))
                (rest Turn.producer (all.0 Turn.producer))
                (rest Turn.consumer (all.0 Turn.consumer)) in
            run-Over (in_rounds rs) (run max r w) (run-Over r w over)
        | inr lower ↦
            rounds-Over rs (run max r w) small (run-Runs max r w small v) all.1
              (omega (arith, few, lower))
      ])

  Over-printed : (w : Test) → Runs max w → Over w → (wait w ≡ true) × Stopped max w
  unfolding wait
  Over-printed w (inl v) o = absurd (ground (arith, v, o))
  Over-printed w (inr v) (p, c) =
      let two : w.end_counter ≡ 2 = v.ended ∙ (rw (p, c) refl) in (rw two refl, v)

-- When `Wait` returns, in whatever order the threads have gone on, both threads are at their ends, and the
-- consumer has printed the tasks from 1 to `max` in this order, each once. `max` is not 0 and below 2 ^ 32.
pub wait-printed :
    (max : ℕ) (ts : List Turn)
    → 0 < max
    → max < 2 ^ 32
    → wait (run max ts created) ≡ true
    → let w = run max ts created in Over w × (w.printed ≡ upto max) × (w.task_list ≡ [])
unfolding wait
wait-printed max ts some_tasks small waited =
    elim (run-Runs max ts created small (created-Runs max some_tasks)) [
      | inl v ↦ absurd (ground (arith, v.none_over, waited))
      | inr v ↦ (ground (arith, v.ended, waited), v.all_printed, v.nothing)
    ]

-- `Wait` returns: if the two threads, and the thread that creates them, are given the processor in each
-- round, in any order, then 30 rounds for each task and 29 more are enough, for at least one task and
-- fewer than 2 ^ 32.
pub wait-turns :
    (max : ℕ) (rs : List (List Turn))
    → 0 < max
    → max < 2 ^ 32
    → AreRounds rs
    → 30 * max + 29 ≤ length rs
    → wait (run max (in_rounds rs) created) ≡ true
wait-turns max rs some_tasks small all enough =
    let first = created-Runs max some_tasks in
    let over = rounds-Over max rs created small first all (omega (arith, enough)) in
    (Over-printed max (run max (in_rounds rs) created)
      (run-Runs max (in_rounds rs) created small first) over).0
