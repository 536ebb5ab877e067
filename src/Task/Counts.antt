-- ===== src/Task/Counts.antt =====
-- How often a task runs.
use winsock_multi_thread_ser.Base.{
  ℕ, zero, suc, ◌+◌, ◌^◌, ◌<◌, ◌≡◌, refl, Bool, false, inl, inr, List, [], ◌∷◌, arith, ◌==◌,
  if◌then◌else◌, Bool-cases, not, leb, ◌-◌, ◌%◌, u32, Run, ok, fault, out_of_fuel, ◌>>=◌, Returns,
  returns,
}
use winsock_multi_thread_ser.Tool.{s_delay_time}
use winsock_multi_thread_ser.Task.{
  TaskNode, lowered, not_positive, count_down, v_run_task, rounds, task_run_count_unlimited,
}

-- An interface that counts its calls.
abbrev pub count_calls : ℕ → TaskNode → Run (ℕ × TaskNode)
count_calls a t = ok (suc a, t)

-- `k` runs were asked for, `start` calls were made before: the task has been run `k` times and is
-- gone, or it is linked with as many runs to come as are missing, one at least.
abbrev pub Counted : ℕ → ℕ → ℕ × List TaskNode → Type 0
Counted k start (a, []) = a ≡ start + k
Counted k start (a, t ∷ []) = (0 < t.run_count) × (a + t.run_count ≡ start + k)
Counted k start (a, t ∷ u ∷ ts) = ⊥

rounds-nil : (times : List ℕ) (a : ℕ) → rounds count_calls times [] a ≡ ok (a, [])
unfolding rounds v_run_task
rounds-nil [] a = refl
rounds-nil (now ∷ rest) a = rounds-nil rest a

Counted-suc : (k a : ℕ) (r : ℕ × List TaskNode) → Counted k (suc a) r → Counted (suc k) a r
Counted-suc k a (b, []) h = omega (arith, h)
Counted-suc k a (b, t ∷ []) h = (h.0, omega (arith, h.1))
Counted-suc k a (b, t ∷ u ∷ ts) h = absurd h

Returns-Counted :
    (k a : ℕ) (m : Run (ℕ × List TaskNode))
    → Returns (λ r. Counted k (suc a) r) m
    → Returns (λ r. Counted (suc k) a r) m
Returns-Counted k a (ok r) (returns h) = returns (Counted-suc k a r h)
Returns-Counted k a fault h = elim h [ ]
Returns-Counted k a out_of_fuel h = elim h [ ]

-- A run is counted: the task stays if there are more to come.
count_down-suc :
    (t : TaskNode) (k : ℕ)
    → t.run_count ≡ suc k
    → suc k < 2 ^ 31
    → count_down t ≡ ok (record t { run_count = k }, not (k == 0))
unfolding count_down lowered not_positive
count_down-suc t k e small =
    let limited : (suc k == task_run_count_unlimited) ≡ false = ground (arith, small) in
    let defined : (suc k == 2 ^ 31) ≡ false = ground (arith, small) in
    let less : (suc k + (u32 - 1)) % u32 ≡ k = omega (arith, small) in
    let signed : leb (2 ^ 31) k ≡ false = ground (arith, small) in
    rw (e, limited, defined, less, signed) (ground arith)

-- What is left of the only task behind a round.
abbrev end_round : ℕ → TaskNode × Bool → Run (ℕ × List TaskNode)
end_round a x = ok (a, (if x.1 then x.0 ∷ [] else []))

-- The end of a round in which the task ran, and the rounds behind it.
due-Counted :
    (rest : List ℕ) (t : TaskNode) (a k : ℕ)
    → t.run_count ≡ suc k
    → suc k < 2 ^ 31
    → ((u : TaskNode)
        → u.run_count ≡ k
        → 0 < k
        → Returns (λ r. Counted k (suc a) r) (rounds count_calls rest (u ∷ []) (suc a)))
    → Returns
        (λ r. Counted t.run_count a r)
        ((count_down t >>= end_round (suc a)) >>= (λ x. rounds count_calls rest x.1 x.0))
due-Counted rest t a zero e small later =
    rw (count_down-suc t 0 e small, rounds-nil rest (suc a)) (returns (omega (arith, e)))
due-Counted rest t a (suc k) e small later =
    let stays : (suc k == 0) ≡ false = ground arith in
    rw (count_down-suc t (suc k) e small, stays, e)
      (Returns-Counted (suc k) a _ (later (record t { run_count = suc k }) refl (omega arith)))

-- A task with a run count, alone in the list: over any number of rounds of `vRunTask` at any times,
-- the interface is called at most that often; while the task is linked its `RunCount` says how many
-- runs are to come; and it leaves the list exactly when the last of them has been made.
pub rounds-Counted :
    (times : List ℕ) (t : TaskNode) (a : ℕ)
    → 0 < t.run_count
    → t.run_count < 2 ^ 31
    → Returns (λ r. Counted t.run_count a r) (rounds count_calls times (t ∷ []) a)
unfolding rounds v_run_task
rounds-Counted [] t a pos small = returns (pos, refl)
rounds-Counted (now ∷ rest) t a pos small =
    elim (Bool-cases (s_delay_time now t.timer t.delay_time).0) [
      | inl due ↦
          let ran : TaskNode = record t { timer = (s_delay_time now t.timer t.delay_time).1 } in
          let one_more : t.run_count ≡ suc (t.run_count - 1) = omega (arith, pos) in
          let left =
            due-Counted rest ran a (t.run_count - 1) one_more (omega (arith, pos, small)) in
          rw due (
            left (λ u same more. rw (← same) (
              rounds-Counted rest u (suc a) (omega (arith, same, more))
                (omega (arith, same, small)))))
      | inr early ↦ rw early (
          rounds-Counted rest (record t { timer = (s_delay_time now t.timer t.delay_time).1 }) a pos
            small)
    ]
