-- ===== src/Task.antt =====
-- MintServer/src/MTLibrary/Task.h and Task.cpp: tasks that run after a delay, a number of times. The
-- list of tasks is the sequence of its nodes.
pub mod Counts
use winsock_multi_thread_ser.Base.{
  ℕ, ◌+◌, ◌-◌, ◌%◌, ◌^◌, Bool, true, false, not, List, [], ◌∷◌, ◌++◌, leb, ◌==◌, ◌||◌,
  if◌then◌else◌, length, Ptr, u32, Run, ok, fault, ◌>>=◌,
}
use winsock_multi_thread_ser.Tool.{TimerInfo, s_delay_time}

-- `TASK_RUN_COUNT_UNLIMITED`: -1234 as the bits of an `INT`.
abbrev pub task_run_count_unlimited : ℕ
task_run_count_unlimited = 2 ^ 32 - 1234

-- `TaskNode`, with the bits of its `RunCount`.
pub record TaskNode : Type 0 where
  pub task_number : ℕ
  pub delay_time : ℕ
  pub run_count : ℕ
  pub user_data : Ptr
  pub timer : TimerInfo

-- `vAddTask`, in a node whose bytes are 0.
unfoldable pub v_add_task : ℕ → ℕ → ℕ → Ptr → List TaskNode → List TaskNode
v_add_task task_number delay_time run_count user_data tasks =
    tasks
    ++ record {
      task_number = task_number;
      delay_time = delay_time;
      run_count = run_count;
      user_data = user_data;
      timer = record { start_time = 0; end_time = 0 };
    }
      ∷ []

-- `vGetTaskCount`.
pub v_get_task_count : List TaskNode → ℕ
v_get_task_count tasks = length tasks

-- `--node->RunCount`, undefined at the least `INT`.
pub lowered : ℕ → Run ℕ
lowered n = if n == 2 ^ 31 then fault else ok ((n + (u32 - 1)) % u32)

-- `n <= 0` for the bits of an `INT`.
pub not_positive : ℕ → Bool
not_positive n = n == 0 || leb (2 ^ 31) n

-- The count of a task that ran, and whether the task stays.
pub count_down : TaskNode → Run (TaskNode × Bool)
unfolding lowered not_positive
count_down t =
    if t.run_count == task_run_count_unlimited
    then ok (t, true)
    else do n ← lowered t.run_count; ok (record t { run_count = n }, not (not_positive n))

module _ {A : Type 0} (v_on_run_task : A → TaskNode → Run (A × TaskNode)) where
  -- The loop of `vRunTask`, where `now` are the times at its tasks. The interface, with members `A`,
  -- may change the node that it is called with.
  pub v_run_task : (ℕ → ℕ) → List TaskNode → A → Run (A × List TaskNode)
  unfolding count_down
  v_run_task now [] a = ok (a, [])
  v_run_task now (t ∷ ts) a =
      let r = s_delay_time (now 0) t.timer t.delay_time in
      let polled : TaskNode = record t { timer = r.1 } in
      if r.0
      then (do
        (a, ran) ← v_on_run_task a polled
        (counted, stays) ← count_down ran
        (a, rest) ← v_run_task (λ i. now (i + 1)) ts a
        ok (a, (if stays then counted ∷ rest else rest)))
      else do (a, rest) ← v_run_task (λ i. now (i + 1)) ts a; ok (a, polled ∷ rest)

  -- `vRunTask` again and again, at the given times.
  pub rounds : List ℕ → List TaskNode → A → Run (A × List TaskNode)
  unfolding v_run_task
  rounds [] ts a = ok (a, ts)
  rounds (now ∷ rest) ts a = do (a, ts) ← v_run_task (λ i. now) ts a; rounds rest ts a
