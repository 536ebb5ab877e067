-- ===== src/Examples/Tasks.antt =====
-- Tests of the task list.
use winsock_multi_thread_ser.Base.{[], ◌∷◌, arith, Returns}
use winsock_multi_thread_ser.Task.{TaskNode, rounds}
use winsock_multi_thread_ser.Task.Counts.{count_calls, Counted, rounds-Counted}

-- Two runs, at least 50 milliseconds apart.
abbrev task : TaskNode
task = record {
  task_number = 1;
  delay_time = 50;
  run_count = 2;
  user_data = 0;
  timer = record { start_time = 0; end_time = 0 };
}

rounds-Counted_example :
    Returns
      (λ r. Counted 2 0 r)
      (rounds count_calls (100 ∷ 120 ∷ 160 ∷ 230 ∷ 300 ∷ []) (task ∷ []) 0)
rounds-Counted_example =
    rounds-Counted (100 ∷ 120 ∷ 160 ∷ 230 ∷ 300 ∷ []) task 0 (omega arith) (omega arith)
