-- ===== src/Tutorial/Produce.antt =====
-- Example/Toturial-3/5 - thread - producer consumer list/thread - producer consumer list/main.cpp: one
-- thread links tasks to a list, another one takes them off, and each wakes the other.
pub mod Alternation
pub mod Stop
pub mod Steps
pub mod Ends
use winsock_multi_thread_ser.Base.{
  ℕ, ◌+◌, ◌%◌, ◌^◌, Bool, true, false, Option, none, some, List, [], ◌∷◌, ◌++◌, ltb, ◌==◌,
  if◌then◌else◌, erase,
}

-- The event of a thread: `closed` behind `Release`.
pub data Signal : Type 0 where
  off : Signal
  on : Signal
  closed : Signal

-- `SetEvent` and `ResetEvent` do nothing without an event.
abbrev pub set_event : Signal → Signal
set_event closed = closed
set_event _ = on

abbrev pub reset_event : Signal → Signal
reset_event closed = closed
reset_event _ = off

-- Where `Producer_InThread` is: in front of its outer test, of `WaitForSingleObject`, of `ResetEvent`, of
-- its inner test, of the test of `TaskCounter`, of its increment, of `LockLink`, of the start of the
-- other thread, of `Release`, of the increment of `EndCounter`, or at its end.
pub data Producer : Type 0 where
  loop : Producer
  waiting : Producer
  woken : Producer
  inner : Producer
  testing : Producer
  counting : Producer
  linking : (counter : ℕ) → Producer
  starting : Producer
  releasing : Producer
  ending : Producer
  over : Producer

-- Where `Consumer_InThread` is: in front of its test, of `WaitForSingleObject`, of `ResetEvent`, of
-- `LockGetHeadNode`, of `printf` and of `LockUnlinkFreeNode` for a node, of the test of `TaskCounter`, of
-- the change of `RunFlag`, of the start of the other thread, and so on.
pub data Consumer : Type 0 where
  loop : Consumer
  waiting : Consumer
  woken : Consumer
  taking : Consumer
  printing : (node : ℕ) → Consumer
  unlinking : (node : ℕ) → Consumer
  testing : Consumer
  stopping : Consumer
  starting : Consumer
  releasing : Consumer
  ending : Consumer
  over : Consumer

-- `TestThread`: `task_list` holds the `Counter` of each node, which no two nodes share, and stands for the
-- node. `printed` is what the consumer has printed; `create_over` says that `Create` has started the
-- producer.
pub record Test : Type 0 where
  pub task_list : List ℕ
  pub run_flag : Bool
  pub task_counter : ℕ
  pub end_counter : ℕ
  pub producer_event : Signal
  pub consumer_event : Signal
  pub create_over : Bool
  pub producer : Producer
  pub consumer : Consumer
  pub printed : List ℕ

-- `Create`, up to its call of `Start`.
abbrev pub created : Test
created = record {
  task_list = [];
  run_flag = true;
  task_counter = 0;
  end_counter = 0;
  producer_event = off;
  consumer_event = off;
  create_over = false;
  producer = Producer.loop;
  consumer = Consumer.loop;
  printed = [];
}

-- The call of `Start` in `Create`.
unfoldable pub create_start : Test → Test
create_start w =
    if w.create_over
    then w
    else record w { create_over = true; producer_event = set_event w.producer_event }

-- `WaitForSingleObject` returns at once without an event.
abbrev pub returns : Signal → Bool
returns off = false
returns _ = true

unfoldable pub counted : ℕ → ℕ
counted n = (n + 1) % 2 ^ 32

-- The next step of the producer. `max` is 2000 in the source.
unfoldable pub producer_at : ℕ → Producer → Test → Test
unfolding counted
producer_at max loop w = record w {
  producer = if w.run_flag then Producer.waiting else Producer.releasing;
}
producer_at max waiting w =
    if returns w.producer_event then record w { producer = Producer.woken } else w
producer_at max woken w = record w {
  producer = Producer.inner;
  producer_event = reset_event w.producer_event;
}
producer_at max inner w = record w {
  producer = if w.run_flag then Producer.testing else Producer.loop;
}
producer_at max testing w = record w {
  producer = if ltb w.task_counter max then Producer.counting else Producer.starting;
}
producer_at max counting w = record w {
  producer = Producer.linking (counted w.task_counter);
  task_counter = counted w.task_counter;
}
producer_at max (linking n) w = record w {
  producer = Producer.starting;
  task_list = w.task_list ++ n ∷ [];
}
producer_at max starting w = record w {
  producer = Producer.loop;
  consumer_event = set_event w.consumer_event;
}
producer_at max releasing w = record w { producer = Producer.ending; producer_event = closed }
producer_at max ending w = record w {
  producer = Producer.over;
  end_counter = counted w.end_counter;
}
producer_at max over w = w

-- `LockGetHeadNode`, as the node or the null pointer.
abbrev pub lock_get_head_node : List ℕ → Option ℕ
lock_get_head_node [] = none
lock_get_head_node (n ∷ tasks) = some n

abbrev pub taken : Option ℕ → Consumer
taken none = Consumer.testing
taken (some n) = Consumer.printing n

-- The next step of the consumer.
unfoldable pub consumer_at : ℕ → Consumer → Test → Test
unfolding counted
consumer_at max loop w = record w {
  consumer = if w.run_flag then Consumer.waiting else Consumer.releasing;
}
consumer_at max waiting w =
    if returns w.consumer_event then record w { consumer = Consumer.woken } else w
consumer_at max woken w = record w {
  consumer = Consumer.taking;
  consumer_event = reset_event w.consumer_event;
}
consumer_at max taking w = record w { consumer = taken (lock_get_head_node w.task_list) }
consumer_at max (printing n) w = record w {
  consumer = Consumer.unlinking n;
  printed = w.printed ++ n ∷ [];
}
consumer_at max (unlinking n) w = record w {
  consumer = Consumer.taking;
  task_list = erase n w.task_list;
}
consumer_at max testing w = record w {
  consumer = if w.task_counter == max then Consumer.stopping else Consumer.starting;
}
consumer_at max stopping w = record w { consumer = Consumer.starting; run_flag = false }
consumer_at max starting w = record w {
  consumer = Consumer.loop;
  producer_event = set_event w.producer_event;
}
consumer_at max releasing w = record w { consumer = Consumer.ending; consumer_event = closed }
consumer_at max ending w = record w {
  consumer = Consumer.over;
  end_counter = counted w.end_counter;
}
consumer_at max over w = w

-- Who is given the processor.
pub data Turn : Type 0 where
  main : Turn
  producer : Turn
  consumer : Turn

unfoldable pub turn : ℕ → Turn → Test → Test
unfolding create_start producer_at consumer_at
turn max main w = create_start w
turn max producer w = producer_at max w.producer w
turn max consumer w = consumer_at max w.consumer w

unfoldable pub run : ℕ → List Turn → Test → Test
unfolding turn
run max [] w = w
run max (t ∷ ts) w = run max ts (turn max t w)

-- `Wait` is over.
unfoldable pub wait : Test → Bool
wait w = w.end_counter == 2
