-- ===== src/Tutorial/Threads.antt =====
-- Threads, shared variables and critical sections, as the programs of Example/Toturial-3 use them
-- (MTLibrary/Lock.cpp): a thread is a list of actions, and any thread may go on after each action.
use winsock_multi_thread_ser.Base.{
  ℕ, ◌+◌, ◌-◌, ◌%◌, ◌^◌, Option, none, some, List, [], ◌∷◌, ◌==◌, if◌then◌else◌, update,
}

-- `CLock::Lock` and `CLock::Unlock`, a read of a shared variable into a local one, a write of a local
-- variable to a shared one, `++` of a local one, and `InterlockedIncrement` of `EndCounter`.
pub data Action : Type 0 where
  lock : (section : ℕ) → Action
  unlock : (section : ℕ) → Action
  load : (cell local : ℕ) → Action
  store : (cell local : ℕ) → Action
  add_one : (local : ℕ) → Action
  interlocked_increment : Action

-- The shared variables, and the local variables of each thread.
pub record Cells : Type 0 where
  pub shared : ℕ → ℕ
  pub locals : ℕ → ℕ → ℕ

-- A critical section that somebody has entered: the thread, and how often it has entered again.
pub record Holder : Type 0 where
  pub thread : ℕ
  pub again : ℕ

-- The variables, `EndCounter`, which is only changed by `InterlockedIncrement`, who holds which
-- critical section, and what each thread has left to do.
pub record Threads : Type 0 where
  pub cells : Cells
  pub end_counter : ℕ
  pub holder : ℕ → Option Holder
  pub left : ℕ → List Action

abbrev pub started : Cells → (ℕ → List Action) → Threads
started c programs = record { cells = c; end_counter = 0; holder = λ k. none; left = programs }

-- What an action does to the variables, and to `EndCounter`.
unfoldable pub perform : ℕ → Action → Cells → Cells
perform t (lock k) c = c
perform t (unlock k) c = c
perform t (load a r) c = record c {
  locals = update c.locals t (update (c.locals t) r (c.shared a));
}
perform t (store a r) c = record c { shared = update c.shared a (c.locals t r) }
perform t (add_one r) c = record c {
  locals = update c.locals t (update (c.locals t) r ((c.locals t r + 1) % 2 ^ 32));
}
perform t interlocked_increment c = c

unfoldable pub counted : Action → ℕ → ℕ
counted interlocked_increment n = (n + 1) % 2 ^ 32
counted a n = n

-- `EnterCriticalSection` waits for another thread, and counts how often its own has entered.
unfoldable pub enter : Option Holder → ℕ → ℕ → List Action → Threads → Threads
enter none k t more w = record w {
  holder = update w.holder k (some (record { thread = t; again = 0 }));
  left = update w.left t more;
}
enter (some h) k t more w =
    if h.thread == t
    then record w {
      holder = update w.holder k (some (record h { again = h.again + 1 }));
      left = update w.left t more;
    }
    else w

-- `LeaveCriticalSection`. It is not defined for a thread that has not entered: here it stays there.
unfoldable pub leave : Option Holder → ℕ → ℕ → List Action → Threads → Threads
leave none k t more w = w
leave (some h) k t more w =
    if h.thread == t
    then record w {
      holder =
          update w.holder k
            (if h.again == 0 then none else some (record h { again = h.again - 1 }));
      left = update w.left t more;
    }
    else w

-- The next action of a thread, if it has one.
unfoldable pub act : Action → ℕ → List Action → Threads → Threads
unfolding enter leave perform counted
act (lock k) t more w = enter (w.holder k) k t more w
act (unlock k) t more w = leave (w.holder k) k t more w
act a t more w = record w {
  cells = perform t a w.cells;
  end_counter = counted a w.end_counter;
  left = update w.left t more;
}

unfoldable pub go_on : List Action → ℕ → Threads → Threads
unfolding act
go_on [] t w = w
go_on (a ∷ more) t w = act a t more w

-- The threads in the order in which they are given the processor.
unfoldable pub schedule : List ℕ → Threads → Threads
unfolding go_on
schedule [] w = w
schedule (t ∷ ts) w = schedule ts (go_on (w.left t) t w)
