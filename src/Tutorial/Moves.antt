-- ===== src/Tutorial/Moves.antt =====
-- When a thread of Example/Toturial-3 is not held up: its next action, in any order of the threads.
use mathlib.Core.Path.{subst}
use winsock_multi_thread_ser.Base.{
  ℕ, ◌≡◌, ◌≢◌, refl, inl, ==-refl, Option, none, some, List, [], ◌∷◌, arith,
}
use winsock_multi_thread_ser.Tutorial.Threads.{
  Action, lock, unlock, load, store, add_one, interlocked_increment, Holder, Threads, enter, leave,
  act, go_on,
}
use winsock_multi_thread_ser.Tutorial.Held.{IsIn, held_by, Keeps, Held}

-- The thread has something left, and does its next action if it is given the processor.
pub record Moves (t : ℕ) (w : Threads) : Type 0 where
  pub next : Action
  pub more : List Action
  pub has : w.left t ≡ next ∷ more
  pub goes : (go_on (w.left t) t w).left t ≡ more

lock-Moves :
    (t k : ℕ) (more : List Action) (w : Threads)
    → w.left t ≡ lock k ∷ more
    → w.holder k ≡ none
    → Moves t w
unfolding go_on act enter
lock-Moves t k more w e free = record {
  next = lock k;
  more = more;
  has = e;
  goes = rw (e, free, ==-refl t) refl;
}

unlock-Moves :
    (t k : ℕ) (more : List Action) (w : Threads)
    → w.left t ≡ unlock k ∷ more
    → w.holder k ≡ held_by t
    → Moves t w
unfolding go_on act leave
unlock-Moves t k more w e here = record {
  next = unlock k;
  more = more;
  has = e;
  goes = rw (e, here, ==-refl t) (ground arith);
}

-- The section that a thread is to enter next, if that is its next action.
abbrev pub wants : List Action → Option ℕ
wants (lock k ∷ more) = some k
wants _ = none

module _ (May : List ℕ → ℕ → Type 0) (held : ℕ → List ℕ) (w : Threads) (v : Held May held w) where
  left-Moves :
      (t : ℕ) (hs : List ℕ) (ops : List Action)
      → held t ≡ hs
      → w.left t ≡ ops
      → Keeps May hs ops
      → ops ≢ []
      → ((k : ℕ) → wants ops ≡ some k → w.holder k ≡ none)
      → Moves t w
  unfolding go_on act
  left-Moves t hs [] a e now some_left free = absurd (some_left refl)
  left-Moves t hs (lock k ∷ more) a e now some_left free = lock-Moves t k more w e (free k refl)
  left-Moves t [] (unlock k ∷ more) a e now some_left free = absurd now
  left-Moves t (h ∷ hs) (unlock k ∷ more) a e now some_left free =
      unlock-Moves t k more w e (v.owned t k (rw a (inl now.0)))
  left-Moves t hs (load c r ∷ more) a e now some_left free = record {
    next = load c r;
    more = more;
    has = e;
    goes = rw (e, ==-refl t) refl;
  }
  left-Moves t hs (store c r ∷ more) a e now some_left free = record {
    next = store c r;
    more = more;
    has = e;
    goes = rw (e, ==-refl t) refl;
  }
  left-Moves t hs (add_one r ∷ more) a e now some_left free = record {
    next = add_one r;
    more = more;
    has = e;
    goes = rw (e, ==-refl t) refl;
  }
  left-Moves t hs (interlocked_increment ∷ more) a e now some_left free = record {
    next = interlocked_increment;
    more = more;
    has = e;
    goes = rw (e, ==-refl t) refl;
  }

  -- A thread moves on, if nobody holds the section that it wants.
  pub free-Moves :
      (t : ℕ)
      → w.left t ≢ []
      → ((k : ℕ) → wants (w.left t) ≡ some k → w.holder k ≡ none)
      → Moves t w
  free-Moves t = left-Moves t (held t) (w.left t) refl refl (v.keeps t)

  holds-left : (k : ℕ) (hs : List ℕ) (ops : List Action) → IsIn k hs → Keeps May hs ops → ops ≢ []
  holds-left k [] ops i now e = i
  holds-left k (h ∷ hs) [] i now e = cc
  holds-left k (h ∷ hs) (a ∷ more) i now e = cc

  -- The thread that holds a section has something left to do.
  pub holder-left :
      (k : ℕ) (h : Holder) → w.holder k ≡ some h → IsIn k (held h.thread) × (w.left h.thread ≢ [])
  holder-left k h e =
      let i = (v.owner k h e).1 in
      (i, holds-left k (held h.thread) (w.left h.thread) i (v.keeps h.thread))

  wants-may :
      (k : ℕ) (hs : List ℕ) (ops : List Action) → Keeps May hs ops → wants ops ≡ some k → May hs k
  wants-may k hs [] now e = cc
  wants-may k hs (lock j ∷ more) now e = subst (May hs) (ground (arith, e)) now.0
  wants-may k hs (unlock j ∷ more) now e = cc
  wants-may k hs (load c r ∷ more) now e = cc
  wants-may k hs (store c r ∷ more) now e = cc
  wants-may k hs (add_one r ∷ more) now e = cc
  wants-may k hs (interlocked_increment ∷ more) now e = cc

  -- What a thread wants, it may enter.
  pub wanted-may : (t k : ℕ) → wants (w.left t) ≡ some k → May (held t) k
  wanted-may t k = wants-may k (held t) (w.left t) (v.keeps t)
