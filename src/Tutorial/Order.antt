-- ===== src/Tutorial/Order.antt =====
-- Threads of Example/Toturial-3 that enter critical sections in ascending order.
use winsock_multi_thread_ser.Base.{
  ℕ, zero, suc, ◌+◌, ◌<◌, ◌≤◌, ◌≡◌, ◌≢◌, refl, ap, ◌∙◌, inl, inr, Option-cases, Option, none, some,
  List, [], ◌∷◌, arith,
}
use winsock_multi_thread_ser.Tutorial.Threads.{Action, Cells, Holder, Threads, started, schedule}
use winsock_multi_thread_ser.Tutorial.Held.{IsIn, Keeps, Held, started-Held}
use winsock_multi_thread_ser.Tutorial.Moves.{Moves, wants, free-Moves, holder-left, wanted-may}

-- The section comes behind all that the thread holds, and is one of the first `max`.
abbrev IsBehind : List ℕ → ℕ → Type 0
IsBehind [] k = Unit {0}
IsBehind (h ∷ hs) k = (h < k) × IsBehind hs k

abbrev pub Rises : ℕ → List ℕ → ℕ → Type 0
Rises max held k = IsBehind held k × (k < max)

IsBehind-lt : (held : List ℕ) (h k : ℕ) → IsBehind held k → IsIn h held → h < k
IsBehind-lt [] h k b i = absurd i
IsBehind-lt (g ∷ gs) h k b (inl e) = omega (arith, b.0, e)
IsBehind-lt (g ∷ gs) h k b (inr i) = IsBehind-lt gs h k b.1 i

Rises-fresh : (max : ℕ) (held : List ℕ) (k : ℕ) → Rises max held k → ¬ IsIn k held
Rises-fresh max held k r i = omega (arith, IsBehind-lt held k k r.0 i)

module _ (max : ℕ) (held : ℕ → List ℕ) (w : Threads) (v : Held (Rises max) held w) where
  -- From a thread that waits to the one that it waits for, whose next section comes later.
  follow-Moves :
      (n t k : ℕ) (o : Option Holder)
      → w.holder k ≡ o
      → w.left t ≢ []
      → wants (w.left t) ≡ some k
      → max ≤ k + n
      → (u : ℕ) × Moves u w
  follow-Moves n t k none e some_left wanted room = (
    t,
    free-Moves (Rises max) held w v t some_left
        (λ j q. ap w.holder (ground (arith, q, wanted)) ∙ e),
  )
  follow-Moves zero t k (some h) e some_left wanted room =
      absurd (omega (arith, room, (wanted-may (Rises max) held w v t k wanted).1))
  follow-Moves (suc n) t k (some h) e some_left wanted room =
      let u = h.thread in
      let (i, u_left) = holder-left (Rises max) held w v k h e in
      elim (Option-cases (wants (w.left u))) [
        | inl nothing ↦ (u, free-Moves (Rises max) held w v u u_left (λ j q. cc))
        | inr (j, later) ↦
            let behind = (wanted-may (Rises max) held w v u j later).0 in
            follow-Moves n u j (w.holder j) refl u_left later
              (omega (arith, room, IsBehind-lt (held u) k j behind i))
      ]

  some-Moves : (t : ℕ) → w.left t ≢ [] → (u : ℕ) × Moves u w
  some-Moves t some_left = elim (Option-cases (wants (w.left t))) [
    | inl nothing ↦ (t, free-Moves (Rises max) held w v t some_left (λ k q. cc))
    | inr (k, wanted) ↦ follow-Moves max t k (w.holder k) refl some_left wanted (omega arith)
  ]

-- Threads that enter critical sections in ascending order only, and leave the latest one first, are
-- never all held up: in whatever order they have gone on, as long as one of them has something left,
-- one of them can do its next action.
pub rising-Moves :
    (max : ℕ) (c : Cells) (programs : ℕ → List Action)
    → ((t : ℕ) → Keeps (Rises max) [] (programs t))
    → (ts : List ℕ) (t : ℕ) → (schedule ts (started c programs)).left t ≢ []
    → (u : ℕ) × Moves u (schedule ts (started c programs))
rising-Moves max c programs keep ts t some_left =
    let (held, v) = started-Held (Rises max) (Rises-fresh max) ts c programs keep in
    some-Moves max held (schedule ts (started c programs)) v t some_left
