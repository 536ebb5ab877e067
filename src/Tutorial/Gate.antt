-- ===== src/Tutorial/Gate.antt =====
-- Threads of Example/Toturial-3 that enter other critical sections only behind one that they share.
use mathlib.Core.Path.{subst}
use winsock_multi_thread_ser.Base.{
  ℕ, ◌≡◌, ◌≢◌, ap, ◌∙◌, sym, inl, inr, Option-cases, List, [], ◌∷◌, arith,
}
use winsock_multi_thread_ser.Tutorial.Threads.{Action, Cells, Threads, started, schedule}
use winsock_multi_thread_ser.Tutorial.Held.{IsIn, held_by, Keeps, Grown, Held, started-Held}
use winsock_multi_thread_ser.Tutorial.Moves.{Moves, wants, free-Moves, holder-left, wanted-may}

-- The gate comes first, and behind it any section that the thread does not hold.
abbrev pub Behind : ℕ → List ℕ → ℕ → Type 0
Behind gate [] k = k ≡ gate
Behind gate (h ∷ hs) k = IsIn gate (h ∷ hs) × (¬ IsIn k (h ∷ hs))

pub Behind-fresh : (gate : ℕ) (held : List ℕ) (k : ℕ) → Behind gate held k → ¬ IsIn k held
Behind-fresh gate [] k b i = i
Behind-fresh gate (h ∷ hs) k b i = b.1 i

Grown-gate : (gate j : ℕ) (hs : List ℕ) → Grown (Behind gate) hs → IsIn j hs → IsIn gate hs
Grown-gate gate j [] g i = absurd i
Grown-gate gate j (h ∷ []) g i = inl (sym g.0)
Grown-gate gate j (h ∷ (h' ∷ hs)) g i = inr g.0.0

module _ (gate : ℕ) (held : ℕ → List ℕ) (w : Threads) (v : Held (Behind gate) held w) where
  -- A thread that holds a section holds the gate.
  holds-gate : (t j : ℕ) → IsIn j (held t) → w.holder gate ≡ held_by t
  holds-gate t j i = v.owned t gate (Grown-gate gate j (held t) (v.grown t) i)

  -- So nobody else holds a section, and it moves on.
  holder-Moves : (t j : ℕ) → IsIn j (held t) → w.left t ≢ [] → Moves t w
  holder-Moves t j i some_left = free-Moves (Behind gate) held w v t some_left λ k wanted.
      elim (Option-cases (w.holder k)) [
        | inl free ↦ free
        | inr (h, e) ↦
            let (i', _) = holder-left (Behind gate) held w v k h e in
            let same : h.thread ≡ t = ground (arith, holds-gate t j i, holds-gate h.thread k i') in
            let may = wanted-may (Behind gate) held w v t k wanted in
            absurd (Behind-fresh gate (held t) k may (subst (λ u. IsIn k (held u)) same i'))
      ]

  some-Moves : (t : ℕ) → w.left t ≢ [] → (u : ℕ) × Moves u w
  some-Moves t some_left = elim (Option-cases (wants (w.left t))) [
    | inl nothing ↦ (t, free-Moves (Behind gate) held w v t some_left (λ k q. cc))
    | inr (k, wanted) ↦ elim (Option-cases (w.holder k)) [
      | inl free ↦ (
        t,
        free-Moves (Behind gate) held w v t some_left
            (λ j q. ap w.holder (ground (arith, q, wanted)) ∙ free),
      )
      | inr (h, e) ↦
          let (i, u_left) = holder-left (Behind gate) held w v k h e in
          (h.thread, holder-Moves h.thread k i u_left)
    ]
  ]

-- Threads that enter one critical section, the gate, before any other one, and leave the latest
-- section first, are never all held up, whatever the order of the sections behind the gate: in
-- whatever order they have gone on, as long as one of them has something left, one of them can do
-- its next action.
pub gated-Moves :
    (gate : ℕ) (c : Cells) (programs : ℕ → List Action)
    → ((t : ℕ) → Keeps (Behind gate) [] (programs t))
    → (ts : List ℕ) (t : ℕ) → (schedule ts (started c programs)).left t ≢ []
    → (u : ℕ) × Moves u (schedule ts (started c programs))
gated-Moves gate c programs keep ts t some_left =
    let (held, v) = started-Held (Behind gate) (Behind-fresh gate) ts c programs keep in
    some-Moves gate held (schedule ts (started c programs)) v t some_left
