-- ===== src/Tutorial/Held.antt =====
-- Which critical sections the threads of Example/Toturial-3 hold, for threads that leave a section
-- that they have entered last.
use mathlib.Core.Path.{subst}
use winsock_multi_thread_ser.Base.{
  ℕ, ◌≡◌, ◌≢◌, refl, sym, ap, ◌∙◌, inl, inr, ◌⊎◌, Bool-cases, ==-eq, ==-refl, Option, none, some,
  List, [], ◌∷◌, arith, ◌==◌, update,
}
use winsock_multi_thread_ser.Tutorial.Threads.{
  Action, lock, unlock, load, store, add_one, interlocked_increment, Cells, Holder, Threads,
  started, enter, leave, act, go_on, schedule,
}

-- One of the sections that a thread holds, the latest one first.
abbrev pub IsIn : ℕ → List ℕ → Type 0
IsIn k [] = ⊥
IsIn k (h ∷ hs) = (k ≡ h) ⊎ IsIn k hs

-- A section that is held, and the thread that holds it, once.
abbrev pub held_by : ℕ → Option Holder
held_by t = some (record { thread = t; again = 0 })

module _ (May : List ℕ → ℕ → Type 0) where
  -- A program that keeps a rule on the sections that a thread may enter while it holds some, leaves
  -- them in the opposite order, and holds none at its end.
  abbrev pub Keeps : List ℕ → List Action → Type 0
  Keeps held [] = held ≡ []
  Keeps held (lock k ∷ p) = May held k × Keeps (k ∷ held) p
  Keeps [] (unlock k ∷ p) = ⊥
  Keeps (h ∷ held) (unlock k ∷ p) = (k ≡ h) × Keeps held p
  Keeps held (load a r ∷ p) = Keeps held p
  Keeps held (store a r ∷ p) = Keeps held p
  Keeps held (add_one r ∷ p) = Keeps held p
  Keeps held (interlocked_increment ∷ p) = Keeps held p

  -- Each section was entered by the rule, while the thread held the earlier ones.
  abbrev pub Grown : List ℕ → Type 0
  Grown [] = Unit {0}
  Grown (k ∷ held) = May held k × Grown held

  -- Who holds a section, and what the threads have left.
  pub record Held (held : ℕ → List ℕ) (w : Threads) : Type 0 where
    pub keeps : (t : ℕ) → Keeps (held t) (w.left t)
    pub grown : (t : ℕ) → Grown (held t)
    pub owned : (t k : ℕ) → IsIn k (held t) → w.holder k ≡ held_by t
    pub owner : (k : ℕ) (h : Holder) → w.holder k ≡ some h → (h.again ≡ 0) × IsIn k (held h.thread)

  Grown-update :
      (held : ℕ → List ℕ) (t : ℕ) (hs : List ℕ)
      → ((u : ℕ) → Grown (held u))
      → Grown hs
      → (u : ℕ) → Grown (update held t hs u)
  Grown-update held t hs old new u = elim (Bool-cases (u == t)) [
    | inl own ↦ rw own new
    | inr other ↦ rw other (old u)
  ]

  Keeps-update :
      (held : ℕ → List ℕ) (left : ℕ → List Action) (t : ℕ) (hs : List ℕ) (more : List Action)
      → ((u : ℕ) → Keeps (held u) (left u))
      → Keeps hs more
      → (u : ℕ) → Keeps (update held t hs u) (update left t more u)
  Keeps-update held left t hs more old new u = elim (Bool-cases (u == t)) [
    | inl own ↦ rw own new
    | inr other ↦ rw other (old u)
  ]

  Keeps-more :
      (held : ℕ → List ℕ) (left : ℕ → List Action) (t : ℕ) (more : List Action)
      → ((u : ℕ) → Keeps (held u) (left u))
      → Keeps (held t) more
      → (u : ℕ) → Keeps (held u) (update left t more u)
  Keeps-more held left t more old new u = elim (Bool-cases (u == t)) [
    | inl own ↦ rw own (subst (λ v. Keeps (held v) more) (sym (==-eq u t own)) new)
    | inr other ↦ rw other (old u)
  ]

  -- An action that enters no section and leaves none.
  plain-Held :
      (held : ℕ → List ℕ) (w : Threads) (t n : ℕ) (c : Cells) (more : List Action)
      → Held held w
      → Keeps (held t) more
      → Held held (record w { cells = c; end_counter = n; left = update w.left t more })
  plain-Held held w t n c more v new = record {
    keeps = Keeps-more held w.left t more v.keeps new;
    grown = v.grown;
    owned = v.owned;
    owner = v.owner;
  }

  enter-Held :
      (held : ℕ → List ℕ) (w : Threads) (t k : ℕ) (more : List Action)
      → Held held w
      → w.holder k ≡ none
      → May (held t) k
      → Keeps (k ∷ held t) more
      → Held
          (update held t (k ∷ held t))
          (record w { holder = update w.holder k (held_by t); left = update w.left t more })
  enter-Held held w t k more v free may new = record {
    keeps = Keeps-update held w.left t (k ∷ held t) more v.keeps new;
    grown = Grown-update held t (k ∷ held t) v.grown (may, v.grown t);
    owned = λ u j i. ground (arith, v.owned u j, v.owned t j);
    owner = λ j h e. ground (arith, v.owner j h);
  }

  leave-Held :
      (held : ℕ → List ℕ) (w : Threads) (t k : ℕ) (hs : List ℕ) (more : List Action)
      → Held held w
      → held t ≡ k ∷ hs
      → ¬ IsIn k hs
      → Keeps hs more
      → Held
          (update held t hs)
          (record w { holder = update w.holder k none; left = update w.left t more })
  leave-Held held w t k hs more v e once new =
      let still : (j : ℕ) → IsIn j hs → IsIn j (held t) = λ j i. rw e (inr i) in
      let others : (j : ℕ) → IsIn j (held t) → (j ≡ k) ⊎ IsIn j hs = λ j i. subst (IsIn j) e i in
      let here : w.holder k ≡ held_by t = v.owned t k (rw e (inl refl)) in
      let not_here : (j : ℕ) → IsIn j hs → j ≢ k = λ j i q. once (subst (λ x. IsIn x hs) q i) in
      record {
        keeps = Keeps-update held w.left t hs more v.keeps new;
        grown = Grown-update held t hs v.grown (subst Grown e (v.grown t)).1;
        owned = λ u j i. ground (arith, here, v.owned u j, v.owned t j, still j, not_here j);
        owner = λ j h e. ground (arith, v.owner j h, others j);
      }

  module _ (fresh : (held : List ℕ) (k : ℕ) → May held k → ¬ IsIn k held) where
    lock-Held :
        (held : ℕ → List ℕ) (w : Threads) (o : Option Holder) (t k : ℕ) (more : List Action)
        → Held held w
        → w.holder k ≡ o
        → May (held t) k
        → Keeps (k ∷ held t) more
        → (hs : ℕ → List ℕ) × Held hs (enter o k t more w)
    unfolding enter
    lock-Held held w none t k more v e may new =
        (update held t (k ∷ held t), enter-Held held w t k more v e may new)
    lock-Held held w (some h) t k more v e may new = elim (Bool-cases (h.thread == t)) [
      | inl own ↦
          let i : IsIn k (held t) =
            subst (λ u. IsIn k (held u)) (==-eq h.thread t own) (v.owner k h e).1 in
          absurd (fresh (held t) k may i)
      | inr other ↦ rw other (held, v)
    ]

    unlock-Held :
        (held : ℕ → List ℕ) (w : Threads) (hs : List ℕ) (t k : ℕ) (more : List Action)
        → Held held w
        → held t ≡ hs
        → Keeps hs (unlock k ∷ more)
        → (hs : ℕ → List ℕ) × Held hs (leave (w.holder k) k t more w)
    unfolding leave
    unlock-Held held w [] t k more v e new = absurd new
    unlock-Held held w (h ∷ hs) t k more v e (q, new) =
        let e' : held t ≡ k ∷ hs = e ∙ ap (λ x. x ∷ hs) (sym q) in
        let here : w.holder k ≡ held_by t = v.owned t k (rw e' (inl refl)) in
        let once : ¬ IsIn k hs = fresh hs k (subst Grown e' (v.grown t)).0 in
        rw (here, ==-refl t) (update held t hs, leave-Held held w t k hs more v e' once new)

    go_on-Held :
        (held : ℕ → List ℕ) (w : Threads) (t : ℕ) (ops : List Action)
        → Held held w
        → Keeps (held t) ops
        → (hs : ℕ → List ℕ) × Held hs (go_on ops t w)
    unfolding go_on act
    go_on-Held held w t [] v now = (held, v)
    go_on-Held held w t (lock k ∷ more) v now =
        lock-Held held w (w.holder k) t k more v refl now.0 now.1
    go_on-Held held w t (unlock k ∷ more) v now = unlock-Held held w (held t) t k more v refl now
    go_on-Held held w t (load a r ∷ more) v now = (held, plain-Held held w t _ _ more v now)
    go_on-Held held w t (store a r ∷ more) v now = (held, plain-Held held w t _ _ more v now)
    go_on-Held held w t (add_one r ∷ more) v now = (held, plain-Held held w t _ _ more v now)
    go_on-Held held w t (interlocked_increment ∷ more) v now =
        (held, plain-Held held w t _ _ more v now)

    schedule-Held :
        (ts : List ℕ) (held : ℕ → List ℕ) (w : Threads)
        → Held held w
        → (hs : ℕ → List ℕ) × Held hs (schedule ts w)
    unfolding schedule
    schedule-Held [] held w v = (held, v)
    schedule-Held (t ∷ ts) held w v =
        let (hs, v') = go_on-Held held w t (w.left t) v (v.keeps t) in
        schedule-Held ts hs (go_on (w.left t) t w) v'

    -- In whatever order the threads go on, each of them still keeps the rule.
    pub started-Held :
        (ts : List ℕ) (c : Cells) (programs : ℕ → List Action)
        → ((t : ℕ) → Keeps [] (programs t))
        → (hs : ℕ → List ℕ) × Held hs (schedule ts (started c programs))
    started-Held ts c programs all =
        schedule-Held ts (λ t. []) (started c programs)
          (record { keeps = all; grown = λ t. tt; owned = λ t k i. absurd i; owner = λ k h e. cc })
