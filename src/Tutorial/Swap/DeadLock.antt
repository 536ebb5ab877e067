-- ===== src/Tutorial/Swap/DeadLock.antt =====
-- `SwapValue_DeadLock_1` and `SwapValue_DeadLock_2` at the same time.
use mathlib.Core.Path.{subst}
use winsock_multi_thread_ser.Base.{
  ℕ, ◌≡◌, ◌≢◌, refl, sym, ap, ◌∙◌, inl, inr, Bool-cases, ==-cases, ==-eq, ==-refl, ==-of_ne, Option,
  none, some, List, [], ◌∷◌, ◌++◌, arith, ◌==◌, update,
}
use winsock_multi_thread_ser.Tutorial.Threads.{
  Action, lock, unlock, load, store, add_one, interlocked_increment, Cells, Holder, Threads,
  started, enter, leave, act, go_on, schedule,
}
use winsock_multi_thread_ser.Tutorial.Held.{held_by}
use winsock_multi_thread_ser.Tutorial.Swap.{locker, swap_value_dead_lock_1, swap_value_dead_lock_2}

-- Each of two threads holds the section that the other one is to enter next.
record Crossed (t u j k : ℕ) (p q : List Action) (w : Threads) : Type 0 where
  first : w.holder j ≡ held_by t
  second : w.holder k ≡ held_by u
  first_left : w.left t ≡ lock k ∷ p
  second_left : w.left u ≡ lock j ∷ q

module _ (t u j k : ℕ) (p q : List Action) where
  -- What another thread does.
  other-Crossed :
      (x : ℕ) (more : List Action) (w w' : Threads)
      → Crossed t u j k p q w
      → x ≢ t
      → x ≢ u
      → w'.left ≡ update w.left x more
      → w'.holder j ≡ w.holder j
      → w'.holder k ≡ w.holder k
      → Crossed t u j k p q w'
  other-Crossed x more w w' v not_t not_u e same_j same_k = record {
    first = same_j ∙ v.first;
    second = same_k ∙ v.second;
    first_left = ap (λ f. f t) e ∙ (rw (==-of_ne t x (λ s. not_t (sym s))) v.first_left);
    second_left = ap (λ f. f u) e ∙ (rw (==-of_ne u x (λ s. not_u (sym s))) v.second_left);
  }

  enter-Crossed :
      (o : Option Holder) (x i : ℕ) (more : List Action) (w : Threads)
      → Crossed t u j k p q w
      → x ≢ t
      → x ≢ u
      → w.holder i ≡ o
      → Crossed t u j k p q (enter o i x more w)
  unfolding enter
  enter-Crossed none x i more w v not_t not_u e =
      let other : (s : ℕ) (h : Holder) → w.holder s ≡ some h → s ≢ i =
        λ s h here same. ground (arith, here, sym (ap w.holder same), e) in
      other-Crossed x more w _ v not_t not_u refl (rw (==-of_ne j i (other j _ v.first)) refl)
        (rw (==-of_ne k i (other k _ v.second)) refl)
  enter-Crossed (some h) x i more w v not_t not_u e = elim (Bool-cases (h.thread == x)) [
    | inl own ↦
        let other : (s y : ℕ) → w.holder s ≡ held_by y → x ≢ y → s ≢ i =
          λ s y here ne same. ground (arith, ==-eq h.thread x own, here, ap w.holder same, e, ne) in
        rw own (
          other-Crossed x more w _ v not_t not_u refl
            (rw (==-of_ne j i (other j t v.first not_t)) refl)
            (rw (==-of_ne k i (other k u v.second not_u)) refl))
    | inr out ↦ rw out v
  ]

  leave-Crossed :
      (o : Option Holder) (x i : ℕ) (more : List Action) (w : Threads)
      → Crossed t u j k p q w
      → x ≢ t
      → x ≢ u
      → w.holder i ≡ o
      → Crossed t u j k p q (leave o i x more w)
  unfolding leave
  leave-Crossed none x i more w v not_t not_u e = v
  leave-Crossed (some h) x i more w v not_t not_u e = elim (Bool-cases (h.thread == x)) [
    | inl own ↦
        let other : (s y : ℕ) → w.holder s ≡ held_by y → x ≢ y → s ≢ i =
          λ s y here ne same. ground (arith, ==-eq h.thread x own, here, ap w.holder same, e, ne) in
        rw own (
          other-Crossed x more w _ v not_t not_u refl
            (rw (==-of_ne j i (other j t v.first not_t)) refl)
            (rw (==-of_ne k i (other k u v.second not_u)) refl))
    | inr out ↦ rw out v
  ]

  act-Crossed :
      (x : ℕ) (ops : List Action) (w : Threads)
      → Crossed t u j k p q w
      → x ≢ t
      → x ≢ u
      → Crossed t u j k p q (go_on ops x w)
  unfolding go_on act
  act-Crossed x [] w v not_t not_u = v
  act-Crossed x (lock i ∷ more) w v not_t not_u =
      enter-Crossed (w.holder i) x i more w v not_t not_u refl
  act-Crossed x (unlock i ∷ more) w v not_t not_u =
      leave-Crossed (w.holder i) x i more w v not_t not_u refl
  act-Crossed x (load c r ∷ more) w v not_t not_u =
      other-Crossed x more w _ v not_t not_u refl refl refl
  act-Crossed x (store c r ∷ more) w v not_t not_u =
      other-Crossed x more w _ v not_t not_u refl refl refl
  act-Crossed x (add_one r ∷ more) w v not_t not_u =
      other-Crossed x more w _ v not_t not_u refl refl refl
  act-Crossed x (interlocked_increment ∷ more) w v not_t not_u =
      other-Crossed x more w _ v not_t not_u refl refl refl

  -- The two threads themselves wait.
  waits :
      (x y s : ℕ) (more : List Action) (w : Threads)
      → w.left x ≡ lock s ∷ more
      → w.holder s ≡ held_by y
      → y ≢ x
      → go_on (w.left x) x w ≡ w
  unfolding go_on act enter
  waits x y s more w e here ne = rw (e, here, ==-of_ne y x ne) refl

  schedule-Crossed :
      (ts : List ℕ) (w : Threads)
      → t ≢ u
      → Crossed t u j k p q w
      → Crossed t u j k p q (schedule ts w)
  unfolding schedule
  schedule-Crossed [] w ne v = v
  schedule-Crossed (x ∷ ts) w ne v =
      schedule-Crossed ts (go_on (w.left x) x w) ne (elim (==-cases x t) [
        | inl e ↦
            subst (Crossed t u j k p q)
              (sym (waits x u k p w (ap w.left e ∙ v.first_left) v.second (λ s. ne (sym (s ∙ e)))))
              v
        | inr not_t ↦ elim (==-cases x u) [
          | inl e ↦
              subst (Crossed t u j k p q)
                (sym (waits x t j q w (ap w.left e ∙ v.second_left) v.first (λ s. ne (s ∙ e)))) v
          | inr not_u ↦ act-Crossed x (w.left x) w v not_t not_u
        ]
      ])

  -- Both threads have entered their first sections.
  both-Crossed :
      (c : Cells) (programs : ℕ → List Action) (ts : List ℕ)
      → j ≢ k
      → t ≢ u
      → programs t ≡ lock j ∷ lock k ∷ p
      → programs u ≡ lock k ∷ lock j ∷ q
      → Crossed t u j k p q (schedule (t ∷ u ∷ ts) (started c programs))
  unfolding schedule go_on act enter
  both-Crossed c programs ts apart ne first second =
      let w : Threads = started c programs in
      let after : go_on (programs t) t w ≡ record w {
        holder = update w.holder j (held_by t);
        left = update programs t (lock k ∷ p);
      } =
        rw first refl in
      let w₁ : Threads = record w {
        holder = update w.holder j (held_by t);
        left = update programs t (lock k ∷ p);
      } in
      let w₂ : Threads = record w₁ {
        holder = update w₁.holder k (held_by u);
        left = update w₁.left u (lock j ∷ q);
      } in
      let next : w₁.left u ≡ lock k ∷ lock j ∷ q = rw (==-of_ne u t (λ s. ne (sym s))) second in
      let free : w₁.holder k ≡ none = rw (==-of_ne k j (λ s. apart (sym s))) refl in
      let after' : go_on (w₁.left u) u w₁ ≡ w₂ = rw (next, free) refl in
      let v : Crossed t u j k p q w₂ = record {
        first = rw (==-of_ne j k apart, ==-refl j) refl;
        second = rw (==-refl k) refl;
        first_left = rw (==-of_ne t u ne, ==-refl t) refl;
        second_left = rw (==-refl u) refl;
      } in
      subst (λ x. Crossed t u j k p q (schedule ts (go_on (x.left u) u x))) (sym after)
        (subst (λ x. Crossed t u j k p q (schedule ts x)) (sym after')
          (schedule-Crossed ts w₂ ne v))

-- One thread runs `SwapValue_DeadLock_1` and another one `SwapValue_DeadLock_2` on the same two players,
-- and each has taken its first section: then, in whatever order these two and any other threads go on,
-- and whatever the others do, both stay in front of their second `Lock` for ever.
pub dead_lock-forever :
    (a b t u : ℕ) (p q : List Action) (c : Cells) (programs : ℕ → List Action)
    → a ≢ b
    → t ≢ u
    → programs t ≡ swap_value_dead_lock_1 a b ++ p
    → programs u ≡ swap_value_dead_lock_2 a b ++ q
    → (ts : List ℕ)
    → let w = schedule (t ∷ u ∷ ts) (started c programs) in
      (lock (locker a) ∷ w.left t ≡ programs t) × (lock (locker b) ∷ w.left u ≡ programs u)
unfolding swap_value_dead_lock_1 swap_value_dead_lock_2
dead_lock-forever a b t u p q c programs apart ne first second ts =
    let v =
      both-Crossed t u (locker a) (locker b) _ _ c programs ts (omega (arith, apart)) ne first
        second in
    (
      ap (λ l. lock (locker a) ∷ l) v.first_left ∙ sym first,
      ap (λ l. lock (locker b) ∷ l) v.second_left ∙ sym second,
    )
