-- ===== src/Tutorial/Ended.antt =====
-- `EndCounter` of Example/Toturial-3, which each thread increments once, at its end or close to it.
use mathlib.Core.Path.{subst}
use native.Mathlib.Decide.{dec_lt}
use winsock_multi_thread_ser.Base.{
  ℕ, ◌+◌, ◌^◌, ◌<◌, ◌≤◌, ◌≡◌, ◌≢◌, refl, sym, ap, ◌∙◌, inl, inr, Bool-cases, ==-cases, ==-refl,
  ==-of_ne, Option, none, some, List, [], ◌∷◌, arith, ◌==◌, update, total, total-change, le-total,
  total-zero,
}
use winsock_multi_thread_ser.Tutorial.Threads.{
  Action, lock, unlock, load, store, add_one, interlocked_increment, Holder, Threads, enter, leave,
  counted, act, go_on, schedule,
}

-- The increments that a thread has left.
abbrev increment : Action → ℕ
increment interlocked_increment = 1
increment _ = 0

abbrev pub increments : List Action → ℕ
increments [] = 0
increments (a ∷ ops) = increment a + increments ops

-- An increment is what the thread does last.
abbrev pub LastCounts : List Action → Type 0
LastCounts [] = Unit {0}
LastCounts (a ∷ []) = a ≡ interlocked_increment
LastCounts (a ∷ (b ∷ ops)) = LastCounts (b ∷ ops)

pub LastCounts-tail : (a : Action) (ops : List Action) → LastCounts (a ∷ ops) → LastCounts ops
LastCounts-tail a [] l = tt
LastCounts-tail a (b ∷ ops) l = l

pub LastCounts-nil : (ops : List Action) → LastCounts ops → increments ops ≡ 0 → ops ≡ []
LastCounts-nil [] l e = refl
LastCounts-nil (a ∷ []) l e =
    let one : increment a ≡ 1 = ap increment l in absurd (omega (arith, e, one))
LastCounts-nil (a ∷ (b ∷ ops)) l e =
    absurd (cons_ne (LastCounts-nil (b ∷ ops) l (omega (arith, e))))
  where
    cons_ne : b ∷ ops ≢ []
    cons_ne e = cc

-- Counting an increment.
increment-counted : (a : Action) (e : ℕ) → e + increment a < 2 ^ 32 → counted a e ≡ e + increment a
unfolding counted
increment-counted (lock k) e l = omega arith
increment-counted (unlock k) e l = omega arith
increment-counted (load c r) e l = omega arith
increment-counted (store c r) e l = omega arith
increment-counted (add_one r) e l = omega arith
increment-counted interlocked_increment e l = omega (arith, l)

-- `Q` holds of what each thread has left, and of what is left of that later.
module _ (n : ℕ) (most : n < 2 ^ 32) (Q : List Action → Type 0)
    (Q-tail : (a : Action) (ops : List Action) → Q (a ∷ ops) → Q ops) where
  -- The increments done and those left are as many as the threads.
  pub record Counts (w : Threads) : Type 0 where
    pub sum : w.end_counter + total n (λ t. increments (w.left t)) ≡ n
    pub last : (t : ℕ) → Q (w.left t)
    pub quiet : (t : ℕ) → n ≤ t → w.left t ≡ []

  advance-Counts :
      (t : ℕ) (a : Action) (more : List Action) (w w' : Threads)
      → Counts w
      → w.left t ≡ a ∷ more
      → w'.left ≡ update w.left t more
      → w'.end_counter ≡ counted a w.end_counter
      → Counts w'
  advance-Counts t a more w w' v e e' count =
      let own : w'.left t ≡ more = ap (λ f. f t) e' ∙ (rw (==-refl t) refl) in
      let others : (u : ℕ) → u ≢ t → w'.left u ≡ w.left u =
        λ u other. ap (λ f. f u) e' ∙ (rw (==-of_ne u t other) refl) in
      let inside : t < n = elim (dec_lt t n) [
        | yes l ↦ l
        | no out ↦ absurd (cons_ne (sym e ∙ v.quiet t (omega (arith, out))))
      ] in
      let change =
        total-change n t (λ u. increments (w.left u)) (λ u. increments (w'.left u)) inside
          (λ u other. ap increments (others u other)) in
      let part = le-total n t (λ u. increments (w.left u)) inside in
      let fits : w.end_counter + increment a < 2 ^ 32 =
        omega (arith, v.sum, part, ap increments e, most) in
      record {
        sum = omega (
          arith,
          change,
          v.sum,
          ap increments e,
          ap increments own,
          count,
          increment-counted a w.end_counter fits,
        );
        last = λ u. elim (==-cases u t) [
          | inl same ↦ subst Q (sym (ap w'.left same ∙ own)) (Q-tail a more (subst Q e (v.last t)))
          | inr other ↦ subst Q (sym (others u other)) (v.last u)
        ];
        quiet = λ u l. elim (==-cases u t) [
          | inl same ↦ absurd (omega (arith, inside, l, same))
          | inr other ↦ others u other ∙ v.quiet u l
        ];
      }
    where
      cons_ne : a ∷ more ≢ []
      cons_ne e = cc

  enter-Counts :
      (o : Option Holder) (t k : ℕ) (more : List Action) (w : Threads)
      → Counts w
      → w.left t ≡ lock k ∷ more
      → Counts (enter o k t more w)
  unfolding enter counted
  enter-Counts none t k more w v e = advance-Counts t (lock k) more w _ v e refl refl
  enter-Counts (some h) t k more w v e = elim (Bool-cases (h.thread == t)) [
    | inl own ↦ rw own (advance-Counts t (lock k) more w _ v e refl refl)
    | inr other ↦ rw other v
  ]

  leave-Counts :
      (o : Option Holder) (t k : ℕ) (more : List Action) (w : Threads)
      → Counts w
      → w.left t ≡ unlock k ∷ more
      → Counts (leave o k t more w)
  unfolding leave counted
  leave-Counts none t k more w v e = v
  leave-Counts (some h) t k more w v e = elim (Bool-cases (h.thread == t)) [
    | inl own ↦ rw own (advance-Counts t (unlock k) more w _ v e refl refl)
    | inr other ↦ rw other v
  ]

  go_on-Counts :
      (ops : List Action) (t : ℕ) (w : Threads) → Counts w → w.left t ≡ ops → Counts (go_on ops t w)
  unfolding go_on act
  go_on-Counts [] t w v e = v
  go_on-Counts (lock k ∷ more) t w v e = enter-Counts (w.holder k) t k more w v e
  go_on-Counts (unlock k ∷ more) t w v e = leave-Counts (w.holder k) t k more w v e
  go_on-Counts (load c r ∷ more) t w v e = advance-Counts t (load c r) more w _ v e refl refl
  go_on-Counts (store c r ∷ more) t w v e = advance-Counts t (store c r) more w _ v e refl refl
  go_on-Counts (add_one r ∷ more) t w v e = advance-Counts t (add_one r) more w _ v e refl refl
  go_on-Counts (interlocked_increment ∷ more) t w v e =
      advance-Counts t interlocked_increment more w _ v e refl refl

  pub schedule-Counts : (ts : List ℕ) (w : Threads) → Counts w → Counts (schedule ts w)
  unfolding schedule
  schedule-Counts [] w v = v
  schedule-Counts (t ∷ ts) w v =
      schedule-Counts ts (go_on (w.left t) t w) (go_on-Counts (w.left t) t w v refl)

  -- `EndCounter` has reached the number of threads just when none of them has an increment left.
  pub Counts-ended :
      (w : Threads) → Counts w → w.end_counter ≡ n → (t : ℕ) → increments (w.left t) ≡ 0
  Counts-ended w v e t = elim (dec_lt t n) [
    | yes l ↦ omega (arith, v.sum, e, le-total n t (λ u. increments (w.left u)) l)
    | no out ↦ ap increments (v.quiet t (omega (arith, out)))
  ]

  pub ended-Counts :
      (w : Threads) → Counts w → ((t : ℕ) → increments (w.left t) ≡ 0) → w.end_counter ≡ n
  ended-Counts w v over =
      omega (arith, v.sum, total-zero n (λ t. increments (w.left t)) (λ t l. over t))
