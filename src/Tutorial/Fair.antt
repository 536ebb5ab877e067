-- ===== src/Tutorial/Fair.antt =====
-- Threads of Example/Toturial-3 that are given the processor in rounds: each thread in each round.
use mathlib.Core.Path.{subst}
use native.Mathlib.Decide.{dec_lt}
use winsock_multi_thread_ser.Base.{
  ℕ, ◌<◌, ◌≤◌, ◌≡◌, ◌≢◌, refl, sym, ap, ◌∙◌, inl, inr, ◌⊎◌, Bool-cases, ==-refl, ==-cases, ==-of_ne,
  Option, none, some, List, [], ◌∷◌, ◌++◌, arith, length, ◌==◌, update, total, total-change,
  le-total, some-total,
}
use winsock_multi_thread_ser.Tutorial.Threads.{
  Action, lock, unlock, load, store, add_one, interlocked_increment, Cells, Holder, Threads, enter,
  leave, act, go_on, schedule,
}
use winsock_multi_thread_ser.Tutorial.Held.{IsIn}
use winsock_multi_thread_ser.Tutorial.Moves.{Moves}

-- What a thread that is given the processor does: nothing, or its next action.
record Went (t : ℕ) (w w' : Threads) : Type 0 where
  next : Action
  more : List Action
  has : w.left t ≡ next ∷ more
  goes : w'.left t ≡ more
  others : (u : ℕ) → u ≢ t → w'.left u ≡ w.left u

Goes : ℕ → Threads → Threads → Type 0
Goes t w w' = (w' ≡ w) ⊎ Went t w w'

went :
    (t : ℕ) (a : Action) (more : List Action) (w : Threads) (c : Cells) (n : ℕ)
    (holder : ℕ → Option Holder)
    → w.left t ≡ a ∷ more
    → Went t w (record { cells = c; end_counter = n; holder = holder; left = update w.left t more })
went t a more w c n holder e = record {
  next = a;
  more = more;
  has = e;
  goes = rw (==-refl t) refl;
  others = λ u other. rw (==-of_ne u t other) refl;
}

enter-Goes :
    (o : Option Holder) (t k : ℕ) (more : List Action) (w : Threads)
    → w.left t ≡ lock k ∷ more
    → Goes t w (enter o k t more w)
unfolding enter Goes
enter-Goes none t k more w e = inr (went t (lock k) more w w.cells w.end_counter _ e)
enter-Goes (some h) t k more w e = elim (Bool-cases (h.thread == t)) [
  | inl own ↦ rw own (inr (went t (lock k) more w w.cells w.end_counter _ e))
  | inr other ↦ rw other (inl refl)
]

leave-Goes :
    (o : Option Holder) (t k : ℕ) (more : List Action) (w : Threads)
    → w.left t ≡ unlock k ∷ more
    → Goes t w (leave o k t more w)
unfolding leave Goes
leave-Goes none t k more w e = inl refl
leave-Goes (some h) t k more w e = elim (Bool-cases (h.thread == t)) [
  | inl own ↦ rw own (inr (went t (unlock k) more w w.cells w.end_counter _ e))
  | inr other ↦ rw other (inl refl)
]

go_on-Goes : (ops : List Action) (t : ℕ) (w : Threads) → w.left t ≡ ops → Goes t w (go_on ops t w)
unfolding go_on act Goes
go_on-Goes [] t w e = inl refl
go_on-Goes (lock k ∷ more) t w e = enter-Goes (w.holder k) t k more w e
go_on-Goes (unlock k ∷ more) t w e = leave-Goes (w.holder k) t k more w e
go_on-Goes (load a r ∷ more) t w e = inr (went t (load a r) more w _ _ w.holder e)
go_on-Goes (store a r ∷ more) t w e = inr (went t (store a r) more w _ _ w.holder e)
go_on-Goes (add_one r ∷ more) t w e = inr (went t (add_one r) more w _ _ w.holder e)
go_on-Goes (interlocked_increment ∷ more) t w e =
    inr (went t interlocked_increment more w _ _ w.holder e)

-- A schedule in two parts.
pub schedule-append :
    (ts us : List ℕ) (w : Threads) → schedule (ts ++ us) w ≡ schedule us (schedule ts w)
unfolding schedule
schedule-append [] us w = refl
schedule-append (t ∷ ts) us w = schedule-append ts us (go_on (w.left t) t w)

-- The actions that the first `n` threads have left.
abbrev pub actions : ℕ → Threads → ℕ
actions n w = total n (λ t. length (w.left t))

cons_ne : {a : Action} {more : List Action} → [] ≢ a ∷ more
cons_ne e = cc

-- Every thread up to `n` is in the round, and the rounds one behind the other.
abbrev pub IsRound : ℕ → List ℕ → Type 0
IsRound n r = (t : ℕ) → t < n → IsIn t r

abbrev pub AreRounds : ℕ → List (List ℕ) → Type 0
AreRounds n [] = Unit {0}
AreRounds n (r ∷ rs) = IsRound n r × AreRounds n rs

abbrev pub in_rounds : List (List ℕ) → List ℕ
in_rounds [] = []
in_rounds (r ∷ rs) = r ++ in_rounds rs

-- From this state on, somebody can always go on while somebody has something left.
abbrev pub Flows : Threads → Type 0
Flows w = (ts : List ℕ) (t : ℕ) → (schedule ts w).left t ≢ [] → (u : ℕ) × Moves u (schedule ts w)

module _ (n : ℕ) where
  -- Only the first `n` threads have something to do.
  abbrev pub Quiet : Threads → Type 0
  Quiet w = (t : ℕ) → n ≤ t → w.left t ≡ []

  Goes-Quiet : (t : ℕ) (w w' : Threads) → Goes t w w' → Quiet w → Quiet w'
  unfolding Goes
  Goes-Quiet t w w' (inl e) q u l = ap (λ x. x.left u) e ∙ q u l
  Goes-Quiet t w w' (inr g) q u l = elim (==-cases u t) [
    | inl e ↦ absurd (cons_ne (sym (q t (omega (arith, l, e))) ∙ g.has))
    | inr other ↦ g.others u other ∙ q u l
  ]

  Went-lt : (t : ℕ) (w w' : Threads) → Went t w w' → Quiet w → actions n w' < actions n w
  Went-lt t w w' g q = elim (dec_lt t n) [
    | yes l ↦
        let change =
          total-change n t (λ u. length (w.left u)) (λ u. length (w'.left u)) l
            (λ u other. ap length (g.others u other)) in
        omega (arith, change, ap length g.has, ap length g.goes)
    | no out ↦ absurd (cons_ne (sym (q t (omega (arith, out))) ∙ g.has))
  ]

  Goes-le : (t : ℕ) (w w' : Threads) → Goes t w w' → Quiet w → actions n w' ≤ actions n w
  unfolding Goes
  Goes-le t w w' (inl e) q = rw e (omega arith)
  Goes-le t w w' (inr g) q = omega (arith, Went-lt t w w' g q)

  schedule-Quiet : (ts : List ℕ) (w : Threads) → Quiet w → Quiet (schedule ts w)
  unfolding schedule
  schedule-Quiet [] w q = q
  schedule-Quiet (t ∷ ts) w q =
      schedule-Quiet ts (go_on (w.left t) t w)
        (Goes-Quiet t w (go_on (w.left t) t w) (go_on-Goes (w.left t) t w refl) q)

  schedule-le : (ts : List ℕ) (w : Threads) → Quiet w → actions n (schedule ts w) ≤ actions n w
  unfolding schedule
  schedule-le [] w q = omega arith
  schedule-le (t ∷ ts) w q =
      let w' = go_on (w.left t) t w in
      let g = go_on-Goes (w.left t) t w refl in
      omega (arith, Goes-le t w w' g q, schedule-le ts w' (Goes-Quiet t w w' g q))

  Moves-Went : (t : ℕ) (w : Threads) → Moves t w → ¬ (go_on (w.left t) t w ≡ w)
  Moves-Went t w m e = omega (arith, ap length m.has, ap length (sym m.goes ∙ ap (λ x. x.left t) e))

  -- A round in which somebody could go on at its begin.
  round-lt :
      (r : List ℕ) (u : ℕ) (w : Threads)
      → IsIn u r
      → Moves u w
      → Quiet w
      → actions n (schedule r w) < actions n w
  unfolding schedule Goes
  round-lt [] u w i m q = absurd i
  round-lt (t ∷ r) u w i m q = elim (go_on-Goes (w.left t) t w refl) [
    | inr g ↦
        let w' = go_on (w.left t) t w in
        omega (arith, Went-lt t w w' g q, schedule-le r w' (Goes-Quiet t w w' (inr g) q))
    | inl e ↦ elim i [
      | inl same ↦ absurd (Moves-Went u w m (subst (λ x. go_on (w.left x) x w ≡ w) (sym same) e))
      | inr later ↦
          subst (λ x. actions n (schedule r x) < actions n w) (sym e) (round-lt r u w later m q)
    ]
  ]

  rounds-over :
      (rs : List (List ℕ)) (w : Threads)
      → AreRounds n rs
      → Flows w
      → Quiet w
      → actions n w ≤ length rs
      → actions n (schedule (in_rounds rs) w) ≡ 0
  unfolding schedule
  rounds-over [] w all flows q few = omega (arith, few)
  rounds-over (r ∷ rs) w all flows q few =
      let w' = schedule r w in
      let flows' : Flows w' = λ ts t.
        subst (λ x. x.left t ≢ [] → (u : ℕ) × Moves u x) (schedule-append r ts w)
          (flows (r ++ ts) t) in
      let over : actions n w' ≤ length rs = elim (==-cases (actions n w) 0) [
        | inl none_left ↦ omega (arith, schedule-le r w q, none_left)
        | inr some_left ↦
            let (i, l, p) = some-total n (λ t. length (w.left t)) some_left in
            let (u, m) = flows [] i (λ e. p (ap length e)) in
            omega (arith, few, round-lt r u w (all.0 u (Moves-lt u w m q)) m q)
      ] in
      ap (actions n) (schedule-append r (in_rounds rs) w)
      ∙ rounds-over rs w' all.1 flows' (schedule-Quiet r w q) over
    where
      Moves-lt : (u : ℕ) (w : Threads) → Moves u w → Quiet w → u < n
      Moves-lt u w m q = elim (dec_lt u n) [
        | yes l ↦ l
        | no out ↦ absurd (cons_ne (sym (q u (omega (arith, out))) ∙ m.has))
      ]

  -- If somebody can always go on while somebody has something left, then as many rounds as there are
  -- actions bring all threads to their ends, in whatever order they go within the rounds.
  pub rounds-ended :
      (rs : List (List ℕ)) (w : Threads)
      → AreRounds n rs
      → Flows w
      → Quiet w
      → actions n w ≤ length rs
      → (t : ℕ) → (schedule (in_rounds rs) w).left t ≡ []
  rounds-ended rs w all flows q few t = elim (dec_lt t n) [
    | yes l ↦
        let over = rounds-over rs w all flows q few in
        let w' = schedule (in_rounds rs) w in
        length-nil (w'.left t) (omega (arith, over, le-total n t (λ u. length (w'.left u)) l))
    | no out ↦ schedule-Quiet (in_rounds rs) w q t (omega (arith, out))
  ]
    where
      length-nil : (ops : List Action) → length ops ≡ 0 → ops ≡ []
      length-nil [] e = refl
      length-nil (a ∷ ops) e = absurd (omega (arith, e))
