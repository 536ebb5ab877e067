-- ===== src/Tutorial/Sections.antt =====
-- What the sections of the threads of Example/Toturial-3 make of the shared variables, when the
-- variables are used only by the thread that holds section 0.
pub mod Steps
pub mod Schedule
use mathlib.Core.Path.{subst}
use native.Mathlib.Decide.{dec_lt}
use winsock_multi_thread_ser.Base.{
  ℕ, zero, suc, ◌+◌, ◌<◌, ◌≤◌, ◌≡◌, ◌≢◌, refl, sym, ap, ◌∙◌, inl, inr, Bool, true, false,
  Bool-cases, ==-cases, ==-eq, ==-refl, ==-of_ne, Option, none, some, List, [], ◌∷◌, arith, ◌==◌,
  if◌then◌else◌, update, total, total-change, total-same,
}
use winsock_multi_thread_ser.Tutorial.Threads.{
  Action, lock, unlock, load, store, add_one, interlocked_increment, Cells, Holder, Threads,
  started, perform, counted, enter, leave, act, go_on, schedule,
}
use winsock_multi_thread_ser.Tutorial.Held.{held_by}

-- The actions up to the one that leaves section 0, at once.
abbrev pub alone : ℕ → List Action → Cells → Cells
alone t [] c = c
alone t (unlock zero ∷ p) c = c
alone t (a ∷ p) c = alone t p (perform t a c)

-- How often section 0 is still to be entered.
abbrev pub sections : List Action → ℕ
sections [] = 0
sections (lock zero ∷ p) = sections p + 1
sections (a ∷ p) = sections p

abbrev is_holder : Option Holder → ℕ → Bool
is_holder none t = false
is_holder (some h) t = h.thread == t

-- The variables as they will be when section 0 is left.
abbrev settled : Option Holder → Threads → Cells
settled none w = w.cells
settled (some h) w = alone h.thread (w.left h.thread) w.cells

-- `I m c` is to hold while `m` sections are still to be entered.
module _ (I : ℕ → Cells → Type 0) where
  abbrev pub Section : List Action → Type 0
  Section p = (t m : ℕ) (c : Cells) → I (suc m) c → I m (alone t p c)

  -- The shared variables are used in section 0 only, and each section is a step of `I`. The first
  -- argument says whether the thread is in section 0.
  abbrev pub Sound : Bool → List Action → Type 0
  Sound b [] = Unit {0}
  Sound false (lock zero ∷ p) = Section p × Sound true p
  Sound true (lock zero ∷ p) = ⊥
  Sound b (lock (suc k) ∷ p) = Sound b p
  Sound false (unlock zero ∷ p) = ⊥
  Sound true (unlock zero ∷ p) = Sound false p
  Sound b (unlock (suc k) ∷ p) = Sound b p
  Sound b (interlocked_increment ∷ p) = Sound b p
  Sound true (a ∷ p) = Sound true p
  Sound false (a ∷ p) = ⊥

  module _ (n : ℕ) where
    abbrev pub to_enter : Threads → ℕ
    to_enter w = total n (λ t. sections (w.left t))

    pub record Settles (w : Threads) : Type 0 where
      pub sound : (t : ℕ) → Sound (is_holder (w.holder 0) t) (w.left t)
      pub once : (h : Holder) → w.holder 0 ≡ some h → h.again ≡ 0
      pub quiet : (t : ℕ) → n ≤ t → w.left t ≡ []
      pub value : I (to_enter w) (settled (w.holder 0) w)

    sections-update :
        (w : Threads) (t : ℕ) (ops more : List Action)
        → w.left t ≡ ops
        → sections more ≡ sections ops
        → (u : ℕ) → sections (update w.left t more u) ≡ sections (w.left u)
    sections-update w t ops more e s u = elim (Bool-cases (u == t)) [
      | inl own ↦ rw own (s ∙ ap sections (sym e ∙ ap w.left (sym (==-eq u t own))))
      | inr other ↦ rw other refl
    ]

    Sound-update :
        (w : Threads) (o : Option Holder) (t : ℕ) (more : List Action)
        → ((u : ℕ) → u ≢ t → Sound (is_holder o u) (w.left u))
        → Sound (is_holder o t) more
        → (u : ℕ) → Sound (is_holder o u) (update w.left t more u)
    Sound-update w o t more old new u = elim (==-cases u t) [
      | inl e ↦ rw (e, ==-refl t) new
      | inr other ↦ rw (==-of_ne u t other) (old u other)
    ]

    quiet-update :
        (w : Threads) (t : ℕ) (a : Action) (ops more : List Action)
        → w.left t ≡ a ∷ ops
        → ((u : ℕ) → n ≤ u → w.left u ≡ [])
        → (u : ℕ) → n ≤ u
        → update w.left t more u ≡ []
    quiet-update w t a ops more e q u l = elim (==-cases u t) [
      | inl same ↦ absurd (cons_ne (sym e ∙ ap w.left (sym same) ∙ q u l))
      | inr other ↦ rw (==-of_ne u t other) (q u l)
    ]
      where
        cons_ne : a ∷ ops ≢ []
        cons_ne e = cc

    settled-same :
        (o : Option Holder) (w w' : Threads) (t : ℕ) (ops more : List Action)
        → w.left t ≡ ops
        → w'.left ≡ update w.left t more
        → alone t more w'.cells ≡ alone t ops w.cells
        → (is_holder o t ≡ false → w'.cells ≡ w.cells)
        → settled o w' ≡ settled o w
    settled-same none w w' t ops more e e' same outside = outside refl
    settled-same (some h) w w' t ops more e e' same outside = elim (==-cases h.thread t) [
      | inl own ↦ rw (own, e', e, ==-refl t) same
      | inr other ↦ rw (e', ==-of_ne h.thread t other, outside (==-of_ne h.thread t other)) refl
    ]

    -- An action that neither enters nor leaves section 0.
    advance-Settles :
        (t : ℕ) (a : Action) (more : List Action) (w w' : Threads)
        → Settles w
        → w.left t ≡ a ∷ more
        → w'.left ≡ update w.left t more
        → w'.holder 0 ≡ w.holder 0
        → Sound (is_holder (w.holder 0) t) more
        → sections more ≡ sections (a ∷ more)
        → alone t more w'.cells ≡ alone t (a ∷ more) w.cells
        → (is_holder (w.holder 0) t ≡ false → w'.cells ≡ w.cells)
        → Settles w'
    advance-Settles t a more w w' v e e' same sound as_many alone_same outside = record {
      sound = λ u.
          subst (λ o. Sound (is_holder o u) (w'.left u)) (sym same)
            (subst (λ f. Sound (is_holder (w.holder 0) u) (f u)) (sym e')
              (Sound-update w (w.holder 0) t more (λ x other. v.sound x) sound u));
      once = λ h q. v.once h (sym same ∙ q);
      quiet = λ u l. ap (λ f. f u) e' ∙ quiet-update w t a more more e v.quiet u l;
      value =
          let counts : to_enter w' ≡ to_enter w =
            total-same n (λ u. sections (w.left u)) (λ u. sections (w'.left u))
              (λ u l.
                ap (λ f. sections (f u)) e' ∙ sections-update w t (a ∷ more) more e as_many u) in
          let cells : settled (w'.holder 0) w' ≡ settled (w.holder 0) w =
            ap (λ o. settled o w') same
            ∙ settled-same (w.holder 0) w w' t (a ∷ more) more e e' alone_same outside in
          subst (λ m. I m (settled (w'.holder 0) w')) (sym counts)
            (subst (λ c. I (to_enter w) c) (sym cells) v.value);
    }
