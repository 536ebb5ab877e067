-- ===== src/Tutorial/Sections/Schedule.antt =====
-- The sections of all threads, in any order of the threads.
use mathlib.Core.Path.{subst}
use winsock_multi_thread_ser.Base.{
  ℕ, zero, suc, ◌≤◌, ◌≡◌, refl, sym, Bool, true, false, none, List, [], ◌∷◌, update,
}
use winsock_multi_thread_ser.Tutorial.Threads.{
  Action, lock, unlock, load, store, add_one, interlocked_increment, Cells, Threads, started,
  perform, counted, act, go_on, schedule,
}
use winsock_multi_thread_ser.Tutorial.Sections.{
  alone, sections, is_holder, settled, Sound, to_enter, Settles, advance-Settles,
}
use winsock_multi_thread_ser.Tutorial.Sections.Steps.{
  enter_other-Settles, leave_other-Settles, enter_first-Settles, leave_first-Settles,
}

module _ (I : ℕ → Cells → Type 0) (n : ℕ) where
  -- An action on the variables in section 0.
  use-Settles :
      (t : ℕ) (a : Action) (more : List Action) (w : Threads)
      → Settles I n w
      → w.left t ≡ a ∷ more
      → is_holder (w.holder 0) t ≡ true
      → Sound I true more
      → sections more ≡ sections (a ∷ more)
      → alone t more (perform t a w.cells) ≡ alone t (a ∷ more) w.cells
      → Settles I n (record w { cells = perform t a w.cells; left = update w.left t more })
  use-Settles t a more w v e held sound as_many same =
      advance-Settles I n t a more w _ v e refl refl (subst (λ b. Sound I b more) (sym held) sound)
        as_many same (λ out. cc)

  go_on-Settles :
      (ops : List Action) (b : Bool) (t : ℕ) (w : Threads)
      → Settles I n w
      → w.left t ≡ ops
      → is_holder (w.holder 0) t ≡ b
      → Sound I b ops
      → Settles I n (go_on ops t w)
  unfolding go_on act perform counted
  go_on-Settles [] b t w v e held sound = v
  go_on-Settles (lock zero ∷ more) true t w v e held sound = absurd sound
  go_on-Settles (lock zero ∷ more) false t w v e held sound =
      enter_first-Settles I n (w.holder 0) t more w v e refl held sound
  go_on-Settles (lock (suc k) ∷ more) true t w v e held sound =
      enter_other-Settles I n (w.holder (suc k)) t k more w v e
        (subst (λ x. Sound I x more) (sym held) sound)
  go_on-Settles (lock (suc k) ∷ more) false t w v e held sound =
      enter_other-Settles I n (w.holder (suc k)) t k more w v e
        (subst (λ x. Sound I x more) (sym held) sound)
  go_on-Settles (unlock zero ∷ more) true t w v e held sound =
      leave_first-Settles I n (w.holder 0) t more w v e refl held sound
  go_on-Settles (unlock zero ∷ more) false t w v e held sound = absurd sound
  go_on-Settles (unlock (suc k) ∷ more) true t w v e held sound =
      leave_other-Settles I n (w.holder (suc k)) t k more w v e
        (subst (λ x. Sound I x more) (sym held) sound)
  go_on-Settles (unlock (suc k) ∷ more) false t w v e held sound =
      leave_other-Settles I n (w.holder (suc k)) t k more w v e
        (subst (λ x. Sound I x more) (sym held) sound)
  go_on-Settles (load a r ∷ more) true t w v e held sound =
      use-Settles t (load a r) more w v e held sound refl refl
  go_on-Settles (load a r ∷ more) false t w v e held sound = absurd sound
  go_on-Settles (store a r ∷ more) true t w v e held sound =
      use-Settles t (store a r) more w v e held sound refl refl
  go_on-Settles (store a r ∷ more) false t w v e held sound = absurd sound
  go_on-Settles (add_one r ∷ more) true t w v e held sound =
      use-Settles t (add_one r) more w v e held sound refl refl
  go_on-Settles (add_one r ∷ more) false t w v e held sound = absurd sound
  go_on-Settles (interlocked_increment ∷ more) true t w v e held sound =
      advance-Settles I n t interlocked_increment more w _ v e refl refl
        (subst (λ x. Sound I x more) (sym held) sound) refl refl (λ out. refl)
  go_on-Settles (interlocked_increment ∷ more) false t w v e held sound =
      advance-Settles I n t interlocked_increment more w _ v e refl refl
        (subst (λ x. Sound I x more) (sym held) sound) refl refl (λ out. refl)

  schedule-Settles : (ts : List ℕ) (w : Threads) → Settles I n w → Settles I n (schedule ts w)
  unfolding schedule
  schedule-Settles [] w v = v
  schedule-Settles (t ∷ ts) w v =
      schedule-Settles ts (go_on (w.left t) t w)
        (go_on-Settles (w.left t) (is_holder (w.holder 0) t) t w v refl refl (v.sound t))

  -- In whatever order the threads go on: if they use the shared variables in section 0 only, and each
  -- section, run alone, is a step of `I`, then `I` holds whenever the section is free, for as many
  -- sections as are still to be entered.
  pub sections-settled :
      (ts : List ℕ) (c : Cells) (programs : ℕ → List Action)
      → ((t : ℕ) → Sound I false (programs t))
      → ((t : ℕ) → n ≤ t → programs t ≡ [])
      → I (to_enter I n (started c programs)) c
      → (schedule ts (started c programs)).holder 0 ≡ none
      → I (to_enter I n (schedule ts (started c programs))) (schedule ts (started c programs)).cells
  sections-settled ts c programs sound few first free =
      let w = schedule ts (started c programs) in
      let v =
        schedule-Settles ts (started c programs)
          (record { sound = sound; once = λ h q. cc; quiet = few; value = first }) in
      subst (λ o. I (to_enter I n w) (settled o w)) free v.value
