-- ===== src/Tutorial/Sections/Steps.antt =====
-- Entering and leaving critical sections: section 0, and the others.
use mathlib.Core.Path.{subst}
use native.Mathlib.Decide.{dec_lt}
use winsock_multi_thread_ser.Base.{
  ℕ, suc, ◌<◌, ◌≡◌, ◌≢◌, refl, sym, ap, ◌∙◌, inl, inr, true, false, Bool-cases, ==-eq, ==-refl,
  ==-of_ne, Option, none, some, List, [], ◌∷◌, arith, ◌==◌, update, total-change, total-same,
}
use winsock_multi_thread_ser.Tutorial.Threads.{
  Action, lock, unlock, Cells, Holder, Threads, perform, enter, leave,
}
use winsock_multi_thread_ser.Tutorial.Held.{held_by}
use winsock_multi_thread_ser.Tutorial.Sections.{
  alone, sections, is_holder, settled, Section, Sound, to_enter, Settles, sections-update,
  Sound-update, quiet-update, advance-Settles,
}

module _ (I : ℕ → Cells → Type 0) (n : ℕ) where
  enter-Settles :
      (t : ℕ) (more : List Action) (w : Threads)
      → Settles I n w
      → w.left t ≡ lock 0 ∷ more
      → w.holder 0 ≡ none
      → Section I more
      → Sound I true more
      → Settles I n
          (record w { holder = update w.holder 0 (held_by t); left = update w.left t more })
  enter-Settles t more w v e free section sound =
      let w' : Threads = record w {
        holder = update w.holder 0 (held_by t);
        left = update w.left t more;
      } in
      let inside : t < n = elim (dec_lt t n) [
        | yes l ↦ l
        | no out ↦ absurd (cons_ne (sym e ∙ v.quiet t (omega (arith, out))))
      ] in
      let others : (u : ℕ) → u ≢ t → sections (w'.left u) ≡ sections (w.left u) =
        λ u other. rw (==-of_ne u t other) refl in
      let mine : sections (w'.left t) ≡ sections more = rw (==-refl t) refl in
      let fewer : suc (to_enter I n w') ≡ to_enter I n w = omega (
        arith,
        total-change n t (λ u. sections (w.left u)) (λ u. sections (w'.left u)) inside others,
        mine,
        ap sections e,
      ) in
      record {
        sound =
            Sound-update I n w (held_by t) t more
              (λ u other.
                rw (==-of_ne t u (λ q. other (sym q)))
                  (subst (λ o. Sound I (is_holder o u) (w.left u)) free (v.sound u)))
              (rw (==-refl t) sound);
        once = λ h q. ground (arith, q);
        quiet = quiet-update I n w t (lock 0) more more e v.quiet;
        value =
            let before : I (suc (to_enter I n w')) w.cells =
              subst (λ m. I m w.cells) (sym fewer)
                (subst (λ o. I (to_enter I n w) (settled o w)) free v.value) in
            rw (==-refl t) (section t (to_enter I n w') w.cells before);
      }
    where
      cons_ne : lock 0 ∷ more ≢ []
      cons_ne e = cc

  leave-Settles :
      (t : ℕ) (more : List Action) (h : Holder) (w : Threads)
      → Settles I n w
      → w.left t ≡ unlock 0 ∷ more
      → w.holder 0 ≡ some h
      → h.thread ≡ t
      → Sound I false more
      → Settles I n (record w { holder = update w.holder 0 none; left = update w.left t more })
  leave-Settles t more h w v e here own sound =
      let w' : Threads = record w {
        holder = update w.holder 0 none;
        left = update w.left t more;
      } in
      let counts : to_enter I n w' ≡ to_enter I n w =
        total-same n (λ u. sections (w.left u)) (λ u. sections (w'.left u))
          (λ u l. sections-update I n w t (unlock 0 ∷ more) more e refl u) in
      let done : settled (w.holder 0) w ≡ w.cells =
        ap (λ o. settled o w) here
        ∙ ap (λ u. alone u (w.left u) w.cells) own
        ∙ ap (λ ops. alone t ops w.cells) e in
      record {
        sound =
            Sound-update I n w none t more
              (λ u other.
                let out : (h.thread == u) ≡ false =
                  ==-of_ne h.thread u (λ q. other (sym q ∙ own)) in
                subst (λ b. Sound I b (w.left u)) (ap (λ o. is_holder o u) here ∙ out) (v.sound u))
              sound;
        once = λ g q. cc;
        quiet = quiet-update I n w t (unlock 0) more more e v.quiet;
        value = subst (λ m. I m w.cells) (sym counts) (subst (I (to_enter I n w)) done v.value);
      }

  -- Entering and leaving another section, by whoever may.
  pass-Settles :
      (t k : ℕ) (o : Option Holder) (a : Action) (more : List Action) (w : Threads)
      → Settles I n w
      → w.left t ≡ a ∷ more
      → Sound I (is_holder (w.holder 0) t) more
      → sections more ≡ sections (a ∷ more)
      → alone t more w.cells ≡ alone t (a ∷ more) w.cells
      → Settles I n (record w { holder = update w.holder (suc k) o; left = update w.left t more })
  pass-Settles t k o a more w v e sound as_many alone_same =
      let w' : Threads = record w {
        holder = update w.holder (suc k) o;
        left = update w.left t more;
      } in
      let same : w'.holder 0 ≡ w.holder 0 = ground arith in
      advance-Settles I n t a more w w' v e refl same sound as_many alone_same (λ out. refl)

  pub enter_other-Settles :
      (o : Option Holder) (t k : ℕ) (more : List Action) (w : Threads)
      → Settles I n w
      → w.left t ≡ lock (suc k) ∷ more
      → Sound I (is_holder (w.holder 0) t) more
      → Settles I n (enter o (suc k) t more w)
  unfolding enter perform
  enter_other-Settles none t k more w v e sound =
      pass-Settles t k _ (lock (suc k)) more w v e sound refl refl
  enter_other-Settles (some h) t k more w v e sound = elim (Bool-cases (h.thread == t)) [
    | inl own ↦ rw own (pass-Settles t k _ (lock (suc k)) more w v e sound refl refl)
    | inr other ↦ rw other v
  ]

  pub leave_other-Settles :
      (o : Option Holder) (t k : ℕ) (more : List Action) (w : Threads)
      → Settles I n w
      → w.left t ≡ unlock (suc k) ∷ more
      → Sound I (is_holder (w.holder 0) t) more
      → Settles I n (leave o (suc k) t more w)
  unfolding leave perform
  leave_other-Settles none t k more w v e sound = v
  leave_other-Settles (some h) t k more w v e sound = elim (Bool-cases (h.thread == t)) [
    | inl own ↦ rw own (pass-Settles t k _ (unlock (suc k)) more w v e sound refl refl)
    | inr other ↦ rw other v
  ]

  pub enter_first-Settles :
      (o : Option Holder) (t : ℕ) (more : List Action) (w : Threads)
      → Settles I n w
      → w.left t ≡ lock 0 ∷ more
      → w.holder 0 ≡ o
      → is_holder o t ≡ false
      → Section I more × Sound I true more
      → Settles I n (enter o 0 t more w)
  unfolding enter
  enter_first-Settles none t more w v e free out sound =
      enter-Settles t more w v e free sound.0 sound.1
  enter_first-Settles (some h) t more w v e taken out sound = rw out v

  pub leave_first-Settles :
      (o : Option Holder) (t : ℕ) (more : List Action) (w : Threads)
      → Settles I n w
      → w.left t ≡ unlock 0 ∷ more
      → w.holder 0 ≡ o
      → is_holder o t ≡ true
      → Sound I false more
      → Settles I n (leave o 0 t more w)
  unfolding leave
  leave_first-Settles none t more w v e taken held sound = v
  leave_first-Settles (some h) t more w v e taken held sound =
      rw (held, v.once h taken) (leave-Settles t more h w v e taken (==-eq h.thread t held) sound)
