-- ===== src/TmpDoublyList/Back.antt =====
-- Chains of `pPrev` pointers, and where the pointers of a node in the chain lead to.
use winsock_multi_thread_ser.Base.{
  ◌≤◌, ◌<◌, ◌≡◌, ◌≢◌, refl, inl, inr, List, [], ◌∷◌, ◌++◌, arith, ◌==◌, if◌then◌else◌, Bool-cases,
  Ptr, null, count, erase, last_or, before, Chain, count-last_or,
}

-- Back from each element, `prev` leads to the one in front of it, and from the first to `b`.
abbrev pub Back : (Ptr → Ptr) → Ptr → List Ptr → Type 0
Back prev b [] = Unit {0}
Back prev b (x ∷ xs) = (prev x ≡ b) × Back prev x xs

abbrev pub first_or : Ptr → List Ptr → Ptr
first_or d [] = d
first_or d (x ∷ xs) = x

-- The element behind `t`, which is `NULL` at the end.
abbrev pub behind : Ptr → List Ptr → Ptr
behind t [] = null
behind t (x ∷ xs) = if x == t then first_or null xs else behind t xs

pub Back-frame :
    (prev prev' : Ptr → Ptr) (b : Ptr) (xs : List Ptr)
    → Back prev b xs
    → ((a : Ptr) → 0 < count a xs → prev' a ≡ prev a)
    → Back prev' b xs
Back-frame prev prev' b [] c same = tt
Back-frame prev prev' b (x ∷ xs) c same =
    let here : prev' x ≡ prev x = same x (ground arith) in
    (rw here c.0, Back-frame prev prev' x xs c.1 (λ a i. same a (ground arith)))

pub Back-before :
    (prev : Ptr → Ptr) (b t : Ptr) (xs : List Ptr)
    → Back prev b xs
    → 0 < count t xs
    → prev t ≡ before t b xs
Back-before prev b t [] c i = absurd (omega (arith, i))
Back-before prev b t (x ∷ xs) c i = ground (arith, Back-before prev x t xs c.1, c.0)

pub Chain-behind :
    (next : Ptr → Ptr) (p t : Ptr) (xs : List Ptr)
    → Chain next p xs
    → 0 < count t xs
    → next t ≡ behind t xs
Chain-behind next p t [] c i = absurd (omega (arith, i))
Chain-behind next p t (x ∷ []) c i = ground (arith, c.1)
Chain-behind next p t (x ∷ y ∷ ys) c i =
    ground (arith, Chain-behind next (next x) t (y ∷ ys) c.1, c.1.0)

-- The element behind `t` is another one of the list, if there is one.
pub count-behind : (t : Ptr) (xs : List Ptr) → behind t xs ≢ null → 0 < count (behind t xs) xs
count-behind t [] h = absurd (h refl)
count-behind t (x ∷ []) h = ground arith
count-behind t (x ∷ y ∷ ys) h = ground (arith, count-behind t (y ∷ ys))

pub behind-ne :
    (t : Ptr) (xs : List Ptr) → 0 < count t xs → count t xs ≤ 1 → t ≢ null → behind t xs ≢ t
behind-ne t [] i one n = absurd (omega (arith, i))
behind-ne t (x ∷ []) i one n = ground arith
behind-ne t (x ∷ y ∷ ys) i one n = ground (arith, behind-ne t (y ∷ ys))

-- With nothing behind it, an element is the last one.
pub behind-last :
    (t d : Ptr) (xs : List Ptr)
    → 0 < count t xs
    → count null xs ≡ 0
    → behind t xs ≡ null
    → last_or d xs ≡ t
behind-last t d [] i n e = absurd (omega (arith, i))
behind-last t d (x ∷ []) i n e = ground arith
behind-last t d (x ∷ y ∷ ys) i n e = ground (arith, behind-last t x (y ∷ ys))

-- The last element has nothing behind it.
pub behind-last_or :
    (t d : Ptr) (xs : List Ptr)
    → ((a : Ptr) → count a xs ≤ 1)
    → 0 < count t xs
    → last_or d xs ≡ t
    → behind t xs ≡ null
behind-last_or t d [] one i e = refl
behind-last_or t d (x ∷ []) one i e = ground arith
behind-last_or t d (x ∷ y ∷ ys) one i e =
    ground
      (arith, one x, count-last_or y ys, behind-last_or t x (y ∷ ys) (λ a. ground (arith, one a)))

-- An element is left out: the one behind it, if any, is made to point in front of it.
pub Back-erase :
    (prev prev' : Ptr → Ptr) (b t : Ptr) (xs : List Ptr)
    → Back prev b xs
    → 0 < count t xs
    → ((a : Ptr) → count a xs ≤ 1)
    → count null xs ≡ 0
    → (behind t xs ≢ null → prev' (behind t xs) ≡ prev t)
    → ((a : Ptr) → 0 < count a xs → a ≢ behind t xs → a ≢ t → prev' a ≡ prev a)
    → Back prev' b (erase t xs)
Back-erase prev prev' b t [] c i one n e same = tt
Back-erase prev prev' b t (x ∷ []) c i one n e same = ground arith
Back-erase prev prev' b t (x ∷ y ∷ ys) c i one n e same = elim (Bool-cases (x == t)) [
  | inl hit ↦
      let here : prev' y ≡ b = ground (arith, c.0, e, n) in
      rw hit
        (here, Back-frame prev prev' y ys c.1.1 (λ a k. ground (arith, same a, one y, one t, hit)))
  | inr miss ↦
      let apart : x ≢ behind t (y ∷ ys) = λ k. ground (arith, count-behind t (y ∷ ys), one x, n) in
      let here : prev' x ≡ b = ground (arith, c.0, same x, miss) in
      rw miss (
        here,
        Back-erase prev prev' x t (y ∷ ys) c.1 (ground (arith, miss)) (λ a. ground (arith, one a))
            (ground (arith, n)) (ground (arith, e, miss)) (λ a k u v. ground (arith, same a, miss)),
      )
]

-- A new last element, which is made to point to the old one.
pub Back-append :
    (prev prev' : Ptr → Ptr) (b q : Ptr) (xs : List Ptr)
    → Back prev b xs
    → prev' q ≡ last_or b xs
    → ((a : Ptr) → 0 < count a xs → prev' a ≡ prev a)
    → Back prev' b (xs ++ q ∷ [])
Back-append prev prev' b q [] c e same = (e, tt)
Back-append prev prev' b q (x ∷ xs) c e same =
    let here : prev' x ≡ prev x = same x (ground arith) in
    (rw here c.0, Back-append prev prev' x q xs c.1 e (λ a i. same a (ground arith)))
