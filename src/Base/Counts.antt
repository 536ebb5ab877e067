-- ===== src/Base/Counts.antt =====
-- Lists of addresses: how often one occurs, the list without it, its last element, and chains of
-- `pNext` pointers through it.
use Prim.Native.Nat.{ℕ, ◌+◌, ◌≤◌, ◌<◌}
use mathlib.Core.Path.{◌≡◌, refl}
use mathlib.Core.Logic.{◌≢◌, inl, inr}
use mathlib.Core.List.{List, [], ◌∷◌, ◌++◌}
use native.Mathlib.Omega.{arith}
use winsock_multi_thread_ser.Base.Tests.{◌==◌, if◌then◌else◌, Bool-cases}
use winsock_multi_thread_ser.Base.Lists.{length}
use winsock_multi_thread_ser.Base.Words.{Ptr, null}

abbrev pub count : Ptr → List Ptr → ℕ
count a [] = 0
count a (x ∷ xs) = (if x == a then 1 else 0) + count a xs

-- The list without the first occurrence.
abbrev pub erase : Ptr → List Ptr → List Ptr
erase a [] = []
erase a (x ∷ xs) = if x == a then xs else x ∷ erase a xs

-- The last element, or `d`.
abbrev pub last_or : Ptr → List Ptr → Ptr
last_or d [] = d
last_or d (x ∷ xs) = last_or x xs

-- The element in front of `t`, which is `d` at the head.
abbrev pub before : Ptr → Ptr → List Ptr → Ptr
before t d [] = d
before t d (x ∷ xs) = if x == t then d else before t x xs

abbrev pub update {ℓ} : {A : Type ℓ} → (Ptr → A) → Ptr → A → Ptr → A
update f p v a = if a == p then v else f a

pub count-append : (a : Ptr) (xs ys : List Ptr) → count a (xs ++ ys) ≡ count a xs + count a ys
count-append a [] ys = omega arith
count-append a (x ∷ xs) ys = omega (arith, count-append a xs ys)

pub count-erase :
    (a t : Ptr) (xs : List Ptr)
    → 0 < count t xs
    → count a (erase t xs) + (if t == a then 1 else 0) ≡ count a xs
count-erase a t [] h = absurd (omega arith)
count-erase a t (x ∷ xs) h = ground (arith, count-erase a t xs)

pub length-erase : (t : Ptr) (xs : List Ptr) → 0 < count t xs → length (erase t xs) + 1 ≡ length xs
length-erase t [] h = absurd (omega arith)
length-erase t (x ∷ xs) h = ground (arith, length-erase t xs)

pub count-last_or : (d : Ptr) (xs : List Ptr) → 0 < count (last_or d xs) (d ∷ xs)
count-last_or d [] = ground arith
count-last_or d (x ∷ xs) = ground (arith, count-last_or x xs)

pub count-before : (t d : Ptr) (xs : List Ptr) → 0 < count t xs → 0 < count (before t d xs) (d ∷ xs)
count-before t d [] h = absurd (omega arith)
count-before t d (x ∷ xs) h = ground (arith, count-before t x xs)

pub before-ne :
    (t d : Ptr) (xs : List Ptr) → 0 < count t xs → count t (d ∷ xs) ≤ 1 → before t d xs ≢ t
before-ne t d [] h one = absurd (omega arith)
before-ne t d (x ∷ xs) h one = ground (arith, before-ne t x xs)

pub last_or-append : (d q : Ptr) (xs : List Ptr) → last_or d (xs ++ q ∷ []) ≡ q
last_or-append d q [] = refl
last_or-append d q (x ∷ xs) = last_or-append x q xs

pub last_or-indep : (d e : Ptr) (xs : List Ptr) → xs ≢ [] → last_or d xs ≡ last_or e xs
last_or-indep d e [] h = absurd (h refl)
last_or-indep d e (x ∷ xs) h = refl

-- Without its last element a list ends with the element in front of that.
pub last_or-erase_last :
    (t d : Ptr) (xs : List Ptr)
    → count t xs ≡ 1
    → last_or d xs ≡ t
    → last_or d (erase t xs) ≡ before t d xs
last_or-erase_last t d [] h e = absurd (omega arith)
last_or-erase_last t d (x ∷ []) h e = ground arith
last_or-erase_last t d (x ∷ y ∷ xs) h e =
    ground (arith, last_or-erase_last t x (y ∷ xs), count-last_or y xs)

pub last_or-erase_other :
    (t d : Ptr) (xs : List Ptr)
    → count t xs ≡ 1
    → last_or d xs ≢ t
    → last_or d (erase t xs) ≡ last_or d xs
last_or-erase_other t d [] h e = refl
last_or-erase_other t d (x ∷ []) h e = ground arith
last_or-erase_other t d (x ∷ y ∷ xs) h e = ground (arith, last_or-erase_other t x (y ∷ xs))

-- From `p` the function `next` leads through the addresses of the list to `NULL`.
abbrev pub Chain : (Ptr → Ptr) → Ptr → List Ptr → Type 0
Chain next p [] = p ≡ null
Chain next p (x ∷ xs) = (p ≡ x) × Chain next (next x) xs

pub Chain-frame :
    (next next' : Ptr → Ptr) (p : Ptr) (xs : List Ptr)
    → Chain next p xs
    → ((a : Ptr) → 0 < count a xs → next' a ≡ next a)
    → Chain next' p xs
Chain-frame next next' p [] c same = c
Chain-frame next next' p (x ∷ xs) c same =
    let here : next' x ≡ next x = same x (ground arith) in
    (c.0, rw here (Chain-frame next next' (next x) xs c.1 (λ a i. same a (ground arith))))

-- The last link is `NULL`.
pub Chain-last_or :
    (next : Ptr → Ptr) (p x : Ptr) (xs : List Ptr)
    → Chain next p (x ∷ xs)
    → next (last_or x xs) ≡ null
Chain-last_or next p x [] c = c.1
Chain-last_or next p x (y ∷ ys) c = Chain-last_or next (next x) y ys c.1

-- A new last element: the old one is made to point to it.
pub Chain-append :
    (next next' : Ptr → Ptr) (p q x : Ptr) (xs : List Ptr)
    → Chain next p (x ∷ xs)
    → ((a : Ptr) → count a (x ∷ xs) ≤ 1)
    → next' (last_or x xs) ≡ q
    → next' q ≡ null
    → ((a : Ptr) → 0 < count a (x ∷ xs) → a ≢ last_or x xs → next' a ≡ next a)
    → Chain next' p (x ∷ (xs ++ q ∷ []))
Chain-append next next' p q x [] c one e f same = (c.0, (e, f))
Chain-append next next' p q x (y ∷ ys) c one e f same =
    let other : x ≢ last_or y ys = λ h. ground (arith, one x, count-last_or y ys) in
    let here : next' x ≡ next x = same x (ground arith) other in
    (
      c.0,
      rw here (
          Chain-append next next' (next x) q y ys c.1 (λ a. ground (arith, one a)) e f
            (λ a i n. same a (ground arith) n)),
    )

-- An element behind the first is left out: the one in front of it is made to point past it.
pub Chain-erase :
    (next next' : Ptr → Ptr) (p t x : Ptr) (xs : List Ptr)
    → Chain next p (x ∷ xs)
    → 0 < count t xs
    → ((a : Ptr) → count a (x ∷ xs) ≤ 1)
    → next' (before t x xs) ≡ next t
    → ((a : Ptr) → 0 < count a (x ∷ xs) → a ≢ before t x xs → a ≢ t → next' a ≡ next a)
    → Chain next' p (x ∷ erase t xs)
Chain-erase next next' p t x [] c h one e same = absurd (omega arith)
Chain-erase next next' p t x (y ∷ ys) c h one e same = elim (Bool-cases (y == t)) [
  | inl hit ↦
      let next-x : next' x ≡ next y = ground arith in
      rw hit (
        c.0,
        rw next-x (
            Chain-frame next next' (next y) ys c.1.1
              (λ a i. same a (ground arith) (ground (arith, one a)) (ground (arith, one a)))),
      )
  | inr miss ↦
      let front : before t x (y ∷ ys) ≡ before t y ys = rw miss in
      let inside : 0 < count t ys = ground arith in
      let other : x ≢ before t x (y ∷ ys) =
        λ k. ground (arith, one x, count-before t y ys inside) in
      let next-x : next' x ≡ next x = same x (ground arith) other (λ k. ground (arith, one x)) in
      rw miss (
        c.0,
        rw next-x (
            Chain-erase next next' (next x) t y ys c.1 inside (λ a. ground (arith, one a))
              (rw front at e) (λ a i n m. same a (ground arith) (λ k. n (rw front at k)) m)),
      )
]
