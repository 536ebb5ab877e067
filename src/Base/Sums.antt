-- ===== src/Base/Sums.antt =====
-- Sums over the first numbers.
use Prim.Native.Nat.{ℕ, zero, suc, ◌+◌, ◌*◌, ◌≤◌, ◌<◌}
use mathlib.Core.Path.{◌≡◌, refl, sym}
use mathlib.Core.Logic.{◌≢◌, inl, inr}
use native.Mathlib.Omega.{arith}
use winsock_multi_thread_ser.Base.Tests.{==-cases}

-- The sum of the first `n` values.
abbrev pub total : ℕ → (ℕ → ℕ) → ℕ
total zero f = 0
total (suc n) f = total n f + f n

pub total-same : (n : ℕ) (f g : ℕ → ℕ) → ((i : ℕ) → i < n → g i ≡ f i) → total n g ≡ total n f
total-same zero f g h = refl
total-same (suc n) f g h =
    omega (arith, total-same n f g (λ i l. h i (omega (arith, l))), h n (omega arith))

-- A value that changes changes the sum by as much.
pub total-change :
    (n i : ℕ) (f g : ℕ → ℕ)
    → i < n
    → ((j : ℕ) → j ≢ i → g j ≡ f j)
    → total n g + f i ≡ total n f + g i
total-change zero i f g l h = absurd (omega (arith, l))
total-change (suc n) i f g l h = elim (==-cases i n) [
  | inl e ↦
      let same : total n g ≡ total n f = total-same n f g (λ j l'. h j (omega (arith, l', e))) in
      rw e (omega (arith, same))
  | inr other ↦
      omega (arith, total-change n i f g (omega (arith, l, other)) h, h n (λ q. other (sym q)))
]

pub le-total : (n i : ℕ) (f : ℕ → ℕ) → i < n → f i ≤ total n f
le-total zero i f l = absurd (omega (arith, l))
le-total (suc n) i f l = elim (==-cases i n) [
  | inl e ↦ rw e (omega arith)
  | inr other ↦ omega (arith, le-total n i f (omega (arith, l, other)))
]

-- A sum that is not 0 has a part that is not 0.
pub some-total : (n : ℕ) (f : ℕ → ℕ) → total n f ≢ 0 → (i : ℕ) × (i < n) × (f i ≢ 0)
some-total zero f h = absurd (h refl)
some-total (suc n) f h = elim (==-cases (f n) 0) [
  | inl e ↦
      let (i, l, p) = some-total n f (λ q. h (omega (arith, q, e))) in (i, omega (arith, l), p)
  | inr p ↦ (n, omega arith, p)
]

pub total-zero : (n : ℕ) (f : ℕ → ℕ) → ((i : ℕ) → i < n → f i ≡ 0) → total n f ≡ 0
total-zero zero f h = refl
total-zero (suc n) f h =
    omega (arith, total-zero n f (λ i l. h i (omega (arith, l))), h n (omega arith))

-- A bound on each part, and the sum of ones.
pub total-le : (n c : ℕ) (f : ℕ → ℕ) → ((i : ℕ) → f i ≤ c) → total n f ≤ c * n
total-le zero c f h = omega arith
total-le (suc n) c f h =
    let step : c * suc n ≡ c * n + c = ground arith in omega (arith, total-le n c f h, h n, step)

pub total-ones : (n : ℕ) (f : ℕ → ℕ) → ((i : ℕ) → i < n → f i ≡ 1) → total n f ≡ n
total-ones zero f h = refl
total-ones (suc n) f h =
    omega (arith, total-ones n f (λ i l. h i (omega (arith, l))), h n (omega arith))
