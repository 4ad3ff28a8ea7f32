-- ===== src/Prelude/Families.antt =====
-- Families `ℕ → A`, indexed by thread or descriptor: a change at one index, and the sum of a weight
-- over the first `n`.
use Prim.Native.Nat.{ℕ, zero, suc, ◌+◌, ◌≤◌, ◌<◌}
use mathlib.Core.Path.{◌≡◌, refl}
use mathlib.Core.Logic.{inl, inr}
use native.Mathlib.Omega.{arith}
use memxy.Prelude.Tests.{◌==◌, if◌then◌else◌, Bool-cases}

abbrev pub put {ℓ} : {A : Type ℓ} → (ℕ → A) → ℕ → A → ℕ → A
put f i a j = if i == j then a else f j

module _ {ℓ} {A : Type ℓ} (w : A → ℕ) where
  unfoldable pub total : ℕ → (ℕ → A) → ℕ
  total zero f = 0
  total (suc n) f = w (f n) + total n f

  total-put_above : (n : ℕ) (f : ℕ → A) (i : ℕ) (a : A) → n ≤ i → total n (put f i a) ≡ total n f
  unfolding total
  total-put_above zero f i a h = refl
  total-put_above (suc n) f i a h = ground (arith, total-put_above n f i a)

  -- A change at one index changes the sum by the two weights.
  pub total-put :
      (n : ℕ) (f : ℕ → A) (i : ℕ) (a : A) → i < n → total n (put f i a) + w (f i) ≡ total n f + w a
  unfolding total
  total-put zero f i a h = absurd (omega arith)
  total-put (suc n) f i a h = elim (Bool-cases (i == n)) [
    | inl last ↦ ground (arith, total-put_above n f i a)
    | inr below ↦ ground (arith, total-put n f i a)
  ]

  pub le-total : (n : ℕ) (f : ℕ → A) (i : ℕ) → i < n → w (f i) ≤ total n f
  unfolding total
  le-total zero f i h = absurd (omega arith)
  le-total (suc n) f i h = elim (Bool-cases (i == n)) [
    | inl last ↦ ground arith
    | inr below ↦ ground (arith, le-total n f i)
  ]

  pub total-const : (n : ℕ) (a : A) → w a ≡ 0 → total n (λ _. a) ≡ 0
  unfolding total
  total-const zero a h = refl
  total-const (suc n) a h = omega (arith, total-const n a h, h)

  pub total-eq-zero : (n : ℕ) (f : ℕ → A) → ((i : ℕ) → i < n → w (f i) ≡ 0) → total n f ≡ 0
  unfolding total
  total-eq-zero zero f h = refl
  total-eq-zero (suc n) f h =
      omega (arith, h n (omega arith), total-eq-zero n f (λ i lt. h i (omega arith)))
