-- ===== src/StreamBuffer/Growth.antt =====
-- The doubling loop of `expand_buffer`.
use native.Mathlib.Nat.{pow-suc, pow-zero}
use memxy.Prelude.{
  ℕ, zero, suc, ◌*◌, ◌%◌, ◌^◌, ◌≤◌, ◌<◌, ◌≡◌, ◌⊎◌, inl, inr, refl, some, arith, ltb, ltb→lt,
  Bool-cases,
}
use memxy.StreamBuffer.{grow, grow_fuel}

-- The result of the loop: the start, when that reaches the target, and otherwise at least the target
-- and less than twice of it.
pub record Grown (n target r : ℕ) : Type 0 where
  pub reaches : target ≤ r
  pub tight : ((r ≡ n) × (target ≤ n)) ⊎ (r < 2 * target)

pow_step : (f n : ℕ) → n * 2 ^ suc f ≡ n * 2 * 2 ^ f
pow_step f n = rw pow-suc (omega arith)

grow_fuelled :
    (f n target : ℕ)
    → 0 < n
    → target ≤ 2 ^ 63
    → target ≤ n * 2 ^ f
    → (r : ℕ) × (grow (suc f) n target ≡ some r) × Grown n target r
unfolding grow
grow_fuelled zero n target pos small enough = (
  n,
  ground (arith, pow-zero 2),
  record { reaches = omega (arith, pow-zero 2); tight = inl (refl, omega (arith, pow-zero 2)) },
)
grow_fuelled (suc f) n target pos small enough = elim (Bool-cases (ltb n target)) [
  | inl more ↦
      let lt : n < target = ltb→lt n target more in
      let (r, e, g) =
        grow_fuelled f (n * 2) target (omega arith) small (omega (arith, pow_step f n)) in
      let wrap : n * 2 % 2 ^ 64 ≡ n * 2 = omega arith in
      (
        r,
        rw (more, wrap) e,
        record { reaches = g.reaches; tight = inr (doubled n target r lt g.tight) },
      )
  | inr done ↦ (n, rw done, record { reaches = ground arith; tight = inl (refl, ground arith) })
]
  where
    doubled :
        (n target r : ℕ)
        → n < target
        → ((r ≡ n * 2) × (target ≤ n * 2)) ⊎ (r < 2 * target)
        → r < 2 * target
    doubled n target r h t = omega arith

pub grow_ends :
    (n target : ℕ)
    → 0 < n
    → target ≤ 2 ^ 63
    → (r : ℕ) × (grow grow_fuel n target ≡ some r) × Grown n target r
grow_ends n target pos small = grow_fuelled 63 n target pos small (omega arith)
