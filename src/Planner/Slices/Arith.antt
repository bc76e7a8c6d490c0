-- ===== src/Planner/Slices/Arith.antt =====
-- The numbers behind the slices of a collective: `units` whole units of `v` elements shared out over `n`
-- slices, the first `units % n` of which take one more, and the remainder added to the last.
use native.Mathlib.Nat.{mul-div-mul_right, div-add-mod', mul-le-mul_right, mul-le-mul_left, mod-lt}
use origin_ccl.Prelude.{
  ℕ, ◌+◌, ◌-◌, ◌*◌, ◌/◌, ◌%◌, ◌≤◌, ◌<◌, min, ◌≡◌, ap, ltb, if◌then◌else◌, arith,
}

abbrev pub extra : ℕ → ℕ → ℕ
extra r c = if ltb c r then 1 else 0

-- Scaling both sides of a division by the size of an element.
pub scaled_div : (count v d : ℕ) → 0 < d → count * d / (v * d) ≡ count / v
scaled_div count v d h = mul-div-mul_right count v h

pub scaled_mod : (count v d : ℕ) → 0 < d → count * d % (v * d) ≡ count % v * d
scaled_mod count v d h =
    let e : count / v * (v * d) + count * d % (v * d) ≡ count * d =
      rw (scaled_div count v d h) at (div-add-mod' (count * d) (v * d)) in
    omega (arith, ap (λ (t : ℕ). t * d) (div-add-mod' count v))

pred_mul : (n q : ℕ) → 0 < n → (n - 1) * q + q ≡ n * q
pred_mul n q h = let e : n ≡ (n - 1) + 1 = omega arith in omega (arith, ap (λ (t : ℕ). t * q) e)

module _ (units n : ℕ) (pos_n : 0 < n) where
  -- A slice has at most all units, and the last one no extra unit.
  pub share-le : (c : ℕ) → units / n + extra (units % n) c ≤ units
  share-le c = ground (arith, div-add-mod' units n, mul-le-mul_left (units / n) pos_n)

  pub last_extra : extra (units % n) (n - 1) ≡ 0
  last_extra = ground (arith, mod-lt units pos_n)

  -- The first unit of slice `c`.
  abbrev pub first_unit : ℕ → ℕ
  first_unit c = c * (units / n) + min c (units % n)

  pub first_unit_zero : first_unit 0 ≡ 0
  first_unit_zero = omega arith

  pub first_unit-next :
      (c : ℕ) → first_unit (c + 1) ≡ first_unit c + (units / n + extra (units % n) c)
  first_unit-next c = ground arith

  pub first_unit-le : (c : ℕ) → c ≤ n → first_unit c ≤ units
  first_unit-le c h = omega (arith, div-add-mod' units n, mul-le-mul_right (units / n) h)

  pub first_unit_last : first_unit (n - 1) + units / n ≡ units
  first_unit_last =
      omega (arith, div-add-mod' units n, mod-lt units pos_n, pred_mul n (units / n) pos_n)
