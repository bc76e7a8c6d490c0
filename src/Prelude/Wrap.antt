-- ===== src/Prelude/Wrap.antt =====
-- A remainder by a variable, for a number that is less than twice the divisor.
use Prim.Native.Nat.{ℕ, ◌+◌, ◌-◌, ◌%◌, ◌<◌, ◌≤◌}
use mathlib.Core.Path.{◌≡◌}
use mathlib.Core.Logic.{◌⊎◌, inl, inr}
use native.Mathlib.Nat.{mod-eq_of_lt, mod-eq-sub-mod}
use native.Mathlib.Decide.{dec_lt}
use native.Mathlib.Omega.{arith}

pub wrap_cases :
    (n ws : ℕ) → n < ws + ws → ((n < ws) × (n % ws ≡ n)) ⊎ ((ws ≤ n) × (n % ws + ws ≡ n))
wrap_cases n ws h = elim (dec_lt n ws) [
  | yes p ↦ inl (p, mod-eq_of_lt p)
  | no p ↦ inr (
    omega arith,
    omega (
      arith,
      mod-eq-sub-mod {n = n} {m = ws} (omega arith),
      mod-eq_of_lt {n = n - ws} {m = ws} (omega arith),
    ),
  )
]
