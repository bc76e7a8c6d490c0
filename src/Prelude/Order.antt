-- ===== src/Prelude/Order.antt =====
-- Strict orders given by a Boolean test, and their lexicographic sums.
use mathlib.Core.Path.{◌≡◌}
use mathlib.Core.Bool.{Bool, true, false, not}
use Prim.Native.Nat.{ℕ, ◌+◌}
use native.Mathlib.Omega.{arith}
use origin_ccl.Prelude.Tests.{ltb, ◌==◌, if◌then◌else◌}
use origin_ccl.Prelude.Int.{ℤ, pos_part, neg_part, ltb_ℤ, eqb_ℤ}

-- What a comparator of `std::stable_sort` over keys has to satisfy for the result to be unique.
pub record IsStrictOrder {ℓ} {K : Type ℓ} (lt : K → K → Bool) : Type ℓ where
  pub asym : (a b : K) → lt a b ≡ true → lt b a ≡ false
  pub trans : (a b c : K) → lt b a ≡ false → lt c b ≡ false → lt c a ≡ false
  pub total : (a b : K) → lt a b ≡ false → lt b a ≡ false → a ≡ b

pub ltb-IsStrictOrder : IsStrictOrder ltb
ltb-IsStrictOrder = record {
  asym = λ a b h. ground arith;
  trans = λ a b c h k. ground arith;
  total = λ a b h k. ground arith;
}

pub ltb_ℤ-IsStrictOrder : IsStrictOrder ltb_ℤ
ltb_ℤ-IsStrictOrder = record {
  asym = λ a b h. ground arith;
  trans = λ a b c h k. ground arith;
  total = λ a b h k. ground arith;
}

-- `if (x != y) return x < y; return rest;`
abbrev pub first_by : ℕ → ℕ → Bool → Bool
first_by x y rest = if not (x == y) then ltb x y else rest

-- Comparing first by a number and then by an order is an order on the pairs.
pub first_by-IsStrictOrder {ℓ} :
    {K : Type ℓ} {lt : K → K → Bool}
    → IsStrictOrder lt
    → IsStrictOrder {K = ℕ × K} (λ a b. first_by a.0 b.0 (lt a.1 b.1))
first_by-IsStrictOrder o = record {
  asym = λ a b h. ground (arith, o.asym a.1 b.1);
  trans = λ a b c h k. ground (arith, o.trans a.1 b.1 c.1);
  total = λ a b h k. ground (arith, o.total a.1 b.1);
}

-- The same where the first comparison is of integers.
abbrev pub first_by_ℤ : ℤ → ℤ → Bool → Bool
first_by_ℤ x y rest = if not (eqb_ℤ x y) then ltb_ℤ x y else rest

-- In the parts of the integers: `m - n` against `i - j`.
abbrev by_parts : ℕ → ℕ → ℕ → ℕ → Bool → Bool
by_parts m n i j rest = if not ((m + j) == (i + n)) then ltb (m + j) (i + n) else rest

by_parts_trans :
    (m n i j k l f g h : ℕ)
    → by_parts i j m n (ltb g f) ≡ false
    → by_parts k l i j (ltb h g) ≡ false
    → by_parts k l m n (ltb h f) ≡ false
by_parts_trans m n i j k l f g h p q = ground arith

pub first_by_ℤ-trans :
    (x y z : ℤ) (f g h : ℕ)
    → first_by_ℤ y x (ltb g f) ≡ false
    → first_by_ℤ z y (ltb h g) ≡ false
    → first_by_ℤ z x (ltb h f) ≡ false
first_by_ℤ-trans x y z f g h =
    by_parts_trans (pos_part x) (neg_part x) (pos_part y) (neg_part y) (pos_part z) (neg_part z) f g
      h

pub first_by_ℤ-asym :
    (x y : ℤ) (f g : ℕ) → first_by_ℤ x y (ltb f g) ≡ true → first_by_ℤ y x (ltb g f) ≡ false
first_by_ℤ-asym x y f g h = ground arith

pub first_by_ℤ_flat : (x y : ℤ) (f g : ℕ) → x ≡ y → f ≡ g → first_by_ℤ x y (ltb f g) ≡ false
first_by_ℤ_flat x y f g e d = ground arith
