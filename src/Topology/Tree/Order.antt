-- ===== src/Topology/Tree/Order.antt =====
-- About `MinInputPrefix`, src/topology/topology_tree.cpp, and single edges.
use origin_ccl.Prelude.{
  ℕ, zero, suc, ◌≡◌, ◌≤◌, ap, arith, Bool, true, Option, none, some, List, [], ◌∷◌, min,
  if◌then◌else◌, get_elem?,
}
use origin_ccl.Topology.Tree.{Role}
use origin_ccl.Topology.Tree.Stepping.{is_input_role, min_input}
use origin_ccl.Topology.Tree.Bounds.{IsWithin}

abbrev or_zero : Option ℕ → ℕ
or_zero none = 0
or_zero (some n) = n

some_inj : (m n : ℕ) → some m ≡ some n → m ≡ n
some_inj m n e = ap or_zero e

min_input-above : (best : ℕ) (roles : List Role) (cs : List ℕ) → min_input best roles cs ≤ best
unfolding min_input
min_input-above best [] cs = omega arith
min_input-above best (role ∷ roles) [] = omega arith
min_input-above best (role ∷ roles) (c ∷ cs) =
    ground (arith, min_input-above (if is_input_role role then min best c else best) roles cs)

pub min_input-input :
    (best : ℕ) (roles : List Role) (cs : List ℕ) (i c : ℕ) (role : Role)
    → get_elem? roles i ≡ some role
    → is_input_role role ≡ true
    → get_elem? cs i ≡ some c
    → min_input best roles cs ≤ c
unfolding min_input
min_input-input best [] cs i c role e p q = absurd (ground (arith, e))
min_input-input best (r ∷ roles) [] i c role e p q = absurd (ground (arith, q))
min_input-input best (r ∷ roles) (x ∷ cs) zero c role e p q =
    ground (arith, e, p, q, min_input-above (if is_input_role r then min best x else best) roles cs)
min_input-input best (r ∷ roles) (x ∷ cs) (suc i) c role e p q =
    min_input-input (if is_input_role r then min best x else best) roles cs i c role e p q

pub IsWithin-get_elem? :
    (picks : Role → Bool) (gate : ℕ) (roles : List Role) (cs : List ℕ) (i c : ℕ) (role : Role)
    → IsWithin picks gate roles cs
    → get_elem? roles i ≡ some role
    → picks role ≡ true
    → get_elem? cs i ≡ some c
    → c ≤ gate
IsWithin-get_elem? picks gate [] cs i c role h e p q = absurd (ground (arith, e))
IsWithin-get_elem? picks gate (r ∷ roles) [] i c role h e p q = absurd (ground (arith, q))
IsWithin-get_elem? picks gate (r ∷ roles) (x ∷ cs) zero c role h e p q =
    omega (arith, h.0 cc, some_inj x c q)
IsWithin-get_elem? picks gate (r ∷ roles) (x ∷ cs) (suc i) c role h e p q =
    IsWithin-get_elem? picks gate roles cs i c role h.1 e p q
