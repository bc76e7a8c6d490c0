-- ===== src/Topology/Tree/Heaps.antt =====
-- The two heaps between the machines, as the formulas of `TreeTopology::FillChannels` lay them out.
use origin_ccl.Prelude.{
  ℕ, zero, suc, ◌-◌, ◌≤◌, ◌<◌, ◌≡◌, ◌↔◌, ◌⊎◌, Bool, true, false, none, some, arith, if◌then◌else◌,
}
use origin_ccl.Topology.Tree.{heap_of}

-- In the plain tree and in the mirrored one, machine `i` is the parent that machine `j` computes exactly
-- when `j` is one of the children that `i` computes.
pub heap-agree :
    (mirrored : Bool) (n i j : ℕ)
    → i < n
    → j < n
    → ((heap_of mirrored n j).parent ≡ some i)
      ↔ (((heap_of mirrored n i).child0 ≡ j) ⊎ ((heap_of mirrored n i).child1 ≡ j))
unfolding heap_of
heap-agree false n i j h k = ground arith
heap-agree true n i j h k = ground arith

-- A machine with a child in one of the two trees has none in the other.
pub heap-balanced :
    (n i : ℕ)
    → i < n
    → ((heap_of false n i).child0 < n) ⊎ ((heap_of false n i).child1 < n)
    → (n ≤ (heap_of true n i).child0) × (n ≤ (heap_of true n i).child1)
unfolding heap_of
heap-balanced n i h k = ground arith

-- The machine after so many steps from parent to parent; a root stays where it is.
abbrev pub climb : Bool → ℕ → ℕ → ℕ → ℕ
climb mirrored n zero i = i
climb mirrored n (suc k) i =
    climb mirrored n k (elim (heap_of mirrored n i).parent [ none ↦ i | some p ↦ p ])

-- How far down the heap a machine stands, counted along the formulas' own order.
abbrev place : Bool → ℕ → ℕ → ℕ
place mirrored n i = if mirrored then n - 1 - i else i

abbrev pub root_of : Bool → ℕ → ℕ
root_of mirrored n = if mirrored then n - 1 else 0

abbrev step_up : Bool → ℕ → ℕ → ℕ
step_up mirrored n i = elim (heap_of mirrored n i).parent [ none ↦ i | some p ↦ p ]

step_up_lem :
    (mirrored : Bool) (n i k : ℕ)
    → i < n
    → place mirrored n i ≤ suc k
    → (step_up mirrored n i < n) × (place mirrored n (step_up mirrored n i) ≤ k)
unfolding heap_of
step_up_lem false n i k h p = ground arith
step_up_lem true n i k h p = ground arith

climb-root :
    (mirrored : Bool) (n k i : ℕ)
    → i < n
    → place mirrored n i ≤ k
    → climb mirrored n k i ≡ root_of mirrored n
climb-root false n zero i h p = omega arith
climb-root true n zero i h p = omega arith
climb-root mirrored n (suc k) i h p =
    let s = step_up_lem mirrored n i k h p in climb-root mirrored n k (step_up mirrored n i) s.0 s.1

-- Each of the two trees is one tree: of `n` machines, each reaches the same root by at most `n` steps to
-- the parent, machine 0 in the plain tree and machine `n - 1` in the mirrored one.
pub climb-connected :
    (mirrored : Bool) (n i : ℕ) → i < n → climb mirrored n n i ≡ root_of mirrored n
climb-connected mirrored n i h = climb-root mirrored n n i h (bound mirrored)
  where
    bound : (m : Bool) → place m n i ≤ n
    bound false = omega arith
    bound true = omega arith
