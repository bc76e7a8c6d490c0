-- ===== src/Topology/Tree/Bounds.antt =====
-- Bounds on the chunks of the edges, and the loops over the roles, src/topology/topology_tree.cpp.
use origin_ccl.Prelude.{
  ℕ, zero, suc, ◌≡◌, ◌≤◌, min, refl, arith, Bool, true, false, Option, List, [], ◌∷◌, length,
  replicate, if◌then◌else◌,
}
use origin_ccl.Topology.Tree.{Role}
use origin_ccl.Topology.Tree.Stepping.{is_input_role, is_up_role, min_input, at_parent, all_reached}
use origin_ccl.Topology.Tree.Calls.{blank_side}
use origin_ccl.Topology.Tree.Edges.{IsFitting, HasMoved}

-- No edge that `picks` chooses is past `gate`.
abbrev pub IsWithin : (Role → Bool) → ℕ → List Role → List ℕ → Type 0
IsWithin picks gate [] cs = Unit
IsWithin picks gate (role ∷ roles) [] = Unit
IsWithin picks gate (role ∷ roles) (c ∷ cs) =
    (picks role ≡ true → c ≤ gate) × IsWithin picks gate roles cs

-- Each edge that `picks` chooses is at `n` or past it.
abbrev pub HasAll : (Role → Bool) → ℕ → List Role → List ℕ → Type 0
HasAll picks n [] cs = Unit
HasAll picks n (role ∷ roles) [] = ⊥
HasAll picks n (role ∷ roles) (c ∷ cs) = (picks role ≡ true → n ≤ c) × HasAll picks n roles cs

pub all_reached-HasAll :
    (picks : Role → Bool) (n : ℕ) (roles : List Role) (cs : List ℕ)
    → length roles ≡ length cs
    → all_reached picks n roles cs ≡ true
    → HasAll picks n roles cs
unfolding all_reached
all_reached-HasAll picks n [] cs l e = tt
all_reached-HasAll picks n (role ∷ roles) [] l e = absurd (omega (arith, l))
all_reached-HasAll picks n (role ∷ roles) (c ∷ cs) l e = (
  λ p. ground (arith, e, p),
  all_reached-HasAll picks n roles cs (omega (arith, l)) (ground (arith, e)),
)

-- An edge that nothing chooses.
pub none-HasAll :
    (n : ℕ) (roles : List Role) (cs : List ℕ)
    → length roles ≡ length cs
    → HasAll (λ role. false) n roles cs
none-HasAll n [] cs l = tt
none-HasAll n (role ∷ roles) [] l = absurd (omega (arith, l))
none-HasAll n (role ∷ roles) (c ∷ cs) l =
    (λ p. ground (arith, p), none-HasAll n roles cs (omega (arith, l)))

pub IsWithin-mono :
    (picks : Role → Bool) (gate gate' : ℕ) (roles : List Role) (cs : List ℕ)
    → gate ≤ gate'
    → IsWithin picks gate roles cs
    → IsWithin picks gate' roles cs
IsWithin-mono picks gate gate' [] cs le h = tt
IsWithin-mono picks gate gate' (role ∷ roles) [] le h = tt
IsWithin-mono picks gate gate' (role ∷ roles) (c ∷ cs) le h =
    (λ e. omega (arith, h.0 e, le), IsWithin-mono picks gate gate' roles cs le h.1)

pub IsWithin-replicate :
    (picks : Role → Bool) (gate : ℕ) (roles : List Role) (n : ℕ)
    → IsWithin picks gate roles (replicate n 0)
IsWithin-replicate picks gate [] n = tt
IsWithin-replicate picks gate (role ∷ roles) zero = tt
IsWithin-replicate picks gate (role ∷ roles) (suc n) =
    (λ e. omega arith, IsWithin-replicate picks gate roles n)

pub IsFitting-blank :
    (roles : List Role) (ts : List (Option ℕ))
    → length roles ≡ length ts
    → IsFitting roles ts (blank_side ts)
unfolding blank_side
IsFitting-blank [] [] e = tt
IsFitting-blank [] (t ∷ ts) e = absurd (omega (arith, e))
IsFitting-blank (role ∷ roles) [] e = absurd (omega (arith, e))
IsFitting-blank (role ∷ roles) (t ∷ ts) e = IsFitting-blank roles ts (omega (arith, e))

module _ (eligible : Role → Bool) (bound : ℕ) (instant : Bool) where
  pub HasMoved-IsWithin :
      (picks : Role → Bool) (gate : ℕ) (roles : List Role) (cs cs' : List ℕ)
      → bound ≤ gate
      → HasMoved eligible bound instant roles cs cs'
      → IsWithin picks gate roles cs
      → IsWithin picks gate roles cs'
  HasMoved-IsWithin picks gate [] cs cs' le m h = tt
  HasMoved-IsWithin picks gate (role ∷ roles) cs [] le m h = tt
  HasMoved-IsWithin picks gate (role ∷ roles) [] (c' ∷ cs') le m h = absurd m
  HasMoved-IsWithin picks gate (role ∷ roles) (c ∷ cs) (c' ∷ cs') le m h =
      (λ e. omega (arith, h.0 e, le, m.0.1), HasMoved-IsWithin picks gate roles cs cs' le m.1 h.1)

  pub min_input-HasMoved :
      (best best' : ℕ) (roles : List Role) (cs cs' : List ℕ)
      → best ≤ best'
      → HasMoved eligible bound instant roles cs cs'
      → min_input best roles cs ≤ min_input best' roles cs'
  unfolding min_input
  min_input-HasMoved best best' [] cs cs' le m = le
  min_input-HasMoved best best' (role ∷ roles) [] [] le m = absurd m
  min_input-HasMoved best best' (role ∷ roles) [] (c' ∷ cs') le m = absurd m
  min_input-HasMoved best best' (role ∷ roles) (c ∷ cs) [] le m = absurd m
  min_input-HasMoved best best' (role ∷ roles) (c ∷ cs) (c' ∷ cs') le m =
      min_input-HasMoved (if is_input_role role then min best c else best)
        (if is_input_role role then min best' c' else best') roles cs cs'
        (ground (arith, le, m.0.0)) m.1

  pub at_parent-HasMoved :
      (missing : ℕ) (roles : List Role) (cs cs' : List ℕ)
      → HasMoved eligible bound instant roles cs cs'
      → at_parent missing roles cs ≤ at_parent missing roles cs'
  at_parent-HasMoved missing [] cs cs' m = omega arith
  at_parent-HasMoved missing (role ∷ roles) [] [] m = absurd m
  at_parent-HasMoved missing (role ∷ roles) [] (c' ∷ cs') m = absurd m
  at_parent-HasMoved missing (role ∷ roles) (c ∷ cs) [] m = absurd m
  at_parent-HasMoved missing (Role.star ∷ roles) (c ∷ cs) (c' ∷ cs') m =
      at_parent-HasMoved missing roles cs cs' m.1
  at_parent-HasMoved missing (Role.tree_down ∷ roles) (c ∷ cs) (c' ∷ cs') m =
      at_parent-HasMoved missing roles cs cs' m.1
  at_parent-HasMoved missing (Role.tree_up ∷ roles) (c ∷ cs) (c' ∷ cs') m = m.0.0

  pub all_reached-HasMoved :
      (n : ℕ) (roles : List Role) (cs cs' : List ℕ)
      → instant ≡ true
      → n ≤ bound
      → HasMoved eligible bound instant roles cs cs'
      → all_reached eligible n roles cs' ≡ true
  unfolding all_reached
  all_reached-HasMoved n [] cs cs' i le m = refl
  all_reached-HasMoved n (role ∷ roles) cs [] i le m = refl
  all_reached-HasMoved n (role ∷ roles) [] (c' ∷ cs') i le m = absurd m
  all_reached-HasMoved n (role ∷ roles) (c ∷ cs) (c' ∷ cs') i le m =
      ground (arith, le, m.0.3 i, all_reached-HasMoved n roles cs cs' i le m.1)

pub min_input-reached :
    (n best : ℕ) (roles : List Role) (cs : List ℕ)
    → n ≤ best
    → all_reached is_input_role n roles cs ≡ true
    → n ≤ min_input best roles cs
unfolding all_reached min_input
min_input-reached n best [] cs le h = le
min_input-reached n best (role ∷ roles) [] le h = le
min_input-reached n best (role ∷ roles) (c ∷ cs) le h =
    min_input-reached n (if is_input_role role then min best c else best) roles cs
      (ground (arith, le, h)) (ground (arith, h))

pub at_parent-reached :
    (n : ℕ) (roles : List Role) (cs : List ℕ)
    → all_reached is_up_role n roles cs ≡ true
    → n ≤ at_parent n roles cs
unfolding all_reached
at_parent-reached n [] cs h = omega arith
at_parent-reached n (role ∷ roles) [] h = omega arith
at_parent-reached n (Role.star ∷ roles) (c ∷ cs) h = at_parent-reached n roles cs h
at_parent-reached n (Role.tree_down ∷ roles) (c ∷ cs) h = at_parent-reached n roles cs h
at_parent-reached n (Role.tree_up ∷ roles) (c ∷ cs) h = ground (arith, h)
