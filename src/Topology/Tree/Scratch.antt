-- ===== src/Topology/Tree/Scratch.antt =====
-- About the scratch chunks of a leader, src/topology/topology_tree.cpp: `RecvTarget` and `TreeInit`.
use native.Mathlib.Nat.{mod-eq_of_lt, mul-le-mul_right, mod-le}
use origin_ccl.Prelude.{
  ℕ, zero, suc, ◌==◌, ◌≡◌, ◌≤◌, ◌<◌, ◌+◌, ◌*◌, ◌^◌, refl, arith, Bool, true, false, some, List, [],
  ◌∷◌, ◌++◌, replicate, length, if◌then◌else◌, get_elem?, by_test,
}
use origin_ccl.Prelude.Int.{pos, ltb_ℤ}
use origin_ccl.Types.{Channel, PlanTask}
use origin_ccl.Utils.{data_type_size}
use origin_ccl.Topology.Tree.{Role, Machines, roles_of, fill_channel}
use origin_ccl.Topology.Tree.Stepping.{is_input_role, chunk_bytes, chunk_elems, scratch_offset}
use origin_ccl.Topology.Tree.Calls.{count_inputs, scratch_size}

-- The edges that are received from come before that to the parent.
abbrev InputsFirst : List Role → Type 0
InputsFirst [] = Unit
InputsFirst (Role.tree_up ∷ roles) = count_inputs roles ≡ 0
InputsFirst (role ∷ roles) = InputsFirst roles

no_inputs :
    (roles : List Role) (i : ℕ) (role : Role)
    → count_inputs roles ≡ 0
    → get_elem? roles i ≡ some role
    → is_input_role role ≡ false
no_inputs [] i role z e = absurd (ground (arith, e))
no_inputs (r ∷ roles) zero role z e = ground (arith, z, e)
no_inputs (r ∷ roles) (suc i) role z e = no_inputs roles i role (ground (arith, z)) e

input-InputsFirst :
    (roles : List Role) (i : ℕ) (role : Role)
    → InputsFirst roles
    → get_elem? roles i ≡ some role
    → is_input_role role ≡ true
    → i < count_inputs roles
input-InputsFirst [] i role f e p = absurd (ground (arith, e))
input-InputsFirst (Role.star ∷ roles) zero role f e p = omega arith
input-InputsFirst (Role.tree_down ∷ roles) zero role f e p = omega arith
input-InputsFirst (Role.tree_up ∷ roles) zero role f e p = absurd (ground (arith, e, p))
input-InputsFirst (Role.star ∷ roles) (suc i) role f e p =
    omega (arith, input-InputsFirst roles i role f e p)
input-InputsFirst (Role.tree_down ∷ roles) (suc i) role f e p =
    omega (arith, input-InputsFirst roles i role f e p)
input-InputsFirst (Role.tree_up ∷ roles) (suc i) role f e p =
    absurd (ground (arith, no_inputs roles i role f e, p))

roles-InputsFirst :
    (stars downs : ℕ) (ups : List Role)
    → InputsFirst ups
    → InputsFirst (replicate stars Role.star ++ (replicate downs Role.tree_down ++ ups))
roles-InputsFirst zero zero ups h = h
roles-InputsFirst zero (suc d) ups h = roles-InputsFirst zero d ups h
roles-InputsFirst (suc s) d ups h = roles-InputsFirst s d ups h

elems_bound : (task : PlanTask) (chunk : ℕ) → chunk_elems task chunk ≤ task.chunk_size
unfolding chunk_elems
elems_bound task chunk = ground arith

parent-InputsFirst : (is_root : Bool) → InputsFirst (if is_root then [] else Role.tree_up ∷ [])
parent-InputsFirst true = tt
parent-InputsFirst false = refl

roles_of-InputsFirst : (m : Machines) (channel : Channel) → InputsFirst (roles_of m channel)
unfolding roles_of
roles_of-InputsFirst m channel =
    by_test InputsFirst (m.local_rank == 0)
      (λ e.
        roles-InputsFirst (length (fill_channel m channel).tree.star_peers)
          (length (fill_channel m channel).tree.children)
          (if ltb_ℤ (fill_channel m channel).tree.parent (pos 0) then [] else Role.tree_up ∷ [])
          (parent-InputsFirst (ltb_ℤ (fill_channel m channel).tree.parent (pos 0))))
      (λ e. tt)

-- With the roles that `FillChannels` gives a rank, the place of a chunk of an input edge and the chunk itself end before
-- the size that `TreeInit` gives `temp_buffer`, if that size does not overflow.
pub scratch_offset-scratch_size :
    (m : Machines) (channel : Channel) (task : PlanTask) (edge chunk : ℕ) (role : Role)
    → get_elem? (roles_of m channel) edge ≡ some role
    → is_input_role role ≡ true
    → count_inputs (roles_of m channel) * task.chunk_size * data_type_size task.dtype < 2 ^ 64
    → scratch_offset task edge + chunk_bytes task chunk ≤ scratch_size task (roles_of m channel)
unfolding scratch_offset chunk_bytes scratch_size
scratch_offset-scratch_size m channel task edge chunk role e p fits =
    let size : ℕ = data_type_size task.dtype in
    let inputs : ℕ = count_inputs (roles_of m channel) in
    let below : edge < inputs =
      input-InputsFirst (roles_of m channel) edge role (roles_of-InputsFirst m channel) e p in
    let all_edges : (edge + 1) * task.chunk_size * size ≤ inputs * task.chunk_size * size =
      mul-le-mul_right size (mul-le-mul_right task.chunk_size (omega (arith, below))) in
    let one_chunk : chunk_elems task chunk * size ≤ task.chunk_size * size =
      mul-le-mul_right size (elems_bound task chunk) in
    omega (
      arith,
      all_edges,
      one_chunk,
      mod-le (edge * task.chunk_size * size) (2 ^ 64),
      mod-le (chunk_elems task chunk * size) (2 ^ 64),
      mod-eq_of_lt fits,
    )
