-- ===== src/Topology/Tree/Chunks.antt =====
-- About `UpComplete` and `DownComplete`, src/topology/topology_tree.cpp: where the chunks are when a phase ends.
use origin_ccl.Prelude.{
  ℕ, suc, ◌≡◌, ◌⊎◌, ◌==◌, refl, ap, arith, Bool, true, false, not, ◌&&◌, ◌||◌, Option, List, [],
  ◌∷◌, length, if◌then◌else◌,
}
use origin_ccl.Prelude.Int.{pos, eqb_ℤ}
use origin_ccl.Types.{PlanTask}
use origin_ccl.Topology.Stepping.{OpState}
use origin_ccl.Topology.Tree.{Role}
use origin_ccl.Topology.Tree.Stepping.{
  Phase, Side, is_input_role, is_up_role, chunk_count, all_reached, up_complete, down_complete,
}
use origin_ccl.Topology.Tree.Edges.{IsFitting}
use origin_ccl.Topology.Tree.Bounds.{HasAll, all_reached-HasAll, none-HasAll}
use origin_ccl.Topology.Tree.Pipeline.{recvs_of, sends_of, IsPiped, all_roles}

fitting_lem :
    (roles : List Role) (ts : List (Option ℕ)) (side : Side)
    → IsFitting roles ts side
    → length roles ≡ length side.1.1
fitting_lem [] [] ([], ([], [])) h = refl
fitting_lem (role ∷ roles) (t ∷ ts) (p ∷ ps, (d ∷ ds, c ∷ cs)) h =
    ap suc (fitting_lem roles ts (ps, (ds, cs)) h)
fitting_lem roles ts side h = absurd h

module _ (task : PlanTask) (roles : List Role) (is_leader : Bool) where
  -- All chunks have come up: a leader has them from its star peers and children and has sent them to its parent,
  -- another rank has sent them to its leader.
  abbrev pub HasComeUp : OpState Phase → Type 0
  HasComeUp s =
      HasAll (λ role. is_leader && is_input_role role) (chunk_count task) roles s.recv_chunk
      × HasAll (λ role. not is_leader || is_up_role role) (chunk_count task) roles s.send_chunk

  -- All chunks have come down: a leader has them from its parent and has sent them to its star peers and children,
  -- another rank has them from its leader.
  abbrev pub HasComeDown : OpState Phase → Type 0
  HasComeDown s =
      HasAll (λ role. not is_leader || is_up_role role) (chunk_count task) roles s.recv_chunk
      × HasAll (λ role. is_leader && is_input_role role) (chunk_count task) roles s.send_chunk

  -- A task of no elements or of one rank has nothing to transfer.
  abbrev pub IsOver : OpState Phase → Type 0
  IsOver s = ((task.elem_count == 0 || eqb_ℤ task.world_size (pos 1)) ≡ true) ⊎ HasComeDown s

  pub up_complete-HasComeUp :
      (s : OpState Phase)
      → IsPiped task roles is_leader s
      → up_complete task roles is_leader s ≡ true
      → HasComeUp s
  unfolding up_complete
  up_complete-HasComeUp s piped e =
      go is_leader e (fitting_lem roles task.recv_transports (recvs_of s) piped.recvs_fit)
        (fitting_lem roles task.send_transports (sends_of s) piped.sends_fit)
    where
      n : ℕ
      n = chunk_count task

      go :
          (leads : Bool)
          → (if leads
              then all_reached is_input_role n roles s.recv_chunk
                && all_reached is_up_role n roles s.send_chunk
              else all_reached all_roles n roles s.send_chunk)
            ≡ true
          → length roles ≡ length s.recv_chunk
          → length roles ≡ length s.send_chunk
          → HasAll (λ role. leads && is_input_role role) n roles s.recv_chunk
            × HasAll (λ role. not leads || is_up_role role) n roles s.send_chunk
      go true e l l' = (
        all_reached-HasAll is_input_role n roles s.recv_chunk l (ground (arith, e)),
        all_reached-HasAll is_up_role n roles s.send_chunk l' (ground (arith, e)),
      )
      go false e l l' = (
        none-HasAll n roles s.recv_chunk l,
        all_reached-HasAll all_roles n roles s.send_chunk l' e,
      )

  pub down_complete-HasComeDown :
      (s : OpState Phase)
      → IsPiped task roles is_leader s
      → down_complete task roles is_leader s ≡ true
      → HasComeDown s
  unfolding down_complete
  down_complete-HasComeDown s piped e =
      go is_leader e (fitting_lem roles task.recv_transports (recvs_of s) piped.recvs_fit)
        (fitting_lem roles task.send_transports (sends_of s) piped.sends_fit)
    where
      n : ℕ
      n = chunk_count task

      go :
          (leads : Bool)
          → (if leads
              then all_reached is_up_role n roles s.recv_chunk
                && all_reached is_input_role n roles s.send_chunk
              else all_reached all_roles n roles s.recv_chunk)
            ≡ true
          → length roles ≡ length s.recv_chunk
          → length roles ≡ length s.send_chunk
          → HasAll (λ role. not leads || is_up_role role) n roles s.recv_chunk
            × HasAll (λ role. leads && is_input_role role) n roles s.send_chunk
      go true e l l' = (
        all_reached-HasAll is_up_role n roles s.recv_chunk l (ground (arith, e)),
        all_reached-HasAll is_input_role n roles s.send_chunk l' (ground (arith, e)),
      )
      go false e l l' = (
        all_reached-HasAll all_roles n roles s.recv_chunk l e,
        none-HasAll n roles s.send_chunk l',
      )
