-- ===== src/Topology/Tree/Progress.antt =====
-- About `Advance` and the two phases, src/topology/topology_tree.cpp.
use origin_ccl.Prelude.{
  ℕ, ◌≡◌, ◌⊎◌, inl, inr, Bool-cases, refl, ap, ◌∙◌, arith, Bool, true, false, not, ◌&&◌, ◌||◌, List,
  length, by_test, if◌then◌else◌,
}
use origin_ccl.Types.{PlanTask}
use origin_ccl.Topology.Stepping.{OpState, Wires, Turn, then_again}
use origin_ccl.Topology.Stepping.Loops.{
  After, Ends, Gives-map, then_again-After, finish-Ends, >>=-Ends, turns-Ends,
}
use origin_ccl.Topology.Stepping.Regime.{IsRegime}
use origin_ccl.Topology.Tree.{Role}
use origin_ccl.Topology.Tree.Stepping.{
  Phase, is_unstarted, is_up, is_down, is_finished, chunk_count, up_complete, down_complete,
  send_eligible, send_gate, St,
}
use origin_ccl.Topology.Tree.Calls.{
  blank_side, with_recvs, with_sends, push_both, enter_down, advance_turn, advance,
  push_and_advance,
}
use origin_ccl.Topology.Tree.Bounds.{IsWithin, IsWithin-replicate, IsFitting-blank}
use origin_ccl.Topology.Tree.Chunks.{
  HasComeUp, IsOver, up_complete-HasComeUp, down_complete-HasComeDown,
}
use origin_ccl.Topology.Tree.Pipeline.{IsPiped, IsComplete, Pushed, push_both-Pushed, all_roles}

abbrev phases_left : Phase → ℕ
phases_left phase = if is_up phase then 2 else if is_down phase then 1 else 0

module _ (task : PlanTask) (roles : List Role) (is_leader : Bool)
    (send_fits : length roles ≡ length task.send_transports)
    (recv_fits : length roles ≡ length task.recv_transports) where
  -- A state whose vectors are as they are assigned at the start of a phase.
  pub blank-IsPiped :
      (s : OpState Phase)
      → IsPiped task roles is_leader (
          with_sends
            (with_recvs s (blank_side task.recv_transports))
            (blank_side task.send_transports))
  unfolding blank_side
  blank-IsPiped s = record {
    recvs_fit = IsFitting-blank roles task.recv_transports recv_fits;
    sends_fit = IsFitting-blank roles task.send_transports send_fits;
    received = IsWithin-replicate all_roles (chunk_count task) roles (length task.recv_transports);
    gated = IsWithin-replicate _ _ roles (length task.send_transports);
  }

  finished-IsPiped :
      (s : OpState Phase)
      → is_up s.phase ≡ false
      → IsPiped task roles is_leader s
      → IsPiped task roles is_leader (record s { phase = Phase.finished })
  unfolding send_eligible send_gate
  finished-IsPiped s e piped = record {
    recvs_fit = piped.recvs_fit;
    sends_fit = piped.sends_fit;
    received = piped.received;
    gated = go s.phase e piped.gated;
  }
    where
      go :
          (phase : Phase)
          → is_up phase ≡ false
          → IsWithin
              (send_eligible is_leader phase)
              (send_gate task roles is_leader (record s { phase = phase }))
              roles
              s.send_chunk
          → IsWithin
              (send_eligible is_leader Phase.finished)
              (send_gate task roles is_leader (record s { phase = Phase.finished }))
              roles
              s.send_chunk
      go Phase.up f h = absurd (ground (arith, f))
      go Phase.down f h = h
      go Phase.unstarted f h = h
      go Phase.finished f h = h

  module _ (wires : Wires) (F : Type 0) (instant : Bool)
      (regime : IsRegime wires F instant task) where
    abbrev pub IsSound : St wires → Type 0
    IsSound st =
        IsPiped task roles is_leader st.0
        × (instant ≡ true → IsComplete task roles is_leader st.0)
        × (is_unstarted st.0.phase ≡ false)
        × (is_finished st.0.phase ≡ true → IsOver task roles is_leader st.0)

    abbrev pub IsLeft : St wires → Type 0
    IsLeft st =
        IsPiped task roles is_leader st.0
        × (instant ≡ true → is_finished st.0.phase ≡ true)
        × (is_unstarted st.0.phase ≡ false)
        × (is_finished st.0.phase ≡ true → IsOver task roles is_leader st.0)

    stopped :
        (st : St wires)
        → IsSound st
        → ((instant ≡ true → is_finished st.0.phase ≡ true))
        → IsLeft st
    stopped st sound f = (sound.0, f, sound.2, sound.3)

    entered-After :
        (st : St wires)
        → is_up st.0.phase ≡ true
        → After IsSound IsLeft F
            (λ out. phases_left out.0.phase)
            (phases_left st.0.phase)
            (then_again
              (push_both wires task roles is_leader (enter_down wires task roles is_leader st)))
    unfolding enter_down
    entered-After (s, w) e =
        then_again-After IsSound IsLeft F (λ out. phases_left out.0.phase) (phases_left s.phase) _
          (Gives-map
            (Pushed task roles is_leader wires F instant regime
              (enter_down wires task roles is_leader (s, w)).0)
            _ F _
            (λ out k. (
              (
                k.0,
                λ i. k.2 i refl,
                ap is_unstarted k.1,
                λ f. absurd (ground (arith, f, ap is_finished k.1)),
              ),
              rw k.1 (rw e (omega arith)),
            ))
            (push_both-Pushed task roles is_leader wires F instant regime
              (enter_down wires task roles is_leader (s, w))
              (blank-IsPiped (record s { phase = Phase.down }))))

    advance_turn-After :
        (st : St wires)
        → IsSound st
        → After IsSound IsLeft F
            (λ out. phases_left out.0.phase)
            (phases_left st.0.phase)
            (advance_turn wires task roles is_leader st)
    unfolding advance_turn
    advance_turn-After (s, w) sound =
        by_test (After IsSound IsLeft F (λ out. phases_left out.0.phase) (phases_left s.phase))
          (not (is_up s.phase || is_down s.phase))
          (λ e. stopped (s, w) sound (λ i. ground (arith, e, sound.2)))
          (λ e.
            by_test (After IsSound IsLeft F (λ out. phases_left out.0.phase) (phases_left s.phase))
              (is_up s.phase && not (up_complete task roles is_leader s))
              (λ u. stopped (s, w) sound (λ i. absurd (ground (arith, u, (sound.1 i).0))))
              (λ u.
                by_test
                  (After IsSound IsLeft F (λ out. phases_left out.0.phase) (phases_left s.phase))
                  (is_down s.phase && not (down_complete task roles is_leader s))
                  (λ d. stopped (s, w) sound (λ i. absurd (ground (arith, d, (sound.1 i).1))))
                  (λ d.
                    by_test
                      (After IsSound IsLeft F (λ out. phases_left out.0.phase)
                        (phases_left s.phase))
                      (is_up s.phase) (λ p. entered-After (s, w) p)
                      (λ p. (
                        finished-IsPiped s p sound.0,
                        λ i. refl,
                        refl,
                        λ f. inr (
                            down_complete-HasComeDown task roles is_leader s sound.0
                              (ground (arith, e, d, p))),
                      )))))

    -- A turn leaves the upward phase only when all chunks have come up.
    pub left_up :
        (st : St wires)
        → is_up st.0.phase ≡ true
        → IsPiped task roles is_leader st.0
        → (advance_turn wires task roles is_leader st ≡ Turn.stop st)
          ⊎ HasComeUp task roles is_leader st.0
    unfolding advance_turn
    left_up (s, w) e piped = elim (Bool-cases (up_complete task roles is_leader s)) [
      | inl t ↦ inr (up_complete-HasComeUp task roles is_leader s piped t)
      | inr f ↦ inl (rw e (rw f refl))
    ]

    pub pushed-Ends :
        (st : St wires)
        → IsPiped task roles is_leader st.0
        → is_up st.0.phase || is_down st.0.phase ≡ true
        → Ends IsLeft F (push_and_advance wires task roles is_leader st)
    unfolding push_and_advance advance
    pushed-Ends st piped e =
        >>=-Ends IsSound IsLeft F _ _
          (finish-Ends IsSound F _ (
            Gives-map (Pushed task roles is_leader wires F instant regime st.0) IsSound F _
              (λ out k. (
                k.0,
                λ i. k.2 i e,
                ap is_unstarted k.1 ∙ ground (arith, e),
                λ f. absurd (ground (arith, e, f, ap is_finished k.1)),
              ))
              (push_both-Pushed task roles is_leader wires F instant regime st piped)))
          (λ out sound.
            turns-Ends IsSound IsLeft F (λ o. phases_left o.0.phase) _ advance_turn-After 3 out
              (ground arith) sound)
