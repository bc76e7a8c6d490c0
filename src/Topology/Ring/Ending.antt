-- ===== src/Topology/Ring/Ending.antt =====
-- About one turn of the loops of the `Complete` functions, src/topology/topology_ring.cpp.
use origin_ccl.Prelude.{
  ℕ, ◌≡◌, ◌<◌, ◌+◌, refl, arith, Bool, true, false, not, ◌&&◌, Option, by_test, leb, if◌then◌else◌,
}
use origin_ccl.Types.{PlanTask}
use origin_ccl.Topology.Stepping.{OpState, Wires, Turn, then_again, side_done}
use origin_ccl.Topology.Stepping.Loops.{After, Gives, Gives-map, then_again-After}
use origin_ccl.Topology.Ring.Schedule.{Phase, is_reduce_scatter}
use origin_ccl.Topology.Ring.Collectives.{
  St, is_finished, is_all_gather, goes_on, total_ops, begin_allreduce, complete_allreduce,
  begin_broadcast, complete_broadcast, begin_all_gather, complete_all_gather, begin_reduce,
  complete_reduce, begin_reduce_scatter, complete_reduce_scatter,
}
use origin_ccl.Topology.Stepping.Regime.{IsRegime}
use origin_ccl.Topology.Ring.Sides.{IsAligned, Begun, begin_phase-Left}
use origin_ccl.Topology.Ring.Measures.{
  in_allreduce, in_round, anywhere, forward_left, round_left, allreduce_left, round-decreases,
  next_round, forward-decreases, to_gather, same_pass, next_step,
}

module _ (wires : Wires) (F : Type 0) (instant : Bool) (task : PlanTask)
    (regime : IsRegime wires F instant task) where
  -- What the loops keep, and what they leave.
  abbrev pub IsSound : (Phase → ℕ → Bool) → St wires → Type 0
  IsSound allows st =
      IsAligned task st.0
      × (allows st.0.phase st.0.step ≡ true)
      × (instant ≡ true → side_done st.0.send_done ≡ true)
      × (instant ≡ true → side_done st.0.recv_done ≡ true)

  abbrev pub IsAtRest : (Phase → ℕ → Bool) → St wires → Type 0
  IsAtRest allows st = IsSound allows st × (goes_on st.0 ≡ false)

  pub Begun-IsSound :
      (allows : Phase → ℕ → Bool) (phase : Phase) (step : ℕ) (st : St wires)
      → allows phase step ≡ true
      → Begun wires instant task phase step st
      → IsSound allows st
  Begun-IsSound allows phase step st e b =
      (b.0.aligned, rw b.0.phase_is (rw b.0.step_is e), b.1, b.2)

  -- A turn that begins another step.
  again-After :
      (allows : Phase → ℕ → Bool) (left : Phase → ℕ → ℕ) (phase phase' : Phase) (step step' : ℕ)
      (o : Option (St wires))
      → allows phase' step' ≡ true
      → left phase' step' < left phase step
      → Gives (Begun wires instant task phase' step') F o
      → After
          (IsSound allows)
          (IsAtRest allows)
          F
          (λ st. left st.0.phase st.0.step)
          (left phase step)
          (then_again o)
  again-After allows left phase phase' step step' o e less given =
      then_again-After (IsSound allows) (IsAtRest allows) F (λ st. left st.0.phase st.0.step)
        (left phase step) o
        (Gives-map (Begun wires instant task phase' step') _ F o
          (λ st b.
            (Begun-IsSound allows phase' step' st e b, rw b.0.phase_is (rw b.0.step_is less)))
          given)

  ended :
      (s : OpState Phase) (step : ℕ)
      → IsAligned task s
      → IsAligned task (record s { phase = Phase.finished; step = step })
  ended s step a = record {
    send_progress_fits = a.send_progress_fits;
    send_done_fits = a.send_done_fits;
    recv_progress_fits = a.recv_progress_fits;
    recv_done_fits = a.recv_done_fits;
  }

  ended_rests :
      (s : OpState Phase) (step : ℕ)
      → goes_on (record s { phase = Phase.finished; step = step }) ≡ false
  unfolding goes_on
  ended_rests s step = ground arith

  unfinished : (s : OpState Phase) → not (goes_on s) ≡ false → is_finished s.phase ≡ false
  unfolding goes_on
  unfinished s h = ground arith

  -- A turn whose loop leaves the state if its condition is false.
  turn-After :
      (allows : Phase → ℕ → Bool) (left : Phase → ℕ → ℕ) (phase' : Phase) (step' : ℕ)
      (st : St wires) (o : Option (St wires))
      → (is_finished st.0.phase ≡ false → allows phase' step' ≡ true)
      → IsSound allows st
      → (is_finished st.0.phase ≡ false → left phase' step' < left st.0.phase st.0.step)
      → Gives (Begun wires instant task phase' step') F o
      → After
          (IsSound allows)
          (IsAtRest allows)
          F
          (λ out. left out.0.phase out.0.step)
          (left st.0.phase st.0.step)
          (if not (goes_on st.0) then Turn.stop st else then_again o)
  turn-After allows left phase' step' st o e sound less given =
      by_test
        (After (IsSound allows) (IsAtRest allows) F (λ out. left out.0.phase out.0.step)
          (left st.0.phase st.0.step))
        (not (goes_on st.0)) (λ h. (sound, ground (arith, h)))
        (λ h.
          again-After allows left st.0.phase phase' st.0.step step' o (e (unfinished st.0 h))
            (less (unfinished st.0 h)) given)

  pub complete_broadcast-After :
      (st : St wires)
      → IsSound anywhere st
      → After
          (IsSound anywhere)
          (IsAtRest anywhere)
          F
          (λ out. forward_left out.0.phase out.0.step)
          (forward_left st.0.phase st.0.step)
          (complete_broadcast wires task st)
  unfolding complete_broadcast begin_broadcast
  complete_broadcast-After (s, w) sound =
      turn-After anywhere forward_left _ s.step (s, w) _ (λ e. refl) sound
        (forward-decreases s.phase s.step s.step _)
        (begin_phase-Left wires F instant task regime _ _ _ _ _ (s, w))

  pub complete_reduce-After :
      (st : St wires)
      → IsSound anywhere st
      → After
          (IsSound anywhere)
          (IsAtRest anywhere)
          F
          (λ out. forward_left out.0.phase out.0.step)
          (forward_left st.0.phase st.0.step)
          (complete_reduce wires task st)
  unfolding complete_reduce begin_reduce
  complete_reduce-After (s, w) sound =
      turn-After anywhere forward_left _ s.step (s, w) _ (λ e. refl) sound
        (forward-decreases s.phase s.step s.step _)
        (begin_phase-Left wires F instant task regime _ _ _ _ _ (s, _))

  pub complete_all_gather-After :
      (st : St wires)
      → IsSound (in_round task) st
      → After
          (IsSound (in_round task))
          (IsAtRest (in_round task))
          F
          (λ out. round_left task out.0.phase out.0.step)
          (round_left task st.0.phase st.0.step)
          (complete_all_gather wires task st)
  unfolding complete_all_gather begin_all_gather
  complete_all_gather-After (s, w) sound =
      turn-After (in_round task) (round_left task) _ (s.step + 1) (s, w) _
        (next_round task s.phase s.step sound.1) sound (round-decreases task s.phase s.step)
        (begin_phase-Left wires F instant task regime _ _ _ _ _ (record s { step = s.step + 1 }, w))

  pub complete_reduce_scatter-After :
      (st : St wires)
      → IsSound (in_round task) st
      → After
          (IsSound (in_round task))
          (IsAtRest (in_round task))
          F
          (λ out. round_left task out.0.phase out.0.step)
          (round_left task st.0.phase st.0.step)
          (complete_reduce_scatter wires task st)
  unfolding complete_reduce_scatter begin_reduce_scatter
  complete_reduce_scatter-After (s, w) sound =
      turn-After (in_round task) (round_left task) _ (s.step + 1) (s, w) _
        (next_round task s.phase s.step sound.1) sound (round-decreases task s.phase s.step)
        (begin_phase-Left wires F instant task regime _ _ _ _ _ (record s { step = s.step + 1 }, _))

  pub complete_allreduce-After :
      (st : St wires)
      → IsSound (in_allreduce task) st
      → After
          (IsSound (in_allreduce task))
          (IsAtRest (in_allreduce task))
          F
          (λ out. allreduce_left task out.0.phase out.0.step)
          (allreduce_left task st.0.phase st.0.step)
          (complete_allreduce wires task st)
  unfolding complete_allreduce begin_allreduce
  complete_allreduce-After (s, w) sound =
      by_test
        (After (IsSound (in_allreduce task)) (IsAtRest (in_allreduce task)) F
          (λ out. allreduce_left task out.0.phase out.0.step) (allreduce_left task s.phase s.step))
        (not (goes_on s)) (λ h. (sound, ground (arith, h)))
        (λ h.
          by_test
            (After (IsSound (in_allreduce task)) (IsAtRest (in_allreduce task)) F
              (λ out. allreduce_left task out.0.phase out.0.step)
              (allreduce_left task s.phase s.step))
            (is_reduce_scatter s.phase && leb (total_ops task) (s.step + 1))
            (λ t.
              again-After (in_allreduce task) (allreduce_left task) s.phase Phase.all_gather s.step
                0 _ refl (to_gather task s.phase s.step t)
                (begin_phase-Left wires F instant task regime _ _ _ _ _
                  (record s { phase = Phase.all_gather; step = 0 }, _)))
            (λ t.
              by_test
                (After (IsSound (in_allreduce task)) (IsAtRest (in_allreduce task)) F
                  (λ out. allreduce_left task out.0.phase out.0.step)
                  (allreduce_left task s.phase s.step))
                (is_all_gather s.phase && leb (total_ops task) (s.step + 1))
                (λ f. (
                  (ended s (s.step + 1) sound.0, ground (arith, f), sound.2, sound.3),
                  ended_rests s (s.step + 1),
                ))
                (λ f.
                  again-After (in_allreduce task) (allreduce_left task) s.phase s.phase s.step
                    (s.step + 1) _ (same_pass task s.phase s.step sound.1 (unfinished s h))
                    (next_step task s.phase s.step sound.1 (unfinished s h) t f)
                    (begin_phase-Left wires F instant task regime _ _ _ _ _
                      (record s { step = s.step + 1 }, _)))))
