-- ===== src/Topology/Ring/Progress.antt =====
-- About `CollectiveStep` of the ring, src/topology/topology_ring.cpp, in a world that a regime describes.
use origin_ccl.Prelude.{ℕ, ◌≡◌, ◌<◌, refl, arith, Bool, true, false, by_test, if◌then◌else◌}
use origin_ccl.Types.{PlanTask, CollFunc, CollEvent}
use origin_ccl.Topology.Stepping.{Place, OpState, Wires, Run, ok, Turn}
use origin_ccl.Topology.Stepping.Loops.{After, Ends, Gives-map, finish-Ends, >>=-Ends}
use origin_ccl.Topology.Ring.Schedule.{Phase}
use origin_ccl.Topology.Ring.Collectives.{St, is_finished}
use origin_ccl.Topology.Ring.Calls.{
  allowed, is_unstarted, step_with, allreduce_step, broadcast_step, all_gather_step, reduce_step,
  reduce_scatter_step, collective_step,
}
use origin_ccl.Topology.Stepping.Regime.{IsRegime}
use origin_ccl.Topology.Ring.Sides.{Left, push_buffer-Left}
use origin_ccl.Topology.Ring.Measures.{
  in_allreduce, in_round, anywhere, forward_left, round_left, allreduce_left,
}
use origin_ccl.Topology.Ring.Ending.{
  IsSound, IsAtRest, complete_broadcast-After, complete_reduce-After, complete_all_gather-After,
  complete_reduce_scatter-After, complete_allreduce-After,
}
use origin_ccl.Topology.Ring.Promise.{
  is_refused, phases_of, IsLeft, turns-IsLeft, forward-bound, round-bound, allreduce-bound,
  allreduce_init-Ends, broadcast_init-Ends, all_gather_init-Ends, reduce_init-Ends,
  reduce_scatter_init-Ends,
}

module _ (wires : Wires) (F : Type 0) (instant : Bool) (task : PlanTask)
    (regime : IsRegime wires F instant task) where
  -- What a step needs of the state before it, if the task was initialised.
  abbrev pub IsReady : (Phase → ℕ → Bool) → St wires → Type 0
  IsReady allows st = is_unstarted st.0.phase ≡ false → IsLeft wires F instant task regime allows st

  pushed-IsSound :
      (allows : Phase → ℕ → Bool) (st out : St wires)
      → is_finished st.0.phase ≡ false
      → IsLeft wires F instant task regime allows st
      → Left wires instant task st.0.phase st.0.step out
      → IsSound wires F instant task regime allows out
  pushed-IsSound allows st out e l k = (
    k.aligned,
    rw k.phase_is (rw k.step_is l.1),
    λ i. absurd (ground (arith, e, l.2 i)),
    λ i. absurd (ground (arith, e, l.2 i)),
  )

  step_with-Ends :
      (allows : Phase → ℕ → Bool) (left : Phase → ℕ → ℕ) (init : wires.World → Run (St wires))
      (from into : OpState Phase → Place) (m n : OpState Phase → ℕ)
      (body : St wires → Turn (St wires)) (event : CollEvent) (st : St wires)
      → ((st : St wires)
          → IsSound wires F instant task regime allows st
          → After
              (IsSound wires F instant task regime allows)
              (IsAtRest wires F instant task regime allows)
              F
              (λ out. left out.0.phase out.0.step)
              (left st.0.phase st.0.step)
              (body st))
      → ((p : Phase) (k : ℕ) → left p k < allowed task)
      → Ends (IsLeft wires F instant task regime allows) F (init st.1)
      → IsReady allows st
      → Ends
          (IsLeft wires F instant task regime allows)
          F
          (step_with wires task init from into m n body event st)
  unfolding step_with
  step_with-Ends allows left init from into m n body event (s, w) keeps less inited ready =
      >>=-Ends (IsLeft wires F instant task regime allows)
        (IsLeft wires F instant task regime allows) F
        (if is_unstarted s.phase then init w else ok (s, w)) _
        (by_test (Ends (IsLeft wires F instant task regime allows) F) (is_unstarted s.phase)
          (λ e. inited) ready)
        (λ st l.
          by_test (Ends (IsLeft wires F instant task regime allows) F) (is_finished st.0.phase)
            (λ e. l)
            (λ e.
              >>=-Ends (IsSound wires F instant task regime allows)
                (IsLeft wires F instant task regime allows) F _ _
                (finish-Ends (IsSound wires F instant task regime allows) F _ (
                  Gives-map (Left wires instant task st.0.phase st.0.step) _ F _
                    (λ out k. pushed-IsSound allows st out e l k)
                    (push_buffer-Left wires F instant task regime event _ _ _ _ st (l.0 e))))
                (λ next sound.
                  turns-IsLeft wires F instant task regime allows left body keeps less next sound)))

  pub collective_step-Ends :
      (func : CollFunc) (event : CollEvent) (st : St wires)
      → (is_refused task func ≡ true → F)
      → IsReady (phases_of task func) st
      → Ends
          (IsLeft wires F instant task regime (phases_of task func))
          F
          (collective_step wires task func event st)
  unfolding collective_step allreduce_step broadcast_step all_gather_step reduce_step
      reduce_scatter_step
  collective_step-Ends CollFunc.all_reduce event st bad ready =
      step_with-Ends (in_allreduce task) (allreduce_left task) _ _ _ _ _ _ event st
        (complete_allreduce-After wires F instant task regime)
        (allreduce-bound wires F instant task regime)
        (allreduce_init-Ends wires F instant task regime st.1 bad) ready
  collective_step-Ends CollFunc.broadcast event st bad ready =
      step_with-Ends anywhere forward_left _ _ _ _ _ _ event st
        (complete_broadcast-After wires F instant task regime)
        (forward-bound wires F instant task regime)
        (broadcast_init-Ends wires F instant task regime st.1 bad) ready
  collective_step-Ends CollFunc.reduce event st bad ready =
      step_with-Ends anywhere forward_left _ _ _ _ _ _ event st
        (complete_reduce-After wires F instant task regime)
        (forward-bound wires F instant task regime)
        (reduce_init-Ends wires F instant task regime st.1 bad) ready
  collective_step-Ends CollFunc.all_gather event st bad ready =
      step_with-Ends (in_round task) (round_left task) _ _ _ _ _ _ event st
        (complete_all_gather-After wires F instant task regime)
        (round-bound wires F instant task regime)
        (all_gather_init-Ends wires F instant task regime st.1 bad) ready
  collective_step-Ends CollFunc.reduce_scatter event st bad ready =
      step_with-Ends (in_round task) (round_left task) _ _ _ _ _ _ event st
        (complete_reduce_scatter-After wires F instant task regime)
        (round-bound wires F instant task regime)
        (reduce_scatter_init-Ends wires F instant task regime st.1 bad) ready
  collective_step-Ends CollFunc.send event st bad ready = bad refl
  collective_step-Ends CollFunc.recv event st bad ready = bad refl
  collective_step-Ends (CollFunc.other n) event st bad ready = bad refl
