-- ===== src/Topology/Ring/Promise.antt =====
-- About `CollectiveInit` of the ring, src/topology/topology_ring.cpp, in a world that a regime describes.
use origin_ccl.Prelude.{ℕ, ◌≡◌, ◌<◌, refl, arith, Bool, true, false, not, ◌&&◌, ◌||◌, Option, ◌==◌}
use origin_ccl.Prelude.Int.{eqb_ℤ}
use origin_ccl.Types.{PlanTask, CollFunc}
use origin_ccl.Planner.Validate.{is_null}
use origin_ccl.Topology.Stepping.{OpState, Wires, ◌>>=◌, Turn, finish, turns}
use origin_ccl.Topology.Stepping.Loops.{
  After, Ends, Gives, Gives-map, Ends-map, finish-Ends, >>=-Ends, turns-Ends,
}
use origin_ccl.Topology.Ring.Schedule.{Phase}
use origin_ccl.Topology.Ring.Collectives.{
  St, begin_allreduce, begin_broadcast, begin_all_gather, begin_reduce, begin_reduce_scatter,
  is_finished, goes_on, all_finished,
}
use origin_ccl.Topology.Ring.Calls.{
  allowed, bad_world, root_outside, is_alone, no_transports, fresh, allreduce_init, broadcast_init,
  all_gather_init, reduce_init, reduce_scatter_init, collective_init,
}
use origin_ccl.Topology.Stepping.Guards.{guarded-Ends}
use origin_ccl.Topology.Stepping.Regime.{IsRegime}
use origin_ccl.Topology.Ring.Sides.{IsAligned, Begun, begin_phase-Left}
use origin_ccl.Topology.Ring.Measures.{
  first_round, in_allreduce, in_round, anywhere, forward_left, round_left, allreduce_left,
}
use origin_ccl.Topology.Ring.Ending.{
  IsSound, IsAtRest, Begun-IsSound, complete_broadcast-After, complete_reduce-After,
  complete_all_gather-After, complete_reduce_scatter-After, complete_allreduce-After,
}

-- The tasks that `CollectiveInit` refuses.
abbrev pub lacks_buffer : PlanTask → CollFunc → Bool
lacks_buffer task CollFunc.broadcast = is_null task.recv_buf
lacks_buffer task CollFunc.reduce =
    is_null task.send_buf || (eqb_ℤ task.rank task.root && is_null task.recv_buf)
lacks_buffer task func = is_null task.send_buf || is_null task.recv_buf

abbrev pub is_rooted : CollFunc → Bool
is_rooted CollFunc.broadcast = true
is_rooted CollFunc.reduce = true
is_rooted func = false

abbrev pub is_on_ring : CollFunc → Bool
is_on_ring CollFunc.send = false
is_on_ring CollFunc.recv = false
is_on_ring (CollFunc.other n) = false
is_on_ring func = true

abbrev pub is_refused : PlanTask → CollFunc → Bool
is_refused task func =
    not (is_on_ring func)
    || (bad_world task
        || ((is_rooted func && root_outside task)
            || (not (task.elem_count == 0)
                && (lacks_buffer task func || (not (is_alone task) && no_transports task)))))

-- Where a task of a function may be.
abbrev pub phases_of : PlanTask → CollFunc → Phase → ℕ → Bool
phases_of task CollFunc.all_reduce = in_allreduce task
phases_of task CollFunc.all_gather = in_round task
phases_of task CollFunc.reduce_scatter = in_round task
phases_of task func = anywhere

module _ (wires : Wires) (F : Type 0) (instant : Bool) (task : PlanTask)
    (regime : IsRegime wires F instant task) where
  -- What a call leaves: the vectors fit the transports, and in an instant world the task is finished.
  -- The one call that leaves the vectors empty is that of an AllReduce of a single rank.
  abbrev pub IsLeft : (Phase → ℕ → Bool) → St wires → Type 0
  IsLeft allows st =
      (is_finished st.0.phase ≡ false → IsAligned task st.0)
      × (allows st.0.phase st.0.step ≡ true)
      × (instant ≡ true → is_finished st.0.phase ≡ true)

  rest-IsLeft :
      (allows : Phase → ℕ → Bool) (st : St wires)
      → IsAtRest wires F instant task regime allows st
      → IsLeft allows st
  unfolding goes_on
  rest-IsLeft allows st r = (λ e. r.0.0, r.0.1, λ i. ground (arith, r.0.2 i, r.0.3 i, r.1))

  pub turns-IsLeft :
      (allows : Phase → ℕ → Bool) (left : Phase → ℕ → ℕ) (body : St wires → Turn (St wires))
      → ((st : St wires)
          → IsSound wires F instant task regime allows st
          → After
              (IsSound wires F instant task regime allows)
              (IsAtRest wires F instant task regime allows)
              F
              (λ out. left out.0.phase out.0.step)
              (left st.0.phase st.0.step)
              (body st))
      → ((p : Phase) (k : ℕ) → left p k < allowed task)
      → (st : St wires) → IsSound wires F instant task regime allows st
      → Ends (IsLeft allows) F (turns (allowed task) body st)
  turns-IsLeft allows left body keeps less st sound =
      Ends-map (IsAtRest wires F instant task regime allows) (IsLeft allows) F _
        (rest-IsLeft allows)
        (turns-Ends (IsSound wires F instant task regime allows)
          (IsAtRest wires F instant task regime allows) F (λ out. left out.0.phase out.0.step) body
          keeps (allowed task) st (less st.0.phase st.0.step) sound)

  -- A step that is begun and then completed.
  Begun-Ends :
      (allows : Phase → ℕ → Bool) (left : Phase → ℕ → ℕ) (phase : Phase) (step : ℕ)
      (o : Option (St wires)) (body : St wires → Turn (St wires))
      → ((st : St wires)
          → IsSound wires F instant task regime allows st
          → After
              (IsSound wires F instant task regime allows)
              (IsAtRest wires F instant task regime allows)
              F
              (λ out. left out.0.phase out.0.step)
              (left st.0.phase st.0.step)
              (body st))
      → ((p : Phase) (k : ℕ) → left p k < allowed task)
      → allows phase step ≡ true
      → Gives (Begun wires instant task phase step) F o
      → Ends (IsLeft allows) F (finish o >>= λ st. turns (allowed task) body st)
  Begun-Ends allows left phase step o body keeps less e given =
      >>=-Ends (IsSound wires F instant task regime allows) (IsLeft allows) F (finish o) _
        (finish-Ends (IsSound wires F instant task regime allows) F o (
          Gives-map (Begun wires instant task phase step) _ F o
            (λ st. Begun-IsSound wires F instant task regime allows phase step st e) given))
        (λ st sound. turns-IsLeft allows left body keeps less st sound)

  over-IsLeft :
      (allows : Phase → ℕ → Bool) (s : OpState Phase) (w : wires.World)
      → is_finished s.phase ≡ true
      → allows s.phase s.step ≡ true
      → IsLeft allows (s, w)
  over-IsLeft allows s w e a = (λ f. ground (arith, e, f), a, λ i. e)

  pub forward-bound : (p : Phase) (k : ℕ) → forward_left p k < allowed task
  forward-bound p k = ground arith

  pub round-bound : (p : Phase) (k : ℕ) → round_left task p k < allowed task
  round-bound p k = ground arith

  pub allreduce-bound : (p : Phase) (k : ℕ) → allreduce_left task p k < allowed task
  allreduce-bound p k = ground arith

  alone-IsLeft :
      (allows : Phase → ℕ → Bool) (w : wires.World)
      → allows Phase.finished 0 ≡ true
      → IsLeft allows (all_finished task fresh, w)
  unfolding all_finished
  alone-IsLeft allows w a = over-IsLeft allows _ w refl a

  pub allreduce_init-Ends :
      (w : wires.World)
      → (is_refused task CollFunc.all_reduce ≡ true → F)
      → Ends (IsLeft (in_allreduce task)) F (allreduce_init wires task w)
  unfolding allreduce_init begin_allreduce
  allreduce_init-Ends w bad =
      guarded-Ends (IsLeft (in_allreduce task)) F (bad_world task) (task.elem_count == 0)
        (is_null task.send_buf || is_null task.recv_buf) (is_alone task) (no_transports task) _ _ _
        (λ h. bad (ground (arith, h))) (λ e. alone-IsLeft (in_allreduce task) w (ground (arith, e)))
        (λ e. over-IsLeft (in_allreduce task) _ w refl (ground (arith, e)))
        (Begun-Ends (in_allreduce task) (allreduce_left task) _ 0 _ _
          (complete_allreduce-After wires F instant task regime) allreduce-bound refl
          (begin_phase-Left wires F instant task regime _ _ _ _ _ (_, _)))

  pub broadcast_init-Ends :
      (w : wires.World)
      → (is_refused task CollFunc.broadcast ≡ true → F)
      → Ends (IsLeft anywhere) F (broadcast_init wires task w)
  unfolding broadcast_init begin_broadcast
  broadcast_init-Ends w bad =
      guarded-Ends (IsLeft anywhere) F (bad_world task || root_outside task) (task.elem_count == 0)
        (is_null task.recv_buf) (is_alone task) (no_transports task) _ _ _
        (λ h. bad (ground (arith, h))) (λ e. alone-IsLeft anywhere w refl)
        (λ e. alone-IsLeft anywhere w refl)
        (Begun-Ends anywhere forward_left _ 0 _ _
          (complete_broadcast-After wires F instant task regime) forward-bound refl
          (begin_phase-Left wires F instant task regime _ _ _ _ _ (_, _)))

  pub all_gather_init-Ends :
      (w : wires.World)
      → (is_refused task CollFunc.all_gather ≡ true → F)
      → Ends (IsLeft (in_round task)) F (all_gather_init wires task w)
  unfolding all_gather_init begin_all_gather
  all_gather_init-Ends w bad =
      guarded-Ends (IsLeft (in_round task)) F (bad_world task) (task.elem_count == 0)
        (is_null task.send_buf || is_null task.recv_buf) (is_alone task) (no_transports task) _ _ _
        (λ h. bad (ground (arith, h))) (λ e. alone-IsLeft (in_round task) w (ground (arith, e)))
        (λ e. alone-IsLeft (in_round task) w (ground (arith, e)))
        (Begun-Ends (in_round task) (round_left task) _ 0 _ _
          (complete_all_gather-After wires F instant task regime) round-bound (first_round task)
          (begin_phase-Left wires F instant task regime _ _ _ _ _ (_, _)))

  pub reduce_init-Ends :
      (w : wires.World)
      → (is_refused task CollFunc.reduce ≡ true → F)
      → Ends (IsLeft anywhere) F (reduce_init wires task w)
  unfolding reduce_init begin_reduce
  reduce_init-Ends w bad =
      guarded-Ends (IsLeft anywhere) F (bad_world task || root_outside task) (task.elem_count == 0)
        (is_null task.send_buf || (eqb_ℤ task.rank task.root && is_null task.recv_buf))
        (is_alone task) (no_transports task) _ _ _ (λ h. bad (ground (arith, h)))
        (λ e. alone-IsLeft anywhere w refl) (λ e. alone-IsLeft anywhere w refl)
        (Begun-Ends anywhere forward_left _ 0 _ _
          (complete_reduce-After wires F instant task regime) forward-bound refl
          (begin_phase-Left wires F instant task regime _ _ _ _ _ (_, _)))

  pub reduce_scatter_init-Ends :
      (w : wires.World)
      → (is_refused task CollFunc.reduce_scatter ≡ true → F)
      → Ends (IsLeft (in_round task)) F (reduce_scatter_init wires task w)
  unfolding reduce_scatter_init begin_reduce_scatter
  reduce_scatter_init-Ends w bad =
      guarded-Ends (IsLeft (in_round task)) F (bad_world task) (task.elem_count == 0)
        (is_null task.send_buf || is_null task.recv_buf) (is_alone task) (no_transports task) _ _ _
        (λ h. bad (ground (arith, h))) (λ e. alone-IsLeft (in_round task) w (ground (arith, e)))
        (λ e. alone-IsLeft (in_round task) w (ground (arith, e)))
        (Begun-Ends (in_round task) (round_left task) _ 0 _ _
          (complete_reduce_scatter-After wires F instant task regime) round-bound (first_round task)
          (begin_phase-Left wires F instant task regime _ _ _ _ _ (_, _)))

  pub collective_init-Ends :
      (func : CollFunc) (w : wires.World)
      → (is_refused task func ≡ true → F)
      → Ends (IsLeft (phases_of task func)) F (collective_init wires task func w)
  unfolding collective_init
  collective_init-Ends CollFunc.all_reduce w bad = allreduce_init-Ends w bad
  collective_init-Ends CollFunc.broadcast w bad = broadcast_init-Ends w bad
  collective_init-Ends CollFunc.reduce w bad = reduce_init-Ends w bad
  collective_init-Ends CollFunc.all_gather w bad = all_gather_init-Ends w bad
  collective_init-Ends CollFunc.reduce_scatter w bad = reduce_scatter_init-Ends w bad
  collective_init-Ends CollFunc.send w bad = bad refl
  collective_init-Ends CollFunc.recv w bad = bad refl
  collective_init-Ends (CollFunc.other n) w bad = bad refl
