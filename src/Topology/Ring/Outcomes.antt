-- ===== src/Topology/Ring/Outcomes.antt =====
-- The calls `CollectiveInit` and `CollectiveStep` of the ring, src/topology/topology_ring.cpp, as a whole.
use origin_ccl.Prelude.{
  ℕ, ◌≡◌, ◌≢◌, ◌≤◌, ◌+◌, ◌↔◌, refl, arith, Bool, true, false, ◌&&◌, ◌||◌, inl, inr, Bool-cases,
  ◌==◌,
}
use origin_ccl.Prelude.Int.{pos, eqb_ℤ}
use origin_ccl.Types.{PlanTask, CollFunc, CollEvent}
use origin_ccl.Planner.Validate.{is_null}
use origin_ccl.Topology.Stepping.{OpState, Wires, ok, failed, endless}
use origin_ccl.Topology.Stepping.Loops.{Ends-returns, Ends-at, Ends-fails}
use origin_ccl.Topology.Ring.Schedule.{Phase}
use origin_ccl.Topology.Ring.Collectives.{St, total_ops}
use origin_ccl.Topology.Ring.Calls.{
  bad_world, root_outside, is_alone, no_transports, fresh, allreduce_init, broadcast_init,
  all_gather_init, reduce_init, reduce_scatter_init, collective_init, collective_step,
}
use origin_ccl.Topology.Stepping.Guards.{guarded-refused}
use origin_ccl.Topology.Stepping.Regime.{IsRegime, any_world}
use origin_ccl.Topology.Ring.Promise.{is_refused, phases_of, collective_init-Ends}
use origin_ccl.Topology.Ring.Progress.{IsReady, collective_step-Ends}

refused-init :
    (wires : Wires) (task : PlanTask) (func : CollFunc) (w : wires.World)
    → is_refused task func ≡ true
    → collective_init wires task func w ≡ failed
unfolding collective_init allreduce_init broadcast_init all_gather_init reduce_init
    reduce_scatter_init
refused-init wires task CollFunc.all_reduce w h =
    guarded-refused (bad_world task) (task.elem_count == 0)
      (is_null task.send_buf || is_null task.recv_buf) (is_alone task) (no_transports task) _ _ _ h
refused-init wires task CollFunc.broadcast w h =
    guarded-refused (bad_world task || root_outside task) (task.elem_count == 0)
      (is_null task.recv_buf) (is_alone task) (no_transports task) _ _ _ (ground (arith, h))
refused-init wires task CollFunc.reduce w h =
    guarded-refused (bad_world task || root_outside task) (task.elem_count == 0)
      (is_null task.send_buf || (eqb_ℤ task.rank task.root && is_null task.recv_buf))
      (is_alone task) (no_transports task) _ _ _ (ground (arith, h))
refused-init wires task CollFunc.all_gather w h =
    guarded-refused (bad_world task) (task.elem_count == 0)
      (is_null task.send_buf || is_null task.recv_buf) (is_alone task) (no_transports task) _ _ _ h
refused-init wires task CollFunc.reduce_scatter w h =
    guarded-refused (bad_world task) (task.elem_count == 0)
      (is_null task.send_buf || is_null task.recv_buf) (is_alone task) (no_transports task) _ _ _ h
refused-init wires task CollFunc.send w h = refl
refused-init wires task CollFunc.recv w h = refl
refused-init wires task (CollFunc.other n) w h = refl

-- The states of a task of a function from its planning on. Between two calls the rest of the world moves.
pub data Reached (wires : Wires) (task : PlanTask) (func : CollFunc) : St wires → Type 0 where
  planned : (w : wires.World) → Reached wires task func (fresh, w)
  inited :
      (w : wires.World) (st : St wires)
      → collective_init wires task func w ≡ ok st
      → Reached wires task func st
  stepped :
      (event : CollEvent) (before st : St wires)
      → Reached wires task func before
      → collective_step wires task func event before ≡ ok st
      → Reached wires task func st
  moved :
      (s : OpState Phase) (w w' : wires.World)
      → Reached wires task func (s, w)
      → Reached wires task func (s, w')

Reached-IsReady :
    (wires : Wires) (task : PlanTask) (func : CollFunc) (st : St wires)
    → Reached wires task func st
    → IsReady wires Unit false task (any_world wires task) (phases_of task func) st
Reached-IsReady wires task func st (planned w) = λ e. ground (arith, e)
Reached-IsReady wires task func st (inited w _ h) = λ e.
    Ends-at _ Unit _ st h
      (collective_init-Ends wires Unit false task (any_world wires task) func w (λ b. tt))
Reached-IsReady wires task func st (stepped event before _ r h) = λ e. Ends-at _ Unit _ st h (
    collective_step-Ends wires Unit false task (any_world wires task) func event before (λ b. tt)
      (Reached-IsReady wires task func before r))
Reached-IsReady wires task func st (moved s w w' r) = Reached-IsReady wires task func (s, w) r

-- `CollectiveInit` always returns, and so does `CollectiveStep` at a state that a task can have: the loops of
-- all five collectives end, whatever the transports answer.
pub collective-returns :
    (wires : Wires) (task : PlanTask) (func : CollFunc) (w : wires.World) (event : CollEvent)
    (st : St wires)
    → Reached wires task func st
    → (collective_init wires task func w ≢ endless)
      × (collective_step wires task func event st ≢ endless)
collective-returns wires task func w event st r = (
  Ends-returns _ Unit _
      (collective_init-Ends wires Unit false task (any_world wires task) func w (λ b. tt)),
  Ends-returns _ Unit _ (
      collective_step-Ends wires Unit false task (any_world wires task) func event st (λ b. tt)
        (Reached-IsReady wires task func st r)),
)

-- Where no transfer fails and no transport is null, `CollectiveInit` returns false for the tasks that the guards
-- name and for no other.
pub collective_init-failed :
    (wires : Wires) (instant : Bool) (task : PlanTask) (func : CollFunc) (w : wires.World)
    → IsRegime wires ⊥ instant task
    → (collective_init wires task func w ≡ failed) ↔ (is_refused task func ≡ true)
collective_init-failed wires instant task func w regime = (
  λ e. elim (Bool-cases (is_refused task func)) [
    | inl t ↦ t
    | inr n ↦ absurd (
        Ends-fails _ ⊥ _ e
          (collective_init-Ends wires ⊥ instant task regime func w (λ b. ground (arith, b, n))))
  ],
  refused-init wires task func w,
)

-- The number of the step that a task ends at, of the second pass for an AllReduce.
abbrev pub IsLastStep : PlanTask → CollFunc → ℕ → Type 0
IsLastStep task CollFunc.all_reduce step = total_ops task ≤ step
IsLastStep task CollFunc.all_gather step = pos (step + 1) ≡ task.world_size
IsLastStep task CollFunc.reduce_scatter step = pos (step + 1) ≡ task.world_size
IsLastStep task func step = Unit
