-- ===== src/Executor.antt =====
-- The executors, src/executor: what they ask of a topology, and `ExecuteTask` of the threads.
pub mod Dynamic
pub mod Polling
mod Examples
use origin_ccl.Prelude.{
  ℕ, suc, Bool, true, false, not, ◌&&◌, Option, none, some, List, [], ◌∷◌, if◌then◌else◌,
}
use origin_ccl.Types.{PlanTask, CollEvent, TopologyKind}
use origin_ccl.Topology.Stepping.{Run, ok, failed, endless, ◌>>=◌, Turn, turns}

-- The virtual calls of a topology on a task, whose state is apart from it, and `send_done` and `recv_done` of
-- that state, true if all their flags are. A call gives the state that it leaves, or fails.
pub record Stepper : Type 1 where
  pub World : Type 0
  pub State : Type 0
  pub init : PlanTask → World → Option (State × World)
  pub step : PlanTask → CollEvent → State → World → Option (State × World)
  pub is_done : State → Bool
  pub sends_done : State → Bool
  pub recvs_done : State → Bool

module _ (stepper : Stepper) where
  open stepper use {World, State, init, step, is_done, sends_done, recvs_done}

  -- `!done && !topo->CollectiveStep(task, event)` is the failure of this.
  abbrev pub step_unless : Bool → PlanTask → CollEvent → State × World → Option (State × World)
  step_unless done task event (s, w) = if done then some (s, w) else step task event s w

  -- A round of the loop over the events of a task. The flags are those from before both steps.
  unfoldable pub drive : PlanTask → State × World → Option (State × World)
  drive task (s, w) = elim (step_unless (sends_done s) task CollEvent.writable (s, w)) [
    | none ↦ none
    | some st ↦ step_unless (recvs_done s) task CollEvent.readable st
  ]

  abbrev pub as_turn : Option (State × World) → Turn (State × World)
  as_turn none = Turn.fail
  as_turn (some st) = Turn.again st

  unfoldable pub drive_turn : PlanTask → State × World → Turn (State × World)
  drive_turn task st = if is_done st.0 then Turn.stop st else as_turn (drive task st)

  -- `CollectiveInit` of a task, which must have a topology.
  unfoldable pub begin : PlanTask → World → Option (State × World)
  begin task w = elim task.topology [ none ↦ none | some kind ↦ init task w ]

  -- `ExecuteTask`, with at most `fuel` rounds of its loop.
  unfoldable pub execute_task : ℕ → PlanTask → World → Run (State × World)
  execute_task fuel task w = elim (begin task w) [
    | none ↦ failed
    | some st ↦ turns fuel (drive_turn task) st
  ]

  -- The tasks of a channel in `WorkerLoop`, one after the other until one fails.
  unfoldable pub execute_all : ℕ → List PlanTask → World → Run World
  execute_all fuel [] w = ok w
  execute_all fuel (task ∷ tasks) w = execute_task fuel task w >>= λ st. execute_all fuel tasks st.1
