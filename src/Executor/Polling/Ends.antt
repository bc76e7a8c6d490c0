-- ===== src/Executor/Polling/Ends.antt =====
-- About `Run` of the executor of one thread, src/executor/polling_executor.cpp.
use origin_ccl.Prelude.{ℕ, ◌≡◌, ◌≤◌, ◌<◌, ◌+◌, ◌⊎◌, true, List, [], ◌∷◌, map, length, All}
use origin_ccl.Types.{PlanTask, ChannelPlan, CollPlan}
use origin_ccl.Topology.Stepping.Loops.{Gives}
use origin_ccl.Executor.{Stepper, begin, drive}
use origin_ccl.Executor.Polling.{Slot, Polling}
use origin_ccl.Executor.Polling.Rounds.{busy, all_busy, IsServed, all_todo, at_rest}

-- How many tasks the channels of a plan have.
abbrev pub all_tasks : List ChannelPlan → ℕ
all_tasks [] = 0
all_tasks (channel ∷ channels) = length channel.tasks + all_tasks channels

module _ (stepper : Stepper) where
  open stepper use {World, State, is_done}

  abbrev pub tasks_of : List (Slot stepper) → List (List PlanTask)
  tasks_of slots = map (λ slot. slot.tasks) slots

  -- The state between two rounds, where `plan` is what the executor runs.
  pub record IsPolling (IsRunnable : PlanTask → Type 0) (IsLive : PlanTask → State → Type 0)
      (plan : CollPlan) (p : Polling stepper) : Type 0 where
    pub counted : p.active ≡ all_busy stepper p.slots
    pub planned : tasks_of p.slots ≡ map (λ channel. channel.tasks) plan.channels
    pub served : All (IsServed stepper IsRunnable IsLive) p.slots

  -- All tasks were started, and none of them is still going on.
  pub record IsFinished (plan : CollPlan) (p : Polling stepper) : Type 0 where
    pub idle : p.active ≡ 0
    pub planned : tasks_of p.slots ≡ map (λ channel. channel.tasks) plan.channels
    pub started :
        All (λ slot. (slot.task_index ≡ length slot.tasks) × (busy stepper slot ≡ 0)) p.slots

  module _ (F : Type 0) (work : State → ℕ) (most : ℕ) (IsRunnable : PlanTask → Type 0)
      (IsLive : PlanTask → State → Type 0)
      (begins : (task : PlanTask) (w : World)
        → IsRunnable task
        → Gives
            (λ st. IsLive task st.0 × (true ≡ true → work st.0 ≤ most))
            F
            (begin stepper task w))
      (drives : (task : PlanTask) (st : State × World)
        → IsRunnable task
        → IsLive task st.0
        → Gives
            (λ out.
              IsLive task out.0 × (true ≡ true → (is_done out.0 ≡ true) ⊎ (work out.0 < work st.0)))
            F
            (drive stepper task st)) where
    abbrev left : Polling stepper → ℕ
    left p = all_todo stepper F true work most IsRunnable IsLive begins drives p.slots

    -- The slots of a plan that is to be run.
    IsNew : Slot stepper → Type 0
    IsNew slot =
        (tasks : List PlanTask) × (All IsRunnable tasks)
        × (at_rest stepper F true work most IsRunnable IsLive begins drives tasks 0 ≡ slot)
