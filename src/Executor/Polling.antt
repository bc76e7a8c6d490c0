-- ===== src/Executor/Polling.antt =====
-- The executor of one thread, src/executor/polling_executor.cpp. A slot holds what `Run` keeps of a channel:
-- `task_index[i]` is how many of the tasks were started, and `current[i]` is the last of them while it is not done.
pub mod Rounds
pub mod Ends
use origin_ccl.Prelude.{
  ℕ, zero, suc, ◌+◌, ◌-◌, Bool, true, false, not, Option, none, some, List, [], ◌∷◌, map, get_elem?,
  ltb, ◌==◌, if◌then◌else◌,
}
use origin_ccl.Types.{PlanTask, ChannelPlan, CollPlan}
use origin_ccl.Topology.Stepping.{Run, ok, failed, endless, ◌>>=◌, Turn, finish, turns}
use origin_ccl.Executor.{Stepper, begin, drive}

module _ (stepper : Stepper) where
  open stepper use {World, State, is_done}

  pub record Slot : Type 0 where
    pub tasks : List PlanTask
    pub task_index : ℕ
    pub current : Option (PlanTask × State)

  pub record Polling : Type 0 where
    pub slots : List Slot
    pub active : ℕ
    pub world : World

  -- A slot with the change of `active`.
  abbrev pub Moved : Type 0
  Moved = Slot × (ℕ × World)

  -- `StartFrontTask`
  unfoldable pub start_front_task : Moved → Option Moved
  start_front_task (slot, (active, w)) = elim (get_elem? slot.tasks slot.task_index) [
    | none ↦ some (slot, (active, w))
    | some task ↦ elim (begin stepper task w) [
      | none ↦ none
      | some (s, w') ↦ some (
        record slot { current = some (task, s); task_index = slot.task_index + 1 },
        (active + 1, w'),
      )
    ]
  ]

  -- A slot in the loop of a round. `active` is not 0 where it is decremented: there is a current task.
  unfoldable pub poll_slot : Moved → Option Moved
  poll_slot (slot, (active, w)) = elim slot.current [
    | none ↦ some (slot, (active, w))
    | some (task, s) ↦ elim (drive stepper task (s, w)) [
      | none ↦ none
      | some (s', w') ↦
          if not (is_done s')
          then some (record slot { current = some (task, s') }, (active, w'))
          else start_front_task (record slot { current = none }, (active - 1, w'))
    ]
  ]

  -- A loop over the slots.
  unfoldable pub each_slot :
      (Moved → Option Moved) → List Slot → ℕ → World → Option (List Slot × (ℕ × World))
  each_slot f [] active w = some ([], (active, w))
  each_slot f (slot ∷ slots) active w = elim (f (slot, (active, w))) [
    | none ↦ none
    | some (slot', (active', w')) ↦ elim (each_slot f slots active' w') [
      | none ↦ none
      | some (slots', out) ↦ some (slot' ∷ slots', out)
    ]
  ]

  unfoldable pub sweep : (Moved → Option Moved) → Polling → Option Polling
  sweep f p = elim (each_slot f p.slots p.active p.world) [
    | none ↦ none
    | some (slots, (active, w)) ↦ some (record { slots = slots; active = active; world = w })
  ]

  abbrev pub as_turn : Option Polling → Turn Polling
  as_turn none = Turn.fail
  as_turn (some p) = Turn.again p

  unfoldable pub poll_turn : Polling → Turn Polling
  poll_turn p = if p.active == 0 then Turn.stop p else as_turn (sweep poll_slot p)

  abbrev pub new_slot : ChannelPlan → Slot
  new_slot channel = record { tasks = channel.tasks; task_index = 0; current = none }

  -- `Run`, with at most `fuel` rounds.
  unfoldable pub run_polling : ℕ → CollPlan → World → Run Polling
  run_polling fuel plan w =
      finish (
        sweep start_front_task
          (record { slots = map new_slot plan.channels; active = 0; world = w }))
      >>= λ p. turns fuel poll_turn p
