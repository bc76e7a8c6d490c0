-- ===== src/Topology/P2p/Stepping.antt =====
-- A point-to-point task in steps, src/topology/topology_p2p.cpp: `CollectiveInit`, `CollectiveStep`,
-- `CollectiveDone`.
use origin_ccl.Prelude.{
  ℕ, ◌*◌, ◌%◌, ◌^◌, Bool, true, false, not, ◌||◌, Option, none, some, List, ◌∷◌, length, replicate,
  ◌==◌, if◌then◌else◌,
}
use origin_ccl.Types.{PlanTask, CollFunc, CollEvent}
use origin_ccl.Utils.{data_type_size}
use origin_ccl.Planner.Validate.{◌is◌}
use origin_ccl.Topology.Stepping.{Place, place_at, OpState, new_state, Wires}

-- The phases 0 and 1.
pub data Phase : Type 0 where
  running finished : Phase

abbrev pub collective_done : OpState Phase → Bool
collective_done s = elim s.phase [ Phase.running ↦ false | Phase.finished ↦ true ]

abbrev pub is_writable : CollEvent → Bool
is_writable CollEvent.writable = true
is_writable CollEvent.readable = false

-- `event == Writable` is of the task's own side.
abbrev pub concerns : PlanTask → CollEvent → Bool
concerns task event =
    if task.func is CollFunc.send then is_writable event else not (is_writable event)

abbrev pub transfer_bytes : PlanTask → ℕ
transfer_bytes task = task.elem_count * data_type_size task.dtype % 2 ^ 64

unfoldable pub blank_state : PlanTask → OpState Phase
blank_state task = record (new_state Phase.running) {
  send_progress = replicate (length task.send_transports) 0;
  recv_progress = replicate (length task.recv_transports) 0;
  send_done = replicate (length task.send_transports) false;
  recv_done = replicate (length task.recv_transports) false;
}

abbrev pub phase_of : Bool → Phase
phase_of done = if done then Phase.finished else Phase.running

module _ (wires : Wires) where
  open wires use {World, try_send, try_recv}

  abbrev pub St : Type 0
  St = OpState Phase × World

  -- The transfer at index 0 of a side. A side of no transport, or a null one, is undefined behaviour, and ends
  -- the call here.
  unfoldable pub push_first :
      (ℕ → Place → ℕ → ℕ → World → Option (ℕ × (Bool × World)))
      → Place
      → ℕ
      → List (Option ℕ)
      → List ℕ
      → List Bool
      → World
      → Option (List ℕ × (List Bool × (Bool × World)))
  push_first try place bytes (some t ∷ ts) (p ∷ ps) (d ∷ ds) w = elim (try t place bytes p w) [
    | none ↦ none
    | some (p', (d', w')) ↦ some (p' ∷ ps, (d' ∷ ds, (d', w')))
  ]
  push_first try place bytes ts ps ds w = none

  unfoldable pub push_send : PlanTask → St → Option St
  push_send task (s, w) =
      elim (push_first try_send (place_at task.send_buf 0) (transfer_bytes task)
        task.send_transports s.send_progress s.send_done w) [
          | none ↦ none
          | some (ps, (ds, (d, w'))) ↦
              some (record s { send_progress = ps; send_done = ds; phase = phase_of d }, w')
        ]

  unfoldable pub push_recv : PlanTask → St → Option St
  push_recv task (s, w) =
      elim (push_first try_recv (place_at task.recv_buf 0) (transfer_bytes task)
        task.recv_transports s.recv_progress s.recv_done w) [
          | none ↦ none
          | some (ps, (ds, (d, w'))) ↦
              some (record s { recv_progress = ps; recv_done = ds; phase = phase_of d }, w')
        ]

  unfoldable pub collective_step : PlanTask → CollEvent → St → Option St
  collective_step task event (s, w) =
      if collective_done s || not (concerns task event)
      then some (s, w)
      else if task.func is CollFunc.send
      then push_send task (s, w)
      else push_recv task (s, w)

  unfoldable pub collective_init : PlanTask → World → Option St
  collective_init task w =
      if task.elem_count == 0
      then some (record (blank_state task) { phase = Phase.finished }, w)
      else collective_step task
          (if task.func is CollFunc.send then CollEvent.writable else CollEvent.readable)
          (blank_state task, w)
