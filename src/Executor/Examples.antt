-- ===== src/Executor/Examples.antt =====
-- Three slices for two workers, and two channels that send over transports of two bytes a call.
use origin_ccl.Prelude.{
  ℕ, suc, ◌≡◌, ◌≤◌, ◌+◌, ◌-◌, min, leb, refl, arith, Bool, true, some, List, [], ◌∷◌,
}
use origin_ccl.Prelude.Int.{pos}
use origin_ccl.Types.{PlanTask, new_plan_task, CollPlan, CollFunc, DataType, TopologyKind}
use origin_ccl.Topology.Stepping.{OpState, new_state, Wires, side_done}
use origin_ccl.Topology.Stepping.Loops.{Ends}
use origin_ccl.Topology.P2p.Stepping.{
  Phase, phase_of, collective_done, collective_init, collective_step,
}
use origin_ccl.Executor.{Stepper}
use origin_ccl.Executor.Dynamic.{new_batch, run_batch, move, work, claim, receive}
use origin_ccl.Executor.Dynamic.Shares.{count_in, claimed}
use origin_ccl.Executor.Dynamic.Claims.{all_ended, count_in-run_batch, run_batch_complete}

abbrev schedule : List (ℕ × Bool)
schedule =
    (0, true)
    ∷ (1, true)
    ∷ (0, true)
    ∷ (1, true)
    ∷ (0, true)
    ∷ (1, true)
    ∷ (0, true)
    ∷ (1, true)
    ∷ (0, true)
    ∷ []

slices_done : all_ended (run_batch 3 2 schedule (new_batch 2)).workers ≡ true
unfolding run_batch move work claim receive
slices_done = refl

run_batch_complete_example : count_in 1 (run_batch 3 2 schedule (new_batch 2)).log ≡ claimed 1 3
run_batch_complete_example =
    run_batch_complete 3 2 2 1 schedule (omega arith) (omega arith) slices_done

count_in-run_batch_example : count_in 2 (run_batch 3 2 schedule (new_batch 2)).log ≤ claimed 2 3
count_in-run_batch_example = count_in-run_batch 3 2 2 2 schedule (omega arith)

-- The point-to-point topology over the given transports.
abbrev p2p : Wires → Stepper
p2p wires = record {
  World = wires.World;
  State = OpState Phase;
  init = collective_init wires;
  step = λ task event s w. collective_step wires task event (s, w);
  is_done = collective_done;
  sends_done = λ s. side_done s.send_done;
  recvs_done = λ s. side_done s.recv_done;
}

-- Transports that move two bytes in each call.
abbrev slow : Wires
slow = record {
  World = ℕ;
  try_send =
      λ t place size progress w. some (min size (progress + 2), (leb size (progress + 2), suc w));
  try_recv =
      λ t place size progress w. some (min size (progress + 2), (leb size (progress + 2), suc w));
  copy = λ to from size w. w;
  reduce = λ from into count dtype op w. w;
  average = λ place count dtype n w. w;
}

-- Five elements of four bytes to be sent.
abbrev a_send : PlanTask
a_send = record new_plan_task {
  func = CollFunc.send;
  send_buf = some 64;
  elem_count = 5;
  dtype = DataType.int32;
  topology = some TopologyKind.p2p;
  send_transports = some 7 ∷ [];
}

-- The states of such a task.
abbrev at_progress : ℕ → Bool → OpState Phase
at_progress p d = record (new_state (phase_of d)) { send_progress = p ∷ []; send_done = d ∷ [] }

abbrev IsSending : PlanTask → OpState Phase → Type 0
IsSending task s = (p : ℕ) × (d : Bool) × (s ≡ at_progress p d)

abbrev bytes_left : OpState Phase → ℕ
bytes_left s = elim s.send_progress [ [] ↦ 0 | p ∷ ps ↦ 20 - p ]

abbrev two_channels : CollPlan
two_channels = record {
  channels =
      record { channel_id = pos 0; tasks = a_send ∷ a_send ∷ [] }
      ∷ record { channel_id = pos 1; tasks = a_send ∷ [] }
      ∷ [];
  slices = [];
}
