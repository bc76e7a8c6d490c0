-- ===== src/Topology/Stepping/Worlds.antt =====
-- Worlds for the examples: a transfer is done at once, or makes no progress, by its direction.
use origin_ccl.Prelude.{ℕ, ◌+◌, refl, arith, Bool, true, false, some, [], ◌∷◌}
use origin_ccl.Prelude.Int.{pos}
use origin_ccl.Types.{PlanTask, CollFunc, DataType, new_plan_task}
use origin_ccl.Topology.Stepping.{Wires, Run, ok, failed, endless}
use origin_ccl.Topology.Stepping.Regime.{IsRegime}

abbrev if_done : Bool → ℕ → ℕ
if_done true size = size
if_done false size = 0

-- The world counts the transfers that were tried.
abbrev pub wires_of : Bool → Bool → Wires
wires_of sends recvs = record {
  World = ℕ;
  try_send = λ t place size progress w. some (if_done sends size, (sends, w + 1));
  try_recv = λ t place size progress w. some (if_done recvs size, (recvs, w + 1));
  copy = λ to from size w. w;
  reduce = λ from into count dtype op w. w;
  average = λ place count dtype n w. w;
}

abbrev pub instant : Wires
instant = wires_of true true

-- Five elements in chunks of two, over three ranks and one transport each way.
abbrev pub example_task : PlanTask
example_task = record new_plan_task {
  func = CollFunc.all_reduce;
  send_buf = some 64;
  recv_buf = some 4096;
  elem_count = 5;
  chunk_size = 2;
  rank_stride = 5;
  dtype = DataType.int32;
  world_size = pos 3;
  send_transports = some 7 ∷ [];
  recv_transports = some 8 ∷ [];
}

pub instant-IsRegime : IsRegime instant ⊥ true example_task
instant-IsRegime = record {
  sends = λ t place size progress w i. refl;
  recvs = λ t place size progress w i. refl;
  send_there = (λ e. ground (arith, e), tt);
  recv_there = (λ e. ground (arith, e), tt);
}

-- The state that a call returns.
abbrev pub state_of {ℓ} : {A : Type ℓ} → A → Run A → A
state_of otherwise (ok a) = a
state_of otherwise failed = otherwise
state_of otherwise endless = otherwise
