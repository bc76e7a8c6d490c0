-- ===== src/Planner/Batch/Examples.antt =====
-- A batch of a send and a receive between two ranks, on the second of them.
use origin_ccl.Prelude.{
  all, length, Bool, false, ℕ, zero, suc, ◌+◌, ◌==◌, ◌≡◌, refl, arith, true, ◌&&◌, none, some, [],
  ◌∷◌,
}
use origin_ccl.Prelude.Int.{ℤ, pos, negsuc, ◌-ℤ◌, ◌+ℤ◌, ◌%ℤ◌}
use origin_ccl.Types.{CollPlan, CollFunc, CollTask, DataType, ReduceOp, Channel}
use origin_ccl.Topology.P2p.{slots}
use origin_ccl.Planner.Validate.{◌is◌}
use origin_ccl.Planner.Peers.{no_node}
use origin_ccl.Planner.Peers.Missing.{missing_peers, wants}
use origin_ccl.Planner.Batch.{
  Ending, join_peers, run_threads, thread_round, connect_p2p, accept_p2p_one, accept_turn,
  connects_then_accepts, each_peer, Network, Site, Joined, Event, Polled, prepare_round,
}
use origin_ccl.Topology.Stepping.{turns}
use origin_ccl.Topology.{fill_transports}
use origin_ccl.Topology.P2p
use origin_ccl.Planner.StableSort.{insert, stable_sort}
use origin_ccl.Planner.Rounds.{p2p_round_of}
use origin_ccl.Planner.Peers.{same_machine, link_to, p2p_usable, validate_p2p, bad_message}
use origin_ccl.Planner.Batch.Planning.{
  plan_collectives, plan_rounds, plan_p2p_round, append_all, plan_batch,
}
use origin_ccl.Planner.Batch.Joining.{Result, Keeps}
use origin_ccl.Planner.Batch.Preparing.{HasSlot}
use origin_ccl.Planner.Batch.Prepared.{AreReady, prepare_round-Keeps}
use origin_ccl.Planner.Batch.Tally.{Content}
use origin_ccl.Planner.Batch.Counts.{Holds, plan_batch-Holds}
use origin_ccl.Planner.Batch.Plans.{IsPlanned, HasSlots, plan_batch-IsPlanned}

-- Transports are numbered in the order in which they are made, and each accepted one comes from rank 0.
abbrev network : Network
network = record {
  World = ℕ;
  shm_path = λ port peer. [];
  connect = λ link address port w. (some w, w + 1);
  send_rank = λ t rank w. (true, w);
  poll = λ listeners w. (Polled.ready (Event.pending ∷ []), w);
  accept = λ listener w. (some w, w + 1);
  recv_rank = λ t w. (some (pos 0), w);
}

abbrev site : Site
site = record {
  peers = record {
    rank = pos 1;
    world_size = pos 2;
    all_nodes = no_node ∷ no_node ∷ [];
    use_shm = true;
    rdma_ready = false;
  };
  port = 4000;
  listeners = 9 ∷ [];
}

abbrev channel : ℤ → Channel
channel id = record {
  id = id;
  ring = record { prev = pos 0; next = pos 0 };
  tree = record { parent = negsuc 0; children = []; star_peers = [] };
  send = [];
  recv = [];
  send_p2p = slots id true 2 0;
  recv_p2p = slots id false 2 0;
}

abbrev start : Joined network site
start = record { channels = channel (pos 0) ∷ channel (pos 1) ∷ []; world = 0 }

abbrev a_send : CollTask
a_send = record {
  func = CollFunc.send;
  send_buf = some 4096;
  recv_buf = none;
  count = 7;
  dtype = DataType.float32;
  op = ReduceOp.sum;
  root = pos 0;
  peer = pos 0;
}

abbrev a_recv : CollTask
a_recv = record a_send { func = CollFunc.recv; send_buf = none; recv_buf = some 8192 }

start-HasSlots : HasSlots network site start.channels
start-HasSlots (pos zero) low high = refl
start-HasSlots (pos (suc zero)) low high = refl
start-HasSlots (pos (suc (suc n))) low high = absurd (ground (arith, high))
start-HasSlots (negsuc n) low high = absurd (ground (arith, low))

plan_batch-IsPlanned_example :
    Result
      (IsPlanned network site start.channels)
      (plan_batch network site 3 (λ round. true ∷ false ∷ []) false (a_send ∷ a_recv ∷ []) start)
plan_batch-IsPlanned_example =
    plan_batch-IsPlanned network site 3 (λ round. true ∷ false ∷ []) false (a_send ∷ a_recv ∷ [])
      start start-HasSlots

send_has_slot :
    (peer : ℤ) → wants peer (a_send ∷ []) ≡ true → HasSlot network site peer start.channels
send_has_slot (pos zero) e = refl
send_has_slot (pos (suc n)) e = absurd (ground (arith, e))
send_has_slot (negsuc n) e = absurd (ground (arith, e))

prepare_round-Keeps_example :
    Result
      (Keeps network site start.channels (AreReady network site 3 (a_send ∷ []) (a_recv ∷ [])))
      (prepare_round network site 3 (false ∷ true ∷ []) (a_send ∷ []) (a_recv ∷ []) start)
prepare_round-Keeps_example =
    prepare_round-Keeps network site 3 (false ∷ true ∷ []) (a_send ∷ []) (a_recv ∷ []) start
      send_has_slot

-- The test asks for the buffer that is sent.
abbrev from_buffer : Content → Bool
from_buffer (func, (send_buf, rest)) = elim send_buf [
  | none ↦ false
  | some address ↦ address == 4096 && (func is CollFunc.send)
]

plan_batch-Holds_example :
    Result
      (Holds network site from_buffer (a_send ∷ a_recv ∷ []))
      (plan_batch network site 3 (λ round. true ∷ false ∷ []) false (a_send ∷ a_recv ∷ []) start)
plan_batch-Holds_example =
    plan_batch-Holds network site from_buffer 3 (λ round. true ∷ false ∷ []) (a_send ∷ a_recv ∷ [])
      start 1 2 refl refl (omega arith) (omega arith)

-- The channels have one task each.
abbrev is_planned : Ending (Joined network site × CollPlan) → Bool
is_planned (Ending.ok (j, plan)) = all (λ c. length c.tasks == 1) plan.channels
is_planned _ = false

batch_planned :
    is_planned
      (plan_batch network site 3 (λ round. true ∷ false ∷ []) false (a_send ∷ a_recv ∷ []) start)
    ≡ true
unfolding plan_batch plan_collectives plan_rounds plan_p2p_round prepare_round join_peers
    run_threads thread_round connect_p2p accept_p2p_one turns accept_turn connects_then_accepts
    each_peer append_all fill_transports P2p.fill_transports missing_peers stable_sort insert
    p2p_round_of link_to same_machine p2p_usable validate_p2p bad_message ◌-ℤ◌ ◌+ℤ◌ ◌%ℤ◌
batch_planned = refl
