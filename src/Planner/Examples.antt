-- ===== src/Planner/Examples.antt =====
-- A batch on two ranks, a collective cut over two channels, and a message of a round.
use mathlib.Core.List.{Perm}
use mathlib.Core.List.Perm
use origin_ccl.Prelude.{
  ℕ, ◌≡◌, ◌↔◌, ◌<◌, ◌≤◌, refl, true, false, some, List, [], ◌∷◌, ◌++◌, map, keep, length, arith,
}
use origin_ccl.Prelude.Int.{ℤ, pos, negsuc, ◌+ℤ◌, ◌-ℤ◌, ◌%ℤ◌}
use origin_ccl.Types.{CollFunc, CollTask, NodeInfo, DataType, ReduceOp, Channel, PlanTask}
use origin_ccl.Planner.StableSort.{insert, stable_sort}
use origin_ccl.Outcome.{ok}
use origin_ccl.Planner.Validate.{
  bad_communicator, bad_size, bad_op, bad_root, bad_total, bad_buffer, validate_collective_task,
}
use origin_ccl.Planner.Validate.Contract.{IsAccepted, validate_collective_task_lem}
use origin_ccl.Planner.Rounds.{p2p_round_of}
use origin_ccl.Planner.Rounds.Partners.{round_partner}
use origin_ccl.Planner.Sort.{
  sort_tasks, split_tasks, effective_op, effective_root, collective_less, p2p_less,
}
use origin_ccl.Planner.Sort.Agreement.{
  key, IsOrdered, sort_tasks-IsOrdered, sort_tasks-agree, toward, sort_tasks-fifo, collectives_of,
}
use origin_ccl.Planner.Peers.{Peers, Link, no_node, same_machine, link_to, validate_p2p, p2p_usable}
use origin_ccl.Planner.Peers.Messages.{IsMessage, validate_p2p_lem, link_to-agree}
use origin_ccl.Planner.Slices.Agreement.{with_buffers, shape, emit_collective_slices-agree}
use origin_ccl.Planner.Slices.{Comm, emit_collective_slices, new_plan}
use origin_ccl.Planner.Slices.Shares.{IsPlannable}
use origin_ccl.Planner.Slices.Tiling.{Tiles, emit_collective_slices-Tiles}

abbrev gather : CollTask
gather = record {
  func = CollFunc.all_gather;
  send_buf = some 4096;
  recv_buf = some 8192;
  count = 20000;
  dtype = DataType.float32;
  op = ReduceOp.sum;
  root = pos 0;
  peer = negsuc 0;
}

abbrev total : CollTask
total = record gather { func = CollFunc.all_reduce; count = 100000 }

abbrev to_first : CollTask
to_first = record gather { func = CollFunc.send; count = 7; peer = pos 0 }

abbrev from_first : CollTask
from_first = record gather { func = CollFunc.recv; count = 8; peer = pos 0 }

abbrev batch : List CollTask
batch = from_first ∷ gather ∷ to_first ∷ total ∷ []

abbrev sorted : List CollTask
sorted = total ∷ gather ∷ to_first ∷ from_first ∷ []

batch_sorts : sort_tasks batch (pos 1) (pos 2) ≡ some sorted
unfolding sort_tasks split_tasks validate_collective_task bad_communicator bad_size bad_op bad_root
    bad_total bad_buffer collective_less p2p_less p2p_round_of effective_op effective_root
    stable_sort insert ◌+ℤ◌ ◌-ℤ◌ ◌%ℤ◌
batch_sorts = refl

-- The same collectives in another order, on the first rank.
other_batch_sorts : sort_tasks (total ∷ gather ∷ []) (pos 0) (pos 2) ≡ some (total ∷ gather ∷ [])
unfolding sort_tasks split_tasks validate_collective_task bad_communicator bad_size bad_op bad_root
    bad_total bad_buffer collective_less p2p_less p2p_round_of effective_op effective_root
    stable_sort insert ◌+ℤ◌ ◌-ℤ◌ ◌%ℤ◌
other_batch_sorts = refl

sort_tasks-IsOrdered_example : IsOrdered (pos 1) (pos 2) batch sorted
sort_tasks-IsOrdered_example = sort_tasks-IsOrdered batch sorted (pos 1) (pos 2) batch_sorts

same_keys : Perm (map key (collectives_of batch)) (map key (collectives_of (total ∷ gather ∷ [])))
same_keys = Perm.swap (key total) (key gather) []

sort_tasks-agree_example :
    map key (collectives_of sorted) ≡ map key (collectives_of (total ∷ gather ∷ []))
sort_tasks-agree_example =
    sort_tasks-agree batch (total ∷ gather ∷ []) sorted (total ∷ gather ∷ []) (pos 1) (pos 0)
      (pos 2) batch_sorts other_batch_sorts same_keys

sort_tasks-fifo_example :
    keep (toward CollFunc.send (pos 0)) sorted ≡ keep (toward CollFunc.send (pos 0)) batch
sort_tasks-fifo_example =
    sort_tasks-fifo CollFunc.send (pos 0) batch sorted (pos 1) (pos 2) refl batch_sorts

validate_collective_task_lem_example :
    (validate_collective_task gather (pos 1) (pos 2) ≡ true) ↔ IsAccepted gather (pos 1) (pos 2)
validate_collective_task_lem_example = validate_collective_task_lem gather (pos 1) (pos 2)

round_partner_example :
    (p2p_round_of CollFunc.send (pos 1) (pos 3) (pos 4)
      ≡ p2p_round_of CollFunc.recv (pos 3) (pos 1) (pos 4))
    × ((p2p_round_of CollFunc.send (pos 1) (pos 3) (pos 4) ≡ pos 2)
        ↔ ((0 < 2) × (2 < 4) × (◌≡◌ {A = ℕ} 3 3)))
    × ((p2p_round_of CollFunc.recv (pos 1) (pos 3) (pos 4) ≡ pos 2)
        ↔ ((0 < 2) × (2 < 4) × (◌≡◌ {A = ℕ} 3 3)))
round_partner_example = round_partner 1 3 4 2 (omega arith) (omega arith) (omega arith)

abbrev idle : ℤ → Channel
idle id = record {
  id = id;
  ring = record { prev = negsuc 0; next = negsuc 0 };
  tree = record { parent = negsuc 0; children = []; star_peers = [] };
  send = [];
  recv = [];
  send_p2p = [];
  recv_p2p = [];
}

abbrev comm : Comm
comm = record { rank = pos 1; world_size = pos 2; channels = idle (pos 0) ∷ idle (pos 1) ∷ [] }

comm-IsPlannable : IsPlannable comm total
comm-IsPlannable = record {
  world = omega arith;
  world_fits = omega arith;
  typed = omega arith;
  fits = omega arith;
  has_channel = omega arith;
}

emit_collective_slices-Tiles_example :
    (slices : List PlanTask) × (emit_collective_slices comm total (new_plan 2) false
      ≡ ok (record (new_plan 2) { slices = (new_plan 2).slices ++ slices }))
    × (0 < length slices)
    × (length slices ≤ length comm.channels)
    × Tiles comm total 0 slices
emit_collective_slices-Tiles_example =
    emit_collective_slices-Tiles comm total (new_plan 2) comm-IsPlannable

-- Two machines with the hostnames 1 and 2, the first with ranks 0 and 1.
abbrev machine : ℕ → ℤ → NodeInfo
machine name rank = record no_node { rank = rank; hostname = name ∷ []; p2p_rdma_port = 7 }

abbrev nodes : List NodeInfo
nodes = machine 1 (pos 0) ∷ machine 1 (pos 1) ∷ machine 2 (pos 2) ∷ []

abbrev seen_by : ℤ → Peers
seen_by rank = record {
  rank = rank;
  world_size = pos 3;
  all_nodes = nodes;
  use_shm = true;
  rdma_ready = true;
}

validate_p2p_lem_example :
    (validate_p2p (seen_by (pos 1)) to_first ≡ true) ↔ IsMessage (seen_by (pos 1)) to_first
validate_p2p_lem_example = validate_p2p_lem (seen_by (pos 1)) to_first

neighbours_share_memory : link_to (seen_by (pos 0)) (pos 1) ≡ Link.shm
unfolding link_to same_machine
neighbours_share_memory = refl

link_to-agree_example :
    (link_to (seen_by (pos 0)) (pos 2) ≡ link_to (seen_by (pos 2)) (pos 0))
    × (p2p_usable (seen_by (pos 0)) (pos 2) ≡ p2p_usable (seen_by (pos 2)) (pos 0))
link_to-agree_example = link_to-agree (seen_by (pos 0)) (seen_by (pos 2)) refl refl refl

abbrev first_comm : Comm
first_comm = record comm { rank = pos 0 }

emit_collective_slices-agree_example :
    (l : List PlanTask) × (m : List PlanTask) × (emit_collective_slices comm total
        (new_plan 2)
        false
      ≡ ok (record (new_plan 2) { slices = (new_plan 2).slices ++ l }))
    × (emit_collective_slices first_comm (with_buffers total (some 16) (some 32)) (new_plan 2) false
        ≡ ok (record (new_plan 2) { slices = (new_plan 2).slices ++ m }))
    × (map shape l ≡ map shape m)
emit_collective_slices-agree_example =
    emit_collective_slices-agree comm first_comm total (some 16) (some 32) (new_plan 2) (new_plan 2)
      refl refl (omega arith)
