-- ===== src/Topology/P2p.antt =====
-- The point-to-point topology, src/topology/topology_p2p.cpp: its slots and the transport of a task.
pub mod Stepping
pub mod Outcomes
mod Examples
use origin_ccl.Prelude.{
  ℕ, zero, suc, ◌+◌, Bool, true, false, Option, none, some, List, [], ◌∷◌, map, ◌==◌, if◌then◌else◌,
}
use origin_ccl.Prelude.Int.{ℤ, pos, pos_part}
use origin_ccl.Types.{Channel, Connector, PlanTask, CollFunc, TopoEdge}
use origin_ccl.Channels.{at_index}
use origin_ccl.Planner.Validate.{◌is◌}

-- The connectors of the peers from `peer` on, one for each of `n` rounds of the loop.
abbrev pub slots : ℤ → Bool → ℕ → ℕ → List Connector
slots channel_id is_send zero peer = []
slots channel_id is_send (suc n) peer =
    record { peer = pos peer; channel_id = channel_id; is_send = is_send; transport = none }
    ∷ slots channel_id is_send n (peer + 1)

abbrev pub fill_channel : ℤ → Channel → Channel
fill_channel world_size channel = record channel {
  send_p2p = slots channel.id true (pos_part world_size) 0;
  recv_p2p = slots channel.id false (pos_part world_size) 0;
}

unfoldable pub fill_channels : ℤ → List Channel → List Channel
fill_channels world_size = map (fill_channel world_size)

unfoldable pub fill_peers : Channel → List TopoEdge
fill_peers channel = []

-- The transport of a slot, a null pointer included. The index is not checked: a slot past the end,
-- which `ValidateP2p` rules out, is read here as an empty one.
abbrev pub slot_transport : Option Connector → Option ℕ
slot_transport none = none
slot_transport (some connector) = connector.transport

unfoldable pub fill_transports : Channel → PlanTask → PlanTask
fill_transports channel task =
    if task.elem_count == 0
    then record task { send_transports = []; recv_transports = [] }
    else if task.func is CollFunc.send
    then record task {
      send_transports = slot_transport (at_index channel.send_p2p task.peer) ∷ [];
      recv_transports = [];
    }
    else record task {
      send_transports = [];
      recv_transports = slot_transport (at_index channel.recv_p2p task.peer) ∷ [];
    }
