-- ===== src/Topology/Ring.antt =====
-- The shape of the ring, src/topology/topology_ring.cpp: neighbours, edges, transports.
pub mod Cycle
pub mod Schedule
pub mod Transfer
pub mod Collectives
pub mod Calls
pub mod Sides
pub mod Measures
pub mod Ending
pub mod Promise
pub mod Progress
pub mod Outcomes
mod Examples
use origin_ccl.Prelude.{Bool, true, false, List, [], ◌∷◌, map}
use origin_ccl.Prelude.Int.{ℤ, pos, ◌+ℤ◌, ◌-ℤ◌, ◌%ℤ◌}
use origin_ccl.Types.{Channel, PlanTask, TopoEdge}
use origin_ccl.Channels.{send_connector, recv_connector, connected}

unfoldable pub get_prev_rank : ℤ → ℤ → ℤ
get_prev_rank world_size r = (r -ℤ pos 1 +ℤ world_size) %ℤ world_size

unfoldable pub get_next_rank : ℤ → ℤ → ℤ
get_next_rank world_size r = (r +ℤ pos 1) %ℤ world_size

-- `rank` and `world_size` are fields of the topology object.
unfoldable pub fill_channel : ℤ → ℤ → Channel → Channel
fill_channel rank world_size channel = record channel {
  ring = record { prev = get_prev_rank world_size rank; next = get_next_rank world_size rank };
}

unfoldable pub fill_channels : ℤ → ℤ → List Channel → List Channel
fill_channels rank world_size = map (fill_channel rank world_size)

unfoldable pub fill_peers : Channel → List TopoEdge
fill_peers channel =
    record { peer = channel.ring.next; is_send = true }
    ∷ record { peer = channel.ring.prev; is_send = false }
    ∷ []

unfoldable pub fill_transports : Channel → PlanTask → PlanTask
fill_transports channel task = record task {
  send_transports = connected (send_connector channel channel.ring.next);
  recv_transports = connected (recv_connector channel channel.ring.prev);
}
