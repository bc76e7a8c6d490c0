-- ===== src/Topology.antt =====
-- include/topology/topology.h: what a topology object does for the planner. A task holds the kind of
-- its topology, and a virtual call is a match on the kind.
pub mod Stepping
pub mod Ring
pub mod Tree
mod Examples
pub mod P2p
use origin_ccl.Types.{Channel, PlanTask, TopologyKind}

-- `topology->FillTransports(channel, task)`
unfoldable pub fill_transports : TopologyKind → Channel → PlanTask → PlanTask
fill_transports TopologyKind.ring channel task = Ring.fill_transports channel task
fill_transports TopologyKind.tree channel task = Tree.fill_transports channel task
fill_transports TopologyKind.p2p channel task = P2p.fill_transports channel task
