-- ===== src/Topology/Tree.antt =====
-- The shape of the trees, src/topology/topology_tree.cpp: inside a machine a star round its leader, and
-- between the leaders two binary heaps, one the mirror image of the other.
pub mod Heaps
pub mod Slots
pub mod Stepping
pub mod Calls
pub mod Edges
pub mod Bounds
pub mod Pipeline
pub mod Chunks
pub mod Progress
pub mod Order
pub mod Scratch
pub mod Outcomes
mod Examples
use origin_ccl.Prelude.{
  ℕ, ◌+◌, ◌-◌, ◌*◌, ◌/◌, ◌%◌, Bool, true, false, not, Option, none, some, List, [], ◌∷◌, ◌++◌, map,
  get_or, drop, length, replicate, ltb, ◌==◌, if◌then◌else◌,
}
use origin_ccl.Prelude.Int.{ℤ, pos, negsuc, pos_part, ltb_ℤ}
use origin_ccl.Types.{Channel, PlanTask, TopoEdge}
use origin_ccl.Channels.{send_connector, recv_connector, connected}

pub data Role : Type 0 where
  star tree_down tree_up : Role

-- What `FillChannels` reads of the communicator. The indices are those of existing machines, so they
-- are numbers; an entry of `machine_leaders` is a rank.
pub record Machines : Type 0 where
  pub local_rank : ℕ
  pub local_ranks : List ℤ
  pub machine_index : ℕ
  pub machine_count : ℕ
  pub machine_leaders : List ℤ

-- The neighbours of a machine in one of the trees: `none` is the -1 of a root.
pub record Heap : Type 0 where
  pub parent : Option ℕ
  pub child0 : ℕ
  pub child1 : ℕ

-- The formulas of the loop over the channels. A child that is not below `machine_count` is none.
unfoldable pub heap_of : Bool → ℕ → ℕ → Heap
heap_of mirrored machine_count machine_index =
    let node : ℕ = if mirrored then machine_count - 1 - machine_index else machine_index in
    let parent_node : Option ℕ = if node == 0 then none else some ((node - 1) / 2) in
    let child0 : ℕ = 2 * node + 1 in
    let child1 : ℕ = 2 * node + 2 in
    if mirrored
    then record {
      parent = elim parent_node [ none ↦ none | some p ↦ some (machine_count - 1 - p) ];
      child0 = if ltb child0 machine_count then machine_count - 1 - child0 else machine_count;
      child1 = if ltb child1 machine_count then machine_count - 1 - child1 else machine_count;
    }
    else record { parent = parent_node; child0 = child0; child1 = child1 }

is_leader : Machines → Bool
is_leader m = m.local_rank == 0

-- `machine_leaders[node]`, at an index that the tests have checked.
abbrev pub leader_at : Machines → ℕ → ℤ
leader_at m node = get_or m.machine_leaders node (negsuc 0)

abbrev pub if_child : Machines → ℕ → List ℤ
if_child m child = if ltb child m.machine_count then leader_at m child ∷ [] else []

unfoldable pub star_peers_of : Machines → List ℤ
star_peers_of m =
    if m.local_rank == 0 then drop 1 m.local_ranks else get_or m.local_ranks 0 (negsuc 0) ∷ []

unfoldable pub children_of : Machines → Bool → List ℤ
unfolding heap_of
children_of m mirrored =
    if m.local_rank == 0
    then (let h : Heap = heap_of mirrored m.machine_count m.machine_index in
        if_child m h.child0 ++ if_child m h.child1)
    else []

unfoldable pub parent_of : Machines → Bool → ℤ
unfolding heap_of
parent_of m mirrored =
    if m.local_rank == 0
    then elim (heap_of mirrored m.machine_count m.machine_index).parent [
      | none ↦ negsuc 0
      | some p ↦ leader_at m p
    ]
    else negsuc 0

-- `channel.id % 2 != 0`; channel ids are not negative.
abbrev pub is_mirrored : Channel → Bool
is_mirrored channel = not (pos_part channel.id % 2 == 0)

unfoldable pub fill_channel : Machines → Channel → Channel
fill_channel m channel = record channel {
  tree = record {
    parent = parent_of m (is_mirrored channel);
    children = children_of m (is_mirrored channel);
    star_peers = star_peers_of m;
  };
}

unfoldable pub fill_channels : Machines → List Channel → List Channel
fill_channels m = map (fill_channel m)

-- `channel_roles_[channel.id]`, as the loop fills it for a channel.
unfoldable pub roles_of : Machines → Channel → List Role
roles_of m channel =
    let tree = (fill_channel m channel).tree in
    if m.local_rank == 0
    then replicate (length tree.star_peers) Role.star
      ++ (replicate (length tree.children) Role.tree_down
          ++ (if ltb_ℤ tree.parent (pos 0) then [] else Role.tree_up ∷ []))
    else Role.star ∷ []

-- The order in which `FillPeers` and `FillTransports` visit the peers of a channel.
abbrev pub tree_peers : Channel → List ℤ
tree_peers channel =
    channel.tree.star_peers
    ++ (channel.tree.children
        ++ (if ltb_ℤ channel.tree.parent (pos 0) then [] else channel.tree.parent ∷ []))

abbrev pub both_edges : List ℤ → List TopoEdge
both_edges [] = []
both_edges (peer ∷ peers) =
    record { peer = peer; is_send = true }
    ∷ record { peer = peer; is_send = false }
    ∷ both_edges peers

unfoldable pub fill_peers : Channel → List TopoEdge
fill_peers channel = both_edges (tree_peers channel)

abbrev pub send_side : Channel → List ℤ → List (Option ℕ)
send_side channel [] = []
send_side channel (peer ∷ peers) =
    connected (send_connector channel peer) ++ send_side channel peers

abbrev pub recv_side : Channel → List ℤ → List (Option ℕ)
recv_side channel [] = []
recv_side channel (peer ∷ peers) =
    connected (recv_connector channel peer) ++ recv_side channel peers

unfoldable pub fill_transports : Channel → PlanTask → PlanTask
fill_transports channel task = record task {
  send_transports = send_side channel (tree_peers channel);
  recv_transports = recv_side channel (tree_peers channel);
}
