-- ===== src/Topology/Examples.antt =====
-- Five machines, four ranks in a ring, and a leader whose peers all have transports.
use origin_ccl.Prelude.{
  ℕ, ◌≡◌, ◌↔◌, ◌⊎◌, refl, Bool, true, false, some, List, [], ◌∷◌, map, All, arith,
}
use origin_ccl.Prelude.Int.{ℤ, pos, negsuc}
use origin_ccl.Types.{Channel, Connector, new_plan_task}
use origin_ccl.Topology.Tree
use origin_ccl.Topology.Tree.{Machines, heap_of, tree_peers, roles_of}
use origin_ccl.Topology.Tree.Heaps.{heap-agree, climb, climb-connected, root_of}
use origin_ccl.Topology.Tree.Slots.{IsConnected, AreRolesOf, edges_at, fill_transports-aligned}

heap-agree_example :
    ((heap_of true 5 2).parent ≡ some 3)
    ↔ (((heap_of true 5 3).child0 ≡ 2) ⊎ ((heap_of true 5 3).child1 ≡ 2))
heap-agree_example = heap-agree true 5 3 2 (omega arith) (omega arith)

climb-connected_example : climb true 5 5 0 ≡ root_of true 5
climb-connected_example = climb-connected true 5 0 (omega arith)

-- Every rank below 4 has a connector each way, with the transport of its number.
abbrev connector : ℤ → Bool → ℕ → Connector
connector id is_send peer = record {
  peer = pos peer;
  channel_id = id;
  is_send = is_send;
  transport = some peer;
}

abbrev connectors : ℤ → Bool → List Connector
connectors id is_send = map (connector id is_send) (0 ∷ 1 ∷ 2 ∷ 3 ∷ [])

abbrev wired : Channel
wired = record {
  id = pos 1;
  ring = record { prev = negsuc 0; next = negsuc 0 };
  tree = record { parent = negsuc 0; children = []; star_peers = [] };
  send = connectors (pos 1) true;
  recv = connectors (pos 1) false;
  send_p2p = [];
  recv_p2p = [];
}

-- The leader of the first of two machines with two ranks each.
abbrev leader : Machines
leader = record {
  local_rank = 0;
  local_ranks = pos 0 ∷ pos 1 ∷ [];
  machine_index = 0;
  machine_count = 2;
  machine_leaders = pos 0 ∷ pos 2 ∷ [];
}

abbrev transport_of : ℤ → ℕ
transport_of (pos n) = n
transport_of (negsuc n) = 0

abbrev filled : Channel
filled = Tree.fill_channel leader wired

leader-IsConnected : All (IsConnected filled transport_of transport_of) (tree_peers filled)
unfolding Tree.fill_channel Tree.star_peers_of Tree.children_of Tree.parent_of heap_of
leader-IsConnected =
    (record { to_peer = refl; from_peer = refl }, (record { to_peer = refl; from_peer = refl }, tt))

fill_transports-aligned_example :
    (edges_at true (Tree.fill_peers filled) ≡ tree_peers filled)
    × (edges_at false (Tree.fill_peers filled) ≡ tree_peers filled)
    × ((Tree.fill_transports filled new_plan_task).send_transports
        ≡ map (λ p. some (transport_of p)) (tree_peers filled))
    × ((Tree.fill_transports filled new_plan_task).recv_transports
        ≡ map (λ p. some (transport_of p)) (tree_peers filled))
    × AreRolesOf filled (roles_of leader wired) (tree_peers filled)
fill_transports-aligned_example =
    fill_transports-aligned leader wired new_plan_task transport_of transport_of leader-IsConnected
