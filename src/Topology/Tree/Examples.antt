-- ===== src/Topology/Tree/Examples.antt =====
-- AllReduce on the tree, in worlds whose transfers are done at once, or which only receive.
use origin_ccl.Prelude.Int.{pos, negsuc}
use origin_ccl.Topology.Tree.Scratch.{scratch_offset-scratch_size}
use origin_ccl.Prelude.{◌+◌, ◌≡◌, ◌≢◌, ◌↔◌, ◌≤◌, refl, arith, true, false, some, List, [], ◌∷◌}
use origin_ccl.Types.{Channel, PlanTask, CollEvent}
use origin_ccl.Topology.Stepping.{new_state, ok, failed, endless, turns}
use origin_ccl.Topology.Stepping.Regime.{IsRegime}
use origin_ccl.Topology.Stepping.Worlds.{wires_of, instant, example_task, state_of}
use origin_ccl.Topology.Tree.{
  Role, Machines, roles_of, fill_channel, star_peers_of, children_of, parent_of, heap_of,
}
use origin_ccl.Topology.Tree.Stepping.{
  scratch_offset, chunk_bytes, Phase, St, is_unstarted, is_up, chunk_count, push_chunks, push_edges,
  recv_eligible, send_eligible, send_gate, min_input, all_reached, up_complete,
}
use origin_ccl.Topology.Tree.Calls.{
  scratch_size, blank_side, blank_state, recv_edges, send_edges, push_recvs, push_sends, push_both,
  push_and_advance, advance, advance_turn, tree_init, collective_init, collective_step,
}
use origin_ccl.Topology.Tree.Pipeline.{IsPiped}
use origin_ccl.Topology.Tree.Outcomes.{
  is_refused, HasRoles, Reached, planned, inited, tree_collective-returns, Reached-IsPiped,
  sent-received, tree_collective_init-failed,
}

-- A leader with a star peer, a child and a parent.
abbrev roles : List Role
roles = Role.star ∷ Role.tree_down ∷ Role.tree_up ∷ []

abbrev leader_task : PlanTask
leader_task = record example_task {
  send_transports = some 1 ∷ some 2 ∷ some 3 ∷ [];
  recv_transports = some 4 ∷ some 5 ∷ some 6 ∷ [];
}

leader-HasRoles : HasRoles leader_task roles
leader-HasRoles = record { send_roles = refl; recv_roles = refl }

leader-IsRegime : IsRegime instant ⊥ true leader_task
leader-IsRegime = record {
  sends = λ t place size progress w i. refl;
  recvs = λ t place size progress w i. refl;
  send_there = (λ e. ground (arith, e), (λ e. ground (arith, e), (λ e. ground (arith, e), tt)));
  recv_there = (λ e. ground (arith, e), (λ e. ground (arith, e), (λ e. ground (arith, e), tt)));
}

tree_collective_init-failed_example :
    (collective_init instant leader_task roles true 0 ≡ failed) ↔ (is_refused leader_task ≡ true)
tree_collective_init-failed_example =
    tree_collective_init-failed instant true leader_task roles true 0 leader-HasRoles
      leader-IsRegime

tree_collective-returns_example :
    (collective_init instant leader_task roles true 0 ≢ endless)
    × (collective_step instant leader_task roles true CollEvent.readable
          (new_state Phase.unstarted, 0)
        ≢ endless)
tree_collective-returns_example =
    tree_collective-returns instant leader_task roles true leader-HasRoles 0 CollEvent.readable
      (new_state Phase.unstarted, 0) (planned 0)

-- All inputs are there, and the send to the parent waits.
abbrev receiver : St (wires_of false true)
receiver =
    state_of (new_state Phase.unstarted, 0)
      (collective_init (wires_of false true) leader_task roles true 0)

receives :
    (collective_init (wires_of false true) leader_task roles true 0 ≡ ok receiver)
    × (is_unstarted receiver.0.phase ≡ false)
    × (is_up receiver.0.phase ≡ true)
    × (receiver.0.recv_chunk ≡ 3 ∷ 3 ∷ 0 ∷ [])
    × (receiver.0.send_chunk ≡ 0 ∷ 0 ∷ 0 ∷ [])
unfolding collective_init tree_init blank_state blank_side push_and_advance push_both push_recvs
    push_sends recv_edges send_edges push_edges push_chunks chunk_count recv_eligible send_eligible
    send_gate min_input all_reached up_complete advance turns advance_turn
receives = (refl, refl, refl, refl, refl)

receiver-Reached : Reached (wires_of false true) leader_task roles true receiver
receiver-Reached = inited 0 receiver receives.0

Reached-IsPiped_example : IsPiped leader_task roles true receiver.0
Reached-IsPiped_example =
    Reached-IsPiped (wires_of false true) leader_task roles true leader-HasRoles receiver
      receiver-Reached receives.1

sent-received_example : 0 ≤ 3
sent-received_example =
    sent-received (wires_of false true) leader_task roles leader-HasRoles receiver 1 2 3 0
      Role.tree_down receiver-Reached receives.2 refl refl (rw receives.3 refl) refl
      (rw receives.4 refl)

-- Two ranks on one machine, of which the first leads.
abbrev pair : Machines
pair = record {
  local_rank = 0;
  local_ranks = pos 0 ∷ pos 1 ∷ [];
  machine_index = 0;
  machine_count = 1;
  machine_leaders = pos 0 ∷ [];
}

abbrev bare : Channel
bare = record {
  id = pos 0;
  ring = record { prev = negsuc 0; next = negsuc 0 };
  tree = record { parent = negsuc 0; children = []; star_peers = [] };
  send = [];
  recv = [];
  send_p2p = [];
  recv_p2p = [];
}

pair_roles : roles_of pair bare ≡ Role.star ∷ []
unfolding roles_of fill_channel star_peers_of children_of parent_of heap_of
pair_roles = refl

scratch_offset-scratch_size_example :
    scratch_offset example_task 0 + chunk_bytes example_task 1
    ≤ scratch_size example_task (roles_of pair bare)
scratch_offset-scratch_size_example =
    scratch_offset-scratch_size pair bare example_task 0 1 Role.star (rw pair_roles refl) refl
      (rw pair_roles (omega arith))
