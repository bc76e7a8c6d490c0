-- ===== src/Topology/P2p/Examples.antt =====
-- A receive whose transport is not done, and then is.
use origin_ccl.Prelude.{◌≡◌, refl, true, false, some, ◌∷◌, []}
use origin_ccl.Types.{PlanTask, CollFunc}
use origin_ccl.Topology.Stepping.{new_state, side_done}
use origin_ccl.Topology.Stepping.Worlds.{wires_of, example_task}
use origin_ccl.Topology.P2p.Stepping.{
  Phase, St, collective_done, collective_init, collective_step, push_recv, push_first, blank_state,
}
use origin_ccl.Topology.P2p.Outcomes.{own_side, inited, done-side_done}

abbrev receive : PlanTask
receive = record example_task { func = CollFunc.recv; send_transports = [] }

abbrev received : St (wires_of false true)
received = (record (new_state Phase.finished) { recv_progress = 20 ∷ []; recv_done = true ∷ [] }, 1)

receives : collective_init (wires_of false true) receive 0 ≡ some received
unfolding collective_init collective_step push_recv push_first blank_state
receives = refl

done-side_done_example : collective_done received.0 ≡ side_done (own_side receive received.0)
done-side_done_example =
    done-side_done (wires_of false true) receive received (refl, refl) refl
      (inited 0 received receives)
