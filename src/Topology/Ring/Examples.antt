-- ===== src/Topology/Ring/Examples.antt =====
-- Collectives on the ring, in worlds whose transfers are done at once or never.
use origin_ccl.Prelude.{◌≡◌, ◌≢◌, ◌↔◌, true}
use origin_ccl.Types.{CollFunc, CollEvent}
use origin_ccl.Topology.Stepping.{failed, endless}
use origin_ccl.Topology.Stepping.Worlds.{instant, example_task, instant-IsRegime}
use origin_ccl.Topology.Ring.Calls.{fresh, collective_init, collective_step}
use origin_ccl.Topology.Ring.Promise.{is_refused}
use origin_ccl.Topology.Ring.Outcomes.{planned, collective_init-failed, collective-returns}

collective_init-failed_example :
    (collective_init instant example_task CollFunc.all_gather 0 ≡ failed)
    ↔ (is_refused example_task CollFunc.all_gather ≡ true)
collective_init-failed_example =
    collective_init-failed instant true example_task CollFunc.all_gather 0 instant-IsRegime

collective-returns_example :
    (collective_init instant example_task CollFunc.reduce_scatter 0 ≢ endless)
    × (collective_step instant example_task CollFunc.reduce_scatter CollEvent.readable (fresh, 0)
        ≢ endless)
collective-returns_example =
    collective-returns instant example_task CollFunc.reduce_scatter 0 CollEvent.readable (fresh, 0)
      (planned 0)
