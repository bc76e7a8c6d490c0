-- ===== src/Topology/Ring/Schedule/Examples.antt =====
-- An AllReduce of 100 elements on four ranks, in chunks of ten.
use origin_ccl.Prelude.{ℕ, ◌*◌, ◌<◌, ◌≡◌, inl, refl, true, length, arith}
use origin_ccl.Prelude.Int.{pos, ◌-ℤ◌, ◌+ℤ◌, ◌*ℤ◌, ◌/ℤ◌, ◌%ℤ◌}
use origin_ccl.Types.{PlanTask, new_plan_task}
use origin_ccl.Topology.Ring.Schedule.{
  Phase, allreduce_unit, allreduce_step_in_unit, allreduce_send_chunk, allreduce_recv_chunk,
  allreduce_send_bytes, allreduce_recv_bytes, allreduce_units,
}
use origin_ccl.Topology.Ring.Schedule.Places.{at_rank, cursor}
use origin_ccl.Topology.Ring.Schedule.Steps.{at_next, allreduce-agree}
use origin_ccl.Topology.Ring.Schedule.Reduced.{times, reduced, last_chunk, reduced-once}
use origin_ccl.Topology.Ring.Schedule.Gathered.{gathered, gathered-all}
use origin_ccl.Topology.Ring.Schedule.Cover.{covered, covered-all}

abbrev hundred : PlanTask
hundred = record new_plan_task { elem_count = 100; chunk_size = 10 }

-- Rank 1 starts the second unit with the fifth chunk after the unit's first.
second_unit : allreduce_send_chunk (at_rank hundred 4 1) (cursor Phase.reduce_scatter 4 1 0) ≡ pos 5
unfolding allreduce_send_chunk allreduce_unit allreduce_step_in_unit ◌-ℤ◌ ◌+ℤ◌ ◌*ℤ◌ ◌/ℤ◌ ◌%ℤ◌
second_unit = refl

allreduce-agree_example :
    (allreduce_send_chunk (at_rank hundred 4 3) (cursor Phase.reduce_scatter 4 1 2)
      ≡ allreduce_recv_chunk (at_next hundred 4 3) (cursor Phase.reduce_scatter 4 1 2))
    × (allreduce_send_bytes (at_rank hundred 4 3) (cursor Phase.reduce_scatter 4 1 2)
        ≡ allreduce_recv_bytes (at_next hundred 4 3) (cursor Phase.reduce_scatter 4 1 2))
allreduce-agree_example =
    allreduce-agree hundred 4 1 2 3 (omega arith) (omega arith) Phase.reduce_scatter (inl refl)

reduced-once_example :
    (times 1 (reduced hundred 4 2 3 0 (last_chunk hundred 4 2 0)) ≡ 1)
    × (length (reduced hundred 4 2 3 0 (last_chunk hundred 4 2 0)) ≡ 4)
reduced-once_example = reduced-once hundred 4 2 0 1 (omega arith) (omega arith) (omega arith)

gathered-all_example : gathered hundred 4 2 3 0 (pos 10) ≡ true
gathered-all_example = gathered-all hundred 4 2 0 2 (omega arith) (omega arith) (omega arith)

covered-all_example :
    (covered 100 10 (allreduce_units (record hundred { world_size = pos 4 }) * 4) ≡ 100)
    × ((k : ℕ)
        → k < allreduce_units (record hundred { world_size = pos 4 })
        → covered 100 10 (k * 4) < 100)
covered-all_example = covered-all hundred 4 (omega arith) (omega arith)
