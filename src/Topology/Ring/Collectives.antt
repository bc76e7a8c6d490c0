-- ===== src/Topology/Ring/Collectives.antt =====
-- The five collectives on the ring, src/topology/topology_ring.cpp. Each `complete_` function is the body of
-- the loop of the source's `Complete` function: one turn, when both sides of the step are done.
use origin_ccl.Prelude.{
  ℕ, ◌+◌, ◌*◌, ◌%◌, ◌^◌, Bool, true, false, not, ◌&&◌, Option, replicate, length, leb, ◌==◌,
  if◌then◌else◌,
}
use origin_ccl.Prelude.Int.{ℤ, pos, to_size, ltb_ℤ, eqb_ℤ, ◌+ℤ◌, ◌-ℤ◌, ◌%ℤ◌}
use origin_ccl.Types.{PlanTask}
use origin_ccl.Topology.Stepping.{
  Place, place_at, OpState, Wires, Turn, then_again, side_done, step_op, is_avg,
}
use origin_ccl.Topology.Ring.Schedule.{
  Phase, is_reduce_scatter, chunk_elem_count, allreduce_step_in_unit, allreduce_recv_chunk,
  allreduce_units, allreduce_send_bytes, allreduce_recv_bytes,
}
use origin_ccl.Topology.Ring.Transfer.{
  cursor_of, block_bytes, block_at, chunk_at, allreduce_recv_ptr, allreduce_send_ptr,
  all_gather_send_ptr, all_gather_recv_ptr, reduce_scatter_send_ptr, reduce_scatter_recv_ptr,
  reduce_scatter_input_chunk, begin_phase,
}

abbrev pub is_finished : Phase → Bool
is_finished Phase.finished = true
is_finished _ = false

abbrev pub is_receiving : Phase → Bool
is_receiving Phase.receiving = true
is_receiving _ = false

abbrev pub is_all_gather : Phase → Bool
is_all_gather Phase.all_gather = true
is_all_gather _ = false

-- The condition of each loop.
unfoldable pub goes_on : OpState Phase → Bool
goes_on s = side_done s.send_done && (side_done s.recv_done && not (is_finished s.phase))

-- `MarkAllDone`, in the phase that it leaves the task in.
unfoldable pub all_finished : PlanTask → OpState Phase → OpState Phase
all_finished task s = record s {
  phase = Phase.finished;
  send_done = replicate (length task.send_transports) true;
  recv_done = replicate (length task.recv_transports) true;
}

-- `units * (world_size - 1)`
unfoldable pub total_ops : PlanTask → ℕ
total_ops task = allreduce_units task * to_size (task.world_size -ℤ pos 1) % 2 ^ 64

-- Whether a step is followed by another one round the ring.
abbrev pub is_before_last : PlanTask → ℕ → Bool
is_before_last task step = ltb_ℤ (pos step) (task.world_size -ℤ pos 1)

module _ (wires : Wires) where
  open wires use {World, copy, reduce, average}

  abbrev pub St : Type 0
  St = OpState Phase × World

  unfoldable pub reduce_chunk : PlanTask → OpState Phase → World → World
  reduce_chunk task s w =
      let chunk : ℤ = allreduce_recv_chunk task (cursor_of s) in
      let count : ℕ = chunk_elem_count task.elem_count task.chunk_size chunk in
      let summed : World =
        reduce (Place.temp 0) (chunk_at task chunk) count task.dtype (step_op task.reduce_op) w in
      if is_avg task.reduce_op
        && eqb_ℤ (allreduce_step_in_unit task (cursor_of s)) (task.world_size -ℤ pos 2)
      then average (chunk_at task chunk) count task.dtype task.world_size summed
      else summed

  -- `BeginPhase` with what the state says of the step.
  unfoldable pub begin_allreduce : PlanTask → St → Option St
  begin_allreduce task (s, w) =
      begin_phase wires task s.phase (allreduce_send_ptr task s) (allreduce_recv_ptr task s)
        (allreduce_send_bytes task (cursor_of s)) (allreduce_recv_bytes task (cursor_of s)) (s, w)

  unfoldable pub complete_allreduce : PlanTask → St → Turn St
  complete_allreduce task (s, w) =
      let w' : World = if is_reduce_scatter s.phase then reduce_chunk task s w else w in
      let over : Bool = leb (total_ops task) (s.step + 1) in
      if not (goes_on s)
      then Turn.stop (s, w)
      else if is_reduce_scatter s.phase && over
      then then_again (begin_allreduce task (record s { phase = Phase.all_gather; step = 0 }, w'))
      else if is_all_gather s.phase && over
      then Turn.stop (record s { phase = Phase.finished; step = s.step + 1 }, w')
      else then_again (begin_allreduce task (record s { step = s.step + 1 }, w'))

  unfoldable pub begin_broadcast : PlanTask → Phase → St → Option St
  begin_broadcast task phase st =
      begin_phase wires task phase (place_at task.recv_buf 0) (place_at task.recv_buf 0)
        (block_bytes task) (block_bytes task) st

  unfoldable pub complete_broadcast : PlanTask → St → Turn St
  complete_broadcast task (s, w) =
      let passes_on : Bool =
        is_receiving s.phase && not (eqb_ℤ ((task.rank +ℤ pos 1) %ℤ task.world_size) task.root) in
      if not (goes_on s)
      then Turn.stop (s, w)
      else then_again
          (begin_broadcast task (if passes_on then Phase.sending else Phase.finished) (s, w))

  unfoldable pub begin_all_gather : PlanTask → Phase → St → Option St
  begin_all_gather task phase (s, w) =
      begin_phase wires task phase (all_gather_send_ptr task s) (all_gather_recv_ptr task s)
        (block_bytes task) (block_bytes task) (s, w)

  unfoldable pub complete_all_gather : PlanTask → St → Turn St
  complete_all_gather task (s, w) =
      if not (goes_on s)
      then Turn.stop (s, w)
      else then_again (
          begin_all_gather task
            (if is_before_last task (s.step + 1) then Phase.exchange else Phase.finished)
            (record s { step = s.step + 1 }, w))

  unfoldable pub begin_reduce : PlanTask → Phase → St → Option St
  begin_reduce task phase st =
      begin_phase wires task phase (Place.temp 0) (Place.temp (block_bytes task)) (block_bytes task)
        (block_bytes task) st

  -- What a rank does with the block that it has received.
  unfoldable pub reduce_received : PlanTask → World → World
  reduce_received task w =
      let summed : World =
        reduce (Place.temp (block_bytes task)) (Place.temp 0) task.elem_count task.dtype
          (step_op task.reduce_op) w in
      let copied : World =
        copy (place_at task.recv_buf 0) (Place.temp 0) (block_bytes task) summed in
      if not (eqb_ℤ task.rank task.root)
      then summed
      else if is_avg task.reduce_op
      then average (place_at task.recv_buf 0) task.elem_count task.dtype task.world_size copied
      else copied

  unfoldable pub complete_reduce : PlanTask → St → Turn St
  complete_reduce task (s, w) =
      let passes_on : Bool = is_receiving s.phase && not (eqb_ℤ task.rank task.root) in
      let w' : World = if is_receiving s.phase then reduce_received task w else w in
      if not (goes_on s)
      then Turn.stop (s, w)
      else then_again
          (begin_reduce task (if passes_on then Phase.sending else Phase.finished) (s, w'))

  unfoldable pub begin_reduce_scatter : PlanTask → Phase → St → Option St
  begin_reduce_scatter task phase (s, w) =
      begin_phase wires task phase (reduce_scatter_send_ptr task s) (reduce_scatter_recv_ptr task s)
        (block_bytes task) (block_bytes task) (s, w)

  -- The incoming block with this rank's own part. In the last step it goes to the user's buffer, if it is
  -- not there already: `incoming` is that buffer in an odd step.
  unfoldable pub reduce_incoming : PlanTask → OpState Phase → World → World
  reduce_incoming task s w =
      let incoming : Place = reduce_scatter_recv_ptr task s in
      let summed : World =
        reduce (block_at task task.send_buf (reduce_scatter_input_chunk task s)) incoming
          task.elem_count task.dtype (step_op task.reduce_op) w in
      let moved : World =
        if s.step % 2 == 0
        then copy (place_at task.recv_buf 0) incoming (block_bytes task) summed
        else summed in
      if is_before_last task (s.step + 1)
      then summed
      else if is_avg task.reduce_op
      then average (place_at task.recv_buf 0) task.elem_count task.dtype task.world_size moved
      else moved

  unfoldable pub complete_reduce_scatter : PlanTask → St → Turn St
  complete_reduce_scatter task (s, w) =
      let w' : World = reduce_incoming task s w in
      if not (goes_on s)
      then Turn.stop (s, w)
      else then_again (
          begin_reduce_scatter task
            (if is_before_last task (s.step + 1) then Phase.exchange else Phase.finished)
            (record s { step = s.step + 1 }, w'))
