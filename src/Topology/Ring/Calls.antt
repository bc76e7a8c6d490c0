-- ===== src/Topology/Ring/Calls.antt =====
-- `CollectiveInit` and `CollectiveStep` of the ring with the functions of the five collectives,
-- src/topology/topology_ring.cpp.
use origin_ccl.Prelude.{
  ℕ, ◌+◌, ◌*◌, ◌%◌, ◌^◌, Bool, true, false, not, ◌&&◌, ◌||◌, ◌==◌, if◌then◌else◌,
}
use origin_ccl.Prelude.Int.{ℤ, pos, to_size, ltb_ℤ, eqb_ℤ, ◌+ℤ◌, ◌-ℤ◌, ◌%ℤ◌}
use origin_ccl.Types.{PlanTask, CollFunc, CollEvent}
use origin_ccl.Utils.{data_type_size}
use origin_ccl.Planner.Validate.{is_null}
use origin_ccl.Topology.Stepping.{
  Place, place_at, OpState, new_state, Wires, Run, ok, failed, ◌>>=◌, Turn, finish, turns, is_avg,
  is_empty, same_buffer,
}
use origin_ccl.Topology.Ring.Schedule.{Phase, allreduce_send_bytes, allreduce_recv_bytes}
use origin_ccl.Topology.Ring.Transfer.{
  cursor_of, block_bytes, block_at, allreduce_recv_ptr, allreduce_send_ptr, all_gather_send_ptr,
  all_gather_recv_ptr, reduce_scatter_send_ptr, reduce_scatter_recv_ptr, root_position, push_buffer,
}
use origin_ccl.Topology.Ring.Collectives.{
  St, is_finished, all_finished, total_ops, begin_allreduce, complete_allreduce, begin_broadcast,
  complete_broadcast, begin_all_gather, complete_all_gather, begin_reduce, complete_reduce,
  begin_reduce_scatter, complete_reduce_scatter,
}

-- More turns than a loop makes.
abbrev pub allowed : PlanTask → ℕ
allowed task = 2 * total_ops task + to_size task.world_size + 4

abbrev pub is_unstarted : Phase → Bool
is_unstarted Phase.unstarted = true
is_unstarted _ = false

abbrev pub bad_world : PlanTask → Bool
bad_world task = not (ltb_ℤ (pos 0) task.world_size)

abbrev pub root_outside : PlanTask → Bool
root_outside task = ltb_ℤ task.root (pos 0) || not (ltb_ℤ task.root task.world_size)

abbrev pub is_alone : PlanTask → Bool
is_alone task = eqb_ℤ task.world_size (pos 1)

abbrev pub no_transports : PlanTask → Bool
no_transports task = is_empty task.send_transports || is_empty task.recv_transports

-- `CollOpState{}`
abbrev pub fresh : OpState Phase
fresh = new_state Phase.unstarted

module _ (wires : Wires) where
  open wires use {World, copy, average}

  unfoldable pub allreduce_init : PlanTask → World → Run (St wires)
  allreduce_init task w =
      let type_size : ℕ = data_type_size task.dtype in
      let copied : World =
        if same_buffer task
        then w
        else copy (place_at task.recv_buf 0) (place_at task.send_buf 0)
            (task.elem_count * type_size % 2 ^ 64) w in
      let averaged : World =
        if is_avg task.reduce_op
        then average (place_at task.recv_buf 0) task.elem_count task.dtype task.world_size copied
        else copied in
      if bad_world task
      then failed
      else if task.elem_count == 0
      then ok (all_finished task fresh, w)
      else if is_null task.send_buf || is_null task.recv_buf
      then failed
      else if is_alone task
      then ok (record fresh { phase = Phase.finished }, averaged)
      else if no_transports task
      then failed
      else finish (
          begin_allreduce wires task (
            record fresh {
              phase = Phase.reduce_scatter;
              temp_size = task.chunk_size * type_size % 2 ^ 64;
            },
            copied,
          ))
        >>= λ st. turns (allowed task) (complete_allreduce wires task) st

  unfoldable pub broadcast_init : PlanTask → World → Run (St wires)
  broadcast_init task w =
      if bad_world task || root_outside task
      then failed
      else if task.elem_count == 0
      then ok (all_finished task fresh, w)
      else if is_null task.recv_buf
      then failed
      else if is_alone task
      then ok (all_finished task fresh, w)
      else if no_transports task
      then failed
      else finish (
          begin_broadcast wires task
            (if eqb_ℤ task.rank task.root then Phase.sending else Phase.receiving) (fresh, w))
        >>= λ st. turns (allowed task) (complete_broadcast wires task) st

  unfoldable pub all_gather_init : PlanTask → World → Run (St wires)
  all_gather_init task w =
      let copied : World =
        copy (block_at task task.recv_buf task.rank) (place_at task.send_buf 0) (block_bytes task)
          w in
      if bad_world task
      then failed
      else if task.elem_count == 0
      then ok (all_finished task fresh, w)
      else if is_null task.send_buf || is_null task.recv_buf
      then failed
      else if is_alone task
      then ok (all_finished task fresh, copied)
      else if no_transports task
      then failed
      else finish (begin_all_gather wires task Phase.exchange (fresh, copied)) >>= λ st.
          turns (allowed task) (complete_all_gather wires task) st

  unfoldable pub reduce_init : PlanTask → World → Run (St wires)
  reduce_init task w =
      if bad_world task || root_outside task
      then failed
      else if task.elem_count == 0
      then ok (all_finished task fresh, w)
      else if is_null task.send_buf || (eqb_ℤ task.rank task.root && is_null task.recv_buf)
      then failed
      else if is_alone task
      then ok (
        all_finished task fresh,
        copy (place_at task.recv_buf 0) (place_at task.send_buf 0) (block_bytes task) w,
      )
      else if no_transports task
      then failed
      else finish (
          begin_reduce wires task
            (if eqb_ℤ (root_position task) (pos 1) then Phase.sending else Phase.receiving)
            (
              record fresh { temp_size = 2 * block_bytes task % 2 ^ 64 },
              copy (Place.temp 0) (place_at task.send_buf 0) (block_bytes task) w,
            ))
        >>= λ st. turns (allowed task) (complete_reduce wires task) st

  unfoldable pub reduce_scatter_init : PlanTask → World → Run (St wires)
  reduce_scatter_init task w =
      let own : ℤ = (task.rank -ℤ pos 1 +ℤ task.world_size) %ℤ task.world_size in
      if bad_world task
      then failed
      else if task.elem_count == 0
      then ok (all_finished task fresh, w)
      else if is_null task.send_buf || is_null task.recv_buf
      then failed
      else if is_alone task
      then ok (
        all_finished task fresh,
        copy (place_at task.recv_buf 0) (place_at task.send_buf 0) (block_bytes task) w,
      )
      else if no_transports task
      then failed
      else finish (
          begin_reduce_scatter wires task Phase.exchange (
            record fresh { temp_size = block_bytes task },
            copy (place_at task.recv_buf 0) (block_at task task.send_buf own) (block_bytes task) w,
          ))
        >>= λ st. turns (allowed task) (complete_reduce_scatter wires task) st

  -- What the five `Step` functions share: initialise a task that was not, leave one that is finished,
  -- push what the event allows, and complete the step.
  unfoldable pub step_with :
      PlanTask
      → (World → Run (St wires))
      → (OpState Phase → Place)
      → (OpState Phase → Place)
      → (OpState Phase → ℕ)
      → (OpState Phase → ℕ)
      → (St wires → Turn (St wires))
      → CollEvent
      → St wires
      → Run (St wires)
  step_with task init from into send_bytes recv_bytes complete event (s, w) =
      (if is_unstarted s.phase then init w else ok (s, w)) >>= λ st.
      if is_finished st.0.phase
      then ok st
      else finish (
          push_buffer wires task event (from st.0) (into st.0) (send_bytes st.0) (recv_bytes st.0)
            st)
        >>= λ next. turns (allowed task) complete next

  unfoldable pub allreduce_step : PlanTask → CollEvent → St wires → Run (St wires)
  allreduce_step task =
      step_with task (allreduce_init task) (allreduce_send_ptr task) (allreduce_recv_ptr task)
        (λ (s : OpState Phase). allreduce_send_bytes task (cursor_of s))
        (λ (s : OpState Phase). allreduce_recv_bytes task (cursor_of s))
        (complete_allreduce wires task)

  unfoldable pub broadcast_step : PlanTask → CollEvent → St wires → Run (St wires)
  broadcast_step task =
      step_with task (broadcast_init task) (λ s. place_at task.recv_buf 0)
        (λ s. place_at task.recv_buf 0) (λ s. block_bytes task) (λ s. block_bytes task)
        (complete_broadcast wires task)

  unfoldable pub all_gather_step : PlanTask → CollEvent → St wires → Run (St wires)
  all_gather_step task =
      step_with task (all_gather_init task) (all_gather_send_ptr task) (all_gather_recv_ptr task)
        (λ s. block_bytes task) (λ s. block_bytes task) (complete_all_gather wires task)

  unfoldable pub reduce_step : PlanTask → CollEvent → St wires → Run (St wires)
  reduce_step task =
      step_with task (reduce_init task) (λ s. Place.temp 0) (λ s. Place.temp (block_bytes task))
        (λ s. block_bytes task) (λ s. block_bytes task) (complete_reduce wires task)

  unfoldable pub reduce_scatter_step : PlanTask → CollEvent → St wires → Run (St wires)
  reduce_scatter_step task =
      step_with task (reduce_scatter_init task) (reduce_scatter_send_ptr task)
        (reduce_scatter_recv_ptr task) (λ s. block_bytes task) (λ s. block_bytes task)
        (complete_reduce_scatter wires task)

  unfoldable pub collective_init : PlanTask → CollFunc → World → Run (St wires)
  collective_init task CollFunc.all_reduce w = allreduce_init task w
  collective_init task CollFunc.broadcast w = broadcast_init task w
  collective_init task CollFunc.all_gather w = all_gather_init task w
  collective_init task CollFunc.reduce w = reduce_init task w
  collective_init task CollFunc.reduce_scatter w = reduce_scatter_init task w
  collective_init task _ w = failed

  -- The function is the task's, `task.func`.
  unfoldable pub collective_step : PlanTask → CollFunc → CollEvent → St wires → Run (St wires)
  collective_step task CollFunc.all_reduce event st = allreduce_step task event st
  collective_step task CollFunc.broadcast event st = broadcast_step task event st
  collective_step task CollFunc.all_gather event st = all_gather_step task event st
  collective_step task CollFunc.reduce event st = reduce_step task event st
  collective_step task CollFunc.reduce_scatter event st = reduce_scatter_step task event st
  collective_step task _ event st = failed

abbrev pub collective_done : OpState Phase → Bool
collective_done s = is_finished s.phase
