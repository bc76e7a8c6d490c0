-- ===== src/Topology/Ring/Schedule.antt =====
-- Which chunk an AllReduce on the ring sends and receives in which step, src/topology/topology_ring.cpp.
pub mod Places
pub mod Steps
pub mod Reduced
pub mod Gathered
pub mod Cover
mod Examples
use origin_ccl.Prelude.{
  ℕ, zero, suc, ◌+◌, ◌-◌, ◌*◌, ◌/◌, ◌%◌, ◌^◌, min, Bool, true, false, leb, ◌==◌, if◌then◌else◌,
}
use origin_ccl.Prelude.Int.{ℤ, pos, to_size, ◌+ℤ◌, ◌-ℤ◌, ◌*ℤ◌, ◌/ℤ◌, ◌%ℤ◌}
use origin_ccl.Types.{PlanTask}
use origin_ccl.Utils.{data_type_size}

-- The `kPhase` constants.
pub data Phase : Type 0 where
  unstarted reduce_scatter all_gather finished sending receiving exchange : Phase

abbrev pub is_reduce_scatter : Phase → Bool
is_reduce_scatter Phase.reduce_scatter = true
is_reduce_scatter _ = false

-- `state.phase` and `state.algo.ring.step`, which starts at 0 and only grows.
pub record Cursor : Type 0 where
  pub phase : Phase
  pub step : ℕ

unfoldable pub chunk_elem_count : ℕ → ℕ → ℤ → ℕ
chunk_elem_count count chunk_size chunk_index =
    let start : ℕ = to_size chunk_index * chunk_size % 2 ^ 64 in
    if leb count start then 0 else min chunk_size (count - start)

unfoldable pub allreduce_unit : PlanTask → Cursor → ℤ
allreduce_unit task cursor = pos cursor.step /ℤ (task.world_size -ℤ pos 1)

unfoldable pub allreduce_step_in_unit : PlanTask → Cursor → ℤ
allreduce_step_in_unit task cursor = pos cursor.step %ℤ (task.world_size -ℤ pos 1)

unfoldable pub allreduce_send_chunk : PlanTask → Cursor → ℤ
allreduce_send_chunk task cursor =
    let step : ℤ = allreduce_step_in_unit task cursor in
    let chunk : ℤ =
      if is_reduce_scatter cursor.phase
      then (task.rank -ℤ step +ℤ task.world_size) %ℤ task.world_size
      else (task.rank -ℤ step +ℤ pos 1 +ℤ task.world_size) %ℤ task.world_size in
    allreduce_unit task cursor *ℤ task.world_size +ℤ chunk

unfoldable pub allreduce_recv_chunk : PlanTask → Cursor → ℤ
allreduce_recv_chunk task cursor =
    let step : ℤ = allreduce_step_in_unit task cursor in
    let chunk : ℤ =
      if is_reduce_scatter cursor.phase
      then (task.rank -ℤ step +ℤ task.world_size -ℤ pos 1) %ℤ task.world_size
      else (task.rank -ℤ step +ℤ task.world_size) %ℤ task.world_size in
    allreduce_unit task cursor *ℤ task.world_size +ℤ chunk

unfoldable pub allreduce_units : PlanTask → ℕ
allreduce_units task =
    let per_unit : ℕ = task.chunk_size * to_size task.world_size % 2 ^ 64 in
    if per_unit == 0 then 0 else (task.elem_count + per_unit + (2 ^ 64 - 1)) % 2 ^ 64 / per_unit

unfoldable pub allreduce_send_bytes : PlanTask → Cursor → ℕ
allreduce_send_bytes task cursor =
    chunk_elem_count task.elem_count task.chunk_size (allreduce_send_chunk task cursor)
    * data_type_size task.dtype
    % 2 ^ 64

unfoldable pub allreduce_recv_bytes : PlanTask → Cursor → ℕ
allreduce_recv_bytes task cursor =
    chunk_elem_count task.elem_count task.chunk_size (allreduce_recv_chunk task cursor)
    * data_type_size task.dtype
    % 2 ^ 64
