-- ===== src/Planner/Validate.antt =====
-- `ValidateCollectiveTask` of src/planner.cpp with the predicates on tasks that it uses.
pub mod Contract
use origin_ccl.Prelude.{
  ℕ, ◌-◌, ◌/◌, ◌^◌, Bool, true, false, not, ◌&&◌, ◌||◌, Option, none, some, ltb, ◌==◌,
  if◌then◌else◌,
}
use origin_ccl.Prelude.Int.{ℤ, pos, ltb_ℤ, to_size}
use origin_ccl.Types.{CollFunc, ReduceOp, CollTask, func_code}
use origin_ccl.Utils.{data_type_size}

abbrev pub is_p2p : CollFunc → Bool
is_p2p CollFunc.send = true
is_p2p CollFunc.recv = true
is_p2p _ = false

abbrev pub is_collective : CollFunc → Bool
is_collective CollFunc.all_reduce = true
is_collective CollFunc.broadcast = true
is_collective CollFunc.reduce = true
is_collective CollFunc.all_gather = true
is_collective CollFunc.reduce_scatter = true
is_collective _ = false

abbrev pub is_reduce_op : ReduceOp → Bool
is_reduce_op (ReduceOp.other n) = false
is_reduce_op _ = true

infix 50 ◌is◌
abbrev pub ◌is◌ : CollFunc → CollFunc → Bool
f is g = func_code f == func_code g

abbrev pub is_null : Option ℕ → Bool
is_null none = true
is_null (some p) = false

abbrev pub size_max : ℕ
size_max = 2 ^ 64 - 1

-- The `is_reduce`, `has_root` and gather tests that the function names or writes out.
abbrev pub is_reduce : CollFunc → Bool
is_reduce f = f is CollFunc.all_reduce || (f is CollFunc.reduce || f is CollFunc.reduce_scatter)

abbrev pub has_root : CollFunc → Bool
has_root f = f is CollFunc.broadcast || f is CollFunc.reduce

abbrev pub has_blocks : CollFunc → Bool
has_blocks f = f is CollFunc.all_gather || f is CollFunc.reduce_scatter

unfoldable pub bad_communicator : CollTask → ℤ → ℤ → Bool
bad_communicator task rank world_size =
    not (is_collective task.func)
    || (not (ltb_ℤ (pos 0) world_size) || (ltb_ℤ rank (pos 0) || not (ltb_ℤ rank world_size)))

unfoldable pub bad_size : CollTask → Bool
bad_size task =
    let type_size = data_type_size task.dtype in
    type_size == 0 || ltb (size_max / type_size) task.count

unfoldable pub bad_op : CollTask → Bool
bad_op task = is_reduce task.func && not (is_reduce_op task.op)

unfoldable pub bad_root : CollTask → ℤ → Bool
bad_root task world_size =
    has_root task.func && (ltb_ℤ task.root (pos 0) || not (ltb_ℤ task.root world_size))

unfoldable pub bad_total : CollTask → ℤ → Bool
bad_total task world_size =
    has_blocks task.func
    && (not (task.count == 0)
        && ltb (size_max / to_size world_size / data_type_size task.dtype) task.count)

unfoldable pub bad_buffer : CollTask → ℤ → Bool
bad_buffer task rank =
    let needs_send = not (task.func is CollFunc.broadcast) in
    let needs_recv =
      not (task.func is CollFunc.reduce)
      || (not (ltb_ℤ rank task.root) && not (ltb_ℤ task.root rank)) in
    (needs_send && is_null task.send_buf) || (needs_recv && is_null task.recv_buf)

unfoldable pub validate_collective_task : CollTask → ℤ → ℤ → Bool
validate_collective_task task rank world_size =
    if bad_communicator task rank world_size
    then false
    else if bad_size task
    then false
    else if bad_op task
    then false
    else if bad_root task world_size
    then false
    else if bad_total task world_size
    then false
    else if task.count == 0
    then true
    else not (bad_buffer task rank)
