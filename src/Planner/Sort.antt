-- ===== src/Planner/Sort.antt =====
-- `SortTasks` of src/planner.cpp: the order in which a batch of tasks is planned.
pub mod Layout
pub mod Agreement
use origin_ccl.Prelude.{
  ℕ, ◌*◌, ◌%◌, ◌^◌, Bool, true, false, not, ◌||◌, Option, none, some, List, [], ◌∷◌, ◌++◌, ltb,
  if◌then◌else◌,
}
use origin_ccl.Prelude.Int.{ℤ, pos, ltb_ℤ, eqb_ℤ}
use origin_ccl.Prelude.Order.{first_by, first_by_ℤ}
use origin_ccl.Types.{CollTask, func_code, op_code, dtype_code}
use origin_ccl.Utils.{data_type_size}
use origin_ccl.Planner.StableSort.{stable_sort}
use origin_ccl.Planner.Validate.{is_p2p, is_reduce, has_root, validate_collective_task}
use origin_ccl.Planner.Rounds.{p2p_round_of}

-- 0 where the function uses no operator.
unfoldable pub effective_op : CollTask → ℕ
effective_op task = if is_reduce task.func then op_code task.op else 0

unfoldable pub effective_root : CollTask → ℤ
effective_root task = if has_root task.func then task.root else pos 0

-- `a.count * Utils::GetDataTypeSize(a.dtype)`, in `size_t`
abbrev pub task_bytes : CollTask → ℕ
task_bytes task = task.count * data_type_size task.dtype % 2 ^ 64

-- The lambda `less`: each line of the source is one `first_by`.
unfoldable pub collective_less : CollTask → CollTask → Bool
collective_less a b = first_by (func_code a.func) (func_code b.func) (
    first_by (task_bytes a) (task_bytes b) (
      first_by (dtype_code a.dtype) (dtype_code b.dtype)
        (first_by (effective_op a) (effective_op b) (ltb_ℤ (effective_root a) (effective_root b)))))

unfoldable pub p2p_less : ℤ → ℤ → CollTask → CollTask → Bool
p2p_less rank world_size a b =
    let a_round : ℤ = p2p_round_of a.func rank a.peer world_size in
    let b_round : ℤ = p2p_round_of b.func rank b.peer world_size in
    first_by_ℤ a_round b_round (ltb (func_code a.func) (func_code b.func))

abbrev pub bad_peer : CollTask → ℤ → ℤ → Bool
bad_peer task rank world_size =
    ltb_ℤ task.peer (pos 0) || (not (ltb_ℤ task.peer world_size) || eqb_ℤ task.peer rank)

-- The loop that checks each task and puts it into one of the two lists.
unfoldable pub split_tasks : List CollTask → ℤ → ℤ → Option (List CollTask × List CollTask)
split_tasks [] rank world_size = some ([], [])
split_tasks (task ∷ tasks) rank world_size =
    let rest = split_tasks tasks rank world_size in
    if is_p2p task.func
    then (if bad_peer task rank world_size
        then none
        else elim rest [ none ↦ none | some (collectives, p2p) ↦ some (collectives, task ∷ p2p) ])
    else (if not (validate_collective_task task rank world_size)
        then none
        else elim rest [ none ↦ none | some (collectives, p2p) ↦ some (task ∷ collectives, p2p) ])

-- `none` is the return of `false`, which leaves the caller's list alone.
unfoldable pub sort_tasks : List CollTask → ℤ → ℤ → Option (List CollTask)
sort_tasks tasks rank world_size =
    if not (ltb_ℤ (pos 0) world_size) || (ltb_ℤ rank (pos 0) || not (ltb_ℤ rank world_size))
    then none
    else elim (split_tasks tasks rank world_size) [
      | none ↦ none
      | some (collectives, p2p) ↦
          some
            (stable_sort collective_less collectives ++ stable_sort (p2p_less rank world_size) p2p)
    ]

-- `IsCollectiveBatch`
unfoldable pub is_collective_batch : List CollTask → Bool
is_collective_batch [] = true
is_collective_batch (task ∷ tasks) = if is_p2p task.func then false else is_collective_batch tasks
