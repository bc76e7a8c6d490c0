-- ===== src/Communicator.antt =====
-- Groups of calls, src/communicator.cpp: the calls of the user, `GroupStart`, `GroupEnd`, `Submit`, `Flush`.
pub mod Grouping
mod Examples
use origin_ccl.Prelude.{
  ℕ, Bool, true, false, not, ◌&&◌, ◌||◌, Option, none, some, List, [], ◌∷◌, ◌++◌, length, ltb, ◌==◌,
  if◌then◌else◌,
}
use origin_ccl.Prelude.Int.{ℤ, pos, negsuc, to_size, ltb_ℤ, eqb_ℤ, ◌+ℤ◌, ◌-ℤ◌}
use origin_ccl.Types.{CollTask, CollFunc, CollPlan, DataType, ReduceOp}
use origin_ccl.Planner.Validate.{is_p2p, validate_collective_task}
use origin_ccl.Planner.Sort.{sort_tasks, is_collective_batch}

-- `Planner::Plan` and the two executors, of which `dynamic` says whether there is the second one. `plan` is given
-- whether the slices are left unbound; an executor gives the result of the batch.
pub record Engine : Type 1 where
  pub World : Type 0
  pub dynamic : Bool
  pub plan : List CollTask → Bool → World → Option CollPlan × World
  pub run : CollPlan → World → Bool × World
  pub run_dynamic : CollPlan → World → Bool × World

-- What does not change: `config.rank`, `config.world_size`, `config.n_channels`.
pub record Config : Type 0 where
  pub rank : ℤ
  pub world_size : ℤ
  pub n_channels : ℤ

pub record Pending (W : Type 0) : Type 0 where
  pub group_depth : ℤ
  pub tasks : List CollTask
  pub world : W

-- The calls of the user.
pub data Call : Type 0 where
  start finish : Call
  submits : CollTask → Call

module _ (engine : Engine) (config : Config) where
  open engine use {World, dynamic, plan, run, run_dynamic}

  -- What `Flush` does with the sorted tasks.
  unfoldable pub execute : List CollTask → World → Bool × World
  execute tasks w =
      let want_dynamic : Bool = dynamic && is_collective_batch tasks in
      let (first_plan, w') = plan tasks want_dynamic w in
      let (second_plan, w'') = plan tasks false w' in
      elim first_plan [
        | none ↦ (false, w')
        | some first ↦
            if want_dynamic
            then (if ltb (to_size config.n_channels) (length first.slices)
                then run_dynamic first w'
                else elim second_plan [ none ↦ (false, w'') | some second ↦ run second w'' ])
            else run first w'
      ]

  -- The pending tasks are taken out before anything can fail.
  unfoldable pub flush : Pending World → Bool × Pending World
  flush s = elim (sort_tasks s.tasks config.rank config.world_size) [
    | none ↦ (false, record s { tasks = [] })
    | some tasks ↦
        let done : Bool × World = execute tasks s.world in
        (done.0, record s { tasks = []; world = done.1 })
  ]

  unfoldable pub group_start : Pending World → Pending World
  group_start s = record s { group_depth = s.group_depth +ℤ pos 1 }

  unfoldable pub group_end : Pending World → Bool × Pending World
  group_end s =
      if not (ltb_ℤ (pos 0) s.group_depth)
      then (false, s)
      else if ltb_ℤ (pos 0) (s.group_depth -ℤ pos 1)
      then (true, record s { group_depth = s.group_depth -ℤ pos 1 })
      else flush (record s { group_depth = s.group_depth -ℤ pos 1 })

  -- The tasks that `Submit` takes.
  unfoldable pub is_taken : CollTask → Bool
  is_taken task = is_p2p task.func || validate_collective_task task config.rank config.world_size

  unfoldable pub submit : CollTask → Pending World → Bool × Pending World
  submit task s =
      let added : Pending World = record s { tasks = s.tasks ++ (task ∷ []) } in
      if not (is_taken task)
      then (false, s)
      else if eqb_ℤ s.group_depth (pos 0)
      then flush added
      else (true, added)

  abbrev pub call : Call → Pending World → Bool × Pending World
  call Call.start s = (true, group_start s)
  call Call.finish s = group_end s
  call (Call.submits task) s = submit task s

  unfoldable pub calls : List Call → Pending World → Pending World
  calls [] s = s
  calls (c ∷ cs) s = calls cs (call c s).1

-- `CollTask{}`
abbrev pub new_task : CollTask
new_task = record {
  func = CollFunc.all_reduce;
  send_buf = none;
  recv_buf = none;
  count = 0;
  dtype = DataType.float32;
  op = ReduceOp.sum;
  root = pos 0;
  peer = negsuc 0;
}

-- The tasks that the calls of the user submit.
abbrev pub all_reduce_task : Option ℕ → Option ℕ → ℕ → DataType → ReduceOp → CollTask
all_reduce_task from into count dtype op = record new_task {
  func = CollFunc.all_reduce;
  send_buf = from;
  recv_buf = into;
  count = count;
  dtype = dtype;
  op = op;
}

abbrev pub broadcast_task : Option ℕ → ℕ → DataType → ℤ → CollTask
broadcast_task buffer count dtype root = record new_task {
  func = CollFunc.broadcast;
  send_buf = buffer;
  recv_buf = buffer;
  count = count;
  dtype = dtype;
  op = ReduceOp.sum;
  root = root;
}

abbrev pub all_gather_task : Option ℕ → Option ℕ → ℕ → DataType → CollTask
all_gather_task from into count dtype = record new_task {
  func = CollFunc.all_gather;
  send_buf = from;
  recv_buf = into;
  count = count;
  dtype = dtype;
}

abbrev pub reduce_task : Option ℕ → Option ℕ → ℕ → DataType → ReduceOp → ℤ → CollTask
reduce_task from into count dtype op root = record new_task {
  func = CollFunc.reduce;
  send_buf = from;
  recv_buf = into;
  count = count;
  dtype = dtype;
  op = op;
  root = root;
}

abbrev pub reduce_scatter_task : Option ℕ → Option ℕ → ℕ → DataType → ReduceOp → CollTask
reduce_scatter_task from into count dtype op = record new_task {
  func = CollFunc.reduce_scatter;
  send_buf = from;
  recv_buf = into;
  count = count;
  dtype = dtype;
  op = op;
}

abbrev pub send_task : Option ℕ → ℕ → DataType → ℤ → CollTask
send_task buffer count dtype peer = record new_task {
  func = CollFunc.send;
  send_buf = buffer;
  count = count;
  dtype = dtype;
  peer = peer;
}

abbrev pub recv_task : Option ℕ → ℕ → DataType → ℤ → CollTask
recv_task buffer count dtype peer = record new_task {
  func = CollFunc.recv;
  recv_buf = buffer;
  count = count;
  dtype = dtype;
  peer = peer;
}
