-- ===== src/Communicator/Examples.antt =====
-- A group within a group, at an engine that counts the batches that it ran.
use origin_ccl.Prelude.{ℕ, ◌≡◌, ◌+◌, true, false, some, none, List, [], ◌∷◌}
use origin_ccl.Prelude.Int.{pos}
use origin_ccl.Types.{DataType, ReduceOp}
use origin_ccl.Communicator.{
  Engine, Config, Call, calls, flush, group_end, all_reduce_task, broadcast_task, send_task,
}
use origin_ccl.Communicator.Grouping.{
  IsNested, empty, task, group, at_depth, taken, group_end-calls, IsSettled, idle, calls-IsSettled,
}

abbrev counting : Engine
counting = record {
  World = ℕ;
  dynamic = false;
  plan = λ tasks unbound w. (some (record { channels = []; slices = [] }), w);
  run = λ plan w. (true, w + 1);
  run_dynamic = λ plan w. (true, w + 1);
}

abbrev config : Config
config = record { rank = pos 0; world_size = pos 2; n_channels = pos 4 }

abbrev inner_calls : List Call
inner_calls = Call.submits (send_task (some 64) 3 DataType.int32 (pos 1)) ∷ []

abbrev group_calls : List Call
group_calls =
    Call.submits (all_reduce_task (some 64) (some 128) 4 DataType.int32 ReduceOp.sum)
    ∷ (Call.start
        ∷ (Call.submits (send_task (some 64) 3 DataType.int32 (pos 1))
            ∷ (Call.finish ∷ (Call.submits (broadcast_task none 4 DataType.int32 (pos 7)) ∷ []))))

group_calls-IsNested : IsNested group_calls
group_calls-IsNested = task (all_reduce_task (some 64) (some 128) 4 DataType.int32 ReduceOp.sum) _ (
    group inner_calls (Call.submits (broadcast_task none 4 DataType.int32 (pos 7)) ∷ [])
      (task (send_task (some 64) 3 DataType.int32 (pos 1)) [] empty)
      (task (broadcast_task none 4 DataType.int32 (pos 7)) [] empty))

group_end-calls_example :
    group_end counting config
      (calls counting config (Call.start ∷ group_calls) (at_depth counting config 0 [] 0))
    ≡ flush counting config (at_depth counting config 0 (taken counting config group_calls) 0)
group_end-calls_example = group_end-calls counting config group_calls 0 group_calls-IsNested

calls-IsSettled_example :
    IsSettled counting config
      (calls counting config (Call.finish ∷ group_calls) (at_depth counting config 0 [] 0))
calls-IsSettled_example =
    calls-IsSettled counting config (Call.finish ∷ group_calls) (at_depth counting config 0 [] 0)
      (idle 0)
