-- ===== src/Planner/Rounds.antt =====
-- `P2pRoundOf` of src/planner.cpp: in which round of a batch a message is exchanged.
pub mod Partners
use origin_ccl.Prelude.{if◌then◌else◌}
use origin_ccl.Prelude.Int.{ℤ, ◌+ℤ◌, ◌-ℤ◌, ◌%ℤ◌}
use origin_ccl.Types.{CollFunc}
use origin_ccl.Planner.Validate.{◌is◌}

-- C evaluates `peer - rank + world_size` from the left, in `int`.
unfoldable pub p2p_round_of : CollFunc → ℤ → ℤ → ℤ → ℤ
p2p_round_of func rank peer world_size =
    let forward : ℤ =
      if func is CollFunc.send
      then (peer -ℤ rank +ℤ world_size) %ℤ world_size
      else (rank -ℤ peer +ℤ world_size) %ℤ world_size in
    world_size -ℤ forward
