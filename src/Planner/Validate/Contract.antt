-- ===== src/Planner/Validate/Contract.antt =====
-- What `ValidateCollectiveTask` accepts, in plain terms.
use native.Mathlib.Nat.{div-lt_iff_lt-mul, div-div-eq-div-mul}
use origin_ccl.Prelude.{ℕ, ◌*◌, ◌/◌, ◌^◌, ◌<◌, ◌≡◌, ◌≢◌, ◌↔◌, ◌⊎◌, true, false, none, arith}
use origin_ccl.Prelude.Int.{ℤ, pos, ◌≤ℤ◌, to_size}
use origin_ccl.Types.{CollFunc, CollTask}
use origin_ccl.Utils.{data_type_size}
use origin_ccl.Planner.Validate.{
  is_collective, is_reduce_op, is_reduce, has_root, has_blocks, bad_communicator, bad_size, bad_op,
  bad_root, bad_total, bad_buffer, size_max, validate_collective_task,
}

-- The contract of a collective call, with no machine arithmetic.
pub record IsAccepted (task : CollTask) (rank world_size : ℤ) : Type 0 where
  pub collective : is_collective task.func ≡ true
  pub rank_low : pos 0 ≤ℤ rank
  pub rank_high : ¬ (world_size ≤ℤ rank)
  pub typed : data_type_size task.dtype ≢ 0
  pub block_fits : task.count * data_type_size task.dtype < 2 ^ 64
  pub op_known : (is_reduce task.func ≡ false) ⊎ (is_reduce_op task.op ≡ true)
  pub root_in : (has_root task.func ≡ false) ⊎ ((pos 0 ≤ℤ task.root) × ¬ (world_size ≤ℤ task.root))
  pub total_fits :
      (has_blocks task.func ≡ false)
      ⊎ (task.count * (to_size world_size * data_type_size task.dtype) < 2 ^ 64)
  pub send_given : (task.func ≡ CollFunc.broadcast) ⊎ (task.count ≡ 0) ⊎ (task.send_buf ≢ none)
  pub recv_given :
      ((task.func ≡ CollFunc.reduce) × (rank ≢ task.root))
      ⊎ (task.count ≡ 0)
      ⊎ (task.recv_buf ≢ none)

module _ (t : CollTask) (rank ws : ℤ) where
  bad_communicator_lem :
      (bad_communicator t rank ws ≡ false)
      ↔ ((is_collective t.func ≡ true) × (pos 0 ≤ℤ rank) × ¬ (ws ≤ℤ rank))
  unfolding bad_communicator
  bad_communicator_lem = ground arith

  bad_size_lem :
      (bad_size t ≡ false)
      ↔ ((data_type_size t.dtype ≢ 0) × (t.count * data_type_size t.dtype < 2 ^ 64))
  unfolding bad_size
  bad_size_lem = ground arith

  bad_op_lem : (bad_op t ≡ false) ↔ ((is_reduce t.func ≡ false) ⊎ (is_reduce_op t.op ≡ true))
  unfolding bad_op
  bad_op_lem = ground arith

  bad_root_lem :
      (bad_root t ws ≡ false) ↔ ((has_root t.func ≡ false) ⊎ ((pos 0 ≤ℤ t.root) × ¬ (ws ≤ℤ t.root)))
  unfolding bad_root
  bad_root_lem = ground arith

  bad_buffer_lem : ((t.count ≡ 0) ⊎ (bad_buffer t rank ≡ false)) ↔ (
      ((t.func ≡ CollFunc.broadcast) ⊎ (t.count ≡ 0) ⊎ (t.send_buf ≢ none))
      × (((t.func ≡ CollFunc.reduce) × (rank ≢ t.root)) ⊎ (t.count ≡ 0) ⊎ (t.recv_buf ≢ none)))
  unfolding bad_buffer
  bad_buffer_lem = ground arith

-- `count > max / w / d` is the overflow of `count * (w * d)`.
div_test : (c w d : ℕ) → 0 < w * d → (size_max / w / d < c) ↔ (size_max < c * (w * d))
div_test c w d h = rw div-div-eq-div-mul (div-lt_iff_lt-mul h)

bad_total_lem :
    (t : CollTask) (ws : ℤ)
    → 0 < to_size ws * data_type_size t.dtype
    → (bad_total t ws ≡ false)
      ↔ ((has_blocks t.func ≡ false) ⊎ (t.count * (to_size ws * data_type_size t.dtype) < 2 ^ 64))
unfolding bad_total
bad_total_lem t ws h = ground (arith, div_test t.count (to_size ws) (data_type_size t.dtype) h)

validate_guards :
    (t : CollTask) (rank ws : ℤ)
    → (validate_collective_task t rank ws ≡ true) ↔ (
        (bad_communicator t rank ws ≡ false)
        × (bad_size t ≡ false)
        × (bad_op t ≡ false)
        × (bad_root t ws ≡ false)
        × (bad_total t ws ≡ false)
        × ((t.count ≡ 0) ⊎ (bad_buffer t rank ≡ false)))
unfolding validate_collective_task
validate_guards t rank ws = ground arith

size_pos : (rank ws : ℤ) (d : ℕ) → pos 0 ≤ℤ rank → ¬ (ws ≤ℤ rank) → d ≢ 0 → 0 < to_size ws * d
size_pos rank ws d p q r = grind arith

-- `ValidateCollectiveTask` returns true exactly for the tasks that keep the contract: a collective
-- function; a rank of the communicator; a known type; a block, and for AllGather and ReduceScatter a
-- total over all ranks, of less than 2 ^ 64 bytes; a known operator where one is used; a root of the
-- communicator where one is used; and, unless the count is 0, the buffers that the rank needs.
pub validate_collective_task_lem :
    (t : CollTask) (rank ws : ℤ)
    → (validate_collective_task t rank ws ≡ true) ↔ IsAccepted t rank ws
validate_collective_task_lem t rank ws = (
  λ h.
      let g = (validate_guards t rank ws).0 h in
      let c = (bad_communicator_lem t rank ws).0 g.0 in
      let z = (bad_size_lem t rank ws).0 g.1 in
      let b = (bad_buffer_lem t rank ws).0 g.5 in
      record {
        collective = c.0;
        rank_low = c.1;
        rank_high = c.2;
        typed = z.0;
        block_fits = z.1;
        op_known = (bad_op_lem t rank ws).0 g.2;
        root_in = (bad_root_lem t rank ws).0 g.3;
        total_fits = (bad_total_lem t ws (size_pos rank ws _ c.1 c.2 z.0)).0 g.4;
        send_given = b.0;
        recv_given = b.1;
      },
  λ a. (validate_guards t rank ws).1 (
    (bad_communicator_lem t rank ws).1 (a.collective, a.rank_low, a.rank_high),
    (bad_size_lem t rank ws).1 (a.typed, a.block_fits),
    (bad_op_lem t rank ws).1 a.op_known,
    (bad_root_lem t rank ws).1 a.root_in,
    (bad_total_lem t ws (size_pos rank ws _ a.rank_low a.rank_high a.typed)).1 a.total_fits,
    (bad_buffer_lem t rank ws).1 (a.send_given, a.recv_given),
  ),
)
