-- ===== src/Planner/Slices.antt =====
-- `EmitCollectiveSlices` of src/planner.cpp: a collective cut into one slice for each channel that it
-- uses. Sizes are `size_t`, and each product and sum of the source wraps at 2 ^ 64.
pub mod Arith
pub mod Loop
pub mod Shares
pub mod Tiling
pub mod Agreement
use origin_ccl.Prelude.{
  ℕ, zero, suc, ◌+◌, ◌-◌, ◌*◌, ◌/◌, ◌%◌, ◌^◌, min, max, Bool, true, false, not, ◌&&◌, ◌||◌, Option,
  none, some, List, [], ◌∷◌, ◌++◌, get_elem?, length, ltb, ◌==◌, if◌then◌else◌,
}
use origin_ccl.Prelude.Int.{ℤ, pos, negsuc, to_size}
use origin_ccl.Types.{
  CollFunc, CollTask, PlanTask, new_plan_task, ChannelPlan, CollPlan, Channel, TopologyKind,
}
use origin_ccl.Utils.{data_type_size}
use origin_ccl.Outcome.{Outcome, ok, failed, thrown, ◌>>=◌, at}
use origin_ccl.Topology.{fill_transports}
use origin_ccl.Planner.Validate.{◌is◌}

-- `OcclConfig` without OCCL_SMALL_TESTS (include/occl_config.h).
abbrev pub chunk_bytes : ℕ
chunk_bytes = 32 * 1024

abbrev pub tree_threshold_chunks : ℕ
tree_threshold_chunks = 4

-- What the planner reads of a communicator to place a collective.
pub record Comm : Type 0 where
  pub rank : ℤ
  pub world_size : ℤ
  pub channels : List Channel

-- The locals that the function computes before its loop.
pub record Split : Type 0 where
  pub type_size : ℕ
  pub use_tree : Bool
  pub unit_bytes : ℕ
  pub rem_bytes : ℕ
  pub n_used : ℕ
  pub base_units : ℕ
  pub rem_units : ℕ

abbrev pub max_channels : Comm → ℕ
max_channels comm = max (length comm.channels) 1

abbrev pub uses_tree : CollTask → Bool
uses_tree task =
    task.func is CollFunc.all_reduce
    && ltb (task.count * data_type_size task.dtype % 2 ^ 64 / chunk_bytes) tree_threshold_chunks

unfoldable pub split_of : Comm → CollTask → Split
split_of comm task =
    let type_size : ℕ = data_type_size task.dtype in
    let total_bytes : ℕ = task.count * type_size % 2 ^ 64 in
    let unit_bytes : ℕ =
      if uses_tree task || task.func is CollFunc.all_reduce
      then chunk_bytes * to_size comm.world_size % 2 ^ 64
      else chunk_bytes in
    let units_total : ℕ = total_bytes / unit_bytes in
    let n_used : ℕ = if ltb 0 units_total then min units_total (max_channels comm) else 1 in
    record {
      type_size = type_size;
      use_tree = uses_tree task;
      unit_bytes = unit_bytes;
      rem_bytes = total_bytes % unit_bytes;
      n_used = n_used;
      base_units = units_total / n_used;
      rem_units = units_total % n_used;
    }

-- The number of elements of slice `c`.
unfoldable pub slice_elems : Split → ℕ → ℕ
slice_elems s c =
    let channel_units : ℕ = s.base_units + (if ltb c s.rem_units then 1 else 0) in
    let channel_bytes : ℕ = channel_units * s.unit_bytes % 2 ^ 64 in
    (if c == s.n_used - 1 then (channel_bytes + s.rem_bytes) % 2 ^ 64 else channel_bytes)
    / s.type_size

-- A buffer moved on by `offset` elements; a null pointer stays null.
abbrev pub shifted : Option ℕ → ℕ → ℕ → Option ℕ
shifted none offset type_size = none
shifted (some base) offset type_size = some (base + offset * type_size % 2 ^ 64)

-- The fields that the loop body sets, for the slice that starts at element `offset`.
unfoldable pub slice_task : Comm → CollTask → Split → ℕ → ℕ → ℤ → PlanTask
slice_task comm task s elem_count offset channel_id = record new_plan_task {
  func = task.func;
  topology = some (if s.use_tree then TopologyKind.tree else TopologyKind.ring);
  send_buf = shifted task.send_buf offset s.type_size;
  recv_buf = shifted task.recv_buf offset s.type_size;
  elem_count = elem_count;
  rank_stride = task.count;
  root = task.root;
  dtype = task.dtype;
  reduce_op = task.op;
  channel_id = channel_id;
  rank = comm.rank;
  world_size = comm.world_size;
  chunk_size =
      if s.use_tree || task.func is CollFunc.all_reduce
      then chunk_bytes / s.type_size
      else (elem_count + to_size comm.world_size + (2 ^ 64 - 1)) % 2 ^ 64 / to_size comm.world_size;
}

-- `plan.channels[id].tasks.push_back(task)`; the plan has a channel for each of the communicator's.
abbrev pub push_at : List ChannelPlan → ℕ → PlanTask → List ChannelPlan
push_at [] id task = []
push_at (c ∷ cs) zero task = record c { tasks = c.tasks ++ (task ∷ []) } ∷ cs
push_at (c ∷ cs) (suc id) task = c ∷ push_at cs id task

abbrev pub kind_of : Split → TopologyKind
kind_of s = if s.use_tree then TopologyKind.tree else TopologyKind.ring

-- One round of the loop, at slice `c` and element `offset`.
unfoldable pub emit_slice : Comm → CollTask → Split → Bool → ℕ → ℕ → CollPlan → Outcome CollPlan
emit_slice comm task s bind c offset plan =
    let id : ℕ = c % max_channels comm in
    at (get_elem? comm.channels id) >>= λ channel.
    let elems : ℕ = slice_elems s c in
    ok (
      if bind
      then record plan {
        channels =
            push_at plan.channels id (
              fill_transports (kind_of s) channel (slice_task comm task s elems offset channel.id));
      }
      else record plan {
        slices = plan.slices ++ (slice_task comm task s elems offset (negsuc 0) ∷ []);
      })

-- `left` rounds are still to go.
unfoldable pub emit_loop : Comm → CollTask → Split → Bool → ℕ → ℕ → ℕ → CollPlan → Outcome CollPlan
emit_loop comm task s bind zero c offset plan = ok plan
emit_loop comm task s bind (suc left) c offset plan =
    emit_slice comm task s bind c offset plan >>= λ next.
    emit_loop comm task s bind left (c + 1) ((offset + slice_elems s c) % 2 ^ 64) next

unfoldable pub emit_collective_slices : Comm → CollTask → CollPlan → Bool → Outcome CollPlan
emit_collective_slices comm task plan bind =
    let s : Split = split_of comm task in emit_loop comm task s bind s.n_used 0 0 plan

-- `CollPlan(n_channels)`
abbrev pub numbered : ℕ → ℕ → List ChannelPlan
numbered zero id = []
numbered (suc n) id = record { channel_id = pos id; tasks = [] } ∷ numbered n (id + 1)

abbrev pub new_plan : ℕ → CollPlan
new_plan n_channels = record { channels = numbered n_channels 0; slices = [] }
