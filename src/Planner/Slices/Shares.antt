-- ===== src/Planner/Slices/Shares.antt =====
-- The locals of `EmitCollectiveSlices` in elements instead of bytes, for a call that may be planned.
use native.Mathlib.Nat.{div-add-mod', mod-eq_of_lt}
use origin_ccl.Prelude.{
  ℕ, ◌*◌, ◌/◌, ◌%◌, ◌^◌, ◌<◌, min, max, ◌≡◌, ◌≢◌, ap, ltb, Bool, if◌then◌else◌, length, arith,
}
use origin_ccl.Prelude.Int.{to_size}
use origin_ccl.Types.{DataType, CollTask}
use origin_ccl.Utils.{data_type_size}
use origin_ccl.Planner.Slices.{Comm, chunk_bytes, split_of}
use origin_ccl.Planner.Slices.Arith.{scaled_div, scaled_mod}
use origin_ccl.Planner.Slices.Loop.{IsShared}

-- What `ValidateCollectiveTask` and `Init` have established when a collective is planned.
pub record IsPlannable (comm : Comm) (task : CollTask) : Type 0 where
  pub world : 0 < to_size comm.world_size
  pub world_fits : to_size comm.world_size < 2 ^ 31
  pub typed : data_type_size task.dtype ≢ 0
  pub fits : task.count * data_type_size task.dtype < 2 ^ 64
  pub has_channel : 0 < length comm.channels

-- The unit in elements.
abbrev pub unit_elems : Comm → CollTask → ℕ
unit_elems comm task = (split_of comm task).unit_bytes / data_type_size task.dtype

unit_plain :
    (big : Bool) (w : ℕ) (t : DataType)
    → w < 2 ^ 31
    → data_type_size t ≢ 0
    → let u : ℕ = if big then chunk_bytes * w % 2 ^ 64 else chunk_bytes in
      u ≡ u / data_type_size t * data_type_size t
unit_plain big w t h k = ground arith

div_plain :
    (count v d u : ℕ) → u ≡ v * d → 0 < d → count * d < 2 ^ 64 → count * d % 2 ^ 64 / u ≡ count / v
div_plain count v d u e h k = rw (mod-eq_of_lt k, e) (scaled_div count v d h)

rem_plain :
    (count v d u : ℕ)
    → u ≡ v * d
    → 0 < d
    → count * d < 2 ^ 64
    → count * d % 2 ^ 64 % u ≡ count % v * d
rem_plain count v d u e h k = rw (mod-eq_of_lt k, e) (scaled_mod count v d h)

used_plain : (units n : ℕ) → 0 < (if ltb 0 units then min units (max n 1) else 1)
used_plain units n = ground arith

module _ {comm : Comm} {task : CollTask} (p : IsPlannable comm task) where
  abbrev pub d : ℕ
  d = data_type_size task.dtype

  pub d_pos : 0 < d
  d_pos = omega (arith, p.typed)

  pub unit_whole : (split_of comm task).unit_bytes ≡ unit_elems comm task * d
  unfolding split_of
  unit_whole = unit_plain _ (to_size comm.world_size) task.dtype p.world_fits p.typed

  pub split_of-IsShared :
      IsShared
        (split_of comm task)
        (task.count / unit_elems comm task)
        (unit_elems comm task)
        (task.count % unit_elems comm task)
  unfolding split_of
  split_of-IsShared = record {
    typed = d_pos;
    unit_bytes_are = unit_whole;
    rem_bytes_are = rem_plain task.count (unit_elems comm task) d _ unit_whole d_pos p.fits;
    used = used_plain _ (length comm.channels);
    base_units_are =
        ap (λ t. t / (split_of comm task).n_used)
          (div_plain task.count (unit_elems comm task) d _ unit_whole d_pos p.fits);
    rem_units_are =
        ap (λ t. t % (split_of comm task).n_used)
          (div_plain task.count (unit_elems comm task) d _ unit_whole d_pos p.fits);
    small = rw (div-add-mod' task.count (unit_elems comm task)) p.fits;
  }
