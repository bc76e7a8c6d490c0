-- ===== src/Topology/Ring/Schedule/Cover.antt =====
-- The chunks of all units together.
use native.Mathlib.Nat.{mod-eq_of_lt, div-add-mod', mod-lt, mul-le-mul_right}
use origin_ccl.Prelude.{
  ℕ, zero, suc, ◌+◌, ◌-◌, ◌*◌, ◌/◌, ◌%◌, ◌^◌, ◌<◌, ◌≤◌, ◌≡◌, min, arith, ◌∙◌, ◌==◌, false,
  if◌then◌else◌,
}
use origin_ccl.Prelude.Int.{pos}
use origin_ccl.Types.{PlanTask}
use origin_ccl.Topology.Ring.Schedule.{chunk_elem_count, allreduce_units}

-- The elements of the first `n` chunks.
abbrev pub covered : ℕ → ℕ → ℕ → ℕ
covered count size zero = 0
covered count size (suc n) = covered count size n + chunk_elem_count count size (pos n)

chunk_lem :
    (count size n : ℕ)
    → n * size < 2 ^ 64
    → chunk_elem_count count size (pos n) ≡ min size (count - n * size)
unfolding chunk_elem_count
chunk_lem count size n h = rw (mod-eq_of_lt h) (ground arith)

covered_lem : (count size n : ℕ) → n * size < 2 ^ 64 → covered count size n ≡ min count (n * size)
covered_lem count size zero h = omega arith
covered_lem count size (suc n) h =
    omega (arith, chunk_lem count size n (omega arith), covered_lem count size n (omega arith))

round_up :
    (count per : ℕ)
    → 0 < per
    → (count ≤ (count + per - 1) / per * per) × ((count + per - 1) / per * per < count + per)
round_up count per h =
    omega (arith, div-add-mod' (count + per - 1) per, mod-lt (count + per - 1) {m = per} h)

units_form :
    (count per : ℕ)
    → 0 < per
    → count + per < 2 ^ 64
    → (if per % 2 ^ 64 == 0
        then 0
        else (count + per % 2 ^ 64 + (2 ^ 64 - 1)) % 2 ^ 64 / (per % 2 ^ 64))
      ≡ (count + per - 1) / per
units_form count per h k = rw (whole, not_zero, small)
  where
    whole : per % 2 ^ 64 ≡ per
    whole = mod-eq_of_lt (omega arith)

    not_zero : (per == 0) ≡ false
    not_zero = ground arith

    small : (count + per + (2 ^ 64 - 1)) % 2 ^ 64 ≡ count + per - 1
    small = omega arith

-- For an AllReduce of at least one rank with a chunk size that is not 0, whose count and one unit together are below
-- 2 ^ 64: the chunks of all units add up to the task's count, and those of fewer units to less.
pub covered-all :
    (t : PlanTask) (w : ℕ)
    → 0 < t.chunk_size * w
    → t.elem_count + t.chunk_size * w < 2 ^ 64
    → (covered t.elem_count t.chunk_size (allreduce_units (record t { world_size = pos w }) * w)
        ≡ t.elem_count)
      × ((k : ℕ)
          → k < allreduce_units (record t { world_size = pos w })
          → covered t.elem_count t.chunk_size (k * w) < t.elem_count)
unfolding allreduce_units
covered-all t w h k =
    let per : ℕ = t.chunk_size * w in
    let n : ℕ = (t.elem_count + per - 1) / per in
    rw (units_form t.elem_count per h k) (
      covered_lem t.elem_count t.chunk_size (n * w)
            (omega (arith, round_up t.elem_count per h, ordered n))
          ∙ omega (arith, round_up t.elem_count per h, ordered n),
      λ j p.
          let one_more : j + 1 ≤ n = omega (arith, p) in
          let fewer : (j + 1) * per ≤ n * per = mul-le-mul_right per one_more in
          let below : j * w * t.chunk_size < t.elem_count =
            omega (arith, round_up t.elem_count per h, fewer, ordered j) in
          omega (arith, covered_lem t.elem_count t.chunk_size (j * w) (omega arith)),
    )
  where
    ordered : (n : ℕ) → n * w * t.chunk_size ≡ n * (t.chunk_size * w)
    ordered n = omega arith
