-- ===== src/Planner/Slices/Loop.antt =====
-- The sizes of the slices, free of wrap-around, and the list that the loop makes of them.
use native.Mathlib.Nat.{mul-mod_left, mul-div_cancel, mul-le-mul_right}
use origin_ccl.Prelude.{
  ℕ, suc, ◌+◌, ◌-◌, ◌*◌, ◌/◌, ◌%◌, ◌^◌, ◌≤◌, ◌<◌, ◌≡◌, ap, ◌==◌, Bool, true, false, if◌then◌else◌,
  arith,
}
use origin_ccl.Planner.Slices.{Split, slice_elems}
use origin_ccl.Planner.Slices.Arith.{
  extra, share-le, last_extra, first_unit, first_unit_zero, first_unit-next, first_unit_last,
}

-- `units` whole units of `v` elements and `m` elements more, as the locals of the function hold them.
pub record IsShared (s : Split) (units v m : ℕ) : Type 0 where
  pub typed : 0 < s.type_size
  pub unit_bytes_are : s.unit_bytes ≡ v * s.type_size
  pub rem_bytes_are : s.rem_bytes ≡ m * s.type_size
  pub used : 0 < s.n_used
  pub base_units_are : s.base_units ≡ units / s.n_used
  pub rem_units_are : s.rem_units ≡ units % s.n_used
  pub small : (units * v + m) * s.type_size < 2 ^ 64

no_wrap_units :
    (x u v d n : ℕ) → x ≤ u → (u * v + n) * d < 2 ^ 64 → x * (v * d) % 2 ^ 64 ≡ x * v * d
no_wrap_units x u v d n h k = omega (arith, mul-le-mul_right d (mul-le-mul_right v h))

elems_plain :
    (x u v m d : ℕ) (last : Bool)
    → x ≤ u
    → (u * v + m) * d < 2 ^ 64
    → 0 < d
    → (if last then (x * (v * d) % 2 ^ 64 + m * d) % 2 ^ 64 else x * (v * d) % 2 ^ 64) / d
      ≡ x * v + (if last then m else 0)
elems_plain x u v m d true h k hd =
    rw (no_wrap_units x u v d m h k, sum) (mul-div_cancel (x * v + m) hd)
  where
    sum : (x * v * d + m * d) % 2 ^ 64 ≡ (x * v + m) * d
    sum = omega (arith, mul-le-mul_right d (mul-le-mul_right v h))
elems_plain x u v m d false h k hd =
    rw (no_wrap_units x u v d m h k, mul-div_cancel (x * v) hd) (omega arith)

module _ {s : Split} {units v m : ℕ} (h : IsShared s units v m) where
  share : ℕ → ℕ
  share c = units / s.n_used + extra (units % s.n_used) c

  -- A slice holds its units, and the last one the remainder too.
  slice_elems-share : (c : ℕ) → slice_elems s c ≡ share c * v + (if c == s.n_used - 1 then m else 0)
  unfolding slice_elems share
  slice_elems-share c =
      simp (h.base_units_are, h.rem_units_are, h.unit_bytes_are, h.rem_bytes_are)
        (elems_plain (share c) units v m s.type_size (c == s.n_used - 1)
          (share-le units s.n_used h.used c) h.small h.typed)

  -- Where slice `c` starts.
  abbrev pub start : ℕ → ℕ
  start c = first_unit units s.n_used h.used c * v

  pub start_zero : start 0 ≡ 0
  start_zero = rw (first_unit_zero units s.n_used h.used) (omega arith)

  pub start_next : (c : ℕ) → suc c < s.n_used → start c + slice_elems s c ≡ start (c + 1)
  unfolding share
  start_next c lt =
      ground (
        arith,
        slice_elems-share c,
        ap (λ (t : ℕ). t * v) (first_unit-next units s.n_used h.used c),
      )

  -- Every slice but the last is a whole number of units.
  pub slice_elems_whole : (c : ℕ) → suc c < s.n_used → slice_elems s c % v ≡ 0
  slice_elems_whole c lt =
      let e : slice_elems s c ≡ share c * v = ground (arith, slice_elems-share c) in
      rw e (mul-mod_left (share c) v)

  pub start_last : (c : ℕ) → suc c ≡ s.n_used → start c + slice_elems s c ≡ units * v + m
  unfolding share
  start_last c e =
      let e' : s.n_used - 1 ≡ c = omega arith in
      ground (
        arith,
        slice_elems-share c,
        ap (λ (t : ℕ). t * v) (rw e' at (first_unit_last units s.n_used h.used)),
        rw e' at (last_extra units s.n_used h.used),
      )
