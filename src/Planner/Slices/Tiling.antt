-- ===== src/Planner/Slices/Tiling.antt =====
-- What the slices of a collective cover.
use native.Mathlib.Nat.{div-add-mod', mod-lt, mul-le-mul_right, mod-eq_of_lt}
use origin_ccl.Prelude.{
  ℕ, zero, suc, ◌+◌, ◌*◌, ◌/◌, ◌%◌, ◌^◌, ◌≤◌, ◌<◌, min, max, ◌≡◌, ◌⊎◌, refl, sym, ap, ◌∙◌, false,
  Option, none, some, List, [], ◌∷◌, ◌++◌, append_assoc, append-nil, inl, inr, length, get_elem?,
  ltb, if◌then◌else◌, arith,
}
use origin_ccl.Prelude.Int.{negsuc}
use origin_ccl.Types.{CollTask, PlanTask, CollPlan}
use origin_ccl.Utils.{data_type_size}
use origin_ccl.Outcome.{ok, ◌>>=◌, at}
use origin_ccl.Planner.Slices.{
  Comm, Split, max_channels, split_of, slice_elems, shifted, slice_task, emit_slice, emit_loop,
  emit_collective_slices,
}
use origin_ccl.Planner.Slices.Arith.{first_unit-le}
use origin_ccl.Planner.Slices.Loop.{
  IsShared, start, start_zero, start_next, start_last, slice_elems_whole,
}
use origin_ccl.Planner.Slices.Shares.{IsPlannable, unit_elems, d_pos, split_of-IsShared}

-- The slices that the rounds from `c` on make, unbound.
abbrev pub slice_list : Comm → CollTask → Split → ℕ → ℕ → ℕ → List PlanTask
slice_list comm task s zero c offset = []
slice_list comm task s (suc left) c offset =
    slice_task comm task s (slice_elems s c) offset (negsuc 0)
    ∷ slice_list comm task s left (c + 1) ((offset + slice_elems s c) % 2 ^ 64)

get_elem?-some {ℓ} :
    {A : Type ℓ} (xs : List A) (i : ℕ) → i < length xs → (a : A) × (get_elem? xs i ≡ some a)
get_elem?-some [] i h = absurd (omega arith)
get_elem?-some (x ∷ xs) zero h = (x, refl)
get_elem?-some (x ∷ xs) (suc i) h = get_elem?-some xs i (omega arith)

emit_slice_unbound :
    (comm : Comm) (task : CollTask) (s : Split) (c offset : ℕ) (plan : CollPlan)
    → 0 < length comm.channels
    → emit_slice comm task s false c offset plan
      ≡ ok (record plan {
        slices = plan.slices ++ (slice_task comm task s (slice_elems s c) offset (negsuc 0) ∷ []);
      })
unfolding emit_slice
emit_slice_unbound comm task s c offset plan h =
    rw ((get_elem?-some comm.channels (c % max_channels comm) bound).1, at, ◌>>=◌)
  where
    bound : c % max_channels comm < length comm.channels
    bound = omega (arith, mod-lt c {m = max_channels comm} (omega arith))

pub emit_loop_unbound :
    (comm : Comm) (task : CollTask) (s : Split) (left c offset : ℕ) (plan : CollPlan)
    → 0 < length comm.channels
    → emit_loop comm task s false left c offset plan
      ≡ ok (record plan { slices = plan.slices ++ slice_list comm task s left c offset })
unfolding emit_loop
emit_loop_unbound comm task s zero c offset plan h =
    ap (λ l. ok (record plan { slices = l })) (sym (append-nil plan.slices))
emit_loop_unbound comm task s (suc left) c offset plan h =
    rw (emit_slice_unbound comm task s c offset plan h, ◌>>=◌)
      (emit_loop_unbound comm task s left (c + 1) ((offset + slice_elems s c) % 2 ^ 64) _ h
        ∙ ap (λ l. ok (record plan { slices = l })) (append_assoc plan.slices _ _))

-- A buffer moved on by `bytes`; a null pointer stays null.
abbrev pub moved : Option ℕ → ℕ → Option ℕ
moved none bytes = none
moved (some base) bytes = some (base + bytes)

-- The slices stand side by side from element `from` to the end of the task, each with the buffers moved
-- to where it starts, and each but the last is a whole number of units.
abbrev pub Tiles : Comm → CollTask → ℕ → List PlanTask → Type 0
Tiles comm task from [] = from ≡ task.count
Tiles comm task from (t ∷ ts) =
    (t.send_buf ≡ moved task.send_buf (from * data_type_size task.dtype))
    × (t.recv_buf ≡ moved task.recv_buf (from * data_type_size task.dtype))
    × (t.rank_stride ≡ task.count)
    × ((ts ≡ []) ⊎ (t.elem_count % unit_elems comm task ≡ 0))
    × Tiles comm task (from + t.elem_count) ts

n_used-le : (units n : ℕ) → 0 < n → (if ltb 0 units then min units (max n 1) else 1) ≤ n
n_used-le units n h = ground arith

module _ {comm : Comm} {task : CollTask} (p : IsPlannable comm task) where
  abbrev shared :
      IsShared
        (split_of comm task)
        (task.count / unit_elems comm task)
        (unit_elems comm task)
        (task.count % unit_elems comm task)
  shared = split_of-IsShared p

  start-le : (c : ℕ) → c ≤ (split_of comm task).n_used → start shared c ≤ task.count
  start-le c h = omega (
    arith,
    mul-le-mul_right (unit_elems comm task)
        (first_unit-le (task.count / unit_elems comm task) _ shared.used c h),
    div-add-mod' task.count (unit_elems comm task),
  )

  typed_split : (split_of comm task).type_size ≡ data_type_size task.dtype
  unfolding split_of
  typed_split = refl

  shifted-moved :
      (b : Option ℕ) (from : ℕ)
      → from ≤ task.count
      → shifted b from (split_of comm task).type_size ≡ moved b (from * data_type_size task.dtype)
  unfolding split_of
  shifted-moved none from h = refl
  shifted-moved (some base) from h =
      ap (λ x. some (base + x))
        (mod-eq_of_lt (omega (arith, p.fits, mul-le-mul_right (data_type_size task.dtype) h)))

  count_small : task.count < 2 ^ 64
  count_small = grind (arith, p.fits, d_pos p)

  slice_list-Tiles :
      (left c : ℕ)
      → c + suc left ≡ (split_of comm task).n_used
      → Tiles comm task
          (start shared c)
          (slice_list comm task (split_of comm task) (suc left) c (start shared c))
  unfolding slice_task
  slice_list-Tiles zero c h = (
    shifted-moved task.send_buf _ (start-le c (omega arith)),
    shifted-moved task.recv_buf _ (start-le c (omega arith)),
    refl,
    inl refl,
    start_last shared c (omega arith) ∙ div-add-mod' task.count (unit_elems comm task),
  )
  slice_list-Tiles (suc left) c h = (
    shifted-moved task.send_buf _ (start-le c (omega arith)),
    shifted-moved task.recv_buf _ (start-le c (omega arith)),
    refl,
    inr (slice_elems_whole shared c (omega arith)),
    rw (wrap, next) (slice_list-Tiles left (c + 1) (omega arith)),
  )
    where
      next : start shared c + slice_elems (split_of comm task) c ≡ start shared (c + 1)
      next = start_next shared c (omega arith)

      wrap :
          (start shared c + slice_elems (split_of comm task) c) % 2 ^ 64
          ≡ start shared c + slice_elems (split_of comm task) c
      wrap = mod-eq_of_lt (omega (arith, next, start-le (c + 1) (omega arith), count_small))

  all-Tiles :
      (left from : ℕ)
      → left ≡ (split_of comm task).n_used
      → from ≡ start shared 0
      → Tiles comm task from (slice_list comm task (split_of comm task) left 0 from)
  all-Tiles zero from h e = absurd (omega (arith, shared.used))
  all-Tiles (suc left) from h e = rw e (slice_list-Tiles left 0 (omega arith))

  used-le : (split_of comm task).n_used ≤ length comm.channels
  unfolding split_of
  used-le = n_used-le _ (length comm.channels) p.has_channel

length-slice_list :
    (comm : Comm) (task : CollTask) (s : Split) (left c offset : ℕ)
    → length (slice_list comm task s left c offset) ≡ left
length-slice_list comm task s zero c offset = refl
length-slice_list comm task s (suc left) c offset =
    ap suc (length-slice_list comm task s left (c + 1) _)

-- For a call that may be planned, the dynamic plan of a collective gains at least one slice and at most
-- one for each channel. The slices stand side by side from the first element of the task to the last, each
-- with the buffers moved to where it starts and with the task's count as its stride between blocks,
-- and every slice but the last is a whole number of units.
pub emit_collective_slices-Tiles :
    (comm : Comm) (task : CollTask) (plan : CollPlan)
    → IsPlannable comm task
    → (slices : List PlanTask) × (emit_collective_slices comm task plan false
        ≡ ok (record plan { slices = plan.slices ++ slices }))
      × (0 < length slices)
      × (length slices ≤ length comm.channels)
      × Tiles comm task 0 slices
unfolding emit_collective_slices
emit_collective_slices-Tiles comm task plan p =
    let n : ℕ = (split_of comm task).n_used in
    let l : List PlanTask = slice_list comm task (split_of comm task) n 0 0 in
    let e : length l ≡ n = length-slice_list comm task (split_of comm task) n 0 0 in
    (
      l,
      emit_loop_unbound comm task (split_of comm task) n 0 0 plan p.has_channel,
      omega (arith, e, (shared p).used),
      omega (arith, e, used-le p),
      all-Tiles p n 0 refl (sym (start_zero (shared p))),
    )
