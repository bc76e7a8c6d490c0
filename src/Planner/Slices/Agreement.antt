-- ===== src/Planner/Slices/Agreement.antt =====
-- The slices of one collective on different ranks.
use origin_ccl.Prelude.{
  ℕ, zero, suc, ◌+◌, ◌%◌, ◌^◌, ◌<◌, ◌≡◌, refl, ap, ◌∙◌, arith, false, Option, none, List, ◌∷◌, ◌++◌,
  map, length,
}
use origin_ccl.Prelude.Int.{pos, negsuc}
use origin_ccl.Types.{CollTask, PlanTask, CollPlan}
use origin_ccl.Outcome.{ok}
use origin_ccl.Planner.Slices.{
  Comm, Split, split_of, slice_elems, slice_task, emit_collective_slices,
}
use origin_ccl.Planner.Slices.Tiling.{slice_list, emit_loop_unbound}

-- The same call on another rank, with the buffers of that rank.
abbrev pub with_buffers : CollTask → Option ℕ → Option ℕ → CollTask
with_buffers task send_buf recv_buf = record task { send_buf = send_buf; recv_buf = recv_buf }

-- A slice without what belongs to its rank.
abbrev pub shape : PlanTask → PlanTask
shape slice = record slice { send_buf = none; recv_buf = none; rank = pos 0 }

module _ (c d : Comm) (task : CollTask) (send_buf recv_buf : Option ℕ)
    (worlds : c.world_size ≡ d.world_size) where
  split_of-agree :
      length c.channels ≡ length d.channels
      → split_of c task ≡ split_of d (with_buffers task send_buf recv_buf)
  unfolding split_of
  split_of-agree e = simp (worlds, e) refl

  slice_task-agree :
      (s : Split) (elems offset : ℕ)
      → shape (slice_task c task s elems offset (negsuc 0))
        ≡ shape (slice_task d (with_buffers task send_buf recv_buf) s elems offset (negsuc 0))
  unfolding slice_task
  slice_task-agree s elems offset = simp worlds refl

  slice_list-agree :
      (s : Split) (left i offset : ℕ)
      → map shape (slice_list c task s left i offset)
        ≡ map shape (slice_list d (with_buffers task send_buf recv_buf) s left i offset)
  slice_list-agree s zero i offset = refl
  slice_list-agree s (suc left) i offset =
      ap
        (λ t.
          t ∷ map shape (slice_list c task s left (i + 1) ((offset + slice_elems s i) % 2 ^ 64)))
        (slice_task-agree s (slice_elems s i) offset)
      ∙ ap
          (λ l.
            shape (
              slice_task d (with_buffers task send_buf recv_buf) s (slice_elems s i) offset
                (negsuc 0))
            ∷ l)
          (slice_list-agree s left (i + 1) ((offset + slice_elems s i) % 2 ^ 64))

-- Ranks that issue the same collective plan the same unbound slices: on two communicators of the same world
-- size and number of channels, of which there is at least one, the slices added to the two plans agree one by
-- one in everything but the rank and the buffers.
pub emit_collective_slices-agree :
    (c d : Comm) (task : CollTask) (send_buf recv_buf : Option ℕ) (p q : CollPlan)
    → c.world_size ≡ d.world_size
    → length c.channels ≡ length d.channels
    → 0 < length c.channels
    → (l : List PlanTask) × (m : List PlanTask) × (emit_collective_slices c task p false
        ≡ ok (record p { slices = p.slices ++ l }))
      × (emit_collective_slices d (with_buffers task send_buf recv_buf) q false
          ≡ ok (record q { slices = q.slices ++ m }))
      × (map shape l ≡ map shape m)
unfolding emit_collective_slices
emit_collective_slices-agree c d task send_buf recv_buf p q worlds e h =
    let there : CollTask = with_buffers task send_buf recv_buf in
    let s : Split = split_of c task in
    let z : Split = split_of d there in
    (
      slice_list c task s s.n_used 0 0,
      slice_list d there z z.n_used 0 0,
      emit_loop_unbound c task s s.n_used 0 0 p h,
      emit_loop_unbound d there z z.n_used 0 0 q (omega (arith, e, h)),
      slice_list-agree c d task send_buf recv_buf worlds s s.n_used 0 0
          ∙ ap (λ w. map shape (slice_list d there w w.n_used 0 0))
              (split_of-agree c d task send_buf recv_buf worlds e),
    )
