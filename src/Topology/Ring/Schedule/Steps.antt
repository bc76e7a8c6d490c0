-- ===== src/Topology/Ring/Schedule/Steps.antt =====
-- What neighbours do in one step, and what a rank does in two steps that follow each other.
use native.Mathlib.Nat.{mod-lt, mod-add-mod, add-mod_right}
use origin_ccl.Prelude.{ℕ, ◌+◌, ◌-◌, ◌*◌, ◌%◌, ◌<◌, ◌≡◌, ◌⊎◌, inl, inr, arith, ap, ◌∙◌, sym, ◌^◌}
use origin_ccl.Prelude.Int.{pos}
use origin_ccl.Types.{PlanTask}
use origin_ccl.Utils.{data_type_size}
use origin_ccl.Topology.Ring.{get_next_rank}
use origin_ccl.Topology.Ring.Cycle.{next_lem}
use origin_ccl.Topology.Ring.Schedule.{
  Phase, chunk_elem_count, allreduce_send_chunk, allreduce_recv_chunk, allreduce_send_bytes,
  allreduce_recv_bytes,
}
use origin_ccl.Topology.Ring.Schedule.Places.{
  at_rank, cursor, send-scatter, recv-scatter, send-gather, recv-gather,
}

-- The task as the next rank of `r` holds it.
abbrev pub at_next : PlanTask → ℕ → ℕ → PlanTask
at_next task w r = record task { rank = get_next_rank (pos w) (pos r); world_size = pos w }

-- The two phases that move data.
abbrev pub IsMoving : Phase → Type 0
IsMoving phase = (phase ≡ Phase.reduce_scatter) ⊎ (phase ≡ Phase.all_gather)

next_place : (r s w d : ℕ) → s + 1 < w → ((r + 1) % w + w - s - 1 + d) % w ≡ (r + w - s + d) % w
next_place r s w d k =
    ap (λ n. n % w) (omega arith)
    ∙ (mod-add-mod (r + 1) w (w - s - 1 + d) ∙ ap (λ n. n % w) (omega arith))

module _ (t : PlanTask) (w u s r : ℕ) (h : r < w) (k : s + 1 < w) where
  neighbour : at_next t w r ≡ at_rank t w ((r + 1) % w)
  neighbour = ap (λ q. record t { rank = q; world_size = pos w }) (next_lem w r)

  in_ring : (r + 1) % w < w
  in_ring = mod-lt (r + 1) (omega arith)

  chunks-agree :
      (phase : Phase)
      → IsMoving phase
      → allreduce_send_chunk (at_rank t w r) (cursor phase w u s)
        ≡ allreduce_recv_chunk (at_next t w r) (cursor phase w u s)
  chunks-agree phase (inl e) =
      rw (e, neighbour)
        (send-scatter t w u s r h k
          ∙ (ap (λ n. pos (u * w + n)) (first ∙ sym (next_place r s w 0 k) ∙ second)
              ∙ sym (recv-scatter t w u s ((r + 1) % w) in_ring k)))
    where
      first : (r + w - s) % w ≡ (r + w - s + 0) % w
      first = ap (λ n. n % w) (omega arith)

      second : ((r + 1) % w + w - s - 1 + 0) % w ≡ ((r + 1) % w + w - s - 1) % w
      second = ap (λ n. n % w) (omega arith)
  chunks-agree phase (inr e) =
      rw (e, neighbour)
        (send-gather t w u s r h k
          ∙ (ap (λ n. pos (u * w + n)) (sym (next_place r s w 1 k) ∙ second)
              ∙ sym (recv-gather t w u s ((r + 1) % w) in_ring k)))
    where
      second : ((r + 1) % w + w - s - 1 + 1) % w ≡ ((r + 1) % w + w - s) % w
      second = ap (λ n. n % w) (omega arith)

  -- In every step of an AllReduce on a ring of `w` ranks, what rank `r` sends is what its next rank
  -- receives: the same chunk and the same number of bytes, in the ReduceScatter and in the AllGather phase,
  -- for step `s` of any unit.
  pub allreduce-agree :
      (phase : Phase)
      → IsMoving phase
      → (allreduce_send_chunk (at_rank t w r) (cursor phase w u s)
          ≡ allreduce_recv_chunk (at_next t w r) (cursor phase w u s))
        × (allreduce_send_bytes (at_rank t w r) (cursor phase w u s)
            ≡ allreduce_recv_bytes (at_next t w r) (cursor phase w u s))
  unfolding allreduce_send_bytes allreduce_recv_bytes
  allreduce-agree phase m =
      let e = chunks-agree phase m in
      (
        e,
        ap (λ c. chunk_elem_count t.elem_count t.chunk_size c * data_type_size t.dtype % 2 ^ 64) e,
      )

-- A rank passes on what it has just received: the chunk of a step is the one that it received in the step
-- before, in the same phase of the same unit; and the first chunk of the AllGather phase of a unit is the
-- last one that it received in the ReduceScatter phase of the unit.
pub allreduce-forwards :
    (t : PlanTask) (w u s r : ℕ)
    → r < w
    → s + 2 < w
    → (allreduce_send_chunk (at_rank t w r) (cursor Phase.reduce_scatter w u (s + 1))
        ≡ allreduce_recv_chunk (at_rank t w r) (cursor Phase.reduce_scatter w u s))
      × (allreduce_send_chunk (at_rank t w r) (cursor Phase.all_gather w u (s + 1))
          ≡ allreduce_recv_chunk (at_rank t w r) (cursor Phase.all_gather w u s))
      × (allreduce_send_chunk (at_rank t w r) (cursor Phase.all_gather w u 0)
          ≡ allreduce_recv_chunk (at_rank t w r) (cursor Phase.reduce_scatter w u (w - 2)))
allreduce-forwards t w u s r h k = (
  send-scatter t w u (s + 1) r h (omega arith)
      ∙ (ap (λ n. pos (u * w + n % w)) (omega arith)
          ∙ sym (recv-scatter t w u s r h (omega arith))),
  send-gather t w u (s + 1) r h (omega arith)
      ∙ (ap (λ n. pos (u * w + n % w)) (omega arith) ∙ sym (recv-gather t w u s r h (omega arith))),
  send-gather t w u 0 r h (omega arith)
      ∙ (ap (λ n. pos (u * w + n)) around ∙ sym (recv-scatter t w u (w - 2) r h (omega arith))),
)
  where
    around : (r + w - 0 + 1) % w ≡ (r + w - (w - 2) - 1) % w
    around =
        ap (λ n. n % w) (omega arith) ∙ (add-mod_right (r + 1) w ∙ ap (λ n. n % w) (omega arith))
