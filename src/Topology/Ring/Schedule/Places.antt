-- ===== src/Topology/Ring/Schedule/Places.antt =====
-- The chunk formulas in closed form, in step `s` of unit `u`.
use native.Mathlib.Nat.{mod-eq_of_lt, mul-add-mod_self_right, mul-add-div_right, div-eq_of_lt}
use origin_ccl.Prelude.{ℕ, ◌+◌, ◌-◌, ◌*◌, ◌%◌, ◌<◌, ◌≡◌, arith, ap, ◌∙◌}
use origin_ccl.Prelude.Int.{pos, ◌+ℤ◌, ◌-ℤ◌, ◌*ℤ◌, ◌/ℤ◌, ◌%ℤ◌}
use origin_ccl.Types.{PlanTask}
use origin_ccl.Topology.Ring.Schedule.{
  Phase, Cursor, allreduce_unit, allreduce_step_in_unit, allreduce_send_chunk, allreduce_recv_chunk,
}

-- The task as rank `r` of `w` ranks holds it.
abbrev pub at_rank : PlanTask → ℕ → ℕ → PlanTask
at_rank task w r = record task { rank = pos r; world_size = pos w }

-- Step `s` of unit `u`.
abbrev pub cursor : Phase → ℕ → ℕ → ℕ → Cursor
cursor phase w u s = record { phase = phase; step = u * (w - 1) + s }

pred_pos : (w : ℕ) → 0 < w → pos w -ℤ pos 1 ≡ pos (w - 1)
unfolding ◌-ℤ◌
pred_pos w h = ground arith

unit_lem :
    (t : PlanTask) (phase : Phase) (w u s r : ℕ)
    → s + 1 < w
    → allreduce_unit (at_rank t w r) (cursor phase w u s) ≡ pos u
unfolding allreduce_unit ◌/ℤ◌
unit_lem t phase w u s r h = rw (pred_pos w (omega arith)) (
    ap pos (
      mul-add-div_right (omega arith) u s
      ∙ omega (arith, div-eq_of_lt {n = s} {m = w - 1} (omega arith))))

step_lem :
    (t : PlanTask) (phase : Phase) (w u s r : ℕ)
    → s + 1 < w
    → allreduce_step_in_unit (at_rank t w r) (cursor phase w u s) ≡ pos s
unfolding allreduce_step_in_unit ◌%ℤ◌
step_lem t phase w u s r h =
    rw (pred_pos w (omega arith))
      (ap pos (mul-add-mod_self_right u (w - 1) s ∙ mod-eq_of_lt (omega arith)))

in_unit : (u w c : ℕ) → pos u *ℤ pos w +ℤ pos c ≡ pos (u * w + c)
unfolding ◌*ℤ◌ ◌+ℤ◌
in_unit u w c = ground arith

sent_first :
    (r s w : ℕ) → r < w → s < w → (pos r -ℤ pos s +ℤ pos w) %ℤ pos w ≡ pos ((r + w - s) % w)
unfolding ◌-ℤ◌ ◌+ℤ◌ ◌%ℤ◌
sent_first r s w h k = ground arith

received_first :
    (r s w : ℕ)
    → r < w
    → s < w
    → (pos r -ℤ pos s +ℤ pos w -ℤ pos 1) %ℤ pos w ≡ pos ((r + w - s - 1) % w)
unfolding ◌-ℤ◌ ◌+ℤ◌ ◌%ℤ◌
received_first r s w h k = ground arith

sent_second :
    (r s w : ℕ)
    → r < w
    → s < w
    → (pos r -ℤ pos s +ℤ pos 1 +ℤ pos w) %ℤ pos w ≡ pos ((r + w - s + 1) % w)
unfolding ◌-ℤ◌ ◌+ℤ◌ ◌%ℤ◌
sent_second r s w h k = ground arith

module _ (t : PlanTask) (w u s r : ℕ) (h : r < w) (k : s + 1 < w) where
  pub send-scatter :
      allreduce_send_chunk (at_rank t w r) (cursor Phase.reduce_scatter w u s)
      ≡ pos (u * w + (r + w - s) % w)
  unfolding allreduce_send_chunk
  send-scatter =
      rw (unit_lem t Phase.reduce_scatter w u s r k, step_lem t Phase.reduce_scatter w u s r k)
        (rw (sent_first r s w h (omega arith)) (in_unit u w _))

  pub recv-scatter :
      allreduce_recv_chunk (at_rank t w r) (cursor Phase.reduce_scatter w u s)
      ≡ pos (u * w + (r + w - s - 1) % w)
  unfolding allreduce_recv_chunk
  recv-scatter =
      rw (unit_lem t Phase.reduce_scatter w u s r k, step_lem t Phase.reduce_scatter w u s r k)
        (rw (received_first r s w h (omega arith)) (in_unit u w _))

  pub send-gather :
      allreduce_send_chunk (at_rank t w r) (cursor Phase.all_gather w u s)
      ≡ pos (u * w + (r + w - s + 1) % w)
  unfolding allreduce_send_chunk
  send-gather =
      rw (unit_lem t Phase.all_gather w u s r k, step_lem t Phase.all_gather w u s r k)
        (rw (sent_second r s w h (omega arith)) (in_unit u w _))

  pub recv-gather :
      allreduce_recv_chunk (at_rank t w r) (cursor Phase.all_gather w u s)
      ≡ pos (u * w + (r + w - s) % w)
  unfolding allreduce_recv_chunk
  recv-gather =
      rw (unit_lem t Phase.all_gather w u s r k, step_lem t Phase.all_gather w u s r k)
        (rw (sent_first r s w h (omega arith)) (in_unit u w _))
