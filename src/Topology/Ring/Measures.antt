-- ===== src/Topology/Ring/Measures.antt =====
-- About the phases and steps of the collectives on the ring, src/topology/topology_ring.cpp: where a loop may be, and
-- how many turns it has left.
use origin_ccl.Prelude.{
  ℕ, suc, ◌≡◌, ◌<◌, ◌+◌, ◌-◌, refl, arith, Bool, true, false, ◌&&◌, ◌||◌, by_test, Bool-cases, inl,
  inr, ◌==◌, leb, if◌then◌else◌,
}
use origin_ccl.Prelude.Int.{ℤ, pos, negsuc, ltb_ℤ, eqb_ℤ, to_size, ◌-ℤ◌}
use origin_ccl.Types.{PlanTask}
use origin_ccl.Topology.Ring.Schedule.{Phase, is_reduce_scatter}
use origin_ccl.Topology.Ring.Collectives.{
  is_finished, is_receiving, is_all_gather, total_ops, is_before_last,
}
use origin_ccl.Topology.Ring.Calls.{bad_world, is_alone}

-- A task that has nothing to transfer, or is refused for its number of ranks.
abbrev pub is_trivial : PlanTask → Bool
is_trivial task = bad_world task || (task.elem_count == 0 || is_alone task)

-- The phases that an AllReduce is in, and the steps: it ends when the step has reached the last one.
abbrev pub in_allreduce : PlanTask → Phase → ℕ → Bool
in_allreduce task phase step =
    is_reduce_scatter phase
    || (is_all_gather phase
        || (is_finished phase && (is_trivial task || leb (total_ops task) step)))

-- The steps once round the ring: a step but the last is followed by another one.
abbrev pub in_round : PlanTask → Phase → ℕ → Bool
in_round task phase step =
    is_trivial task
    || (if is_finished phase
        then eqb_ℤ (pos (step + 1)) task.world_size
        else ltb_ℤ (pos (step + 1)) task.world_size)

abbrev pub anywhere : Phase → ℕ → Bool
anywhere phase step = true

-- How many more turns a loop may make.
abbrev pub forward_left : Phase → ℕ → ℕ
forward_left phase step = if is_finished phase then 0 else if is_receiving phase then 2 else 1

abbrev pub round_left : PlanTask → Phase → ℕ → ℕ
round_left task phase step = if is_finished phase then 0 else suc (to_size task.world_size - step)

abbrev pub allreduce_left : PlanTask → Phase → ℕ → ℕ
allreduce_left task phase step =
    if is_finished phase
    then 0
    else if is_reduce_scatter phase
    then 2 + total_ops task + (total_ops task - step)
    else 1 + (total_ops task - step)

pub before-lt : (n : ℤ) (k : ℕ) → ltb_ℤ (pos k) (n -ℤ pos 1) ≡ true → k < to_size n
unfolding ◌-ℤ◌
before-lt (pos n) k h = ground arith
before-lt (negsuc n) k h = ground arith

pub round-decreases :
    (task : PlanTask) (phase : Phase) (step : ℕ)
    → is_finished phase ≡ false
    → round_left task
        (if is_before_last task (step + 1) then Phase.exchange else Phase.finished)
        (step + 1)
      < round_left task phase step
round-decreases task phase step e =
    by_test (λ p. round_left task p (step + 1) < round_left task phase step)
      (is_before_last task (step + 1))
      (λ t. rw e (omega (arith, before-lt task.world_size (step + 1) t))) (λ f. rw e (omega arith))

pub before_next : (n : ℤ) (k : ℕ) → ltb_ℤ (pos k) (n -ℤ pos 1) ≡ true → ltb_ℤ (pos (k + 1)) n ≡ true
unfolding ◌-ℤ◌
before_next (pos n) k h = ground arith
before_next (negsuc n) k h = ground arith

pub at_last :
    (n : ℤ) (k : ℕ)
    → ltb_ℤ (pos k) (n -ℤ pos 1) ≡ false
    → ltb_ℤ (pos k) n ≡ true
    → eqb_ℤ (pos (k + 1)) n ≡ true
unfolding ◌-ℤ◌
at_last (pos n) k h l = ground arith
at_last (negsuc n) k h l = ground arith

pub first_round : (task : PlanTask) → in_round task Phase.exchange 0 ≡ true
first_round task = ground arith

pub next_round :
    (task : PlanTask) (phase : Phase) (step : ℕ)
    → in_round task phase step ≡ true
    → is_finished phase ≡ false
    → in_round task
        (if is_before_last task (step + 1) then Phase.exchange else Phase.finished)
        (step + 1)
      ≡ true
next_round task phase step h e = elim (Bool-cases (is_trivial task)) [
  | inl t ↦ rw t refl
  | inr f ↦
      by_test (λ p. in_round task p (step + 1) ≡ true) (is_before_last task (step + 1))
        (λ t. rw f (before_next task.world_size (step + 1) t))
        (λ t. rw f (at_last task.world_size (step + 1) t (ground (arith, f, e, h))))
]

pub forward-decreases :
    (phase : Phase) (step step' : ℕ) (passes : Bool)
    → is_finished phase ≡ false
    → forward_left (if is_receiving phase && passes then Phase.sending else Phase.finished) step'
      < forward_left phase step
forward-decreases phase step step' passes e = ground arith

pub to_gather :
    (task : PlanTask) (phase : Phase) (step : ℕ)
    → is_reduce_scatter phase && leb (total_ops task) (step + 1) ≡ true
    → allreduce_left task Phase.all_gather 0 < allreduce_left task phase step
to_gather task phase step h = ground arith

pub same_pass :
    (task : PlanTask) (phase : Phase) (step : ℕ)
    → in_allreduce task phase step ≡ true
    → is_finished phase ≡ false
    → in_allreduce task phase (step + 1) ≡ true
same_pass task phase step h e = ground (arith, h, e)

pub next_step :
    (task : PlanTask) (phase : Phase) (step : ℕ)
    → in_allreduce task phase step ≡ true
    → is_finished phase ≡ false
    → is_reduce_scatter phase && leb (total_ops task) (step + 1) ≡ false
    → is_all_gather phase && leb (total_ops task) (step + 1) ≡ false
    → allreduce_left task phase (step + 1) < allreduce_left task phase step
next_step task phase step a h r g = ground arith
