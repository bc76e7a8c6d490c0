-- ===== src/Planner/Batch/Collectives.antt =====
-- About what collectives do to a plan, src/planner.cpp: they add no message to it.
use origin_ccl.Prelude.{
  ℕ, zero, suc, ◌≡◌, ◌+◌, ◌%◌, Bool, false, Option, none, some, List, [], ◌∷◌, ◌++◌, get_elem?,
  by_test, if◌then◌else◌,
}
use origin_ccl.Prelude.Int.{negsuc}
use origin_ccl.Types.{CollTask, PlanTask, CollPlan, Channel}
use origin_ccl.Outcome.{Outcome, ok, failed, thrown, ◌>>=◌, at}
use origin_ccl.Topology.{fill_transports}
use origin_ccl.Planner.Slices.{
  Comm, Split, max_channels, split_of, kind_of, slice_task, slice_elems, push_at, emit_slice,
  emit_loop, emit_collective_slices,
}
use origin_ccl.Planner.Batch.{Network, Site, Joined, of_outcome}
use origin_ccl.Planner.Batch.Planning.{comm_of, plan_collectives}
use origin_ccl.Planner.Batch.Joining.{Result, >>=-Result}
use origin_ccl.Planner.Batch.Linked.{is_message, slice_no_message}

-- `Q` stays when a task that is no message is pushed to a channel, and when the flat slices change.
module _ (Q : CollPlan → Type 0)
    (pushed : (plan : CollPlan) (id : ℕ) (task : PlanTask)
      → is_message task ≡ false
      → Q plan
      → Q (record plan { channels = push_at plan.channels id task }))
    (sliced : (plan : CollPlan) (slices : List PlanTask)
      → Q plan
      → Q (record plan { slices = slices })) where
  -- What is known of an outcome that gives a plan.
  abbrev pub Keeping : Outcome CollPlan → Type 0
  Keeping (ok plan) = Q plan
  Keeping failed = Unit
  Keeping thrown = Unit

  then-Keeping :
      (o : Outcome CollPlan) (f : CollPlan → Outcome CollPlan)
      → Keeping o
      → ((plan : CollPlan) → Q plan → Keeping (f plan))
      → Keeping (o >>= f)
  then-Keeping (ok plan) f h k = k plan h
  then-Keeping failed f h k = tt
  then-Keeping thrown f h k = tt

  emit_slice-Keeping :
      (comm : Comm) (task : CollTask) (s : Split) (bind : Bool) (c offset : ℕ) (plan : CollPlan)
      → Q plan
      → Keeping (emit_slice comm task s bind c offset plan)
  unfolding emit_slice
  emit_slice-Keeping comm task s bind c offset plan h =
      go (get_elem? comm.channels (c % max_channels comm))
    where
      go :
          (o : Option Channel)
          → Keeping (
              at o >>= λ channel. ok (
                if bind
                then record plan {
                  channels = push_at plan.channels (c % max_channels comm) (
                      fill_transports
                        (kind_of s)
                        channel
                        (slice_task comm task s (slice_elems s c) offset channel.id));
                }
                else record plan {
                  slices =
                      plan.slices
                      ++ (slice_task comm task s (slice_elems s c) offset (negsuc 0) ∷ []);
                }))
      go none = tt
      go (some channel) =
          by_test (λ (p : CollPlan). Q p) bind
            (λ e.
              pushed plan (c % max_channels comm) _
                (slice_no_message comm task s (slice_elems s c) offset channel.id channel) h)
            (λ e. sliced plan _ h)

  emit_loop-Keeping :
      (comm : Comm) (task : CollTask) (s : Split) (bind : Bool) (left c offset : ℕ)
      (plan : CollPlan)
      → Q plan
      → Keeping (emit_loop comm task s bind left c offset plan)
  unfolding emit_loop
  emit_loop-Keeping comm task s bind zero c offset plan h = h
  emit_loop-Keeping comm task s bind (suc left) c offset plan h =
      then-Keeping (emit_slice comm task s bind c offset plan) _
        (emit_slice-Keeping comm task s bind c offset plan h)
        (λ next k. emit_loop-Keeping comm task s bind left (c + 1) _ next k)

  -- So does a whole collective.
  pub emit_collective_slices-Keeping :
      (comm : Comm) (task : CollTask) (plan : CollPlan) (bind : Bool)
      → Q plan
      → Keeping (emit_collective_slices comm task plan bind)
  unfolding emit_collective_slices
  emit_collective_slices-Keeping comm task plan bind h =
      emit_loop-Keeping comm task (split_of comm task) bind (split_of comm task).n_used 0 0 plan h

  module _ (network : Network) (site : Site) where
    pub plan_collectives-Result :
        (bind : Bool) (tasks : List CollTask) (j : Joined network site) (plan : CollPlan)
        → Q plan
        → Result Q (plan_collectives network site bind tasks j plan)
    unfolding plan_collectives
    plan_collectives-Result bind [] j plan h = h
    plan_collectives-Result bind (t ∷ ts) j plan h =
        >>=-Result Q Q (of_outcome (emit_collective_slices (comm_of network site j) t plan bind)) _
          (of_outcome-Result _
            (emit_collective_slices-Keeping (comm_of network site j) t plan bind h))
          (λ next k. plan_collectives-Result bind ts j next k)
      where
        of_outcome-Result : (o : Outcome CollPlan) → Keeping o → Result Q (of_outcome o)
        of_outcome-Result (ok p) k = k
        of_outcome-Result failed k = tt
        of_outcome-Result thrown k = tt
