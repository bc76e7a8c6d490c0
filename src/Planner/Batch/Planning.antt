-- ===== src/Planner/Batch/Planning.antt =====
-- `PlanP2pRound`, `PlanCollective` and `Plan` of src/planner.cpp.
use origin_ccl.Prelude.{
  ℕ, zero, suc, ◌+◌, ◌-◌, Bool, true, false, not, ◌&&◌, some, List, [], ◌∷◌, all, length, keep,
  if◌then◌else◌,
}
use origin_ccl.Prelude.Int.{ℤ, pos, pos_part, eqb_ℤ}
use origin_ccl.Types.{CollFunc, CollTask, PlanTask, new_plan_task, CollPlan, Channel, TopologyKind}
use origin_ccl.Topology.{fill_transports}
use origin_ccl.Topology.Stepping.{is_empty}
use origin_ccl.Planner.Validate.{is_p2p, ◌is◌, validate_collective_task}
use origin_ccl.Planner.Rounds.{p2p_round_of}
use origin_ccl.Planner.Peers.{validate_p2p}
use origin_ccl.Planner.Slices.{Comm, push_at, emit_collective_slices, new_plan}
use origin_ccl.Planner.Batch.{
  Ending, ok, failed, ◌>>=◌, of_outcome, channel_at, Network, Site, Joined, prepare_round,
}

module _ (network : Network) (site : Site) where
  -- The batch: a message of a round, and the lambda `append`.
  abbrev pub is_of_round : ℤ → CollTask → Bool
  is_of_round round task =
      is_p2p task.func
      && eqb_ℤ (p2p_round_of task.func site.peers.rank task.peer site.peers.world_size) round

  abbrev pub is_send : CollTask → Bool
  is_send task = task.func is CollFunc.send

  abbrev pub message_task : CollTask → ℕ → PlanTask
  message_task task channel_id = record new_plan_task {
    func = task.func;
    send_buf = task.send_buf;
    recv_buf = task.recv_buf;
    elem_count = task.count;
    dtype = task.dtype;
    peer = task.peer;
    channel_id = pos channel_id;
    rank = site.peers.rank;
    world_size = site.peers.world_size;
    topology = some TopologyKind.p2p;
  }

  unfoldable pub append_all : List Channel → List CollTask → ℕ → CollPlan → Ending CollPlan
  append_all channels [] channel_id plan = ok plan
  append_all channels (task ∷ tasks) channel_id plan = channel_at channels channel_id >>= λ channel.
      append_all channels tasks channel_id (record plan {
        channels =
            push_at plan.channels channel_id
              (fill_transports TopologyKind.p2p channel (message_task task channel_id));
      })

  unfoldable pub plan_p2p_round :
      ℕ
      → List Bool
      → List CollTask
      → ℤ
      → Joined network site × CollPlan
      → Ending (Joined network site × CollPlan)
  plan_p2p_round fuel schedule tasks round (j, plan) =
      let sends : List CollTask = keep (λ t. is_of_round round t && is_send t) tasks in
      let recvs : List CollTask = keep (λ t. is_of_round round t && not (is_send t)) tasks in
      if is_empty sends && is_empty recvs
      then ok (j, plan)
      else prepare_round network site fuel schedule sends recvs j >>= λ (b, next).
          if not b
          then failed
          else append_all next.channels sends 0 plan >>= λ sent.
              append_all next.channels recvs 1 sent >>= λ received. ok (next, received)

  -- The rounds from `round` on, of which `left` are still to go; `schedules` gives that of each.
  unfoldable pub plan_rounds :
      ℕ
      → (ℕ → List Bool)
      → List CollTask
      → ℕ
      → ℕ
      → Joined network site × CollPlan
      → Ending (Joined network site × CollPlan)
  plan_rounds fuel schedules tasks zero round st = ok st
  plan_rounds fuel schedules tasks (suc left) round st =
      plan_p2p_round fuel (schedules round) tasks (pos round) st >>= λ next.
      plan_rounds fuel schedules tasks left (round + 1) next

  abbrev pub comm_of : Joined network site → Comm
  comm_of j = record {
    rank = site.peers.rank;
    world_size = site.peers.world_size;
    channels = j.channels;
  }

  -- `EmitCollectiveSlices` of each task; `PlanCollective` binds the slices.
  unfoldable pub plan_collectives :
      Bool → List CollTask → Joined network site → CollPlan → Ending CollPlan
  plan_collectives bind [] j plan = ok plan
  plan_collectives bind (task ∷ tasks) j plan =
      of_outcome (emit_collective_slices (comm_of j) task plan bind) >>= λ next.
      plan_collectives bind tasks j next

  abbrev pub is_valid : CollTask → Bool
  is_valid task =
      if is_p2p task.func
      then validate_p2p site.peers task
      else validate_collective_task task site.peers.rank site.peers.world_size

  -- `Plan`
  unfoldable pub plan_batch :
      ℕ
      → (ℕ → List Bool)
      → Bool
      → List CollTask
      → Joined network site
      → Ending (Joined network site × CollPlan)
  plan_batch fuel schedules dynamic tasks j =
      if not (all is_valid tasks)
      then failed
      else if dynamic
      then (plan_collectives false tasks j (new_plan (length j.channels)) >>= λ plan. ok (j, plan))
      else (plan_collectives true (keep (λ t. not (is_p2p t.func)) tasks) j
            (new_plan (length j.channels))
          >>= λ plan.
              plan_rounds fuel schedules tasks (pos_part site.peers.world_size - 1) 1 (j, plan))
