-- ===== src/Topology/Tree/Calls.antt =====
-- The calls of the tree, src/topology/topology_tree.cpp: `PushRecvs`, `PushSends`, `EnterDown`, `Advance`,
-- `TreeInit`, `CollectiveInit`, `CollectiveStep`, `CollectiveDone`.
use origin_ccl.Prelude.{
  ℕ, suc, ◌*◌, ◌%◌, ◌^◌, Bool, true, not, ◌&&◌, ◌||◌, Option, none, some, List, [], ◌∷◌, replicate,
  length, ◌==◌, if◌then◌else◌,
}
use origin_ccl.Prelude.Int.{pos, ltb_ℤ, eqb_ℤ}
use origin_ccl.Types.{PlanTask, CollFunc, CollEvent}
use origin_ccl.Utils.{data_type_size}
use origin_ccl.Planner.Validate.{is_null, ◌is◌}
use origin_ccl.Topology.Stepping.{
  place_at, OpState, new_state, Wires, Run, ok, failed, ◌>>=◌, Turn, then_again, finish, turns,
  is_avg, is_empty, same_buffer,
}
use origin_ccl.Topology.Tree.{Role}
use origin_ccl.Topology.Tree.Stepping.{
  Phase, is_unstarted, is_up, is_down, is_finished, chunk_count, chunk_bytes, is_input_role,
  has_parent, send_source, recv_target, up_complete, down_complete, recv_eligible, send_eligible,
  send_gate, Side, St, reduce_chunk, push_edges,
}

abbrev pub count_inputs : List Role → ℕ
count_inputs [] = 0
count_inputs (role ∷ roles) =
    if is_input_role role then suc (count_inputs roles) else count_inputs roles

-- The size of `temp_buffer`.
unfoldable pub scratch_size : PlanTask → List Role → ℕ
scratch_size task roles = count_inputs roles * task.chunk_size * data_type_size task.dtype % 2 ^ 64

-- The vectors of a new task and those of the second phase.
unfoldable pub blank_side : List (Option ℕ) → Side
blank_side ts = (replicate (length ts) 0, (replicate (length ts) true, replicate (length ts) 0))

abbrev pub with_recvs : OpState Phase → Side → OpState Phase
with_recvs s (ps, (ds, cs)) = record s { recv_progress = ps; recv_done = ds; recv_chunk = cs }

abbrev pub with_sends : OpState Phase → Side → OpState Phase
with_sends s (ps, (ds, cs)) = record s { send_progress = ps; send_done = ds; send_chunk = cs }

-- `CollOpState{}` with the vectors as `TreeInit` assigns them.
unfoldable pub blank_state : PlanTask → OpState Phase
blank_state task =
    with_sends (with_recvs (new_state Phase.unstarted) (blank_side task.recv_transports))
      (blank_side task.send_transports)

module _ (wires : Wires) (task : PlanTask) (roles : List Role) (is_leader : Bool) where
  open wires use {World, try_send, try_recv, copy, average}

  -- What follows a chunk that is received, and one that is sent.
  abbrev pub after_recv : Role → ℕ → ℕ → World → World
  after_recv role edge chunk w =
      if is_leader && is_input_role role then reduce_chunk wires task edge chunk w else w

  abbrev pub after_send : Role → ℕ → ℕ → World → World
  after_send role edge chunk w = w

  unfoldable pub recv_edges : Phase → Side → World → Option (Side × World)
  recv_edges phase side w =
      push_edges wires try_recv (chunk_bytes task) (recv_target task is_leader) after_recv
        (recv_eligible is_leader phase) (chunk_count task) 0 roles task.recv_transports side w

  unfoldable pub send_edges : Phase → ℕ → Side → World → Option (Side × World)
  send_edges phase gate side w =
      push_edges wires try_send (chunk_bytes task)
        (λ role edge chunk. send_source task is_leader chunk) after_send
        (send_eligible is_leader phase) gate 0 roles task.send_transports side w

  unfoldable pub push_recvs : St wires → Option (St wires)
  push_recvs (s, w) = elim (recv_edges s.phase (s.recv_progress, (s.recv_done, s.recv_chunk)) w) [
    | none ↦ none
    | some (side, w') ↦ some (with_recvs s side, w')
  ]

  unfoldable pub push_sends : St wires → Option (St wires)
  push_sends (s, w) =
      elim (send_edges s.phase (send_gate task roles is_leader s)
        (s.send_progress, (s.send_done, s.send_chunk)) w) [
          | none ↦ none
          | some (side, w') ↦ some (with_sends s side, w')
        ]

  unfoldable pub push_both : St wires → Option (St wires)
  push_both st = elim (push_recvs st) [ none ↦ none | some st' ↦ push_sends st' ]

  unfoldable pub enter_down : St wires → St wires
  enter_down (s, w) = (
    with_sends (with_recvs (record s { phase = Phase.down }) (blank_side task.recv_transports))
        (blank_side task.send_transports),
    if is_leader && (not (has_parent roles) && is_avg task.reduce_op)
        then average (place_at task.recv_buf 0) task.elem_count task.dtype task.world_size w
        else w,
  )

  -- A turn of the loop of `Advance`.
  unfoldable pub advance_turn : St wires → Turn (St wires)
  advance_turn (s, w) =
      if not (is_up s.phase || is_down s.phase)
      then Turn.stop (s, w)
      else if is_up s.phase && not (up_complete task roles is_leader s)
      then Turn.stop (s, w)
      else if is_down s.phase && not (down_complete task roles is_leader s)
      then Turn.stop (s, w)
      else if is_up s.phase
      then then_again (push_both (enter_down (s, w)))
      else Turn.stop (record s { phase = Phase.finished }, w)

  -- There are two phases to go through.
  unfoldable pub advance : St wires → Run (St wires)
  advance = turns 3 advance_turn

  unfoldable pub push_and_advance : St wires → Run (St wires)
  push_and_advance st = finish (push_both st) >>= advance

  unfoldable pub tree_init : World → Run (St wires)
  tree_init w =
      let blank : OpState Phase = blank_state task in
      let type_size : ℕ = data_type_size task.dtype in
      let copied : World =
        if same_buffer task
        then w
        else copy (place_at task.recv_buf 0) (place_at task.send_buf 0)
            (task.elem_count * type_size % 2 ^ 64) w in
      let averaged : World =
        if is_avg task.reduce_op
        then average (place_at task.recv_buf 0) task.elem_count task.dtype task.world_size copied
        else copied in
      if not (task.func is CollFunc.all_reduce) || not (ltb_ℤ (pos 0) task.world_size)
      then failed
      else if task.elem_count == 0
      then ok (record blank { phase = Phase.finished }, w)
      else if is_null task.send_buf || is_null task.recv_buf
      then failed
      else if eqb_ℤ task.world_size (pos 1)
      then ok (record blank { phase = Phase.finished }, averaged)
      else if is_empty task.send_transports || is_empty task.recv_transports
      then failed
      else if is_leader
      then push_and_advance
          (record blank { phase = Phase.up; temp_size = scratch_size task roles }, copied)
      else push_and_advance (record blank { phase = Phase.up }, w)

  -- `CollectiveInit`, which tests the function itself first; `CollectiveStep` takes no heed of the event.
  unfoldable pub collective_init : World → Run (St wires)
  collective_init w = if not (task.func is CollFunc.all_reduce) then failed else tree_init w

  unfoldable pub collective_step : CollEvent → St wires → Run (St wires)
  collective_step event (s, w) = (if is_unstarted s.phase then tree_init w else ok (s, w)) >>= λ st.
      if is_finished st.0.phase then ok st else push_and_advance st

abbrev pub collective_done : OpState Phase → Bool
collective_done s = is_finished s.phase
