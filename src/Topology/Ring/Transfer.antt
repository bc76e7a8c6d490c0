-- ===== src/Topology/Ring/Transfer.antt =====
-- How the ring moves a step's bytes: `PushBuffer`, `BeginPhase` and the places of a step's data,
-- src/topology/topology_ring.cpp.
use origin_ccl.Prelude.{
  ℕ, ◌*◌, ◌%◌, ◌^◌, Bool, true, false, ◌||◌, Option, none, some, List, [], ◌∷◌, replicate, length,
  ◌==◌, if◌then◌else◌,
}
use origin_ccl.Prelude.Int.{ℤ, pos, to_size, ◌+ℤ◌, ◌-ℤ◌, ◌*ℤ◌, ◌%ℤ◌}
use origin_ccl.Types.{PlanTask, CollEvent}
use origin_ccl.Utils.{data_type_size}
use origin_ccl.Topology.Stepping.{Place, place_at, OpState, Wires}
use origin_ccl.Topology.Ring.Schedule.{
  Phase, is_reduce_scatter, Cursor, allreduce_send_chunk, allreduce_recv_chunk,
}

abbrev pub cursor_of : OpState Phase → Cursor
cursor_of s = record { phase = s.phase; step = s.step }

unfoldable pub block_bytes : PlanTask → ℕ
block_bytes task = task.elem_count * data_type_size task.dtype % 2 ^ 64

-- `OutputBlock` and `InputBlock`
unfoldable pub block_at : PlanTask → Option ℕ → ℤ → Place
block_at task base block =
    place_at base (to_size block * task.rank_stride * data_type_size task.dtype % 2 ^ 64)

unfoldable pub chunk_at : PlanTask → ℤ → Place
chunk_at task chunk =
    place_at task.recv_buf (to_size chunk * task.chunk_size * data_type_size task.dtype % 2 ^ 64)

unfoldable pub allreduce_recv_ptr : PlanTask → OpState Phase → Place
allreduce_recv_ptr task s =
    if is_reduce_scatter s.phase
    then Place.temp 0
    else chunk_at task (allreduce_recv_chunk task (cursor_of s))

unfoldable pub allreduce_send_ptr : PlanTask → OpState Phase → Place
allreduce_send_ptr task s = chunk_at task (allreduce_send_chunk task (cursor_of s))

unfoldable pub all_gather_send_ptr : PlanTask → OpState Phase → Place
all_gather_send_ptr task s =
    block_at task task.recv_buf ((task.rank -ℤ pos s.step +ℤ task.world_size) %ℤ task.world_size)

unfoldable pub all_gather_recv_ptr : PlanTask → OpState Phase → Place
all_gather_recv_ptr task s =
    block_at task task.recv_buf
      ((task.rank -ℤ pos s.step -ℤ pos 1 +ℤ task.world_size) %ℤ task.world_size)

unfoldable pub reduce_scatter_send_ptr : PlanTask → OpState Phase → Place
reduce_scatter_send_ptr task s = if s.step % 2 == 0 then place_at task.recv_buf 0 else Place.temp 0

unfoldable pub reduce_scatter_recv_ptr : PlanTask → OpState Phase → Place
reduce_scatter_recv_ptr task s = if s.step % 2 == 0 then Place.temp 0 else place_at task.recv_buf 0

unfoldable pub root_position : PlanTask → ℤ
root_position task = (task.rank -ℤ task.root +ℤ task.world_size) %ℤ task.world_size

unfoldable pub reduce_scatter_input_chunk : PlanTask → OpState Phase → ℤ
reduce_scatter_input_chunk task s =
    (task.rank -ℤ pos s.step -ℤ pos 2 +ℤ pos 2 *ℤ task.world_size) %ℤ task.world_size

abbrev pub skips_send : Phase → Bool
skips_send Phase.receiving = true
skips_send Phase.finished = true
skips_send _ = false

abbrev pub skips_recv : Phase → Bool
skips_recv Phase.sending = true
skips_recv Phase.finished = true
skips_recv _ = false

-- The state before anything is pushed.
unfoldable pub begin_state : PlanTask → Phase → ℕ → ℕ → OpState Phase → OpState Phase
begin_state task phase send_bytes recv_bytes s = record s {
  phase = phase;
  send_progress = replicate (length task.send_transports) 0;
  recv_progress = replicate (length task.recv_transports) 0;
  send_done = replicate (length task.send_transports) (skips_send phase || send_bytes == 0);
  recv_done = replicate (length task.recv_transports) (skips_recv phase || recv_bytes == 0);
}

module _ (wires : Wires) where
  open wires use {World, try_send, try_recv}

  -- The loop over the transports of a side. A transport that is null, or vectors of fewer elements than
  -- there are transports, are undefined behaviour, and end the call here.
  unfoldable pub push_side :
      (ℕ → Place → ℕ → ℕ → World → Option (ℕ × (Bool × World)))
      → Place
      → ℕ
      → List (Option ℕ)
      → List ℕ
      → List Bool
      → World
      → Option (List ℕ × (List Bool × World))
  push_side try place bytes [] ps ds w = some (ps, (ds, w))
  push_side try place bytes (t ∷ ts) [] ds w = none
  push_side try place bytes (t ∷ ts) (p ∷ ps) [] w = none
  push_side try place bytes (t ∷ ts) (p ∷ ps) (true ∷ ds) w =
      elim (push_side try place bytes ts ps ds w) [
        | none ↦ none
        | some (ps', (ds', w')) ↦ some (p ∷ ps', (true ∷ ds', w'))
      ]
  push_side try place bytes (none ∷ ts) (p ∷ ps) (false ∷ ds) w = none
  push_side try place bytes (some t ∷ ts) (p ∷ ps) (false ∷ ds) w = elim (try t place bytes p w) [
    | none ↦ none
    | some (p', (d', w')) ↦ elim (push_side try place bytes ts ps ds w') [
      | none ↦ none
      | some (ps', (ds', w'')) ↦ some (p' ∷ ps', (d' ∷ ds', w''))
    ]
  ]

  unfoldable pub push_sends :
      PlanTask → Place → ℕ → OpState Phase × World → Option (OpState Phase × World)
  push_sends task place bytes (s, w) =
      elim (push_side try_send place bytes task.send_transports s.send_progress s.send_done w) [
        | none ↦ none
        | some (ps, (ds, w')) ↦ some (record s { send_progress = ps; send_done = ds }, w')
      ]

  unfoldable pub push_recvs :
      PlanTask → Place → ℕ → OpState Phase × World → Option (OpState Phase × World)
  push_recvs task place bytes (s, w) =
      elim (push_side try_recv place bytes task.recv_transports s.recv_progress s.recv_done w) [
        | none ↦ none
        | some (ps, (ds, w')) ↦ some (record s { recv_progress = ps; recv_done = ds }, w')
      ]

  unfoldable pub push_buffer :
      PlanTask
      → CollEvent
      → Place
      → Place
      → ℕ
      → ℕ
      → OpState Phase × World
      → Option (OpState Phase × World)
  push_buffer task CollEvent.writable from into send_bytes recv_bytes st =
      push_sends task from send_bytes st
  push_buffer task CollEvent.readable from into send_bytes recv_bytes st =
      push_recvs task into recv_bytes st

  unfoldable pub begin_phase :
      PlanTask
      → Phase
      → Place
      → Place
      → ℕ
      → ℕ
      → OpState Phase × World
      → Option (OpState Phase × World)
  begin_phase task phase from into send_bytes recv_bytes (s, w) =
      elim (push_sends task from send_bytes (begin_state task phase send_bytes recv_bytes s, w)) [
        | none ↦ none
        | some st ↦ push_recvs task into recv_bytes st
      ]
