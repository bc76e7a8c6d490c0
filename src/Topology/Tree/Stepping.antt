-- ===== src/Topology/Tree/Stepping.antt =====
-- AllReduce on the trees, src/topology/topology_tree.cpp: chunks, places, gates, and the loops over roles and edges.
use origin_ccl.Prelude.{
  ℕ, zero, suc, ◌+◌, ◌-◌, ◌*◌, ◌/◌, ◌%◌, ◌^◌, min, Bool, true, false, not, ◌&&◌, Option, none, some,
  List, [], ◌∷◌, ltb, leb, ◌==◌, if◌then◌else◌,
}
use origin_ccl.Types.{PlanTask}
use origin_ccl.Utils.{data_type_size}
use origin_ccl.Topology.Stepping.{Place, place_at, OpState, Wires, step_op}
use origin_ccl.Topology.Tree.{Role}

pub data Phase : Type 0 where
  unstarted up down finished : Phase

abbrev pub is_unstarted : Phase → Bool
is_unstarted Phase.unstarted = true
is_unstarted phase = false

abbrev pub is_up : Phase → Bool
is_up Phase.up = true
is_up phase = false

abbrev pub is_down : Phase → Bool
is_down Phase.down = true
is_down phase = false

abbrev pub is_finished : Phase → Bool
is_finished Phase.finished = true
is_finished phase = false

-- `TypeSize`, `ChunkCount`, `ChunkElems`, `ChunkBytes`, `ChunkOffset`
unfoldable pub chunk_count : PlanTask → ℕ
chunk_count task =
    if task.chunk_size == 0
    then 0
    else (task.elem_count + task.chunk_size + (2 ^ 64 - 1)) % 2 ^ 64 / task.chunk_size

unfoldable pub chunk_elems : PlanTask → ℕ → ℕ
chunk_elems task chunk =
    let start : ℕ = chunk * task.chunk_size % 2 ^ 64 in
    if leb task.elem_count start then 0 else min task.chunk_size (task.elem_count - start)

unfoldable pub chunk_bytes : PlanTask → ℕ → ℕ
chunk_bytes task chunk = chunk_elems task chunk * data_type_size task.dtype % 2 ^ 64

unfoldable pub chunk_offset : PlanTask → ℕ → ℕ
chunk_offset task chunk = chunk * task.chunk_size * data_type_size task.dtype % 2 ^ 64

-- The offset of an edge's scratch chunk in `temp_buffer`.
unfoldable pub scratch_offset : PlanTask → ℕ → ℕ
scratch_offset task edge = edge * task.chunk_size * data_type_size task.dtype % 2 ^ 64

abbrev pub is_input_role : Role → Bool
is_input_role Role.star = true
is_input_role Role.tree_down = true
is_input_role Role.tree_up = false

abbrev pub is_up_role : Role → Bool
is_up_role Role.tree_up = true
is_up_role role = false

-- Whether `ParentEdge` finds an edge, and what it reads of a vector at that edge.
abbrev pub has_parent : List Role → Bool
has_parent [] = false
has_parent (Role.tree_up ∷ roles) = true
has_parent (role ∷ roles) = has_parent roles

abbrev pub at_parent : ℕ → List Role → List ℕ → ℕ
at_parent missing [] chunks = missing
at_parent missing (role ∷ roles) [] = missing
at_parent missing (Role.tree_up ∷ roles) (c ∷ chunks) = c
at_parent missing (role ∷ roles) (c ∷ chunks) = at_parent missing roles chunks

unfoldable pub send_source : PlanTask → Bool → ℕ → Place
send_source task is_leader chunk =
    place_at (if is_leader then task.recv_buf else task.send_buf) (chunk_offset task chunk)

unfoldable pub recv_target : PlanTask → Bool → Role → ℕ → ℕ → Place
recv_target task is_leader role edge chunk =
    if is_leader && is_input_role role
    then Place.temp (scratch_offset task edge)
    else place_at task.recv_buf (chunk_offset task chunk)

-- The loops over the roles. A vector that is shorter than the roles ends them: the vectors have an
-- element for each transport, and there are as many transports as roles.
unfoldable pub min_input : ℕ → List Role → List ℕ → ℕ
min_input best [] chunks = best
min_input best (role ∷ roles) [] = best
min_input best (role ∷ roles) (c ∷ chunks) =
    min_input (if is_input_role role then min best c else best) roles chunks

unfoldable pub all_reached : (Role → Bool) → ℕ → List Role → List ℕ → Bool
all_reached picks n [] chunks = true
all_reached picks n (role ∷ roles) [] = true
all_reached picks n (role ∷ roles) (c ∷ chunks) =
    not (picks role && ltb c n) && all_reached picks n roles chunks

abbrev any_role : Role → Bool
any_role role = true

unfoldable pub up_complete : PlanTask → List Role → Bool → OpState Phase → Bool
up_complete task roles is_leader s =
    if is_leader
    then all_reached is_input_role (chunk_count task) roles s.recv_chunk
      && all_reached is_up_role (chunk_count task) roles s.send_chunk
    else all_reached any_role (chunk_count task) roles s.send_chunk

unfoldable pub down_complete : PlanTask → List Role → Bool → OpState Phase → Bool
down_complete task roles is_leader s =
    if is_leader
    then all_reached is_up_role (chunk_count task) roles s.recv_chunk
      && all_reached is_input_role (chunk_count task) roles s.send_chunk
    else all_reached any_role (chunk_count task) roles s.recv_chunk

-- The edges that are received from and sent to in a phase.
unfoldable pub recv_eligible : Bool → Phase → Role → Bool
recv_eligible is_leader phase role =
    if is_leader
    then (if is_up phase then is_input_role role else is_up_role role)
    else is_down phase

unfoldable pub send_eligible : Bool → Phase → Role → Bool
send_eligible is_leader phase role =
    if is_leader then (if is_up phase then is_up_role role else is_input_role role) else is_up phase

-- How many chunks may have been sent.
unfoldable pub send_gate : PlanTask → List Role → Bool → OpState Phase → ℕ
send_gate task roles is_leader s =
    if is_leader
    then (if is_up s.phase
        then min_input (chunk_count task) roles s.recv_chunk
        else at_parent (chunk_count task) roles s.recv_chunk)
    else chunk_count task

-- The progress, the flag and the chunk of an edge.
abbrev pub Edge : Type 0
Edge = ℕ × (Bool × ℕ)

-- The vectors of a side.
abbrev pub Side : Type 0
Side = List ℕ × (List Bool × List ℕ)

abbrev pub add_edge : {W : Type 0} → Edge → Option (Side × W) → Option (Side × W)
add_edge e none = none
add_edge (p, (d, c)) (some ((ps, (ds, cs)), w)) = some ((p ∷ ps, (d ∷ ds, c ∷ cs)), w)

module _ (wires : Wires) where
  open wires use {World, try_send, try_recv, copy, reduce, average}

  abbrev pub St : Type 0
  St = OpState Phase × World

  unfoldable pub reduce_chunk : PlanTask → ℕ → ℕ → World → World
  reduce_chunk task edge chunk w =
      reduce (Place.temp (scratch_offset task edge))
        (place_at task.recv_buf (chunk_offset task chunk)) (chunk_elems task chunk) task.dtype
        (step_op task.reduce_op) w

  -- The `while` loop of one edge, which has `left` chunks below its bound to go. `place` and `after` are what the
  -- side does with a chunk: where it is, and what follows when it is through.
  unfoldable pub push_chunks :
      (ℕ → Place → ℕ → ℕ → World → Option (ℕ × (Bool × World)))
      → (ℕ → ℕ)
      → (ℕ → Place)
      → (ℕ → World → World)
      → ℕ
      → ℕ
      → Edge
      → World
      → Option (Edge × World)
  push_chunks try bytes place after t zero e w = some (e, w)
  push_chunks try bytes place after t (suc left) (p, (d, c)) w =
      elim (try t (place c) (bytes c) (if d then 0 else p) w) [
        | none ↦ none
        | some (p', (false, w')) ↦ some ((p', (false, c)), w')
        | some (p', (true, w')) ↦
            push_chunks try bytes place after t left (p', (true, c + 1)) (after c w')
      ]

  -- The loop over the transports of a side from edge `i` on, to `bound` chunks.
  unfoldable pub push_edges :
      (ℕ → Place → ℕ → ℕ → World → Option (ℕ × (Bool × World)))
      → (ℕ → ℕ)
      → (Role → ℕ → ℕ → Place)
      → (Role → ℕ → ℕ → World → World)
      → (Role → Bool)
      → ℕ
      → ℕ
      → List Role
      → List (Option ℕ)
      → Side
      → World
      → Option (Side × World)
  push_edges try bytes place after eligible bound i roles [] side w = some (side, w)
  push_edges try bytes place after eligible bound i (role ∷ roles) (t ∷ ts)
        (p ∷ ps, (d ∷ ds, c ∷ cs)) w =
      if not (eligible role)
      then add_edge (p, (d, c))
          (push_edges try bytes place after eligible bound (i + 1) roles ts (ps, (ds, cs)) w)
      else elim t [
        | none ↦ none
        | some t' ↦
            elim (push_chunks try bytes (place role i) (after role i) t' (bound - c) (p, (d, c))
              w) [
                | none ↦ none
                | some (e, w') ↦ add_edge e (
                    push_edges try bytes place after eligible bound (i + 1) roles ts (ps, (ds, cs))
                      w')
              ]
      ]
  push_edges try bytes place after eligible bound i roles ts side w = none
