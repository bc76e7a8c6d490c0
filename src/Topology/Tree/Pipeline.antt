-- ===== src/Topology/Tree/Pipeline.antt =====
-- About `PushRecvs` and `PushSends`, src/topology/topology_tree.cpp: the order of the pipeline.
use origin_ccl.Prelude.{
  ℕ, ◌≡◌, ◌≤◌, refl, ◌∙◌, arith, Bool, true, false, ◌||◌, Option, none, some, List, if◌then◌else◌,
}
use origin_ccl.Types.{PlanTask}
use origin_ccl.Topology.Stepping.{OpState, Wires}
use origin_ccl.Topology.Stepping.Loops.{Gives, Gives-map}
use origin_ccl.Topology.Stepping.Regime.{IsRegime}
use origin_ccl.Topology.Tree.{Role}
use origin_ccl.Topology.Tree.Stepping.{
  Phase, is_up, is_down, chunk_count, min_input, at_parent, all_reached, up_complete, down_complete,
  recv_eligible, send_eligible, send_gate, chunk_bytes, send_source, recv_target, Side, St,
}
use origin_ccl.Topology.Tree.Calls.{
  with_recvs, with_sends, after_recv, after_send, recv_edges, send_edges, push_recvs, push_sends,
  push_both,
}
use origin_ccl.Topology.Tree.Edges.{IsFitting, HasMoved, push_edges-IsPushed}
use origin_ccl.Topology.Tree.Bounds.{
  IsWithin, IsWithin-mono, HasMoved-IsWithin, min_input-HasMoved, at_parent-HasMoved,
  all_reached-HasMoved, min_input-reached, at_parent-reached,
}

abbrev pub all_roles : Role → Bool
all_roles role = true

abbrev pub recvs_of : OpState Phase → Side
recvs_of s = (s.recv_progress, (s.recv_done, s.recv_chunk))

abbrev pub sends_of : OpState Phase → Side
sends_of s = (s.send_progress, (s.send_done, s.send_chunk))

-- The vectors have an element for each edge, no more chunks were received than there are, and none was sent that
-- the gate holds back: a leader passes a chunk up when all its inputs have it, and down when its parent
-- has sent it.
pub record IsPiped (task : PlanTask) (roles : List Role) (is_leader : Bool) (s : OpState Phase)
    : Type 0 where
  pub recvs_fit : IsFitting roles task.recv_transports (recvs_of s)
  pub sends_fit : IsFitting roles task.send_transports (sends_of s)
  pub received : IsWithin all_roles (chunk_count task) roles s.recv_chunk
  pub gated :
      IsWithin
        (send_eligible is_leader s.phase)
        (send_gate task roles is_leader s)
        roles
        s.send_chunk

module _ (task : PlanTask) (roles : List Role) (is_leader : Bool) where
  gate-HasMoved :
      (eligible : Role → Bool) (bound : ℕ) (instant : Bool) (s : OpState Phase) (side : Side)
      → HasMoved eligible bound instant roles s.recv_chunk side.1.1
      → send_gate task roles is_leader s ≤ send_gate task roles is_leader (with_recvs s side)
  unfolding send_gate
  gate-HasMoved eligible bound instant s (ps, (ds, cs)) m = ground (
    arith,
    min_input-HasMoved eligible bound instant (chunk_count task) (chunk_count task) roles
        s.recv_chunk cs (omega arith) m,
    at_parent-HasMoved eligible bound instant (chunk_count task) roles s.recv_chunk cs m,
  )

  -- A push in an instant world brings its phase to its end.
  abbrev pub IsComplete : OpState Phase → Type 0
  IsComplete s =
      (is_up s.phase ≡ true → up_complete task roles is_leader s ≡ true)
      × (is_down s.phase ≡ true → down_complete task roles is_leader s ≡ true)

  -- All chunks are received, and as many sent as the gate lets.
  abbrev AllReceived : OpState Phase → Type 0
  AllReceived s =
      all_reached (recv_eligible is_leader s.phase) (chunk_count task) roles s.recv_chunk ≡ true

  gate-reached :
      (s : OpState Phase)
      → AllReceived s
      → is_up s.phase || is_down s.phase ≡ true
      → chunk_count task ≤ send_gate task roles is_leader s
  unfolding send_gate recv_eligible
  gate-reached s = go is_leader s.phase
    where
      go :
          (leader : Bool) (phase : Phase)
          → all_reached (recv_eligible leader phase) (chunk_count task) roles s.recv_chunk ≡ true
          → is_up phase || is_down phase ≡ true
          → chunk_count task ≤ (
              if leader
              then (if is_up phase
                  then min_input (chunk_count task) roles s.recv_chunk
                  else at_parent (chunk_count task) roles s.recv_chunk)
              else chunk_count task)
      go false phase h p = omega arith
      go true Phase.up h p =
          min_input-reached (chunk_count task) (chunk_count task) roles s.recv_chunk (omega arith) h
      go true Phase.down h p = at_parent-reached (chunk_count task) roles s.recv_chunk h
      go true Phase.unstarted h p = absurd (ground (arith, p))
      go true Phase.finished h p = absurd (ground (arith, p))

  IsComplete-all_reached :
      (s : OpState Phase)
      → AllReceived s
      → all_reached (send_eligible is_leader s.phase) (chunk_count task) roles s.send_chunk ≡ true
      → IsComplete s
  unfolding up_complete down_complete recv_eligible send_eligible
  IsComplete-all_reached s r t =
      (λ e. up_of is_leader s.phase r t e, λ e. down_of is_leader s.phase r t e)
    where
      up_of :
          (leader : Bool) (phase : Phase)
          → all_reached (recv_eligible leader phase) (chunk_count task) roles s.recv_chunk ≡ true
          → all_reached (send_eligible leader phase) (chunk_count task) roles s.send_chunk ≡ true
          → is_up phase ≡ true
          → up_complete task roles leader s ≡ true
      up_of true Phase.up r t e = ground (arith, r, t)
      up_of false Phase.up r t e = t
      up_of leader Phase.down r t e = absurd (ground (arith, e))
      up_of leader Phase.unstarted r t e = absurd (ground (arith, e))
      up_of leader Phase.finished r t e = absurd (ground (arith, e))

      down_of :
          (leader : Bool) (phase : Phase)
          → all_reached (recv_eligible leader phase) (chunk_count task) roles s.recv_chunk ≡ true
          → all_reached (send_eligible leader phase) (chunk_count task) roles s.send_chunk ≡ true
          → is_down phase ≡ true
          → down_complete task roles leader s ≡ true
      down_of true Phase.down r t e = ground (arith, r, t)
      down_of false Phase.down r t e = r
      down_of leader Phase.up r t e = absurd (ground (arith, e))
      down_of leader Phase.unstarted r t e = absurd (ground (arith, e))
      down_of leader Phase.finished r t e = absurd (ground (arith, e))

  module _ (wires : Wires) (F : Type 0) (instant : Bool)
      (regime : IsRegime wires F instant task) where
    abbrev Received : OpState Phase → St wires → Type 0
    Received s out =
        IsPiped task roles is_leader out.0
        × (out.0.phase ≡ s.phase)
        × (instant ≡ true → AllReceived out.0)

    push_recvs-Received :
        (st : St wires)
        → IsPiped task roles is_leader st.0
        → Gives (Received st.0) F (push_recvs wires task roles is_leader st)
    unfolding push_recvs recv_edges
    push_recvs-Received (s, w) piped = go _ (
        push_edges-IsPushed wires F instant wires.try_recv (chunk_bytes task)
          (recv_target task is_leader) (after_recv wires task roles is_leader) regime.recvs
          (recv_eligible is_leader s.phase) (chunk_count task) 0 roles task.recv_transports
          s.recv_progress s.recv_done s.recv_chunk w regime.recv_there piped.recvs_fit)
      where
        go :
            (o : Option (Side × wires.World))
            → Gives
                (λ out.
                  IsFitting roles task.recv_transports out.0
                  × HasMoved
                      (recv_eligible is_leader s.phase)
                      (chunk_count task)
                      instant
                      roles
                      s.recv_chunk
                      out.0.1.1)
                F
                o
            → Gives
                (Received s)
                F
                (elim o [ none ↦ none | some (side, w') ↦ some (with_recvs s side, w') ])
        go none h = h
        go (some ((ps, (ds, cs)), w')) h = (
          record {
            recvs_fit = h.0;
            sends_fit = piped.sends_fit;
            received =
                HasMoved-IsWithin (recv_eligible is_leader s.phase) (chunk_count task) instant
                  all_roles (chunk_count task) roles s.recv_chunk cs (omega arith) h.1
                  piped.received;
            gated =
                IsWithin-mono (send_eligible is_leader s.phase) (send_gate task roles is_leader s) _
                  roles s.send_chunk
                  (gate-HasMoved (recv_eligible is_leader s.phase) (chunk_count task) instant s
                    (ps, (ds, cs)) h.1)
                  piped.gated;
          },
          refl,
          λ i.
              all_reached-HasMoved (recv_eligible is_leader s.phase) (chunk_count task) instant
                (chunk_count task) roles s.recv_chunk cs i (omega arith) h.1,
        )

    abbrev pub Pushed : OpState Phase → St wires → Type 0
    Pushed s out =
        IsPiped task roles is_leader out.0
        × (out.0.phase ≡ s.phase)
        × (instant ≡ true → is_up s.phase || is_down s.phase ≡ true → IsComplete out.0)

    push_sends-Pushed :
        (st : St wires)
        → IsPiped task roles is_leader st.0
        → (instant ≡ true → AllReceived st.0)
        → Gives (Pushed st.0) F (push_sends wires task roles is_leader st)
    unfolding push_sends send_edges send_gate
    push_sends-Pushed (s, w) piped got = go _ (
        push_edges-IsPushed wires F instant wires.try_send (chunk_bytes task)
          (λ role edge chunk. send_source task is_leader chunk)
          (after_send wires task roles is_leader) regime.sends (send_eligible is_leader s.phase)
          (send_gate task roles is_leader s) 0 roles task.send_transports s.send_progress
          s.send_done s.send_chunk w regime.send_there piped.sends_fit)
      where
        go :
            (o : Option (Side × wires.World))
            → Gives
                (λ out.
                  IsFitting roles task.send_transports out.0
                  × HasMoved
                      (send_eligible is_leader s.phase)
                      (send_gate task roles is_leader s)
                      instant
                      roles
                      s.send_chunk
                      out.0.1.1)
                F
                o
            → Gives
                (Pushed s)
                F
                (elim o [ none ↦ none | some (side, w') ↦ some (with_sends s side, w') ])
        go none h = h
        go (some ((ps, (ds, cs)), w')) h = (
          record {
            recvs_fit = piped.recvs_fit;
            sends_fit = h.0;
            received = piped.received;
            gated =
                HasMoved-IsWithin (send_eligible is_leader s.phase)
                  (send_gate task roles is_leader s) instant (send_eligible is_leader s.phase)
                  (send_gate task roles is_leader s) roles s.send_chunk cs (omega arith) h.1
                  piped.gated;
          },
          refl,
          λ i p. IsComplete-all_reached (with_sends s (ps, (ds, cs))) (got i) (
              all_reached-HasMoved (send_eligible is_leader s.phase)
                (send_gate task roles is_leader s) instant (chunk_count task) roles s.send_chunk cs
                i (gate-reached s (got i) p) h.1),
        )

    pub push_both-Pushed :
        (st : St wires)
        → IsPiped task roles is_leader st.0
        → Gives (Pushed st.0) F (push_both wires task roles is_leader st)
    unfolding push_both
    push_both-Pushed (s, w) piped =
        go (push_recvs wires task roles is_leader (s, w)) (push_recvs-Received (s, w) piped)
      where
        go :
            (o : Option (St wires))
            → Gives (Received s) F o
            → Gives
                (Pushed s)
                F
                (elim o [ none ↦ none | some st' ↦ push_sends wires task roles is_leader st' ])
        go none h = h
        go (some st') h =
            Gives-map (Pushed st'.0) (Pushed s) F _
              (λ out k. (k.0, k.1 ∙ h.1, λ i p. k.2 i (rw h.1 p))) (push_sends-Pushed st' h.0 h.2)
