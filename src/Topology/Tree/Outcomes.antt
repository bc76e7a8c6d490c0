-- ===== src/Topology/Tree/Outcomes.antt =====
-- The calls `CollectiveInit` and `CollectiveStep` of the tree, src/topology/topology_tree.cpp, as a whole.
use origin_ccl.Prelude.{
  ℕ, ◌≡◌, ◌≢◌, ◌≤◌, ◌↔◌, refl, arith, Bool, true, false, not, ◌&&◌, ◌||◌, some, List, length, inl,
  inr, Bool-cases, ◌==◌, if◌then◌else◌, get_elem?, by_test,
}
use origin_ccl.Prelude.Int.{pos, ltb_ℤ, eqb_ℤ}
use origin_ccl.Types.{PlanTask, CollFunc, CollEvent}
use origin_ccl.Planner.Validate.{is_null, ◌is◌}
use origin_ccl.Topology.Stepping.{is_empty, OpState, new_state, Wires, ok, failed, endless}
use origin_ccl.Topology.Stepping.Loops.{Ends, >>=-Ends, Ends-returns, Ends-at, Ends-fails}
use origin_ccl.Topology.Stepping.Guards.{guarded-Ends, guarded-refused}
use origin_ccl.Topology.Stepping.Regime.{IsRegime, any_world}
use origin_ccl.Topology.Tree.{Role}
use origin_ccl.Topology.Tree.Stepping.{
  Phase, is_unstarted, is_up, is_finished, is_input_role, min_input, chunk_count, send_eligible,
  send_gate, St,
}
use origin_ccl.Topology.Tree.Calls.{blank_state, tree_init, collective_init, collective_step}
use origin_ccl.Topology.Tree.Order.{min_input-input, IsWithin-get_elem?}
use origin_ccl.Topology.Tree.Pipeline.{IsPiped}
use origin_ccl.Topology.Tree.Progress.{IsLeft, blank-IsPiped, pushed-Ends}

-- The tasks that `CollectiveInit` refuses.
abbrev pub is_refused : PlanTask → Bool
is_refused task =
    not (task.func is CollFunc.all_reduce)
    || (not (ltb_ℤ (pos 0) task.world_size)
        || (not (task.elem_count == 0)
            && ((is_null task.send_buf || is_null task.recv_buf)
                || (not (eqb_ℤ task.world_size (pos 1))
                    && (is_empty task.send_transports || is_empty task.recv_transports)))))

-- A rank's roles have one role for each transport of a task, either way.
pub record HasRoles (task : PlanTask) (roles : List Role) : Type 0 where
  pub send_roles : length roles ≡ length task.send_transports
  pub recv_roles : length roles ≡ length task.recv_transports

module _ (task : PlanTask) (roles : List Role) (is_leader : Bool) (fits : HasRoles task roles)
    (wires : Wires) (F : Type 0) (instant : Bool) (regime : IsRegime wires F instant task) where
  abbrev pub IsLeftBy : St wires → Type 0
  IsLeftBy = IsLeft task roles is_leader fits.send_roles fits.recv_roles wires F instant regime

  tree_init-Ends :
      (w : wires.World)
      → (is_refused task ≡ true → F)
      → Ends IsLeftBy F (tree_init wires task roles is_leader w)
  unfolding tree_init blank_state
  tree_init-Ends w bad =
      guarded-Ends IsLeftBy F
        (not (task.func is CollFunc.all_reduce) || not (ltb_ℤ (pos 0) task.world_size))
        (task.elem_count == 0) (is_null task.send_buf || is_null task.recv_buf)
        (eqb_ℤ task.world_size (pos 1))
        (is_empty task.send_transports || is_empty task.recv_transports) _ _ _
        (λ h. bad (ground (arith, h)))
        (λ e. (
          blank-IsPiped task roles is_leader fits.send_roles fits.recv_roles
              (new_state Phase.finished),
          λ i. refl,
          refl,
          λ f. inl (ground (arith, e)),
        ))
        (λ e. (
          blank-IsPiped task roles is_leader fits.send_roles fits.recv_roles
              (new_state Phase.finished),
          λ i. refl,
          refl,
          λ f. inl (ground (arith, e)),
        ))
        (by_test (Ends IsLeftBy F) is_leader
          (λ e.
            pushed-Ends task roles is_leader fits.send_roles fits.recv_roles wires F instant regime
              _
              (blank-IsPiped task roles is_leader fits.send_roles fits.recv_roles
                (record (new_state Phase.up) { temp_size = _ }))
              refl)
          (λ e.
            pushed-Ends task roles is_leader fits.send_roles fits.recv_roles wires F instant regime
              _
              (blank-IsPiped task roles is_leader fits.send_roles fits.recv_roles
                (new_state Phase.up))
              refl))

  collective_init-Ends :
      (w : wires.World)
      → (is_refused task ≡ true → F)
      → Ends IsLeftBy F (collective_init wires task roles is_leader w)
  unfolding collective_init
  collective_init-Ends w bad =
      by_test (Ends IsLeftBy F) (not (task.func is CollFunc.all_reduce))
        (λ e. bad (ground (arith, e))) (λ e. tree_init-Ends w bad)

  collective_step-Ends :
      (event : CollEvent) (st : St wires)
      → (is_refused task ≡ true → F)
      → (is_unstarted st.0.phase ≡ false → IsLeftBy st)
      → Ends IsLeftBy F (collective_step wires task roles is_leader event st)
  unfolding collective_step
  collective_step-Ends event (s, w) bad ready =
      >>=-Ends IsLeftBy IsLeftBy F
        (if is_unstarted s.phase then tree_init wires task roles is_leader w else ok (s, w)) _
        (by_test (Ends IsLeftBy F) (is_unstarted s.phase) (λ e. tree_init-Ends w bad) ready)
        (λ st l.
          by_test (Ends IsLeftBy F) (is_finished st.0.phase) (λ e. l)
            (λ e.
              pushed-Ends task roles is_leader fits.send_roles fits.recv_roles wires F instant
                regime st l.0 (ground (arith, e, l.2))))

-- The states of a task from its planning on. Between two calls the rest of the world moves.
pub data Reached (wires : Wires) (task : PlanTask) (roles : List Role) (is_leader : Bool)
    : St wires → Type 0 where
  planned : (w : wires.World) → Reached wires task roles is_leader (new_state Phase.unstarted, w)
  inited :
      (w : wires.World) (st : St wires)
      → collective_init wires task roles is_leader w ≡ ok st
      → Reached wires task roles is_leader st
  stepped :
      (event : CollEvent) (before st : St wires)
      → Reached wires task roles is_leader before
      → collective_step wires task roles is_leader event before ≡ ok st
      → Reached wires task roles is_leader st
  moved :
      (s : OpState Phase) (w w' : wires.World)
      → Reached wires task roles is_leader (s, w)
      → Reached wires task roles is_leader (s, w')

module _ (wires : Wires) (task : PlanTask) (roles : List Role) (is_leader : Bool)
    (fits : HasRoles task roles) where
  reached-IsLeft :
      (st : St wires)
      → Reached wires task roles is_leader st
      → is_unstarted st.0.phase ≡ false
      → IsLeftBy task roles is_leader fits wires Unit false (any_world wires task) st
  reached-IsLeft st (planned w) = λ e. absurd (ground (arith, e))
  reached-IsLeft st (inited w _ h) = λ e. Ends-at _ Unit _ st h (
      collective_init-Ends task roles is_leader fits wires Unit false (any_world wires task) w
        (λ b. tt))
  reached-IsLeft st (stepped event before _ r h) = λ e. Ends-at _ Unit _ st h (
      collective_step-Ends task roles is_leader fits wires Unit false (any_world wires task) event
        before (λ b. tt) (reached-IsLeft before r))
  reached-IsLeft st (moved s w w' r) = reached-IsLeft (s, w) r

  -- For a rank with one role for each transport: on a tree too, `CollectiveInit` always returns, and so does `CollectiveStep` at a state that a task can have: the
  -- loop over the two phases ends, whatever the transports answer.
  pub tree_collective-returns :
      (w : wires.World) (event : CollEvent) (st : St wires)
      → Reached wires task roles is_leader st
      → (collective_init wires task roles is_leader w ≢ endless)
        × (collective_step wires task roles is_leader event st ≢ endless)
  tree_collective-returns w event st r = (
    Ends-returns _ Unit _ (
        collective_init-Ends task roles is_leader fits wires Unit false (any_world wires task) w
          (λ b. tt)),
    Ends-returns _ Unit _ (
        collective_step-Ends task roles is_leader fits wires Unit false (any_world wires task) event
          st (λ b. tt) (reached-IsLeft st r)),
  )

  -- For a rank with one role for each transport: at every state that a task on a tree can have after it was initialised, the vectors have one element for each
  -- edge, no edge has received more chunks than there are, and none has sent more than the gate of its phase lets.
  pub Reached-IsPiped :
      (st : St wires)
      → Reached wires task roles is_leader st
      → is_unstarted st.0.phase ≡ false
      → IsPiped task roles is_leader st.0
  Reached-IsPiped st r e = (reached-IsLeft st r e).0

-- For a leader with one role for each transport: in the upward phase it sends a chunk to its parent only when every star peer and child has sent it, so that
-- the chunk is reduced: at every state that a task can have, an edge to the parent has sent no more
-- chunks than any input edge has received.
pub sent-received :
    (wires : Wires) (task : PlanTask) (roles : List Role)
    → HasRoles task roles
    → (st : St wires) (i j received sent : ℕ) (role : Role) → Reached wires task roles true st
    → is_up st.0.phase ≡ true
    → get_elem? roles i ≡ some role
    → is_input_role role ≡ true
    → get_elem? st.0.recv_chunk i ≡ some received
    → get_elem? roles j ≡ some Role.tree_up
    → get_elem? st.0.send_chunk j ≡ some sent
    → sent ≤ received
unfolding send_gate send_eligible
sent-received wires task roles fits (s, w) i j received sent role r e at_i input c at_j c' =
    let piped = Reached-IsPiped wires task roles true fits (s, w) r (ground (arith, e)) in
    let gate =
      IsWithin-get_elem? (send_eligible true s.phase) (send_gate task roles true s) roles
        s.send_chunk j sent Role.tree_up piped.gated at_j (rw e refl) c' in
    let open_to : send_gate task roles true s ≡ min_input (chunk_count task) roles s.recv_chunk =
      rw e refl in
    omega (
      arith,
      gate,
      open_to,
      min_input-input (chunk_count task) roles s.recv_chunk i received role at_i input c,
    )

refused-init :
    (wires : Wires) (task : PlanTask) (roles : List Role) (is_leader : Bool) (w : wires.World)
    → is_refused task ≡ true
    → collective_init wires task roles is_leader w ≡ failed
unfolding collective_init tree_init
refused-init wires task roles is_leader w h =
    by_test (λ r. r ≡ failed) (not (task.func is CollFunc.all_reduce)) (λ e. refl)
      (λ e.
        guarded-refused
          (not (task.func is CollFunc.all_reduce) || not (ltb_ℤ (pos 0) task.world_size))
          (task.elem_count == 0) (is_null task.send_buf || is_null task.recv_buf)
          (eqb_ℤ task.world_size (pos 1))
          (is_empty task.send_transports || is_empty task.recv_transports) _ _ _
          (ground (arith, h)))

-- For a rank with one role for each transport: where no transfer fails and no transport is null, `CollectiveInit` of the tree returns false for the tasks that the
-- guards name and for no other.
pub tree_collective_init-failed :
    (wires : Wires) (instant : Bool) (task : PlanTask) (roles : List Role) (is_leader : Bool)
    (w : wires.World)
    → HasRoles task roles
    → IsRegime wires ⊥ instant task
    → (collective_init wires task roles is_leader w ≡ failed) ↔ (is_refused task ≡ true)
tree_collective_init-failed wires instant task roles is_leader w fits regime = (
  λ e. elim (Bool-cases (is_refused task)) [
    | inl t ↦ t
    | inr n ↦ absurd (
        Ends-fails _ ⊥ _ e (
          collective_init-Ends task roles is_leader fits wires ⊥ instant regime w
            (λ b. ground (arith, b, n))))
  ],
  refused-init wires task roles is_leader w,
)
