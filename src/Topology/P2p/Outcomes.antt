-- ===== src/Topology/P2p/Outcomes.antt =====
-- The calls of the point-to-point topology, src/topology/topology_p2p.cpp, as a whole.
use origin_ccl.Prelude.{
  length-replicate, ℕ, ◌≡◌, refl, arith, Bool, true, false, not, ◌||◌, Option, none, some, List, [],
  ◌∷◌, length, ◌==◌, if◌then◌else◌, by_test, All, ◌∙◌, sym, subst, inl, inr, Bool-cases,
}
use origin_ccl.Types.{PlanTask, CollFunc, CollEvent}
use origin_ccl.Planner.Validate.{◌is◌}
use origin_ccl.Topology.Stepping.{Place, OpState, Wires, side_done}
use origin_ccl.Topology.Stepping.Loops.{Gives}
use origin_ccl.Topology.Stepping.Regime.{IsRegime, any_world}
use origin_ccl.Topology.P2p.Stepping.{
  Phase, collective_done, concerns, phase_of, transfer_bytes, blank_state, St, push_first,
  push_send, push_recv, collective_step, collective_init,
}

-- A task of `FillTransports`: one transport, on the side of its function.
abbrev pub send_count : PlanTask → ℕ
send_count task = if task.func is CollFunc.send then 1 else 0

abbrev pub recv_count : PlanTask → ℕ
recv_count task = if task.func is CollFunc.send then 0 else 1

abbrev pub HasOneTransport : PlanTask → Type 0
HasOneTransport task =
    (length task.send_transports ≡ send_count task)
    × (length task.recv_transports ≡ recv_count task)

abbrev pub own_side : PlanTask → OpState Phase → List Bool
own_side task s = if task.func is CollFunc.send then s.send_done else s.recv_done

-- The vectors of a task's side have one element, and the flag there is the phase.
abbrev pub IsTracked : List ℕ → List Bool → OpState Phase → Type 0
IsTracked ps ds s = (length ps ≡ 1) × (length ds ≡ 1) × (side_done ds ≡ collective_done s)

abbrev pub IsSound : PlanTask → OpState Phase → Type 0
IsSound task s =
    ((task.func is CollFunc.send) ≡ true → IsTracked s.send_progress s.send_done s)
    × ((task.func is CollFunc.send) ≡ false → IsTracked s.recv_progress s.recv_done s)

module _ (wires : Wires) (F : Type 0) (instant : Bool)
    (try : ℕ → Place → ℕ → ℕ → wires.World → Option (ℕ × (Bool × wires.World)))
    (law : (t : ℕ) (place : Place) (size progress : ℕ) (w : wires.World)
      → Gives (λ out. instant ≡ true → out.1.0 ≡ true) F (try t place size progress w)) where
  abbrev IsFirst : List ℕ × (List Bool × (Bool × wires.World)) → Type 0
  IsFirst out =
      (length out.0 ≡ 1)
      × (length out.1.0 ≡ 1)
      × (side_done out.1.0 ≡ out.1.1.0)
      × (instant ≡ true → out.1.1.0 ≡ true)

  push_first-IsFirst :
      (place : Place) (bytes : ℕ) (ts : List (Option ℕ)) (ps : List ℕ) (ds : List Bool)
      (w : wires.World)
      → All (λ t. t ≡ none → F) ts
      → length ts ≡ 1
      → length ps ≡ 1
      → length ds ≡ 1
      → Gives IsFirst F (push_first wires try place bytes ts ps ds w)
  unfolding push_first
  push_first-IsFirst place bytes (some t ∷ []) (p ∷ []) (d ∷ []) w there a b c =
      go (try t place bytes p w) (law t place bytes p w)
    where
      go :
          (o : Option (ℕ × (Bool × wires.World)))
          → Gives (λ out. instant ≡ true → out.1.0 ≡ true) F o
          → Gives IsFirst F
              (elim o [ none ↦ none | some (p', (d', w')) ↦ some (p' ∷ [], (d' ∷ [], (d', w'))) ])
      go none h = h
      go (some (p', (d', w'))) h = (refl, refl, ground arith, h)
  push_first-IsFirst place bytes (none ∷ ts) ps ds w there a b c = there.0 refl
  push_first-IsFirst place bytes ts ps ds w there a b c = absurd (omega (arith, a, b, c))

IsSound-blank : (task : PlanTask) → HasOneTransport task → IsSound task (blank_state task)
unfolding blank_state
IsSound-blank task one = (
  λ e. (
    length-replicate (length task.send_transports) 0 ∙ (one.0 ∙ rw e refl),
    length-replicate (length task.send_transports) false ∙ (one.0 ∙ rw e refl),
    rw (one.0 ∙ send_one e) refl,
  ),
  λ e. (
    length-replicate (length task.recv_transports) 0 ∙ (one.1 ∙ rw e refl),
    length-replicate (length task.recv_transports) false ∙ (one.1 ∙ rw e refl),
    rw (one.1 ∙ recv_one e) refl,
  ),
)
  where
    send_one : (task.func is CollFunc.send) ≡ true → send_count task ≡ 1
    send_one e = rw e refl

    recv_one : (task.func is CollFunc.send) ≡ false → recv_count task ≡ 1
    recv_one e = rw e refl

phase_done : (d : Bool) → d ≡ (elim (phase_of d) [ Phase.running ↦ false | Phase.finished ↦ true ])
phase_done true = refl
phase_done false = refl

module _ (wires : Wires) (task : PlanTask) (one : HasOneTransport task) where
  abbrev IsKept : St wires → Type 0
  IsKept out = IsSound task out.0

  fine : IsRegime wires Unit false task
  fine = any_world wires task

  push_send-IsSound :
      (st : St wires)
      → (task.func is CollFunc.send) ≡ true
      → IsSound task st.0
      → Gives IsKept Unit (push_send wires task st)
  unfolding push_send
  push_send-IsSound (s, w) e sound = go _ (
      push_first-IsFirst wires Unit false wires.try_send fine.sends _ (transfer_bytes task)
        task.send_transports s.send_progress s.send_done w fine.send_there (one.0 ∙ rw e refl)
        (sound.0 e).0 (sound.0 e).1)
    where
      go :
          (o : Option (List ℕ × (List Bool × (Bool × wires.World))))
          → Gives (IsFirst wires Unit false wires.try_send fine.sends) Unit o
          → Gives IsKept Unit (elim o [
            | none ↦ none
            | some (ps, (ds, (d, w'))) ↦
                some (record s { send_progress = ps; send_done = ds; phase = phase_of d }, w')
          ])
      go none h = tt
      go (some (ps, (ds, (d, w')))) h =
          (λ f. (h.0, h.1, h.2 ∙ phase_done d), λ f. absurd (ground (arith, e, f)))

  push_recv-IsSound :
      (st : St wires)
      → (task.func is CollFunc.send) ≡ false
      → IsSound task st.0
      → Gives IsKept Unit (push_recv wires task st)
  unfolding push_recv
  push_recv-IsSound (s, w) e sound = go _ (
      push_first-IsFirst wires Unit false wires.try_recv fine.recvs _ (transfer_bytes task)
        task.recv_transports s.recv_progress s.recv_done w fine.recv_there (one.1 ∙ rw e refl)
        (sound.1 e).0 (sound.1 e).1)
    where
      go :
          (o : Option (List ℕ × (List Bool × (Bool × wires.World))))
          → Gives (IsFirst wires Unit false wires.try_recv fine.recvs) Unit o
          → Gives IsKept Unit (elim o [
            | none ↦ none
            | some (ps, (ds, (d, w'))) ↦
                some (record s { recv_progress = ps; recv_done = ds; phase = phase_of d }, w')
          ])
      go none h = tt
      go (some (ps, (ds, (d, w')))) h =
          (λ f. absurd (ground (arith, e, f)), λ f. (h.0, h.1, h.2 ∙ phase_done d))

  collective_step-IsSound :
      (event : CollEvent) (st : St wires)
      → IsSound task st.0
      → Gives IsKept Unit (collective_step wires task event st)
  unfolding collective_step
  collective_step-IsSound event (s, w) sound =
      by_test (Gives IsKept Unit) (collective_done s || not (concerns task event)) (λ e. sound)
        (λ e.
          by_test (Gives IsKept Unit) (task.func is CollFunc.send)
            (λ f. push_send-IsSound (s, w) f sound) (λ f. push_recv-IsSound (s, w) f sound))

  collective_init-IsSound :
      (w : wires.World)
      → (task.elem_count == 0) ≡ false
      → Gives IsKept Unit (collective_init wires task w)
  unfolding collective_init
  collective_init-IsSound w e =
      rw e (collective_step-IsSound _ (blank_state task, w) (IsSound-blank task one))

Gives-at {ℓ} :
    {A : Type ℓ} (Q : A → Type 0) (F : Type 0) (o : Option A) (a : A)
    → o ≡ some a
    → Gives Q F o
    → Q a
Gives-at Q F o a e h = subst (Gives Q F) e h

-- The states of a task that was initialised. Between two calls the rest of the world moves.
pub data Reached (wires : Wires) (task : PlanTask) : St wires → Type 0 where
  inited :
      (w : wires.World) (st : St wires)
      → collective_init wires task w ≡ some st
      → Reached wires task st
  stepped :
      (event : CollEvent) (before st : St wires)
      → Reached wires task before
      → collective_step wires task event before ≡ some st
      → Reached wires task st
  moved :
      (s : OpState Phase) (w w' : wires.World)
      → Reached wires task (s, w)
      → Reached wires task (s, w')

reached-IsSound :
    (wires : Wires) (task : PlanTask) (st : St wires)
    → HasOneTransport task
    → (task.elem_count == 0) ≡ false
    → Reached wires task st
    → IsSound task st.0
reached-IsSound wires task st one e (inited w _ h) =
    Gives-at _ Unit _ st h (collective_init-IsSound wires task one w e)
reached-IsSound wires task st one e (stepped event before _ r h) = Gives-at _ Unit _ st h (
    collective_step-IsSound wires task one event before (reached-IsSound wires task before one e r))
reached-IsSound wires task st one e (moved s w w' r) = reached-IsSound wires task (s, w) one e r

-- A send or receive of at least one element is done, at every state that it can have, exactly when its transport has said
-- so: `CollectiveDone` is the flag of its side, whatever events it was stepped with.
pub done-side_done :
    (wires : Wires) (task : PlanTask) (st : St wires)
    → HasOneTransport task
    → (task.elem_count == 0) ≡ false
    → Reached wires task st
    → collective_done st.0 ≡ side_done (own_side task st.0)
done-side_done wires task st one e r =
    let sound = reached-IsSound wires task st one e r in
    elim (Bool-cases (task.func is CollFunc.send)) [
      | inl f ↦ rw f (sym (sound.0 f).2)
      | inr f ↦ rw f (sym (sound.1 f).2)
    ]
