-- ===== src/Topology/Ring/Sides.antt =====
-- About `PushBuffer` and `BeginPhase`, src/topology/topology_ring.cpp: the vectors of a side.
use origin_ccl.Prelude.{
  length-replicate, ℕ, zero, suc, ◌≡◌, ap, ◌∙◌, arith, refl, Bool, true, false, Option, none, some,
  List, [], ◌∷◌, All, length, replicate,
}
use origin_ccl.Types.{PlanTask, CollEvent}
use origin_ccl.Topology.Stepping.{Place, OpState, Wires, side_done}
use origin_ccl.Topology.Stepping.Loops.{Gives, Gives-map}
use origin_ccl.Topology.Stepping.Regime.{IsRegime}
use origin_ccl.Topology.Ring.Schedule.{Phase}
use origin_ccl.Topology.Ring.Transfer.{
  push_side, push_sends, push_recvs, push_buffer, begin_state, begin_phase,
}

-- The vectors of progress and flags have an element for each transport.
pub record IsAligned (task : PlanTask) (s : OpState Phase) : Type 0 where
  pub send_progress_fits : length s.send_progress ≡ length task.send_transports
  pub send_done_fits : length s.send_done ≡ length task.send_transports
  pub recv_progress_fits : length s.recv_progress ≡ length task.recv_transports
  pub recv_done_fits : length s.recv_done ≡ length task.recv_transports

module _ (wires : Wires) (F : Type 0) (instant : Bool)
    (try : ℕ → Place → ℕ → ℕ → wires.World → Option (ℕ × (Bool × wires.World))) where
  abbrev pub Pushed : List (Option ℕ) → List ℕ × (List Bool × wires.World) → Type 0
  Pushed ts out =
      (length out.0 ≡ length ts)
      × (length out.1.0 ≡ length ts)
      × (instant ≡ true → side_done out.1.0 ≡ true)

  kept :
      (t : Option ℕ) (ts : List (Option ℕ)) (p : ℕ)
      (o : Option (List ℕ × (List Bool × wires.World)))
      → Gives (Pushed ts) F o
      → Gives
          (Pushed (t ∷ ts))
          F
          (elim o [ none ↦ none | some (ps, (ds, w)) ↦ some (p ∷ ps, (true ∷ ds, w)) ])
  kept t ts p none h = h
  kept t ts p (some (ps, (ds, w))) h = (ap suc h.0, ap suc h.1, h.2)

  tried :
      (t : Option ℕ) (ts : List (Option ℕ)) (p : ℕ) (d : Bool)
      (o : Option (List ℕ × (List Bool × wires.World)))
      → (instant ≡ true → d ≡ true)
      → Gives (Pushed ts) F o
      → Gives
          (Pushed (t ∷ ts))
          F
          (elim o [ none ↦ none | some (ps, (ds, w)) ↦ some (p ∷ ps, (d ∷ ds, w)) ])
  tried t ts p d none e h = h
  tried t ts p d (some (ps, (ds, w))) e h =
      (ap suc h.0, ap suc h.1, λ i. ground (arith, e i, h.2 i))

  pub push_side-Pushed :
      ((t : ℕ) (place : Place) (size progress : ℕ) (w : wires.World)
        → Gives (λ out. instant ≡ true → out.1.0 ≡ true) F (try t place size progress w))
      → (place : Place) (bytes : ℕ) (ts : List (Option ℕ)) (ps : List ℕ) (ds : List Bool)
        (w : wires.World)
      → All (λ t. t ≡ none → F) ts
      → length ps ≡ length ts
      → length ds ≡ length ts
      → Gives (Pushed ts) F (push_side wires try place bytes ts ps ds w)
  unfolding push_side
  push_side-Pushed law place bytes [] [] [] w there p d = (refl, refl, λ i. refl)
  push_side-Pushed law place bytes [] [] (x ∷ ds) w there p d = absurd (omega arith)
  push_side-Pushed law place bytes [] (x ∷ ps) ds w there p d = absurd (omega arith)
  push_side-Pushed law place bytes (t ∷ ts) [] ds w there p d = absurd (omega arith)
  push_side-Pushed law place bytes (t ∷ ts) (x ∷ ps) [] w there p d = absurd (omega arith)
  push_side-Pushed law place bytes (t ∷ ts) (x ∷ ps) (true ∷ ds) w there p d =
      kept t ts x (push_side wires try place bytes ts ps ds w)
        (push_side-Pushed law place bytes ts ps ds w there.1 (omega arith) (omega arith))
  push_side-Pushed law place bytes (none ∷ ts) (x ∷ ps) (false ∷ ds) w there p d = there.0 refl
  push_side-Pushed law place bytes (some t ∷ ts) (x ∷ ps) (false ∷ ds) w there p d =
      after (try t place bytes x w) (law t place bytes x w)
        (λ w'. push_side-Pushed law place bytes ts ps ds w' there.1 (omega arith) (omega arith))
    where
      after :
          (o : Option (ℕ × (Bool × wires.World)))
          → Gives (λ out. instant ≡ true → out.1.0 ≡ true) F o
          → ((w' : wires.World) → Gives (Pushed ts) F (push_side wires try place bytes ts ps ds w'))
          → Gives (Pushed (some t ∷ ts)) F (elim o [
            | none ↦ none
            | some (p', (d', w')) ↦ elim (push_side wires try place bytes ts ps ds w') [
              | none ↦ none
              | some (ps', (ds', w'')) ↦ some (p' ∷ ps', (d' ∷ ds', w''))
            ]
          ])
      after none e ih = e
      after (some (p', (d', w'))) e ih =
          tried (some t) ts p' d' (push_side wires try place bytes ts ps ds w') e (ih w')

pub side_done-replicate : (n : ℕ) → side_done (replicate n true) ≡ true
side_done-replicate zero = refl
side_done-replicate (suc n) = side_done-replicate n

-- A step that was begun or pushed: the phase and the counter are as they were set, and in an instant world
-- the sides that were pushed are done.
pub record Left (wires : Wires) (instant : Bool) (task : PlanTask) (phase : Phase) (step : ℕ)
    (st : OpState Phase × wires.World) : Type 0 where
  pub aligned : IsAligned task st.0
  pub phase_is : st.0.phase ≡ phase
  pub step_is : st.0.step ≡ step

abbrev pub Begun :
    (wires : Wires) → Bool → PlanTask → Phase → ℕ → OpState Phase × wires.World → Type 0
Begun wires instant task phase step out =
    Left wires instant task phase step out
    × (instant ≡ true → side_done out.0.send_done ≡ true)
    × (instant ≡ true → side_done out.0.recv_done ≡ true)

module _ (wires : Wires) (F : Type 0) (instant : Bool) (task : PlanTask)
    (regime : IsRegime wires F instant task) where
  abbrev AfterSends : OpState Phase → OpState Phase × wires.World → Type 0
  AfterSends s out =
      Left wires instant task s.phase s.step out
      × (instant ≡ true → side_done out.0.send_done ≡ true)
      × (out.0.recv_done ≡ s.recv_done)

  abbrev AfterRecvs : OpState Phase → OpState Phase × wires.World → Type 0
  AfterRecvs s out =
      Left wires instant task s.phase s.step out
      × (instant ≡ true → side_done out.0.recv_done ≡ true)
      × (out.0.send_done ≡ s.send_done)

  pub push_sends-Left :
      (place : Place) (bytes : ℕ) (st : OpState Phase × wires.World)
      → IsAligned task st.0
      → Gives (AfterSends st.0) F (push_sends wires task place bytes st)
  unfolding push_sends
  push_sends-Left place bytes (s, w) a =
      go
        (push_side wires wires.try_send place bytes task.send_transports s.send_progress s.send_done
          w)
        (push_side-Pushed wires F instant wires.try_send regime.sends place bytes
          task.send_transports s.send_progress s.send_done w regime.send_there a.send_progress_fits
          a.send_done_fits)
    where
      go :
          (o : Option (List ℕ × (List Bool × wires.World)))
          → Gives (Pushed wires F instant wires.try_send task.send_transports) F o
          → Gives (AfterSends s) F (elim o [
            | none ↦ none
            | some (ps, (ds, w')) ↦ some (record s { send_progress = ps; send_done = ds }, w')
          ])
      go none h = h
      go (some (ps, (ds, w'))) h = (
        record {
          aligned = record {
            send_progress_fits = h.0;
            send_done_fits = h.1;
            recv_progress_fits = a.recv_progress_fits;
            recv_done_fits = a.recv_done_fits;
          };
          phase_is = refl;
          step_is = refl;
        },
        h.2,
        refl,
      )

  pub push_recvs-Left :
      (place : Place) (bytes : ℕ) (st : OpState Phase × wires.World)
      → IsAligned task st.0
      → Gives (AfterRecvs st.0) F (push_recvs wires task place bytes st)
  unfolding push_recvs
  push_recvs-Left place bytes (s, w) a =
      go
        (push_side wires wires.try_recv place bytes task.recv_transports s.recv_progress s.recv_done
          w)
        (push_side-Pushed wires F instant wires.try_recv regime.recvs place bytes
          task.recv_transports s.recv_progress s.recv_done w regime.recv_there a.recv_progress_fits
          a.recv_done_fits)
    where
      go :
          (o : Option (List ℕ × (List Bool × wires.World)))
          → Gives (Pushed wires F instant wires.try_recv task.recv_transports) F o
          → Gives (AfterRecvs s) F (elim o [
            | none ↦ none
            | some (ps, (ds, w')) ↦ some (record s { recv_progress = ps; recv_done = ds }, w')
          ])
      go none h = h
      go (some (ps, (ds, w'))) h = (
        record {
          aligned = record {
            send_progress_fits = a.send_progress_fits;
            send_done_fits = a.send_done_fits;
            recv_progress_fits = h.0;
            recv_done_fits = h.1;
          };
          phase_is = refl;
          step_is = refl;
        },
        h.2,
        refl,
      )

  pub push_buffer-Left :
      (event : CollEvent) (from into : Place) (m n : ℕ) (st : OpState Phase × wires.World)
      → IsAligned task st.0
      → Gives
          (Left wires instant task st.0.phase st.0.step)
          F
          (push_buffer wires task event from into m n st)
  unfolding push_buffer
  push_buffer-Left CollEvent.writable from into m n st a =
      Gives-map (AfterSends st.0) _ F _ (λ b h. h.0) (push_sends-Left from m st a)
  push_buffer-Left CollEvent.readable from into m n st a =
      Gives-map (AfterRecvs st.0) _ F _ (λ b h. h.0) (push_recvs-Left into n st a)

  begin_state-IsAligned :
      (phase : Phase) (m n : ℕ) (s : OpState Phase) → IsAligned task (begin_state task phase m n s)
  unfolding begin_state
  begin_state-IsAligned phase m n s = record {
    send_progress_fits = length-replicate (length task.send_transports) 0;
    send_done_fits = length-replicate (length task.send_transports) _;
    recv_progress_fits = length-replicate (length task.recv_transports) 0;
    recv_done_fits = length-replicate (length task.recv_transports) _;
  }

  pub begin_phase-Left :
      (phase : Phase) (from into : Place) (m n : ℕ) (st : OpState Phase × wires.World)
      → Gives
          (Begun wires instant task phase st.0.step)
          F
          (begin_phase wires task phase from into m n st)
  unfolding begin_phase begin_state
  begin_phase-Left phase from into m n (s, w) =
      go (push_sends wires task from m (begin_state task phase m n s, w)) (
        push_sends-Left from m (begin_state task phase m n s, w)
          (begin_state-IsAligned phase m n s))
    where
      go :
          (o : Option (OpState Phase × wires.World))
          → Gives (AfterSends (begin_state task phase m n s)) F o
          → Gives
              (Begun wires instant task phase s.step)
              F
              (elim o [ none ↦ none | some st ↦ push_recvs wires task into n st ])
      go none h = h
      go (some st) h =
          Gives-map (AfterRecvs st.0) (Begun wires instant task phase s.step) F
            (push_recvs wires task into n st)
            (λ b k. (
              record {
                aligned = k.0.aligned;
                phase_is = k.0.phase_is ∙ h.0.phase_is;
                step_is = k.0.step_is ∙ h.0.step_is;
              },
              λ i. ap side_done k.2 ∙ h.1 i,
              k.1,
            ))
            (push_recvs-Left into n st h.0.aligned)
