-- ===== src/Topology/Stepping/Regime.antt =====
-- How a world of transports may behave.
use origin_ccl.Prelude.{ℕ, ◌≡◌, arith, Bool, true, false, Option, none, some, List, [], ◌∷◌, All}
use origin_ccl.Types.{PlanTask}
use origin_ccl.Topology.Stepping.{Place, Wires}
use origin_ccl.Topology.Stepping.Loops.{Gives}

-- A world in which a transfer fails only if `F` holds, and, if `instant` is true, is done at once.
pub record IsRegime (wires : Wires) (F : Type 0) (instant : Bool) (task : PlanTask) : Type 0 where
  pub sends :
      (t : ℕ) (place : Place) (size progress : ℕ) (w : wires.World)
      → Gives (λ out. instant ≡ true → out.1.0 ≡ true) F (wires.try_send t place size progress w)
  pub recvs :
      (t : ℕ) (place : Place) (size progress : ℕ) (w : wires.World)
      → Gives (λ out. instant ≡ true → out.1.0 ≡ true) F (wires.try_recv t place size progress w)
  pub send_there : All (λ t. t ≡ none → F) task.send_transports
  pub recv_there : All (λ t. t ≡ none → F) task.recv_transports

-- A world of which nothing is known, but that null transports and misses of a vector end in a failure.
pub any_world : (wires : Wires) (task : PlanTask) → IsRegime wires Unit false task
any_world wires task = record {
  sends = λ t place size progress w. answers (wires.try_send t place size progress w);
  recvs = λ t place size progress w. answers (wires.try_recv t place size progress w);
  send_there = anyway task.send_transports;
  recv_there = anyway task.recv_transports;
}
  where
    answers :
        (o : Option (ℕ × (Bool × wires.World)))
        → Gives (λ out. false ≡ true → out.1.0 ≡ true) Unit o
    answers none = tt
    answers (some out) = λ e. ground (arith, e)

    anyway : (ts : List (Option ℕ)) → All {0, 0} (λ t. t ≡ none → Unit) ts
    anyway [] = tt
    anyway (t ∷ ts) = (λ e. tt, anyway ts)
