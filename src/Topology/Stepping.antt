-- ===== src/Topology/Stepping.antt =====
-- What the topologies share when they step a collective: `CollOpState` of include/types.h, and the
-- transports and memory that a step works on.
pub mod Loops
pub mod Regime
pub mod Guards
pub mod Worlds
use origin_ccl.Prelude.{
  ℕ, zero, suc, ◌+◌, ◌%◌, ◌^◌, Bool, true, false, ◌&&◌, Option, none, some, List, [], ◌∷◌,
  replicate, if◌then◌else◌, ◌==◌,
}
use origin_ccl.Prelude.Int.{ℤ}
use origin_ccl.Types.{DataType, ReduceOp, PlanTask}

-- A place in memory: an address that the user gave, or an offset into the task's `temp_buffer`.
pub data Place : Type 0 where
  null : Place
  user temp : ℕ → Place

-- `base + offset`; a null base stays one.
abbrev pub place_at : Option ℕ → ℕ → Place
place_at none offset = Place.null
place_at (some base) offset = Place.user (base + offset)

-- `phase` is an `int`, of which each topology names the values that it uses; a `vector<char>` of flags is
-- a list of Booleans, and `temp_buffer` is here by its size: its bytes belong to the world. `step` is
-- `algo.ring.step`, and `recv_chunk` and `send_chunk` are those of `algo.tree`.
pub record OpState (P : Type 0) : Type 0 where
  pub phase : P
  pub send_progress : List ℕ
  pub recv_progress : List ℕ
  pub send_done : List Bool
  pub recv_done : List Bool
  pub temp_size : ℕ
  pub step : ℕ
  pub recv_chunk : List ℕ
  pub send_chunk : List ℕ

-- `CollOpState{}`, with the phase whose value is 0.
abbrev pub new_state : {P : Type 0} → P → OpState P
new_state phase = record {
  phase = phase;
  send_progress = [];
  recv_progress = [];
  send_done = [];
  recv_done = [];
  temp_size = 0;
  step = 0;
  recv_chunk = [];
  send_chunk = [];
}

-- What a step asks of the transports, by their numbers, and of memory. `TrySend` and `TryRecv` take the
-- place, the size and the progress so far, and give the progress and whether the transfer is done,
-- or fail. The others are `memcpy(to, from, size)`, `PerformReduce(from, into, count, ...)` and
-- `ApplyAverage(place, count, ...)`.
pub record Wires : Type 1 where
  pub World : Type 0
  pub try_send : ℕ → Place → ℕ → ℕ → World → Option (ℕ × (Bool × World))
  pub try_recv : ℕ → Place → ℕ → ℕ → World → Option (ℕ × (Bool × World))
  pub copy : Place → Place → ℕ → World → World
  pub reduce : Place → Place → ℕ → DataType → ReduceOp → World → World
  pub average : Place → ℕ → DataType → ℤ → World → World

-- How a call ends: `failed` is the return of `false`, after which nobody reads the state again; `endless`
-- is a loop that made more turns than it was allowed.
pub data Run {ℓ} (A : Type ℓ) : Type ℓ where
  ok : A → Run A
  failed endless : Run A

infixl 5 ◌>>=◌
abbrev pub ◌>>=◌ {ℓ κ} : {A : Type ℓ} {B : Type κ} → Run A → (A → Run B) → Run B
ok a >>= f = f a
failed >>= f = failed
endless >>= f = endless

-- One turn of a loop: it leaves the loop, goes on, or returns `false` from the function.
pub data Turn {ℓ} (A : Type ℓ) : Type ℓ where
  stop again : A → Turn A
  fail : Turn A

-- `again` with the state that a call leaves.
abbrev pub then_again {ℓ} : {A : Type ℓ} → Option A → Turn A
then_again none = Turn.fail
then_again (some a) = Turn.again a

abbrev pub finish {ℓ} : {A : Type ℓ} → Option A → Run A
finish none = failed
finish (some a) = ok a

-- What a loop does after a turn, where `on` is the rest of the loop.
abbrev pub after_turn {ℓ} : {A : Type ℓ} → (A → Run A) → Turn A → Run A
after_turn on (Turn.stop a) = ok a
after_turn on (Turn.again a) = on a
after_turn on Turn.fail = failed

-- A `while` loop of at most so many turns.
unfoldable pub turns {ℓ} : {A : Type ℓ} → ℕ → (A → Turn A) → A → Run A
turns zero body a = endless
turns (suc fuel) body a = after_turn (turns fuel body) (body a)

-- `std::all_of(done.begin(), done.end(), ...)`
abbrev pub side_done : List Bool → Bool
side_done [] = true
side_done (d ∷ ds) = d && side_done ds

-- AVG is summed, and divided at the end.
abbrev pub step_op : ReduceOp → ReduceOp
step_op ReduceOp.avg = ReduceOp.sum
step_op op = op

abbrev pub is_avg : ReduceOp → Bool
is_avg ReduceOp.avg = true
is_avg op = false

abbrev pub is_empty {ℓ} : {A : Type ℓ} → List A → Bool
is_empty [] = true
is_empty (x ∷ xs) = false

abbrev pub same_buffer : PlanTask → Bool
same_buffer task = elim task.send_buf [
  | none ↦ elim task.recv_buf [ none ↦ true | some b ↦ false ]
  | some a ↦ elim task.recv_buf [ none ↦ false | some b ↦ a == b ]
]
