-- ===== src/Executor/Dynamic.antt =====
-- The slices of a batch in the dynamic executor, src/executor/dynamic_multi_thread_executor.cpp: on rank 0 the
-- workers of the channels claim them under the mutex, and the other ranks follow the control messages.
pub mod Shares
pub mod Claims
use origin_ccl.Prelude.{
  ℕ, zero, suc, ◌+◌, ◌-◌, min, Bool, true, false, not, ◌&&◌, ◌||◌, Option, none, some, List, [],
  ◌∷◌, ◌++◌, ltb, leb, ◌==◌, if◌then◌else◌, replicate,
}

-- `BatchSize`, with what `strtol` makes of the variable, or `none` if it is unset or empty; a number
-- below 0 is 0 here.
abbrev pub batch_size : Option ℕ → ℕ
batch_size none = 2
batch_size (some parsed) = if ltb 0 parsed && leb parsed 1024 then parsed else 2

-- `ControlMessage` by its type.
pub data Message : Type 0 where
  finish : Message
  batch : ℕ → ℕ → Message

-- What rank 0 does under the mutex: the message for its channel, and `next_slice_`.
unfoldable pub claim : ℕ → ℕ → ℕ → Message × ℕ
claim size limit next_slice =
    let count : ℕ = min (size - next_slice) limit in
    (if count == 0 then Message.finish else Message.batch next_slice count, next_slice + count)

-- A worker between two steps: before a claim, in a batch from slice `next` with `left` slices to go, or at the
-- return of `ProcessChannel`.
pub data Worker : Type 0 where
  idle : Worker
  running : ℕ → ℕ → Worker
  returned : Bool → Worker

-- What a worker does with the message that the broadcast gives it.
unfoldable pub receive : Message → Worker
receive Message.finish = Worker.returned true
receive (Message.batch start count) = Worker.running start count

-- What a worker does next, where `success` says how the task that it executes ends: the next slice to claim, the
-- worker, and the slice that it has
-- executed, whether or not its task succeeds. An `idle` worker claims and broadcasts what it has claimed.
unfoldable pub work : ℕ → ℕ → Bool → ℕ → Worker → ℕ × (Worker × Option ℕ)
work size limit success next_slice Worker.idle =
    let message : Message × ℕ = claim size limit next_slice in
    (message.1, ((if success then receive message.0 else Worker.returned false), none))
work size limit success next_slice (Worker.running next zero) = (next_slice, (Worker.idle, none))
work size limit success next_slice (Worker.running next (suc left)) =
    if leb size next
    then (next_slice, (Worker.returned false, none))
    else if success
    then (next_slice, (Worker.running (next + 1) left, some next))
    else (next_slice, (Worker.returned false, some next))
work size limit success next_slice (Worker.returned result) =
    (next_slice, (Worker.returned result, none))

-- The executor of rank 0 during a batch; `log` holds the slices that were executed, those
-- whose task failed as well.
pub record System : Type 0 where
  pub next_slice : ℕ
  pub workers : List Worker
  pub log : List ℕ

-- `next_slice_ = 0`, and a worker for each channel.
abbrev pub new_batch : ℕ → System
new_batch channels = record { next_slice = 0; workers = replicate channels Worker.idle; log = [] }

abbrev pub worker_at : List Worker → ℕ → Worker
worker_at [] i = Worker.returned true
worker_at (w ∷ ws) zero = w
worker_at (w ∷ ws) (suc i) = worker_at ws i

abbrev pub set_worker : List Worker → ℕ → Worker → List Worker
set_worker [] i v = []
set_worker (w ∷ ws) zero v = v ∷ ws
set_worker (w ∷ ws) (suc i) v = w ∷ set_worker ws i v

abbrev pub logged : Option ℕ → List ℕ → List ℕ
logged none log = log
logged (some index) log = index ∷ log

unfoldable pub move : ℕ → ℕ → ℕ × Bool → System → System
move size limit (channel, success) s =
    let after : ℕ × (Worker × Option ℕ) =
      work size limit success s.next_slice (worker_at s.workers channel) in
    record {
      next_slice = after.0;
      workers = set_worker s.workers channel after.1.0;
      log = logged after.1.1 s.log;
    }

-- The workers take steps in any order: which one is next, and how its task ends.
unfoldable pub run_batch : ℕ → ℕ → List (ℕ × Bool) → System → System
run_batch size limit [] s = s
run_batch size limit (m ∷ ms) s = run_batch size limit ms (move size limit m s)
