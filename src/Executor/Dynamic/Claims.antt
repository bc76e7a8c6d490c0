-- ===== src/Executor/Dynamic/Claims.antt =====
-- About the claims of all workers of a batch, src/executor/dynamic_multi_thread_executor.cpp.
use origin_ccl.Prelude.{
  ap, ◌∙◌, length, length-replicate, ℕ, zero, suc, ◌≡◌, ◌≤◌, ◌<◌, ◌+◌, inl, inr, refl, arith, Bool,
  true, false, ◌&&◌, Option, none, some, List, [], ◌∷◌, replicate,
}
use origin_ccl.Executor.Dynamic.{
  Worker, System, work, worker_at, set_worker, logged, move, run_batch, new_batch,
}
use origin_ccl.Executor.Dynamic.Shares.{
  count_in, all_owe, all_healthy, claimed, has_ended, any_ended, owes-set_worker,
  healthy-set_worker, set_worker-healthy, ended-set_worker, work-IsStep,
}

-- What is known of a batch at slice `i`.
record IsFair (i size : ℕ) (s : System) : Type 0 where
  pub balance : count_in i s.log + all_owe i s.workers ≤ claimed i s.next_slice
  pub exact :
      all_healthy s.workers ≡ true → count_in i s.log + all_owe i s.workers ≡ claimed i s.next_slice
  pub bounded : s.next_slice ≤ size
  pub ended : any_ended s.workers ≡ true → size ≤ s.next_slice

count_in-logged :
    (i : ℕ) (ran : Option ℕ) (log : List ℕ)
    → count_in i (logged ran log) ≡ count_in i (logged ran []) + count_in i log
count_in-logged i none log = omega arith
count_in-logged i (some x) log = omega arith

work-returned :
    (size limit : ℕ) (success : Bool) (next : ℕ) (w : Worker)
    → w ≡ Worker.returned true
    → (work size limit success next w).1.0 ≡ Worker.returned true
unfolding work
work-returned size limit success next w e = rw e refl

move-IsFair :
    (i size limit channel : ℕ) (success : Bool) (s : System)
    → 0 < limit
    → IsFair i size s
    → IsFair i size (move size limit (channel, success) s)
unfolding move
move-IsFair i size limit channel success s l fair =
    let old = worker_at s.workers channel in
    let after = work size limit success s.next_slice old in
    let step = work-IsStep i size limit success s.next_slice old l in
    let owed =
      owes-set_worker i channel s.workers after.1.0
        (λ e. rw (work-returned size limit success s.next_slice old e) refl) in
    let ran = count_in-logged i after.1.1 s.log in
    record {
      balance = omega (arith, fair.balance, step.balance, owed, ran);
      exact = λ e.
          (let h =
              set_worker-healthy channel s.workers after.1.0
                (λ f. rw (work-returned size limit success s.next_slice old f) refl) e in
            omega (
              arith,
              fair.exact (healthy-set_worker channel s.workers after.1.0 step.healthy e),
              step.exact h,
              owed,
              ran,
            ));
      bounded = step.bounded fair.bounded;
      ended = λ e. elim (ended-set_worker channel s.workers after.1.0 e) [
        | inl t ↦ omega (arith, fair.ended t, step.grows)
        | inr h ↦ step.ends h.0 h.1
      ];
    }

run_batch-IsFair :
    (i size limit : ℕ) (ms : List (ℕ × Bool)) (s : System)
    → 0 < limit
    → IsFair i size s
    → IsFair i size (run_batch size limit ms s)
unfolding run_batch
run_batch-IsFair i size limit [] s l fair = fair
run_batch-IsFair i size limit ((channel, success) ∷ ms) s l fair =
    run_batch-IsFair i size limit ms (move size limit (channel, success) s) l
      (move-IsFair i size limit channel success s l fair)

new_batch-IsFair : (i size channels : ℕ) → IsFair i size (new_batch channels)
new_batch-IsFair i size channels = record {
  balance = omega (arith, none_owed i channels);
  exact = λ e. ground (arith, none_owed i channels);
  bounded = omega arith;
  ended = λ e. absurd (ground (arith, e, none_ended channels));
}
  where
    none_owed : (i n : ℕ) → all_owe i (replicate n Worker.idle) ≡ 0
    none_owed i zero = refl
    none_owed i (suc n) = omega (arith, none_owed i n)

    none_ended : (n : ℕ) → any_ended (replicate n Worker.idle) ≡ false
    none_ended zero = refl
    none_ended (suc n) = none_ended n

abbrev pub all_ended : List Worker → Bool
all_ended [] = true
all_ended (w ∷ ws) = has_ended w && all_ended ws

ended-healthy : (ws : List Worker) → all_ended ws ≡ true → all_healthy ws ≡ true
ended-healthy [] e = refl
ended-healthy (Worker.returned result ∷ ws) e = ground (arith, e, ended-healthy ws)
ended-healthy (Worker.idle ∷ ws) e = absurd (ground (arith, e))
ended-healthy (Worker.running next left ∷ ws) e = absurd (ground (arith, e))

ended-owes : (i : ℕ) (ws : List Worker) → all_ended ws ≡ true → all_owe i ws ≡ 0
ended-owes i [] e = refl
ended-owes i (Worker.returned result ∷ ws) e = omega (arith, ended-owes i ws (ground (arith, e)))
ended-owes i (Worker.idle ∷ ws) e = absurd (ground (arith, e))
ended-owes i (Worker.running next left ∷ ws) e = absurd (ground (arith, e))

length-set_worker :
    (ws : List Worker) (channel : ℕ) (v : Worker) → length (set_worker ws channel v) ≡ length ws
length-set_worker [] channel v = refl
length-set_worker (w ∷ ws) zero v = refl
length-set_worker (w ∷ ws) (suc channel) v = ap suc (length-set_worker ws channel v)

length-run_batch :
    (size limit : ℕ) (ms : List (ℕ × Bool)) (s : System)
    → length (run_batch size limit ms s).workers ≡ length s.workers
unfolding run_batch move
length-run_batch size limit [] s = refl
length-run_batch size limit ((channel, success) ∷ ms) s =
    length-run_batch size limit ms (move size limit (channel, success) s)
    ∙ length-set_worker s.workers channel _

all-any : (ws : List Worker) → 0 < length ws → all_ended ws ≡ true → any_ended ws ≡ true
all-any [] l e = absurd (omega (arith, l))
all-any (w ∷ ws) l e = ground (arith, e)

-- Whatever the order in which the workers take their steps, and whichever tasks fail, no slice is executed twice, one
-- whose task fails included, and none that the batch does not have.
pub count_in-run_batch :
    (size limit channels i : ℕ) (ms : List (ℕ × Bool))
    → 0 < limit
    → count_in i (run_batch size limit ms (new_batch channels)).log ≤ claimed i size
count_in-run_batch size limit channels i ms l =
    let fair =
      run_batch-IsFair i size limit ms (new_batch channels) l (new_batch-IsFair i size channels) in
    ground (arith, fair.balance, fair.bounded)

-- When every worker has returned true, and there is one, each slice of the batch was executed exactly once.
pub run_batch_complete :
    (size limit channels i : ℕ) (ms : List (ℕ × Bool))
    → 0 < limit
    → 0 < channels
    → all_ended (run_batch size limit ms (new_batch channels)).workers ≡ true
    → count_in i (run_batch size limit ms (new_batch channels)).log ≡ claimed i size
run_batch_complete size limit channels i ms l some_channel e =
    let last = run_batch size limit ms (new_batch channels) in
    let fair =
      run_batch-IsFair i size limit ms (new_batch channels) l (new_batch-IsFair i size channels) in
    let there : 0 < length last.workers = omega (
      arith,
      some_channel,
      length-run_batch size limit ms (new_batch channels),
      length-replicate channels Worker.idle,
    ) in
    let over = fair.ended (all-any last.workers there e) in
    ground (
      arith,
      fair.exact (ended-healthy last.workers e),
      ended-owes i last.workers e,
      fair.bounded,
      over,
    )
