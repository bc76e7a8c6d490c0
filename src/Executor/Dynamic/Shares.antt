-- ===== src/Executor/Dynamic/Shares.antt =====
-- About one step of a worker of a batch, src/executor/dynamic_multi_thread_executor.cpp.
use origin_ccl.Prelude.{
  ℕ, zero, suc, ◌≡◌, ◌≤◌, ◌<◌, ◌+◌, ◌-◌, ◌⊎◌, inl, inr, Bool-cases, ==→eq, min, refl, arith, Bool,
  true, false, ◌&&◌, ◌||◌, Option, none, List, [], ◌∷◌, ltb, leb, ◌==◌, if◌then◌else◌, by_test,
}
use origin_ccl.Executor.Dynamic.{
  Message, Worker, claim, receive, work, worker_at, set_worker, logged,
}

abbrev pub count_in : ℕ → List ℕ → ℕ
count_in i [] = 0
count_in i (x ∷ xs) = (if x == i then 1 else 0) + count_in i xs

-- Whether a worker has still to execute a slice that it has claimed.
abbrev pub owes : ℕ → Worker → ℕ
owes i Worker.idle = 0
owes i (Worker.running next left) = if leb next i && ltb i (next + left) then 1 else 0
owes i (Worker.returned result) = 0

abbrev pub all_owe : ℕ → List Worker → ℕ
all_owe i [] = 0
all_owe i (w ∷ ws) = owes i w + all_owe i ws

abbrev pub is_healthy : Worker → Bool
is_healthy (Worker.returned result) = result
is_healthy w = true

abbrev pub all_healthy : List Worker → Bool
all_healthy [] = true
all_healthy (w ∷ ws) = is_healthy w && all_healthy ws

abbrev pub claimed : ℕ → ℕ → ℕ
claimed i next_slice = if ltb i next_slice then 1 else 0

pub owes-set_worker :
    (i channel : ℕ) (ws : List Worker) (v : Worker)
    → (worker_at ws channel ≡ Worker.returned true → owes i v ≡ 0)
    → all_owe i (set_worker ws channel v) + owes i (worker_at ws channel) ≡ all_owe i ws + owes i v
owes-set_worker i channel [] v h = omega (arith, h refl)
owes-set_worker i zero (w ∷ ws) v h = omega arith
owes-set_worker i (suc channel) (w ∷ ws) v h = omega (arith, owes-set_worker i channel ws v h)

pub healthy-set_worker :
    (channel : ℕ) (ws : List Worker) (v : Worker)
    → (is_healthy v ≡ true → is_healthy (worker_at ws channel) ≡ true)
    → all_healthy (set_worker ws channel v) ≡ true
    → all_healthy ws ≡ true
healthy-set_worker channel [] v h e = refl
healthy-set_worker zero (w ∷ ws) v h e = ground (arith, h, e)
healthy-set_worker (suc channel) (w ∷ ws) v h e =
    ground (arith, e, healthy-set_worker channel ws v h (ground (arith, e)))

pub set_worker-healthy :
    (channel : ℕ) (ws : List Worker) (v : Worker)
    → (worker_at ws channel ≡ Worker.returned true → is_healthy v ≡ true)
    → all_healthy (set_worker ws channel v) ≡ true
    → is_healthy v ≡ true
set_worker-healthy channel [] v h e = h refl
set_worker-healthy zero (w ∷ ws) v h e = ground (arith, e)
set_worker-healthy (suc channel) (w ∷ ws) v h e =
    set_worker-healthy channel ws v h (ground (arith, e))

-- `ProcessChannel` has returned true.
abbrev pub has_ended : Worker → Bool
has_ended (Worker.returned result) = result
has_ended w = false

abbrev pub any_ended : List Worker → Bool
any_ended [] = false
any_ended (w ∷ ws) = has_ended w || any_ended ws

pub ended-set_worker :
    (channel : ℕ) (ws : List Worker) (v : Worker)
    → any_ended (set_worker ws channel v) ≡ true
    → (any_ended ws ≡ true) ⊎ ((has_ended v ≡ true) × (has_ended (worker_at ws channel) ≡ false))
ended-set_worker channel [] v e = inl e
ended-set_worker zero (w ∷ ws) v e = elim (Bool-cases (has_ended w || any_ended ws)) [
  | inl t ↦ inl t
  | inr f ↦ inr (ground (arith, e, f), ground (arith, f))
]
ended-set_worker (suc channel) (w ∷ ws) v e = elim (Bool-cases (has_ended w)) [
  | inl t ↦ inl (ground (arith, t))
  | inr f ↦ elim (ended-set_worker channel ws v (ground (arith, e, f))) [
    | inl t ↦ inl (ground (arith, t))
    | inr h ↦ inr h
  ]
]

-- What one worker may change.
pub record IsStep (i : ℕ) (size next next' : ℕ) (w w' : Worker) (ran : Option ℕ) : Type 0 where
  pub balance : count_in i (logged ran []) + owes i w' + claimed i next ≤ owes i w + claimed i next'
  pub exact :
      is_healthy w' ≡ true
      → count_in i (logged ran []) + owes i w' + claimed i next ≡ owes i w + claimed i next'
  pub healthy : is_healthy w' ≡ true → is_healthy w ≡ true
  pub bounded : next ≤ size → next' ≤ size
  pub grows : next ≤ next'
  pub ends : has_ended w' ≡ true → has_ended w ≡ false → size ≤ next'

claim-IsStep :
    (i size next count : ℕ) (success : Bool)
    → count ≤ size - next
    → (count ≡ 0 → size ≤ next)
    → IsStep i size next
        (next + count)
        Worker.idle
        (if success
          then receive (if count == 0 then Message.finish else Message.batch next count)
          else Worker.returned false)
        none
unfolding receive
claim-IsStep i size next count true h z =
    by_test (λ m. IsStep i size next (next + count) Worker.idle (receive m) none) (count == 0)
      (λ e. record {
        balance = ground (arith, e);
        exact = λ f. ground (arith, e);
        healthy = λ f. refl;
        bounded = λ b. omega (arith, h, b);
        grows = omega arith;
        ends = λ p q. omega (arith, z (==→eq count 0 e));
      })
      (λ e. record {
        balance = ground arith;
        exact = λ f. ground arith;
        healthy = λ f. refl;
        bounded = λ b. omega (arith, h, b);
        grows = omega arith;
        ends = λ p q. ground (arith, p);
      })
claim-IsStep i size next count false h z = record {
  balance = ground arith;
  exact = λ f. ground (arith, f);
  healthy = λ f. refl;
  bounded = λ b. omega (arith, h, b);
  grows = omega arith;
  ends = λ p q. ground (arith, p);
}

abbrev pub IsOutcome : ℕ → ℕ → ℕ → Worker → ℕ × (Worker × Option ℕ) → Type 0
IsOutcome i size next w after = IsStep i size next after.0 w after.1.0 after.1.1

pub work-IsStep :
    (i size limit : ℕ) (success : Bool) (next : ℕ) (w : Worker)
    → 0 < limit
    → IsOutcome i size next w (work size limit success next w)
unfolding work claim
work-IsStep i size limit success next Worker.idle l =
    claim-IsStep i size next (min (size - next) limit) success (omega arith)
      (λ e. omega (arith, e, l))
work-IsStep i size limit success next (Worker.running at zero) l = record {
  balance = ground arith;
  exact = λ f. ground arith;
  healthy = λ f. refl;
  bounded = λ b. b;
  grows = omega arith;
  ends = λ p q. ground (arith, p, q);
}
work-IsStep i size limit success next (Worker.running at (suc left)) l =
    by_test (IsOutcome i size next (Worker.running at (suc left))) (leb size at)
      (λ e. record {
        balance = ground arith;
        exact = λ f. ground (arith, f);
        healthy = λ f. refl;
        bounded = λ b. b;
        grows = omega arith;
        ends = λ p q. ground (arith, p, q);
      })
      (λ e.
        by_test (IsOutcome i size next (Worker.running at (suc left))) success
          (λ f. record {
            balance = ground arith;
            exact = λ h. ground arith;
            healthy = λ h. refl;
            bounded = λ b. b;
            grows = omega arith;
            ends = λ p q. ground (arith, p);
          })
          (λ f. record {
            balance = ground arith;
            exact = λ h. ground (arith, h);
            healthy = λ h. refl;
            bounded = λ b. b;
            grows = omega arith;
            ends = λ p q. ground (arith, p, q);
          }))
work-IsStep i size limit success next (Worker.returned result) l = record {
  balance = omega arith;
  exact = λ f. omega arith;
  healthy = λ f. f;
  bounded = λ b. b;
  grows = omega arith;
  ends = λ p q. ground (arith, p, q);
}
