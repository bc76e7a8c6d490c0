-- ===== src/Executor/Polling/Rounds.antt =====
-- About the rounds of the loop over the slots, src/executor/polling_executor.cpp.
use origin_ccl.Prelude.{
  ℕ, zero, suc, ◌≡◌, ◌≤◌, ◌<◌, ◌+◌, ◌-◌, ◌*◌, ◌⊎◌, inl, inr, refl, ap, ◌∙◌, arith, Bool, true, not,
  Option, none, some, List, [], ◌∷◌, map, get_elem?, length, All, if◌then◌else◌, by_test,
}
use origin_ccl.Types.{PlanTask}
use origin_ccl.Topology.Stepping.Loops.{Gives, Gives-map}
use origin_ccl.Executor.{Stepper, begin, drive}
use origin_ccl.Executor.Polling.{Slot, Moved, start_front_task, poll_slot, each_slot}

Gives-both {ℓ} :
    {A : Type ℓ} (P Q : A → Type 0) (F G : Type 0) (o : Option A)
    → ((a : A) → P a → Q a)
    → (F → G)
    → Gives P F o
    → Gives Q G o
Gives-both P Q F G none f g h = g h
Gives-both P Q F G (some a) f g h = f a h

get_elem?-Gives {ℓ} :
    {A : Type ℓ} (P : A → Type 0) (xs : List A) (i : ℕ)
    → All P xs
    → Gives (λ x. (i < length xs) × P x) (length xs ≤ i) (get_elem? xs i)
get_elem?-Gives P [] i h = omega arith
get_elem?-Gives P (x ∷ xs) zero h = (omega arith, h.0)
get_elem?-Gives P (x ∷ xs) (suc i) h =
    Gives-both (λ y. (i < length xs) × P y) (λ y. (suc i < suc (length xs)) × P y) (length xs ≤ i)
      (suc (length xs) ≤ suc i) (get_elem? xs i) (λ y h. (omega (arith, h.0), h.1))
      (λ h. omega (arith, h)) (get_elem?-Gives P xs i h.1)

module _ (stepper : Stepper) where
  open stepper use {World, State, is_done}

  abbrev pub busy : Slot stepper → ℕ
  busy slot = elim slot.current [ none ↦ 0 | some c ↦ 1 ]

  abbrev pub all_busy : List (Slot stepper) → ℕ
  all_busy [] = 0
  all_busy (slot ∷ slots) = busy slot + all_busy slots

  abbrev pub MayRun :
      (PlanTask → Type 0) → (PlanTask → State → Type 0) → Option (PlanTask × State) → Type 0
  MayRun IsRunnable IsLive none = Unit
  MayRun IsRunnable IsLive (some c) = IsRunnable c.0 × IsLive c.0 c.1

  -- A slot that has no current task has started all of them, and its tasks are such as may run;
  -- the state of its current task is one of those that such a task can have.
  pub record IsServed (IsRunnable : PlanTask → Type 0) (IsLive : PlanTask → State → Type 0)
      (slot : Slot stepper) : Type 0 where
    pub within : slot.task_index ≤ length slot.tasks
    pub all_started : busy slot ≡ 0 → slot.task_index ≡ length slot.tasks
    pub runnable : All IsRunnable slot.tasks
    pub current_runnable : MayRun IsRunnable IsLive slot.current

  module _ (F : Type 0) (steady : Bool) (work : State → ℕ) (most : ℕ)
      (IsRunnable : PlanTask → Type 0) (IsLive : PlanTask → State → Type 0)
      (begins : (task : PlanTask) (w : World)
        → IsRunnable task
        → Gives
            (λ st. IsLive task st.0 × (steady ≡ true → work st.0 ≤ most))
            F
            (begin stepper task w))
      (drives : (task : PlanTask) (st : State × World)
        → IsRunnable task
        → IsLive task st.0
        → Gives
            (λ out.
              IsLive task out.0
              × (steady ≡ true → (is_done out.0 ≡ true) ⊎ (work out.0 < work st.0)))
            F
            (drive stepper task st)) where
    -- What a slot may still ask for.
    abbrev pub todo : Slot stepper → ℕ
    todo slot =
        (length slot.tasks - slot.task_index) * (most + 2)
        + elim slot.current [ none ↦ 0 | some c ↦ work c.1 + 1 ]

    abbrev pub all_todo : List (Slot stepper) → ℕ
    all_todo [] = 0
    all_todo (slot ∷ slots) = todo slot + all_todo slots

    abbrev pub all_spent : (Slot stepper → ℕ) → List (Slot stepper) → ℕ
    all_spent spent [] = 0
    all_spent spent (slot ∷ slots) = spent slot + all_spent spent slots

    -- What a call on a slot leaves.
    pub record IsKept (slot : Slot stepper) (active : ℕ) (spent : ℕ) (out : Moved stepper)
        : Type 0 where
      pub same : out.0.tasks ≡ slot.tasks
      pub balance : out.1.0 + busy slot ≡ active + busy out.0
      pub served : IsServed IsRunnable IsLive out.0
      pub less : steady ≡ true → todo out.0 + spent ≤ todo slot

    abbrev pub at_rest : List PlanTask → ℕ → Slot stepper
    at_rest tasks index = record { tasks = tasks; task_index = index; current = none }

    started-IsKept :
        (tasks : List PlanTask) (index active : ℕ) (task : PlanTask) (o : Option (State × World))
        → index < length tasks
        → All IsRunnable tasks
        → IsRunnable task
        → Gives (λ st. IsLive task st.0 × (steady ≡ true → work st.0 ≤ most)) F o
        → Gives (IsKept (at_rest tasks index) active 0) F (elim o [
          | none ↦ none
          | some (s, w') ↦ some (
            record (at_rest tasks index) { current = some (task, s); task_index = index + 1 },
            (active + 1, w'),
          )
        ])
    started-IsKept tasks index active task none l runs run h = h
    started-IsKept tasks index active task (some (s, w')) l runs run h = record {
      same = refl;
      balance = omega arith;
      served = record {
        within = omega (arith, l);
        all_started = λ e. absurd (omega (arith, e));
        runnable = runs;
        current_runnable = (run, h.0);
      };
      less = λ i. omega (arith, h.1 i, one_less (length tasks) index l);
    }
      where
        one_less :
            (n k : ℕ) → k < n → (n - (k + 1)) * (most + 2) + (most + 2) ≡ (n - k) * (most + 2)
        one_less n k l = rw (shift n k l) (omega arith)
          where
            shift : (n k : ℕ) → k < n → n - k ≡ n - (k + 1) + 1
            shift n k l = omega (arith, l)

    pub start-IsKept :
        (tasks : List PlanTask) (index active : ℕ) (w : World)
        → index ≤ length tasks
        → All IsRunnable tasks
        → Gives
            (IsKept (at_rest tasks index) active 0)
            F
            (start_front_task stepper (at_rest tasks index, (active, w)))
    unfolding start_front_task
    start-IsKept tasks index active w le runs =
        go (get_elem? tasks index) (get_elem?-Gives IsRunnable tasks index runs)
      where
        go :
            (o : Option PlanTask)
            → Gives (λ t. (index < length tasks) × IsRunnable t) (length tasks ≤ index) o
            → Gives (IsKept (at_rest tasks index) active 0) F (elim o [
              | none ↦ some (at_rest tasks index, (active, w))
              | some task ↦ elim (begin stepper task w) [
                | none ↦ none
                | some (s, w') ↦ some (
                  record (at_rest tasks index) { current = some (task, s); task_index = index + 1 },
                  (active + 1, w'),
                )
              ]
            ])
        go none h = record {
          same = refl;
          balance = omega arith;
          served = record {
            within = le;
            all_started = λ e. omega (arith, le, h);
            runnable = runs;
            current_runnable = tt;
          };
          less = λ i. omega arith;
        }
        go (some task) h =
            started-IsKept tasks index active task (begin stepper task w) h.0 runs h.1
              (begins task w h.1)

    abbrev with_current : List PlanTask → ℕ → Option (PlanTask × State) → Slot stepper
    with_current tasks index c = record { tasks = tasks; task_index = index; current = c }

    driven-IsKept :
        (tasks : List PlanTask) (index active : ℕ) (task : PlanTask) (s : State)
        (o : Option (State × World))
        → 1 ≤ active
        → index ≤ length tasks
        → All IsRunnable tasks
        → IsRunnable task
        → Gives
            (λ out.
              IsLive task out.0 × (steady ≡ true → (is_done out.0 ≡ true) ⊎ (work out.0 < work s)))
            F
            o
        → Gives (IsKept (with_current tasks index (some (task, s))) active 1) F (elim o [
          | none ↦ none
          | some (s', w') ↦
              if not (is_done s')
              then some (with_current tasks index (some (task, s')), (active, w'))
              else start_front_task stepper (at_rest tasks index, (active - 1, w'))
        ])
    driven-IsKept tasks index active task s none b le runs run h = h
    driven-IsKept tasks index active task s (some (s', w')) b le runs run h =
        by_test (Gives (IsKept (with_current tasks index (some (task, s))) active 1) F)
          (not (is_done s'))
          (λ e. record {
            same = refl;
            balance = refl;
            served = record {
              within = le;
              all_started = λ f. absurd (omega (arith, f));
              runnable = runs;
              current_runnable = (run, h.0);
            };
            less = λ i. elim (h.1 i) [
              | inl d ↦ absurd (ground (arith, e, d))
              | inr l ↦ omega (arith, l)
            ];
          })
          (λ e.
            Gives-map (IsKept (at_rest tasks index) (active - 1) 0)
              (IsKept (with_current tasks index (some (task, s))) active 1) F
              (start_front_task stepper (at_rest tasks index, (active - 1, w')))
              (λ out k. record {
                same = k.same;
                balance = omega (arith, k.balance, b);
                served = k.served;
                less = λ i. omega (arith, k.less i);
              })
              (start-IsKept tasks index (active - 1) w' le runs))

    poll-IsKept_fields :
        (tasks : List PlanTask) (index : ℕ) (c : Option (PlanTask × State)) (active : ℕ) (w : World)
        → busy (with_current tasks index c) ≤ active
        → IsServed IsRunnable IsLive (with_current tasks index c)
        → Gives
            (IsKept (with_current tasks index c) active (busy (with_current tasks index c)))
            F
            (poll_slot stepper (with_current tasks index c, (active, w)))
    unfolding poll_slot
    poll-IsKept_fields tasks index none active w b served = record {
      same = refl;
      balance = refl;
      served = served;
      less = λ i. omega arith;
    }
    poll-IsKept_fields tasks index (some (task, s)) active w b served =
        driven-IsKept tasks index active task s (drive stepper task (s, w)) b served.within
          served.runnable served.current_runnable.0
          (drives task (s, w) served.current_runnable.0 served.current_runnable.1)

    pub poll-IsKept :
        (slot : Slot stepper) (active : ℕ) (w : World)
        → busy slot ≤ active
        → IsServed IsRunnable IsLive slot
        → Gives (IsKept slot active (busy slot)) F (poll_slot stepper (slot, (active, w)))
    poll-IsKept slot active w b served =
        poll-IsKept_fields slot.tasks slot.task_index slot.current active w b served

    -- What a loop over the slots leaves, where `spent` bounds what each slot gives.
    pub record AllKept (spent : Slot stepper → ℕ) (slots : List (Slot stepper)) (active : ℕ)
        (out : List (Slot stepper) × (ℕ × World)) : Type 0 where
      pub all_same : map (λ slot. slot.tasks) out.0 ≡ map (λ slot. slot.tasks) slots
      pub all_balance : out.1.0 + all_busy slots ≡ active + all_busy out.0
      pub all_served : All (IsServed IsRunnable IsLive) out.0
      pub all_less : steady ≡ true → all_todo out.0 + all_spent spent slots ≤ all_todo slots

    pub each_slot-AllKept :
        (spent : Slot stepper → ℕ) (f : Moved stepper → Option (Moved stepper))
        (IsReady : Slot stepper → Type 0)
        → ((slot : Slot stepper) (active : ℕ) (w : World)
            → busy slot ≤ active
            → IsReady slot
            → Gives (IsKept slot active (spent slot)) F (f (slot, (active, w))))
        → (slots : List (Slot stepper)) (active : ℕ) (w : World) → all_busy slots ≤ active
        → All IsReady slots
        → Gives (AllKept spent slots active) F (each_slot stepper f slots active w)
    unfolding each_slot
    each_slot-AllKept spent f IsReady keeps [] active w b ready = record {
      all_same = refl;
      all_balance = omega arith;
      all_served = tt;
      all_less = λ i. omega arith;
    }
    each_slot-AllKept spent f IsReady keeps (slot ∷ slots) active w b ready =
        first (f (slot, (active, w))) (keeps slot active w (omega (arith, b)) ready.0)
          (λ active' w' b'. each_slot-AllKept spent f IsReady keeps slots active' w' b' ready.1)
      where
        rest :
            (out : Moved stepper) (o : Option (List (Slot stepper) × (ℕ × World)))
            → IsKept slot active (spent slot) out
            → Gives (AllKept spent slots out.1.0) F o
            → Gives
                (AllKept spent (slot ∷ slots) active)
                F
                (elim o [ none ↦ none | some (slots', end) ↦ some (out.0 ∷ slots', end) ])
        rest out none k h = h
        rest out (some (slots', (active'', w''))) k h = record {
          all_same =
              ap (λ ts. ts ∷ map (λ slot. slot.tasks) slots') k.same
              ∙ ap (λ tss. slot.tasks ∷ tss) h.all_same;
          all_balance = omega (arith, k.balance, h.all_balance);
          all_served = (k.served, h.all_served);
          all_less = λ i. omega (arith, k.less i, h.all_less i);
        }

        first :
            (o : Option (Moved stepper))
            → Gives (IsKept slot active (spent slot)) F o
            → ((active' : ℕ) (w' : World)
                → all_busy slots ≤ active'
                → Gives (AllKept spent slots active') F (each_slot stepper f slots active' w'))
            → Gives (AllKept spent (slot ∷ slots) active) F (elim o [
              | none ↦ none
              | some (slot', (active', w')) ↦ elim (each_slot stepper f slots active' w') [
                | none ↦ none
                | some (slots', end) ↦ some (slot' ∷ slots', end)
              ]
            ])
        first none k ih = k
        first (some (slot', (active', w'))) k ih =
            rest (slot', (active', w')) (each_slot stepper f slots active' w') k
              (ih active' w' (omega (arith, k.balance, b)))
