-- ===== src/Communicator/Grouping.antt =====
-- About groups of calls, src/communicator.cpp: `GroupStart`, `GroupEnd` and `Submit` in sequences.
use origin_ccl.Prelude.{
  ℕ, zero, suc, ◌≡◌, refl, sym, ap, ◌∙◌, arith, Bool, true, false, not, List, [], ◌∷◌, ◌++◌,
  append_assoc, append-nil, by_test, inl, inr, Bool-cases, subst, Option, none, some, if◌then◌else◌,
}
use origin_ccl.Prelude.Int.{ℤ, pos, ltb_ℤ, eqb_ℤ, ◌+ℤ◌, ◌-ℤ◌}
use origin_ccl.Types.{CollTask}
use origin_ccl.Planner.Sort.{sort_tasks}
use origin_ccl.Communicator.{
  Engine, Config, execute, Pending, Call, call, calls, is_taken, submit, flush, group_start,
  group_end,
}

-- Well nested calls.
pub data IsNested : List Call → Type 0 where
  empty : IsNested []
  task : (t : CollTask) (cs : List Call) → IsNested cs → IsNested (Call.submits t ∷ cs)
  group :
      (inner cs : List Call)
      → IsNested inner
      → IsNested cs
      → IsNested (Call.start ∷ (inner ++ (Call.finish ∷ cs)))

plus_one : (d : ℕ) → pos d +ℤ pos 1 ≡ pos (suc d)
unfolding ◌+ℤ◌
plus_one d = ground arith

minus_one : (d : ℕ) → pos (suc d) -ℤ pos 1 ≡ pos d
unfolding ◌-ℤ◌
minus_one d = ground arith

not_zero : (d : ℕ) → eqb_ℤ (pos (suc d)) (pos 0) ≡ false
not_zero d = ground arith

above_zero : (d : ℕ) → ltb_ℤ (pos 0) (pos (suc d)) ≡ true
above_zero d = ground arith

module _ (engine : Engine) (config : Config) where
  open engine use {World}

  -- The tasks of the calls that `Submit` takes, in their order.
  abbrev pub taken : List Call → List CollTask
  taken [] = []
  taken (Call.submits t ∷ cs) = if is_taken engine config t then t ∷ taken cs else taken cs
  taken (c ∷ cs) = taken cs

  abbrev pub at_depth : ℕ → List CollTask → World → Pending World
  at_depth depth tasks w = record { group_depth = pos depth; tasks = tasks; world = w }

  taken-append : (xs ys : List Call) → taken (xs ++ ys) ≡ taken xs ++ taken ys
  taken-append [] ys = refl
  taken-append (Call.start ∷ xs) ys = taken-append xs ys
  taken-append (Call.finish ∷ xs) ys = taken-append xs ys
  taken-append (Call.submits t ∷ xs) ys =
      by_test (λ r. r ≡ taken (Call.submits t ∷ xs) ++ taken ys) (is_taken engine config t)
        (λ e. rw e (ap (λ r. t ∷ r) (taken-append xs ys))) (λ e. rw e (taken-append xs ys))

  calls-append :
      (xs ys : List Call) (s : Pending World)
      → calls engine config (xs ++ ys) s ≡ calls engine config ys (calls engine config xs s)
  unfolding calls
  calls-append [] ys s = refl
  calls-append (a ∷ xs) ys s = calls-append xs ys (call engine config a s).1

  submit-inside :
      (t : CollTask) (depth : ℕ) (tasks : List CollTask) (w : World)
      → (submit engine config t (at_depth (suc depth) tasks w)).1
        ≡ at_depth (suc depth) (tasks ++ taken (Call.submits t ∷ [])) w
  unfolding submit
  submit-inside t depth tasks w = elim (Bool-cases (is_taken engine config t)) [
    | inl e ↦ rw e (rw (not_zero depth) refl)
    | inr e ↦ rw e (ap (λ r. at_depth (suc depth) r w) (sym (append-nil tasks)))
  ]

  start_lem :
      (depth : ℕ) (tasks : List CollTask) (w : World)
      → group_start engine config (at_depth depth tasks w) ≡ at_depth (suc depth) tasks w
  unfolding group_start
  start_lem depth tasks w =
      ap (λ (n : ℤ). record { group_depth = n; tasks = tasks; world = w }) (plus_one depth)

  finish-inside :
      (depth : ℕ) (tasks : List CollTask) (w : World)
      → (group_end engine config (at_depth (suc (suc depth)) tasks w)).1
        ≡ at_depth (suc depth) tasks w
  unfolding group_end
  finish-inside depth tasks w =
      rw (above_zero (suc depth)) (rw (minus_one (suc depth)) (rw (above_zero depth) refl))

  finish_last :
      (tasks : List CollTask) (w : World)
      → group_end engine config (at_depth 1 tasks w) ≡ flush engine config (at_depth 0 tasks w)
  unfolding group_end
  finish_last tasks w = rw (minus_one 0) refl

  -- Inside a group, well nested calls only add their tasks.
  calls-inside :
      (cs : List Call) (depth : ℕ) (tasks : List CollTask) (w : World)
      → IsNested cs
      → calls engine config cs (at_depth (suc depth) tasks w)
        ≡ at_depth (suc depth) (tasks ++ taken cs) w
  unfolding calls
  calls-inside cs depth tasks w empty = ap (λ r. at_depth (suc depth) r w) (sym (append-nil tasks))
  calls-inside cs depth tasks w (task t rest n) =
      ap (calls engine config rest) (submit-inside t depth tasks w)
      ∙ (calls-inside rest depth (tasks ++ taken (Call.submits t ∷ [])) w n
          ∙ ap (λ r. at_depth (suc depth) r w)
              (append_assoc tasks (taken (Call.submits t ∷ [])) (taken rest)
                ∙ ap (λ r. tasks ++ r) (sym (taken-append (Call.submits t ∷ []) rest))))
  calls-inside cs depth tasks w (group inner rest m n) =
      ap (calls engine config (inner ++ (Call.finish ∷ rest))) (start_lem (suc depth) tasks w)
      ∙ (calls-append inner (Call.finish ∷ rest) (at_depth (suc (suc depth)) tasks w)
          ∙ (ap (calls engine config (Call.finish ∷ rest))
                (calls-inside inner (suc depth) tasks w m)
              ∙ (ap (calls engine config rest) (finish-inside depth (tasks ++ taken inner) w)
                  ∙ (calls-inside rest depth (tasks ++ taken inner) w n
                      ∙ ap (λ r. at_depth (suc depth) r w)
                          (append_assoc tasks (taken inner) (taken rest)
                            ∙ ap (λ r. tasks ++ r)
                                (sym (taken-append inner (Call.finish ∷ rest))))))))

-- Calls between `GroupStart` and its `GroupEnd`, however they nest, do nothing before it, and it gives what one `Flush`
-- gives of the tasks that `Submit` takes of them, in the order of the calls.
pub group_end-calls :
    (engine : Engine) (config : Config) (cs : List Call) (w : engine.World)
    → IsNested cs
    → group_end engine config
        (calls engine config (Call.start ∷ cs) (at_depth engine config 0 [] w))
      ≡ flush engine config (at_depth engine config 0 (taken engine config cs) w)
unfolding calls
group_end-calls engine config cs w n =
    ap (group_end engine config) (
      ap (calls engine config cs) (start_lem engine config 0 [] w)
      ∙ calls-inside engine config cs 0 [] w n)
    ∙ finish_last engine config (taken engine config cs) w

-- Outside of a group no task is pending.
pub data IsSettled (engine : Engine) (config : Config) : Pending engine.World → Type 0 where
  idle : (w : engine.World) → IsSettled engine config (at_depth engine config 0 [] w)
  grouped :
      (depth : ℕ) (tasks : List CollTask) (w : engine.World)
      → IsSettled engine config (at_depth engine config (suc depth) tasks w)

module _ (engine : Engine) (config : Config) where
  abbrev SettledBy : Bool × Pending engine.World → Type 0
  SettledBy out = IsSettled engine config out.1

  flush-IsSettled :
      (tasks : List CollTask) (w : engine.World)
      → IsSettled engine config (flush engine config (at_depth engine config 0 tasks w)).1
  unfolding flush
  flush-IsSettled tasks w = go (sort_tasks tasks config.rank config.world_size)
    where
      result : Option (List CollTask) → Bool × Pending engine.World
      result none = (false, at_depth engine config 0 [] w)
      result (some sorted) = (
        (execute engine config sorted w).0,
        at_depth engine config 0 [] (execute engine config sorted w).1,
      )

      go : (o : Option (List CollTask)) → SettledBy (result o)
      go none = idle w
      go (some sorted) = idle (execute engine config sorted w).1

  call-IsSettled :
      (c : Call) (s : Pending engine.World)
      → IsSettled engine config s
      → IsSettled engine config (call engine config c s).1
  unfolding submit group_end
  call-IsSettled Call.start s (idle w) = rw (start_lem engine config 0 [] w) (grouped 0 [] w)
  call-IsSettled Call.start s (grouped depth tasks w) =
      rw (start_lem engine config (suc depth) tasks w) (grouped (suc depth) tasks w)
  call-IsSettled Call.finish s (idle w) = idle w
  call-IsSettled Call.finish s (grouped zero tasks w) =
      subst (IsSettled engine config) (sym (ap (λ r. r.1) (finish_last engine config tasks w)))
        (flush-IsSettled tasks w)
  call-IsSettled Call.finish s (grouped (suc depth) tasks w) =
      subst (IsSettled engine config) (sym (finish-inside engine config depth tasks w))
        (grouped depth tasks w)
  call-IsSettled (Call.submits t) s (idle w) =
      by_test SettledBy (not (is_taken engine config t)) (λ e. idle w)
        (λ e. flush-IsSettled (t ∷ []) w)
  call-IsSettled (Call.submits t) s (grouped depth tasks w) =
      subst (IsSettled engine config) (sym (submit-inside engine config t depth tasks w))
        (grouped depth _ w)

-- After any calls on an idle communicator, matched or not, the depth is not negative, and outside of a group no task is
-- pending, whether batches failed or not.
pub calls-IsSettled :
    (engine : Engine) (config : Config) (cs : List Call) (s : Pending engine.World)
    → IsSettled engine config s
    → IsSettled engine config (calls engine config cs s)
unfolding calls
calls-IsSettled engine config [] s h = h
calls-IsSettled engine config (c ∷ cs) s h =
    calls-IsSettled engine config cs (call engine config c s).1 (call-IsSettled engine config c s h)
