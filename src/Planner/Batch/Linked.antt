-- ===== src/Planner/Batch/Linked.antt =====
-- About the tasks of a plan, src/planner.cpp: which are messages, and have a transport.
use origin_ccl.Prelude.{
  ℕ, zero, suc, ◌≡◌, ◌+◌, ◌==◌, refl, arith, Bool, true, false, ◌&&◌, ◌||◌, Option, none, some,
  List, [], ◌∷◌, ◌++◌, all, All, keep, by_test, if◌then◌else◌,
}
use origin_ccl.Prelude.Int.{ℤ}
use origin_ccl.Types.{CollFunc, CollTask, PlanTask, ChannelPlan, CollPlan, Channel, TopologyKind}
use origin_ccl.Topology.{fill_transports}
use origin_ccl.Topology.Ring
use origin_ccl.Topology.Tree
use origin_ccl.Topology.Stepping.{is_empty}
use origin_ccl.Planner.Validate.{◌is◌}
use origin_ccl.Planner.Slices.{Comm, Split, kind_of, slice_task, push_at, numbered}

-- Whether a task of a plan is a message, and whether it is empty or has the one transport that it needs.
abbrev pub is_message : PlanTask → Bool
is_message task = elim task.topology [
  | none ↦ false
  | some kind ↦ elim kind [ TopologyKind.p2p ↦ true | _ ↦ false ]
]

abbrev pub is_one : List (Option ℕ) → Bool
is_one (some t ∷ []) = true
is_one _ = false

abbrev pub is_linked : PlanTask → Bool
is_linked task =
    task.elem_count == 0
    || (if task.func is CollFunc.send
        then is_one task.send_transports && is_empty task.recv_transports
        else is_one task.recv_transports && is_empty task.send_transports)

abbrev pub IsLinkedMessage : PlanTask → Type 0
IsLinkedMessage task = is_message task ≡ true → is_linked task ≡ true

abbrev pub AllLinked : CollPlan → Type 0
AllLinked plan = All (λ channel. All IsLinkedMessage channel.tasks) plan.channels

pub All-snoc {ℓ} :
    {A : Type ℓ} (P : A → Type 0) (xs : List A) (x : A) → All P xs → P x → All P (xs ++ (x ∷ []))
All-snoc P [] x hs h = (h, tt)
All-snoc P (y ∷ xs) x hs h = (hs.0, All-snoc P xs x hs.1 h)

pub All-keep_both {ℓ} :
    {A : Type ℓ} (P : A → Type 0) (p : A → Bool) (xs : List A)
    → All P xs
    → All (λ x. P x × (p x ≡ true)) (keep p xs)
All-keep_both P p [] h = tt
All-keep_both P p (x ∷ xs) h =
    by_test (All (λ y. P y × (p y ≡ true))) (p x) (λ e. ((h.0, e), All-keep_both P p xs h.1))
      (λ e. All-keep_both P p xs h.1)

pub all-All {ℓ} :
    {A : Type ℓ} (p : A → Bool) (xs : List A) → all p xs ≡ true → All (λ x. p x ≡ true) xs
all-All p [] h = tt
all-All p (x ∷ xs) h = (ground (arith, h), all-All p xs (ground (arith, h)))

pub push_at-All :
    (channels : List ChannelPlan) (i : ℕ) (task : PlanTask)
    → All (λ channel. All IsLinkedMessage channel.tasks) channels
    → IsLinkedMessage task
    → All (λ channel. All IsLinkedMessage channel.tasks) (push_at channels i task)
push_at-All [] i task hs h = tt
push_at-All (c ∷ cs) zero task hs h = (All-snoc IsLinkedMessage c.tasks task hs.0 h, hs.1)
push_at-All (c ∷ cs) (suc i) task hs h = (hs.0, push_at-All cs i task hs.1 h)

pub numbered-All : (n id : ℕ) → All (λ channel. All IsLinkedMessage channel.tasks) (numbered n id)
numbered-All zero id = tt
numbered-All (suc n) id = (tt, numbered-All n (id + 1))

-- The slices of collectives are no messages.
pub slice_no_message :
    (comm : Comm) (task : CollTask) (s : Split) (elems offset : ℕ) (id : ℤ) (channel : Channel)
    → is_message (fill_transports (kind_of s) channel (slice_task comm task s elems offset id))
      ≡ false
unfolding fill_transports Ring.fill_transports Tree.fill_transports slice_task
slice_no_message comm task s elems offset id channel =
    by_test
      (λ (k : TopologyKind).
        is_message (fill_transports k channel (slice_task comm task s elems offset id)) ≡ false)
      s.use_tree (λ e. kind_no_message s) (λ e. kind_no_message s)
  where
    kind_no_message :
        (s : Split) → (elim (kind_of s) [ TopologyKind.p2p ↦ true | _ ↦ false ]) ≡ false
    kind_no_message s =
        by_test (λ (k : TopologyKind). (elim k [ TopologyKind.p2p ↦ true | _ ↦ false ]) ≡ false)
          s.use_tree (λ e. refl) (λ e. refl)
