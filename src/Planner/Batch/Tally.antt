-- ===== src/Planner/Batch/Tally.antt =====
-- About how often a message stands in a plan, src/planner.cpp.
use origin_ccl.Prelude.{
  ℕ, zero, suc, ◌≡◌, ◌≢◌, ◌<◌, ◌+◌, ◌==◌, refl, ◌∙◌, ap, arith, Bool, false, ◌&&◌, Option, List, [],
  ◌∷◌, ◌++◌, keep, length, by_test, if◌then◌else◌,
}
use origin_ccl.Prelude.Int.{ℤ}
use origin_ccl.Types.{CollFunc, CollTask, DataType, PlanTask, ChannelPlan, Channel, TopologyKind}
use origin_ccl.Topology.{fill_transports}
use origin_ccl.Topology.P2p
use origin_ccl.Planner.Validate.{◌is◌}
use origin_ccl.Planner.Slices.{push_at, numbered}
use origin_ccl.Planner.Batch.{Network, Site}
use origin_ccl.Planner.Batch.Planning.{message_task}
use origin_ccl.Planner.Batch.Linked.{is_message}

-- How many elements pass a test.
abbrev pub tally {ℓ} : {A : Type ℓ} → (A → Bool) → List A → ℕ
tally p [] = 0
tally p (x ∷ xs) = (if p x then 1 else 0) + tally p xs

pub tally-snoc {ℓ} :
    {A : Type ℓ} (p : A → Bool) (xs : List A) (x : A)
    → tally p (xs ++ (x ∷ [])) ≡ tally p xs + (if p x then 1 else 0)
tally-snoc p [] x = omega arith
tally-snoc p (y ∷ xs) x = omega (arith, tally-snoc p xs x)

pub tally-keep {ℓ} :
    {A : Type ℓ} (p q : A → Bool) (xs : List A) → tally q (keep p xs) ≡ tally (λ x. p x && q x) xs
tally-keep p q [] = refl
tally-keep p q (x ∷ xs) = ground (arith, tally-keep p q xs)

-- What a message is: whether it is a send or a receive, its two buffers, its count and type, and its peer.
abbrev pub Content : Type 0
Content = CollFunc × (Option ℕ × (Option ℕ × (ℕ × (DataType × ℤ))))

abbrev pub content : PlanTask → Content
content task =
    (task.func, (task.send_buf, (task.recv_buf, (task.elem_count, (task.dtype, task.peer)))))

abbrev pub submitted : CollTask → Content
submitted task =
    (task.func, (task.send_buf, (task.recv_buf, (task.count, (task.dtype, task.peer)))))

module _ (q : Content → Bool) where
  abbrev pub is_counted : PlanTask → Bool
  is_counted task = is_message task && q (content task)

  -- How many messages of a channel of a plan pass the test.
  abbrev pub tally_at : List ChannelPlan → ℕ → ℕ
  tally_at [] id = 0
  tally_at (c ∷ cs) zero = tally is_counted c.tasks
  tally_at (c ∷ cs) (suc id) = tally_at cs id

  pub tally_at-push_at :
      (cs : List ChannelPlan) (id : ℕ) (task : PlanTask)
      → id < length cs
      → tally_at (push_at cs id task) id ≡ tally_at cs id + (if is_counted task then 1 else 0)
  tally_at-push_at [] id task l = absurd (omega (arith, l))
  tally_at-push_at (c ∷ cs) zero task l = tally-snoc is_counted c.tasks task
  tally_at-push_at (c ∷ cs) (suc id) task l = tally_at-push_at cs id task (omega (arith, l))

  pub tally_at_other :
      (cs : List ChannelPlan) (id other : ℕ) (task : PlanTask)
      → other ≢ id
      → tally_at (push_at cs id task) other ≡ tally_at cs other
  tally_at_other [] id other task ne = refl
  tally_at_other (c ∷ cs) zero zero task ne = absurd (ne refl)
  tally_at_other (c ∷ cs) zero (suc other) task ne = refl
  tally_at_other (c ∷ cs) (suc id) zero task ne = refl
  tally_at_other (c ∷ cs) (suc id) (suc other) task ne =
      tally_at_other cs id other task (λ e. ne (ap suc e))

  pub tally_at-no_message :
      (cs : List ChannelPlan) (id other : ℕ) (task : PlanTask)
      → is_message task ≡ false
      → tally_at (push_at cs id task) other ≡ tally_at cs other
  tally_at-no_message [] id other task e = refl
  tally_at-no_message (c ∷ cs) zero zero task e =
      tally-snoc is_counted c.tasks task ∙ ground (arith, e)
  tally_at-no_message (c ∷ cs) zero (suc other) task e = refl
  tally_at-no_message (c ∷ cs) (suc id) zero task e = refl
  tally_at-no_message (c ∷ cs) (suc id) (suc other) task e = tally_at-no_message cs id other task e

  pub tally_at-numbered : (n id other : ℕ) → tally_at (numbered n id) other ≡ 0
  tally_at-numbered zero id other = refl
  tally_at-numbered (suc n) id zero = refl
  tally_at-numbered (suc n) id (suc other) = tally_at-numbered n (id + 1) other

  pub message-is_counted :
      (network : Network) (site : Site) (channel : Channel) (task : CollTask) (id : ℕ)
      → is_counted (fill_transports TopologyKind.p2p channel (message_task network site task id))
        ≡ q (submitted task)
  unfolding fill_transports P2p.fill_transports
  message-is_counted network site channel task id =
      by_test (λ (t : PlanTask). is_counted t ≡ q (submitted task)) (task.count == 0) (λ e. refl)
        (λ e.
          by_test (λ (t : PlanTask). is_counted t ≡ q (submitted task)) (task.func is CollFunc.send)
            (λ f. refl) (λ f. refl))

pub length-push_at :
    (cs : List ChannelPlan) (id : ℕ) (task : PlanTask) → length (push_at cs id task) ≡ length cs
length-push_at [] id task = refl
length-push_at (c ∷ cs) zero task = refl
length-push_at (c ∷ cs) (suc id) task = ap suc (length-push_at cs id task)

pub length-numbered : (n id : ℕ) → length (numbered n id) ≡ n
length-numbered zero id = refl
length-numbered (suc n) id = ap suc (length-numbered n (id + 1))
