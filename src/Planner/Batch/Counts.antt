-- ===== src/Planner/Batch/Counts.antt =====
-- About `Plan` of src/planner.cpp: how often each message stands in the plan.
use origin_ccl.Prelude.{
  ℕ, zero, suc, ◌≡◌, ◌<◌, ◌+◌, ◌-◌, refl, sym, ◌∙◌, ap, subst, arith, Bool, true, false, not, ◌&&◌,
  List, [], ◌∷◌, all, All, All-map, keep, length, by_test, if◌then◌else◌,
}
use origin_ccl.Prelude.Int.{ℤ, pos, pos_part, ltb_ℤ, eqb_ℤ}
use origin_ccl.Types.{CollTask, CollPlan, Channel, TopologyKind}
use origin_ccl.Topology.{fill_transports}
use origin_ccl.Topology.Stepping.{is_empty}
use origin_ccl.Planner.Validate.{is_p2p}
use origin_ccl.Planner.Slices.{push_at, new_plan}
use origin_ccl.Planner.Rounds.{p2p_round_of}
use origin_ccl.Planner.Batch.{Ending, channel_at, Network, Site, Joined, prepare_round}
use origin_ccl.Planner.Batch.Planning.{
  is_of_round, is_send, message_task, append_all, plan_p2p_round, plan_rounds, plan_collectives,
  is_valid, plan_batch,
}
use origin_ccl.Planner.Batch.Joining.{Result, >>=-Result, Result-map}
use origin_ccl.Planner.Peers.{validate_p2p}
use origin_ccl.Planner.Batch.Linked.{all-All}
use origin_ccl.Planner.Batch.Plans.{valid-range}
use origin_ccl.Planner.Batch.Collectives.{plan_collectives-Result}
use origin_ccl.Planner.Batch.Tally.{
  tally, Content, submitted, tally_at, tally_at-push_at, tally_at_other, tally_at-no_message,
  tally_at-numbered, message-is_counted, length-push_at, length-numbered,
}
use origin_ccl.Planner.Batch.Once.{
  is_side, is_submitted, of_rounds, in_round, HasRound, of_rounds_total, has_round,
}

module _ (network : Network) (site : Site) (q : Content → Bool) where
  -- What a call adds to the channel of each side of a plan.
  record Adds (plan : CollPlan) (sends recvs : ℕ) (out : CollPlan) : Type 0 where
    sized : length out.channels ≡ length plan.channels
    sent : tally_at q out.channels 0 ≡ tally_at q plan.channels 0 + sends
    received : tally_at q out.channels 1 ≡ tally_at q plan.channels 1 + recvs

  Adds-trans :
      (a b c : CollPlan) (s r s' r' : ℕ)
      → Adds a s r b
      → Adds b s' r' c
      → Adds a (s + s') (r + r') c
  Adds-trans a b c s r s' r' g h = record {
    sized = h.sized ∙ g.sized;
    sent = omega (arith, g.sent, h.sent);
    received = omega (arith, g.received, h.received);
  }

  -- The channel of a side, and what `n` messages of a side add to one side.
  abbrev channel_of : Bool → ℕ
  channel_of sending = if sending then 0 else 1

  abbrev share : Bool → Bool → ℕ → ℕ
  share side sending n = if side then (if sending then n else 0) else (if sending then 0 else n)

  push_at-Adds :
      (sending : Bool) (channel : Channel) (t : CollTask) (plan : CollPlan)
      → 1 < length plan.channels
      → Adds plan
          (share true sending (if q (submitted t) then 1 else 0))
          (share false sending (if q (submitted t) then 1 else 0))
          (record plan {
            channels = push_at plan.channels (channel_of sending) (
                fill_transports TopologyKind.p2p channel
                  (message_task network site t (channel_of sending)));
          })
  push_at-Adds true channel t plan l =
      let task = fill_transports TopologyKind.p2p channel (message_task network site t 0) in
      record {
        sized = length-push_at plan.channels 0 task;
        sent =
            tally_at-push_at q plan.channels 0 task (omega (arith, l))
            ∙ ap (λ b. tally_at q plan.channels 0 + (if b then 1 else 0))
                (message-is_counted q network site channel t 0);
        received =
            omega (arith, tally_at_other q plan.channels 0 1 task (λ e. absurd (omega (arith, e))));
      }
  push_at-Adds false channel t plan l =
      let task = fill_transports TopologyKind.p2p channel (message_task network site t 1) in
      record {
        sized = length-push_at plan.channels 1 task;
        sent =
            omega (arith, tally_at_other q plan.channels 1 0 task (λ e. absurd (omega (arith, e))));
        received =
            tally_at-push_at q plan.channels 1 task l
            ∙ ap (λ b. tally_at q plan.channels 1 + (if b then 1 else 0))
                (message-is_counted q network site channel t 1);
      }

  share-add :
      (side sending : Bool) (m n : ℕ)
      → share side sending m + share side sending n ≡ share side sending (m + n)
  share-add side sending m n = ground arith

  share_zero : (side sending : Bool) → share side sending 0 ≡ 0
  share_zero side sending = ground arith

  Adds-refl : (plan : CollPlan) (s r : ℕ) → s ≡ 0 → r ≡ 0 → Adds plan s r plan
  Adds-refl plan s r e f = record {
    sized = refl;
    sent = omega (arith, e);
    received = omega (arith, f);
  }

  Adds-eq :
      (plan out : CollPlan) (s r s' r' : ℕ)
      → s ≡ s'
      → r ≡ r'
      → Adds plan s r out
      → Adds plan s' r' out
  Adds-eq plan out s r s' r' e f h = record {
    sized = h.sized;
    sent = omega (arith, h.sent, e);
    received = omega (arith, h.received, f);
  }

  any_Result : {A : Type 0} (e : Ending A) → Result (λ a. Unit) e
  any_Result (Ending.ok a) = tt
  any_Result Ending.failed = tt
  any_Result Ending.thrown = tt
  any_Result Ending.endless = tt

  append_all-Adds :
      (sending : Bool) (channels : List Channel) (tasks : List CollTask) (plan : CollPlan)
      → 1 < length plan.channels
      → Result
          (Adds plan
            (share true sending (tally (λ t. q (submitted t)) tasks))
            (share false sending (tally (λ t. q (submitted t)) tasks)))
          (append_all network site channels tasks (channel_of sending) plan)
  unfolding append_all
  append_all-Adds sending channels [] plan l =
      Adds-refl plan _ _ (share_zero true sending) (share_zero false sending)
  append_all-Adds sending channels (t ∷ ts) plan l =
      >>=-Result (λ channel. Unit) _ (channel_at channels (channel_of sending)) _
        (any_Result (channel_at channels (channel_of sending)))
        (λ channel u.
          let one : ℕ = if q (submitted t) then 1 else 0 in
          let more : ℕ = tally (λ t. q (submitted t)) ts in
          let next : CollPlan = record plan {
            channels = push_at plan.channels (channel_of sending) (
                fill_transports TopologyKind.p2p channel
                  (message_task network site t (channel_of sending)));
          } in
          let h = push_at-Adds sending channel t plan l in
          Result-map (Adds next (share true sending more) (share false sending more)) _
            (append_all network site channels ts (channel_of sending) next)
            (λ out k.
              Adds-eq plan out _ _ _ _ (share-add true sending one more)
                (share-add false sending one more) (Adds-trans plan next out _ _ _ _ h k))
            (append_all-Adds sending channels ts next (omega (arith, l, h.sized))))

  tally-in_round :
      (sending : Bool) (round : ℤ) (tasks : List CollTask)
      → tally
          (λ t. q (submitted t))
          (keep (λ t. is_of_round network site round t && is_side network site q sending t) tasks)
        ≡ tally (in_round network site q sending round) tasks
  tally-in_round sending round [] = refl
  tally-in_round sending round (t ∷ ts) = ground (arith, tally-in_round sending round ts)

  plan_p2p_round-Adds :
      (fuel : ℕ) (schedule : List Bool) (tasks : List CollTask) (round : ℤ)
      (st : Joined network site × CollPlan)
      → 1 < length st.1.channels
      → Result
          (λ out.
            Adds st.1
              (tally (in_round network site q true round) tasks)
              (tally (in_round network site q false round) tasks)
              out.1)
          (plan_p2p_round network site fuel schedule tasks round st)
  unfolding plan_p2p_round
  plan_p2p_round-Adds fuel schedule tasks round (j, plan) l =
      by_test
        (Result (λ (out : Joined network site × CollPlan).
          Adds plan (tally (in_round network site q true round) tasks)
            (tally (in_round network site q false round) tasks) out.1))
        (is_empty sends && is_empty recvs)
        (λ e.
          Adds-refl plan _ _ (sym counted_sends ∙ none_counted sends (ground (arith, e)))
            (sym counted_recvs ∙ none_counted recvs (ground (arith, e))))
        (λ e.
          >>=-Result (λ out. Unit) _ (prepare_round network site fuel schedule sends recvs j) _
            (any_Result (prepare_round network site fuel schedule sends recvs j))
            (λ out u.
              by_test
                (Result (λ (out : Joined network site × CollPlan).
                  Adds plan (tally (in_round network site q true round) tasks)
                    (tally (in_round network site q false round) tasks) out.1))
                (not out.0) (λ f. tt)
                (λ f.
                  >>=-Result _ _ (append_all network site out.1.channels sends 0 plan) _
                    (append_all-Adds true out.1.channels sends plan l)
                    (λ sent h.
                      >>=-Result _ _ (append_all network site out.1.channels recvs 1 sent) _
                        (append_all-Adds false out.1.channels recvs sent
                          (omega (arith, l, h.sized)))
                        (λ received k.
                          Adds-eq plan received _ _ _ _ (omega (arith, counted_sends))
                            (omega (arith, counted_recvs))
                            (Adds-trans plan sent received _ _ _ _ h k))))))
    where
      sends : List CollTask
      sends = keep (λ t. is_of_round network site round t && is_send network site t) tasks

      recvs : List CollTask
      recvs = keep (λ t. is_of_round network site round t && not (is_send network site t)) tasks

      counted_sends :
          tally (λ t. q (submitted t)) sends ≡ tally (in_round network site q true round) tasks
      counted_sends = tally-in_round true round tasks

      counted_recvs :
          tally (λ t. q (submitted t)) recvs ≡ tally (in_round network site q false round) tasks
      counted_recvs = tally-in_round false round tasks

      none_counted : (xs : List CollTask) → is_empty xs ≡ true → tally (λ t. q (submitted t)) xs ≡ 0
      none_counted [] e = refl
      none_counted (x ∷ xs) e = absurd (ground (arith, e))

  plan_rounds-Adds :
      (fuel : ℕ) (schedules : ℕ → List Bool) (tasks : List CollTask) (left round : ℕ)
      (st : Joined network site × CollPlan)
      → 1 < length st.1.channels
      → Result
          (λ out.
            Adds st.1
              (of_rounds network site q true tasks left round)
              (of_rounds network site q false tasks left round)
              out.1)
          (plan_rounds network site fuel schedules tasks left round st)
  unfolding plan_rounds
  plan_rounds-Adds fuel schedules tasks zero round st l = Adds-refl st.1 0 0 refl refl
  plan_rounds-Adds fuel schedules tasks (suc left) round st l =
      >>=-Result
        (λ out.
          Adds st.1 (tally (in_round network site q true (pos round)) tasks)
            (tally (in_round network site q false (pos round)) tasks) out.1)
        _ (plan_p2p_round network site fuel (schedules round) tasks (pos round) st) _
        (plan_p2p_round-Adds fuel (schedules round) tasks (pos round) st l)
        (λ next h.
          Result-map
            (λ out.
              Adds next.1 (of_rounds network site q true tasks left (round + 1))
                (of_rounds network site q false tasks left (round + 1)) out.1)
            _ (plan_rounds network site fuel schedules tasks left (round + 1) next)
            (λ out k. Adds-trans st.1 next.1 out.1 _ _ _ _ h k)
            (plan_rounds-Adds fuel schedules tasks left (round + 1) next
              (omega (arith, l, h.sized))))

  -- A valid message goes to another rank.
  valid_other :
      (t : CollTask)
      → is_valid network site t ≡ true
      → is_p2p t.func ≡ true
      → eqb_ℤ t.peer site.peers.rank ≡ false
  unfolding validate_p2p
  valid_other t v p = ground (arith, v, p)

  -- What the plan of a batch holds, in its first two channels.
  abbrev pub Holds : List CollTask → Joined network site × CollPlan → Type 0
  Holds tasks out =
      (tally_at q out.1.channels 0 ≡ tally (is_submitted network site q true) tasks)
      × (tally_at q out.1.channels 1 ≡ tally (is_submitted network site q false) tasks)

  -- For any test on a message's function, buffers, count, type and peer, and a rank of a communicator with at least two
  -- channels: a `Plan` of bound tasks that returns true has, on channel 0, as many messages that pass the test as sends
  -- that pass it were submitted, and on channel 1 as many as receives were.
  pub plan_batch-Holds :
      (fuel : ℕ) (schedules : ℕ → List Bool) (tasks : List CollTask) (j : Joined network site)
      (a ws : ℕ)
      → site.peers.rank ≡ pos a
      → site.peers.world_size ≡ pos ws
      → a < ws
      → 1 < length j.channels
      → Result (Holds tasks) (plan_batch network site fuel schedules false tasks j)
  unfolding plan_batch
  plan_batch-Holds fuel schedules tasks j a ws own size l two =
      by_test (Result (Holds tasks)) (not (all (is_valid network site) tasks)) (λ e. tt)
        (λ e.
          >>=-Result (Adds (new_plan (length j.channels)) 0 0) (Holds tasks)
            (plan_collectives network site true (keep (λ t. not (is_p2p t.func)) tasks) j
              (new_plan (length j.channels)))
            _
            (plan_collectives-Result (Adds (new_plan (length j.channels)) 0 0)
              (λ plan id task no h. record {
                sized = length-push_at plan.channels id task ∙ h.sized;
                sent = tally_at-no_message q plan.channels id 0 task no ∙ h.sent;
                received = tally_at-no_message q plan.channels id 1 task no ∙ h.received;
              })
              (λ plan slices h. record { sized = h.sized; sent = h.sent; received = h.received })
              network site true (keep (λ t. not (is_p2p t.func)) tasks) j
              (new_plan (length j.channels))
              (Adds-refl (new_plan (length j.channels)) 0 0 refl refl))
            (λ plan h.
              Result-map
                (λ out.
                  Adds plan
                    (of_rounds network site q true tasks (pos_part site.peers.world_size - 1) 1)
                    (of_rounds network site q false tasks (pos_part site.peers.world_size - 1) 1)
                    out.1)
                (Holds tasks)
                (plan_rounds network site fuel schedules tasks (pos_part site.peers.world_size - 1)
                  1 (j, plan))
                (λ out k. (
                  omega (
                    arith,
                    h.sent,
                    k.sent,
                    of_rounds_total network site q true tasks (rounds e),
                    tally_at-numbered q (length j.channels) 0 0,
                  ),
                  omega (
                    arith,
                    h.received,
                    k.received,
                    of_rounds_total network site q false tasks (rounds e),
                    tally_at-numbered q (length j.channels) 0 1,
                  ),
                ))
                (plan_rounds-Adds fuel schedules tasks (pos_part site.peers.world_size - 1) 1
                  (j, plan) (omega (arith, two, h.sized, length-numbered (length j.channels) 0)))))
    where
      rounds : not (all (is_valid network site) tasks) ≡ false → All (HasRound network site q) tasks
      rounds e =
          All-map tasks
            (λ t v p.
              let range = valid-range network site t v p in
              subst
                (λ (y : ℤ).
                  (r : ℕ) × (0 < r)
                  × (r < pos_part y)
                  × (p2p_round_of t.func site.peers.rank t.peer y ≡ pos r))
                (sym size)
                (subst
                  (λ (x : ℤ).
                    (r : ℕ) × (0 < r) × (r < ws) × (p2p_round_of t.func x t.peer (pos ws) ≡ pos r))
                  (sym own)
                  (has_round t.func a ws t.peer p l range.0
                    (ap (λ y. ltb_ℤ t.peer y) (sym size) ∙ range.1)
                    (ap (λ x. eqb_ℤ t.peer x) (sym own) ∙ valid_other t v p))))
            (all-All (is_valid network site) tasks (ground (arith, e)))
