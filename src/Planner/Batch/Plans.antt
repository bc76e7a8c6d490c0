-- ===== src/Planner/Batch/Plans.antt =====
-- About `Plan` of src/planner.cpp: the messages of a plan and their transports.
use origin_ccl.Prelude.{
  ℕ, zero, suc, ◌≡◌, ◌+◌, ◌-◌, ◌==◌, refl, sym, ◌∙◌, ap, subst, arith, Bool, true, false, not, ◌&&◌,
  Option, none, some, List, [], ◌∷◌, get_elem?, all, All, All-map, keep, length, by_test,
  Bool-cases, inl, inr,
}
use origin_ccl.Prelude.Int.{ℤ, pos, pos_part, ltb_ℤ, eqb_ℤ, eqb_ℤ→eq}
use origin_ccl.Types.{CollFunc, CollTask, PlanTask, CollPlan, Channel, TopologyKind}
use origin_ccl.Topology.{fill_transports}
use origin_ccl.Topology.P2p
use origin_ccl.Topology.P2p.{slot_transport}
use origin_ccl.Channels.{at_index}
use origin_ccl.Topology.Stepping.{is_empty}
use origin_ccl.Planner.Validate.{is_p2p, is_null, ◌is◌}
use origin_ccl.Planner.Peers.{validate_p2p}
use origin_ccl.Planner.Peers.Missing.{is_missing, wants}
use origin_ccl.Planner.Slices.{new_plan, push_at}
use origin_ccl.Planner.Batch.{Ending, ◌>>=◌, Network, Site, Joined, prepare_round}
use origin_ccl.Planner.Batch.Planning.{
  is_of_round, is_send, message_task, append_all, plan_p2p_round, plan_rounds, plan_collectives,
  is_valid, plan_batch,
}
use origin_ccl.Planner.Batch.Joining.{Result, >>=-Result, Grows, Grows-refl, Grows-trans, Keeps}
use origin_ccl.Planner.Batch.Preparing.{CanSend, CanRecv, HasSlot}
use origin_ccl.Planner.Batch.Prepared.{AreReady, prepare_round-Keeps}
use origin_ccl.Planner.Batch.Linked.{
  is_one, is_linked, AllLinked, All-keep_both, all-All, push_at-All, numbered-All,
}
use origin_ccl.Planner.Batch.Collectives.{plan_collectives-Result}

wants-own :
    (tasks : List CollTask) → All (λ t. (t.count == 0) ≡ false → wants t.peer tasks ≡ true) tasks
wants-own [] = tt
wants-own (t ∷ ts) = (
  λ e. ground (arith, e, eqb_refl t.peer),
  All-map ts (λ x h e. ground (arith, h e)) (wants-own ts),
)
  where
    eqb_refl : (x : ℤ) → eqb_ℤ x x ≡ true
    eqb_refl x = ground arith

wants-All :
    (P : ℤ → Type 0) (tasks : List CollTask) (peer : ℤ)
    → All (λ t. P t.peer) tasks
    → wants peer tasks ≡ true
    → P peer
wants-All P [] peer h e = absurd (ground (arith, e))
wants-All P (t ∷ ts) peer h e = elim (Bool-cases (eqb_ℤ peer t.peer)) [
  | inl same ↦ subst P (sym (eqb_ℤ→eq peer t.peer same)) h.0
  | inr other ↦ wants-All P ts peer h.1 (ground (arith, e, other))
]

one : (o : Option ℕ) → not (is_null o) ≡ true → is_one (o ∷ []) ≡ true
one none h = absurd (ground (arith, h))
one (some t) h = refl

module _ (network : Network) (site : Site) where
  send-is_linked :
      (c : Channel) (t : CollTask)
      → (t.func is CollFunc.send) ≡ true
      → ((t.count == 0) ≡ false → not (is_missing c.send_p2p t.peer) ≡ true)
      → is_linked (fill_transports TopologyKind.p2p c (message_task network site t 0)) ≡ true
  unfolding fill_transports P2p.fill_transports
  send-is_linked c t s h =
      by_test (λ (r : PlanTask). is_linked r ≡ true) (t.count == 0) (λ e. ground (arith, e))
        (λ e.
          by_test (λ (r : PlanTask). is_linked r ≡ true) (t.func is CollFunc.send)
            (λ f. ground (arith, e, s, one (slot_transport (at_index c.send_p2p t.peer)) (h e)))
            (λ f. absurd (ground (arith, f, s))))

  recv-is_linked :
      (c : Channel) (t : CollTask)
      → (t.func is CollFunc.send) ≡ false
      → ((t.count == 0) ≡ false → not (is_missing c.recv_p2p t.peer) ≡ true)
      → is_linked (fill_transports TopologyKind.p2p c (message_task network site t 1)) ≡ true
  unfolding fill_transports P2p.fill_transports
  recv-is_linked c t s h =
      by_test (λ (r : PlanTask). is_linked r ≡ true) (t.count == 0) (λ e. ground (arith, e))
        (λ e.
          by_test (λ (r : PlanTask). is_linked r ≡ true) (t.func is CollFunc.send)
            (λ f. absurd (ground (arith, f, s)))
            (λ f. ground (arith, e, s, one (slot_transport (at_index c.recv_p2p t.peer)) (h e))))

  abbrev Fits : List Channel → ℕ → CollTask → Type 0
  Fits channels id t =
      (channel : Channel)
      → get_elem? channels id ≡ some channel
      → is_linked (fill_transports TopologyKind.p2p channel (message_task network site t id)) ≡ true

  append_all-AllLinked :
      (channels : List Channel) (tasks : List CollTask) (id : ℕ) (plan : CollPlan)
      → AllLinked plan
      → All (Fits channels id) tasks
      → Result AllLinked (append_all network site channels tasks id plan)
  unfolding append_all
  append_all-AllLinked channels [] id plan h fits = h
  append_all-AllLinked channels (t ∷ ts) id plan h fits =
      go (get_elem? channels id) refl
        (λ plan' k. append_all-AllLinked channels ts id plan' k fits.1)
    where
      go :
          (o : Option Channel)
          → get_elem? channels id ≡ o
          → ((plan' : CollPlan)
              → AllLinked plan'
              → Result AllLinked (append_all network site channels ts id plan'))
          → Result AllLinked (
              (elim o [ none ↦ Ending.thrown | some channel ↦ Ending.ok channel ]) >>= λ channel.
              append_all network site channels ts id (record plan {
                channels =
                    push_at plan.channels id
                      (fill_transports TopologyKind.p2p channel (message_task network site t id));
              }))
      go none e on = tt
      go (some channel) e on = on _ (push_at-All plan.channels id _ h (λ m. fits.0 channel e))

  -- A valid message has a peer among the ranks.
  pub valid-range :
      (t : CollTask)
      → is_valid network site t ≡ true
      → is_p2p t.func ≡ true
      → (ltb_ℤ t.peer (pos 0) ≡ false) × (ltb_ℤ t.peer site.peers.world_size ≡ true)
  unfolding validate_p2p
  valid-range t v p = ground (arith, v, p)

  -- The state of the rounds, where `start` are the channels before the batch.
  pub record IsPlanned (start : List Channel) (st : Joined network site × CollPlan) : Type 0 where
    pub grown : Grows network site start st.0.channels
    pub linked : AllLinked st.1

  -- Each rank but this one has a slot for its messages.
  abbrev pub HasSlots : List Channel → Type 0
  HasSlots channels =
      (peer : ℤ)
      → ltb_ℤ peer (pos 0) ≡ false
      → ltb_ℤ peer site.peers.world_size ≡ true
      → HasSlot network site peer channels

  -- The messages of one side of a round.
  IsSide : Bool → CollTask → Type 0
  IsSide sending t =
      (ltb_ℤ t.peer (pos 0) ≡ false)
      × (ltb_ℤ t.peer site.peers.world_size ≡ true)
      × ((t.func is CollFunc.send) ≡ sending)

  All-IsSide :
      (sending : Bool) (p : CollTask → Bool) (tasks : List CollTask)
      → ((t : CollTask)
          → p t ≡ true
          → (is_p2p t.func ≡ true) × ((t.func is CollFunc.send) ≡ sending))
      → All (λ t. is_valid network site t ≡ true) tasks
      → All (IsSide sending) (keep p tasks)
  unfolding IsSide
  All-IsSide sending p tasks tells valid =
      All-map (keep p tasks)
        (λ t h.
          let range = valid-range t h.0 (tells t h.1).0 in (range.0, range.1, (tells t h.1).1))
        (All-keep_both (λ t. is_valid network site t ≡ true) p tasks valid)

  same_channel : (c d : Channel) → ◌≡◌ {A = Option Channel} (some c) (some d) → c ≡ d
  same_channel c d e = ap (λ o. elim o [ none ↦ c | some x ↦ x ]) e

  All-both {ℓ} :
      {A : Type ℓ} (P Q : A → Type 0) (xs : List A) → All P xs → All Q xs → All (λ x. P x × Q x) xs
  All-both P Q [] h k = tt
  All-both P Q (x ∷ xs) h k = ((h.0, k.0), All-both P Q xs h.1 k.1)

  sends-Fits :
      (sends : List CollTask) (channels : List Channel)
      → All (IsSide true) sends
      → ((peer : ℤ) → wants peer sends ≡ true → CanSend network site peer channels)
      → All (Fits channels 0) sends
  unfolding IsSide
  sends-Fits sends [] side ready =
      All-map sends (λ t h channel e. absurd (no_channel channel e)) side
    where
      no_channel : (channel : Channel) → ◌≡◌ {A = Option Channel} none (some channel) → ⊥
      no_channel channel e = ground (arith, e)
  sends-Fits sends (c ∷ cs) side ready =
      All-map sends
        (λ t h channel e.
          subst
            (λ (d : Channel).
              is_linked (fill_transports TopologyKind.p2p d (message_task network site t 0)) ≡ true)
            (same_channel c channel e) (send-is_linked c t h.0.2 (λ n. ready t.peer (h.1 n))))
        (All-both (IsSide true) (λ t. (t.count == 0) ≡ false → wants t.peer sends ≡ true) sends side
          (wants-own sends))

  recvs-Fits :
      (recvs : List CollTask) (channels : List Channel)
      → All (IsSide false) recvs
      → ((peer : ℤ) → wants peer recvs ≡ true → CanRecv network site peer channels)
      → All (Fits channels 1) recvs
  unfolding IsSide
  recvs-Fits recvs [] side ready = All-map recvs (λ t h channel e. absurd (ground (arith, e))) side
  recvs-Fits recvs (c ∷ []) side ready =
      All-map recvs (λ t h channel e. absurd (ground (arith, e))) side
  recvs-Fits recvs (c ∷ d ∷ cs) side ready =
      All-map recvs
        (λ t h channel e.
          subst
            (λ (d : Channel).
              is_linked (fill_transports TopologyKind.p2p d (message_task network site t 1)) ≡ true)
            (same_channel d channel e) (recv-is_linked d t h.0.2 (λ n. ready t.peer (h.1 n))))
        (All-both (IsSide false) (λ t. (t.count == 0) ≡ false → wants t.peer recvs ≡ true) recvs
          side (wants-own recvs))

  plan_p2p_round-IsPlanned :
      (fuel : ℕ) (schedule : List Bool) (tasks : List CollTask) (round : ℤ) (start : List Channel)
      (st : Joined network site × CollPlan)
      → All (λ t. is_valid network site t ≡ true) tasks
      → HasSlots start
      → IsPlanned start st
      → Result (IsPlanned start) (plan_p2p_round network site fuel schedule tasks round st)
  unfolding plan_p2p_round IsSide
  plan_p2p_round-IsPlanned fuel schedule tasks round start (j, plan) valid slots h =
      by_test (Result (IsPlanned start)) (is_empty sends && is_empty recvs) (λ e. h)
        (λ e.
          >>=-Result (Keeps network site j.channels (AreReady network site fuel sends recvs))
            (IsPlanned start) (prepare_round network site fuel schedule sends recvs j) _
            (prepare_round-Keeps network site fuel schedule sends recvs j (λ peer w.
              h.grown.slots peer
              ∙ wants-All (λ p. HasSlot network site p start) sends peer
                  (All-map sends (λ t k. slots t.peer k.0 k.1) send_side) w))
            (λ out k.
              by_test (Result (IsPlanned start)) (not out.0) (λ f. tt)
                (λ f.
                  >>=-Result AllLinked (IsPlanned start)
                    (append_all network site out.1.channels sends 0 plan) _
                    (append_all-AllLinked out.1.channels sends 0 plan h.linked
                      (sends-Fits sends out.1.channels send_side (k.1 (ground (arith, f))).0))
                    (λ sent l.
                      >>=-Result AllLinked (IsPlanned start)
                        (append_all network site out.1.channels recvs 1 sent) _
                        (append_all-AllLinked out.1.channels recvs 1 sent l
                          (recvs-Fits recvs out.1.channels recv_side (k.1 (ground (arith, f))).1))
                        (λ received m. record {
                          grown =
                              Grows-trans network site start j.channels out.1.channels h.grown k.0;
                          linked = m;
                        })))))
    where
      sends : List CollTask
      sends = keep (λ t. is_of_round network site round t && is_send network site t) tasks

      recvs : List CollTask
      recvs = keep (λ t. is_of_round network site round t && not (is_send network site t)) tasks

      send_side : All (IsSide true) sends
      send_side =
          All-IsSide true (λ t. is_of_round network site round t && is_send network site t) tasks
            (λ t e. (ground (arith, e), ground (arith, e))) valid

      recv_side : All (IsSide false) recvs
      recv_side =
          All-IsSide false (λ t. is_of_round network site round t && not (is_send network site t))
            tasks (λ t e. (ground (arith, e), ground (arith, e))) valid

  plan_rounds-IsPlanned :
      (fuel : ℕ) (schedules : ℕ → List Bool) (tasks : List CollTask) (left round : ℕ)
      (start : List Channel) (st : Joined network site × CollPlan)
      → All (λ t. is_valid network site t ≡ true) tasks
      → HasSlots start
      → IsPlanned start st
      → Result (IsPlanned start) (plan_rounds network site fuel schedules tasks left round st)
  unfolding plan_rounds
  plan_rounds-IsPlanned fuel schedules tasks zero round start st valid slots h = h
  plan_rounds-IsPlanned fuel schedules tasks (suc left) round start st valid slots h =
      >>=-Result (IsPlanned start) (IsPlanned start)
        (plan_p2p_round network site fuel (schedules round) tasks (pos round) st) _
        (plan_p2p_round-IsPlanned fuel (schedules round) tasks (pos round) start st valid slots h)
        (λ next k.
          plan_rounds-IsPlanned fuel schedules tasks left (round + 1) start next valid slots k)

  plan_collectives-AllLinked :
      (bind : Bool) (tasks : List CollTask) (j : Joined network site) (plan : CollPlan)
      → AllLinked plan
      → Result AllLinked (plan_collectives network site bind tasks j plan)
  plan_collectives-AllLinked =
      plan_collectives-Result AllLinked
        (λ plan id task e h.
          push_at-All plan.channels id task h (λ m. absurd (ground (arith, e, m))))
        (λ plan slices h. h) network site

  -- Whatever the network does and however the threads of each round take turns, for a communicator with a slot for each
  -- rank: after a `Plan` that returns true each peer that had a transport to it, or from it, still has one, which may be
  -- another, and each message of the plan that is not empty holds exactly one transport, on the side of its function.
  pub plan_batch-IsPlanned :
      (fuel : ℕ) (schedules : ℕ → List Bool) (dynamic : Bool) (tasks : List CollTask)
      (j : Joined network site)
      → HasSlots j.channels
      → Result (IsPlanned j.channels) (plan_batch network site fuel schedules dynamic tasks j)
  unfolding plan_batch
  plan_batch-IsPlanned fuel schedules dynamic tasks j slots =
      let fresh : AllLinked (new_plan (length j.channels)) = numbered-All (length j.channels) 0 in
      by_test (Result (IsPlanned j.channels)) (not (all (is_valid network site) tasks)) (λ e. tt)
        (λ e.
          by_test (Result (IsPlanned j.channels)) dynamic
            (λ d.
              >>=-Result AllLinked (IsPlanned j.channels)
                (plan_collectives network site false tasks j (new_plan (length j.channels))) _
                (plan_collectives-AllLinked false tasks j (new_plan (length j.channels)) fresh)
                (λ plan k. record { grown = Grows-refl network site j.channels; linked = k }))
            (λ d.
              >>=-Result AllLinked (IsPlanned j.channels)
                (plan_collectives network site true (keep (λ t. not (is_p2p t.func)) tasks) j
                  (new_plan (length j.channels)))
                _
                (plan_collectives-AllLinked true (keep (λ t. not (is_p2p t.func)) tasks) j
                  (new_plan (length j.channels)) fresh)
                (λ plan k.
                  plan_rounds-IsPlanned fuel schedules tasks (pos_part site.peers.world_size - 1) 1
                    j.channels (j, plan) (all-All (is_valid network site) tasks (ground (arith, e)))
                    slots (record { grown = Grows-refl network site j.channels; linked = k }))))
