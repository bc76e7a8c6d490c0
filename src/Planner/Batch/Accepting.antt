-- ===== src/Planner/Batch/Accepting.antt =====
-- About `AcceptP2pOne` of src/planner.cpp.
use origin_ccl.Prelude.{
  ℕ, zero, suc, ◌≡◌, refl, ap, arith, Bool, true, false, not, Option, none, some, List, [], ◌∷◌,
  by_test,
}
use origin_ccl.Prelude.Int.{ℤ}
use origin_ccl.Types.{Connector, Channel}
use origin_ccl.Topology.Stepping.{Turn, after_turn, turns}
use origin_ccl.Planner.Peers.{p2p_usable}
use origin_ccl.Planner.Peers.Missing.{is_missing}
use origin_ccl.Planner.Batch.{
  of_run, Network, Site, Slots, Event, Polled, after_source, after_accept, accept_ready, next_poll,
  after_poll, accept_turn, accept_p2p_one,
}
use origin_ccl.Planner.Batch.Joining.{
  Result, >>=-Result, with_transport-keeps, recvs_from, Grows-refl, Keeps,
}

module _ (network : Network) (site : Site) where
  open network use {World}

  -- What the loop of `AcceptP2pOne` knows of the slots that it started with.
  abbrev SlotsGrow : List Connector → List Connector → Type 0
  SlotsGrow before after = (q : ℤ) → is_missing before q ≡ false → is_missing after q ≡ false

  AcceptTurn : List Connector → ℤ → Turn (Bool × Slots network site) → Type 0
  AcceptTurn before peer (Turn.stop (b, slots)) =
      SlotsGrow before slots.0 × (b ≡ true → is_missing slots.0 peer ≡ false)
  AcceptTurn before peer (Turn.again (b, slots)) = SlotsGrow before slots.0
  AcceptTurn before peer Turn.fail = Unit

  accept_loop-Result :
      (before : List Connector) (peer : ℤ) (fuel : ℕ) (a : Bool × Slots network site)
      → SlotsGrow before a.1.0
      → ((a : Bool × Slots network site)
          → SlotsGrow before a.1.0
          → AcceptTurn before peer (accept_turn network site peer a))
      → Result
          (λ out. SlotsGrow before out.1.0 × (out.0 ≡ true → is_missing out.1.0 peer ≡ false))
          (of_run (turns fuel (accept_turn network site peer) a))
  unfolding turns AcceptTurn
  accept_loop-Result before peer zero a g keep = tt
  accept_loop-Result before peer (suc fuel) a g keep =
      go (accept_turn network site peer a) (keep a g)
        (λ out h. accept_loop-Result before peer fuel out h keep)
    where
      go :
          (t : Turn (Bool × Slots network site))
          → AcceptTurn before peer t
          → ((out : Bool × Slots network site)
              → SlotsGrow before out.1.0
              → Result
                  (λ out.
                    SlotsGrow before out.1.0 × (out.0 ≡ true → is_missing out.1.0 peer ≡ false))
                  (of_run (turns fuel (accept_turn network site peer) out)))
          → Result
              (λ out. SlotsGrow before out.1.0 × (out.0 ≡ true → is_missing out.1.0 peer ≡ false))
              (of_run (after_turn (turns fuel (accept_turn network site peer)) t))
      go (Turn.stop out) h on = h
      go (Turn.again out) h on = on out h
      go Turn.fail h on = tt

  accepted-SlotsGrow :
      (before : List Connector) (slots : Slots network site) (out : Option ℕ × World)
      → SlotsGrow before slots.0
      → SlotsGrow before (after_accept network site slots out).1.0
  accepted-SlotsGrow before slots (none, w) g = g
  accepted-SlotsGrow before slots (some t, w) g = sourced (network.recv_rank t w)
    where
      sourced :
          (out : Option ℤ × World) → SlotsGrow before (after_source network site slots t out).1.0
      sourced (none, w') = g
      sourced (some source, w') = λ q h. with_transport-keeps slots.0 source t q (g q h)

  accept_ready-SlotsGrow :
      (before : List Connector) (ls : List ℕ) (es : List Event) (slots : Slots network site)
      → SlotsGrow before slots.0
      → SlotsGrow before (accept_ready network site ls es slots).1.0
  accept_ready-SlotsGrow before (l ∷ ls) (Event.quiet ∷ es) slots g =
      accept_ready-SlotsGrow before ls es slots g
  accept_ready-SlotsGrow before (l ∷ ls) (Event.broken ∷ es) slots g = g
  accept_ready-SlotsGrow before (l ∷ ls) (Event.pending ∷ es) slots g =
      let after : Bool × Slots network site =
        after_accept network site slots (network.accept l slots.1) in
      let grown : SlotsGrow before after.1.0 =
        accepted-SlotsGrow before slots (network.accept l slots.1) g in
      by_test (λ (out : Bool × Slots network site). SlotsGrow before out.1.0) after.0
        (λ e. accept_ready-SlotsGrow before ls es after.1 grown) (λ e. grown)
  accept_ready-SlotsGrow before [] es slots g = g
  accept_ready-SlotsGrow before (l ∷ ls) [] slots g = g

  accept_turn-AcceptTurn :
      (before : List Connector) (peer : ℤ) (a : Bool × Slots network site)
      → SlotsGrow before a.1.0
      → AcceptTurn before peer (accept_turn network site peer a)
  unfolding accept_turn AcceptTurn
  accept_turn-AcceptTurn before peer (b, slots) g =
      by_test (AcceptTurn before peer) (not (is_missing slots.0 peer))
        (λ e. (g, λ f. ground (arith, e))) (λ e. polled (network.poll site.listeners slots.1))
    where
      next :
          (out : Bool × Slots network site)
          → SlotsGrow before out.1.0
          → AcceptTurn before peer (next_poll network site out)
      next (true, after) h = h
      next (false, after) h = (h, λ e. absurd (ground (arith, e)))

      polled : (out : Polled × World) → AcceptTurn before peer (after_poll network site slots out)
      polled (Polled.interrupted, w) = g
      polled (Polled.poll_failed, w) = (g, λ e. absurd (ground (arith, e)))
      polled (Polled.ready es, w) =
          next (accept_ready network site site.listeners es (slots.0, w))
            (accept_ready-SlotsGrow before site.listeners es (slots.0, w) g)

  pub accept_p2p_one-Keeps :
      (fuel : ℕ) (peer : ℤ) (channels : List Channel) (w : World)
      → Result
          (Keeps network site channels (λ after. recvs_from network site after peer ≡ true))
          (accept_p2p_one network site fuel peer (record { channels = channels; world = w }))
  unfolding accept_p2p_one
  accept_p2p_one-Keeps fuel peer [] w =
      by_test (Result (Keeps network site [] (λ after. recvs_from network site after peer ≡ true)))
        (not (p2p_usable site.peers peer))
        (λ e. (Grows-refl network site [], λ f. absurd (ground (arith, f)))) (λ e. tt)
  accept_p2p_one-Keeps fuel peer (c ∷ []) w =
      by_test
        (Result (Keeps network site (c ∷ []) (λ after. recvs_from network site after peer ≡ true)))
        (not (p2p_usable site.peers peer))
        (λ e. (Grows-refl network site (c ∷ []), λ f. absurd (ground (arith, f)))) (λ e. tt)
  accept_p2p_one-Keeps fuel peer (c ∷ d ∷ cs) w =
      by_test
        (Result
          (Keeps network site (c ∷ d ∷ cs) (λ after. recvs_from network site after peer ≡ true)))
        (not (p2p_usable site.peers peer))
        (λ e. (Grows-refl network site (c ∷ d ∷ cs), λ f. absurd (ground (arith, f))))
        (λ e.
          >>=-Result
            (λ out. SlotsGrow d.recv_p2p out.1.0 × (out.0 ≡ true → is_missing out.1.0 peer ≡ false))
            (Keeps network site (c ∷ d ∷ cs) (λ after. recvs_from network site after peer ≡ true))
            (of_run (turns fuel (accept_turn network site peer) (true, (d.recv_p2p, w)))) _
            (accept_loop-Result d.recv_p2p peer fuel (true, (d.recv_p2p, w)) (λ q h. h)
              (accept_turn-AcceptTurn d.recv_p2p peer))
            (λ out h. (
              record {
                sends = λ q k. k;
                recvs = λ q k. ap not (h.0 q (ground (arith, k)));
                slots = λ q. refl;
              },
              λ f. ap not (h.1 f),
            )))
