-- ===== src/Planner/Batch/Prepared.antt =====
-- About `PrepareRound` of src/planner.cpp as a whole.
use origin_ccl.Prelude.{
  ℕ, ◌≡◌, ◌⊎◌, inl, inr, refl, ◌∙◌, arith, Bool, true, false, ◌&&◌, ◌||◌, List, [], ◌∷◌, by_test,
  Bool-cases,
}
use origin_ccl.Prelude.Int.{ℤ}
use origin_ccl.Types.{CollTask, Channel}
use origin_ccl.Topology.Stepping.{is_empty}
use origin_ccl.Planner.Peers.Missing.{is_missing, missing_peers, has, wants, missing_peers_lem}
use origin_ccl.Planner.Batch.{
  ok, Network, Site, Joined, connect_p2p, accept_p2p_one, each_peer, Threads, thread_round,
  connects_then_accepts, run_threads, join_peers, prepare_round,
}
use origin_ccl.Planner.Batch.Joining.{
  Result, >>=-Result, Result-map, Grows, Grows-refl, Grows-trans, Keeps,
}
use origin_ccl.Planner.Batch.Preparing.{
  CanSend, CanRecv, HasSlot, Each, connect_p2p-IsCall, accept_p2p_one-IsCall, each_peer-Keeps,
  IsRound, thread_round-IsRound,
}

module _ (network : Network) (site : Site) (fuel : ℕ) where
  -- The lists of peers are joined.
  abbrev AreJoined : List ℤ → List ℤ → List Channel → Type 0
  AreJoined send_peers recv_peers channels =
      Each network site (CanSend network site) send_peers channels
      × Each network site (CanRecv network site) recv_peers channels

  connects_then_accepts-Keeps :
      (send_peers recv_peers : List ℤ) (j : Joined network site)
      → Each network site (HasSlot network site) send_peers j.channels
      → Result
          (Keeps network site j.channels (AreJoined send_peers recv_peers))
          (connects_then_accepts network site fuel send_peers recv_peers j)
  unfolding connects_then_accepts
  connects_then_accepts-Keeps send_peers recv_peers j r =
      >>=-Result
        (Keeps network site j.channels (Each network site (CanSend network site) send_peers))
        (Keeps network site j.channels (AreJoined send_peers recv_peers))
        (each_peer network site (connect_p2p network site) send_peers j) _
        (each_peer-Keeps network site (connect_p2p network site) (CanSend network site)
          (HasSlot network site) (connect_p2p-IsCall network site) send_peers j r)
        (λ out h. go out h)
    where
      go :
          (out : Bool × Joined network site)
          → Keeps network site j.channels (Each network site (CanSend network site) send_peers) out
          → Result (Keeps network site j.channels (AreJoined send_peers recv_peers)) (elim out.0 [
            | true ↦ each_peer network site (accept_p2p_one network site fuel) recv_peers out.1
            | false ↦ ok (false, out.1)
          ])
      go (false, next) h = (h.0, λ e. absurd (ground (arith, e)))
      go (true, next) h =
          Result-map
            (Keeps network site next.channels (Each network site (CanRecv network site) recv_peers))
            (Keeps network site j.channels (AreJoined send_peers recv_peers))
            (each_peer network site (accept_p2p_one network site fuel) recv_peers next)
            (λ out k. (
              Grows-trans network site j.channels next.channels out.1.channels h.0 k.0,
              λ e. (λ peer w. k.0.sends peer (h.1 refl peer w), k.1 e),
            ))
            (each_peer-Keeps network site (accept_p2p_one network site fuel) (CanRecv network site)
              (λ peer channels. Unit) (accept_p2p_one-IsCall network site fuel) recv_peers next
              (λ peer e. tt))

  -- Between two rounds of the threads: a peer is still to come, joined, or there was an error.
  record IsJoining (send_peers recv_peers : List ℤ) (start : List Channel)
      (s : Threads network site) : Type 0 where
    grown : Grows network site start s.joined.channels
    connected :
        s.error ≡ false
        → (peer : ℤ) → has peer send_peers ≡ true
        → (has peer s.to_connect ≡ true) ⊎ CanSend network site peer s.joined.channels
    accepted :
        s.error ≡ false
        → (peer : ℤ) → has peer recv_peers ≡ true
        → (has peer s.to_accept ≡ true) ⊎ CanRecv network site peer s.joined.channels
    slots : Each network site (HasSlot network site) s.to_connect s.joined.channels

  run_threads-Keeps :
      (send_peers recv_peers : List ℤ) (start : List Channel) (schedule : List Bool)
      (s : Threads network site)
      → IsJoining send_peers recv_peers start s
      → Result
          (Keeps network site start (AreJoined send_peers recv_peers))
          (run_threads network site fuel schedule s)
  unfolding run_threads
  run_threads-Keeps send_peers recv_peers start [] s h =
      by_test (Result (Keeps network site start (AreJoined send_peers recv_peers))) s.error
        (λ e. (h.grown, λ f. absurd (ground (arith, f))))
        (λ e.
          Result-map (Keeps network site s.joined.channels (AreJoined s.to_connect s.to_accept))
            (Keeps network site start (AreJoined send_peers recv_peers))
            (connects_then_accepts network site fuel s.to_connect s.to_accept s.joined)
            (λ out k. (
              Grows-trans network site start s.joined.channels out.1.channels h.grown k.0,
              λ f. (
                λ peer w. elim (h.connected e peer w) [
                  | inl waiting ↦ (k.1 f).0 peer waiting
                  | inr there ↦ k.0.sends peer there
                ],
                λ peer w. elim (h.accepted e peer w) [
                  | inl waiting ↦ (k.1 f).1 peer waiting
                  | inr there ↦ k.0.recvs peer there
                ],
              ),
            ))
            (connects_then_accepts-Keeps s.to_connect s.to_accept s.joined h.slots))
  run_threads-Keeps send_peers recv_peers start (true ∷ schedule) s h =
      >>=-Result
        (IsRound network site (connect_p2p network site) (CanSend network site)
          (HasSlot network site) (connect_p2p-IsCall network site) s.to_connect s.error
          s.joined.channels)
        (Keeps network site start (AreJoined send_peers recv_peers))
        (thread_round network site (connect_p2p network site) s.to_connect s.error s.joined) _
        (thread_round-IsRound network site (connect_p2p network site) (CanSend network site)
          (HasSlot network site) (connect_p2p-IsCall network site) s.to_connect s.error s.joined
          h.slots)
        (λ out k. run_threads-Keeps send_peers recv_peers start schedule _ (record {
          grown = Grows-trans network site start s.joined.channels out.1.1.channels h.grown k.grown;
          connected = λ e peer w. elim (h.connected (k.clean e) peer w) [
            | inl waiting ↦ k.done e peer waiting
            | inr there ↦ inr (k.grown.sends peer there)
          ];
          accepted = λ e peer w. elim (h.accepted (k.clean e) peer w) [
            | inl waiting ↦ inl waiting
            | inr there ↦ inr (k.grown.recvs peer there)
          ];
          slots = λ peer w. k.grown.slots peer ∙ h.slots peer (k.left peer w);
        }))
  run_threads-Keeps send_peers recv_peers start (false ∷ schedule) s h =
      >>=-Result
        (IsRound network site (accept_p2p_one network site fuel) (CanRecv network site)
          (λ peer channels. Unit) (accept_p2p_one-IsCall network site fuel) s.to_accept s.error
          s.joined.channels)
        (Keeps network site start (AreJoined send_peers recv_peers))
        (thread_round network site (accept_p2p_one network site fuel) s.to_accept s.error s.joined)
        _
        (thread_round-IsRound network site (accept_p2p_one network site fuel) (CanRecv network site)
          (λ peer channels. Unit) (accept_p2p_one-IsCall network site fuel) s.to_accept s.error
          s.joined (λ peer w. tt))
        (λ out k. run_threads-Keeps send_peers recv_peers start schedule _ (record {
          grown = Grows-trans network site start s.joined.channels out.1.1.channels h.grown k.grown;
          connected = λ e peer w. elim (h.connected (k.clean e) peer w) [
            | inl waiting ↦ inl waiting
            | inr there ↦ inr (k.grown.sends peer there)
          ];
          accepted = λ e peer w. elim (h.accepted (k.clean e) peer w) [
            | inl waiting ↦ k.done e peer waiting
            | inr there ↦ inr (k.grown.recvs peer there)
          ];
          slots = λ peer w. k.grown.slots peer ∙ h.slots peer w;
        }))

  join_peers-Keeps :
      (schedule : List Bool) (send_peers recv_peers : List ℤ) (j : Joined network site)
      → Each network site (HasSlot network site) send_peers j.channels
      → Result
          (Keeps network site j.channels (AreJoined send_peers recv_peers))
          (join_peers network site fuel schedule send_peers recv_peers j)
  unfolding join_peers
  join_peers-Keeps schedule send_peers recv_peers j r =
      by_test (Result (Keeps network site j.channels (AreJoined send_peers recv_peers)))
        (is_empty send_peers || is_empty recv_peers)
        (λ e. connects_then_accepts-Keeps send_peers recv_peers j r)
        (λ e. run_threads-Keeps send_peers recv_peers j.channels schedule _ (record {
          grown = Grows-refl network site j.channels;
          connected = λ f peer w. inl w;
          accepted = λ f peer w. inl w;
          slots = r;
        }))

  -- All messages of a round that are not empty have a transport.
  abbrev pub AreReady : List CollTask → List CollTask → List Channel → Type 0
  AreReady sends recvs channels =
      ((peer : ℤ) → wants peer sends ≡ true → CanSend network site peer channels)
      × ((peer : ℤ) → wants peer recvs ≡ true → CanRecv network site peer channels)

  -- Whatever the network does and however the two threads take turns: a `PrepareRound` that returns, for sends whose
  -- peers have a slot, leaves each peer that had a transport to it, or from it, with one, which may be another, and if
  -- it returns true, then each peer of a message that is not empty has one on the side of the message.
  pub prepare_round-Keeps :
      (schedule : List Bool) (sends recvs : List CollTask) (j : Joined network site)
      → ((peer : ℤ) → wants peer sends ≡ true → HasSlot network site peer j.channels)
      → Result
          (Keeps network site j.channels (AreReady sends recvs))
          (prepare_round network site fuel schedule sends recvs j)
  unfolding prepare_round
  prepare_round-Keeps schedule sends recvs j r = on_channels j.channels j.world r
    where
      on_channels :
          (channels : List Channel) (w : network.World)
          → ((peer : ℤ) → wants peer sends ≡ true → HasSlot network site peer channels)
          → Result (Keeps network site channels (AreReady sends recvs)) (
              prepare_round network site fuel schedule sends recvs
                (record { channels = channels; world = w }))
      on_channels [] w r = tt
      on_channels (c ∷ []) w r = tt
      on_channels (c ∷ d ∷ cs) w r =
          let to : (peer : ℤ)
              → has peer (missing_peers sends c.send_p2p)
                ≡ (wants peer sends && is_missing c.send_p2p peer) =
            (missing_peers_lem sends c.send_p2p).1 in
          let from : (peer : ℤ)
              → has peer (missing_peers recvs d.recv_p2p)
                ≡ (wants peer recvs && is_missing d.recv_p2p peer) =
            (missing_peers_lem recvs d.recv_p2p).1 in
          Result-map
            (Keeps network site (c ∷ d ∷ cs)
              (AreJoined (missing_peers sends c.send_p2p) (missing_peers recvs d.recv_p2p)))
            (Keeps network site (c ∷ d ∷ cs) (AreReady sends recvs))
            (join_peers network site fuel schedule (missing_peers sends c.send_p2p)
              (missing_peers recvs d.recv_p2p) (record { channels = c ∷ d ∷ cs; world = w }))
            (λ out k. (
              k.0,
              λ e. (
                λ peer q. elim (Bool-cases (is_missing c.send_p2p peer)) [
                  | inl gone ↦ (k.1 e).0 peer (ground (arith, to peer, q, gone))
                  | inr there ↦ k.0.sends peer (ground (arith, there))
                ],
                λ peer q. elim (Bool-cases (is_missing d.recv_p2p peer)) [
                  | inl gone ↦ (k.1 e).1 peer (ground (arith, from peer, q, gone))
                  | inr there ↦ k.0.recvs peer (ground (arith, there))
                ],
              ),
            ))
            (join_peers-Keeps schedule (missing_peers sends c.send_p2p)
              (missing_peers recvs d.recv_p2p) (record { channels = c ∷ d ∷ cs; world = w })
              (λ peer q. r peer (ground (arith, to peer, q))))
