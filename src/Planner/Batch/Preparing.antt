-- ===== src/Planner/Batch/Preparing.antt =====
-- About the threads of `PrepareRound` of src/planner.cpp.
use origin_ccl.Prelude.{
  ℕ, ◌≡◌, ◌⊎◌, inl, inr, refl, sym, ◌∙◌, subst, arith, Bool, true, false, List, [], ◌∷◌, Bool-cases,
}
use origin_ccl.Prelude.Int.{ℤ, eqb_ℤ, eqb_ℤ→eq}
use origin_ccl.Types.{Channel}
use origin_ccl.Planner.Peers.Missing.{has}
use origin_ccl.Planner.Batch.{
  Ending, ok, Network, Site, Joined, connect_p2p, accept_p2p_one, each_peer, thread_round,
}
use origin_ccl.Planner.Batch.Joining.{
  Result, >>=-Result, Result-map, sends_to, recvs_from, has_slot, Grows, Grows-refl, Grows-trans,
  Keeps, connect_p2p-Keeps,
}
use origin_ccl.Planner.Batch.Accepting.{accept_p2p_one-Keeps}

module _ (network : Network) (site : Site) where
  open network use {World}

  -- A call for a peer, which brings `P` of the peer if it returns true; what `P` and the condition `R` say stays
  -- when transports are added.
  pub record IsCall (f : ℤ → Joined network site → Ending (Bool × Joined network site))
      (P R : ℤ → List Channel → Type 0) : Type 0 where
    pub keeps :
        (peer : ℤ) (j : Joined network site)
        → R peer j.channels
        → Result (Keeps network site j.channels (P peer)) (f peer j)
    pub stays : (peer : ℤ) (a b : List Channel) → Grows network site a b → P peer a → P peer b
    pub fits : (peer : ℤ) (a b : List Channel) → Grows network site a b → R peer a → R peer b

  abbrev pub CanSend : ℤ → List Channel → Type 0
  CanSend peer channels = sends_to network site channels peer ≡ true

  abbrev pub CanRecv : ℤ → List Channel → Type 0
  CanRecv peer channels = recvs_from network site channels peer ≡ true

  abbrev pub HasSlot : ℤ → List Channel → Type 0
  HasSlot peer channels = has_slot network site channels peer ≡ true

  pub connect_p2p-IsCall : IsCall (connect_p2p network site) CanSend HasSlot
  connect_p2p-IsCall = record {
    keeps = λ peer j r. connect_p2p-Keeps network site peer j.channels j.world r;
    stays = λ peer a b g h. g.sends peer h;
    fits = λ peer a b g h. g.slots peer ∙ h;
  }

  pub accept_p2p_one-IsCall :
      (fuel : ℕ) → IsCall (accept_p2p_one network site fuel) CanRecv (λ peer channels. Unit)
  accept_p2p_one-IsCall fuel = record {
    keeps = λ peer j r. accept_p2p_one-Keeps network site fuel peer j.channels j.world;
    stays = λ peer a b g h. g.recvs peer h;
    fits = λ peer a b g h. tt;
  }

  -- What holds of the peers of a list.
  abbrev pub Each : (ℤ → List Channel → Type 0) → List ℤ → List Channel → Type 0
  Each P peers channels = (peer : ℤ) → has peer peers ≡ true → P peer channels

  Each-cons :
      (P : ℤ → List Channel → Type 0) (x : ℤ) (peers : List ℤ) (channels : List Channel)
      → P x channels
      → Each P peers channels
      → Each P (x ∷ peers) channels
  Each-cons P x peers channels h hs peer e = elim (Bool-cases (eqb_ℤ peer x)) [
    | inl same ↦ subst (λ y. P y channels) (sym (eqb_ℤ→eq peer x same)) h
    | inr other ↦ hs peer (ground (arith, e, other))
  ]

  eqb_refl : (x : ℤ) → eqb_ℤ x x ≡ true
  eqb_refl x = ground arith

  Each-head :
      (P : ℤ → List Channel → Type 0) (x : ℤ) (peers : List ℤ) (channels : List Channel)
      → Each P (x ∷ peers) channels
      → P x channels
  Each-head P x peers channels h = h x (ground (arith, eqb_refl x))

  Each-tail :
      (P : ℤ → List Channel → Type 0) (x : ℤ) (peers : List ℤ) (channels : List Channel)
      → Each P (x ∷ peers) channels
      → Each P peers channels
  Each-tail P x peers channels h peer e = h peer (ground (arith, e))

  module _ (f : ℤ → Joined network site → Ending (Bool × Joined network site))
      (P R : ℤ → List Channel → Type 0) (call : IsCall f P R) where
    pub each_peer-Keeps :
        (peers : List ℤ) (j : Joined network site)
        → Each R peers j.channels
        → Result (Keeps network site j.channels (Each P peers)) (each_peer network site f peers j)
    unfolding each_peer
    each_peer-Keeps [] j r =
        (Grows-refl network site j.channels, λ e peer h. absurd (ground (arith, h)))
    each_peer-Keeps (x ∷ peers) j r =
        >>=-Result (Keeps network site j.channels (P x))
          (Keeps network site j.channels (Each P (x ∷ peers))) (f x j) _
          (call.keeps x j (Each-head R x peers j.channels r))
          (λ out h. go out h (λ next g.
            each_peer-Keeps peers next
              (λ peer e. call.fits peer j.channels next.channels g (r peer (ground (arith, e))))))
      where
        go :
            (out : Bool × Joined network site)
            → Keeps network site j.channels (P x) out
            → ((next : Joined network site)
                → Grows network site j.channels next.channels
                → Result
                    (Keeps network site next.channels (Each P peers))
                    (each_peer network site f peers next))
            → Result (Keeps network site j.channels (Each P (x ∷ peers))) (elim out.0 [
              | true ↦ each_peer network site f peers out.1
              | false ↦ ok (false, out.1)
            ])
        go (false, next) h ih = (h.0, λ e. absurd (ground (arith, e)))
        go (true, next) h ih =
            Result-map (Keeps network site next.channels (Each P peers))
              (Keeps network site j.channels (Each P (x ∷ peers)))
              (each_peer network site f peers next)
              (λ out k. (
                Grows-trans network site j.channels next.channels out.1.channels h.0 k.0,
                λ e.
                    Each-cons P x peers out.1.channels
                      (call.stays x next.channels out.1.channels k.0 (h.1 refl)) (k.1 e),
              ))
              (ih next h.0)

    -- What a round of a thread leaves.
    pub record IsRound (peers : List ℤ) (error : Bool) (channels : List Channel)
        (out : List ℤ × (Bool × Joined network site)) : Type 0 where
      pub grown : Grows network site channels out.1.1.channels
      pub clean : out.1.0 ≡ false → error ≡ false
      pub done :
          out.1.0 ≡ false
          → (peer : ℤ) → has peer peers ≡ true
          → (has peer out.0 ≡ true) ⊎ P peer out.1.1.channels
      pub left : (peer : ℤ) → has peer out.0 ≡ true → has peer peers ≡ true

    pub thread_round-IsRound :
        (peers : List ℤ) (error : Bool) (j : Joined network site)
        → Each R peers j.channels
        → Result (IsRound peers error j.channels) (thread_round network site f peers error j)
    unfolding thread_round
    thread_round-IsRound [] error j r = record {
      grown = Grows-refl network site j.channels;
      clean = λ e. e;
      done = λ e peer h. inl h;
      left = λ peer h. h;
    }
    thread_round-IsRound (x ∷ peers) true j r = record {
      grown = Grows-refl network site j.channels;
      clean = λ e. e;
      done = λ e peer h. absurd (ground (arith, e));
      left = λ peer h. absurd (ground (arith, h));
    }
    thread_round-IsRound (x ∷ peers) false j r =
        >>=-Result (Keeps network site j.channels (P x)) (IsRound (x ∷ peers) false j.channels)
          (f x j) _ (call.keeps x j (Each-head R x peers j.channels r))
          (λ out h. record {
            grown = h.0;
            clean = λ e. refl;
            done = λ e peer k. elim (Bool-cases (eqb_ℤ peer x)) [
              | inl same ↦ inr (
                  subst (λ y. P y out.1.channels) (sym (eqb_ℤ→eq peer x same))
                    (h.1 (ground (arith, e))))
              | inr other ↦ inl (ground (arith, k, other))
            ];
            left = λ peer k. ground (arith, k);
          })
