-- ===== src/Planner/Batch/Joining.antt =====
-- About `ConnectP2p` of src/planner.cpp: which peers have a transport before and after it.
use origin_ccl.Prelude.{
  ℕ, zero, suc, ◌≡◌, refl, ◌∙◌, ap, arith, Bool, true, false, not, Option, none, some, List, [],
  ◌∷◌, by_test,
}
use origin_ccl.Prelude.Int.{ℤ, pos, negsuc}
use origin_ccl.Types.{Connector, Channel}
use origin_ccl.Channels.{at_index}
use origin_ccl.Planner.Peers.{p2p_usable}
use origin_ccl.Planner.Peers.Missing.{is_missing}
use origin_ccl.Planner.Batch.{
  Ending, ok, failed, thrown, endless, ◌>>=◌, Network, Site, set_transport, with_transport, Joined,
  after_rank, after_connect, connect_p2p,
}

-- What is known of a call that gives a value.
abbrev pub Result : {A : Type 0} → (A → Type 0) → Ending A → Type 0
Result Q (ok a) = Q a
Result Q failed = Unit
Result Q thrown = Unit
Result Q endless = Unit

pub >>=-Result :
    {A B : Type 0} (P : A → Type 0) (Q : B → Type 0) (e : Ending A) (f : A → Ending B)
    → Result P e
    → ((a : A) → P a → Result Q (f a))
    → Result Q (e >>= f)
>>=-Result P Q (ok a) f h k = k a h
>>=-Result P Q failed f h k = tt
>>=-Result P Q thrown f h k = tt
>>=-Result P Q endless f h k = tt

pub Result-map :
    {A : Type 0} (P Q : A → Type 0) (e : Ending A) → ((a : A) → P a → Q a) → Result P e → Result Q e
Result-map P Q (ok a) f h = f a h
Result-map P Q failed f h = tt
Result-map P Q thrown f h = tt
Result-map P Q endless f h = tt

abbrev pub in_range : List Connector → ℤ → Bool
in_range cs peer = elim (at_index cs peer) [ none ↦ false | some c ↦ true ]

set_transport-keeps :
    (cs : List Connector) (i t k : ℕ)
    → is_missing cs (pos k) ≡ false
    → is_missing (set_transport cs i t) (pos k) ≡ false
set_transport-keeps [] i t k h = h
set_transport-keeps (c ∷ cs) zero t zero h = refl
set_transport-keeps (c ∷ cs) zero t (suc k) h = h
set_transport-keeps (c ∷ cs) (suc i) t zero h = h
set_transport-keeps (c ∷ cs) (suc i) t (suc k) h = set_transport-keeps cs i t k h

pub with_transport-keeps :
    (cs : List Connector) (peer : ℤ) (t : ℕ) (q : ℤ)
    → is_missing cs q ≡ false
    → is_missing (with_transport cs peer t) q ≡ false
with_transport-keeps cs (pos i) t (pos k) h = set_transport-keeps cs i t k h
with_transport-keeps cs (negsuc n) t q h = h
with_transport-keeps cs (pos i) t (negsuc n) h = h

set_transport-links :
    (cs : List Connector) (i t : ℕ)
    → in_range cs (pos i) ≡ true
    → is_missing (set_transport cs i t) (pos i) ≡ false
set_transport-links [] i t h = absurd (ground (arith, h))
set_transport-links (c ∷ cs) zero t h = refl
set_transport-links (c ∷ cs) (suc i) t h = set_transport-links cs i t h

with_transport-links :
    (cs : List Connector) (peer : ℤ) (t : ℕ)
    → in_range cs peer ≡ true
    → is_missing (with_transport cs peer t) peer ≡ false
with_transport-links cs (pos i) t h = set_transport-links cs i t h
with_transport-links cs (negsuc n) t h = absurd (ground (arith, h))

set_transport-range :
    (cs : List Connector) (i t k : ℕ)
    → in_range (set_transport cs i t) (pos k) ≡ in_range cs (pos k)
set_transport-range [] i t k = refl
set_transport-range (c ∷ cs) zero t zero = refl
set_transport-range (c ∷ cs) zero t (suc k) = refl
set_transport-range (c ∷ cs) (suc i) t zero = refl
set_transport-range (c ∷ cs) (suc i) t (suc k) = set_transport-range cs i t k

with_transport-range :
    (cs : List Connector) (peer : ℤ) (t : ℕ) (q : ℤ)
    → in_range (with_transport cs peer t) q ≡ in_range cs q
with_transport-range cs (pos i) t (pos k) = set_transport-range cs i t k
with_transport-range cs (pos i) t (negsuc n) = refl
with_transport-range cs (negsuc n) t q = refl

module _ (network : Network) (site : Site) where
  open network use {World}

  -- Whether a rank has a transport to, or from, a peer, and a slot for one to it.
  abbrev pub sends_to : List Channel → ℤ → Bool
  sends_to [] peer = false
  sends_to (c ∷ cs) peer = not (is_missing c.send_p2p peer)

  abbrev pub recvs_from : List Channel → ℤ → Bool
  recvs_from [] peer = false
  recvs_from (c ∷ []) peer = false
  recvs_from (c ∷ d ∷ cs) peer = not (is_missing d.recv_p2p peer)

  abbrev pub has_slot : List Channel → ℤ → Bool
  has_slot [] peer = false
  has_slot (c ∷ cs) peer = in_range c.send_p2p peer

  -- A peer that has a transport still has one later, which may be another, and the slots stay.
  pub record Grows (channels after : List Channel) : Type 0 where
    pub sends : (peer : ℤ) → sends_to channels peer ≡ true → sends_to after peer ≡ true
    pub recvs : (peer : ℤ) → recvs_from channels peer ≡ true → recvs_from after peer ≡ true
    pub slots : (peer : ℤ) → has_slot after peer ≡ has_slot channels peer

  pub Grows-refl : (channels : List Channel) → Grows channels channels
  Grows-refl channels = record { sends = λ peer h. h; recvs = λ peer h. h; slots = λ peer. refl }

  pub Grows-trans : (a b c : List Channel) → Grows a b → Grows b c → Grows a c
  Grows-trans a b c g h = record {
    sends = λ peer e. h.sends peer (g.sends peer e);
    recvs = λ peer e. h.recvs peer (g.recvs peer e);
    slots = λ peer. h.slots peer ∙ g.slots peer;
  }

  -- A call after which peers with a transport still have one and that, if it returns true, brings what `P` says.
  abbrev pub Keeps : List Channel → (List Channel → Type 0) → Bool × Joined network site → Type 0
  Keeps channels P out = Grows channels out.1.channels × (out.0 ≡ true → P out.1.channels)

  connected-Keeps :
      (peer : ℤ) (c : Channel) (cs : List Channel) (w : World) (out : Option ℕ × World)
      → in_range c.send_p2p peer ≡ true
      → Keeps
          (c ∷ cs)
          (λ after. sends_to after peer ≡ true)
          (after_connect network site peer c (record { channels = c ∷ cs; world = w }) out)
  connected-Keeps peer c cs w (none, w') r = (Grows-refl (c ∷ cs), λ e. absurd (ground (arith, e)))
  connected-Keeps peer c cs w (some t, w') r = ranked (network.send_rank t site.peers.rank w')
    where
      grown :
          (rest : List Channel)
          → Grows (c ∷ rest) (record c { send_p2p = with_transport c.send_p2p peer t } ∷ rest)
      grown [] = record {
        sends = λ q h. ap not (with_transport-keeps c.send_p2p peer t q (ground (arith, h)));
        recvs = λ q h. h;
        slots = λ q. with_transport-range c.send_p2p peer t q;
      }
      grown (d ∷ rest) = record {
        sends = λ q h. ap not (with_transport-keeps c.send_p2p peer t q (ground (arith, h)));
        recvs = λ q h. h;
        slots = λ q. with_transport-range c.send_p2p peer t q;
      }

      ranked :
          (out : Bool × World)
          → Keeps
              (c ∷ cs)
              (λ after. sends_to after peer ≡ true)
              (after_rank network site peer c (record { channels = c ∷ cs; world = w }) t out)
      ranked (false, w1) = (Grows-refl (c ∷ cs), λ e. absurd (ground (arith, e)))
      ranked (true, w1) = (grown cs, λ e. ap not (with_transport-links c.send_p2p peer t r))

  pub connect_p2p-Keeps :
      (peer : ℤ) (channels : List Channel) (w : World)
      → has_slot channels peer ≡ true
      → Result
          (Keeps channels (λ after. sends_to after peer ≡ true))
          (connect_p2p network site peer (record { channels = channels; world = w }))
  unfolding connect_p2p
  connect_p2p-Keeps peer [] w r = absurd (ground (arith, r))
  connect_p2p-Keeps peer (c ∷ cs) w r =
      by_test (Result (Keeps (c ∷ cs) (λ after. sends_to after peer ≡ true)))
        (not (p2p_usable site.peers peer))
        (λ e. (Grows-refl (c ∷ cs), λ f. absurd (ground (arith, f))))
        (λ e.
          by_test (Result (Keeps (c ∷ cs) (λ after. sends_to after peer ≡ true)))
            (not (is_missing c.send_p2p peer)) (λ f. (Grows-refl (c ∷ cs), λ g. f))
            (λ f. connected-Keeps peer c cs w _ r))
