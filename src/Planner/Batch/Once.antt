-- ===== src/Planner/Batch/Once.antt =====
-- About the rounds of the messages of a batch, src/planner.cpp: each has one.
use origin_ccl.Prelude.{
  ℕ, zero, suc, ◌≡◌, ◌≢◌, ◌≤◌, ◌<◌, ◌+◌, ◌-◌, ◌⊎◌, inl, inr, refl, ◌∙◌, ap, arith, Bool, true,
  false, not, ◌&&◌, List, [], ◌∷◌, All, if◌then◌else◌,
}
use origin_ccl.Prelude.Int.{ℤ, pos, negsuc, pos_part, ltb_ℤ, eqb_ℤ}
use origin_ccl.Types.{CollFunc, CollTask}
use origin_ccl.Planner.Validate.{is_p2p}
use origin_ccl.Planner.Rounds.{p2p_round_of}
use origin_ccl.Planner.Rounds.Partners.{hop, hop_cases, send_round, recv_round}
use native.Mathlib.Decide.{dec_lt}
use origin_ccl.Planner.Batch.{Network, Site}
use origin_ccl.Planner.Batch.Planning.{is_of_round, is_send}
use origin_ccl.Planner.Batch.Tally.{tally, Content, submitted}

pub has_round :
    (func : CollFunc) (a ws : ℕ) (peer : ℤ)
    → is_p2p func ≡ true
    → a < ws
    → ltb_ℤ peer (pos 0) ≡ false
    → ltb_ℤ peer (pos ws) ≡ true
    → eqb_ℤ peer (pos a) ≡ false
    → (r : ℕ) × (0 < r) × (r < ws) × (p2p_round_of func (pos a) peer (pos ws) ≡ pos r)
has_round func a ws (negsuc n) p l low high ne = absurd (ground (arith, low))
has_round CollFunc.send a ws (pos b) p l low high ne =
    let lb : b < ws = ground (arith, high) in
    let hops = hop_cases a b ws l lb (λ e. absurd (ground (arith, ne, e))) in
    (
      ws - hop a b ws,
      omega (arith, hops, l, lb),
      omega (arith, hops, l, lb),
      send_round a b ws l lb,
    )
has_round CollFunc.recv a ws (pos b) p l low high ne =
    let lb : b < ws = ground (arith, high) in
    let hops = hop_cases b a ws lb l (λ e. absurd (ground (arith, ne, e))) in
    (
      ws - hop b a ws,
      omega (arith, hops, l, lb),
      omega (arith, hops, l, lb),
      recv_round a b ws l lb,
    )
has_round CollFunc.all_reduce a ws (pos b) p l low high ne = absurd (ground (arith, p))
has_round CollFunc.broadcast a ws (pos b) p l low high ne = absurd (ground (arith, p))
has_round CollFunc.reduce a ws (pos b) p l low high ne = absurd (ground (arith, p))
has_round CollFunc.all_gather a ws (pos b) p l low high ne = absurd (ground (arith, p))
has_round CollFunc.reduce_scatter a ws (pos b) p l low high ne = absurd (ground (arith, p))
has_round (CollFunc.other n) a ws (pos b) p l low high ne = absurd (ground (arith, p))

module _ (network : Network) (site : Site) (q : Content → Bool) where
  -- The messages that were submitted to be sent, or to be received, and pass the test.
  abbrev pub is_side : Bool → CollTask → Bool
  is_side sending t = if sending then is_send network site t else not (is_send network site t)

  abbrev pub is_submitted : Bool → CollTask → Bool
  is_submitted sending t = is_p2p t.func && (is_side sending t && q (submitted t))

  -- How many of them are of a round from `round` on, of which there are `left`.
  abbrev pub of_rounds : Bool → List CollTask → ℕ → ℕ → ℕ
  of_rounds sending tasks zero round = 0
  of_rounds sending tasks (suc left) round =
      tally (λ t. is_of_round network site (pos round) t && (is_side sending t && q (submitted t)))
        tasks
      + of_rounds sending tasks left (round + 1)

  abbrev pub in_round : Bool → ℤ → CollTask → Bool
  in_round sending round t =
      is_of_round network site round t && (is_side sending t && q (submitted t))

  -- A task that has one of the rounds is counted once.
  of_one : Bool → CollTask → ℕ → ℕ → ℕ
  of_one sending t left round = of_rounds sending (t ∷ []) left round

  of_rounds-cons :
      (sending : Bool) (t : CollTask) (ts : List CollTask) (left round : ℕ)
      → of_rounds sending (t ∷ ts) left round
        ≡ of_one sending t left round + of_rounds sending ts left round
  unfolding of_one
  of_rounds-cons sending t ts zero round = omega arith
  of_rounds-cons sending t ts (suc left) round =
      omega (arith, of_rounds-cons sending t ts left (round + 1))

  -- The round of a valid message.
  abbrev pub HasRound : CollTask → Type 0
  HasRound t =
      is_p2p t.func ≡ true
      → (r : ℕ) × (0 < r)
        × (r < pos_part site.peers.world_size)
        × (p2p_round_of t.func site.peers.rank t.peer site.peers.world_size ≡ pos r)

  abbrev bit : Bool → ℕ
  bit b = if b then 1 else 0

  in_round_off :
      (sending : Bool) (t : CollTask) (round : ℕ)
      → is_of_round network site (pos round) t ≡ false
      → bit (in_round sending (pos round) t) ≡ 0
  in_round_off sending t round e = ground (arith, e)

  in_round_on :
      (sending : Bool) (t : CollTask) (round : ℕ)
      → is_of_round network site (pos round) t ≡ true
      → bit (in_round sending (pos round) t) ≡ bit (is_submitted sending t)
  in_round_on sending t round e = ground (arith, e)

  is_of_round_other :
      (t : CollTask) (round r : ℕ)
      → p2p_round_of t.func site.peers.rank t.peer site.peers.world_size ≡ pos r
      → r ≢ round
      → is_of_round network site (pos round) t ≡ false
  is_of_round_other t round r e ne =
      ap (λ z. is_p2p t.func && eqb_ℤ z (pos round)) e ∙ other (is_p2p t.func)
    where
      other : (b : Bool) → (b && eqb_ℤ (pos r) (pos round)) ≡ false
      other b = ground (arith, ne)

  is_of_round_same :
      (t : CollTask) (round r : ℕ)
      → is_p2p t.func ≡ true
      → p2p_round_of t.func site.peers.rank t.peer site.peers.world_size ≡ pos r
      → r ≡ round
      → is_of_round network site (pos round) t ≡ true
  is_of_round_same t round r p e same =
      ap (λ z. is_p2p t.func && eqb_ℤ z (pos round)) e ∙ equal (is_p2p t.func) p
    where
      equal : (b : Bool) → b ≡ true → (b && eqb_ℤ (pos r) (pos round)) ≡ true
      equal b h = ground (arith, h, same)

  of_one-none :
      (sending : Bool) (t : CollTask) (left round : ℕ) (r : ℕ)
      → p2p_round_of t.func site.peers.rank t.peer site.peers.world_size ≡ pos r
      → (r < round) ⊎ (round + left ≤ r)
      → of_one sending t left round ≡ 0
  unfolding of_one
  of_one-none sending t zero round r e away = refl
  of_one-none sending t (suc left) round r e away = omega (
    arith,
    in_round_off sending t round
        (is_of_round_other t round r e (λ same. absurd (omega (arith, away, same)))),
    of_one-none sending t left (round + 1) r e (later away),
  )
    where
      later : (r < round) ⊎ (round + suc left ≤ r) → (r < round + 1) ⊎ (round + 1 + left ≤ r)
      later (inl l) = inl (omega (arith, l))
      later (inr l) = inr (omega (arith, l))

  of_one_collective :
      (sending : Bool) (t : CollTask) (left round : ℕ)
      → is_p2p t.func ≡ false
      → of_one sending t left round ≡ 0
  unfolding of_one
  of_one_collective sending t zero round e = refl
  of_one_collective sending t (suc left) round e = omega (
    arith,
    in_round_off sending t round (ground (arith, e)),
    of_one_collective sending t left (round + 1) e,
  )

  of_one-once :
      (sending : Bool) (t : CollTask) (left round : ℕ) (r : ℕ)
      → is_p2p t.func ≡ true
      → p2p_round_of t.func site.peers.rank t.peer site.peers.world_size ≡ pos r
      → round ≤ r
      → r < round + left
      → of_one sending t left round ≡ (if is_submitted sending t then 1 else 0)
  unfolding of_one
  of_one-once sending t zero round r p e a b = absurd (omega (arith, a, b))
  of_one-once sending t (suc left) round r p e a b = elim (dec_lt round r) [
    | yes l ↦ omega (
      arith,
      in_round_off sending t round
          (is_of_round_other t round r e (λ same. absurd (omega (arith, l, same)))),
      of_one-once sending t left (round + 1) r p e (omega (arith, l)) (omega (arith, b)),
    )
    | no n ↦ omega (
      arith,
      in_round_on sending t round (is_of_round_same t round r p e (omega (arith, a, n))),
      of_one-none sending t left (round + 1) r e (inl (omega (arith, n))),
    )
  ]

  pub of_rounds_total :
      (sending : Bool) (tasks : List CollTask)
      → All HasRound tasks
      → of_rounds sending tasks (pos_part site.peers.world_size - 1) 1
        ≡ tally (is_submitted sending) tasks
  of_rounds_total sending [] h = none_of (pos_part site.peers.world_size - 1) 1
    where
      none_of : (left round : ℕ) → of_rounds sending [] left round ≡ 0
      none_of zero round = refl
      none_of (suc left) round = omega (arith, none_of left (round + 1))
  of_rounds_total sending (t ∷ ts) h = omega (
    arith,
    of_rounds-cons sending t ts (pos_part site.peers.world_size - 1) 1,
    of_rounds_total sending ts h.1,
    once (is_p2p t.func) refl,
  )
    where
      once :
          (b : Bool)
          → is_p2p t.func ≡ b
          → of_one sending t (pos_part site.peers.world_size - 1) 1 ≡ bit (is_submitted sending t)
      once true e =
          let (r, low, high, found) = h.0 e in
          of_one-once sending t (pos_part site.peers.world_size - 1) 1 r e found
            (omega (arith, low)) (omega (arith, high, low))
      once false e =
          of_one_collective sending t (pos_part site.peers.world_size - 1) 1 e ∙ ground (arith, e)
