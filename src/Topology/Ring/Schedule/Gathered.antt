-- ===== src/Topology/Ring/Schedule/Gathered.antt =====
-- The AllGather phase of all ranks together. In a step every rank stores the chunk that it receives, which
-- is a reduced one if its previous rank held it reduced.
use native.Mathlib.Nat.{add-mod_right, mod-eq_of_lt, mod_self}
use native.Mathlib.Decide.{dec_le}
use origin_ccl.Prelude.{
  ℕ, zero, suc, ◌+◌, ◌-◌, ◌*◌, ◌%◌, ◌<◌, ◌≤◌, ◌≡◌, inl, inr, arith, ap, ◌∙◌, sym, Bool, true, ◌&&◌,
  ◌||◌,
}
use origin_ccl.Prelude.Int.{ℤ, pos, eqb_ℤ}
use origin_ccl.Types.{PlanTask}
use origin_ccl.Topology.Ring.Schedule.{Phase, allreduce_recv_chunk}
use origin_ccl.Topology.Ring.Schedule.Places.{at_rank, cursor, recv-scatter, recv-gather}
use origin_ccl.Topology.Ring.Schedule.Reduced.{before, before_lem, last_chunk, chunk, same_chunk}

-- Whether rank `r` holds chunk `c` reduced after `s` steps of unit `u`.
abbrev pub gathered : PlanTask → ℕ → ℕ → ℕ → ℕ → ℤ → Bool
gathered t w u zero r c = eqb_ℤ c (last_chunk t w u r)
gathered t w u (suc s) r c =
    gathered t w u s r c
    || (eqb_ℤ c (allreduce_recv_chunk (at_rank t w r) (cursor Phase.all_gather w u s))
        && gathered t w u s (before w r) c)

kept : (a b c : Bool) → a ≡ true → (a || (b && c)) ≡ true
kept a b c e = ground arith

received : (a b c : Bool) → b ≡ true → c ≡ true → (a || (b && c)) ≡ true
received a b c e f = ground arith

module _ (t : PlanTask) (w u : ℕ) where
  abbrev is_next : ℕ → ℕ → ℤ → Bool
  is_next s r c = eqb_ℤ c (allreduce_recv_chunk (at_rank t w r) (cursor Phase.all_gather w u s))

  gathered-own : (r : ℕ) → r < w → 2 ≤ w → gathered t w u 0 r (chunk t w u (r + 1 + w)) ≡ true
  gathered-own r h g = rw (recv-scatter t w u (w - 2) r h (omega arith)) (
      same_chunk t w u (r + 1 + w) (r + w - (w - 2) - 1)
        (add-mod_right (r + 1) w ∙ ap (λ n. n % w) (omega arith)))

  behind : (r s : ℕ) → r < w → s < w → (before w r + 1 + w - s) % w ≡ (r + w - s) % w
  behind r s h k = elim (before_lem w r h) [
    | inl (e, p) ↦
        ap (λ n. n % w) (omega (arith, p))
        ∙ (add-mod_right (w - s) w ∙ ap (λ n. n % w) (omega (arith, e)))
    | inr (e, p) ↦ ap (λ n. n % w) (omega (arith, p))
  ]

  gathered-has :
      (s j r : ℕ)
      → r < w
      → s < w
      → j ≤ s
      → 2 ≤ w
      → gathered t w u s r (chunk t w u (r + 1 + w - j)) ≡ true
  gathered-has zero j r h k l g =
      ap (λ n. gathered t w u 0 r (chunk t w u n)) (omega arith) ∙ gathered-own r h g
  gathered-has (suc s) j r h k l g = elim (dec_le j s) [
    | yes p ↦
        let c : ℤ = chunk t w u (r + 1 + w - j) in
        kept _ (is_next s r c) (gathered t w u s (before w r) c)
          (gathered-has s j r h (omega arith) p g)
    | no p ↦
        let at_place : (r + 1 + w - j) % w ≡ (r + w - s) % w = ap (λ n. n % w) (omega arith) in
        let c : ℤ = chunk t w u (r + 1 + w - j) in
        received (gathered t w u s r c) _ _
          (ap (λ c. eqb_ℤ (chunk t w u (r + 1 + w - j)) c) (recv-gather t w u s r h (omega arith))
            ∙ same_chunk t w u (r + 1 + w - j) (r + w - s) at_place)
          (ap (λ n. gathered t w u s (before w r) (pos (u * w + n)))
              (at_place ∙ sym (behind r s h (omega arith)))
            ∙ gathered-has s s (before w r) (omega (arith, before_lem w r h)) (omega arith)
                (omega arith) g)
  ]

-- The AllGather phase of a unit spreads every chunk: on a ring of `w` ranks, at least two, of which each
-- starts with the chunk that it has reduced, every rank holds every chunk of the unit reduced after the
-- `w - 1` steps of the phase on all ranks.
pub gathered-all :
    (t : PlanTask) (w u r n : ℕ)
    → 2 ≤ w
    → r < w
    → n < w
    → gathered t w u (w - 1) r (pos (u * w + n)) ≡ true
gathered-all t w u r n g h l = elim (dec_le n (r + 1)) [
  | yes p ↦ elim (dec_le (r + 1 - n) (w - 1)) [
    | yes q ↦
        at_distance (r + 1 - n) q
          (ap (λ m. m % w) (omega arith) ∙ (add-mod_right n w ∙ mod-eq_of_lt l))
    | no q ↦
        at_distance 0 (omega arith)
          (ap (λ m. m % w) (omega arith) ∙ (add-mod_right w w ∙ (mod_self w ∙ omega arith)))
  ]
  | no p ↦
      at_distance (r + 1 + w - n) (omega arith) (ap (λ m. m % w) (omega arith) ∙ mod-eq_of_lt l)
]
  where
    at_distance :
        (j : ℕ)
        → j ≤ w - 1
        → (r + 1 + w - j) % w ≡ n
        → gathered t w u (w - 1) r (pos (u * w + n)) ≡ true
    at_distance j q e =
        ap (λ m. gathered t w u (w - 1) r (pos (u * w + m))) (sym e)
        ∙ gathered-has t w u (w - 1) j r h (omega arith) q g
