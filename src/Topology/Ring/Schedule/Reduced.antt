-- ===== src/Topology/Ring/Schedule/Reduced.antt =====
-- The ReduceScatter phase of all ranks together. In a step every rank reduces into the chunk that it
-- receives what its previous rank held of that chunk; a chunk is followed by whose data it holds.
use native.Mathlib.Nat.{mod-lt}
use origin_ccl.Prelude.{
  ℕ, zero, suc, ◌+◌, ◌-◌, ◌*◌, ◌%◌, ◌<◌, ◌≤◌, ◌≡◌, ◌≢◌, ◌⊎◌, inl, inr, refl, arith, ap, ◌∙◌,
  wrap_cases, List, [], ◌∷◌, ◌++◌, length, length-append, true, false, if◌then◌else◌, leb, ◌==◌,
}
use origin_ccl.Prelude.Int.{ℤ, pos, pos_part, eqb_ℤ}
use origin_ccl.Types.{PlanTask}
use origin_ccl.Topology.Ring.{get_prev_rank}
use origin_ccl.Topology.Ring.Cycle.{prev_rank_lem}
use origin_ccl.Topology.Ring.Schedule.{Phase, allreduce_recv_chunk}
use origin_ccl.Topology.Ring.Schedule.Places.{at_rank, cursor, recv-scatter}

abbrev pub before : ℕ → ℕ → ℕ
before w r = pos_part (get_prev_rank (pos w) (pos r))

pub before_lem :
    (w r : ℕ) → r < w → ((r ≡ 0) × (before w r + 1 ≡ w)) ⊎ ((0 < r) × (before w r + 1 ≡ r))
before_lem w r h = elim (prev_rank_lem w r h) [
  | inl (e, p) ↦ inl (e, ap (λ z. pos_part z + 1) p ∙ omega arith)
  | inr (e, p) ↦ inr (e, ap (λ z. pos_part z + 1) p ∙ omega arith)
]

-- The ranks whose data is in chunk `c` at rank `r` after `s` steps of unit `u`.
abbrev pub reduced : PlanTask → ℕ → ℕ → ℕ → ℕ → ℤ → List ℕ
reduced t w u zero r c = r ∷ []
reduced t w u (suc s) r c =
    if eqb_ℤ c (allreduce_recv_chunk (at_rank t w r) (cursor Phase.reduce_scatter w u s))
    then reduced t w u s (before w r) c ++ reduced t w u s r c
    else reduced t w u s r c

-- How often a rank's data is in a chunk.
abbrev pub times : ℕ → List ℕ → ℕ
times a [] = 0
times a (b ∷ l) = (if a == b then 1 else 0) + times a l

times-append : (a : ℕ) (l m : List ℕ) → times a (l ++ m) ≡ times a l + times a m
times-append a [] m = omega arith
times-append a (b ∷ l) m = omega (arith, times-append a l m)

-- The ranks from `s` places before `r` up to `r`.
abbrev trail : ℕ → ℕ → ℕ → List ℕ
trail w zero r = r ∷ []
trail w (suc s) r = trail w s (before w r) ++ (r ∷ [])

length-trail : (w s r : ℕ) → length (trail w s r) ≡ s + 1
length-trail w zero r = omega arith
length-trail w (suc s) r =
    omega (arith, length-append (trail w s (before w r)) (r ∷ []), length-trail w s (before w r))

times-trail :
    (w s r a : ℕ)
    → r < w
    → s < w
    → a < w
    → times a (trail w s r) ≡ (if leb ((r + w - a) % w) s then 1 else 0)
times-trail w zero r a h k l = ground (arith, wrap_cases (r + w - a) w)
times-trail w (suc s) r a h k l = ground (
  arith,
  times-append a (trail w s (before w r)) (r ∷ []),
  times-trail w s (before w r) a (omega (arith, before_lem w r h)) (omega arith) l,
  before_lem w r h,
  wrap_cases (r + w - a) w,
  wrap_cases (before w r + w - a) w,
)

module _ (t : PlanTask) (w u : ℕ) where
  abbrev pub chunk : ℕ → ℤ
  chunk n = pos (u * w + n % w)

  pub same_chunk : (m n : ℕ) → m % w ≡ n % w → eqb_ℤ (chunk m) (chunk n) ≡ true
  same_chunk m n e = ground (arith, e)

  other_chunk : (m n : ℕ) → m % w ≢ n % w → eqb_ℤ (chunk m) (chunk n) ≡ false
  other_chunk m n e = ground (arith, e)

  fresh :
      (s k r : ℕ) → r < w → s + 1 < w → k ≤ s → reduced t w u k r (chunk (r + w - s - 1)) ≡ r ∷ []
  fresh s zero r h l p = refl
  fresh s (suc k) r h l p =
      rw (recv-scatter t w u k r h (omega arith), other_chunk (r + w - s - 1) (r + w - k - 1) apart)
        (fresh s k r h l (omega arith))
    where
      apart : (r + w - s - 1) % w ≢ (r + w - k - 1) % w
      apart = λ e. omega (arith, e, wrap_cases (r + w - s - 1) w, wrap_cases (r + w - k - 1) w)

  reduced-trail : (s r : ℕ) → r < w → s < w → reduced t w u s r (chunk (r + w - s)) ≡ trail w s r
  reduced-trail zero r h k = refl
  reduced-trail (suc s) r h k =
      rw (recv-scatter t w u s r h (omega arith), same_chunk (r + w - suc s) (r + w - s - 1) here)
        (ap (λ l. l ++ reduced t w u s r (chunk (r + w - suc s)))
            (theirs ∙ reduced-trail s (before w r) (omega (arith, before_lem w r h)) (omega arith))
          ∙ ap (λ l. trail w s (before w r) ++ l) own)
    where
      here : (r + w - suc s) % w ≡ (r + w - s - 1) % w
      here = ap (λ n. n % w) (omega arith)

      there : (r + w - suc s) % w ≡ (before w r + w - s) % w
      there = omega (
        arith,
        before_lem w r h,
        wrap_cases (r + w - suc s) w (omega arith),
        wrap_cases (before w r + w - s) w (omega (arith, before_lem w r h)),
        mod-lt (r + w - suc s) {m = w} (omega arith),
      )

      theirs :
          reduced t w u s (before w r) (chunk (r + w - suc s))
          ≡ reduced t w u s (before w r) (chunk (before w r + w - s))
      theirs = ap (λ n. reduced t w u s (before w r) (pos (u * w + n))) there

      own : reduced t w u s r (chunk (r + w - suc s)) ≡ r ∷ []
      own =
          ap (λ n. reduced t w u s r (pos (u * w + n))) here
          ∙ fresh s s r h (omega arith) (omega arith)

-- The chunk that rank `r` receives in the last step of the phase.
abbrev pub last_chunk : PlanTask → ℕ → ℕ → ℕ → ℤ
last_chunk t w u r = allreduce_recv_chunk (at_rank t w r) (cursor Phase.reduce_scatter w u (w - 2))

-- The ReduceScatter phase of a unit reduces everything once: on a ring of `w` ranks, at least two, the chunk
-- that rank `r` receives in the last step of the phase holds, after that step on every rank, the data of
-- each of the `w` ranks exactly once, and no more.
pub reduced-once :
    (t : PlanTask) (w u r a : ℕ)
    → 2 ≤ w
    → r < w
    → a < w
    → (times a (reduced t w u (w - 1) r (last_chunk t w u r)) ≡ 1)
      × (length (reduced t w u (w - 1) r (last_chunk t w u r)) ≡ w)
reduced-once t w u r a g h l =
    let e : reduced t w u (w - 1) r (last_chunk t w u r) ≡ trail w (w - 1) r =
      ap (reduced t w u (w - 1) r)
        (recv-scatter t w u (w - 2) r h (omega arith) ∙ ap (λ n. pos (u * w + n % w)) (omega arith))
      ∙ reduced-trail t w u (w - 1) r h (omega arith) in
    (
      ap (times a) e
          ∙ (times-trail w (w - 1) r a h (omega arith) l
              ∙ ground (arith, mod-lt (r + w - a) {m = w} (omega arith))),
      ap length e ∙ (length-trail w (w - 1) r ∙ omega arith),
    )
