-- ===== src/Topology/Ring/Cycle.antt =====
-- The ring that the neighbours of all ranks form.
use native.Mathlib.Nat.{
  mod-add-mod, add-mod-mod, add-mod_right, mod-eq_of_lt, mod_self, mod-suc, mod-lt, add-zero,
}
use native.Mathlib.Decide.{dec_lt}
use origin_ccl.Prelude.{
  ℕ, zero, suc, ◌+◌, ◌-◌, ◌%◌, ◌<◌, ◌⊎◌, inl, inr, ◌≡◌, sym, refl, arith, ◌∙◌, ap,
}
use origin_ccl.Prelude.Int.{ℤ, pos, ◌+ℤ◌, ◌-ℤ◌, ◌%ℤ◌}
use origin_ccl.Types.{Channel}
use origin_ccl.Topology.Ring.{get_prev_rank, get_next_rank, fill_channel}

pub next_lem : (n r : ℕ) → get_next_rank (pos n) (pos r) ≡ pos ((r + 1) % n)
unfolding get_next_rank ◌+ℤ◌ ◌%ℤ◌
next_lem n r = ground arith

prev_lem : (n r : ℕ) → get_prev_rank (pos n) (pos (suc r)) ≡ pos ((r + n) % n)
unfolding get_prev_rank ◌+ℤ◌ ◌-ℤ◌ ◌%ℤ◌
prev_lem n r = ground arith

prev_of_first : (n : ℕ) → get_prev_rank (pos (suc n)) (pos 0) ≡ pos (n % suc n)
unfolding get_prev_rank ◌+ℤ◌ ◌-ℤ◌ ◌%ℤ◌
prev_of_first n = ground arith

-- The two neighbours in closed form, at a rank of the ring.
next_rank_lem :
    (n r : ℕ)
    → r < n
    → ((r + 1 < n) × (get_next_rank (pos n) (pos r) ≡ pos (r + 1)))
      ⊎ ((r + 1 ≡ n) × (get_next_rank (pos n) (pos r) ≡ pos 0))
next_rank_lem n r h = elim (dec_lt (r + 1) n) [
  | yes p ↦ inl (p, next_lem n r ∙ ap pos (mod-eq_of_lt p))
  | no p ↦
      let e : r + 1 ≡ n = omega arith in
      inr (e, next_lem n r ∙ ap pos (ap (λ k. k % n) e ∙ mod_self n))
]

pub prev_rank_lem :
    (n r : ℕ)
    → r < n
    → ((r ≡ 0) × (get_prev_rank (pos n) (pos r) ≡ pos (n - 1)))
      ⊎ ((0 < r) × (get_prev_rank (pos n) (pos r) ≡ pos (r - 1)))
prev_rank_lem zero r h = absurd (omega arith)
prev_rank_lem (suc n) zero h = inl (refl, prev_of_first n ∙ ap pos (mod-suc n ∙ omega arith))
prev_rank_lem (suc n) (suc r) h = inr (
  omega arith,
  prev_lem (suc n) r
      ∙ ap pos (add-mod_right r (suc n) ∙ (mod-eq_of_lt (omega arith) ∙ omega arith)),
)

before :
    (n r : ℕ)
    → r < n
    → (p : ℕ) × (p < n)
      × (get_prev_rank (pos n) (pos r) ≡ pos p)
      × (get_next_rank (pos n) (pos p) ≡ pos r)
before n r h = elim (prev_rank_lem n r h) [
  | inl (e, c) ↦
      (n - 1, omega arith, c, ground (arith, e, h, next_rank_lem n (n - 1) (omega arith)))
  | inr (e, c) ↦
      (r - 1, omega arith, c, ground (arith, e, h, next_rank_lem n (r - 1) (omega arith)))
]

after :
    (n r : ℕ)
    → r < n
    → (q : ℕ) × (q < n)
      × (get_next_rank (pos n) (pos r) ≡ pos q)
      × (get_prev_rank (pos n) (pos q) ≡ pos r)
after n r h = elim (next_rank_lem n r h) [
  | inl (e, c) ↦ (r + 1, e, c, ground (arith, e, h, prev_rank_lem n (r + 1) e))
  | inr (e, c) ↦ (0, omega arith, c, ground (arith, e, h, prev_rank_lem n 0 (omega arith)))
]

-- The channel that `FillChannels` fills at rank `r` and the ones that it fills at the ranks that it
-- names, whatever the channels held: the next rank of the previous one is `r`, and so is the previous rank
-- of the next one. Both are ranks of the ring.
pub fill_channel-mutual :
    (n r : ℕ) (here there : Channel)
    → r < n
    → (p : ℕ) × (q : ℕ) × (p < n)
      × (q < n)
      × ((fill_channel (pos r) (pos n) here).ring.prev ≡ pos p)
      × ((fill_channel (pos r) (pos n) here).ring.next ≡ pos q)
      × ((fill_channel (pos p) (pos n) there).ring.next ≡ pos r)
      × ((fill_channel (pos q) (pos n) there).ring.prev ≡ pos r)
unfolding fill_channel
fill_channel-mutual n r here there h =
    let p = before n r h in let q = after n r h in (p.0, q.0, p.1, q.1, p.2, q.2, p.3, q.3)

-- The rank that `k` hops to the next rank lead to.
abbrev pub hop : ℕ → ℕ → ℤ → ℤ
hop n zero r = r
hop n (suc k) r = hop n k (get_next_rank (pos n) r)

hop_lem : (n k r : ℕ) → r < n → hop n k (pos r) ≡ pos ((r + k) % n)
hop_lem n zero r h = ap pos (sym (ap (λ t. t % n) (add-zero r) ∙ mod-eq_of_lt h))
hop_lem n (suc k) r h =
    ap (hop n k) (next_lem n r)
    ∙ (hop_lem n k ((r + 1) % n) (mod-lt (r + 1) (omega arith))
        ∙ ap pos (mod-add-mod (r + 1) n k ∙ ap (λ t. t % n) (omega arith)))

-- One ring through all ranks: from any rank, fewer than `n` hops to the next rank lead to any other.
pub hop-connected : (n a b : ℕ) → a < n → b < n → (k : ℕ) × (k < n) × (hop n k (pos a) ≡ pos b)
hop-connected n a b h l =
    let k : ℕ = (b + (n - a)) % n in
    (
      k,
      mod-lt (b + (n - a)) (omega arith),
      hop_lem n k a h
          ∙ ap pos (
              add-mod-mod a (b + (n - a)) n
              ∙ (ap (λ t. t % n) (omega arith) ∙ (add-mod_right b n ∙ mod-eq_of_lt l))),
    )
