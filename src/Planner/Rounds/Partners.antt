-- ===== src/Planner/Rounds/Partners.antt =====
-- The rounds pair every send with its receive, and give a rank one partner in each direction.
use native.Mathlib.Nat.{mod-eq_of_lt, mod-eq-sub-mod}
use native.Mathlib.Decide.{dec_lt}
use origin_ccl.Prelude.{
  wrap_cases, ℕ, ◌+◌, ◌-◌, ◌%◌, ◌<◌, ◌≤◌, ◌≡◌, ◌≢◌, ◌↔◌, ◌⊎◌, inl, inr, sym, ◌∙◌, arith,
}
use origin_ccl.Prelude.Int.{pos, ◌+ℤ◌, ◌-ℤ◌, ◌%ℤ◌}
use origin_ccl.Types.{CollFunc}
use origin_ccl.Planner.Rounds.{p2p_round_of}

-- The distance from one rank round the ring to another.
forward_lem :
    (a b ws : ℕ) → a < ws → b < ws → (pos b -ℤ pos a +ℤ pos ws) %ℤ pos ws ≡ pos ((b + ws - a) % ws)
unfolding ◌-ℤ◌ ◌+ℤ◌ ◌%ℤ◌
forward_lem a b ws ha hb = ground arith

-- Between two different ranks the distance is not 0.
pub hop : ℕ → ℕ → ℕ → ℕ
hop a b ws = (b + ws - a) % ws

pub hop_cases :
    (a b ws : ℕ)
    → a < ws
    → b < ws
    → a ≢ b
    → ((a < b) × (hop a b ws + a ≡ b)) ⊎ ((b < a) × (hop a b ws + a ≡ b + ws))
unfolding hop
hop_cases a b ws ha hb ne = elim (dec_lt a b) [
  | yes p ↦ inl (
    p,
    omega (
      arith,
      mod-eq-sub-mod {n = b + ws - a} {m = ws} (omega arith),
      mod-eq_of_lt {n = b + ws - a - ws} {m = ws} (omega arith),
    ),
  )
  | no p ↦ inr (omega arith, omega (arith, mod-eq_of_lt {n = b + ws - a} {m = ws} (omega arith)))
]

sub-pos : (w x : ℕ) → x ≤ w → pos w -ℤ pos x ≡ pos (w - x)
unfolding ◌-ℤ◌
sub-pos w x h = ground arith

pub send_round :
    (a b ws : ℕ)
    → a < ws
    → b < ws
    → p2p_round_of CollFunc.send (pos a) (pos b) (pos ws) ≡ pos (ws - hop a b ws)
unfolding p2p_round_of hop
send_round a b ws ha hb = rw (forward_lem a b ws ha hb) (sub-pos ws _ (omega arith))

pub recv_round :
    (a b ws : ℕ)
    → a < ws
    → b < ws
    → p2p_round_of CollFunc.recv (pos a) (pos b) (pos ws) ≡ pos (ws - hop b a ws)
unfolding p2p_round_of hop
recv_round a b ws ha hb = rw (forward_lem b a ws hb ha) (sub-pos ws _ (omega arith))

-- For ranks `a` and `b` of a communicator of `ws` ranks, a message from `a` to `b` has the same round on
-- both sides. In round `r` a rank sends only to the rank `r` places behind it and receives only from
-- the rank `r` places ahead, round the ring, and `r` lies between 1 and `ws - 1`.
pub round_partner :
    (a b ws r : ℕ)
    → a < ws
    → b < ws
    → a ≢ b
    → (p2p_round_of CollFunc.send (pos a) (pos b) (pos ws)
        ≡ p2p_round_of CollFunc.recv (pos b) (pos a) (pos ws))
      × ((p2p_round_of CollFunc.send (pos a) (pos b) (pos ws) ≡ pos r)
          ↔ ((0 < r) × (r < ws) × (b ≡ (a + ws - r) % ws)))
      × ((p2p_round_of CollFunc.recv (pos a) (pos b) (pos ws) ≡ pos r)
          ↔ ((0 < r) × (r < ws) × (b ≡ (a + r) % ws)))
round_partner a b ws r ha hb ne = (
  send_round a b ws ha hb ∙ sym (recv_round b a ws hb ha),
  ground (arith, send_round a b ws ha hb, hop_cases a b ws ha hb ne, wrap_cases (a + ws - r) ws),
  ground (
    arith,
    recv_round a b ws ha hb,
    hop_cases b a ws hb ha (λ e. ne (sym e)),
    wrap_cases (a + r) ws,
  ),
)
