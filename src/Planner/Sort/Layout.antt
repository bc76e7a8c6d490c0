-- ===== src/Planner/Sort/Layout.antt =====
-- About the two orders of `SortTasks` of src/planner.cpp: which task may stand before another.
use origin_ccl.Prelude.{
  ℕ, ◌≡◌, ◌<◌, ◌≤◌, ◌+◌, ◌⊎◌, inl, inr, ◌==◌, ==→eq, refl, sym, ltb, Bool, true, false, List, [],
  ◌∷◌, All, Bool-cases, arith,
}
use origin_ccl.Prelude.Int.{ℤ, pos_part, neg_part, ltb_ℤ, eqb_ℤ, eqb_ℤ→eq}
use origin_ccl.Prelude.Order.{first_by}
use origin_ccl.Types.{CollTask, CollFunc, func_code, dtype_code}
use origin_ccl.Planner.StableSort.{IsAscending}
use origin_ccl.Planner.Validate.{is_p2p}
use origin_ccl.Planner.Rounds.{p2p_round_of}
use origin_ccl.Planner.Sort.{effective_op, effective_root, task_bytes, collective_less, p2p_less}

-- Less by the first numbers, or equal in these and as `P` says.
abbrev pub Lex : ℕ → ℕ → Type 0 → Type 0
Lex x y P = (x < y) ⊎ ((x ≡ y) × P)

abbrev pub IsAtMost : ℤ → ℤ → Type 0
IsAtMost x y = pos_part x + neg_part y ≤ pos_part y + neg_part x

abbrev pub IsLess : ℤ → ℤ → Type 0
IsLess x y = pos_part x + neg_part y < pos_part y + neg_part x

at_most : (x y : ℤ) → ltb_ℤ y x ≡ false → IsAtMost x y
at_most x y h = ground (arith, h)

is_less : (x y : ℤ) → eqb_ℤ y x ≡ false → ltb_ℤ y x ≡ false → IsLess x y
is_less x y e h = ground (arith, e, h)

-- Whether a collective may stand before another: by function, bytes, type, effective operator and effective root.
abbrev pub MayPrecede : CollTask → CollTask → Type 0
MayPrecede a b = Lex (func_code a.func) (func_code b.func) (
    Lex (task_bytes a) (task_bytes b) (
      Lex (dtype_code a.dtype) (dtype_code b.dtype)
        (Lex (effective_op a) (effective_op b) (IsAtMost (effective_root a) (effective_root b)))))

-- Whether a message may stand before another: its round is before the other's, or it is the same and
-- the first is a send or the second a receive.
abbrev pub MayPrecedeP2p : ℤ → ℤ → CollTask → CollTask → Type 0
MayPrecedeP2p r ws a b =
    let x : ℤ = p2p_round_of a.func r a.peer ws in
    let y : ℤ = p2p_round_of b.func r b.peer ws in
    IsLess x y ⊎ ((x ≡ y) × ((a.func ≡ CollFunc.send) ⊎ (b.func ≡ CollFunc.recv)))

lex_lem :
    (x y : ℕ) (rest : Bool) (P : Type 0)
    → (rest ≡ false → P)
    → first_by y x rest ≡ false
    → Lex x y P
lex_lem x y rest P f h = elim (Bool-cases (y == x)) [
  | inl e ↦ inr (sym (==→eq y x e), f (ground (arith, e, h)))
  | inr e ↦ inl (ground (arith, e, h))
]

pub may_precede : (a b : CollTask) → collective_less b a ≡ false → MayPrecede a b
unfolding collective_less
may_precede a b = lex_lem _ _ _ _ (
    lex_lem _ _ _ _
      (lex_lem _ _ _ _ (lex_lem _ _ _ _ (at_most (effective_root a) (effective_root b)))))

sends_first :
    (f g : CollFunc)
    → is_p2p f ≡ true
    → is_p2p g ≡ true
    → ltb (func_code g) (func_code f) ≡ false
    → (f ≡ CollFunc.send) ⊎ (g ≡ CollFunc.recv)
sends_first CollFunc.send g p q h = inl refl
sends_first CollFunc.recv CollFunc.recv p q h = inr refl
sends_first CollFunc.recv CollFunc.send p q h = absurd (ground (arith, h))
sends_first f g p q h = absurd (ground (arith, p, q))

pub may_precede_p2p :
    (r ws : ℤ) (a b : CollTask)
    → is_p2p a.func ≡ true
    → is_p2p b.func ≡ true
    → p2p_less r ws b a ≡ false
    → MayPrecedeP2p r ws a b
unfolding p2p_less
may_precede_p2p r ws a b p q h =
    let x : ℤ = p2p_round_of a.func r a.peer ws in
    let y : ℤ = p2p_round_of b.func r b.peer ws in
    elim (Bool-cases (eqb_ℤ y x)) [
      | inl e ↦ inr (sym (eqb_ℤ→eq y x e), sends_first a.func b.func p q (ground (arith, e, h)))
      | inr e ↦ inl (is_less x y e (ground (arith, e, h)))
    ]

-- Each element may stand before all that follow it.
abbrev pub IsLaidOut : (CollTask → CollTask → Type 0) → List CollTask → Type 0
IsLaidOut R [] = Unit
IsLaidOut R (t ∷ ts) = All (R t) ts × IsLaidOut R ts

pub IsAscending-IsLaidOut :
    (less : CollTask → CollTask → Bool) (P : CollTask → Type 0) (R : CollTask → CollTask → Type 0)
    (l : List CollTask)
    → ((a b : CollTask) → P a → P b → less b a ≡ false → R a b)
    → All P l
    → IsAscending less l
    → IsLaidOut R l
IsAscending-IsLaidOut less P R [] h ps s = tt
IsAscending-IsLaidOut less P R (t ∷ ts) h ps s =
    (above ts ps.1 s.0, IsAscending-IsLaidOut less P R ts h ps.1 s.1)
  where
    above : (us : List CollTask) → All P us → All (λ u. less u t ≡ false) us → All (R t) us
    above [] qs es = tt
    above (u ∷ us) qs es = (h t u ps.0 qs.0 es.0, above us qs.1 es.1)
