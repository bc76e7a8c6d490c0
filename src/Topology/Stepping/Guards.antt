-- ===== src/Topology/Stepping/Guards.antt =====
-- The guards at the start of a collective.
use origin_ccl.Prelude.{◌≡◌, refl, arith, Bool, true, false, not, ◌&&◌, ◌||◌, if◌then◌else◌}
use origin_ccl.Topology.Stepping.{Run, ok, failed}
use origin_ccl.Topology.Stepping.Loops.{Ends}

-- The guards that every `Init` function of a topology has.
pub guarded-Ends {ℓ} :
    {A : Type ℓ} (P : A → Type 0) (F : Type 0) (bad empty lacks alone unwired : Bool) (x y : A)
    (r : Run A)
    → (bad || (not empty && (lacks || (not alone && unwired))) ≡ true → F)
    → (empty ≡ true → P x)
    → (alone ≡ true → P y)
    → Ends P F r
    → Ends P F (
        if bad
        then failed
        else if empty
        then ok x
        else if lacks
        then failed
        else if alone
        then ok y
        else if unwired
        then failed
        else r)
guarded-Ends P F true empty lacks alone unwired x y r refused p q e = refused refl
guarded-Ends P F false true lacks alone unwired x y r refused p q e = p refl
guarded-Ends P F false false true alone unwired x y r refused p q e = refused refl
guarded-Ends P F false false false true unwired x y r refused p q e = q refl
guarded-Ends P F false false false false true x y r refused p q e = refused refl
guarded-Ends P F false false false false false x y r refused p q e = e

pub guarded-refused {ℓ} :
    {A : Type ℓ} (bad empty lacks alone unwired : Bool) (x y : A) (r : Run A)
    → bad || (not empty && (lacks || (not alone && unwired))) ≡ true
    → (if bad
        then failed
        else if empty
        then ok x
        else if lacks
        then failed
        else if alone
        then ok y
        else if unwired
        then failed
        else r)
      ≡ failed
guarded-refused true empty lacks alone unwired x y r h = refl
guarded-refused false true lacks alone unwired x y r h = absurd (ground (arith, h))
guarded-refused false false true alone unwired x y r h = refl
guarded-refused false false false true unwired x y r h = absurd (ground (arith, h))
guarded-refused false false false false true x y r h = refl
guarded-refused false false false false false x y r h = absurd (ground (arith, h))
