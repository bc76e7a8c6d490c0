-- ===== src/Topology/Stepping/Loops.antt =====
-- Loops run by `turns`: what is known of a turn, and of a call.
use origin_ccl.Prelude.{ℕ, zero, suc, ◌<◌, ◌≡◌, refl, subst, arith, Option, none, some}
use origin_ccl.Topology.Stepping.{
  Run, ok, failed, endless, ◌>>=◌, Turn, then_again, finish, after_turn, turns,
}

-- What is known of a turn that starts with measure `n`. `F` says what a failure means: a type without
-- elements where there can be none.
abbrev pub After {ℓ} :
    {A : Type ℓ} → (A → Type 0) → (A → Type 0) → Type 0 → (A → ℕ) → ℕ → Turn A → Type 0
After P Q F m n (Turn.stop b) = Q b
After P Q F m n (Turn.again b) = P b × (m b < n)
After P Q F m n Turn.fail = F

-- What is known of a call: it is not endless.
abbrev pub Ends {ℓ} : {A : Type ℓ} → (A → Type 0) → Type 0 → Run A → Type 0
Ends Q F (ok b) = Q b
Ends Q F failed = F
Ends Q F endless = ⊥

abbrev pub Gives {ℓ} : {A : Type ℓ} → (A → Type 0) → Type 0 → Option A → Type 0
Gives Q F (some b) = Q b
Gives Q F none = F

pub Gives-map {ℓ} :
    {A : Type ℓ} (P Q : A → Type 0) (F : Type 0) (o : Option A)
    → ((a : A) → P a → Q a)
    → Gives P F o
    → Gives Q F o
Gives-map P Q F none f h = h
Gives-map P Q F (some a) f h = f a h

pub then_again-After {ℓ} :
    {A : Type ℓ} (P Q : A → Type 0) (F : Type 0) (m : A → ℕ) (n : ℕ) (o : Option A)
    → Gives (λ b. P b × (m b < n)) F o
    → After P Q F m n (then_again o)
then_again-After P Q F m n none h = h
then_again-After P Q F m n (some a) h = h

pub finish-Ends {ℓ} :
    {A : Type ℓ} (Q : A → Type 0) (F : Type 0) (o : Option A) → Gives Q F o → Ends Q F (finish o)
finish-Ends Q F none h = h
finish-Ends Q F (some a) h = h

pub >>=-Ends {ℓ κ} :
    {A : Type ℓ} {B : Type κ} (P : A → Type 0) (Q : B → Type 0) (F : Type 0) (r : Run A)
    (f : A → Run B)
    → Ends P F r
    → ((a : A) → P a → Ends Q F (f a))
    → Ends Q F (r >>= f)
>>=-Ends P Q F (ok a) f h k = k a h
>>=-Ends P Q F failed f h k = h
>>=-Ends P Q F endless f h k = absurd h

after_turn-Ends {ℓ} :
    {A : Type ℓ} (P Q : A → Type 0) (F : Type 0) (m : A → ℕ) (n : ℕ) (on : A → Run A) (t : Turn A)
    → After P Q F m n t
    → ((b : A) → P b → m b < n → Ends Q F (on b))
    → Ends Q F (after_turn on t)
after_turn-Ends P Q F m n on (Turn.stop b) h k = h
after_turn-Ends P Q F m n on (Turn.again b) h k = k b h.0 h.1
after_turn-Ends P Q F m n on Turn.fail h k = h

pub turns-Ends {ℓ} :
    {A : Type ℓ} (P Q : A → Type 0) (F : Type 0) (m : A → ℕ) (body : A → Turn A)
    → ((a : A) → P a → After P Q F m (m a) (body a))
    → (fuel : ℕ) (a : A) → m a < fuel
    → P a
    → Ends Q F (turns fuel body a)
unfolding turns
turns-Ends P Q F m body keep zero a h p = absurd (omega arith)
turns-Ends P Q F m body keep (suc fuel) a h p =
    after_turn-Ends P Q F m (m a) (turns fuel body) (body a) (keep a p)
      (λ b q l. turns-Ends P Q F m body keep fuel b (omega arith) q)

pub Ends-map {ℓ} :
    {A : Type ℓ} (P Q : A → Type 0) (F : Type 0) (r : Run A)
    → ((a : A) → P a → Q a)
    → Ends P F r
    → Ends Q F r
Ends-map P Q F (ok a) f h = f a h
Ends-map P Q F failed f h = h
Ends-map P Q F endless f h = absurd h

pub Ends-ok {ℓ} :
    {A : Type ℓ} (Q : A → Type 0) (r : Run A) → Ends Q ⊥ r → (a : A) × (r ≡ ok a) × Q a
Ends-ok Q (ok a) h = (a, refl, h)
Ends-ok Q failed h = absurd h
Ends-ok Q endless h = absurd h

pub Ends-returns {ℓ} :
    {A : Type ℓ} (Q : A → Type 0) (F : Type 0) (r : Run A) → Ends Q F r → ¬ (r ≡ endless)
Ends-returns Q F r h e = subst (Ends Q F) e h

-- What is known of a call that returned.
pub Ends-at {ℓ} :
    {A : Type ℓ} (Q : A → Type 0) (F : Type 0) (r : Run A) (a : A) → r ≡ ok a → Ends Q F r → Q a
Ends-at Q F r a e h = subst (Ends Q F) e h

pub Ends-fails {ℓ} :
    {A : Type ℓ} (Q : A → Type 0) (F : Type 0) (r : Run A) → r ≡ failed → Ends Q F r → F
Ends-fails Q F r e h = subst (Ends Q F) e h
