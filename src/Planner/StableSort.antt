-- ===== src/Planner/StableSort.antt =====
-- `std::stable_sort` as insertion from the back: an element goes in front of the first one that is not
-- less than it, so equivalent elements keep their order. Its laws, for any comparator.
use mathlib.Core.List.{Perm, Permᴰ, is_set}
use mathlib.Core.List.Perm
use mathlib.Core.Logic.{∥∥₁_elim}
use origin_ccl.Prelude.{
  ◌≡◌, refl, ap, ◌∙◌, Bool, true, false, List, [], ◌∷◌, map, if◌then◌else◌, keep, All, arith,
  Bool-cases, inl, inr,
}
use origin_ccl.Prelude.Order.{IsStrictOrder}

module _ {ℓ} {A : Type ℓ} (less : A → A → Bool) where
  unfoldable pub insert : A → List A → List A
  insert x [] = x ∷ []
  insert x (y ∷ ys) = if less y x then y ∷ insert x ys else x ∷ y ∷ ys

  unfoldable pub stable_sort : List A → List A
  unfolding insert
  stable_sort [] = []
  stable_sort (x ∷ xs) = insert x (stable_sort xs)

  insert-perm : (x : A) (l : List A) → Perm (insert x l) (x ∷ l)
  unfolding insert
  insert-perm x [] = Perm.rfl
  insert-perm x (y ∷ ys) = elim (Bool-cases (less y x)) [
    | inl e ↦ rw (e, insert) (Perm.trans (Perm.cons y (insert-perm x ys)) (Perm.swap x y ys))
    | inr e ↦ rw (e, insert) Perm.rfl
  ]

  -- Nothing is lost and nothing made up.
  pub stable_sort-perm : (l : List A) → Perm (stable_sort l) l
  unfolding stable_sort
  stable_sort-perm [] = Perm.rfl
  stable_sort-perm (x ∷ xs) =
      Perm.trans (insert-perm x (stable_sort xs)) (Perm.cons x (stable_sort-perm xs))

  All-insert : (P : A → Type 0) (x : A) (l : List A) → P x → All P l → All P (insert x l)
  unfolding insert
  All-insert P x [] p q = (p, tt)
  All-insert P x (y ∷ ys) p q = ground (arith, All-insert P x ys p q.1)

  pub All-stable_sort : (P : A → Type 0) (l : List A) → All P l → All P (stable_sort l)
  unfolding stable_sort
  All-stable_sort P [] h = tt
  All-stable_sort P (x ∷ xs) h = All-insert P x (stable_sort xs) h.0 (All-stable_sort P xs h.1)

  -- Elements that the comparator calls equivalent stay in order: those that meet a test `same`, which
  -- holds of no two elements of which one is less than the other.
  module _ (same : A → Bool)
      (flat : (a b : A) → same a ≡ true → same b ≡ true → less a b ≡ false) where
    keep-insert : (x : A) (l : List A) → keep same (insert x l) ≡ keep same (x ∷ l)
    unfolding insert
    keep-insert x [] = refl
    keep-insert x (y ∷ ys) = ground (arith, keep-insert x ys, flat y x)

    pub keep-stable_sort : (l : List A) → keep same (stable_sort l) ≡ keep same l
    unfolding stable_sort
    keep-stable_sort [] = refl
    keep-stable_sort (x ∷ xs) = keep-insert x (stable_sort xs) ∙ ground (arith, keep-stable_sort xs)

-- A comparator that goes by a key sorts the keys.
module _ {ℓ κ} {A : Type ℓ} {K : Type κ} (key : A → K) (less : K → K → Bool) where
  map-insert :
      (x : A) (l : List A)
      → map key (insert (λ a b. less (key a) (key b)) x l) ≡ insert less (key x) (map key l)
  unfolding insert
  map-insert x [] = refl
  map-insert x (y ∷ ys) = ground (arith, map-insert x ys)

  pub map-stable_sort :
      (l : List A)
      → map key (stable_sort (λ a b. less (key a) (key b)) l) ≡ stable_sort less (map key l)
  unfolding stable_sort
  map-stable_sort [] = refl
  map-stable_sort (x ∷ xs) =
      map-insert x (stable_sort (λ a b. less (key a) (key b)) xs)
      ∙ ap (insert less (key x)) (map-stable_sort xs)

-- By a strict order the sorted list does not depend on the order of the input.
module _ {ℓ} {K : Type ℓ} {less : K → K → Bool} (o : IsStrictOrder less) where
  insert_comm :
      (x y : K) (l : List K) → insert less x (insert less y l) ≡ insert less y (insert less x l)
  unfolding insert
  insert_comm x y [] = ground (arith, o.asym x y, o.asym y x, o.total x y)
  insert_comm x y (z ∷ l) =
      ground (arith, insert_comm x y l, o.asym x y, o.total x y, o.trans x y z, o.trans y x z)

  stable_sort-Permᴰ : {l m : List K} → Permᴰ l m → stable_sort less l ≡ stable_sort less m
  unfolding stable_sort
  stable_sort-Permᴰ Permᴰ.nil = refl
  stable_sort-Permᴰ (Permᴰ.cons {b = b} e p) = rw e (ap (insert less b) (stable_sort-Permᴰ p))
  stable_sort-Permᴰ (Permᴰ.swap {a' = c} {b' = d} {l = l} e f) =
      rw (e, f) (insert_comm d c (stable_sort less l))
  stable_sort-Permᴰ (Permᴰ.trans p q) = stable_sort-Permᴰ p ∙ stable_sort-Permᴰ q

  -- By a strict order on a set of keys, the sorted list depends only on which keys there are.
  pub stable_sort-eq_of_perm :
      IsSet K → {l m : List K} → Perm l m → stable_sort less l ≡ stable_sort less m
  stable_sort-eq_of_perm s p = ∥∥₁_elim p (is_set s _ _) stable_sort-Permᴰ

-- No element is less than one that stands before it.
abbrev pub IsAscending {ℓ} : {A : Type ℓ} → (A → A → Bool) → List A → Type 0
IsAscending less [] = Unit
IsAscending less (x ∷ xs) = All (λ y. less y x ≡ false) xs × IsAscending less xs

module _ {ℓ} {A : Type ℓ} {less : A → A → Bool}
    (asym : (a b : A) → less a b ≡ true → less b a ≡ false)
    (trans : (a b c : A) → less b a ≡ false → less c b ≡ false → less c a ≡ false) where
  All-above :
      (x y : A) (l : List A)
      → less y x ≡ false
      → All (λ z. less z y ≡ false) l
      → All (λ z. less z x ≡ false) l
  All-above x y [] h q = tt
  All-above x y (z ∷ l) h q = (trans x y z h q.0, All-above x y l h q.1)

  insert-IsAscending :
      (x : A) (l : List A) → IsAscending less l → IsAscending less (insert less x l)
  unfolding insert
  insert-IsAscending x [] s = (tt, tt)
  insert-IsAscending x (y ∷ ys) s = elim (Bool-cases (less y x)) [
    | inl e ↦
        rw (e, insert)
          (
            All-insert less (λ z. less z y ≡ false) x ys (asym y x e) s.0,
            insert-IsAscending x ys s.1,
          )
    | inr e ↦ rw (e, insert) ((e, All-above x y ys e s.0), s)
  ]

  pub stable_sort-IsAscending : (l : List A) → IsAscending less (stable_sort less l)
  unfolding stable_sort
  stable_sort-IsAscending [] = tt
  stable_sort-IsAscending (x ∷ xs) = insert-IsAscending x _ (stable_sort-IsAscending xs)
