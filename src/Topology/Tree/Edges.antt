-- ===== src/Topology/Tree/Edges.antt =====
-- About the loop over the edges of a side, src/topology/topology_tree.cpp: how far each edge has come.
use origin_ccl.Prelude.{
  ℕ, zero, suc, ◌≡◌, ◌≤◌, ◌+◌, ◌-◌, max, refl, arith, Bool, true, false, not, Option, none, some,
  List, [], ◌∷◌, All, by_test, if◌then◌else◌,
}
use origin_ccl.Topology.Stepping.{Place, Wires}
use origin_ccl.Topology.Stepping.Loops.{Gives, Gives-map}
use origin_ccl.Topology.Tree.{Role}
use origin_ccl.Topology.Tree.Stepping.{Edge, Side, add_edge, push_chunks, push_edges}

-- Roles, transports and the vectors of a side have one element for each edge.
abbrev pub IsFitting : List Role → List (Option ℕ) → Side → Type 0
IsFitting [] [] ([], ([], [])) = Unit
IsFitting (role ∷ roles) (t ∷ ts) (p ∷ ps, (d ∷ ds, c ∷ cs)) = IsFitting roles ts (ps, (ds, cs))
IsFitting roles ts side = ⊥

-- The chunks of the edges before and after a push.
abbrev pub HasMoved : (Role → Bool) → ℕ → Bool → List Role → List ℕ → List ℕ → Type 0
HasMoved eligible bound instant (role ∷ roles) (c ∷ cs) (c' ∷ cs') =
    ((c ≤ c')
      × (c' ≤ max c bound)
      × (eligible role ≡ false → c' ≡ c)
      × (instant ≡ true → eligible role ≡ true → bound ≤ c'))
    × HasMoved eligible bound instant roles cs cs'
HasMoved eligible bound instant [] [] [] = Unit
HasMoved eligible bound instant roles cs cs' = ⊥

module _ (wires : Wires) (F : Type 0) (instant : Bool)
    (try : ℕ → Place → ℕ → ℕ → wires.World → Option (ℕ × (Bool × wires.World))) (bytes : ℕ → ℕ)
    (place : Role → ℕ → ℕ → Place) (after : Role → ℕ → ℕ → wires.World → wires.World)
    (law : (t : ℕ) (place : Place) (size progress : ℕ) (w : wires.World)
      → Gives (λ out. instant ≡ true → out.1.0 ≡ true) F (try t place size progress w)) where
  abbrev IsThrough : ℕ → ℕ → Edge × wires.World → Type 0
  IsThrough c left out =
      (c ≤ out.0.1.1) × (out.0.1.1 ≤ c + left) × (instant ≡ true → c + left ≤ out.0.1.1)

  push_chunks-IsThrough :
      (to : ℕ → Place) (next : ℕ → wires.World → wires.World) (t left p : ℕ) (d : Bool) (c : ℕ)
      (w : wires.World)
      → Gives (IsThrough c left) F (push_chunks wires try bytes to next t left (p, (d, c)) w)
  unfolding push_chunks
  push_chunks-IsThrough to next t zero p d c w = (omega arith, omega arith, λ i. omega arith)
  push_chunks-IsThrough to next t (suc left) p d c w =
      go (try t (to c) (bytes c) (if d then 0 else p) w)
        (law t (to c) (bytes c) (if d then 0 else p) w)
        (λ p' w'. push_chunks-IsThrough to next t left p' true (c + 1) (next c w'))
    where
      go :
          (o : Option (ℕ × (Bool × wires.World)))
          → Gives (λ out. instant ≡ true → out.1.0 ≡ true) F o
          → ((p' : ℕ) (w' : wires.World)
              → Gives
                  (IsThrough (c + 1) left)
                  F
                  (push_chunks wires try bytes to next t left (p', (true, c + 1)) (next c w')))
          → Gives (IsThrough c (suc left)) F (elim o [
            | none ↦ none
            | some (p', (false, w')) ↦ some ((p', (false, c)), w')
            | some (p', (true, w')) ↦
                push_chunks wires try bytes to next t left (p', (true, c + 1)) (next c w')
          ])
      go none h ih = h
      go (some (p', (false, w'))) h ih =
          (omega arith, omega arith, λ i. absurd (ground (arith, h i)))
      go (some (p', (true, w'))) h ih =
          Gives-map (IsThrough (c + 1) left) (IsThrough c (suc left)) F _
            (λ out k. (omega (arith, k.0), omega (arith, k.1), λ i. omega (arith, k.2 i)))
            (ih p' w')

  -- What is known of a side that was pushed from edge `i` on.
  abbrev pub IsPushed :
      (Role → Bool) → ℕ → List Role → List (Option ℕ) → List ℕ → Side × wires.World → Type 0
  IsPushed eligible bound roles ts cs out =
      IsFitting roles ts out.0 × HasMoved eligible bound instant roles cs out.0.1.1

  add_edge-IsPushed :
      (eligible : Role → Bool) (bound : ℕ) (role : Role) (roles : List Role) (t : Option ℕ)
      (ts : List (Option ℕ)) (p : ℕ) (d : Bool) (c c' : ℕ) (cs : List ℕ)
      (o : Option (Side × wires.World))
      → (c ≤ c')
        × (c' ≤ max c bound)
        × (eligible role ≡ false → c' ≡ c)
        × (instant ≡ true → eligible role ≡ true → bound ≤ c')
      → Gives (IsPushed eligible bound roles ts cs) F o
      → Gives (IsPushed eligible bound (role ∷ roles) (t ∷ ts) (c ∷ cs)) F (add_edge (p, (d, c')) o)
  add_edge-IsPushed eligible bound role roles t ts p d c c' cs none m h = h
  add_edge-IsPushed eligible bound role roles t ts p d c c' cs (some ((ps', (ds', cs')), w')) m h =
      (h.0, (m, h.1))

  attempted-IsPushed :
      (eligible : Role → Bool) (bound : ℕ) (role : Role) (roles : List Role) (t : Option ℕ)
      (ts : List (Option ℕ)) (c : ℕ) (cs : List ℕ) (chunks : ℕ → Option (Edge × wires.World))
      (rest : wires.World → Option (Side × wires.World))
      → not (eligible role) ≡ false
      → (t ≡ none → F)
      → ((t' : ℕ) → Gives (IsThrough c (bound - c)) F (chunks t'))
      → ((w : wires.World) → Gives (IsPushed eligible bound roles ts cs) F (rest w))
      → Gives (IsPushed eligible bound (role ∷ roles) (t ∷ ts) (c ∷ cs)) F (elim t [
        | none ↦ none
        | some t' ↦ elim (chunks t') [ none ↦ none | some (e, w') ↦ add_edge e (rest w') ]
      ])
  attempted-IsPushed eligible bound role roles none ts c cs chunks rest e there h k = there refl
  attempted-IsPushed eligible bound role roles (some t) ts c cs chunks rest e there h k =
      go (chunks t) (h t)
    where
      go :
          (o : Option (Edge × wires.World))
          → Gives (IsThrough c (bound - c)) F o
          → Gives
              (IsPushed eligible bound (role ∷ roles) (some t ∷ ts) (c ∷ cs))
              F
              (elim o [ none ↦ none | some (e', w') ↦ add_edge e' (rest w') ])
      go none l = l
      go (some ((p', (d', c')), w')) l =
          add_edge-IsPushed eligible bound role roles (some t) ts p' d' c c' cs (rest w')
            (
              l.0,
              omega (arith, l.1),
              λ f. absurd (ground (arith, e, f)),
              λ i f. omega (arith, l.2 i),
            )
            (k w')

  pub push_edges-IsPushed :
      (eligible : Role → Bool) (bound i : ℕ) (roles : List Role) (ts : List (Option ℕ))
      (ps : List ℕ) (ds : List Bool) (cs : List ℕ) (w : wires.World)
      → All (λ t. t ≡ none → F) ts
      → IsFitting roles ts (ps, (ds, cs))
      → Gives
          (IsPushed eligible bound roles ts cs)
          F
          (push_edges wires try bytes place after eligible bound i roles ts (ps, (ds, cs)) w)
  unfolding push_edges
  push_edges-IsPushed eligible bound i [] [] [] [] [] w there fits = (tt, tt)
  push_edges-IsPushed eligible bound i (role ∷ roles) (t ∷ ts) (p ∷ ps) (d ∷ ds) (c ∷ cs) w there
        fits =
      by_test (Gives (IsPushed eligible bound (role ∷ roles) (t ∷ ts) (c ∷ cs)) F)
        (not (eligible role))
        (λ e.
          add_edge-IsPushed eligible bound role roles t ts p d c c cs _
            (omega arith, omega arith, λ f. refl, λ h f. absurd (ground (arith, e, f)))
            (push_edges-IsPushed eligible bound (i + 1) roles ts ps ds cs w there.1 fits))
        (λ e.
          attempted-IsPushed eligible bound role roles t ts c cs
            (λ t'.
              push_chunks wires try bytes (place role i) (after role i) t' (bound - c) (p, (d, c))
                w)
            (λ w'.
              push_edges wires try bytes place after eligible bound (i + 1) roles ts (ps, (ds, cs))
                w')
            e there.0
            (λ t'. push_chunks-IsThrough (place role i) (after role i) t' (bound - c) p d c w)
            (λ w'. push_edges-IsPushed eligible bound (i + 1) roles ts ps ds cs w' there.1 fits))
  push_edges-IsPushed eligible bound i roles ts ps ds cs w there fits = absurd fits
