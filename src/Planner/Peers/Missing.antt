-- ===== src/Planner/Peers/Missing.antt =====
-- The peers that `PrepareRound` of src/planner.cpp connects: those of the messages of a round that are not
-- empty, sorted, each once, less those that have a transport.
use origin_ccl.Prelude.{
  ◌≡◌, refl, ap, ◌∙◌, arith, Bool, true, false, not, ◌&&◌, ◌||◌, List, [], ◌∷◌, All, All-map, keep,
  ◌==◌, if◌then◌else◌, by_test,
}
use origin_ccl.Prelude.Int.{ℤ, ltb_ℤ, eqb_ℤ, eqb_ℤ→eq}
use origin_ccl.Prelude.Order.{ltb_ℤ-IsStrictOrder}
use origin_ccl.Types.{CollTask, Connector}
use origin_ccl.Channels.{at_index}
use origin_ccl.Planner.StableSort.{insert, stable_sort, IsAscending, stable_sort-IsAscending}
use origin_ccl.Planner.Validate.{is_null}
use origin_ccl.Topology.P2p.{slot_transport}

abbrev pub peers_of : List CollTask → List ℤ
peers_of [] = []
peers_of (task ∷ tasks) = if task.count == 0 then peers_of tasks else task.peer ∷ peers_of tasks

-- `std::unique`: what is equal to the element before it goes.
abbrev pub unique_after : ℤ → List ℤ → List ℤ
unique_after x [] = []
unique_after x (y ∷ ys) = let rest = unique_after y ys in if eqb_ℤ x y then rest else y ∷ rest

abbrev pub unique : List ℤ → List ℤ
unique [] = []
unique (x ∷ xs) = x ∷ unique_after x xs

-- A peer past the end of the slots, which validation rules out, reads as one with an empty slot.
abbrev pub is_missing : List Connector → ℤ → Bool
is_missing connectors peer = is_null (slot_transport (at_index connectors peer))

unfoldable pub missing_peers : List CollTask → List Connector → List ℤ
missing_peers tasks connectors =
    keep (is_missing connectors) (unique (stable_sort ltb_ℤ (peers_of tasks)))

abbrev pub has : ℤ → List ℤ → Bool
has x [] = false
has x (y ∷ ys) = eqb_ℤ x y || has x ys

-- Whether one of the messages goes to, or comes from, a peer and is not empty.
abbrev pub wants : ℤ → List CollTask → Bool
wants x [] = false
wants x (t ∷ ts) = (not (t.count == 0) && eqb_ℤ x t.peer) || wants x ts

abbrev pub IsIncreasing : List ℤ → Type 0
IsIncreasing [] = Unit
IsIncreasing (x ∷ xs) = All (λ y. ltb_ℤ x y ≡ true) xs × IsIncreasing xs

has-peers_of : (x : ℤ) (ts : List CollTask) → has x (peers_of ts) ≡ wants x ts
has-peers_of x [] = refl
has-peers_of x (t ∷ ts) = ground (arith, has-peers_of x ts)

has-insert : (x y : ℤ) (l : List ℤ) → has x (insert ltb_ℤ y l) ≡ (eqb_ℤ x y || has x l)
unfolding insert
has-insert x y [] = refl
has-insert x y (z ∷ l) = ground (arith, has-insert x y l)

has-stable_sort : (x : ℤ) (l : List ℤ) → has x (stable_sort ltb_ℤ l) ≡ has x l
unfolding stable_sort
has-stable_sort x [] = refl
has-stable_sort x (y ∷ l) =
    has-insert x y (stable_sort ltb_ℤ l) ∙ ap (λ b. eqb_ℤ x y || b) (has-stable_sort x l)

has-unique_after :
    (x z : ℤ) (l : List ℤ) → (eqb_ℤ x z || has x (unique_after z l)) ≡ (eqb_ℤ x z || has x l)
has-unique_after x z [] = refl
has-unique_after x z (y ∷ l) = ground (arith, has-unique_after x y l)

has-unique : (x : ℤ) (l : List ℤ) → has x (unique l) ≡ has x l
has-unique x [] = refl
has-unique x (y ∷ l) = has-unique_after x y l

has-keep : (p : ℤ → Bool) (x : ℤ) (l : List ℤ) → has x (keep p l) ≡ (has x l && p x)
has-keep p x [] = refl
has-keep p x (y ∷ l) =
    let same : eqb_ℤ x y ≡ true → p x ≡ p y = λ e. ap p (eqb_ℤ→eq x y e) in
    ground (arith, has-keep p x l, same)

unique_after-IsIncreasing :
    (x : ℤ) (l : List ℤ)
    → All (λ y. ltb_ℤ y x ≡ false) l
    → IsAscending ltb_ℤ l
    → All (λ y. ltb_ℤ x y ≡ true) (unique_after x l) × IsIncreasing (unique_after x l)
unique_after-IsIncreasing x [] a s = (tt, tt)
unique_after-IsIncreasing x (y ∷ l) a s =
    let ih = unique_after-IsIncreasing y l s.0 s.1 in
    by_test (λ k. All (λ z. ltb_ℤ x z ≡ true) k × IsIncreasing k) (eqb_ℤ x y)
      (λ e. (All-map (unique_after y l) (λ z h. ground (arith, e, h)) ih.0, ih.1))
      (λ e. (
        (ground (arith, a.0, e), All-map (unique_after y l) (λ z h. ground (arith, a.0, h)) ih.0),
        (ih.0, ih.1),
      ))

unique-IsIncreasing : (l : List ℤ) → IsAscending ltb_ℤ l → IsIncreasing (unique l)
unique-IsIncreasing [] s = tt
unique-IsIncreasing (x ∷ l) s = unique_after-IsIncreasing x l s.0 s.1

All-keep_of : (P : ℤ → Type 0) (p : ℤ → Bool) (l : List ℤ) → All P l → All P (keep p l)
All-keep_of P p [] a = tt
All-keep_of P p (y ∷ l) a =
    by_test (All P) (p y) (λ e. (a.0, All-keep_of P p l a.1)) (λ e. All-keep_of P p l a.1)

keep-IsIncreasing : (p : ℤ → Bool) (l : List ℤ) → IsIncreasing l → IsIncreasing (keep p l)
keep-IsIncreasing p [] s = tt
keep-IsIncreasing p (y ∷ l) s =
    by_test IsIncreasing (p y) (λ e. (All-keep_of _ p l s.0, keep-IsIncreasing p l s.1))
      (λ e. keep-IsIncreasing p l s.1)

-- The peers that a round connects in one direction are in ascending order, each once, and they are
-- exactly the peers of a message that is not empty to which there is no transport yet.
pub missing_peers_lem :
    (tasks : List CollTask) (connectors : List Connector)
    → IsIncreasing (missing_peers tasks connectors)
      × ((peer : ℤ)
          → has peer (missing_peers tasks connectors)
            ≡ (wants peer tasks && is_missing connectors peer))
unfolding missing_peers
missing_peers_lem tasks connectors =
    let sorted : List ℤ = stable_sort ltb_ℤ (peers_of tasks) in
    (
      keep-IsIncreasing (is_missing connectors) (unique sorted) (
          unique-IsIncreasing sorted (
            stable_sort-IsAscending ltb_ℤ-IsStrictOrder.asym ltb_ℤ-IsStrictOrder.trans
              (peers_of tasks))),
      λ peer.
          has-keep (is_missing connectors) peer (unique sorted)
          ∙ ap (λ b. b && is_missing connectors peer)
              (has-unique peer sorted
                ∙ (has-stable_sort peer (peers_of tasks) ∙ has-peers_of peer tasks)),
    )
