-- ===== src/Planner/Sort/Agreement.antt =====
-- What `SortTasks` does to a batch, on one rank and across ranks.
use mathlib.Core.List.{Perm}
use native.Mathlib.Nat.{ℕ_set}
use origin_ccl.Prelude.{
  ℕ, ◌≡◌, sym, ◌∙◌, Bool, true, false, not, ◌&&◌, some, List, [], ◌∷◌, ◌++◌, map, keep, keep-append,
  keep-All, keep_none, keep-keep, All-keep, All-map, append-nil, arith, Option-cases, inl, inr,
}
use origin_ccl.Prelude.Int.{ℤ, ltb_ℤ, eqb_ℤ, eqb_ℤ→eq}
use origin_ccl.Prelude.Order.{
  IsStrictOrder, first_by, first_by-IsStrictOrder, ltb_ℤ-IsStrictOrder, first_by_ℤ-asym,
  first_by_ℤ-trans, first_by_ℤ_flat,
}
use origin_ccl.Types.{CollTask, CollFunc, func_code, dtype_code}
use origin_ccl.Planner.StableSort.{
  stable_sort, stable_sort-perm, All-stable_sort, keep-stable_sort, map-stable_sort,
  stable_sort-eq_of_perm, IsAscending, stable_sort-IsAscending,
}
use origin_ccl.Planner.Validate.{is_p2p, ◌is◌}
use origin_ccl.Planner.Rounds.{p2p_round_of}
use origin_ccl.Planner.Sort.{
  effective_op, effective_root, task_bytes, collective_less, p2p_less, split_tasks, sort_tasks,
}
use origin_ccl.Planner.Sort.Layout.{
  MayPrecede, MayPrecedeP2p, may_precede, may_precede_p2p, IsLaidOut, IsAscending-IsLaidOut,
}

-- What the ranks have to agree on: everything that the comparator reads.
abbrev pub Key : Type 0
Key = ℕ × (ℕ × (ℕ × (ℕ × ℤ)))

abbrev pub key : CollTask → Key
key t = (func_code t.func, (task_bytes t, (dtype_code t.dtype, (effective_op t, effective_root t))))

abbrev key_less : Key → Key → Bool
key_less a b = first_by a.0 b.0 (
    first_by a.1.0 b.1.0
      (first_by a.1.1.0 b.1.1.0 (first_by a.1.1.1.0 b.1.1.1.0 (ltb_ℤ a.1.1.1.1 b.1.1.1.1))))

key_less-IsStrictOrder : IsStrictOrder key_less
key_less-IsStrictOrder =
    first_by-IsStrictOrder
      (first_by-IsStrictOrder (first_by-IsStrictOrder (first_by-IsStrictOrder ltb_ℤ-IsStrictOrder)))

Key-set : IsSet Key
Key-set = hlevel ℕ_set

abbrev pub collectives_of : List CollTask → List CollTask
collectives_of = keep (λ t. not (is_p2p t.func))

abbrev pub p2p_of : List CollTask → List CollTask
p2p_of = keep (λ t. is_p2p t.func)

map-collective_sort :
    (l : List CollTask) → map key (stable_sort collective_less l) ≡ stable_sort key_less (map key l)
unfolding collective_less
map-collective_sort l = map-stable_sort key key_less l

split_tasks_lem :
    (ts c p : List CollTask) (r ws : ℤ)
    → split_tasks ts r ws ≡ some (c, p)
    → (c ≡ collectives_of ts) × (p ≡ p2p_of ts)
unfolding split_tasks
split_tasks_lem [] c p r ws h = (cc, cc)
split_tasks_lem (t ∷ ts) c p r ws h = elim (Option-cases (split_tasks ts r ws)) [
  | inl e ↦ ground arith
  | inr (a, e) ↦ ground (arith, split_tasks_lem ts a.0 a.1 r ws e)
]

-- A successful call, taken apart.
sort_tasks_parts :
    (ts us : List CollTask) (r ws : ℤ)
    → sort_tasks ts r ws ≡ some us
    → us
      ≡ stable_sort collective_less (collectives_of ts) ++ stable_sort (p2p_less r ws) (p2p_of ts)
unfolding sort_tasks
sort_tasks_parts ts us r ws h = elim (Option-cases (split_tasks ts r ws)) [
  | inl e ↦ ground arith
  | inr (a, e) ↦ ground (arith, split_tasks_lem ts a.0 a.1 r ws e)
]

p2p_less-asym : (r ws : ℤ) (a b : CollTask) → p2p_less r ws a b ≡ true → p2p_less r ws b a ≡ false
unfolding p2p_less
p2p_less-asym r ws a b =
    first_by_ℤ-asym (p2p_round_of a.func r a.peer ws) (p2p_round_of b.func r b.peer ws)
      (func_code a.func) (func_code b.func)

p2p_less_trans :
    (r ws : ℤ) (a b c : CollTask)
    → p2p_less r ws b a ≡ false
    → p2p_less r ws c b ≡ false
    → p2p_less r ws c a ≡ false
unfolding p2p_less
p2p_less_trans r ws a b c =
    first_by_ℤ-trans (p2p_round_of a.func r a.peer ws) (p2p_round_of b.func r b.peer ws)
      (p2p_round_of c.func r c.peer ws) (func_code a.func) (func_code b.func) (func_code c.func)

collective_sort-IsAscending :
    (l : List CollTask) → IsAscending collective_less (stable_sort collective_less l)
unfolding collective_less
collective_sort-IsAscending l =
    stable_sort-IsAscending (λ a b. key_less-IsStrictOrder.asym (key a) (key b))
      (λ a b c. key_less-IsStrictOrder.trans (key a) (key b) (key c)) l

-- How a sorted batch is laid out.
pub record IsOrdered (r ws : ℤ) (ts us : List CollTask) : Type 0 where
  pub collectives : List CollTask
  pub p2p : List CollTask
  pub layout : us ≡ collectives ++ p2p
  pub collectives_perm : Perm collectives (collectives_of ts)
  pub p2p_perm : Perm p2p (p2p_of ts)
  pub collectives_ascend : IsLaidOut MayPrecede collectives
  pub p2p_ascend : IsLaidOut (MayPrecedeP2p r ws) p2p

-- What `SortTasks` leaves on success: the collectives of the batch in ascending order of function, bytes,
-- type, effective operator and effective root, then its point-to-point tasks in ascending order of
-- round with the sends of a round before its receives; each part has exactly the tasks of its kind that were given.
pub sort_tasks-IsOrdered :
    (ts us : List CollTask) (r ws : ℤ) → sort_tasks ts r ws ≡ some us → IsOrdered r ws ts us
sort_tasks-IsOrdered ts us r ws h = record {
  collectives = stable_sort collective_less (collectives_of ts);
  p2p = stable_sort (p2p_less r ws) (p2p_of ts);
  layout = sort_tasks_parts ts us r ws h;
  collectives_perm = stable_sort-perm collective_less (collectives_of ts);
  p2p_perm = stable_sort-perm (p2p_less r ws) (p2p_of ts);
  collectives_ascend =
      IsAscending-IsLaidOut collective_less (λ t. not (is_p2p t.func) ≡ true) MayPrecede
        (stable_sort collective_less (collectives_of ts)) (λ a b p q. may_precede a b)
        (All-stable_sort collective_less (λ t. not (is_p2p t.func) ≡ true) (collectives_of ts)
          (All-keep _ ts))
        (collective_sort-IsAscending (collectives_of ts));
  p2p_ascend =
      IsAscending-IsLaidOut (p2p_less r ws) (λ t. is_p2p t.func ≡ true) (MayPrecedeP2p r ws)
        (stable_sort (p2p_less r ws) (p2p_of ts)) (may_precede_p2p r ws)
        (All-stable_sort (p2p_less r ws) (λ t. is_p2p t.func ≡ true) (p2p_of ts) (All-keep _ ts))
        (stable_sort-IsAscending (p2p_less-asym r ws) (p2p_less_trans r ws) (p2p_of ts));
}

-- Nothing of a sorted batch's collectives is point-to-point, and nothing of its p2p part is not.
collectives_of-sorted :
    (ts us : List CollTask) (r ws : ℤ)
    → sort_tasks ts r ws ≡ some us
    → collectives_of us ≡ stable_sort collective_less (collectives_of ts)
collectives_of-sorted ts us r ws h =
    rw (sort_tasks_parts ts us r ws h, keep-append, first, second)
      (append-nil (stable_sort collective_less (collectives_of ts)))
  where
    sorted_collectives : List CollTask
    sorted_collectives = stable_sort collective_less (collectives_of ts)

    sorted_p2p : List CollTask
    sorted_p2p = stable_sort (p2p_less r ws) (p2p_of ts)

    first : collectives_of sorted_collectives ≡ sorted_collectives
    first = keep-All _ sorted_collectives (
        All-stable_sort collective_less (λ t. not (is_p2p t.func) ≡ true) (collectives_of ts)
          (All-keep _ ts))

    second : collectives_of sorted_p2p ≡ []
    second = keep_none _ sorted_p2p (
        All-stable_sort (p2p_less r ws) (λ t. not (is_p2p t.func) ≡ false) (p2p_of ts)
          (All-map (p2p_of ts) (λ t h. ground arith) (All-keep _ ts)))

-- Ranks that issue the same collectives, by what the comparator reads of them, in whatever order, plan
-- them in the same order: after successful calls on two ranks, the collectives of the two batches agree
-- position by position in function, bytes, type, effective operator and effective root.
pub sort_tasks-agree :
    (ts us ts' us' : List CollTask) (r q ws : ℤ)
    → sort_tasks ts r ws ≡ some ts'
    → sort_tasks us q ws ≡ some us'
    → Perm (map key (collectives_of ts)) (map key (collectives_of us))
    → map key (collectives_of ts') ≡ map key (collectives_of us')
sort_tasks-agree ts us ts' us' r q ws h k p =
    rw (collectives_of-sorted ts ts' r ws h, collectives_of-sorted us us' q ws k)
      (map-collective_sort (collectives_of ts)
        ∙ stable_sort-eq_of_perm key_less-IsStrictOrder Key-set p
        ∙ sym (map-collective_sort (collectives_of us)))

-- The tasks that send to, or receive from, one peer.
abbrev pub toward : CollFunc → ℤ → CollTask → Bool
toward f peer t = t.func is f && eqb_ℤ t.peer peer

toward-p2p :
    (f : CollFunc) (peer : ℤ) (t : CollTask)
    → is_p2p f ≡ true
    → toward f peer t ≡ true
    → is_p2p t.func ≡ true
toward-p2p f peer t m h = ground arith

toward-eq :
    (f : CollFunc) (peer : ℤ) (t : CollTask)
    → is_p2p f ≡ true
    → toward f peer t ≡ true
    → (t.func ≡ f) × (t.peer ≡ peer)
toward-eq f peer t m h = ground (arith, eqb_ℤ→eq t.peer peer)

toward_flat :
    (f : CollFunc) (peer r ws : ℤ) (a b : CollTask)
    → is_p2p f ≡ true
    → toward f peer a ≡ true
    → toward f peer b ≡ true
    → p2p_less r ws a b ≡ false
unfolding p2p_less
toward_flat f peer r ws a b m h k =
    let (fa, pa) = toward-eq f peer a m h in
    let (fb, pb) = toward-eq f peer b m k in
    first_by_ℤ_flat (p2p_round_of a.func r a.peer ws) (p2p_round_of b.func r b.peer ws)
      (func_code a.func) (func_code b.func) (cc) (cc)

-- After a successful call, the tasks that send to one peer stand in the order in which they were
-- submitted, and so do those that receive from one peer.
pub sort_tasks-fifo :
    (f : CollFunc) (peer : ℤ) (ts us : List CollTask) (r ws : ℤ)
    → is_p2p f ≡ true
    → sort_tasks ts r ws ≡ some us
    → keep (toward f peer) us ≡ keep (toward f peer) ts
sort_tasks-fifo f peer ts us r ws m h =
    rw (sort_tasks_parts ts us r ws h, keep-append, none_first)
      (keep-stable_sort (p2p_less r ws) (toward f peer) (λ a b. toward_flat f peer r ws a b m)
          (p2p_of ts)
        ∙ keep-keep (λ t. is_p2p t.func) (toward f peer) ts (λ t. toward-p2p f peer t m))
  where
    none_first : keep (toward f peer) (stable_sort collective_less (collectives_of ts)) ≡ []
    none_first = keep_none _ (stable_sort collective_less (collectives_of ts)) (
        All-stable_sort collective_less (λ t. toward f peer t ≡ false) (collectives_of ts)
          (All-map (collectives_of ts) (λ t e. ground (arith, toward-p2p f peer t m))
            (All-keep _ ts)))
