-- ===== src/Dag/Order.antt =====
-- What `topological_sort` returns and raises.
use auto_workflow.Base.{
  suc, ◌≤◌, ◌≡◌, ◌≢◌, ◌∙◌, ◌⊎◌, ap, inl, inr, Bool-cases, Bool-ext, true, false, not, ◌&&◌, List,
  [], ◌∷◌, Str, eq_iff, length, all, mem, nodup, mem-sorted, nodup-sorted, length-le_of_subset,
  length-map, not_all, mem_of_all, sorted, IsSorted, sorted-IsSorted, Subset, Dict, keys, arith, ℤ,
  is_zero, is_positive,
}
use auto_workflow.Exceptions.{cycle_detected, ok, raise, ◌>>=◌}
use auto_workflow.Dag.{Dag, Node, kahn, in_degrees, names_where, check_order, topological_sort}
use auto_workflow.Dag.Edges.{up, IsConsistent}
use auto_workflow.Dag.Kahn.{waiting-pos, Follows, IsLeast, Inv}
use auto_workflow.Dag.Loop.{kahn_ends, Inv-start, nodup-names_where, mem-names_where}

-- All nodes once, each behind its upstream nodes, and the smallest name first where several may
-- stand.
pub record IsOrder (d : Dag) (order : List Str) : Type 0 where
  pub distinct : nodup order ≡ true
  pub complete : (n : Str) → mem n order ≡ mem n (keys d)
  pub ordered : Follows d [] order
  pub smallest : IsLeast d [] order

-- The nodes that no order can place: once each, in order of their names, all nodes but those of a
-- front part that is in order, and each behind another one of them.
pub record IsBlocked (d : Dag) (names : List Str) : Type 0 where
  pub inhabited : names ≢ []
  pub ascending : IsSorted names
  pub distinct : nodup names ≡ true
  pub front : List Str
  pub ordered : Follows d [] front
  pub others : (n : Str) → mem n names ≡ (mem n (keys d) && not (mem n front))
  pub blocked :
      (n : Str) → mem n names ≡ true → (u : Str) × (mem u (up d n) ≡ true) × (mem u names ≡ true)

module _ (d : Dag) (consistent : IsConsistent d) (deg : Dict ℤ) (order : List Str)
    (last : Inv d consistent deg [] order) where
  remaining : List Str
  remaining = sorted (names_where is_positive deg)

  mem-remaining : (n : Str) → mem n remaining ≡ (mem n (keys d) && not (mem n order))
  unfolding remaining mem
  mem-remaining n = ground (
    arith,
    mem-sorted n (names_where is_positive deg),
    mem-names_where is_positive n deg last.deg_distinct,
    last.untracked n,
    last.degrees n,
    last.queued n,
    last.closed n,
  )

  -- The order holds every node, or misses one.
  order_or_missing :
      Subset (keys d) order ⊎ ((n : Str) × (mem n (keys d) ≡ true) × (mem n order ≡ false))
  order_or_missing = elim (Bool-cases (all (λ n. mem n order) (keys d))) [
    | inl every ↦ inl (λ n m. mem_of_all (λ k. mem k order) (keys d) n every m)
    | inr some_not ↦ inr (not_all (λ k. mem k order) (keys d) some_not)
  ]

  length-order-le : length order ≤ length (keys d)
  length-order-le = length-le_of_subset order (keys d) last.order_distinct last.known

  full-IsOrder : Subset (keys d) order → IsOrder d order
  full-IsOrder h = record {
    distinct = last.order_distinct;
    complete = λ n. Bool-ext _ _ (last.known n) (h n);
    ordered = last.ordered;
    smallest = last.smallest;
  }

  short-IsBlocked : (n : Str) → mem n (keys d) ≡ true → mem n order ≡ false → IsBlocked d remaining
  unfolding mem
  short-IsBlocked n k a = record {
    inhabited = λ e. absurd (not_empty (rw e at (mem-remaining n)));
    ascending = unfold remaining in sorted-IsSorted _;
    distinct =
        unfold remaining in (nodup-sorted _ ∙ nodup-names_where is_positive deg last.deg_distinct);
    front = order;
    ordered = last.ordered;
    others = mem-remaining;
    blocked = λ m h.
        let (u, awaited, new) =
          waiting-pos order (up d m) (λ z. ground (arith, mem-remaining m, last.queued m)) in
        (u, awaited, ground (arith, mem-remaining u, consistent.up_known u m awaited));
  }
    where
      not_empty : false ≡ (mem n (keys d) && not (mem n order)) → ⊥
      not_empty e = ground arith

  missing-lt :
      (n : Str) → mem n (keys d) ≡ true → mem n order ≡ false → suc (length order) ≤ length (keys d)
  unfolding mem nodup
  missing-lt n k a =
      length-le_of_subset (n ∷ order) (keys d) (ground (arith, last.order_distinct))
        (λ m h. ground (arith, last.known m, eq_iff m n))

topological_sort_of_kahn :
    (d : Dag) (order : List Str) (deg : Dict ℤ)
    → kahn (length d) d (in_degrees d) (sorted (names_where is_zero (in_degrees d))) []
      ≡ ok (order, deg)
    → topological_sort d ≡ check_order d (order, deg)
unfolding topological_sort
topological_sort_of_kahn d order deg e = ap (λ r. r >>= check_order d) e

check_order_full :
    (d : Dag) (order : List Str) (deg : Dict ℤ)
    → length order ≡ length d
    → check_order d (order, deg) ≡ ok order
unfolding check_order
check_order_full d order deg h = ground arith

check_order_short :
    (d : Dag) (order : List Str) (deg : Dict ℤ)
    → length order ≢ length d
    → check_order d (order, deg) ≡ raise (cycle_detected (sorted (names_where is_positive deg)))
unfolding check_order
check_order_short d order deg h = ground arith

-- On a consistent graph topological_sort either returns all nodes, each once, behind its upstream
-- nodes and with the smallest available name first, or raises CycleDetectedError with sorted,
-- distinct nodes that wait for one another; it raises nothing else and the bound on its rounds is
-- enough.
pub topological_sort_cases :
    (d : Dag)
    → IsConsistent d
    → ((order : List Str) × (topological_sort d ≡ ok order) × IsOrder d order)
      ⊎ ((names : List Str) × (topological_sort d ≡ raise (cycle_detected names))
          × IsBlocked d names)
unfolding remaining
topological_sort_cases d consistent =
    let sizes = length-map (λ (e : Str × Node). e.0) d in
    let (order, deg, ends, last) =
      kahn_ends d consistent (length d) (in_degrees d) (sorted (names_where is_zero (in_degrees d)))
        [] (Inv-start d consistent) (omega arith) in
    elim (order_or_missing d consistent deg order last) [
      | inl every ↦ inl (
        order,
        topological_sort_of_kahn d order deg ends
            ∙ check_order_full d order deg (
                omega (
                  arith,
                  length-order-le d consistent deg order last,
                  length-le_of_subset (keys d) order consistent.distinct every,
                )),
        full-IsOrder d consistent deg order last every,
      )
      | inr (n, k, a) ↦ inr (
        remaining d consistent deg order last,
        topological_sort_of_kahn d order deg ends
            ∙ check_order_short d order deg
                (omega (arith, missing-lt d consistent deg order last n k a)),
        short-IsBlocked d consistent deg order last n k a,
      )
    ]
