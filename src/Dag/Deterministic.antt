-- ===== src/Dag/Deterministic.antt =====
-- The order depends on the nodes and the edges alone, and a graph with no cycle has one.
use auto_workflow.Base.{
  ℕ, zero, suc, ◌<◌, ◌≡◌, ◌≢◌, ◌∙◌, ◌⊎◌, refl, ap, ap₂, sym, inl, inr, Bool-ext, true, false, not,
  ◌&&◌, List, [], ◌∷◌, ◌++◌, Str, eq_iff, str_le, str_le_antisymm, mem, nodup, mem-append,
  sorted_unique, keys, arith,
}
use auto_workflow.Exceptions.{cycle_detected, ok, raise}
use auto_workflow.Dag.{Dag, topological_sort}
use auto_workflow.Dag.Edges.{up, IsConsistent}
use auto_workflow.Dag.Kahn.{waiting, Follows, IsLeast}
use auto_workflow.Dag.Order.{IsOrder, IsBlocked, topological_sort_cases}

-- The same nodes and the same edges, added in any order.
pub record SameGraph (d d' : Dag) : Type 0 where
  pub nodes : (n : Str) → mem n (keys d) ≡ mem n (keys d')
  pub edges : (u v : Str) → mem u (up d v) ≡ mem u (up d' v)

SameGraph-symm : {d d' : Dag} → SameGraph d d' → SameGraph d' d
SameGraph-symm g = record { nodes = λ n. sym (g.nodes n); edges = λ u v. sym (g.edges u v) }

waiting-eq_zero :
    (seen us : List Str) → ((u : Str) → mem u us ≡ true → mem u seen ≡ true) → waiting seen us ≡ 0
unfolding waiting mem
waiting-eq_zero seen [] h = refl
waiting-eq_zero seen (u ∷ us) h =
    ground (arith, h u, eq_iff u u, waiting-eq_zero seen us (λ v m. h v (ground arith)))

-- What is left to place behind `seen`.
Rest : Dag → List Str → List Str → Type 0
Rest d seen order =
    (nodup order ≡ true)
    × ((n : Str) → mem n order ≡ (mem n (keys d) && not (mem n seen)))
    × Follows d seen order
    × IsLeast d seen order

Rest-tail :
    (d : Dag) (seen order : List Str) (n : Str)
    → Rest d seen (n ∷ order)
    → Rest d (seen ++ n ∷ []) order
unfolding Rest Follows IsLeast nodup mem
Rest-tail d seen order n (u, m, f, l) =
    (ground arith, (λ k. ground (arith, m k, mem-append k seen (n ∷ []), eq_iff k n)), f.1, l.1)

-- The head of one order could head the other, so the other's head is not greater.
head-le :
    (d d' : Dag)
    → SameGraph d d'
    → (seen order order' : List Str) (n n' : Str) → Rest d seen (n ∷ order)
    → Rest d' seen (n' ∷ order')
    → str_le n n' ≡ true
unfolding Rest Follows IsLeast mem
head-le d d' g seen order order' n n' (_, m, _, l) (_, m', f', _) =
    l.0 n' (ground (arith, m' n', eq_iff n' n', g.nodes n')) (ground (arith, m' n', eq_iff n' n'))
      (waiting-eq_zero seen (up d n') (λ u h. f'.0 u (ground (arith, g.edges u n'))))

order_unique :
    (d d' : Dag)
    → SameGraph d d'
    → (seen order order' : List Str) → Rest d seen order
    → Rest d' seen order'
    → order ≡ order'
order_unique d d' g seen [] [] r r' = refl
order_unique d d' g seen (n ∷ order) [] r r' =
    absurd (unfold Rest mem in ground (arith, r.1 n, r'.1 n, g.nodes n, eq_iff n n))
order_unique d d' g seen [] (n ∷ order') r r' =
    absurd (unfold Rest mem in ground (arith, r.1 n, r'.1 n, g.nodes n, eq_iff n n))
order_unique d d' g seen (n ∷ order) (n' ∷ order') r r' = ap₂ ◌∷◌ heads (
    order_unique d d' g (seen ++ n ∷ []) order order' (Rest-tail d seen order n r)
      (rw heads (Rest-tail d' seen order' n' r')))
  where
    heads : n ≡ n'
    heads =
        str_le_antisymm n n' (head-le d d' g seen order order' n n' r r')
          (head-le d' d (SameGraph-symm g) seen order' order n' n r' r)

-- Nodes that wait for one another are in no order.
not_placed :
    (d : Dag) (names : List Str)
    → ((n : Str) → mem n names ≡ true → (u : Str) × (mem u (up d n) ≡ true) × (mem u names ≡ true))
    → (seen order : List Str) → Follows d seen order
    → ((n : Str) → mem n names ≡ true → mem n seen ≡ false)
    → (n : Str) → mem n names ≡ true
    → mem n order ≡ false
unfolding Follows mem
not_placed d names b seen [] f h n m = refl
not_placed d names b seen (k ∷ order) f h n m = ground (
  arith,
  eq_iff n k,
  absent,
  not_placed d names b (seen ++ k ∷ []) order f.1
      (λ j i. ground (arith, h j i, mem-append j seen (k ∷ []), eq_iff j k, absent)) n m,
)
  where
    absent : mem k names ≢ true
    absent i = let (u, a, c) = b k i in ground (arith, f.0 u a, h u c)

blocked_subset :
    (d d' : Dag)
    → SameGraph d d'
    → (names names' : List Str) → IsBlocked d names
    → IsBlocked d' names'
    → (n : Str) → mem n names ≡ true
    → mem n names' ≡ true
unfolding mem
blocked_subset d d' g names names' b b' n m = ground (
  arith,
  not_placed d' names (λ k i. let (u, a, c) = b.blocked k i in (u, ground (arith, g.edges u k), c))
      [] b'.front b'.ordered (λ _ _. refl) n m,
  b'.others n,
  b.others n,
  g.nodes n,
)

nonempty {ℓ} : {A : Type ℓ} (xs : List Str) → xs ≢ [] → ((x : Str) → mem x xs ≡ true → A) → A
unfolding mem
nonempty [] h f = absurd (h refl)
nonempty (x ∷ xs) h f = f x (ground (arith, eq_iff x x))

-- An order and a blocked set exclude one another.
not_both :
    (d d' : Dag)
    → SameGraph d d'
    → (order names : List Str) → IsOrder d order
    → IsBlocked d' names
    → ⊥
unfolding mem
not_both d d' g order names o b = nonempty names b.inhabited λ n m. ground (
  arith,
  not_placed d names (λ k i. let (u, a, c) = b.blocked k i in (u, ground (arith, g.edges u k), c))
      [] order o.ordered (λ _ _. refl) n m,
  o.complete n,
  b.others n,
  g.nodes n,
)

start-Rest : (d : Dag) (order : List Str) → IsOrder d order → Rest d [] order
unfolding Rest mem
start-Rest d order o = (o.distinct, (λ n. ground (arith, o.complete n)), o.ordered, o.smallest)

-- Two consistent graphs with the same nodes and edges, in whatever order these were added, have
-- the same result of topological_sort, order or error.
pub topological_sort_deterministic :
    (d d' : Dag)
    → SameGraph d d'
    → IsConsistent d
    → IsConsistent d'
    → topological_sort d ≡ topological_sort d'
topological_sort_deterministic d d' g c c' =
    both (topological_sort_cases d c) (topological_sort_cases d' c')
  where
    both :
        ((order : List Str) × (topological_sort d ≡ ok order) × IsOrder d order)
          ⊎ ((names : List Str) × (topological_sort d ≡ raise (cycle_detected names))
              × IsBlocked d names)
        → ((order : List Str) × (topological_sort d' ≡ ok order) × IsOrder d' order)
          ⊎ ((names : List Str) × (topological_sort d' ≡ raise (cycle_detected names))
              × IsBlocked d' names)
        → topological_sort d ≡ topological_sort d'
    both (inl (order, e, o)) (inl (order', e', o')) =
        e
        ∙ ap ok
            (order_unique d d' g [] order order' (start-Rest d order o) (start-Rest d' order' o'))
        ∙ sym e'
    both (inl (order, e, o)) (inr (names, e', b)) = absurd (not_both d d' g order names o b)
    both (inr (names, e, b)) (inl (order, e', o)) =
        absurd (not_both d' d (SameGraph-symm g) order names o b)
    both (inr (names, e, b)) (inr (names', e', b')) =
        e
        ∙ ap (λ l. raise (cycle_detected l))
            (sorted_unique names names' b.ascending b'.ascending b.distinct b'.distinct (λ n.
              Bool-ext _ _ (blocked_subset d d' g names names' b b' n)
                (blocked_subset d' d (SameGraph-symm g) names' names b' b n)))
        ∙ sym e'

-- Each edge leads to a greater rank: the graph has no cycle.
unfoldable pub IsRanked : (Str → ℕ) → Dag → Type 0
IsRanked rank d = (u v : Str) → mem u (up d v) ≡ true → rank u < rank v

no_blocked :
    (rank : Str → ℕ) (d : Dag) (names : List Str)
    → IsRanked rank d
    → IsBlocked d names
    → (k : ℕ) (n : Str) → mem n names ≡ true
    → rank n < k
    → ⊥
unfolding IsRanked
no_blocked rank d names r b zero n m h = omega arith
no_blocked rank d names r b (suc k) n m h =
    let (u, a, i) = b.blocked n m in no_blocked rank d names r b k u i (omega (arith, r u n a))

-- On a consistent graph with a rank that grows along every edge topological_sort returns an order.
pub topological_sort_acyclic :
    (rank : Str → ℕ) (d : Dag)
    → IsConsistent d
    → IsRanked rank d
    → (order : List Str) × (topological_sort d ≡ ok order) × IsOrder d order
topological_sort_acyclic rank d c r = elim (topological_sort_cases d c) [
  | inl done ↦ done
  | inr (names, _, b) ↦ absurd (
      nonempty names b.inhabited
        λ n m. no_blocked rank d names r b (suc (rank n)) n m (omega arith))
]
