-- ===== src/Flow/Graph.antt =====
-- The graph of a list of invocations: its nodes, its edges, and that it has no cycle.
use auto_workflow.Base.{
  ℕ, suc, ◌≤◌, ◌<◌, ◌≡◌, ◌∙◌, refl, ap, inl, inr, Bool, Bool-cases, true, false, ◌&&◌, ◌||◌, List,
  [], ◌∷◌, ◌++◌, append_assoc, if◌then◌else◌, Str, ◌==◌, eq_iff, length, any, mem, mem-append,
  nodup, nodup-disjoint, keys, values, arith,
}
use auto_workflow.Exceptions.{ok}
use auto_workflow.Dag.{Dag, no_attrs, add_node, add_edge, topological_sort}
use auto_workflow.Dag.Edges.{
  up, up-empty, IsConsistent, empty-IsConsistent, add_node-IsConsistent, add_edge-IsConsistent,
  mem-up-add_edge, mem-keys-add_edge, mem-keys-add_node, up-add_node,
}
use auto_workflow.Dag.Order.{IsOrder}
use auto_workflow.Dag.Deterministic.{IsRanked, topological_sort_acyclic}
use auto_workflow.Build.{TaskInvocation, BuildContext}
use auto_workflow.Build.Backward.{inv_names, Backward}
use auto_workflow.Build.Register.{Built, Built-IsRegistered, Built-Backward}
use auto_workflow.Flow.{add_edges, build_dag, sequence}
use auto_workflow.Flow.Joined.{sequence-Backward}

add_edges-IsConsistent :
    (us : List Str) (v : Str) (d : Dag) → IsConsistent d → IsConsistent (add_edges us v d)
unfolding add_edges
add_edges-IsConsistent [] v d c = c
add_edges-IsConsistent (u ∷ us) v d c =
    add_edges-IsConsistent us v (add_edge u v d) (add_edge-IsConsistent u v d c)

mem-up-add_edges :
    (us : List Str) (v : Str) (d : Dag) (x y : Str)
    → mem x (up (add_edges us v d) y) ≡ (mem x us && y == v || mem x (up d y))
unfolding add_edges mem
mem-up-add_edges [] v d x y = refl
mem-up-add_edges (u ∷ us) v d x y =
    ground (arith, mem-up-add_edges us v (add_edge u v d) x y, mem-up-add_edge u v d x y)

-- The ends of the new edges are nodes; `v` is one already.
mem-keys-add_edges :
    (us : List Str) (v : Str) (d : Dag) (n : Str)
    → mem v (keys d) ≡ true
    → mem n (keys (add_edges us v d)) ≡ (mem n us || mem n (keys d))
unfolding add_edges mem
mem-keys-add_edges [] v d n h = refl
mem-keys-add_edges (u ∷ us) v d n h = ground (
  arith,
  mem-keys-add_edges us v (add_edge u v d) n,
  mem-keys-add_edge u v d n,
  mem-keys-add_edge u v d v,
  eq_iff n v,
  eq_iff v v,
)

pub build_dag-IsConsistent :
    (invs : List TaskInvocation) (d : Dag) → IsConsistent d → IsConsistent (build_dag invs d)
unfolding build_dag
build_dag-IsConsistent [] d c = c
build_dag-IsConsistent (inv ∷ invs) d c =
    build_dag-IsConsistent invs (add_edges inv.upstream inv.name (add_node inv.name no_attrs d)) (
      add_edges-IsConsistent inv.upstream inv.name (add_node inv.name no_attrs d)
        (add_node-IsConsistent inv.name no_attrs d c))

-- `u` is an upstream name of an invocation `v` of the list.
unfoldable pub wants : Str → Str → List TaskInvocation → Bool
wants u v = any (λ inv. mem u inv.upstream && v == inv.name)

-- The edges of the graph are the upstream names of the invocations.
pub mem-up-build_dag :
    (invs : List TaskInvocation) (d : Dag) (u v : Str)
    → mem u (up (build_dag invs d) v) ≡ (wants u v invs || mem u (up d v))
unfolding build_dag wants
mem-up-build_dag [] d u v = refl
mem-up-build_dag (inv ∷ invs) d u v = ground (
  arith,
  mem-up-build_dag invs (add_edges inv.upstream inv.name (add_node inv.name no_attrs d)) u v,
  mem-up-add_edges inv.upstream inv.name (add_node inv.name no_attrs d) u v,
  up-add_node v inv.name no_attrs d,
)

-- The first place of a name.
position : Str → List Str → ℕ
position n [] = 0
position n (x ∷ xs) = if n == x then 0 else suc (position n xs)

position_front : (n : Str) (xs ys : List Str) → mem n xs ≡ true → position n (xs ++ ys) < length xs
unfolding position mem
position_front n [] ys m = ground arith
position_front n (x ∷ xs) ys m = ground (arith, position_front n xs ys)

position_behind :
    (n : Str) (xs ys : List Str) → mem n xs ≡ false → length xs ≤ position n (xs ++ ys)
unfolding position mem
position_behind n [] ys m = omega arith
position_behind n (x ∷ xs) ys m = ground (arith, position_behind n xs ys)

new_name :
    (seen : List Str) (n : Str) (ns : List Str) → nodup (seen ++ n ∷ ns) ≡ true → mem n seen ≡ false
unfolding mem
new_name seen n ns d = nodup-disjoint n seen (n ∷ ns) d (ground (arith, eq_iff n n))

-- In a backward list an upstream name stands before its user.
wants-position :
    (seen : List Str) (invs : List TaskInvocation) (u v : Str)
    → nodup (seen ++ inv_names invs) ≡ true
    → Backward seen invs
    → wants u v invs ≡ true
    → position u (seen ++ inv_names invs) < position v (seen ++ inv_names invs)
unfolding wants Backward
wants-position seen [] u v d b w = ground arith
wants-position seen (inv ∷ invs) u v d b w =
    elim (Bool-cases (mem u inv.upstream && v == inv.name)) [
      | inl here ↦
          let before = position_front u seen (inv_names (inv ∷ invs)) (b.0 u (ground arith)) in
          let same : v ≡ inv.name = (eq_iff v inv.name).0 (ground arith) in
          let after =
            position_behind inv.name seen (inv_names (inv ∷ invs))
              (new_name seen inv.name (inv_names invs) d) in
          rw same (omega arith)
      | inr later ↦
          let regroup = append_assoc seen (inv.name ∷ []) (inv_names invs) in
          rw regroup at
            (wants-position (seen ++ inv.name ∷ []) invs u v (rw regroup d) b.1 (ground arith))
    ]

pub mem-nil : (n : Str) → mem n [] ≡ false
unfolding mem
mem-nil n = refl

build_dag-IsRanked :
    (invs : List TaskInvocation)
    → nodup (inv_names invs) ≡ true
    → Backward [] invs
    → IsRanked (λ n. position n (inv_names invs)) (build_dag invs [])
unfolding IsRanked
build_dag-IsRanked invs d b u v m =
    wants-position [] invs u v d b
      (ground (arith, mem-up-build_dag invs [] u v, up-empty v, mem-nil u))

mentions : Str → List TaskInvocation → Bool
mentions n = any (λ inv. mem n inv.upstream)

mem-keys-build_dag :
    (invs : List TaskInvocation) (d : Dag) (n : Str)
    → mem n (keys (build_dag invs d))
      ≡ ((mem n (inv_names invs) || mentions n invs) || mem n (keys d))
unfolding build_dag mentions mem
mem-keys-build_dag [] d n = refl
mem-keys-build_dag (inv ∷ invs) d n = ground (
  arith,
  mem-keys-build_dag invs (add_edges inv.upstream inv.name (add_node inv.name no_attrs d)) n,
  mem-keys-add_edges inv.upstream inv.name (add_node inv.name no_attrs d) n,
  mem-keys-add_node n inv.name no_attrs d,
  mem-keys-add_node inv.name inv.name no_attrs d,
  eq_iff inv.name inv.name,
)

pub keys-inv_names :
    (invs : List TaskInvocation) (n : Str)
    → mem n (inv_names invs) ≡ true
    → mem n (keys (build_dag invs [])) ≡ true
keys-inv_names invs n m = ground (arith, mem-keys-build_dag invs [] n)

mentions-mem :
    (seen : List Str) (invs : List TaskInvocation) (n : Str)
    → Backward seen invs
    → mentions n invs ≡ true
    → mem n (seen ++ inv_names invs) ≡ true
unfolding mentions Backward
mentions-mem seen [] n b m = ground arith
mentions-mem seen (inv ∷ invs) n b m = elim (Bool-cases (mem n inv.upstream)) [
  | inl here ↦ ground (arith, b.0 n here, mem-append n seen (inv_names (inv ∷ invs)))
  | inr later ↦
      rw (append_assoc seen (inv.name ∷ []) (inv_names invs)) at
        (mentions-mem (seen ++ inv.name ∷ []) invs n b.1 (ground arith))
]

-- The nodes of the graph are the invocations.
pub mem-keys-Backward :
    (invs : List TaskInvocation) (n : Str)
    → Backward [] invs
    → mem n (keys (build_dag invs [])) ≡ mem n (inv_names invs)
mem-keys-Backward invs n b =
    ground (arith, mem-keys-build_dag invs [] n, mentions-mem [] invs n b, mem-nil n)

-- For every context that calls of tasks build, and for every list of returned names, the graph of
-- the sequenced invocations has a topological order: topological_sort returns it, and it holds
-- exactly the registered invocations, each behind its upstream ones.
pub topological_sort-Built :
    (ctx : BuildContext) (returned : List Str)
    → Built ctx
    → (order : List Str) × (topological_sort
          (build_dag (sequence returned (values ctx.invocations)) [])
        ≡ ok order)
      × IsOrder (build_dag (sequence returned (values ctx.invocations)) []) order
      × ((n : Str) → mem n order ≡ mem n (keys ctx.invocations))
topological_sort-Built ctx returned built =
    let r = Built-IsRegistered built in
    let ordered = values ctx.invocations in
    let invs = sequence returned ordered in
    let distinct : nodup (inv_names ordered) ≡ true = rw r.keyed r.distinct in
    let (backward, same) = sequence-Backward returned ordered distinct (Built-Backward built) in
    let (order, sorts, o) =
      topological_sort_acyclic (λ n. position n (inv_names invs)) (build_dag invs [])
        (build_dag-IsConsistent invs [] empty-IsConsistent)
        (build_dag-IsRanked invs (rw same distinct) backward) in
    (
      order,
      sorts,
      o,
      λ n. o.complete n ∙ mem-keys-Backward invs n backward ∙ ap (mem n) (same ∙ r.keyed),
    )
