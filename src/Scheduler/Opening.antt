-- ===== src/Scheduler/Opening.antt =====
-- At the head of the first round every task of the graph is ready or awaits another one.
use auto_workflow.Base.{
  ◌≡◌, ◌∙◌, refl, ap, subst, ◌||◌, sym, inl, inr, ◌⊎◌, Bool-cases, true, false, not, none, some,
  Bool, Option, List, [], ◌∷◌, Str, ◌==◌, eq_iff, mem, Dict, lookup, insert, keys, lookup-insert,
  arith,
}
use auto_workflow.Exceptions.{ok}
use auto_workflow.Dag.{topological_sort}
use auto_workflow.Dag.Edges.{up}
use auto_workflow.Build.{TaskInvocation}
use auto_workflow.Flow.{build_dag}
use auto_workflow.Flow.Graph.{wants, mem-up-build_dag}
use auto_workflow.Scheduler.{
  Plan, State, FailurePolicy, remaining_deps, free_names, start_state, inv_map_of, plan_of, set_up,
  is_empty,
}
use auto_workflow.Scheduler.Live.{in_time, Live}
use auto_workflow.Scheduler.Failures.{Noted}
use auto_workflow.Scheduler.Start.{
  remaining_deps-cons, keys-remaining_deps, set_up-shape, sorted-IsOrder, mem-free_names,
}

listed : Str → Option TaskInvocation → Bool
listed u none = false
listed u (some inv) = mem u inv.upstream

-- An entry of `inv_map` is an invocation of the list.
wants-inv_map_of :
    (invs : List TaskInvocation) (seen : Dict TaskInvocation) (u v : Str) (inv : TaskInvocation)
    → lookup v (inv_map_of invs seen) ≡ some inv
    → mem u inv.upstream ≡ true
    → (wants u v invs ≡ true) ⊎ (lookup v seen ≡ some inv)
unfolding inv_map_of wants listed
wants-inv_map_of [] seen u v inv e m = inr e
wants-inv_map_of (x ∷ invs) seen u v inv e m =
    elim (wants-inv_map_of invs (insert x.name x seen) u v inv e m) [
      | inl later ↦ inl (ground arith)
      | inr here ↦ elim (Bool-cases (v == x.name)) [
        | inl same ↦
            let found : some x ≡ some inv = ground (arith, lookup-insert v x.name x seen) in
            inl (ground (arith, ap (listed u) found))
        | inr other ↦ inr (ground (arith, lookup-insert v x.name x seen))
      ]
    ]

-- An edge that a node awaits is one of its upstream names.
upstream-remaining_deps :
    (inv_map : Dict TaskInvocation) (order : List Str) (deps : Dict (List Str)) (n : Str)
    (us : List Str)
    → remaining_deps inv_map order ≡ ok deps
    → lookup n deps ≡ some us
    → (inv : TaskInvocation) × (lookup n inv_map ≡ some inv) × (inv.upstream ≡ us)
unfolding remaining_deps lookup
upstream-remaining_deps inv_map [] deps n us e f = absurd (ground arith)
upstream-remaining_deps inv_map (x ∷ order) deps n us e f =
    let (first, rest, at_x, tail, shape) = remaining_deps-cons inv_map x order deps e in
    let found = rw shape at f in
    elim (Bool-cases (n == x)) [
      | inl same ↦
          (first, ap (λ k. lookup k inv_map) ((eq_iff n x).0 same) ∙ at_x, ground (arith, found))
      | inr other ↦ upstream-remaining_deps inv_map order rest n us tail (ground (arith, found))
    ]

free_or_waiting :
    (deps : Dict (List Str)) (n : Str)
    → mem n (keys deps) ≡ true
    → (mem n (free_names deps)
        || not (is_empty (elim (lookup n deps) [ none ↦ [] | some us ↦ us ])))
      ≡ true
unfolding mem lookup
free_or_waiting [] n m = m
free_or_waiting ((k, []) ∷ deps) n m = ground (arith, free_or_waiting deps n)
free_or_waiting ((k, u ∷ us) ∷ deps) n m = ground (arith, free_or_waiting deps n)

module _ (invs : List TaskInvocation) (order : List Str) (deps : Dict (List Str))
    (found : remaining_deps (inv_map_of invs []) order ≡ ok deps) where
  awaited-up :
      (n u : Str) (awaited : Option (List Str))
      → lookup n deps ≡ awaited
      → mem u (elim awaited [ none ↦ [] | some us ↦ us ]) ≡ true
      → mem u (up (build_dag invs []) n) ≡ true
  unfolding mem lookup
  awaited-up n u none e m = absurd (ground arith)
  awaited-up n u (some us) e m =
      let (inv, at_n, same) =
        upstream-remaining_deps (inv_map_of invs []) order deps n us found e in
      let wanted = wants-inv_map_of invs [] u n inv at_n (rw same m) in
      ground (arith, wanted, mem-up-build_dag invs [] u n)

  start-Live {ℓ} :
      {V : Type ℓ} (policy : FailurePolicy)
      → topological_sort (build_dag invs []) ≡ ok order
      → Live (plan_of invs policy) in_time (start_state {V = V} deps)
  unfolding mem lookup
  start-Live policy sorts =
      let names = keys-remaining_deps (inv_map_of invs []) order deps found in
      let o = sorted-IsOrder invs order sorts in
      record {
        nodes = λ n h.
            sym (o.complete n)
            ∙ rw names at ((mem-free_names deps n (rw names o.distinct) (ground arith)).0);
        deps_up = λ n u h. awaited-up n u (lookup n deps) refl h;
        deps_open = λ n u h k. k;
        all_accounted = λ n h. ground (arith, free_or_waiting deps n (rw names (o.complete n ∙ h)));
        given = λ n h. absurd (ground arith);
      }

pub set_up-Live {ℓ} :
    {V : Type ℓ} (invs : List TaskInvocation) (policy : FailurePolicy) (st : State V)
    → set_up (plan_of invs policy) ≡ ok st
    → Live (plan_of invs policy) in_time st
set_up-Live invs policy st e =
    let (order, deps, sorts, found, same) = set_up-shape (plan_of invs policy) st e in
    subst (Live (plan_of invs policy) in_time) (sym same)
      (start-Live invs order deps found policy sorts)

pub set_up-Noted {ℓ} :
    {V : Type ℓ} (plan : Plan) (st : State V) → set_up plan ≡ ok st → Noted plan st
unfolding lookup
set_up-Noted plan st e =
    let (order, deps, sorts, found, same) = set_up-shape plan st e in
    subst (Noted plan) (sym same) (λ m h. absurd (ground arith))
