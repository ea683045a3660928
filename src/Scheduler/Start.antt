-- ===== src/Scheduler/Start.antt =====
-- The state that `execute_dag` enters the loop with satisfies the invariant.
use auto_workflow.Base.{
  ◌≡◌, ◌∙◌, refl, ap, subst, ◌&&◌, sym, inl, inr, Bool-cases, true, false, some, List, [], ◌∷◌, Str,
  ◌==◌, eq_iff, mem, nodup, Dict, lookup, insert, keys, lookup-insert, arith,
}
use auto_workflow.Exceptions.{ok_injective, ok, ◌>>=◌, >>=-eq-ok}
use auto_workflow.Dag.{get_item, topological_sort}
use auto_workflow.Dag.Edges.{up, up-empty, empty-IsConsistent}
use auto_workflow.Dag.Order.{IsOrder, topological_sort_cases}
use auto_workflow.Build.{TaskInvocation}
use auto_workflow.Build.Backward.{inv_names}
use auto_workflow.Flow.{build_dag}
use auto_workflow.Flow.Graph.{wants, mem-nil, mem-up-build_dag, build_dag-IsConsistent}
use auto_workflow.Scheduler.{
  Plan, State, FailurePolicy, remaining_deps, free_names, start_state, inv_map_of, plan_of, set_up,
}
use auto_workflow.Scheduler.Invariant.{Inv}

inv_map_of_absent :
    (invs : List TaskInvocation) (seen : Dict TaskInvocation) (v : Str)
    → mem v (inv_names invs) ≡ false
    → lookup v (inv_map_of invs seen) ≡ lookup v seen
unfolding inv_map_of mem
inv_map_of_absent [] seen v a = refl
inv_map_of_absent (inv ∷ invs) seen v a =
    ground (
      arith,
      inv_map_of_absent invs (insert inv.name inv seen) v,
      lookup-insert v inv.name inv seen,
    )

-- The entry of a node lists its edges.
pub lookup-inv_map_of :
    (invs : List TaskInvocation) (seen : Dict TaskInvocation) (u v : Str)
    → nodup (inv_names invs) ≡ true
    → wants u v invs ≡ true
    → (inv : TaskInvocation) × (lookup v (inv_map_of invs seen) ≡ some inv)
      × (mem u inv.upstream ≡ true)
unfolding inv_map_of wants nodup
lookup-inv_map_of [] seen u v d w = ground arith
lookup-inv_map_of (inv ∷ invs) seen u v d w =
    elim (Bool-cases (mem u inv.upstream && v == inv.name)) [
      | inl here ↦
          let same = (eq_iff v inv.name).0 (ground arith) in
          (
            inv,
            ground (
              arith,
              inv_map_of_absent invs (insert inv.name inv seen) v,
              ap (λ n. mem n (inv_names invs)) same,
              lookup-insert v inv.name inv seen,
            ),
            ground arith,
          )
      | inr later ↦
          lookup-inv_map_of invs (insert inv.name inv seen) u v (ground arith) (ground arith)
    ]

get_item-ok :
    {V : Type 0} (k : Str) (d : Dict V) (v : V) → get_item k d ≡ ok v → lookup k d ≡ some v
unfolding get_item
get_item-ok k d v e = ground arith

module _ (inv_map : Dict TaskInvocation) where
  pub remaining_deps-cons :
      (n : Str) (order : List Str) (deps : Dict (List Str))
      → remaining_deps inv_map (n ∷ order) ≡ ok deps
      → (inv : TaskInvocation) × (rest : Dict (List Str)) × (lookup n inv_map ≡ some inv)
        × (remaining_deps inv_map order ≡ ok rest)
        × (deps ≡ (n, inv.upstream) ∷ rest)
  unfolding remaining_deps
  remaining_deps-cons n order deps e =
      let (inv, found, next) =
        >>=-eq-ok (get_item n inv_map)
          (λ inv. remaining_deps inv_map order >>= (λ rest. ok ((n, inv.upstream) ∷ rest))) e in
      let (rest, tail, last) =
        >>=-eq-ok (remaining_deps inv_map order) (λ rest. ok ((n, inv.upstream) ∷ rest)) next in
      (
        inv,
        rest,
        get_item-ok n inv_map inv found,
        tail,
        sym (ok_injective ((n, inv.upstream) ∷ rest) deps last),
      )

  pub keys-remaining_deps :
      (order : List Str) (deps : Dict (List Str))
      → remaining_deps inv_map order ≡ ok deps
      → keys deps ≡ order
  unfolding remaining_deps
  keys-remaining_deps [] deps e = ap keys (sym (ok_injective [] deps e))
  keys-remaining_deps (n ∷ order) deps e =
      let (inv, rest, found, tail, shape) = remaining_deps-cons n order deps e in
      ap keys shape ∙ ap (λ ns. n ∷ ns) (keys-remaining_deps order rest tail)

  lookup-remaining_deps :
      (order : List Str) (deps : Dict (List Str)) (n : Str) (inv : TaskInvocation)
      → remaining_deps inv_map order ≡ ok deps
      → mem n order ≡ true
      → lookup n inv_map ≡ some inv
      → lookup n deps ≡ some inv.upstream
  unfolding mem lookup
  lookup-remaining_deps [] deps n inv e m found = ground arith
  lookup-remaining_deps (x ∷ order) deps n inv e m found =
      let (first, rest, at_x, tail, shape) = remaining_deps-cons x order deps e in
      rw shape (elim (Bool-cases (n == x)) [
        | inl same ↦ ground (arith, ap (λ k. lookup k inv_map) ((eq_iff n x).0 same))
        | inr other ↦ ground (arith, lookup-remaining_deps order rest n inv tail)
      ])

pub mem-free_names :
    (deps : Dict (List Str)) (n : Str)
    → nodup (keys deps) ≡ true
    → (mem n (free_names deps) ≡ true)
    → (mem n (keys deps) ≡ true) × (lookup n deps ≡ some [])
unfolding mem nodup lookup
mem-free_names [] n d m = ground arith
mem-free_names ((k, []) ∷ deps) n d m = ground (arith, mem-free_names deps n, eq_iff n k)
mem-free_names ((k, u ∷ us) ∷ deps) n d m = ground (arith, mem-free_names deps n, eq_iff n k)

nodup-free_names :
    (deps : Dict (List Str)) → nodup (keys deps) ≡ true → nodup (free_names deps) ≡ true
unfolding nodup
nodup-free_names [] d = refl
nodup-free_names ((k, []) ∷ deps) d = ground (arith, nodup-free_names deps, mem-free_names deps k)
nodup-free_names ((k, u ∷ us) ∷ deps) d =
    ground (arith, nodup-free_names deps, mem-free_names deps k)

pub set_up-shape {ℓ} :
    {V : Type ℓ} (plan : Plan) (st : State V)
    → set_up plan ≡ ok st
    → (order : List Str) × (deps : Dict (List Str)) × (topological_sort plan.dag ≡ ok order)
      × (remaining_deps plan.inv_map order ≡ ok deps)
      × (st ≡ start_state deps)
unfolding set_up
set_up-shape plan st e =
    let (order, sorts, next) =
      >>=-eq-ok (topological_sort plan.dag)
        (λ order. remaining_deps plan.inv_map order >>= (λ deps. ok (start_state deps))) e in
    let (deps, found, last) =
      >>=-eq-ok (remaining_deps plan.inv_map order) (λ deps. ok (start_state deps)) next in
    (order, deps, sorts, found, sym (ok_injective (start_state deps) st last))

pub sorted-IsOrder :
    (invs : List TaskInvocation) (order : List Str)
    → topological_sort (build_dag invs []) ≡ ok order
    → IsOrder (build_dag invs []) order
sorted-IsOrder invs order e =
    elim (topological_sort_cases (build_dag invs [])
      (build_dag-IsConsistent invs [] empty-IsConsistent)) [
        | inl (found, sorts, o) ↦
            subst (IsOrder (build_dag invs [])) (ok_injective found order (sym sorts ∙ e)) o
        | inr (names, cyclic, b) ↦ absurd (ground arith)
      ]

-- A node with an edge into it is a node.
known_of_up :
    (invs : List TaskInvocation) (u n : Str)
    → mem u (up (build_dag invs []) n) ≡ true
    → mem n (keys (build_dag invs [])) ≡ true
known_of_up invs u n m =
    let c = build_dag-IsConsistent invs [] empty-IsConsistent in
    c.down_known u n (sym (c.mirrored u n) ∙ m)

module _ (invs : List TaskInvocation) (distinct : nodup (inv_names invs) ≡ true) (order : List Str)
    (deps : Dict (List Str)) (sorts : topological_sort (build_dag invs []) ≡ ok order)
    (found : remaining_deps (inv_map_of invs []) order ≡ ok deps) where
  deps-distinct : nodup (keys deps) ≡ true
  deps-distinct =
      rw (keys-remaining_deps (inv_map_of invs []) order deps found)
        (sorted-IsOrder invs order sorts).distinct

  deps-lookup :
      (n u : Str)
      → mem u (up (build_dag invs []) n) ≡ true
      → (us : List Str) × (lookup n deps ≡ some us) × (mem u us ≡ true)
  deps-lookup n u m =
      let wanted : wants u n invs ≡ true =
        ground (arith, mem-up-build_dag invs [] u n, up-empty n, mem-nil u) in
      let (inv, at_n, listed) = lookup-inv_map_of invs [] u n distinct wanted in
      (
        inv.upstream,
        lookup-remaining_deps (inv_map_of invs []) order deps n inv found
            ((sorted-IsOrder invs order sorts).complete n ∙ known_of_up invs u n m) at_n,
        listed,
      )

  free-no-upstream :
      (n u : Str) → mem n (free_names deps) ≡ true → mem u (up (build_dag invs []) n) ≡ false
  free-no-upstream n u m = elim (Bool-cases (mem u (up (build_dag invs []) n))) [
    | inl edge ↦
        let (us, at_n, listed) = deps-lookup n u edge in
        absurd (ground (arith, mem-nil u, (mem-free_names deps n deps-distinct m).1))
    | inr none_there ↦ none_there
  ]

  start-Inv {ℓ} :
      {V : Type ℓ} (policy : FailurePolicy) → Inv (plan_of invs policy) (start_state {V = V} deps)
  unfolding mem nodup lookup
  start-Inv policy = record {
    waits = λ n u m. let (us, at_n, listed) = deps-lookup n u m in inl (rw at_n listed);
    ready_supplied = λ n r u a. absurd (ground (arith, free-no-upstream n u r));
    started_supplied = λ n r u a. absurd (ground arith);
    ready_clean = λ n r u a. absurd (ground (arith, free-no-upstream n u r));
    started_clean = λ n r u a. absurd (ground arith);
    pending_started = λ n r. r;
    done_settled = λ n r. absurd (ground arith);
    ready_new = λ n r. refl;
    ready_distinct = nodup-free_names deps deps-distinct;
    pending_distinct = refl;
    started_distinct = refl;
  }

pub set_up-Inv {ℓ} :
    {V : Type ℓ} (invs : List TaskInvocation) (policy : FailurePolicy) (st : State V)
    → nodup (inv_names invs) ≡ true
    → set_up (plan_of invs policy) ≡ ok st
    → Inv (plan_of invs policy) st
set_up-Inv invs policy st distinct e =
    let (order, deps, sorts, found, same) = set_up-shape (plan_of invs policy) st e in
    subst (Inv (plan_of invs policy)) (sym same)
      (start-Inv invs distinct order deps sorts found policy)
