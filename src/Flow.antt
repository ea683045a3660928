-- ===== src/Flow.antt =====
-- auto_workflow/flow.py: the order that `_run_internal` adds between the built invocations, and the
-- graph that it hands to the scheduler.
pub mod Sequence
pub mod Joined
pub mod Graph
use auto_workflow.Base.{
  ℕ, zero, suc, List, [], ◌∷◌, ◌++◌, map, Bool, true, false, not, ◌&&◌, Option, none, some,
  if◌then◌else◌, ltb, Str, ◌==◌, mem, set_add, filter,
}
use auto_workflow.Dag.{Dag, add_node, add_edge, no_attrs}
use auto_workflow.Build.{TaskInvocation}

-- `not inv.upstream`
abbrev pub is_root : TaskInvocation → Bool
is_root inv = elim inv.upstream [ [] ↦ true | _ ∷ _ ↦ false ]

abbrev pub depend_on : Str → TaskInvocation → TaskInvocation
depend_on u inv = record inv { upstream = set_add u inv.upstream }

-- `if not inv.upstream: inv.upstream.add(u)` for the listed invocations that a test picks. An
-- invocation is one shared object: a write through any reference shows in this list.
unfoldable pub root_depends :
    (TaskInvocation → Bool) → Str → List TaskInvocation → List TaskInvocation
root_depends p u [] = []
root_depends p u (inv ∷ invs) =
    (if p inv && is_root inv then depend_on u inv else inv) ∷ root_depends p u invs

-- `first_ret_idx`
unfoldable pub first_index : List Str → List TaskInvocation → Option ℕ
first_index returned [] = none
first_index returned (inv ∷ invs) =
    if mem inv.name returned
    then some 0
    else (elim (first_index returned invs) [ none ↦ none | some i ↦ some (suc i) ])

-- `ordered[:n]`
abbrev pub take {ℓ} : {A : Type ℓ} → ℕ → List A → List A
take zero xs = []
take (suc n) [] = []
take (suc n) (x ∷ xs) = x ∷ take n xs

-- `for prev, curr in zip(prefix, prefix[1:])`, by the names
unfoldable pub chain : List Str → List TaskInvocation → List TaskInvocation
chain [] invs = invs
chain (prev ∷ []) invs = invs
chain (prev ∷ curr ∷ rest) invs =
    chain (curr ∷ rest) (root_depends (λ inv. inv.name == curr) prev invs)

-- `xs[-1]`
unfoldable pub last_name : List Str → Option Str
last_name [] = none
last_name (x ∷ []) = some x
last_name (x ∷ y ∷ xs) = last_name (y ∷ xs)

-- The names of the invocations that a test picks.
abbrev pub names_by : (Str → Bool) → List TaskInvocation → List Str
names_by p invs = filter p (map (λ inv. inv.name) invs)

-- `inv.upstream.add(u)` for the roots picked, if there is a `u`.
unfoldable pub roots_depend :
    (TaskInvocation → Bool) → Option Str → List TaskInvocation → List TaskInvocation
roots_depend p none invs = invs
roots_depend p (some u) invs = root_depends p u invs

-- The block under `first_ret_idx > 0`; `returned` are the names in the returned structure.
unfoldable pub sequence_from : List Str → ℕ → List TaskInvocation → List TaskInvocation
sequence_from returned idx ordered =
    let prefix = names_by (λ n. not (mem n returned)) (take idx ordered) in
    let chained = chain prefix ordered in
    let joined = roots_depend (λ inv. mem inv.name returned) (last_name prefix) chained in
    let non_returned = names_by (λ n. not (mem n returned)) joined in
    elim returned [
      | [] ↦ joined
      | first ∷ _ ↦ roots_depend (λ inv. inv.name == first) (last_name non_returned) joined
    ]

unfoldable pub sequence : List Str → List TaskInvocation → List TaskInvocation
unfolding first_index sequence_from
sequence returned ordered = elim (first_index returned ordered) [
  | none ↦ ordered
  | some zero ↦ ordered
  | some (suc i) ↦ sequence_from returned (suc i) ordered
]

-- `for up in inv.upstream: dag.add_edge(up, inv.name)`
unfoldable pub add_edges : List Str → Str → Dag → Dag
add_edges [] name d = d
add_edges (u ∷ us) name d = add_edges us name (add_edge u name d)

-- The graph that `execute_dag` and `export_graph` build.
unfoldable pub build_dag : List TaskInvocation → Dag → Dag
unfolding add_edges
build_dag [] d = d
build_dag (inv ∷ invs) d =
    build_dag invs (add_edges inv.upstream inv.name (add_node inv.name no_attrs d))
