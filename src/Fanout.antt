-- ===== src/Fanout.antt =====
-- auto_workflow/fanout.py and scheduler.py: how a placeholder becomes invocations while a flow runs.
-- An entry of `results` that is an exception stands as an atom, which this code only passes on.
pub mod Children
pub mod Walk
use auto_workflow.Base.{
  ℕ, zero, suc, List, [], ◌∷◌, ◌++◌, map, Bool, true, false, not, ◌&&◌, ◌||◌, Option, none, some,
  if◌then◌else◌, nat_eq, all, Str, codes, ◌==◌, set_add, Dict, lookup, insert, has_key,
}
use auto_workflow.Exceptions.{
  key_error, runtime_error, task_execution_error, Result, ok, raise, ◌>>=◌,
}
use auto_workflow.Task.{TaskDefinition}
use auto_workflow.Build.{
  Value, Values, Items, invocation, fan, list_of, tuple_of, set_of, dict_of, text, atom, nil, cons,
  end, item, TaskInvocation, BuildContext, register,
}
use auto_workflow.Build.Backward.{inv_names}
use auto_workflow.Dag.{Dag, add_node, add_edge, no_attrs}
use auto_workflow.Describe.{source_name}

-- `DynamicFanOut.expand`, for a placeholder that is not expanded yet.
unfoldable pub expand :
    Str → TaskDefinition → Values → BuildContext → List TaskInvocation × BuildContext
unfolding register
expand task definition nil ctx = ([], ctx)
expand task definition (cons v vs) ctx =
    let (inv, ctx') = register task (cons v nil) end definition ctx in
    let (children, last) = expand task definition vs ctx' in (inv ∷ children, last)

-- `_walk`, with the placeholder's identity and its children; the flag is `replaced`.
unfoldable mutual
  pub walk : ℕ → Values → Value → Value × Bool
  walk target children (fan i source known) =
      if nat_eq i target then (list_of children, true) else (fan i source known, false)
  walk target children (list_of vs) = let (ws, b) = walk_all target children vs in (list_of ws, b)
  walk target children (tuple_of vs) = let (ws, b) = walk_all target children vs in (tuple_of ws, b)
  walk target children (dict_of d) = let (e, b) = walk_items target children d in (dict_of e, b)
  walk target children (set_of vs) = (set_of vs, false)
  walk target children (invocation n args kwargs) = (invocation n args kwargs, false)
  walk target children (text s) = (text s, false)
  walk target children (atom n) = (atom n, false)

  pub walk_all : ℕ → Values → Values → Values × Bool
  walk_all target children nil = (nil, false)
  walk_all target children (cons v vs) =
      let (w, b) = walk target children v in
      let (ws, c) = walk_all target children vs in (cons w ws, b || c)

  pub walk_items : ℕ → Values → Items → Items × Bool
  walk_items target children end = (end, false)
  walk_items target children (item k v d) =
      let (w, b) = walk target children v in
      let (e, c) = walk_items target children d in (item k w e, b || c)

-- The variables of the scheduler that an expansion changes: the children of the expanded
-- placeholders by identity, `placeholder_sems` as the limits, and `child_to_placeholder`.
pub record Expansion : Type 0 where
  pub dag : Dag
  pub inv_map : Dict TaskInvocation
  pub invocations : List TaskInvocation
  pub remaining : Dict (List Str)
  pub ready : List Str
  pub ctx : BuildContext
  pub expanded : List (ℕ × List Str)
  pub sems : List (ℕ × ℕ)
  pub placeholder_of : Dict ℕ

unfoldable pub at_identity {ℓ} : {A : Type ℓ} → ℕ → List (ℕ × A) → Option A
at_identity i [] = none
at_identity i ((j, a) ∷ es) = if nat_eq i j then some a else at_identity i es

-- A placeholder that the loop looks at.
pub record Waiting : Type 0 where
  pub identity : ℕ
  pub task : Str
  pub definition : TaskDefinition
  pub source : Value
  pub max_concurrency : Option ℕ

-- The names of the children of a source that is an expanded placeholder.
abbrev pub source_children : Expansion → Value → Option (List Str)
source_children st (fan i source known) = at_identity i st.expanded
source_children st (invocation n args kwargs) = none
source_children st (list_of vs) = none
source_children st (tuple_of vs) = none
source_children st (set_of vs) = none
source_children st (dict_of d) = none
source_children st (text s) = none
source_children st (atom n) = none

-- `ready_to_expand`, after the task `fname` has finished
unfoldable pub ready_to_expand : Str → Expansion → Dict Value → Value → Bool
unfolding at_identity
ready_to_expand fname st results source = elim (source_name source) [
  | some n ↦ n == fname
  | none ↦ (elim (source_children st source) [
    | none ↦ false
    | some names ↦ all (λ n. has_key n results) names
  ])
]

-- `[results[c.name] for c in src]`
unfoldable pub collected : List Str → Dict Value → Result Values
collected [] results = ok nil
collected (n ∷ names) results = elim (lookup n results) [
  | none ↦ raise (key_error n)
  | some v ↦ (do vs ← collected names results; ok (cons v vs))
]

-- The elements of a source value, which must be a list, a tuple or a set.
unfoldable pub elements : Str → Value → Result Values
elements task (list_of vs) = ok vs
elements task (tuple_of vs) = ok vs
elements task (set_of vs) = ok vs
elements task (fan i source known) = ok known
elements task (invocation n args kwargs) = raise (
    task_execution_error task
      (runtime_error (codes "Dynamic fan_out source must return an iterable")))
elements task (dict_of d) = raise (
    task_execution_error task
      (runtime_error (codes "Dynamic fan_out source must return an iterable")))
elements task (text s) = raise (
    task_execution_error task
      (runtime_error (codes "Dynamic fan_out source must return an iterable")))
elements task (atom n) = raise (
    task_execution_error task
      (runtime_error (codes "Dynamic fan_out source must return an iterable")))

abbrev pub names_or_none : Option (List Str) → List Str
names_or_none none = []
names_or_none (some names) = names

abbrev pub task_of : Str → Dict TaskInvocation → Str
task_of n inv_map = elim (lookup n inv_map) [ none ↦ n | some inv ↦ inv.task_name ]

-- `source_value`, as its elements
unfoldable pub source_values : Expansion → Dict Value → Value → Result Values
unfolding collected elements at_identity
source_values st results source = elim (source_name source) [
  | some n ↦ (elim (lookup n results) [
    | none ↦ raise (key_error n)
    | some v ↦ elements (task_of n st.inv_map) v
  ])
  | none ↦ collected (names_or_none (source_children st source)) results
]

-- The nodes that the children depend on.
abbrev pub source_names : Expansion → Value → List Str
source_names st source = elim (source_name source) [
  | some n ↦ n ∷ []
  | none ↦ names_or_none (source_children st source)
]

-- `dag.add_edge(u, v)` for each u, and for each v
unfoldable pub edges_to : List Str → Str → Dag → Dag
unfolding add_edge
edges_to [] v d = d
edges_to (u ∷ us) v d = edges_to us v (add_edge u v d)

-- The limit of the placeholder for a child, where there is one.
unfoldable pub limit_child : Waiting → Str → Expansion → Expansion
limit_child p child st = elim p.max_concurrency [
  | none ↦ st
  | some limit ↦ if nat_eq limit 0 then st else record st {
    sems = elim (at_identity p.identity st.sems) [
      | none ↦ (p.identity, limit) ∷ st.sems
      | some old ↦ st.sems
    ];
    placeholder_of = insert child p.identity st.placeholder_of;
  }
]

-- The body of `for child_inv in placeholder`.
unfoldable pub add_child : Waiting → List Str → TaskInvocation → Expansion → Expansion
unfolding limit_child edges_to add_node
add_child p sources child st =
    let limited = limit_child p child.name st in
    let dag = if has_key child.name st.dag then st.dag else add_node child.name no_attrs st.dag in
    record limited {
      dag = edges_to sources child.name dag;
      remaining = insert child.name [] st.remaining;
      ready = st.ready ++ child.name ∷ [];
      inv_map =
          if has_key child.name st.inv_map then st.inv_map else insert child.name child st.inv_map;
    }

unfoldable pub add_children : Waiting → List Str → List TaskInvocation → Expansion → Expansion
unfolding add_child
add_children p sources [] st = st
add_children p sources (child ∷ children) st =
    add_children p sources children (add_child p sources child st)

unfoldable pub as_values : List TaskInvocation → Values
as_values [] = nil
as_values (inv ∷ invs) = cons (invocation inv.name inv.args inv.kwargs) (as_values invs)

-- A consumer's arguments after the walk, and whether the placeholder stood in them.
unfoldable pub update_consumer : ℕ → Values → TaskInvocation → TaskInvocation × Bool
unfolding walk
update_consumer target children inv =
    let (args, b) = walk_all target children inv.args in
    let (kwargs, c) = walk_items target children inv.kwargs in
    (record inv { args = args; kwargs = kwargs }, b || c)

-- `remaining_deps.setdefault(consumer, set()).add(child)` and `dag.add_edge(child, consumer)`
unfoldable pub wait_for_children : Str → List Str → Expansion → Expansion
unfolding add_edge
wait_for_children consumer [] st = st
wait_for_children consumer (child ∷ children) st =
    let deps = names_or_none (lookup consumer st.remaining) in
    wait_for_children consumer children (record st {
      dag = add_edge child consumer st.dag;
      remaining = insert consumer (set_add child deps) st.remaining;
    })

abbrev pub is_name : Option Str → Str → Bool
is_name none name = false
is_name (some n) name = n == name

-- `for consumer in invocations`; the source itself is passed over.
unfoldable pub update_consumers :
    Waiting
    → List TaskInvocation
    → List TaskInvocation
    → Expansion
    → List TaskInvocation × Expansion
unfolding update_consumer wait_for_children
update_consumers p children [] st = ([], st)
update_consumers p children (inv ∷ invs) st =
    let (inv', replaced) = update_consumer p.identity (as_values children) inv in
    let is_source = is_name (source_name p.source) inv.name in
    let kept = if is_source then inv else inv' in
    let st' =
      if not is_source && replaced
      then wait_for_children inv.name (inv_names children) st
      else st in
    let (rest, last) = update_consumers p children invs st' in (kept ∷ rest, last)

-- The body of the loop over the placeholders, for one that is not expanded.
unfoldable pub expand_placeholder : Str → Dict Value → Waiting → Expansion → Result Expansion
unfolding ready_to_expand source_values expand add_children update_consumers
expand_placeholder fname results p st =
    if not (ready_to_expand fname st results p.source) then ok st else (do
      vs ← source_values st results p.source
      let (children, ctx) = expand p.task p.definition vs st.ctx
      let added =
          add_children p (source_names st p.source) children
            (record st { ctx = ctx; expanded = (p.identity, inv_names children) ∷ st.expanded })
      let (invs, last) = update_consumers p children st.invocations added
      ok (record last { invocations = invs }))

-- The loop over the placeholders.
unfoldable pub expand_placeholders : Str → Dict Value → List Waiting → Expansion → Result Expansion
unfolding expand_placeholder at_identity
expand_placeholders fname results [] st = ok st
expand_placeholders fname results (p ∷ ps) st = do
  st' ← (elim (at_identity p.identity st.expanded) [
    | some names ↦ ok st
    | none ↦ expand_placeholder fname results p st
  ])
  expand_placeholders fname results ps st'

-- Whether a placeholder holds a ready task back: not expanded, or with a child that has no result.
unfoldable pub gates : Expansion → Dict Value → ℕ → Bool
unfolding at_identity
gates st results i = elim (at_identity i st.expanded) [
  | none ↦ true
  | some names ↦ not (all (λ n. has_key n results) names)
]
