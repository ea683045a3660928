-- ===== src/Tests/Described.antt =====
-- A flow that maps `load` over a placeholder: `store` takes the placeholder, `report` takes `store`.
use auto_workflow.Base.{
  keys, Subset, inl, inr, subst, insert, set_add, Bool-cases, eq_iff, ℕ, ◌<◌, ◌≡◌, ◌↔◌, refl, true,
  false, none, some, List, [], ◌∷◌, Str, codes, ◌==◌, mem, Dict, lookup, decimal, pos, arith,
  if◌then◌else◌,
}
use auto_workflow.Exceptions.{ok, raise, type_error}
use auto_workflow.Task.{TaskDefinition, async}
use auto_workflow.Build.{
  new_context, Value, Values, invocation, fan, list_of, tuple_of, set_of, hashed, hashable, dict_of,
  text, nil, cons, end, TaskInvocation, upstream_of, collect_invocations, iter_invocations, scan,
  iter_all,
}
use auto_workflow.Build.Scan.{names}
use auto_workflow.Build.Register.{start}
use auto_workflow.Fanout.{expand, walk}
use auto_workflow.Fanout.Walk.{mentions, mentions-walk}
use auto_workflow.Fanout.Children.{Expanded, expand-Expanded}
use auto_workflow.Describe.{
  Placeholder, describe, transitive_consumers, consumers_by_name, fanout_infos, direct_consumers,
  node_info, fanout_id,
}
use auto_workflow.Describe.Reach.{Consumes, transitive_consumers-Consumes}
use auto_workflow.Describe.Barriers.{ids_of, described, describe_barriers}
use auto_workflow.Hydrate.{hydrate}
use auto_workflow.Hydrate.Succeeds.{Succeeds}
use auto_workflow.Hydrate.Total.{has_set, hydrate-upstream_of}

abbrev definition_of : Str → TaskDefinition
definition_of name = record {
  name = name;
  retries = 0;
  retry_backoff = 0;
  timeout = none;
  cache_ttl = none;
  run_in = async;
  persist = false;
  priority = pos 0;
}

abbrev load_1 : Str
load_1 = codes "load:1"

abbrev store_1 : Str
store_1 = codes "store:1"

abbrev report_1 : Str
report_1 = codes "report:1"

abbrev loading : Value
loading = invocation load_1 nil end

abbrev each : Placeholder
each = record { identity = 7; task = codes "each"; source = loading; max_concurrency = none }

abbrev stored : Values
stored = cons (fan 7 loading nil) nil

abbrev call_of : Str → Str → Values → List Str → TaskInvocation
call_of name task args up = record {
  name = name;
  task_name = task;
  args = args;
  kwargs = end;
  definition = definition_of task;
  upstream = up;
}

abbrev load_call : TaskInvocation
load_call = call_of load_1 (codes "load") nil []

abbrev store_call : TaskInvocation
store_call = call_of store_1 (codes "store") stored (load_1 ∷ [])

abbrev report_call : TaskInvocation
report_call =
    call_of report_1 (codes "report") (cons (invocation store_1 stored end) nil) (store_1 ∷ [])

abbrev calls : List TaskInvocation
calls = load_call ∷ store_call ∷ report_call ∷ []

transitive_consumers-Consumes_example :
    (out : List Str) × (transitive_consumers (consumers_by_name calls []) (store_1 ∷ []) ≡ ok out)
    × ((n : Str) → (mem n out ≡ true) ↔ Consumes calls (store_1 ∷ []) n)
transitive_consumers-Consumes_example = transitive_consumers-Consumes calls (store_1 ∷ [])

describe_barriers_example :
    (reached : Dict (List Str)) × (describe (codes "etl") calls (each ∷ [])
      ≡ ok (described (codes "etl") calls (each ∷ []) reached))
    × ((mem (codes "fanout:1") (node_info (ids_of (each ∷ [])) reached report_call).upstream ≡ true)
        ↔ Consumes calls (direct_consumers (ids_of (each ∷ [])) (codes "fanout:1") calls) report_1)
unfolding mem ◌==◌ fanout_infos fanout_id decimal
describe_barriers_example =
    describe_barriers (codes "etl") (load_call ∷ store_call ∷ []) [] report_call (each ∷ [])
      (codes "fanout:1") refl refl

abbrev sources : Dict Str
sources = (codes "fanout:2", codes "fanout:1") ∷ (codes "fanout:1", load_1) ∷ []

abbrev rank : Str → ℕ
rank s = if s == codes "fanout:2" then 2 else (if s == codes "fanout:1" then 1 else 0)

falls : (fid parent : Str) → lookup fid sources ≡ some parent → rank parent < rank fid
unfolding lookup ◌==◌
falls fid parent e = elim (Bool-cases (fid == codes "fanout:2")) [
  | inl two ↦ ground (arith, e, two, eq_iff fid (codes "fanout:2"))
  | inr other ↦ ground (arith, e, other, eq_iff fid (codes "fanout:1"))
]

abbrev outcomes : Dict Value
outcomes = (load_1, text (codes "rows")) ∷ (store_1, list_of nil) ∷ []

abbrev reported : Values
reported = cons (list_of (cons (invocation store_1 nil end) nil)) nil

reported-up : upstream_of reported end ≡ store_1 ∷ []
unfolding upstream_of iter_invocations scan set_add mem ◌==◌
reported-up = refl

reported-names : names (collect_invocations (list_of reported)) ≡ store_1 ∷ []
unfolding collect_invocations iter_invocations insert
reported-names = refl

hydrate-upstream_of_example :
    Succeeds (has_set (tuple_of reported)) (hydrate (λ n. true) (tuple_of reported) outcomes)
    × Succeeds (has_set (dict_of end)) (hydrate (λ n. true) (dict_of end) outcomes)
unfolding mem
hydrate-upstream_of_example =
    hydrate-upstream_of (λ n. true) reported end outcomes
      (λ n h. ground (arith, subst (λ up. mem n up ≡ true) reported-up h))

-- The result of `store` is a list: it is no element of a set.
unhashable :
    hydrate (λ n. true) (set_of (cons (invocation store_1 nil end) nil)) outcomes ≡ raise type_error
unfolding hydrate hashed hashable lookup ◌==◌
unhashable = refl

mentions-walk_example :
    (mentions 9
        (walk 7
          (cons loading nil)
          (list_of (cons (fan 7 loading nil) (cons (fan 9 loading nil) nil)))).0
      ≡ true)
    × ((walk 7
          (cons loading nil)
          (list_of (cons (fan 7 loading nil) (cons (fan 9 loading nil) nil)))).1
        ≡ true)
unfolding mentions
mentions-walk_example =
    mentions-walk 7 9 (cons loading nil)
      (list_of (cons (fan 7 loading nil) (cons (fan 9 loading nil) nil))) refl

abbrev rows : Values
rows = cons (text (codes "a")) (cons (text (codes "b")) nil)

no_invocations : Subset (names (iter_all rows)) (keys new_context.invocations)
unfolding iter_all mem
no_invocations n m = absurd (ground arith)

expand-Expanded_example :
    Expanded new_context rows
      (expand (codes "each") (definition_of (codes "each")) rows new_context).0
      (expand (codes "each") (definition_of (codes "each")) rows new_context).1
expand-Expanded_example =
    expand-Expanded (codes "each") (definition_of (codes "each")) rows new_context start
      no_invocations
