-- ===== src/Scheduler.antt =====
-- auto_workflow/scheduler.py: `execute_dag`, for invocations with no DynamicFanOut and no cancel
-- event. The event loop is the environment: each `asyncio.wait` returns with a batch of tasks that
-- have finished, each with the value or the exception of its run, or with an exception that left
-- `schedule` from outside its try block. The result cache stands in Inflight.
pub mod Live
pub mod Invariant
pub mod Dispatch
pub mod Release
pub mod Loop
pub mod Progress
pub mod Failures
pub mod Start
pub mod Opening
pub mod Ends
pub mod Rounds
pub mod Complete
pub mod Errors
pub mod Safety
use auto_workflow.Base.{
  ℕ, zero, suc, List, [], ◌∷◌, ◌++◌, map, Bool, true, false, not, ◌&&◌, ◌||◌, Option, none, some,
  if◌then◌else◌, Str, codes, ◌==◌, str_le, ℤ, pos, leb_ℤ, any, filter, mem, erase_one, set_discard,
  Dict, lookup, insert, keys, has_key,
}
use auto_workflow.Exceptions.{Exn, task_execution_error, runtime_error, Result, ok, raise, ◌>>=◌}
use auto_workflow.Dag.{Dag, get_item, topological_sort}
use auto_workflow.Dag.Edges.{up, down}
use auto_workflow.Build.{TaskInvocation}
use auto_workflow.Flow.{build_dag}

pub data FailurePolicy : Type 0 where
  fail_fast continue aggregate : FailurePolicy

abbrev pub is_fail_fast : FailurePolicy → Bool
is_fail_fast fail_fast = true
is_fail_fast continue = false
is_fail_fast aggregate = false

abbrev pub is_continue : FailurePolicy → Bool
is_continue continue = true
is_continue fail_fast = false
is_continue aggregate = false

-- An entry of `results`: a TaskExecutionError, whoever made it, or any other value.
pub data Entry {ℓ} (V : Type ℓ) : Type ℓ where
  value : V → Entry V
  failed : Exn → Entry V

-- How the asyncio task of `schedule` ends: with the outcome of the run, which may be a
-- TaskExecutionError that the task returns as its value, or with an exception from outside the try
-- block: of the awaited future of a cached run, of `_hydrate` or of `cache_key`.
pub data Finish {ℓ} (V : Type ℓ) : Type ℓ where
  ran : Result (Entry V) → Finish V
  escaped : Exn → Finish V

-- The variables of the loop. `started` is the list of the tasks created so far, in order.
pub record State {ℓ} (V : Type ℓ) : Type ℓ where
  pub ready : List Str
  pub pending : List Str
  pub results : Dict (Entry V)
  pub remaining : Dict (List Str)
  pub task_errors : List Exn
  pub started : List Str

pub data Outcome {ℓ} (V : Type ℓ) : Type ℓ where
  returned : State V → Outcome V
  raised : Exn → Outcome V
  raised_aggregate : List Exn → Outcome V
  -- the environment has given no further batch
  waiting : State V → Outcome V

-- `{name: set(inv_map[name].upstream) for name in order}`
unfoldable pub remaining_deps : Dict TaskInvocation → List Str → Result (Dict (List Str))
unfolding get_item
remaining_deps inv_map [] = ok []
remaining_deps inv_map (n ∷ order) = do
  inv ← get_item n inv_map
  rest ← remaining_deps inv_map order
  ok ((n, inv.upstream) ∷ rest)

abbrev pub is_empty : List Str → Bool
is_empty [] = true
is_empty (x ∷ xs) = false

-- `[n for n, deps in remaining_deps.items() if not deps]`
abbrev pub free_names : Dict (List Str) → List Str
free_names deps = map (λ e. e.0) (filter (λ e. is_empty e.1) deps)

abbrev pub start_state {ℓ} : {V : Type ℓ} → Dict (List Str) → State V
start_state deps = record {
  ready = free_names deps;
  pending = [];
  results = [];
  remaining = deps;
  task_errors = [];
  started = [];
}

abbrev pub upstream_error : Str → Exn
upstream_error child = task_execution_error child (runtime_error (codes "Upstream failed"))

-- What stays fixed while the loop runs.
pub record Plan : Type 0 where
  pub dag : Dag
  pub inv_map : Dict TaskInvocation
  pub policy : FailurePolicy

-- `inv_map[n]` has an entry for every node of the graph.
abbrev pub priority_of : Plan → Str → ℤ
priority_of plan n = elim (lookup n plan.inv_map) [
  | none ↦ pos 0
  | some inv ↦ inv.definition.priority
]

abbrev pub task_name_of : Plan → Str → Str
task_name_of plan n = elim (lookup n plan.inv_map) [ none ↦ n | some inv ↦ inv.task_name ]

-- The sort key (-priority, name).
unfoldable pub runs_before : (Str → ℤ) → Str → Str → Bool
runs_before priority a b =
    not (leb_ℤ (priority a) (priority b)) || (leb_ℤ (priority b) (priority a) && str_le a b)

unfoldable pub insert_by : (Str → Str → Bool) → Str → List Str → List Str
insert_by le x [] = x ∷ []
insert_by le x (y ∷ ys) = if le x y then x ∷ y ∷ ys else y ∷ insert_by le x ys

unfoldable pub sort_by : (Str → Str → Bool) → List Str → List Str
unfolding insert_by
sort_by le [] = []
sort_by le (x ∷ xs) = insert_by le x (sort_by le xs)

module _ {ℓ} {V : Type ℓ} where
  -- The body of `for node in runnable`; `xs.remove(x)` is `erase_one`.
  unfoldable pub start_task : Str → State V → State V
  start_task n st =
      if mem n st.pending then record st { ready = erase_one n st.ready } else (record st {
        ready = erase_one n st.ready;
        pending = st.pending ++ n ∷ [];
        started = st.started ++ n ∷ [];
      })

  unfoldable pub start_all : List Str → State V → State V
  start_all [] st = st
  start_all (n ∷ ns) st = start_all ns (start_task n st)

  unfoldable pub dispatch : Plan → State V → State V
  unfolding start_all sort_by
  dispatch plan st = start_all (sort_by (runs_before (priority_of plan)) st.ready) st

  module _ (plan : Plan) where
    open plan use {dag, policy}

    -- The end of `schedule(name)`: what it leaves in `results` and `task_errors`.
    unfoldable pub complete : Str → Finish V → State V → State V
    complete n (escaped e) st = st
    complete n (ran (ok entry)) st = record st { results = insert n entry st.results }
    complete n (ran (raise e)) st =
        let te = task_execution_error (task_name_of plan n) e in
        record st {
          results = insert n (failed te) st.results;
          task_errors = if is_fail_fast policy then st.task_errors else st.task_errors ++ te ∷ [];
        }

    unfoldable pub complete_all : Dict (Finish V) → State V → State V
    complete_all [] st = st
    complete_all ((n, r) ∷ batch) st = complete_all batch (complete n r st)

    -- `isinstance(entry, TaskExecutionError)`
    abbrev pub is_failed : Option (Entry V) → Bool
    is_failed none = false
    is_failed (some (value v)) = false
    is_failed (some (failed e)) = true

    unfoldable pub upstream_failed : Str → State V → Bool
    upstream_failed child st = any (λ u. is_failed (lookup u st.results)) (up dag child)

    -- `remaining_deps[child]`
    abbrev pub deps_of : Str → State V → List Str
    deps_of n st = elim (lookup n st.remaining) [ none ↦ [] | some deps ↦ deps ]

    -- The body of `for child in set(dag.nodes[fname].downstream)`.
    unfoldable pub release_child : Str → Str → State V → State V
    release_child fname child st =
        let deps = set_discard fname (deps_of child st) in
        let discarded : State V = record st { remaining = insert child deps st.remaining } in
        if upstream_failed child st && not (is_continue policy)
        then record discarded { results = insert child (failed (upstream_error child)) st.results }
        else (if is_empty deps
              && (not (mem child st.ready)
                  && (not (mem child st.pending) && not (has_key child st.results)))
            then record discarded { ready = st.ready ++ child ∷ [] }
            else discarded)

    unfoldable pub release_all : Str → List Str → State V → State V
    release_all fname [] st = st
    release_all fname (c ∷ cs) st = release_all fname cs (release_child fname c st)

    -- `task.exception()` of a finished task: what escaped, under each policy, and the
    -- TaskExecutionError that `schedule` raises under fail_fast
    abbrev pub exception_of : Dict (Finish V) → Str → Option Exn
    exception_of batch n = elim (lookup n batch) [
      | none ↦ none
      | some (escaped e) ↦ some e
      | some (ran (ok entry)) ↦ none
      | some (ran (raise e)) ↦
          if is_fail_fast policy then some (task_execution_error (task_name_of plan n) e) else none
    ]

    -- `for fname in finished_names`
    unfoldable pub process : Dict (Finish V) → List Str → State V → Result (State V)
    process batch [] st = ok st
    process batch (n ∷ ns) st =
        let popped : State V = record st { pending = erase_one n st.pending } in
        let rest = process batch ns (release_all n (down dag n) popped) in
        elim (exception_of batch n) [ some e ↦ raise e | none ↦ rest ]

    -- What follows a return of `asyncio.wait`.
    unfoldable pub after_wait : Dict (Finish V) → State V → Result (State V)
    after_wait batch st =
        process batch (filter (λ n. has_key n batch) st.pending) (complete_all batch st)

    unfoldable pub conclude : State V → Outcome V
    conclude st = elim policy [
      | aggregate ↦ (elim st.task_errors [ [] ↦ returned st | e ∷ es ↦ raised_aggregate (e ∷ es) ])
      | fail_fast ↦ returned st
      | continue ↦ returned st
    ]

    -- `while ready or pending_tasks`, by recursion on the batches.
    unfoldable pub loop : List (Dict (Finish V)) → State V → Outcome V
    loop [] st =
        let next = dispatch plan st in if is_empty next.pending then conclude next else waiting next
    loop (batch ∷ batches) st =
        let next = dispatch plan st in
        if is_empty next.pending
        then conclude next
        else (elim (after_wait batch next) [ raise e ↦ raised e | ok st' ↦ loop batches st' ])

-- `{inv.name: inv for inv in invocations}`
unfoldable pub inv_map_of : List TaskInvocation → Dict TaskInvocation → Dict TaskInvocation
inv_map_of [] seen = seen
inv_map_of (inv ∷ invs) seen = inv_map_of invs (insert inv.name inv seen)

abbrev pub plan_of : List TaskInvocation → FailurePolicy → Plan
plan_of invs policy = record {
  dag = build_dag invs [];
  inv_map = inv_map_of invs [];
  policy = policy;
}

-- `execute_dag` up to the loop.
unfoldable pub set_up {ℓ} : {V : Type ℓ} → Plan → Result (State V)
unfolding remaining_deps
set_up plan = do
  order ← topological_sort plan.dag
  deps ← remaining_deps plan.inv_map order
  ok (start_state deps)

-- `execute_dag`
unfoldable pub execute_dag {ℓ} :
    {V : Type ℓ} → List TaskInvocation → FailurePolicy → List (Dict (Finish V)) → Outcome V
unfolding set_up loop
execute_dag {V} invs policy batches = elim (set_up {V = V} (plan_of invs policy)) [
  | raise e ↦ raised e
  | ok st ↦ loop (plan_of invs policy) batches st
]
