-- ===== src/Tests/Flows.antt =====
-- A flow that calls `load`, then `store` on its result, from registration to schedule.
use auto_workflow.Base.{
  ℕ, ◌≡◌, ◌≢◌, ◌||◌, refl, true, false, none, some, List, [], ◌∷◌, Str, codes, ◌==◌, mem, nodup,
  Subset, Dict, lookup, insert, adjust, decimal, set_add, set_discard, erase_one, sorted, insort,
  keys, values, pos, arith, if◌then◌else◌,
}
use auto_workflow.Exceptions.{ok}
use auto_workflow.Dag.{topological_sort, add_edge}
use auto_workflow.Dag.Edges.{up, down}
use auto_workflow.Dag.Order.{IsOrder}
use auto_workflow.Task.{TaskDefinition, async}
use auto_workflow.Build.{
  Values, invocation, list_of, nil, cons, end, iter_all, iter_items, TaskInvocation, BuildContext,
  new_context, upstream_of, register,
}
use auto_workflow.Build.Backward.{inv_names, Backward}
use auto_workflow.Build.Scan.{names, mem-upstream_of}
use auto_workflow.Build.Register.{Built, start, call, register-Built}
use auto_workflow.Flow.{
  sequence_from, roots_depend, root_depends, last_name, chain, build_dag, first_index, sequence,
}
use auto_workflow.Flow.Joined.{joined, sequence_from_last_step}
use auto_workflow.Flow.Graph.{wants, topological_sort-Built}
use auto_workflow.Scheduler.{
  Finish, ran, fail_fast, State, value, plan_of, start_state, dispatch, start_task, set_up,
  inv_map_of, after_wait, process, complete, complete_all, release_all, release_child,
  upstream_failed,
}
use auto_workflow.Scheduler.Invariant.{done}
use auto_workflow.Scheduler.Loop.{IsBatch}
use auto_workflow.Scheduler.Safety.{
  Runs, start, round, started_after_upstream, started_on_values, started_once,
}

abbrev definition_of : Str → TaskDefinition
definition_of name = record {
  name = name;
  retries = 0;
  retry_backoff = 0;
  timeout = none;
  cache_ttl = none;
  run_in = async;
  persist = false;
  priority = pos 0;
}

abbrev load : Str
load = codes "load"

abbrev store : Str
store = codes "store"

abbrev pub load_1 : Str
load_1 = codes "load:1"

abbrev pub store_1 : Str
store_1 = codes "store:1"

abbrev pub report_1 : Str
report_1 = codes "report:1"

abbrev one_call : BuildContext
one_call = (register load nil end (definition_of load) new_context).1

-- `store([load()])`
abbrev loaded : Values
loaded = cons (list_of (cons (invocation load_1 nil end) nil)) nil

abbrev pub two_calls : BuildContext
two_calls = (register store loaded end (definition_of store) one_call).1

one_call-keys : keys one_call.invocations ≡ load_1 ∷ []
unfolding register insert decimal lookup
one_call-keys = refl

no_names : (known : List Str) → Subset (names (iter_all nil)) known
unfolding iter_all mem
no_names known u m = absurd (ground arith)

no_names_by_key : (known : List Str) → Subset (names (iter_items end)) known
unfolding iter_items mem
no_names_by_key known u m = absurd (ground arith)

one_call-Built : Built one_call
one_call-Built =
    call new_context load nil end (definition_of load) start
      (no_names (keys new_context.invocations)) (no_names_by_key (keys new_context.invocations))

known_load : Subset (names (iter_all loaded)) (keys one_call.invocations)
unfolding iter_all
known_load u m = rw one_call-keys m

pub two_calls-Built : Built two_calls
two_calls-Built =
    call one_call store loaded end (definition_of store) one_call-Built known_load
      (no_names_by_key (keys one_call.invocations))

two_calls-keys : keys two_calls.invocations ≡ load_1 ∷ store_1 ∷ []
unfolding register insert ◌==◌ decimal lookup
two_calls-keys = refl

register-Built_example :
    (lookup (register store loaded end (definition_of store) one_call).0.name one_call.invocations
      ≡ none)
    × ((name : Str)
        → lookup name two_calls.invocations ≡ (
            if name == (register store loaded end (definition_of store) one_call).0.name
            then some (register store loaded end (definition_of store) one_call).0
            else lookup name one_call.invocations))
register-Built_example =
    register-Built store loaded end (definition_of store) one_call one_call-Built

topological_sort-Built_example :
    (order : List Str) × (topological_sort
        (build_dag (sequence (store_1 ∷ []) (values two_calls.invocations)) [])
      ≡ ok order)
    × IsOrder (build_dag (sequence (store_1 ∷ []) (values two_calls.invocations)) []) order
    × ((n : Str) → mem n order ≡ mem n (keys two_calls.invocations))
topological_sort-Built_example = topological_sort-Built two_calls (store_1 ∷ []) two_calls-Built

mem-upstream_of_example :
    mem load_1 (upstream_of loaded end)
    ≡ (mem load_1 (names (iter_all loaded)) || mem load_1 (names (iter_items end)))
mem-upstream_of_example = mem-upstream_of load_1 loaded end

-- Two tasks with no data between them, of which the second is returned.
abbrev pub task_of : Str → List Str → TaskInvocation
task_of name upstream = record {
  name = name;
  task_name = load;
  args = nil;
  kwargs = end;
  definition = definition_of load;
  upstream = upstream;
}

abbrev apart : List TaskInvocation
apart = task_of load_1 [] ∷ task_of store_1 [] ∷ []

apart-distinct : nodup (inv_names apart) ≡ true
unfolding nodup mem ◌==◌
apart-distinct = refl

apart-sequence :
    sequence (store_1 ∷ []) apart ≡ task_of load_1 [] ∷ task_of store_1 (load_1 ∷ []) ∷ []
unfolding sequence mem ◌==◌ roots_depend last_name root_depends chain set_add
apart-sequence = refl

apart-Backward : Backward [] apart
unfolding Backward mem
apart-Backward = ((λ u m. m), ((λ u m. absurd (ground arith)), tt))

apart-first : first_index (store_1 ∷ []) apart ≡ some 1
unfolding first_index mem ◌==◌
apart-first = refl

sequence_from_last_step_example :
    sequence_from (store_1 ∷ []) 1 apart ≡ joined (store_1 ∷ []) 1 apart
sequence_from_last_step_example = sequence_from_last_step (store_1 ∷ []) 0 apart apart-first

abbrev pub linked : List TaskInvocation
linked = task_of load_1 [] ∷ task_of store_1 (load_1 ∷ []) ∷ []

pub linked-distinct : nodup (inv_names linked) ≡ true
unfolding nodup mem ◌==◌
linked-distinct = refl

-- Before the first round, and after the round in which `load` returns 7.
abbrev pub before : State ℕ
before = start_state ((load_1, []) ∷ (store_1, load_1 ∷ []) ∷ [])

abbrev pub batch : Dict (Finish ℕ)
batch = (load_1, ran (ok (value 7))) ∷ []

abbrev pub between : State ℕ
between = record {
  ready = store_1 ∷ [];
  pending = [];
  results = (load_1, value 7) ∷ [];
  remaining = (load_1, []) ∷ (store_1, []) ∷ [];
  task_errors = [];
  started = load_1 ∷ [];
}

pub linked-set_up : set_up (plan_of linked fail_fast) ≡ ok before
unfolding set_up topological_sort build_dag add_edge adjust mem insert ◌==◌ sorted insort set_add
    lookup inv_map_of
linked-set_up = refl

pub linked-round :
    after_wait (plan_of linked fail_fast) batch (dispatch (plan_of linked fail_fast) before)
    ≡ ok between
unfolding after_wait dispatch process start_task mem ◌==◌ lookup release_all down build_dag add_edge
    adjust insert set_add release_child upstream_failed up complete_all complete erase_one
    set_discard
linked-round = refl

pub linked-IsBatch :
    IsBatch (plan_of linked fail_fast) batch (dispatch (plan_of linked fail_fast) before)
unfolding IsBatch dispatch start_task mem
linked-IsBatch u m = m

linked-Runs : Runs (plan_of linked fail_fast) between
linked-Runs = round before between batch (start before linked-set_up) linked-IsBatch linked-round

store_started : mem store_1 (dispatch (plan_of linked fail_fast) between).started ≡ true
unfolding dispatch mem start_task ◌==◌
store_started = refl

store_wants : wants load_1 store_1 linked ≡ true
unfolding wants mem ◌==◌
store_wants = refl

started_after_upstream_example :
    (done (dispatch (plan_of linked fail_fast) between) load_1 ≡ true)
    × (lookup load_1 (dispatch (plan_of linked fail_fast) between).results ≢ none)
started_after_upstream_example =
    started_after_upstream linked fail_fast linked-distinct between linked-Runs store_1 load_1
      store_started store_wants

started_on_values_example :
    (v : ℕ) × (lookup load_1 (dispatch (plan_of linked fail_fast) between).results ≡ some (value v))
started_on_values_example =
    started_on_values linked fail_fast linked-distinct between linked-Runs refl store_1 load_1
      store_started store_wants

started_once_example : nodup (dispatch (plan_of linked fail_fast) between).started ≡ true
started_once_example = started_once linked fail_fast linked-distinct between linked-Runs
