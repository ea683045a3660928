-- ===== src/Tests/Rounds.antt =====
-- A run of `execute_dag` over the flow that calls `load`, then `store` on its result.
use auto_workflow.Base.{
  decimal, codes, ℕ, ◌≡◌, ◌≢◌, ◌∙◌, refl, sym, subst, none, some, List, [], ◌∷◌, ◌==◌, mem, nodup,
  Dict, lookup, insert, adjust, set_add, set_discard, erase_one, sorted, insort, length, keys,
  arith, ◌≤◌,
}
use auto_workflow.Exceptions.{Exn, raise, runtime_error, task_execution_error, ok, ok_injective}
use auto_workflow.Dag.{topological_sort, add_edge}
use auto_workflow.Dag.Edges.{up, down}
use auto_workflow.Flow.{build_dag, sequence, roots_depend, last_name, root_depends, chain}
use auto_workflow.Build.{TaskInvocation, register, upstream_of, iter_invocations, scan}
use auto_workflow.Scheduler.{
  Finish, ran, escaped, failed, continue, upstream_error, raised, Plan, fail_fast, State, value,
  plan_of, dispatch, start_task, set_up, inv_map_of, after_wait, process, complete, complete_all,
  release_all, release_child, upstream_failed, returned, waiting, execute_dag, loop, conclude,
}
use auto_workflow.Scheduler.Errors.{RaisedBy, sequenced, execute_dag-Built}
use auto_workflow.Scheduler.Loop.{IsBatch}
use auto_workflow.Scheduler.Failures.{all_plain}
use auto_workflow.Scheduler.Ends.{all_plain_batches, Reports, no_more, report}
use auto_workflow.Scheduler.Complete.{
  AreReported, execute_dag-returns_all, execute_dag-returns_values, execute_dag_ends,
}
use auto_workflow.Tests.Flows.{
  task_of, report_1, two_calls, two_calls-Built, linked, before, batch, between, load_1, store_1,
  linked-distinct, linked-set_up, linked-round, linked-IsBatch,
}

abbrev plan : Plan
plan = plan_of linked fail_fast

-- `store` returns 8.
abbrev batches : List (Dict (Finish ℕ))
batches = batch ∷ ((store_1, ran (ok (value 8))) ∷ []) ∷ []

abbrev final : State ℕ
final = record {
  ready = [];
  pending = [];
  results = (load_1, value 7) ∷ (store_1, value 8) ∷ [];
  remaining = (load_1, []) ∷ (store_1, []) ∷ [];
  task_errors = [];
  started = load_1 ∷ store_1 ∷ [];
}

last-IsBatch : IsBatch plan ((store_1, ran (ok (value 8))) ∷ []) (dispatch plan between)
unfolding IsBatch dispatch start_task mem
last-IsBatch u m = m

last-round : after_wait plan ((store_1, ran (ok (value 8))) ∷ []) (dispatch plan between) ≡ ok final
unfolding after_wait dispatch process start_task mem ◌==◌ lookup release_all down build_dag add_edge
    adjust insert set_add release_child upstream_failed up complete_all complete erase_one
    set_discard
last-round = refl

batches-Reports : Reports plan batches before
unfolding nodup mem
batches-Reports =
    report batch (((store_1, ran (ok (value 8))) ∷ []) ∷ []) before linked-IsBatch refl refl
      (λ st e.
        subst (Reports plan (((store_1, ran (ok (value 8))) ∷ []) ∷ []))
          (ok_injective between st (sym linked-round ∙ e))
          (report ((store_1, ran (ok (value 8))) ∷ []) [] between last-IsBatch refl refl
            (λ st e. no_more st)))

batches-AreReported : AreReported linked fail_fast batches
unfolding AreReported
batches-AreReported st e =
    subst (Reports plan batches) (ok_injective before st (sym linked-set_up ∙ e)) batches-Reports

whole_run : execute_dag linked fail_fast batches ≡ returned final
unfolding execute_dag loop topological_sort build_dag add_edge adjust mem insert ◌==◌ sorted insort
    set_add lookup inv_map_of dispatch start_task after_wait process release_all set_discard
    erase_one down up complete complete_all conclude release_child set_up upstream_failed
whole_run = refl

execute_dag-returns_all_example : lookup store_1 final.results ≢ none
execute_dag-returns_all_example =
    execute_dag-returns_all linked fail_fast batches final linked-distinct batches-AreReported
      (unfold all_plain_batches all_plain in refl) whole_run store_1 (unfold mem ◌==◌ in refl)

execute_dag-returns_values_example : (v : ℕ) × (lookup store_1 final.results ≡ some (value v))
execute_dag-returns_values_example =
    execute_dag-returns_values linked fail_fast batches final linked-distinct batches-AreReported
      (unfold all_plain_batches all_plain in refl) whole_run refl store_1 (unfold mem ◌==◌ in refl)

enough_batches : length (keys (build_dag linked [])) ≤ length batches
unfolding build_dag add_edge adjust insert ◌==◌ set_add lookup mem
enough_batches = omega arith

execute_dag_ends_example : execute_dag linked fail_fast batches ≢ waiting between
execute_dag_ends_example =
    execute_dag_ends linked fail_fast batches between linked-distinct batches-AreReported
      enough_batches

abbrev no_file : Exn
no_file = runtime_error (codes "no file")

-- `load` raises.
abbrev failing : List (Dict (Finish ℕ))
failing = ((load_1, ran (raise no_file)) ∷ []) ∷ []

failed_run :
    execute_dag (sequenced two_calls (store_1 ∷ [])) fail_fast failing
    ≡ raised (task_execution_error (codes "load") no_file)
unfolding execute_dag loop topological_sort build_dag add_edge adjust mem insert ◌==◌ sorted insort
    set_add lookup inv_map_of dispatch start_task after_wait process release_all set_discard
    erase_one down up complete complete_all conclude release_child set_up upstream_failed sequence
    register decimal roots_depend last_name root_depends chain upstream_of scan iter_invocations
failed_run = refl

execute_dag-Built_example :
    RaisedBy
      (plan_of (sequenced two_calls (store_1 ∷ [])) fail_fast)
      failing
      (task_execution_error (codes "load") no_file)
execute_dag-Built_example =
    execute_dag-Built two_calls (store_1 ∷ []) fail_fast two_calls-Built failing
      (task_execution_error (codes "load") no_file) failed_run

-- `store` joins a run of another task under its key, and that run fails.
abbrev following : List (Dict (Finish ℕ))
following = batch ∷ ((store_1, escaped no_file) ∷ []) ∷ []

escaped_run : execute_dag linked continue following ≡ raised no_file
unfolding execute_dag loop topological_sort build_dag add_edge adjust mem insert ◌==◌ sorted insort
    set_add lookup inv_map_of dispatch start_task after_wait process release_all set_discard
    erase_one down up complete complete_all conclude release_child set_up upstream_failed
escaped_run = refl

-- Under fail_fast `load` returns a TaskExecutionError: the run returns, with a failed entry for the
-- task behind it and none for the third.
abbrev three : List TaskInvocation
three = task_of load_1 [] ∷ task_of store_1 (load_1 ∷ []) ∷ task_of report_1 (store_1 ∷ []) ∷ []

abbrev nested : List (Dict (Finish ℕ))
nested = ((load_1, ran (ok (failed no_file))) ∷ []) ∷ []

forgotten :
    execute_dag three fail_fast nested
    ≡ returned (record {
      ready = [];
      pending = [];
      results = (load_1, failed no_file) ∷ (store_1, failed (upstream_error store_1)) ∷ [];
      remaining = (load_1, []) ∷ (store_1, []) ∷ (report_1, store_1 ∷ []) ∷ [];
      task_errors = [];
      started = load_1 ∷ [];
    })
unfolding execute_dag loop topological_sort build_dag add_edge adjust mem insert ◌==◌ sorted insort
    set_add lookup inv_map_of dispatch start_task after_wait process release_all set_discard
    erase_one down up complete complete_all conclude release_child set_up upstream_failed
forgotten = refl
