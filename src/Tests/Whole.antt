-- ===== src/Tests/Whole.antt =====
-- A flow that calls `load`, then `store` on its result, and returns the second; `load` raises.
use auto_workflow.Base.{
  true, ◌≡◌, ◌∙◌, refl, sym, subst, List, [], ◌∷◌, codes, ◌==◌, mem, nodup, Dict, Subset, keys,
  lookup, insert, adjust, set_add, set_discard, erase_one, sorted, insort, decimal, arith,
}
use auto_workflow.Exceptions.{Exn, ok, raise, ok_injective, runtime_error, task_execution_error}
use auto_workflow.Dag.{topological_sort, add_edge}
use auto_workflow.Dag.Edges.{up, down}
use auto_workflow.Build.{
  Value, invocation, atom, nil, end, iter_invocations, register, upstream_of, scan,
}
use auto_workflow.Build.Scan.{names}
use auto_workflow.Flow.{build_dag, sequence, roots_depend, last_name, root_depends, chain}
use auto_workflow.Scheduler.{
  Finish, ran, Plan, fail_fast, State, start_state, plan_of, dispatch, start_task, set_up,
  inv_map_of, after_wait, process, complete, complete_all, release_all, release_child,
  upstream_failed, execute_dag, loop, conclude,
}
use auto_workflow.Scheduler.Loop.{IsBatch}
use auto_workflow.Scheduler.Failures.{all_plain}
use auto_workflow.Scheduler.Ends.{all_plain_batches, Reports, report}
use auto_workflow.Scheduler.Complete.{AreReported}
use auto_workflow.Scheduler.Errors.{sequenced}
use auto_workflow.Run.{RunRaises, failure, run_internal, conclude_run, run_internal-raises}
use auto_workflow.Tests.Flows.{two_calls, two_calls-Built, load_1, store_1}

abbrev structure : Value
structure = invocation store_1 nil end

abbrev no_file : Exn
no_file = runtime_error (codes "no file")

abbrev failing : List (Dict (Finish Value))
failing = ((load_1, ran (raise no_file)) ∷ []) ∷ []

abbrev plan : Plan
plan = plan_of (sequenced two_calls (names (iter_invocations structure))) fail_fast

abbrev opening : State Value
opening = start_state ((load_1, []) ∷ (store_1, load_1 ∷ []) ∷ [])

opening_by : set_up plan ≡ ok opening
unfolding set_up topological_sort build_dag add_edge adjust mem insert ◌==◌ sorted insort set_add
    lookup inv_map_of sequence register decimal roots_depend last_name root_depends chain
    upstream_of scan iter_invocations
opening_by = refl

load-IsBatch : IsBatch plan ((load_1, ran (raise no_file)) ∷ []) (dispatch plan opening)
unfolding IsBatch dispatch start_task mem
load-IsBatch u m = m

load_raises :
    after_wait plan ((load_1, ran (raise no_file)) ∷ []) (dispatch plan opening)
    ≡ raise (task_execution_error (codes "load") no_file)
unfolding topological_sort build_dag add_edge adjust mem insert ◌==◌ sorted insort set_add lookup
    inv_map_of sequence register decimal roots_depend last_name root_depends chain upstream_of scan
    iter_invocations after_wait process dispatch start_task complete_all complete release_all
    release_child upstream_failed set_discard erase_one up down
load_raises = refl

failing-Reports : Reports plan failing opening
unfolding nodup mem
failing-Reports =
    report ((load_1, ran (raise no_file)) ∷ []) [] opening load-IsBatch refl refl
      (λ st e. absurd (ground (arith, e, load_raises)))

failing-AreReported :
    AreReported (sequenced two_calls (names (iter_invocations structure))) fail_fast failing
unfolding AreReported
failing-AreReported st e =
    subst (Reports plan failing) (ok_injective opening st (sym opening_by ∙ e)) failing-Reports

structure_mentioned : Subset (names (iter_invocations structure)) (keys two_calls.invocations)
unfolding iter_invocations mem register decimal insert lookup ◌==◌
structure_mentioned n m = ground arith

run_raises :
    run_internal (λ e. atom 0) (λ n. true) structure two_calls fail_fast failing
    ≡ failure (task_execution_error (codes "load") no_file)
unfolding run_internal conclude_run execute_dag loop conclude set_up topological_sort build_dag
    add_edge adjust mem insert ◌==◌ sorted insort set_add lookup inv_map_of sequence register
    decimal roots_depend last_name root_depends chain upstream_of scan iter_invocations after_wait
    process dispatch start_task complete_all complete release_all release_child upstream_failed
    set_discard erase_one up down
run_raises = refl

run_internal-raises_example :
    RunRaises structure two_calls fail_fast failing (task_execution_error (codes "load") no_file)
run_internal-raises_example =
    run_internal-raises (λ e. atom 0) (λ n. true) structure two_calls fail_fast two_calls-Built
      structure_mentioned failing failing-AreReported (unfold all_plain_batches all_plain in refl)
      (task_execution_error (codes "load") no_file) run_raises
