-- ===== src/Scheduler/Safety.antt =====
-- The rounds of `execute_dag`: in which states a task is started.
use auto_workflow.Base.{
  ◌≡◌, ◌≢◌, true, false, none, some, [], List, Str, mem, nodup, Dict, lookup, arith,
}
use auto_workflow.Exceptions.{ok}
use auto_workflow.Dag.Edges.{up}
use auto_workflow.Build.{TaskInvocation}
use auto_workflow.Build.Backward.{inv_names}
use auto_workflow.Flow.{build_dag}
use auto_workflow.Flow.Graph.{wants, mem-up-build_dag}
use auto_workflow.Scheduler.{
  Finish, FailurePolicy, Plan, State, value, is_continue, plan_of, set_up, dispatch, after_wait,
}
use auto_workflow.Scheduler.Invariant.{done, Inv}
use auto_workflow.Scheduler.Dispatch.{dispatch-Inv}
use auto_workflow.Scheduler.Loop.{IsBatch, after_wait-Inv}
use auto_workflow.Scheduler.Start.{set_up-Inv}

edge :
    (invs : List TaskInvocation) (n u : Str)
    → wants u n invs ≡ true
    → mem u (up (build_dag invs []) n) ≡ true
edge invs n u w = ground (arith, mem-up-build_dag invs [] u n)

module _ {ℓ} {V : Type ℓ} where
  -- The states at the head of the loop: each round starts the ready tasks, and goes on with some of
  -- the pending ones finished, whichever the event loop reports, and however they ended.
  pub data Runs (plan : Plan) : State V → Type ℓ where
    start : (st : State V) → set_up plan ≡ ok st → Runs plan st
    round :
        (st st' : State V) (batch : Dict (Finish V))
        → Runs plan st
        → IsBatch plan batch (dispatch plan st)
        → after_wait plan batch (dispatch plan st) ≡ ok st'
        → Runs plan st'

  module _ (invs : List TaskInvocation) (policy : FailurePolicy)
      (distinct : nodup (inv_names invs) ≡ true) where
    pub Runs-Inv : {st : State V} → Runs (plan_of invs policy) st → Inv (plan_of invs policy) st
    Runs-Inv (start st e) = set_up-Inv invs policy st distinct e
    Runs-Inv (round st st' batch before b e) =
        after_wait-Inv (plan_of invs policy) batch (dispatch (plan_of invs policy) st) st' b
          (dispatch-Inv (plan_of invs policy) st (Runs-Inv before)).0 e

    dispatched-Inv :
        (st : State V)
        → Runs (plan_of invs policy) st
        → Inv (plan_of invs policy) (dispatch (plan_of invs policy) st)
    dispatched-Inv st runs = (dispatch-Inv (plan_of invs policy) st (Runs-Inv runs)).0

    -- In a run of invocations with distinct names a task has been created only if each of its
    -- upstream tasks was created before, is no longer pending, and has an entry in the results.
    pub started_after_upstream :
        (st : State V)
        → Runs (plan_of invs policy) st
        → (n u : Str) → mem n (dispatch (plan_of invs policy) st).started ≡ true
        → wants u n invs ≡ true
        → (done (dispatch (plan_of invs policy) st) u ≡ true)
          × (lookup u (dispatch (plan_of invs policy) st).results ≢ none)
    started_after_upstream st runs n u s w =
        let i = dispatched-Inv st runs in
        let supplied = i.started_supplied n s u (edge invs n u w) in
        (supplied, i.done_settled u supplied)

    -- In a run of invocations with distinct names, under each policy but continue, a task has been
    -- created only if the result of each of its upstream tasks is a value.
    pub started_on_values :
        (st : State V)
        → Runs (plan_of invs policy) st
        → is_continue policy ≡ false
        → (n u : Str) → mem n (dispatch (plan_of invs policy) st).started ≡ true
        → wants u n invs ≡ true
        → (v : V) × (lookup u (dispatch (plan_of invs policy) st).results ≡ some (value v))
    started_on_values st runs p n u s w =
        (dispatched-Inv st runs).started_clean n s u (edge invs n u w) p

    -- In a run of invocations with distinct names no task is created twice.
    pub started_once :
        (st : State V)
        → Runs (plan_of invs policy) st
        → nodup (dispatch (plan_of invs policy) st).started ≡ true
    started_once st runs = (dispatched-Inv st runs).started_distinct
