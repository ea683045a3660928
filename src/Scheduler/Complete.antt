-- ===== src/Scheduler/Complete.antt =====
-- `execute_dag` as a whole: it ends, and what it returns holds an entry for every invocation.
use auto_workflow.Base.{
  ◌||◌, ◌≡◌, ◌≢◌, refl, true, false, List, [], some, none, Str, mem, nodup, Dict, lookup, keys,
  length, ◌≤◌, arith,
}
use auto_workflow.Exceptions.{Result, ok, raise}
use auto_workflow.Dag.Edges.{empty-IsConsistent}
use auto_workflow.Build.{TaskInvocation}
use auto_workflow.Build.Backward.{inv_names}
use auto_workflow.Flow.{build_dag}
use auto_workflow.Flow.Graph.{build_dag-IsConsistent, keys-inv_names}
use auto_workflow.Scheduler.{
  Finish, State, FailurePolicy, Outcome, raised, returned, waiting, plan_of, set_up, loop,
  execute_dag, value, is_continue,
}
use auto_workflow.Scheduler.Ends.{all_plain_batches, Reports, Finished, loop-Finished}
use auto_workflow.Scheduler.Rounds.{Ended, loop_ends}
use auto_workflow.Scheduler.Start.{set_up-Inv, set_up-shape, sorted-IsOrder}
use auto_workflow.Scheduler.Opening.{set_up-Live, set_up-Noted}

module _ {ℓ} {V : Type ℓ} (invs : List TaskInvocation) (policy : FailurePolicy) where
  -- The batches are what `asyncio.wait` returns in the run, round by round.
  unfoldable pub AreReported : List (Dict (Finish V)) → Type ℓ
  AreReported batches =
      (st : State V)
      → set_up (plan_of invs policy) ≡ ok st
      → Reports (plan_of invs policy) batches st

  entered :
      (batches : List (Dict (Finish V))) (end : Outcome V)
      → ((e : _) → raised e ≢ end)
      → execute_dag invs policy batches ≡ end
      → (st : State V) × (set_up (plan_of invs policy) ≡ ok st)
        × (loop (plan_of invs policy) batches st ≡ end)
  unfolding execute_dag
  entered batches end h e = by_result (set_up (plan_of invs policy)) refl e
    where
      by_result :
          (r : Result (State V))
          → set_up (plan_of invs policy) ≡ r
          → elim r [ raise e ↦ raised e | ok st ↦ loop (plan_of invs policy) batches st ] ≡ end
          → (st : State V) × (r ≡ ok st) × (loop (plan_of invs policy) batches st ≡ end)
      by_result (ok st) z e = (st, refl, e)
      by_result (raise x) z e = absurd (h x e)

  start-Ended :
      (st : State V) → set_up (plan_of invs policy) ≡ ok st → Ended (plan_of invs policy) 0 st
  start-Ended st e =
      let (order, deps, sorts, found, same) = set_up-shape (plan_of invs policy) st e in
      ground (arith, same)

  module _ (batches : List (Dict (Finish V))) (st : State V)
      (distinct : nodup (inv_names invs) ≡ true) (reported : AreReported batches) where
    returned-Finished :
        (is_continue policy || all_plain_batches batches) ≡ true
        → execute_dag invs policy batches ≡ returned st
        → Finished (plan_of invs policy) st
    unfolding AreReported
    returned-Finished q e =
        let (first, begins, rest) = entered batches (returned st) (λ x z. ground arith) e in
        let (order, deps, sorts, found, same) = set_up-shape (plan_of invs policy) first begins in
        loop-Finished (plan_of invs policy) (build_dag-IsConsistent invs [] empty-IsConsistent)
          order (sorted-IsOrder invs order sorts) batches first st (reported first begins)
          (set_up-Inv invs policy first distinct begins) (set_up-Live invs policy first begins)
          (set_up-Noted (plan_of invs policy) first begins) q rest

    -- If the names of the invocations are distinct, each batch of ended tasks is not empty and
    -- consists of pending tasks, once each, no task returns a TaskExecutionError object as its
    -- value or the policy is continue, and execute_dag returns the results, then every invocation
    -- has an entry in them: no task is forgotten, whatever the policy.
    pub execute_dag-returns_all :
        (is_continue policy || all_plain_batches batches) ≡ true
        → execute_dag invs policy batches ≡ returned st
        → (n : Str) → mem n (inv_names invs) ≡ true
        → lookup n st.results ≢ none
    execute_dag-returns_all q e n m = (returned-Finished q e n (keys-inv_names invs n m)).0

    -- If the names of the invocations are distinct, each batch of ended tasks is not empty and
    -- consists of pending tasks, once each, no task returns a TaskExecutionError object as its
    -- value, and execute_dag returns the results under a policy other than continue, then the
    -- entry of every invocation is a value that is no TaskExecutionError: a failure is raised and
    -- never returned.
    pub execute_dag-returns_values :
        all_plain_batches batches ≡ true
        → execute_dag invs policy batches ≡ returned st
        → is_continue policy ≡ false
        → (n : Str) → mem n (inv_names invs) ≡ true
        → (v : V) × (lookup n st.results ≡ some (value v))
    execute_dag-returns_values q e p n m =
        (returned-Finished (ground (arith, q)) e n (keys-inv_names invs n m)).1 p

    -- If the names of the invocations are distinct and there are at least as many batches as the
    -- graph has nodes, each of them not empty and of pending tasks, once each, then execute_dag
    -- does not wait for a further batch: it has returned or raised.
    pub execute_dag_ends :
        length (keys (build_dag invs [])) ≤ length batches
        → execute_dag invs policy batches ≢ waiting st
    unfolding AreReported
    execute_dag_ends enough e =
        let (first, begins, rest) = entered batches (waiting st) (λ x z. ground arith) e in
        loop_ends (plan_of invs policy) (build_dag-IsConsistent invs [] empty-IsConsistent) 0
          batches first st (reported first begins) (set_up-Inv invs policy first distinct begins)
          (set_up-Live invs policy first begins) (start-Ended first begins) (omega arith) rest
