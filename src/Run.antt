-- ===== src/Run.antt =====
-- auto_workflow/flow.py: `Flow._run_internal` from the built structure and context on, for a flow
-- without placeholders: the sequencing, the scheduler and the substitution of the results.
use auto_workflow.Base.{
  ℕ, Bool, ◌||◌, ◌⊎◌, inl, inr, ◌≡◌, ◌∙◌, refl, ap, true, List, [], ◌∷◌, mem, nodup, Subset, Dict,
  lookup-none_iff, keys, values, arith,
}
use auto_workflow.Exceptions.{type_error, Exn, Result, ok, raise}
use auto_workflow.Build.{Value, BuildContext, TaskInvocation, iter_invocations, replace_invocations}
use auto_workflow.Build.Scan.{names}
use auto_workflow.Build.Backward.{inv_names}
use auto_workflow.Build.Register.{Built, Built-IsRegistered, Built-Backward}
use auto_workflow.Flow.{sequence}
use auto_workflow.Flow.Joined.{sequence-Backward}
use auto_workflow.Hydrate.Succeeds.{Succeeds}
use auto_workflow.Hydrate.Replaced.{has_hashed, replace_mentioned}
use auto_workflow.Scheduler.{
  Finish, plan_of, is_continue, FailurePolicy, State, Entry, value, failed, Outcome, returned,
  raised, raised_aggregate, waiting, execute_dag,
}
use auto_workflow.Scheduler.Ends.{all_plain_batches}
use auto_workflow.Scheduler.Complete.{AreReported, execute_dag-returns_all}
use auto_workflow.Scheduler.Errors.{RaisedBy, sequenced, execute_dag-Built}

-- How a run ends; `running` if the event loop has given no further batch.
pub data Ended : Type 0 where
  result : Value → Ended
  failure : Exn → Ended
  failures : List Exn → Ended
  running : Ended

-- The invocations that a run schedules.
abbrev pub scheduled : Value → BuildContext → List TaskInvocation
scheduled structure ctx = sequenced ctx (names (iter_invocations structure))

-- An exception that comes from a batch, or the TypeError of a structure with a set, or with a dict
-- one of whose keys is not a text.
abbrev pub RunRaises :
    Value → BuildContext → FailurePolicy → List (Dict (Finish Value)) → Exn → Type 0
RunRaises structure ctx policy batches e =
    RaisedBy (plan_of (scheduled structure ctx) policy) batches e
    ⊎ ((has_hashed structure ≡ true) × (e ≡ type_error))

-- A TaskExecutionError in the results stands as the value that `as_value` gives it.
module _ (as_value : Exn → Value) (hashes : ℕ → Bool) where
  abbrev pub entry_value : Entry Value → Value
  entry_value (value v) = v
  entry_value (failed e) = as_value e

  -- The results as `replace_invocations` reads them.
  unfoldable pub result_values : Dict (Entry Value) → Dict Value
  result_values [] = []
  result_values ((n, e) ∷ results) = (n, entry_value e) ∷ result_values results

  abbrev pub substituted : Result Value → Ended
  substituted (ok v) = result v
  substituted (raise e) = failure e

  unfoldable pub conclude_run : Value → Outcome Value → Ended
  unfolding result_values
  conclude_run structure (returned st) =
      substituted (replace_invocations hashes structure (result_values st.results))
  conclude_run structure (raised e) = failure e
  conclude_run structure (raised_aggregate es) = failures es
  conclude_run structure (waiting st) = running

  -- `_run_internal` from the structure and the context that the build function leaves.
  unfoldable pub run_internal :
      Value → BuildContext → FailurePolicy → List (Dict (Finish Value)) → Ended
  unfolding conclude_run execute_dag
  run_internal structure ctx policy batches = elim ctx.invocations [
    | [] ↦ result structure
    | e ∷ es ↦ conclude_run structure (
        execute_dag (sequence (names (iter_invocations structure)) (values ctx.invocations)) policy
          batches)
  ]

  keys-result_values : (results : Dict (Entry Value)) → keys (result_values results) ≡ keys results
  unfolding result_values
  keys-result_values [] = refl
  keys-result_values ((n, e) ∷ results) = ap (λ ns. n ∷ ns) (keys-result_values results)

  module _ (structure : Value) (ctx : BuildContext) (policy : FailurePolicy) (built : Built ctx)
      (mentioned : Subset (names (iter_invocations structure)) (keys ctx.invocations))
      (batches : List (Dict (Finish Value)))
      (reported : AreReported (sequenced ctx (names (iter_invocations structure))) policy batches)
      (plain : (is_continue policy || all_plain_batches batches) ≡ true) where
    abbrev invs : List TaskInvocation
    invs = scheduled structure ctx

    substitutes :
        (st : State Value)
        → execute_dag invs policy batches ≡ returned st
        → Succeeds
            (has_hashed structure)
            (replace_invocations hashes structure (result_values st.results))
    substitutes st h =
        let r = Built-IsRegistered built in
        let distinct : nodup (inv_names (values ctx.invocations)) ≡ true = rw r.keyed r.distinct in
        let (backward, same) =
          sequence-Backward (names (iter_invocations structure)) (values ctx.invocations) distinct
            (Built-Backward built) in
        replace_mentioned hashes structure (result_values st.results) (λ n m.
          let wanted : mem n (inv_names invs) ≡ true =
            ap (mem n) (same ∙ r.keyed) ∙ mentioned n m in
          ap (mem n) (keys-result_values st.results)
          ∙ ground (
            arith,
            lookup-none_iff n st.results,
            execute_dag-returns_all invs policy batches st (rw same distinct) reported plain h n
                wanted,
          ))

    conclude-raises :
        (o : Outcome Value) (e : Exn)
        → execute_dag invs policy batches ≡ o
        → conclude_run structure o ≡ failure e
        → RunRaises structure ctx policy batches e
    unfolding conclude_run
    conclude-raises (returned st) e h q = elim (substitutes st h) [
      | inl (w, fine) ↦ absurd (ground (arith, rw fine at q))
      | inr (hashing, bare) ↦ inr (hashing, ground (arith, rw bare at q))
    ]
    conclude-raises (raised x) e h q = inl (
        execute_dag-Built ctx (names (iter_invocations structure)) policy built batches e
          (h ∙ ap raised (ground (arith, q))))
    conclude-raises (raised_aggregate es) e h q = absurd (ground (arith, q))
    conclude-raises (waiting st) e h q = absurd (ground (arith, q))

    -- If calls of tasks have built the context of a flow without placeholders, its structure
    -- mentions only invocations of this context, each batch of ended tasks is not empty and
    -- consists of pending tasks, once each, and no task returns a TaskExecutionError object as its
    -- value or the policy is continue, then an exception that the run raises, other than the
    -- aggregate one, comes from a task of a batch, as a TaskExecutionError under fail_fast or as
    -- one that escaped from schedule, or it is the TypeError of an unhashable element or key, and
    -- then the structure holds a set, or a dict with a key that is not a text: the substitution of
    -- the results in the structure never misses one.
    pub run_internal-raises :
        (e : Exn)
        → run_internal structure ctx policy batches ≡ failure e
        → RunRaises structure ctx policy batches e
    unfolding run_internal
    run_internal-raises e h = by_invocations ctx.invocations h
      where
        by_invocations :
            (d : Dict TaskInvocation)
            → elim d [
              | [] ↦ result structure
              | x ∷ xs ↦ conclude_run structure (execute_dag invs policy batches)
            ]
              ≡ failure e
            → RunRaises structure ctx policy batches e
        by_invocations [] q = absurd (ground (arith, q))
        by_invocations (x ∷ xs) q = conclude-raises (execute_dag invs policy batches) e refl q
