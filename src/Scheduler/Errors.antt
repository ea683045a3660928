-- ===== src/Scheduler/Errors.antt =====
-- The exceptions of `execute_dag` on the invocations of a flow: those of its tasks.
use auto_workflow.Base.{
  subst, ◌≡◌, ◌∙◌, ap, sym, refl, inl, inr, ◌⊎◌, Bool-cases, true, Option, none, some, List, [],
  ◌∷◌, Str, ◌==◌, eq_iff, mem, nodup, Dict, if◌then◌else◌, lookup, insert, lookup-insert, values,
  arith,
}
use auto_workflow.Exceptions.{Exn, task_execution_error, Result, ok, raise}
use auto_workflow.Dag.{get_item}
use auto_workflow.Dag.Edges.{down}
use auto_workflow.Build.{TaskInvocation, BuildContext}
use auto_workflow.Build.Backward.{inv_names}
use auto_workflow.Build.Register.{Built, Built-IsRegistered, Built-Backward}
use auto_workflow.Flow.{sequence}
use auto_workflow.Flow.Joined.{sequence-Backward}
use auto_workflow.Flow.Graph.{topological_sort-Built}
use auto_workflow.Scheduler.{
  Finish, ran, escaped, Plan, State, FailurePolicy, raised, remaining_deps, start_state, inv_map_of,
  plan_of, set_up, is_fail_fast, is_empty, exception_of, process, after_wait, complete_all,
  release_all, conclude, loop, dispatch, execute_dag, task_name_of,
}
use auto_workflow.Scheduler.Release.{pop}

module _ {ℓ} {V : Type ℓ} (plan : Plan) where
  -- The exception comes from a batch: it is the TaskExecutionError around what a task has raised,
  -- under fail_fast, or an exception that escaped from `schedule`.
  pub data RaisedBy : List (Dict (Finish V)) → Exn → Type ℓ where
    of_task :
        (batch : Dict (Finish V)) (batches : List (Dict (Finish V))) (n : Str) (cause : Exn)
        → is_fail_fast plan.policy ≡ true
        → lookup n batch ≡ some (ran (raise cause))
        → RaisedBy (batch ∷ batches) (task_execution_error (task_name_of plan n) cause)
    of_escape :
        (batch : Dict (Finish V)) (batches : List (Dict (Finish V))) (n : Str) (e : Exn)
        → lookup n batch ≡ some (escaped e)
        → RaisedBy (batch ∷ batches) e
    of_later :
        (batch : Dict (Finish V)) (batches : List (Dict (Finish V))) (e : Exn)
        → RaisedBy batches e
        → RaisedBy (batch ∷ batches) e

  exception_of-RaisedBy :
      (batch : Dict (Finish V)) (batches : List (Dict (Finish V))) (n : Str) (e : Exn)
      → exception_of plan batch n ≡ some e
      → RaisedBy (batch ∷ batches) e
  exception_of-RaisedBy batch batches n e h = by_result (lookup n batch) refl h
    where
      by_result :
          (found : Option (Finish V))
          → lookup n batch ≡ found
          → elim found [
            | none ↦ none
            | some (escaped x) ↦ some x
            | some (ran (ok v)) ↦ none
            | some (ran (raise x)) ↦
                if is_fail_fast plan.policy
                then some (task_execution_error (task_name_of plan n) x)
                else none
          ]
            ≡ some e
          → RaisedBy (batch ∷ batches) e
      by_result none z h = absurd (ground arith)
      by_result (some (escaped x)) z h = of_escape batch batches n e (ground (arith, z, h))
      by_result (some (ran (ok v))) z h = absurd (ground arith)
      by_result (some (ran (raise x))) z h =
          let same : task_execution_error (task_name_of plan n) x ≡ e = ground (arith, h) in
          subst (RaisedBy (batch ∷ batches)) same (of_task batch batches n x (ground (arith, h)) z)

  process-raise :
      (batch : Dict (Finish V)) (n : Str) (ns : List Str) (st : State V) (e : Exn)
      → process plan batch (n ∷ ns) st ≡ raise e
      → (exception_of plan batch n ≡ some e)
        ⊎ (process plan batch ns (release_all plan n (down plan.dag n) (pop plan n st)) ≡ raise e)
  unfolding process
  process-raise batch n ns st e h = by_exception (exception_of plan batch n) h
    where
      rest : Result (State V)
      rest = process plan batch ns (release_all plan n (down plan.dag n) (pop plan n st))

      by_exception :
          (x : Option Exn)
          → elim x [ some e ↦ raise e | none ↦ rest ] ≡ raise e
          → (x ≡ some e) ⊎ (rest ≡ raise e)
      by_exception none q = inr q
      by_exception (some x) q = inl (ground (arith, q))

  process_raises :
      (batch : Dict (Finish V)) (batches : List (Dict (Finish V))) (ns : List Str) (st : State V)
      (e : Exn)
      → process plan batch ns st ≡ raise e
      → RaisedBy (batch ∷ batches) e
  unfolding process
  process_raises batch batches [] st e h = absurd (ground arith)
  process_raises batch batches (n ∷ ns) st e h = elim (process-raise batch n ns st e h) [
    | inl here ↦ exception_of-RaisedBy batch batches n e here
    | inr later ↦
        process_raises batch batches ns (release_all plan n (down plan.dag n) (pop plan n st)) e
          later
  ]

  -- A round ends the loop, raises, or is followed by another one.
  loop-raised :
      (batch : Dict (Finish V)) (batches : List (Dict (Finish V))) (st : State V) (e : Exn)
      → loop plan (batch ∷ batches) st ≡ raised e
      → (after_wait plan batch (dispatch plan st) ≡ raise e)
        ⊎ ((later : State V) × (loop plan batches later ≡ raised e))
  unfolding loop conclude
  loop-raised batch batches st e h = elim (Bool-cases (is_empty (dispatch plan st).pending)) [
    | inl over ↦ absurd (ground (arith, rw over at h))
    | inr busy ↦ by_result (after_wait plan batch (dispatch plan st)) (rw busy at h)
  ]
    where
      by_result :
          (r : Result (State V))
          → elim r [ raise x ↦ raised x | ok later ↦ loop plan batches later ] ≡ raised e
          → (r ≡ raise e) ⊎ ((later : State V) × (loop plan batches later ≡ raised e))
      by_result (ok later) q = inr (later, q)
      by_result (raise x) q = inl (ground (arith, q))

  pub loop_raises :
      (batches : List (Dict (Finish V))) (st : State V) (e : Exn)
      → loop plan batches st ≡ raised e
      → RaisedBy batches e
  unfolding loop conclude after_wait
  loop_raises [] st e h = absurd (ground (arith, h))
  loop_raises (batch ∷ batches) st e h = elim (loop-raised batch batches st e h) [
    | inl here ↦ process_raises batch batches _ (complete_all plan batch (dispatch plan st)) e here
    | inr (later, rest) ↦ of_later batch batches e (loop_raises batches later e rest)
  ]

found_of_inv_names :
    (invs : List TaskInvocation) (seen : Dict TaskInvocation) (n : Str)
    → ((mem n (inv_names invs) ≡ true) ⊎ ((inv : TaskInvocation) × (lookup n seen ≡ some inv)))
    → (inv : TaskInvocation) × (lookup n (inv_map_of invs seen) ≡ some inv)
unfolding inv_map_of mem
found_of_inv_names [] seen n (inl m) = absurd (ground arith)
found_of_inv_names [] seen n (inr found) = found
found_of_inv_names (inv ∷ invs) seen n h = elim (Bool-cases (n == inv.name)) [
  | inl same ↦
      found_of_inv_names invs (insert inv.name inv seen) n
        (inr (inv, ground (arith, lookup-insert n inv.name inv seen)))
  | inr other ↦ elim h [
    | inl m ↦ found_of_inv_names invs (insert inv.name inv seen) n (inl (ground arith))
    | inr (known, found) ↦
        found_of_inv_names invs (insert inv.name inv seen) n
          (inr (known, ground (arith, lookup-insert n inv.name inv seen)))
  ]
]

remaining_deps-found :
    (inv_map : Dict TaskInvocation) (n : Str) (order : List Str) (inv : TaskInvocation)
    (deps : Dict (List Str))
    → lookup n inv_map ≡ some inv
    → remaining_deps inv_map order ≡ ok deps
    → remaining_deps inv_map (n ∷ order) ≡ ok ((n, inv.upstream) ∷ deps)
unfolding remaining_deps get_item
remaining_deps-found inv_map n order inv deps f t = rw (remaining_deps, get_item, f, t) refl

remaining_deps-ok :
    (inv_map : Dict TaskInvocation) (order : List Str)
    → ((n : Str) → mem n order ≡ true → (inv : TaskInvocation) × (lookup n inv_map ≡ some inv))
    → (deps : Dict (List Str)) × (remaining_deps inv_map order ≡ ok deps)
unfolding remaining_deps mem
remaining_deps-ok inv_map [] h = ([], refl)
remaining_deps-ok inv_map (n ∷ order) h =
    let (inv, found) = h n (ground (arith, eq_iff n n)) in
    let (deps, tail) = remaining_deps-ok inv_map order (λ m k. h m (ground arith)) in
    ((n, inv.upstream) ∷ deps, remaining_deps-found inv_map n order inv deps found tail)

abbrev pub sequenced : BuildContext → List Str → List TaskInvocation
sequenced ctx returned = sequence returned (values ctx.invocations)

module _ {ℓ} {V : Type ℓ} (ctx : BuildContext) (returned : List Str) (policy : FailurePolicy)
    (built : Built ctx) where
  set_up-ok : (st : State V) × (set_up (plan_of (sequenced ctx returned) policy) ≡ ok st)
  unfolding set_up
  set_up-ok =
      let (order, sorts, o, members) = topological_sort-Built ctx returned built in
      let r = Built-IsRegistered built in
      let distinct : nodup (inv_names (values ctx.invocations)) ≡ true = rw r.keyed r.distinct in
      let (backward, same) =
        sequence-Backward returned (values ctx.invocations) distinct (Built-Backward built) in
      let (deps, found) = remaining_deps-ok (inv_map_of (sequenced ctx returned) []) order (λ n m.
        found_of_inv_names (sequenced ctx returned) [] n
          (inl (ap (mem n) (same ∙ r.keyed) ∙ sym (members n) ∙ m))) in
      (start_state deps, rw (sorts, found) refl)

  -- If calls of tasks have built a context, and execute_dag, without placeholders, on its
  -- sequenced invocations raises an exception that is not the aggregate one, then this exception
  -- comes from a task of a batch: under fail_fast it is the TaskExecutionError around what the
  -- task has raised, and under each policy it may be the bare exception that escaped from schedule
  -- outside its try block, as that of an awaited cached run. No cycle and no missing name is
  -- reported, whatever the batches.
  pub execute_dag-Built :
      (batches : List (Dict (Finish V))) (e : Exn)
      → execute_dag (sequenced ctx returned) policy batches ≡ raised e
      → RaisedBy (plan_of (sequenced ctx returned) policy) batches e
  unfolding execute_dag
  execute_dag-Built batches e h =
      let (st, begins) = set_up-ok in
      loop_raises (plan_of (sequenced ctx returned) policy) batches st e
        (rw (execute_dag, begins) at h)
