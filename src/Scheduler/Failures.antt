-- ===== src/Scheduler/Failures.antt =====
-- Where the results hold a failure, the policy goes on behind it or the scheduler reports it.
use auto_workflow.Base.{
  ◌≡◌, refl, inl, inr, Bool, Bool-cases, true, false, not, ◌&&◌, ◌||◌, some, List, [], ◌∷◌, ◌++◌,
  Str, eq_iff, filter, mem, nodup, any_witness, Dict, has_key, lookup, lookup-insert,
  lookup-none_iff, keys, subst, arith,
}
use auto_workflow.Exceptions.{Exn, task_execution_error, ok, raise}
use auto_workflow.Dag.Edges.{up, down}
use auto_workflow.Scheduler.{
  Finish, ran, escaped, Plan, State, value, failed, complete, complete_all, release_all,
  release_child, task_name_of, is_failed, start_all, start_task, dispatch, sort_by, runs_before,
  priority_of, is_fail_fast, is_continue, process, after_wait, upstream_failed,
}
use auto_workflow.Scheduler.Release.{pop}
use auto_workflow.Scheduler.Loop.{process-nil, process-cons, process-exceptions, IsBatch}

abbrev pub no_errors : List Exn → Bool
no_errors [] = true
no_errors (e ∷ es) = false

no_errors-snoc : (es : List Exn) (e : Exn) → no_errors (es ++ e ∷ []) ≡ false
no_errors-snoc [] e = refl
no_errors-snoc (x ∷ es) e = refl

pub mem-filter :
    (p : Str → Bool) (xs : List Str) (x : Str)
    → mem x xs ≡ true
    → p x ≡ true
    → mem x (filter p xs) ≡ true
unfolding mem
mem-filter p [] x h k = h
mem-filter p (y ∷ xs) x h k = ground (arith, mem-filter p xs x, eq_iff x y)

-- The task does not return a TaskExecutionError as its value.
abbrev pub is_plain {ℓ} : {V : Type ℓ} → Finish V → Bool
is_plain (ran (ok (failed e))) = false
is_plain (ran (ok (value v))) = true
is_plain (ran (raise e)) = true
is_plain (escaped e) = true

unfoldable pub all_plain {ℓ} : {V : Type ℓ} → Dict (Finish V) → Bool
all_plain [] = true
all_plain ((n, r) ∷ batch) = is_plain r && all_plain batch

module _ {ℓ} {V : Type ℓ} (plan : Plan) where
  open plan use {policy}

  abbrev pub reported : State V → Bool
  reported st = is_continue policy || (not (is_fail_fast policy) && not (no_errors st.task_errors))

  abbrev pub Noted : State V → Type 0
  Noted st = (m : Str) → is_failed plan (lookup m st.results) ≡ true → reported st ≡ true

  abbrev is_raised : Finish V → Bool
  is_raised (escaped e) = false
  is_raised (ran (ok entry)) = false
  is_raised (ran (raise e)) = true

  complete-Noted :
      (n : Str) (r : Finish V) (st : State V)
      → (is_raised r ≡ true → is_fail_fast policy ≡ false)
      → (is_continue policy || is_plain r) ≡ true
      → Noted st
      → Noted (complete plan n r st)
  unfolding complete
  complete-Noted n (escaped e) st p q h m f = h m f
  complete-Noted n (ran (ok (value v))) st p q h m f =
      ground (arith, h m, lookup-insert m n (value v) st.results)
  complete-Noted n (ran (ok (failed e))) st p q h m f = ground (arith, q)
  complete-Noted n (ran (raise e)) st p q h m f =
      ground
        (arith, p, no_errors-snoc st.task_errors (task_execution_error (task_name_of plan n) e))

  -- Under fail-fast each task of the batch has returned.
  abbrev Passing : Dict (Finish V) → Type ℓ
  Passing batch =
      (n : Str) (r : Finish V)
      → lookup n batch ≡ some r
      → is_raised r ≡ true
      → is_fail_fast policy ≡ false

  complete_all-Noted :
      (batch : Dict (Finish V)) (st : State V)
      → nodup (keys batch) ≡ true
      → Passing batch
      → (is_continue policy || all_plain batch) ≡ true
      → Noted st
      → Noted (complete_all plan batch st)
  unfolding complete_all nodup lookup all_plain
  complete_all-Noted [] st d p q h = h
  complete_all-Noted ((n, r) ∷ batch) st d p q h =
      complete_all-Noted batch (complete plan n r st) (ground arith)
        (λ m q e. p m q (ground (arith, e, eq_iff m n, lookup-none_iff m batch)))
        (ground (arith, q))
        (complete-Noted n r st (p n r (ground (arith, eq_iff n n))) (ground (arith, q)) h)

  release_child-Noted : (n x : Str) (st : State V) → Noted st → Noted (release_child plan n x st)
  unfolding release_child upstream_failed
  release_child-Noted n x st h m f = elim (Bool-cases (upstream_failed plan x st)) [
    | inl fail ↦
        let (u, a, bad) =
          any_witness (λ u. is_failed plan (lookup u st.results)) (up plan.dag x) fail in
        ground (arith, h u bad)
    | inr fine ↦ ground (arith, fine, h m)
  ]

  release_all-Noted :
      (n : Str) (cs : List Str) (st : State V) → Noted st → Noted (release_all plan n cs st)
  unfolding release_all
  release_all-Noted n [] st h = h
  release_all-Noted n (x ∷ cs) st h =
      release_all-Noted n cs (release_child plan n x st) (release_child-Noted n x st h)

  process-Noted :
      (batch : Dict (Finish V)) (ns : List Str) (st st' : State V)
      → Noted st
      → process plan batch ns st ≡ ok st'
      → Noted st'
  process-Noted batch [] st st' h e = subst Noted (process-nil plan batch st st' e) h
  process-Noted batch (n ∷ ns) st st' h e =
      process-Noted batch ns (release_all plan n (down plan.dag n) (pop plan n st)) st'
        (release_all-Noted n (down plan.dag n) (pop plan n st) h)
        (process-cons plan batch n ns st st' e)

  pub after_wait-Noted :
      (batch : Dict (Finish V)) (st st' : State V)
      → IsBatch plan batch st
      → nodup (keys batch) ≡ true
      → (is_continue policy || all_plain batch) ≡ true
      → Noted st
      → after_wait plan batch st ≡ ok st'
      → Noted st'
  unfolding after_wait IsBatch
  after_wait-Noted batch st st' b d q h e =
      process-Noted batch (filter (λ n. has_key n batch) st.pending) (complete_all plan batch st)
        st'
        (complete_all-Noted batch st d
          (λ n r found bad.
            let k = lookup-none_iff n batch in
            ground (
              arith,
              found,
              process-exceptions plan batch (filter (λ n. has_key n batch) st.pending)
                  (complete_all plan batch st) st' e n
                  (mem-filter (λ n. has_key n batch) st.pending n (b n (ground (arith, k)))
                    (ground (arith, k))),
            ))
          q h)
        e

  start_all-results :
      (ns : List Str) (st : State V)
      → ((start_all ns st).results ≡ st.results) × ((start_all ns st).task_errors ≡ st.task_errors)
  unfolding start_all start_task
  start_all-results [] st = (refl, refl)
  start_all-results (n ∷ ns) st =
      let (results, errors) = start_all-results ns (start_task n st) in
      elim (Bool-cases (mem n st.pending)) [
        | inl here ↦ ground (arith, results, errors)
        | inr new ↦ ground (arith, results, errors)
      ]

  pub dispatch-Noted : (st : State V) → Noted st → Noted (dispatch plan st)
  unfolding dispatch
  dispatch-Noted st h m f =
      let (results, errors) =
        start_all-results (sort_by (runs_before (priority_of plan)) st.ready) st in
      rw errors (h m (rw results at f))
