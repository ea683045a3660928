-- ===== src/Scheduler/Loop.antt =====
-- The loop: every round keeps the invariant, from the start.
use auto_workflow.Base.{
  Bool, false, Option, some, ◌&&◌, lookup-none_iff, ◌≡◌, ◌≢◌, ◌∙◌, refl, inl, inr, ◌⊎◌, Bool-cases,
  true, none, List, [], ◌∷◌, ◌++◌, if◌then◌else◌, Str, ◌==◌, eq_iff, filter, mem, nodup,
  mem-erase_one_distinct, Subset, Dict, has_key, lookup, lookup-insert, keys, subst, filter-mem,
  nodup-filter, arith,
}
use auto_workflow.Exceptions.{Exn, task_execution_error, ok, raise}
use auto_workflow.Dag.Edges.{down}
use auto_workflow.Scheduler.{
  Finish, ran, escaped, Plan, State, failed, complete, complete_all, release_all, task_name_of,
  is_fail_fast, process, after_wait, exception_of,
}
use auto_workflow.Scheduler.Invariant.{Inv}
use auto_workflow.Scheduler.Release.{
  set_result, set_result-Inv, pop, pop-Inv, done-pop, release_all-Inv,
}

abbrev pub is_ran {ℓ} : {V : Type ℓ} → Option (Finish V) → Bool
is_ran none = false
is_ran (some (ran r)) = true
is_ran (some (escaped e)) = false

module _ {ℓ} {V : Type ℓ} (plan : Plan) where
  with_errors-Inv :
      (es : List Exn) (st : State V) → Inv plan st → Inv plan (record st { task_errors = es })
  with_errors-Inv es st i = record {
    waits = i.waits;
    ready_supplied = i.ready_supplied;
    started_supplied = i.started_supplied;
    ready_clean = i.ready_clean;
    started_clean = i.started_clean;
    pending_started = i.pending_started;
    done_settled = i.done_settled;
    ready_new = i.ready_new;
    ready_distinct = i.ready_distinct;
    pending_distinct = i.pending_distinct;
    started_distinct = i.started_distinct;
  }

  pub complete-Inv :
      (n : Str) (r : Finish V) (st : State V)
      → mem n st.pending ≡ true
      → Inv plan st
      → Inv plan (complete plan n r st)
  unfolding complete
  complete-Inv n (escaped e) st p i = i
  complete-Inv n (ran (ok entry)) st p i = set_result-Inv plan n entry st (ground arith) i
  complete-Inv n (ran (raise e)) st p i =
      let te = task_execution_error (task_name_of plan n) e in
      with_errors-Inv
        (if is_fail_fast plan.policy then st.task_errors else st.task_errors ++ te ∷ [])
        (set_result plan n (failed te) st) (set_result-Inv plan n (failed te) st (ground arith) i)

  pub complete-tasks :
      (n : Str) (r : Finish V) (st : State V)
      → ((complete plan n r st).pending ≡ st.pending)
        × ((m : Str)
            → ((is_ran (some r) && m == n) ≡ true) ⊎ (lookup m st.results ≢ none)
            → lookup m (complete plan n r st).results ≢ none)
  unfolding complete
  complete-tasks n (escaped e) st = (refl, λ m h z. ground (arith, h))
  complete-tasks n (ran (ok entry)) st =
      (refl, λ m h z. ground (arith, h, lookup-insert m n entry st.results))
  complete-tasks n (ran (raise e)) st =
      let te = task_execution_error (task_name_of plan n) e in
      (refl, λ m h z. ground (arith, h, lookup-insert m n (failed te) st.results))

  settle :
      (m n : Str) (r : Finish V) (st : State V) (batch : Dict (Finish V))
      → (is_ran (lookup m ((n, r) ∷ batch)) ≡ true) ⊎ (lookup m st.results ≢ none)
      → (is_ran (lookup m batch) ≡ true) ⊎ (lookup m (complete plan n r st).results ≢ none)
  unfolding lookup
  settle m n r st batch h = elim (Bool-cases (m == n)) [
    | inl now ↦ inr (
        (complete-tasks n r st).1 m
          (elim h [ inl fine ↦ inl (ground (arith, fine, now)) | inr old ↦ inr old ]))
    | inr later ↦ (elim h [
      | inl fine ↦ inl (ground (arith, fine, later))
      | inr old ↦ inr ((complete-tasks n r st).1 m (inr old))
    ])
  ]

  -- The results of the runs of a batch are there before the first of them is processed.
  pub complete_all-Inv :
      (batch : Dict (Finish V)) (st : State V)
      → Subset (keys batch) st.pending
      → Inv plan st
      → Inv plan (complete_all plan batch st)
        × ((complete_all plan batch st).pending ≡ st.pending)
        × ((m : Str)
            → (is_ran (lookup m batch) ≡ true) ⊎ (lookup m st.results ≢ none)
            → lookup m (complete_all plan batch st).results ≢ none)
  unfolding complete_all mem lookup
  complete_all-Inv [] st s i = (i, refl, λ m h. ground arith)
  complete_all-Inv ((n, r) ∷ batch) st s i =
      let p = s n (ground (arith, eq_iff n n)) in
      let (same, settled) = complete-tasks n r st in
      let (after, same', kept) =
        complete_all-Inv batch (complete plan n r st) (λ m h. rw same (s m (ground arith)))
          (complete-Inv n r st p i) in
      (after, same' ∙ same, λ m h. kept m (settle m n r st batch h))

  pub process-nil :
      (batch : Dict (Finish V)) (st st' : State V) → process plan batch [] st ≡ ok st' → st ≡ st'
  unfolding process
  process-nil batch st st' e = ground arith

  pub process-cons :
      (batch : Dict (Finish V)) (n : Str) (ns : List Str) (st st' : State V)
      → process plan batch (n ∷ ns) st ≡ ok st'
      → process plan batch ns (release_all plan n (down plan.dag n) (pop plan n st)) ≡ ok st'
  unfolding process
  process-cons batch n ns st st' e = ground arith

  -- A task whose exception is raised again ends the processing.
  pub process-exceptions :
      (batch : Dict (Finish V)) (ns : List Str) (st st' : State V)
      → process plan batch ns st ≡ ok st'
      → (n : Str) → mem n ns ≡ true
      → exception_of plan batch n ≡ none
  unfolding process mem
  process-exceptions batch [] st st' e n h = absurd (ground arith)
  process-exceptions batch (x ∷ ns) st st' e n h = elim (Bool-cases (n == x)) [
    | inl same ↦ rw ((eq_iff n x).0 same) (ground arith)
    | inr other ↦
        process-exceptions batch ns (release_all plan x (down plan.dag x) (pop plan x st)) st'
          (process-cons batch x ns st st' e) n (ground arith)
  ]

  -- So each task of a batch that is processed to its end has run.
  pub process-is_ran :
      (batch : Dict (Finish V)) (pending : List Str) (st st' : State V)
      → process plan batch (filter (λ n. has_key n batch) pending) st ≡ ok st'
      → (n : Str) → mem n (filter (λ n. has_key n batch) pending) ≡ true
      → is_ran (lookup n batch) ≡ true
  process-is_ran batch pending st st' e n h =
      by_entry (lookup n batch) refl
        (process-exceptions batch (filter (λ n. has_key n batch) pending) st st' e n h)
        (filter-mem (λ n. has_key n batch) pending n h).1
    where
      by_entry :
          (found : Option (Finish V))
          → lookup n batch ≡ found
          → exception_of plan batch n ≡ none
          → mem n (keys batch) ≡ true
          → is_ran found ≡ true
      by_entry none z q k = absurd (ground (arith, (lookup-none_iff n batch).0 z))
      by_entry (some (ran r)) z q k = refl
      by_entry (some (escaped x)) z q k = absurd (ground (arith, rw (z, exception_of) at q))

  process-Inv :
      (batch : Dict (Finish V)) (ns : List Str) (st st' : State V)
      → nodup ns ≡ true
      → Subset ns st.pending
      → ((m : Str) → mem m ns ≡ true → lookup m st.results ≢ none)
      → Inv plan st
      → process plan batch ns st ≡ ok st'
      → Inv plan st'
  unfolding mem nodup
  process-Inv batch [] st st' d s h i e = subst (Inv plan) (process-nil batch st st' e) i
  process-Inv batch (n ∷ ns) st st' d s h i e =
      let here = s n (ground (arith, eq_iff n n)) in
      let settled = h n (ground (arith, eq_iff n n)) in
      let popped = pop-Inv plan n st settled i in
      let (after, pending, kept) =
        release_all-Inv plan n (down plan.dag n) (pop plan n st)
          (ground
            (arith, done-pop plan n st n i.pending_distinct, i.pending_started n here, eq_iff n n))
          popped in
      process-Inv batch ns (release_all plan n (down plan.dag n) (pop plan n st)) st' (ground arith)
        (λ m k. rw pending (
          ground
            (arith, mem-erase_one_distinct m n st.pending i.pending_distinct, s m, eq_iff m n)))
        (λ m k. kept m (h m (ground arith))) after (process-cons batch n ns st st' e)

  -- The tasks of a batch are pending ones.
  unfoldable pub IsBatch : Dict (Finish V) → State V → Type 0
  IsBatch batch st = Subset (keys batch) st.pending

  pub after_wait-Inv :
      (batch : Dict (Finish V)) (st st' : State V)
      → IsBatch batch st
      → Inv plan st
      → after_wait plan batch st ≡ ok st'
      → Inv plan st'
  unfolding after_wait IsBatch
  after_wait-Inv batch st st' b i e =
      let (after, pending, settled) = complete_all-Inv batch st b i in
      process-Inv batch (filter (λ n. has_key n batch) st.pending) (complete_all plan batch st) st'
        (nodup-filter (λ n. has_key n batch) st.pending i.pending_distinct)
        (λ m h. rw pending (filter-mem (λ n. has_key n batch) st.pending m h).0)
        (λ m h.
          settled m (inl (process-is_ran batch st.pending (complete_all plan batch st) st' e m h)))
        after e
