-- ===== src/Scheduler/Progress.antt =====
-- A round of the loop forgets no task.
use auto_workflow.Base.{
  ◌≡◌, ◌≢◌, ◌∙◌, inl, true, none, List, [], ◌∷◌, ◌++◌, if◌then◌else◌, Str, eq_iff, filter, mem,
  nodup, mem-erase_one_distinct, Subset, Dict, has_key, lookup, keys, subst, filter-mem,
  nodup-filter, arith,
}
use auto_workflow.Exceptions.{Exn, task_execution_error, ok, raise}
use auto_workflow.Dag.Edges.{down, IsConsistent}
use auto_workflow.Scheduler.{
  Finish, ran, escaped, Plan, State, failed, complete, complete_all, release_all, release_child,
  task_name_of, is_fail_fast, process, after_wait, start_all, start_task, dispatch, sort_by,
  runs_before, priority_of,
}
use auto_workflow.Scheduler.Invariant.{done, Inv}
use auto_workflow.Scheduler.Dispatch.{
  start_task-begun, start_task-Inv, ready-start_task, mem-sort_by, nodup-sort_by,
}
use auto_workflow.Scheduler.Release.{
  set_result, pop, pop-Inv, done-pop, release_child-Inv, release_child-tasks, release_all-Inv,
}
use auto_workflow.Scheduler.Loop.{
  complete-Inv, complete-tasks, complete_all-Inv, process-nil, process-cons, process-is_ran,
  IsBatch,
}
use auto_workflow.Scheduler.Live.{
  in_time, late_for, Live, begun-Live, set_result-Live, pop-Live, release_child-Live,
}

module _ {ℓ} {V : Type ℓ} (plan : Plan) where
  start_all-Live :
      (ns : List Str) (st : State V)
      → nodup ns ≡ true
      → Subset ns st.ready
      → Inv plan st
      → Live plan in_time st
      → Live plan in_time (start_all ns st)
  unfolding start_all mem nodup
  start_all-Live [] st d s i l = l
  start_all-Live (n ∷ ns) st d s i l =
      let r = s n (ground (arith, eq_iff n n)) in
      start_all-Live ns (start_task n st) (ground arith)
        (λ m h. ground (arith, ready-start_task plan n st r i m, s m, eq_iff m n))
        (start_task-Inv plan n st r i)
        (rw (start_task-begun plan n st r i) (begun-Live plan n st r i l))

  pub dispatch-Live :
      (st : State V) → Inv plan st → Live plan in_time st → Live plan in_time (dispatch plan st)
  unfolding dispatch
  dispatch-Live st i l =
      let le = runs_before (priority_of plan) in
      start_all-Live (sort_by le st.ready) st (nodup-sort_by le st.ready ∙ i.ready_distinct)
        (λ m h. rw (mem-sort_by le m st.ready) at h) i l

  with_errors-Live :
      (es : List Exn) (st : State V)
      → Live plan in_time st
      → Live plan in_time (record st { task_errors = es })
  with_errors-Live es st l = record {
    nodes = l.nodes;
    deps_up = l.deps_up;
    deps_open = l.deps_open;
    all_accounted = l.all_accounted;
    given = l.given;
  }

  complete-Live :
      (n : Str) (r : Finish V) (st : State V)
      → mem n st.started ≡ true
      → Live plan in_time st
      → Live plan in_time (complete plan n r st)
  unfolding complete
  complete-Live n (escaped e) st s l = l
  complete-Live n (ran (ok entry)) st s l = set_result-Live plan n entry st s l
  complete-Live n (ran (raise e)) st s l =
      let te = task_execution_error (task_name_of plan n) e in
      with_errors-Live
        (if is_fail_fast plan.policy then st.task_errors else st.task_errors ++ te ∷ [])
        (set_result plan n (failed te) st) (set_result-Live plan n (failed te) st s l)

  complete_all-Live :
      (batch : Dict (Finish V)) (st : State V)
      → Subset (keys batch) st.pending
      → Inv plan st
      → Live plan in_time st
      → Live plan in_time (complete_all plan batch st)
  unfolding complete_all mem
  complete_all-Live [] st s i l = l
  complete_all-Live ((n, r) ∷ batch) st s i l =
      let p = s n (ground (arith, eq_iff n n)) in
      let (same, settled) = complete-tasks plan n r st in
      complete_all-Live batch (complete plan n r st) (λ m h. rw same (s m (ground arith)))
        (complete-Inv plan n r st p i) (complete-Live n r st (i.pending_started n p) l)

  -- Nobody is left to be told.
  all_told : (n : Str) (st : State V) → Live plan (late_for n []) st → Live plan in_time st
  unfolding mem
  all_told n st l = record {
    nodes = l.nodes;
    deps_up = l.deps_up;
    deps_open = λ m u h k. ground (arith, l.deps_open m u h k);
    all_accounted = l.all_accounted;
    given = l.given;
  }

  module _ (c : IsConsistent plan.dag) where
    release_all-Live :
        (n : Str) (cs : List Str) (st : State V)
        → done st n ≡ true
        → Subset cs (keys plan.dag)
        → Inv plan st
        → Live plan (late_for n cs) st
        → Live plan in_time (release_all plan n cs st)
    unfolding release_all mem
    release_all-Live n [] st f s i l = all_told n st l
    release_all-Live n (x ∷ cs) st f s i l =
        let (pending, started, grows) = release_child-tasks plan n x st in
        release_all-Live n cs (release_child plan n x st) (rw (pending, started) f)
          (λ m h. s m (ground arith)) (release_child-Inv plan n x st f i)
          (release_child-Live plan c n x cs st (s x (ground (arith, eq_iff x x))) i l)

    process-Live :
        (batch : Dict (Finish V)) (ns : List Str) (st st' : State V)
        → nodup ns ≡ true
        → Subset ns st.pending
        → ((m : Str) → mem m ns ≡ true → lookup m st.results ≢ none)
        → Inv plan st
        → Live plan in_time st
        → process plan batch ns st ≡ ok st'
        → Live plan in_time st'
    unfolding mem nodup
    process-Live batch [] st st' d s h i l e =
        subst (Live plan in_time) (process-nil plan batch st st' e) l
    process-Live batch (n ∷ ns) st st' d s h i l e =
        let here = s n (ground (arith, eq_iff n n)) in
        let settled = h n (ground (arith, eq_iff n n)) in
        let popped = pop-Inv plan n st settled i in
        let ended : done (pop plan n st) n ≡ true =
          ground (
            arith,
            done-pop plan n st n i.pending_distinct,
            i.pending_started n here,
            eq_iff n n,
          ) in
        let (after, pending, kept) =
          release_all-Inv plan n (down plan.dag n) (pop plan n st) ended popped in
        process-Live batch ns (release_all plan n (down plan.dag n) (pop plan n st)) st'
          (ground arith)
          (λ m k. rw pending (
            ground
              (arith, mem-erase_one_distinct m n st.pending i.pending_distinct, s m, eq_iff m n)))
          (λ m k. kept m (h m (ground arith))) after
          (release_all-Live n (down plan.dag n) (pop plan n st) ended (λ m k. c.down_known n m k)
            popped (pop-Live plan c n st i.pending_distinct l))
          (process-cons plan batch n ns st st' e)

    pub after_wait-Live :
        (batch : Dict (Finish V)) (st st' : State V)
        → IsBatch plan batch st
        → Inv plan st
        → Live plan in_time st
        → after_wait plan batch st ≡ ok st'
        → Live plan in_time st'
    unfolding after_wait IsBatch
    after_wait-Live batch st st' b i l e =
        let (after, pending, settled) = complete_all-Inv plan batch st b i in
        process-Live batch (filter (λ n. has_key n batch) st.pending) (complete_all plan batch st)
          st' (nodup-filter (λ n. has_key n batch) st.pending i.pending_distinct)
          (λ m h. rw pending (filter-mem (λ n. has_key n batch) st.pending m h).0)
          (λ m h.
            settled m
              (inl (process-is_ran plan batch st.pending (complete_all plan batch st) st' e m h)))
          after (complete_all-Live batch st b i l) e
