-- ===== src/Scheduler/Rounds.antt =====
-- Every round but the last ends a task, so the loop ends.
use auto_workflow.Base.{
  ◌≡◌, ◌≢◌, ◌∙◌, refl, inl, inr, Bool-cases, true, false, List, [], ◌∷◌, Str, eq_iff, filter, mem,
  nodup, mem-erase_one_distinct, nodup-erase_one, length-erase_one, length-append,
  length-le_of_subset, Subset, Dict, has_key, keys, filter-mem, nodup-filter, arith, ℕ, suc, ◌≤◌,
  ◌+◌, length,
}
use auto_workflow.Exceptions.{ok, raise}
use auto_workflow.Dag.Edges.{down, IsConsistent}
use auto_workflow.Scheduler.{
  Finish, ran, escaped, Plan, State, waiting, complete, complete_all, release_all, release_child,
  process, after_wait, start_all, start_task, dispatch, sort_by, runs_before, priority_of, is_empty,
  conclude, loop,
}
use auto_workflow.Scheduler.Invariant.{Inv}
use auto_workflow.Scheduler.Dispatch.{
  begun, start_task-begun, start_task-Inv, ready-start_task, mem-sort_by, nodup-sort_by,
  dispatch-Inv,
}
use auto_workflow.Scheduler.Release.{pop, release_child-tasks}
use auto_workflow.Scheduler.Loop.{
  complete_all-Inv, process-nil, process-cons, IsBatch, after_wait-Inv,
}
use auto_workflow.Scheduler.Live.{in_time, Live}
use auto_workflow.Scheduler.Progress.{dispatch-Live, after_wait-Live}
use auto_workflow.Scheduler.Failures.{mem-filter}
use auto_workflow.Scheduler.Ends.{Reports, report, first_of, loop-goes_on}

length_of_mem : (x : Str) (xs : List Str) → mem x xs ≡ true → suc 0 ≤ length xs
unfolding mem
length_of_mem x [] m = ground arith
length_of_mem x (y ∷ ys) m = omega arith

length_of_busy : (xs : List Str) → is_empty xs ≡ false → suc 0 ≤ length xs
length_of_busy [] b = ground arith
length_of_busy (y ∷ ys) b = omega arith

module _ {ℓ} {V : Type ℓ} (plan : Plan) where
  -- `k` tasks have ended.
  abbrev pub Ended : ℕ → State V → Type 0
  Ended k st = length st.started ≡ length st.pending + k

  start_all-Ended :
      (k : ℕ) (ns : List Str) (st : State V)
      → nodup ns ≡ true
      → Subset ns st.ready
      → Inv plan st
      → Ended k st
      → Ended k (start_all ns st)
  unfolding start_all mem nodup begun
  start_all-Ended k [] st d s i h = h
  start_all-Ended k (n ∷ ns) st d s i h =
      let r = s n (ground (arith, eq_iff n n)) in
      start_all-Ended k ns (start_task n st) (ground arith)
        (λ m g. ground (arith, ready-start_task plan n st r i m, s m, eq_iff m n))
        (start_task-Inv plan n st r i)
        (rw (start_task-begun plan n st r i)
          (omega (arith, length-append st.started (n ∷ []), length-append st.pending (n ∷ []))))

  dispatch-Ended : (k : ℕ) (st : State V) → Inv plan st → Ended k st → Ended k (dispatch plan st)
  unfolding dispatch
  dispatch-Ended k st i h =
      let le = runs_before (priority_of plan) in
      start_all-Ended k (sort_by le st.ready) st (nodup-sort_by le st.ready ∙ i.ready_distinct)
        (λ m g. rw (mem-sort_by le m st.ready) at g) i h

  complete_all-started :
      (batch : Dict (Finish V)) (st : State V) → (complete_all plan batch st).started ≡ st.started
  unfolding complete_all complete
  complete_all-started [] st = refl
  complete_all-started ((n, escaped e) ∷ batch) st =
      complete_all-started batch (complete plan n (escaped e) st)
  complete_all-started ((n, ran (ok entry)) ∷ batch) st =
      complete_all-started batch (complete plan n (ran (ok entry)) st)
  complete_all-started ((n, ran (raise e)) ∷ batch) st =
      complete_all-started batch (complete plan n (ran (raise e)) st)

  release_all-tasks :
      (n : Str) (cs : List Str) (st : State V)
      → ((release_all plan n cs st).pending ≡ st.pending)
        × ((release_all plan n cs st).started ≡ st.started)
  unfolding release_all
  release_all-tasks n [] st = (refl, refl)
  release_all-tasks n (x ∷ cs) st =
      let (pending, started, grows) = release_child-tasks plan n x st in
      let (pendings, starteds) = release_all-tasks n cs (release_child plan n x st) in
      (pendings ∙ pending, starteds ∙ started)

  process-Ended :
      (k : ℕ) (batch : Dict (Finish V)) (ns : List Str) (st st' : State V)
      → nodup ns ≡ true
      → nodup st.pending ≡ true
      → Subset ns st.pending
      → Ended k st
      → process plan batch ns st ≡ ok st'
      → Ended (k + length ns) st'
  unfolding mem nodup
  process-Ended k batch [] st st' d p s h e = ground (arith, h, process-nil plan batch st st' e)
  process-Ended k batch (n ∷ ns) st st' d p s h e =
      let (pending, started) = release_all-tasks n (down plan.dag n) (pop plan n st) in
      let here = s n (ground (arith, eq_iff n n)) in
      let rest =
        process-Ended (suc k) batch ns (release_all plan n (down plan.dag n) (pop plan n st)) st'
          (ground arith) (rw pending (nodup-erase_one n st.pending p))
          (λ m g.
            rw pending (ground (arith, mem-erase_one_distinct m n st.pending p, s m, eq_iff m n)))
          (rw (pending, started) (omega (arith, h, length-erase_one n st.pending here)))
          (process-cons plan batch n ns st st' e) in
      omega (arith, rest)

  after_wait-Ended :
      (k : ℕ) (batch : Dict (Finish V)) (st st' : State V)
      → IsBatch plan batch st
      → is_empty (keys batch) ≡ false
      → Inv plan st
      → Ended k st
      → after_wait plan batch st ≡ ok st'
      → (j : ℕ) × (suc k ≤ j) × Ended j st'
  unfolding after_wait IsBatch
  after_wait-Ended k batch st st' b x i h e =
      let names = filter (λ n. has_key n batch) st.pending in
      let (after, pending, settled) = complete_all-Inv plan batch st b i in
      let (n, m) = first_of (keys batch) x in
      let found = mem-filter (λ n. has_key n batch) st.pending n (b n m) m in
      (
        k + length names,
        omega (arith, length_of_mem n names found),
        process-Ended k batch names (complete_all plan batch st) st'
            (nodup-filter (λ n. has_key n batch) st.pending i.pending_distinct)
            (rw pending i.pending_distinct)
            (λ m g. rw pending (filter-mem (λ n. has_key n batch) st.pending m g).0)
            (rw (pending, complete_all-started batch st) h) e,
      )

  conclude-ends : (st st' : State V) → conclude plan st ≢ waiting st'
  unfolding conclude
  conclude-ends st st' e = ground arith

  -- No more tasks end than the graph has.
  Ended-le :
      (k : ℕ) (st : State V)
      → Inv plan st
      → Live plan in_time st
      → Ended k st
      → length st.pending + k ≤ length (keys plan.dag)
  Ended-le k st i l h = omega (
    arith,
    length-le_of_subset st.started (keys plan.dag) i.started_distinct
        (λ n m. l.nodes n (ground arith)),
  )

  module _ (c : IsConsistent plan.dag) where
    pub loop_ends :
        (k : ℕ) (batches : List (Dict (Finish V))) (st st' : State V)
        → Reports plan batches st
        → Inv plan st
        → Live plan in_time st
        → Ended k st
        → length (keys plan.dag) ≤ k + length batches
        → loop plan batches st ≢ waiting st'
    unfolding loop
    loop_ends k [] st st' r i l h enough e =
        let (after, idle) = dispatch-Inv plan st i in
        elim (Bool-cases (is_empty (dispatch plan st).pending)) [
          | inl over ↦ conclude-ends (dispatch plan st) st' (rw over at e)
          | inr busy ↦ absurd (
              omega (
                arith,
                length_of_busy (dispatch plan st).pending busy,
                Ended-le k (dispatch plan st) after (dispatch-Live plan st i l)
                    (dispatch-Ended k st i h),
              ))
        ]
    loop_ends k (batch ∷ batches) st st' (report _ _ _ b d x next) i l h enough e =
        let (after, idle) = dispatch-Inv plan st i in
        let live = dispatch-Live plan st i l in
        elim (Bool-cases (is_empty (dispatch plan st).pending)) [
          | inl over ↦ conclude-ends (dispatch plan st) st' (rw over at e)
          | inr busy ↦
              let (later, waited, rest) =
                loop-goes_on plan batch batches st (waiting st') busy (λ x z. ground arith) e in
              let (j, more, ended) =
                after_wait-Ended k batch (dispatch plan st) later b x after
                  (dispatch-Ended k st i h) waited in
              loop_ends j batches later st' (next later waited)
                (after_wait-Inv plan batch (dispatch plan st) later b after waited)
                (after_wait-Live plan c batch (dispatch plan st) later b after live waited) ended
                (omega arith) rest
        ]
