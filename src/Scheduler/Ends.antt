-- ===== src/Scheduler/Ends.antt =====
-- How `execute_dag` ends: with a result for every task, or with an exception; and that it ends.
use auto_workflow.Base.{
  Bool, ◌&&◌, ◌≡◌, ◌≢◌, ◌∙◌, refl, subst, ◌||◌, sym, inl, inr, Bool-cases, true, false, not, none,
  some, List, [], ◌∷◌, ◌++◌, Str, ◌==◌, eq_iff, mem, mem-append, nodup, Dict, lookup, keys, Option,
  arith,
}
use auto_workflow.Exceptions.{Exn, Result, ok, raise}
use auto_workflow.Dag.Edges.{up, IsConsistent}
use auto_workflow.Dag.Kahn.{Follows}
use auto_workflow.Dag.Order.{IsOrder}
use auto_workflow.Scheduler.{
  Finish, Plan, State, Outcome, returned, raised, is_empty, deps_of, is_continue, Entry, conclude,
  loop, dispatch, after_wait, value, failed,
}
use auto_workflow.Scheduler.Invariant.{done, Inv}
use auto_workflow.Scheduler.Dispatch.{dispatch-Inv}
use auto_workflow.Scheduler.Loop.{IsBatch, after_wait-Inv}
use auto_workflow.Scheduler.Live.{in_time, Live}
use auto_workflow.Scheduler.Progress.{dispatch-Live, after_wait-Live}
use auto_workflow.Scheduler.Failures.{all_plain, Noted, reported, dispatch-Noted, after_wait-Noted}

-- No task of the batches returns a TaskExecutionError as its value.
unfoldable pub all_plain_batches {ℓ} : {V : Type ℓ} → List (Dict (Finish V)) → Bool
all_plain_batches [] = true
all_plain_batches (batch ∷ batches) = all_plain batch && all_plain_batches batches

pub first_of : (xs : List Str) → is_empty xs ≡ false → (x : Str) × (mem x xs ≡ true)
unfolding mem
first_of [] e = absurd (ground arith)
first_of (x ∷ xs) e = (x, ground (arith, eq_iff x x))

module _ {ℓ} {V : Type ℓ} (plan : Plan) where
  conclude_returned :
      (st st' : State V)
      → conclude plan st ≡ returned st'
      → (st ≡ st') × ((is_continue plan.policy || not (reported plan st)) ≡ true)
  unfolding conclude
  conclude_returned st st' e = (ground arith, ground arith)

  -- Nothing is left to do.
  module _ (st : State V) (l : Live plan in_time st) (noted : Noted plan st)
      (idle : (n : Str) → mem n st.ready ≡ false) (over : is_empty st.pending ≡ true)
      (fine : (is_continue plan.policy || not (reported plan st)) ≡ true) where
    done_of_up :
        (n : Str)
        → mem n (keys plan.dag) ≡ true
        → ((u : Str) → mem u (up plan.dag n) ≡ true → done st u ≡ true)
        → done st n ≡ true
    unfolding mem
    done_of_up n k before = elim (Bool-cases (is_empty (deps_of plan n st))) [
      | inl free ↦ ground (arith, l.all_accounted n k, idle n, noted n)
      | inr awaits ↦
          let (u, m) = first_of (deps_of plan n st) awaits in
          absurd (ground (arith, l.deps_open n u m (before u (l.deps_up n u m))))
    ]

    -- Along an order in which each task stands behind those it awaits.
    done_along :
        (seen order : List Str)
        → Follows plan.dag seen order
        → ((n : Str) → mem n order ≡ true → mem n (keys plan.dag) ≡ true)
        → ((n : Str) → mem n seen ≡ true → done st n ≡ true)
        → (n : Str) → mem n order ≡ true
        → done st n ≡ true
    unfolding Follows mem
    done_along seen [] f k before n m = absurd (ground arith)
    done_along seen (x ∷ order) f k before n m =
        let here = done_of_up x (k x (ground (arith, eq_iff x x))) (λ u a. before u (f.0 u a)) in
        elim (Bool-cases (n == x)) [
          | inl same ↦ rw ((eq_iff n x).0 same) here
          | inr other ↦
              done_along (seen ++ x ∷ []) order f.1 (λ u a. k u (ground arith))
                (λ u a. elim (Bool-cases (u == x)) [
                  | inl same ↦ rw ((eq_iff u x).0 same) here
                  | inr differs ↦ before u (ground (arith, mem-append u seen (x ∷ [])))
                ])
                n (ground arith)
        ]

    done_of_order :
        (order : List Str)
        → IsOrder plan.dag order
        → (n : Str) → mem n (keys plan.dag) ≡ true
        → done st n ≡ true
    unfolding mem
    done_of_order order o n k =
        done_along [] order o.ordered (λ u m. sym (o.complete u) ∙ m) (λ u m. absurd (ground arith))
          n (o.complete n ∙ k)

  -- The batches that `asyncio.wait` returns from the head of a round on: each has tasks that are
  -- pending then, at least one of them, and each of its tasks once.
  pub data Reports : List (Dict (Finish V)) → State V → Type ℓ where
    no_more : (st : State V) → Reports [] st
    report :
        (batch : Dict (Finish V)) (batches : List (Dict (Finish V))) (st : State V)
        → IsBatch plan batch (dispatch plan st)
        → nodup (keys batch) ≡ true
        → is_empty (keys batch) ≡ false
        → ((st' : State V)
            → after_wait plan batch (dispatch plan st) ≡ ok st'
            → Reports batches st')
        → Reports (batch ∷ batches) st

  pub loop-goes_on :
      (batch : Dict (Finish V)) (batches : List (Dict (Finish V))) (st : State V) (end : Outcome V)
      → is_empty (dispatch plan st).pending ≡ false
      → ((x : Exn) → raised x ≢ end)
      → loop plan (batch ∷ batches) st ≡ end
      → (later : State V) × (after_wait plan batch (dispatch plan st) ≡ ok later)
        × (loop plan batches later ≡ end)
  unfolding loop
  loop-goes_on batch batches st end busy h e =
      by_result (after_wait plan batch (dispatch plan st)) refl (rw busy at e)
    where
      by_result :
          (r : Result (State V))
          → after_wait plan batch (dispatch plan st) ≡ r
          → elim r [ raise e ↦ raised e | ok st' ↦ loop plan batches st' ] ≡ end
          → (later : State V) × (r ≡ ok later) × (loop plan batches later ≡ end)
      by_result (ok later) z e = (later, refl, e)
      by_result (raise x) z e = absurd (h x e)

  -- Each task of the graph has an entry, and a value where the policy does not go on behind failures.
  abbrev pub Finished : State V → Type ℓ
  Finished st =
      (n : Str)
      → mem n (keys plan.dag) ≡ true
      → (lookup n st.results ≢ none)
        × (is_continue plan.policy ≡ false → (v : V) × (lookup n st.results ≡ some (value v)))

  module _ (c : IsConsistent plan.dag) (order : List Str) (o : IsOrder plan.dag order) where
    concluded-Finished :
        (st st' : State V)
        → Inv plan st
        → Live plan in_time st
        → Noted plan st
        → ((n : Str) → mem n st.ready ≡ false)
        → is_empty st.pending ≡ true
        → conclude plan st ≡ returned st'
        → Finished st'
    concluded-Finished st st' i l noted idle over e =
        let (same, fine) = conclude_returned st st' e in
        subst Finished same (λ n k.
          let settled = i.done_settled n (done_of_order st l noted idle over fine order o n k) in
          (settled, λ p. value_of n (lookup n st.results) refl settled p fine))
      where
        value_of :
            (n : Str) (entry : Option (Entry V))
            → lookup n st.results ≡ entry
            → entry ≢ none
            → is_continue plan.policy ≡ false
            → (is_continue plan.policy || not (reported plan st)) ≡ true
            → (v : V) × (entry ≡ some (value v))
        value_of n none z s p fine = absurd (s refl)
        value_of n (some (value v)) z s p fine = (v, refl)
        value_of n (some (failed b)) z s p fine = absurd (ground (arith, noted n))

    pub loop-Finished :
        (batches : List (Dict (Finish V))) (st st' : State V)
        → Reports batches st
        → Inv plan st
        → Live plan in_time st
        → Noted plan st
        → (is_continue plan.policy || all_plain_batches batches) ≡ true
        → loop plan batches st ≡ returned st'
        → Finished st'
    unfolding loop all_plain_batches
    loop-Finished [] st st' r i l noted q e =
        let (after, idle) = dispatch-Inv plan st i in
        elim (Bool-cases (is_empty (dispatch plan st).pending)) [
          | inl over ↦
              concluded-Finished (dispatch plan st) st' after (dispatch-Live plan st i l)
                (dispatch-Noted plan st noted) idle over (rw over at e)
          | inr busy ↦ absurd (ground (arith, rw busy at e))
        ]
    loop-Finished (batch ∷ batches) st st' (report _ _ _ b d x next) i l noted q e =
        let (after, idle) = dispatch-Inv plan st i in
        let live = dispatch-Live plan st i l in
        let told = dispatch-Noted plan st noted in
        elim (Bool-cases (is_empty (dispatch plan st).pending)) [
          | inl over ↦
              concluded-Finished (dispatch plan st) st' after live told idle over (rw over at e)
          | inr busy ↦
              let (later, waited, rest) =
                loop-goes_on batch batches st (returned st') busy (λ x z. ground arith) e in
              loop-Finished batches later st' (next later waited)
                (after_wait-Inv plan batch (dispatch plan st) later b after waited)
                (after_wait-Live plan c batch (dispatch plan st) later b after live waited)
                (after_wait-Noted plan batch (dispatch plan st) later b d (ground (arith, q)) told
                  waited)
                (ground (arith, q)) rest
        ]
