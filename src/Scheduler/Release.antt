-- ===== src/Scheduler/Release.antt =====
-- Finished tasks: their results, and the tasks that they release, keep the invariant.
use auto_workflow.Base.{
  ◌≡◌, ◌≢◌, ◌∙◌, refl, inl, inr, Bool-cases, and_left, true, false, not, ◌&&◌, ◌||◌, Option, none,
  some, List, [], ◌∷◌, ◌++◌, Str, ◌==◌, eq_iff, any_witness, not_of_any, mem, mem-append, nodup,
  nodup-snoc, erase_one, mem-erase_one_distinct, nodup-erase_one, set_discard, mem-set_discard,
  lookup, insert, has_key, lookup-insert, lookup-none_iff, arith,
}
use auto_workflow.Dag.Edges.{up}
use auto_workflow.Scheduler.{
  Plan, State, Entry, value, failed, is_failed, is_continue, is_empty, deps_of, upstream_failed,
  upstream_error, release_child, release_all,
}
use auto_workflow.Scheduler.Invariant.{done, Supplied, IsClean, Inv}

mem_of_empty : (u : Str) (xs : List Str) → is_empty xs ≡ true → mem u xs ≡ false
unfolding mem
mem_of_empty u [] e = refl
mem_of_empty u (x ∷ xs) e = ground arith

module _ {ℓ} {V : Type ℓ} (plan : Plan) where
  -- A result for a task that is still pending.
  abbrev pub set_result : Str → Entry V → State V → State V
  set_result n e st = record st { results = insert n e st.results }

  set_result-IsClean :
      (n : Str) (e : Entry V) (st : State V) (m : Str)
      → done st n ≡ false
      → Supplied plan st m
      → IsClean plan st m
      → IsClean plan (set_result n e st) m
  set_result-IsClean n e st m h s c u a k =
      let (v, found) = c u a k in
      (v, ground (arith, lookup-insert u n e st.results, eq_iff u n, s u a))

  pub set_result-Inv :
      (n : Str) (e : Entry V) (st : State V)
      → done st n ≡ false
      → Inv plan st
      → Inv plan (set_result n e st)
  set_result-Inv n e st h i = record {
    waits = i.waits;
    ready_supplied = i.ready_supplied;
    started_supplied = i.started_supplied;
    ready_clean = λ m r. set_result-IsClean n e st m h (i.ready_supplied m r) (i.ready_clean m r);
    started_clean =
        λ m r. set_result-IsClean n e st m h (i.started_supplied m r) (i.started_clean m r);
    pending_started = i.pending_started;
    done_settled = λ m r z. ground (arith, lookup-insert m n e st.results, i.done_settled m r);
    ready_new = i.ready_new;
    ready_distinct = i.ready_distinct;
    pending_distinct = i.pending_distinct;
    started_distinct = i.started_distinct;
  }

  -- The end of a task is processed: it leaves the pending tasks.
  abbrev pub pop : Str → State V → State V
  pop n st = record st { pending = erase_one n st.pending }

  pub done-pop :
      (n : Str) (st : State V) (u : Str)
      → nodup st.pending ≡ true
      → done (pop n st) u ≡ (done st u || (u == n && mem n st.started))
  done-pop n st u d = ground (arith, mem-erase_one_distinct u n st.pending d, eq_iff u n)

  pub pop-Inv :
      (n : Str) (st : State V) → lookup n st.results ≢ none → Inv plan st → Inv plan (pop n st)
  pop-Inv n st h i = record {
    waits = λ m u a. ground (arith, i.waits m u a, grown u);
    ready_supplied = λ m r u a. ground (arith, i.ready_supplied m r u a, grown u);
    started_supplied = λ m r u a. ground (arith, i.started_supplied m r u a, grown u);
    ready_clean = i.ready_clean;
    started_clean = i.started_clean;
    pending_started = λ m r.
        ground
          (arith, i.pending_started m, mem-erase_one_distinct m n st.pending i.pending_distinct);
    done_settled = λ m r z. ground (arith, grown m, i.done_settled m, eq_iff m n, h);
    ready_new = i.ready_new;
    ready_distinct = i.ready_distinct;
    pending_distinct = nodup-erase_one n st.pending i.pending_distinct;
    started_distinct = i.started_distinct;
  }
    where
      grown : (u : Str) → done (pop n st) u ≡ (done st u || (u == n && mem n st.started))
      grown u = done-pop n st u i.pending_distinct

  module _ (n c : Str) (st : State V) (finished : done st n ≡ true) (i : Inv plan st) where
    deps : List Str
    deps = set_discard n (deps_of plan c st)

    discarded : State V
    discarded = record st { remaining = insert c deps st.remaining }

    discarded-Inv : Inv plan discarded
    unfolding discarded deps
    discarded-Inv = record {
      waits = λ m u a. ground (
        arith,
        i.waits m u a,
        lookup-insert m c deps st.remaining,
        eq_iff m c,
        mem-set_discard u n (deps_of plan c st),
        eq_iff u n,
        finished,
      );
      ready_supplied = i.ready_supplied;
      started_supplied = i.started_supplied;
      ready_clean = i.ready_clean;
      started_clean = i.started_clean;
      pending_started = i.pending_started;
      done_settled = i.done_settled;
      ready_new = i.ready_new;
      ready_distinct = i.ready_distinct;
      pending_distinct = i.pending_distinct;
      started_distinct = i.started_distinct;
    }

    -- A started task has no failed upstream, unless the policy is to continue.
    not_done_of_failed :
        upstream_failed plan c st ≡ true → is_continue plan.policy ≡ false → done st c ≡ false
    unfolding upstream_failed
    not_done_of_failed f k = elim (Bool-cases (done st c)) [
      | inl yet ↦
          let (u, a, bad) =
            any_witness (λ u. is_failed plan (lookup u st.results)) (up plan.dag c) f in
          let (v, found) =
            i.started_clean c (and_left (mem c st.started) (not (mem c st.pending)) yet) u a k in
          absurd (ground arith)
      | inr not_yet ↦ not_yet
    ]

    abbrev with_ready : State V
    with_ready = record discarded { ready = st.ready ++ c ∷ [] }

    module _ (f : (upstream_failed plan c st && not (is_continue plan.policy)) ≡ false)
        (e : is_empty deps ≡ true) where
      supplied : Supplied plan st c
      unfolding deps discarded
      supplied u a = ground (
        arith,
        discarded-Inv.waits c u a,
        lookup-insert c c deps st.remaining,
        eq_iff c c,
        mem_of_empty u deps e,
      )

      clean : IsClean plan st c
      unfolding upstream_failed
      clean u a k = value_of u (lookup u st.results) refl
        where
          value_of :
              (x : Str) (o : Option (Entry V))
              → lookup u st.results ≡ o
              → (v : V) × (o ≡ some (value v))
          value_of x none z = absurd (i.done_settled u (supplied u a) z)
          value_of x (some (value v)) z = (v, refl)
          value_of x (some (failed b)) z = absurd (
              ground (
                arith,
                not_of_any (λ w. is_failed plan (lookup w st.results)) (up plan.dag c) u
                    (ground arith) a,
              ))

      with_ready-Inv :
          mem c st.ready ≡ false
          → mem c st.pending ≡ false
          → lookup c st.results ≡ none
          → Inv plan with_ready
      unfolding mem discarded
      with_ready-Inv r p s = record {
        waits = discarded-Inv.waits;
        ready_supplied = λ m h. elim (Bool-cases (m == c)) [
          | inl same ↦ rw ((eq_iff m c).0 same) supplied
          | inr other ↦ i.ready_supplied m (ground (arith, mem-append m st.ready (c ∷ [])))
        ];
        started_supplied = i.started_supplied;
        ready_clean = λ m h. elim (Bool-cases (m == c)) [
          | inl same ↦ rw ((eq_iff m c).0 same) clean
          | inr other ↦ i.ready_clean m (ground (arith, mem-append m st.ready (c ∷ [])))
        ];
        started_clean = i.started_clean;
        pending_started = i.pending_started;
        done_settled = i.done_settled;
        ready_new = λ m h.
            ground
              (arith, mem-append m st.ready (c ∷ []), i.ready_new m, eq_iff m c, i.done_settled c);
        ready_distinct = ground (arith, nodup-snoc st.ready c, i.ready_distinct);
        pending_distinct = i.pending_distinct;
        started_distinct = i.started_distinct;
      }

    pub release_child-Inv : Inv plan (release_child plan n c st)
    unfolding release_child discarded deps
    release_child-Inv =
        elim (Bool-cases (upstream_failed plan c st && not (is_continue plan.policy))) [
          | inl fail ↦ rw fail (
              set_result-Inv c (failed (upstream_error c)) discarded
                (not_done_of_failed (ground arith) (ground arith)) discarded-Inv)
          | inr fine ↦
              elim (Bool-cases (
                is_empty deps
                && (not (mem c st.ready)
                    && (not (mem c st.pending) && not (has_key c st.results))))) [
                      | inl free ↦
                          rw (fine, free)
                            (with_ready-Inv fine (ground arith) (ground arith) (ground arith)
                              ((lookup-none_iff c st.results).1 (ground arith)))
                      | inr held ↦ rw (fine, held) discarded-Inv
                    ]
        ]

  -- A release leaves the tasks and the present results alone.
  pub release_child-tasks :
      (n c : Str) (st : State V)
      → ((release_child plan n c st).pending ≡ st.pending)
        × ((release_child plan n c st).started ≡ st.started)
        × ((m : Str)
            → lookup m st.results ≢ none
            → lookup m (release_child plan n c st).results ≢ none)
  unfolding release_child
  release_child-tasks n c st = (
    ground arith,
    ground arith,
    λ m h z. ground (arith, lookup-insert m c (failed (upstream_error c)) st.results, h),
  )

  pub release_all-Inv :
      (n : Str) (cs : List Str) (st : State V)
      → done st n ≡ true
      → Inv plan st
      → Inv plan (release_all plan n cs st)
        × ((release_all plan n cs st).pending ≡ st.pending)
        × ((m : Str)
            → lookup m st.results ≢ none
            → lookup m (release_all plan n cs st).results ≢ none)
  unfolding release_all
  release_all-Inv n [] st f i = (i, refl, λ m h. h)
  release_all-Inv n (c ∷ cs) st f i =
      let (pending, started, grows) = release_child-tasks n c st in
      let (after, same, kept) =
        release_all-Inv n cs (release_child plan n c st) (rw (pending, started) f)
          (release_child-Inv n c st f i) in
      (after, same ∙ pending, λ m h. kept m (grows m h))
