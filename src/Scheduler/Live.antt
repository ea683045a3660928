-- ===== src/Scheduler/Live.antt =====
-- No task of the graph is forgotten by the loop: what each round keeps, beside the invariant.
use auto_workflow.Base.{
  ◌≡◌, inl, inr, Bool, Bool-cases, true, false, not, ◌&&◌, ◌||◌, List, [], ◌∷◌, ◌++◌, Str, ◌==◌,
  eq_iff, mem, mem-append, nodup, mem-erase_one_distinct, set_discard, mem-set_discard, lookup,
  insert, has_key, lookup-insert, mem-keys-insert, keys, Dict, arith,
}
use auto_workflow.Dag.Edges.{up, down, IsConsistent}
use auto_workflow.Scheduler.{
  Plan, State, Entry, failed, is_failed, is_continue, is_empty, deps_of, upstream_failed,
  upstream_error, release_child,
}
use auto_workflow.Scheduler.Invariant.{done, Inv}
use auto_workflow.Scheduler.Release.{pop, done-pop, set_result}
use auto_workflow.Scheduler.Dispatch.{begun}

abbrev pub in_time : Str → Str → Bool
in_time u n = false

-- `n` has ended; `cs` are still to be told.
abbrev pub late_for : Str → List Str → Str → Str → Bool
late_for n cs u m = u == n && mem m cs

module _ {ℓ} {V : Type ℓ} (plan : Plan) where
  -- The entry of a task that is not run for a failure in front of it.
  abbrev pub cancelled : Str → State V → Bool
  cancelled n st = not (is_continue plan.policy) && is_failed plan (lookup n st.results)

  -- The task was created, will be, awaits another one, or is not run for a failure in front of it.
  abbrev pub accounted : Str → State V → Bool
  accounted n st =
      mem n st.started || (mem n st.ready || (not (is_empty (deps_of plan n st)) || cancelled n st))

  -- `late u n`: the end of `u` is being processed, and `n` has not been told.
  pub record Live (late : Str → Str → Bool) (st : State V) : Type ℓ where
    pub nodes :
        (n : Str) → (mem n st.started || mem n st.ready) ≡ true → mem n (keys plan.dag) ≡ true
    pub deps_up : (n u : Str) → mem u (deps_of plan n st) ≡ true → mem u (up plan.dag n) ≡ true
    pub deps_open :
        (n u : Str) → mem u (deps_of plan n st) ≡ true → done st u ≡ true → late u n ≡ true
    pub all_accounted : (n : Str) → mem n (keys plan.dag) ≡ true → accounted n st ≡ true
    pub given :
        (n : Str) → has_key n st.results ≡ true → (mem n st.started || cancelled n st) ≡ true

  pub begun-Live :
      (n : Str) (st : State V)
      → mem n st.ready ≡ true
      → Inv plan st
      → Live in_time st
      → Live in_time (begun plan n st)
  unfolding begun mem
  begun-Live n st r i l = record {
    nodes = λ m h. ground (
      arith,
      l.nodes m,
      mem-append m st.started (n ∷ []),
      eq_iff m n,
      mem-erase_one_distinct m n st.ready i.ready_distinct,
    );
    deps_up = l.deps_up;
    deps_open = λ m u h k. ground (
      arith,
      l.deps_open m u h,
      mem-append u st.started (n ∷ []),
      mem-append u st.pending (n ∷ []),
    );
    all_accounted = λ m h. ground (
      arith,
      l.all_accounted m h,
      mem-append m st.started (n ∷ []),
      eq_iff m n,
      mem-erase_one_distinct m n st.ready i.ready_distinct,
    );
    given = λ m h. ground (arith, l.given m h, mem-append m st.started (n ∷ []));
  }

  pub set_result-Live :
      (n : Str) (e : Entry V) (st : State V)
      → mem n st.started ≡ true
      → Live in_time st
      → Live in_time (set_result plan n e st)
  set_result-Live n e st s l = record {
    nodes = l.nodes;
    deps_up = l.deps_up;
    deps_open = l.deps_open;
    all_accounted =
        λ m h. ground (arith, l.all_accounted m h, lookup-insert m n e st.results, eq_iff m n);
    given = λ m h. ground (
      arith,
      l.given m,
      lookup-insert m n e st.results,
      mem-keys-insert m n e st.results,
      eq_iff m n,
    );
  }

  module _ (c : IsConsistent plan.dag) where
    -- Those that await `n` are downstream of it.
    pub pop-Live :
        (n : Str) (st : State V)
        → nodup st.pending ≡ true
        → Live in_time st
        → Live (late_for n (down plan.dag n)) (pop plan n st)
    pop-Live n st d l = record {
      nodes = l.nodes;
      deps_up = l.deps_up;
      deps_open = λ m u h k. ground (
        arith,
        l.deps_open m u h,
        l.deps_up m u h,
        done-pop plan n st u d,
        c.mirrored u m,
        eq_iff u n,
      );
      all_accounted = l.all_accounted;
      given = l.given;
    }

    module _ (n x : Str) (cs : List Str) (st : State V) (inside : mem x (keys plan.dag) ≡ true)
        (i : Inv plan st) (l : Live (late_for n (x ∷ cs)) st) where
      deps : List Str
      deps = set_discard n (deps_of plan x st)

      told : Dict (Entry V) → List Str → State V
      told results ready = record st {
        remaining = insert x deps st.remaining;
        results = results;
        ready = ready;
      }

      told-Live :
          (results : Dict (Entry V)) (ready : List Str)
          → ((m : Str) → mem m ready ≡ true → (mem m st.ready || m == x) ≡ true)
          → ((m : Str) → mem m (keys plan.dag) ≡ true → accounted m (told results ready) ≡ true)
          → ((m : Str)
              → has_key m results ≡ true
              → (mem m st.started || cancelled m (told results ready)) ≡ true)
          → Live (late_for n cs) (told results ready)
      unfolding told deps mem
      told-Live results ready r a g = record {
        nodes = λ m h. ground (arith, l.nodes m, r m, eq_iff m x);
        deps_up = λ m u h. ground (
          arith,
          l.deps_up m u,
          lookup-insert m x deps st.remaining,
          eq_iff m x,
          mem-set_discard u n (deps_of plan x st),
        );
        deps_open = λ m u h k. ground (
          arith,
          l.deps_open m u,
          lookup-insert m x deps st.remaining,
          eq_iff m x,
          mem-set_discard u n (deps_of plan x st),
        );
        all_accounted = a;
        given = g;
      }

      cancelled-Live :
          is_continue plan.policy ≡ false
          → Live (late_for n cs) (told (insert x (failed (upstream_error x)) st.results) st.ready)
      unfolding told deps mem
      cancelled-Live k =
          let e = failed (upstream_error x) in
          told-Live (insert x e st.results) st.ready (λ m h. ground arith)
            (λ m h. ground (
              arith,
              l.all_accounted m h,
              lookup-insert m x e st.results,
              lookup-insert m x deps st.remaining,
              eq_iff m x,
            ))
            (λ m h. ground (
              arith,
              l.given m,
              lookup-insert m x e st.results,
              mem-keys-insert m x e st.results,
              eq_iff m x,
            ))

      ready-Live : Live (late_for n cs) (told st.results (st.ready ++ x ∷ []))
      unfolding told deps mem
      ready-Live =
          told-Live st.results (st.ready ++ x ∷ [])
            (λ m h. ground (arith, mem-append m st.ready (x ∷ [])))
            (λ m h. ground (
              arith,
              l.all_accounted m h,
              mem-append m st.ready (x ∷ []),
              lookup-insert m x deps st.remaining,
              eq_iff m x,
            ))
            (λ m h. ground (arith, l.given m h))

      held-Live :
          (is_empty deps
              && (not (mem x st.ready) && (not (mem x st.pending) && not (has_key x st.results))))
            ≡ false
          → Live (late_for n cs) (told st.results st.ready)
      unfolding told deps mem
      held-Live held =
          told-Live st.results st.ready (λ m h. ground arith)
            (λ m h. ground (
              arith,
              held,
              l.all_accounted m h,
              l.given x,
              i.pending_started x,
              lookup-insert m x deps st.remaining,
              eq_iff m x,
            ))
            (λ m h. ground (arith, l.given m h))

      pub release_child-Live : Live (late_for n cs) (release_child plan n x st)
      unfolding release_child told deps
      release_child-Live =
          elim (Bool-cases (upstream_failed plan x st && not (is_continue plan.policy))) [
            | inl fail ↦ rw fail (cancelled-Live (ground arith))
            | inr fine ↦
                elim (Bool-cases (
                  is_empty deps
                  && (not (mem x st.ready)
                      && (not (mem x st.pending) && not (has_key x st.results))))) [
                        | inl free ↦ rw (fine, free) ready-Live
                        | inr held ↦ rw (fine, held) (held-Live held)
                      ]
          ]
