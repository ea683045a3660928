-- ===== src/Inflight/Ended.antt =====
-- The end of a run, and the end of a task that awaits one, are steps of the specification.
use auto_workflow.Base.{
  ℕ, ◌≡◌, refl, inl, inr, Bool-cases, Option, none, some, List, ◌∷◌, if◌then◌else◌, Str, ◌==◌,
  eq_iff, Dict, has_key, lookup, insert, lookup-insert, arith,
}
use mathlib.Core.List.{Memᴰ}
use mathlib.Core.List.Memᴰ.{head, tail}
use auto_workflow.Exceptions.{Result, ok, raise}
use auto_workflow.Scheduler.{Entry, Plan, State}
use auto_workflow.Inflight.{
  ResultCache, Phase, running, following, ended, Flights, resolve, store, finish, resume,
  raised_for,
}
use auto_workflow.Inflight.Single.{IsSound}
use auto_workflow.Inflight.Replay.{CacheLaws, more_outcomes}
use auto_workflow.Inflight.Explained.{Explained, moved, ended_with}

module _ {ℓ} {V : Type ℓ} {C : Type ℓ} (cache_ops : ResultCache (Entry V) C) (plan : Plan)
    (ttl_of : Str → Option ℕ) (key_of : Str → Str) where
  module _ (Holds : C → Str → Entry V → Type ℓ) (laws : CacheLaws cache_ops Holds)
      (run : State V) where
    abbrev pub Fits : List (Str × Result (Entry V)) → List Str → Flights V C → Type ℓ
    Fits = Explained cache_ops plan ttl_of key_of Holds laws run

    -- A further run has ended.
    with_run :
        (outs : List (Str × Result (Entry V))) (taken : List Str) (st : Flights V C)
        (o : Str × Result (Entry V))
        → Fits outs taken st
        → Fits (o ∷ outs) taken st
    with_run outs taken st o x = record {
      replay = more_outcomes plan key_of outs run o x.replay;
      cached = λ k v h. tail (x.cached k v h);
      settled = λ n r h. tail (x.settled n r h);
      same_key = x.same_key;
      own_key = x.own_key;
      over = x.over;
    }

    stored :
        (outs : List (Str × Result (Entry V))) (taken : List Str) (now : ℕ) (key : Str)
        (r : Result (Entry V)) (st : Flights V C)
        → Memᴰ (key, r) outs
        → Fits outs taken st
        → Fits outs taken (store cache_ops plan ttl_of key_of now key r st)
    unfolding store
    stored outs taken now key (raise e) st a x = x
    stored outs taken now key (ok v) st a x = record {
      replay = x.replay;
      cached = λ k w h. elim (laws.held_of_set now key v st.cache k w h) [
        | inl before ↦ x.cached k w before
        | inr (same, given) ↦ rw (same, given) a
      ];
      settled = x.settled;
      same_key = x.same_key;
      own_key = x.own_key;
      over = x.over;
    }

    resolved :
        (outs : List (Str × Result (Entry V))) (taken : List Str) (key : Str) (r : Result (Entry V))
        (st : Flights V C)
        → ((o : Str) → lookup key st.inflight ≡ some o → key ≡ key_of o)
        → Memᴰ (key, r) outs
        → Fits outs taken st
        → Fits outs taken (resolve cache_ops plan ttl_of key_of key r st)
    unfolding resolve
    resolved outs taken key r st f a x = record {
      replay = x.replay;
      cached = x.cached;
      settled = settles (lookup key st.inflight) refl;
      same_key = x.same_key;
      own_key = x.own_key;
      over = x.over;
    }
      where
        outcomes : Option Str → Dict (Result (Entry V))
        outcomes found = elim found [
          | none ↦ st.outcomes
          | some owner ↦
              if has_key owner st.outcomes then st.outcomes else insert owner r st.outcomes
        ]

        settles :
            (found : Option Str)
            → lookup key st.inflight ≡ found
            → (o : Str) (q : Result (Entry V)) → lookup o (outcomes found) ≡ some q
            → Memᴰ (key_of o, q) outs
        settles none z o q h = x.settled o q h
        settles (some owner) z o q h = elim (Bool-cases (has_key owner st.outcomes)) [
          | inl present ↦ x.settled o q (ground arith)
          | inr absent ↦ elim (Bool-cases (o == owner)) [
            | inl same ↦
                let here : some r ≡ some q = ground (arith, lookup-insert o owner r st.outcomes) in
                let outcome : r ≡ q = ground (arith, here) in
                rw ((eq_iff o owner).0 same) (rw (outcome, f owner z) at a)
            | inr other ↦ x.settled o q (ground (arith, lookup-insert o owner r st.outcomes))
          ]
        ]

    module _ (outs : List (Str × Result (Entry V))) (taken : List Str) (name : Str)
        (st : Flights V C) (s : IsSound cache_ops plan ttl_of key_of st)
        (x : Fits outs taken st) where
      pub keyed-Explained :
          (now : ℕ) (key : Str) (r : Result (Entry V))
          → lookup name st.phases ≡ some (running (some key))
          → Fits
              ((key_of name, r) ∷ outs)
              (name ∷ taken)
              (finish cache_ops plan ttl_of key_of now name r st)
      unfolding finish resolve store
      keyed-Explained now key (ok v) z =
          let outcome : Memᴰ (key_of name, ok v) ((key_of name, ok v) ∷ outs) = head refl in
          let under_key : Memᴰ (key, ok v) ((key_of name, ok v) ∷ outs) =
            rw (x.own_key name key z) outcome in
          let after = store cache_ops plan ttl_of key_of now key (ok v) st in
          rw (z, finish)
            (ended_with cache_ops plan ttl_of key_of Holds laws run ((key_of name, ok v) ∷ outs)
              taken name (resolve cache_ops plan ttl_of key_of key (ok v) after)
              (resolved ((key_of name, ok v) ∷ outs) taken key (ok v) after
                (λ o h. x.own_key o key (s.owners key o h)) under_key
                (stored ((key_of name, ok v) ∷ outs) taken now key (ok v) st under_key
                  (with_run outs taken st (key_of name, ok v) x)))
              (ground arith) (raised_for cache_ops plan ttl_of key_of name (ok v)) (ok v) outcome)
      keyed-Explained now key (raise e) z =
          let outcome : Memᴰ (key_of name, raise e) ((key_of name, raise e) ∷ outs) = head refl in
          let under_key : Memᴰ (key, raise e) ((key_of name, raise e) ∷ outs) =
            rw (x.own_key name key z) outcome in
          let after = store cache_ops plan ttl_of key_of now key (raise e) st in
          rw (z, finish)
            (ended_with cache_ops plan ttl_of key_of Holds laws run ((key_of name, raise e) ∷ outs)
              taken name (resolve cache_ops plan ttl_of key_of key (raise e) after)
              (resolved ((key_of name, raise e) ∷ outs) taken key (raise e) after
                (λ o h. x.own_key o key (s.owners key o h)) under_key
                (stored ((key_of name, raise e) ∷ outs) taken now key (raise e) st under_key
                  (with_run outs taken st (key_of name, raise e) x)))
              (ground arith) (raised_for cache_ops plan ttl_of key_of name (raise e)) (raise e)
              outcome)

      pub unkeyed-Explained :
          (now : ℕ) (r : Result (Entry V))
          → lookup name st.phases ≡ some (running none)
          → Fits
              ((key_of name, r) ∷ outs)
              (name ∷ taken)
              (finish cache_ops plan ttl_of key_of now name r st)
      unfolding finish
      unkeyed-Explained now r z =
          rw (z, finish)
            (ended_with cache_ops plan ttl_of key_of Holds laws run ((key_of name, r) ∷ outs) taken
              name st (with_run outs taken st (key_of name, r) x) (ground arith)
              (raised_for cache_ops plan ttl_of key_of name r) r (head refl))

      pub resume-Explained :
          (later : List Str) × Fits outs later (resume cache_ops plan ttl_of key_of name st)
      unfolding resume
      resume-Explained = by_phase (lookup name st.phases) refl
        where
          Goal : Type ℓ
          Goal = (later : List Str) × Fits outs later (resume cache_ops plan ttl_of key_of name st)

          by_outcome :
              (o : Str) (outcome : Option (Result (Entry V)))
              → lookup name st.phases ≡ some (following o)
              → lookup o st.outcomes ≡ outcome
              → Goal
          by_outcome o none z y = (taken, rw (z, resume, y) x)
          by_outcome o (some (ok v)) z y = (
            name ∷ taken,
            rw (z, resume, y)
                (ended_with cache_ops plan ttl_of key_of Holds laws run outs taken name st x
                  (ground arith) none (ok v) (rw (x.same_key name o z) at (x.settled o (ok v) y))),
          )
          by_outcome o (some (raise e)) z y = (
            taken,
            rw (z, resume, y)
                (moved cache_ops plan ttl_of key_of Holds laws run outs taken name st x
                  (ground arith) (ended (some e)) (λ p h. absurd (ground arith))
                  (λ k h. absurd (ground arith))),
          )

          by_phase : (phase : Option Phase) → lookup name st.phases ≡ phase → Goal
          by_phase none z = (taken, rw (z, resume) x)
          by_phase (some (ended e)) z = (taken, rw (z, resume) x)
          by_phase (some (running k)) z = (taken, rw (z, resume) x)
          by_phase (some (following o)) z = by_outcome o (lookup o st.outcomes) z refl
