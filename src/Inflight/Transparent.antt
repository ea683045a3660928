-- ===== src/Inflight/Transparent.antt =====
-- A run with the cache and with shared runs is one of the specification.
use auto_workflow.Base.{
  ℕ, ◌≡◌, refl, Bool, true, false, Option, none, some, List, [], ◌∷◌, if◌then◌else◌, Str, mem,
  lookup, arith,
}
use mathlib.Core.List.{Memᴰ}
use auto_workflow.Exceptions.{Result, ok}
use auto_workflow.Scheduler.{Entry, Plan, State}
use auto_workflow.Inflight.{
  ResultCache, Phase, running, following, ended, Flights, finish, Reachable, start, enters,
  finishes, resumes,
}
use auto_workflow.Inflight.Single.{Reachable-Sound, IsSound}
use auto_workflow.Inflight.Replay.{CacheLaws, Replay, begin}
use auto_workflow.Inflight.Explained.{Explained, enter-Explained}
use auto_workflow.Inflight.Ended.{keyed-Explained, unkeyed-Explained, resume-Explained}

abbrev pub is_running : Option Phase → Bool
is_running none = false
is_running (some (running k)) = true
is_running (some (following o)) = false
is_running (some (ended e)) = false

module _ {ℓ} {V : Type ℓ} {C : Type ℓ} (cache_ops : ResultCache (Entry V) C) (plan : Plan)
    (ttl_of : Str → Option ℕ) (key_of : Str → Str) where
  -- The keys and outcomes of the runs that have ended, in front of those that filled the cache.
  unfoldable pub executed :
      {cache : C} {run : State V} {st : Flights V C}
      → List (Str × Result (Entry V))
      → Reachable cache_ops plan ttl_of key_of cache run st
      → List (Str × Result (Entry V))
  executed made (start cache run) = made
  executed made (enters now name d n) = executed made d
  executed made (finishes {st = st} now name r d) =
      let rest = executed made d in
      if is_running (lookup name st.phases) then (key_of name, r) ∷ rest else rest
  executed made (resumes name d) = executed made d

  module _ (Holds : C → Str → Entry V → Type ℓ) (laws : CacheLaws cache_ops Holds) where
    finish-Explained :
        (run : State V) (outs : List (Str × Result (Entry V))) (taken : List Str) (now : ℕ)
        (name : Str) (r : Result (Entry V)) (st : Flights V C)
        → IsSound cache_ops plan ttl_of key_of st
        → Explained cache_ops plan ttl_of key_of Holds laws run outs taken st
        → (later : List Str) × Explained cache_ops plan ttl_of key_of Holds laws run
            (if is_running (lookup name st.phases) then (key_of name, r) ∷ outs else outs)
            later
            (finish cache_ops plan ttl_of key_of now name r st)
    unfolding finish
    finish-Explained run outs taken now name r st s x = by_phase (lookup name st.phases) refl
      where
        by_phase :
            (phase : Option Phase)
            → lookup name st.phases ≡ phase
            → (later : List Str) × Explained cache_ops plan ttl_of key_of Holds laws run
                (if is_running phase then (key_of name, r) ∷ outs else outs)
                later
                (finish cache_ops plan ttl_of key_of now name r st)
        by_phase none z = (taken, rw (z, finish) x)
        by_phase (some (ended e)) z = (taken, rw (z, finish) x)
        by_phase (some (following o)) z = (taken, rw (z, finish) x)
        by_phase (some (running none)) z = (
          name ∷ taken,
          unkeyed-Explained cache_ops plan ttl_of key_of Holds laws run outs taken name st s x now r
              z,
        )
        by_phase (some (running (some key))) z = (
          name ∷ taken,
          keyed-Explained cache_ops plan ttl_of key_of Holds laws run outs taken name st s x now key
              r z,
        )

    explained :
        {cache : C} {run : State V} {st : Flights V C} (made : List (Str × Result (Entry V)))
        → ((k : Str) (v : Entry V) → Holds cache k v → Memᴰ (k, ok v) made)
        → (d : Reachable cache_ops plan ttl_of key_of cache run st)
        → (taken : List Str) × Explained cache_ops plan ttl_of key_of Holds laws run
            (executed made d)
            taken
            st
    unfolding executed mem lookup
    explained made h (start cache run) = (
      [],
      record {
        replay = begin;
        cached = h;
        settled = λ o r e. absurd (ground arith);
        same_key = λ n o e. absurd (ground arith);
        own_key = λ o k e. absurd (ground arith);
        over = λ n e. absurd (ground arith);
      },
    )
    explained {run = run} made h (enters {st = st} now name d n) =
        let (taken, x) = explained made h d in
        enter-Explained cache_ops plan ttl_of key_of Holds laws run (executed made d) taken now name
          st n (Reachable-Sound cache_ops plan ttl_of key_of d) x
    explained {run = run} made h (finishes {st = st} now name r d) =
        let (taken, x) = explained made h d in
        finish-Explained run (executed made d) taken now name r st
          (Reachable-Sound cache_ops plan ttl_of key_of d) x
    explained {run = run} made h (resumes {st = st} name d) =
        let (taken, x) = explained made h d in
        resume-Explained cache_ops plan ttl_of key_of Holds laws run (executed made d) taken name st
          (Reachable-Sound cache_ops plan ttl_of key_of d) x

    -- If the cache gives only values that it holds and holds only values that it was given, and
    -- what it holds at the start are outcomes of earlier runs under their keys, then every run of
    -- the tasks with the cache and the shared runs is one of the specification without them: each
    -- task ends at most once, with an outcome under its own cache key among those of the earlier
    -- runs and of the runs that have ended.
    pub Reachable-Replay :
        (cache : C) (run : State V) (st : Flights V C) (made : List (Str × Result (Entry V)))
        → ((k : Str) (v : Entry V) → Holds cache k v → Memᴰ (k, ok v) made)
        → (d : Reachable cache_ops plan ttl_of key_of cache run st)
        → (taken : List Str) × Replay plan key_of (executed made d) run taken st.run
    Reachable-Replay cache run st made h d =
        let (taken, x) = explained made h d in (taken, x.replay)
