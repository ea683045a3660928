-- ===== src/Inflight/Served.antt =====
-- A task that awaits the run of another one ends with it, and how.
use auto_workflow.Base.{
  ℕ, ◌≡◌, ◌≢◌, ◌∙◌, refl, inl, inr, true, false, Option, none, some, Str, eq_iff, lookup,
  lookup-insert, Bool, arith,
}
use auto_workflow.Exceptions.{Exn, Result, ok, raise}
use auto_workflow.Scheduler.{Entry, ran, Plan, State, complete}
use auto_workflow.Inflight.{
  ResultCache, running, following, ended, Flights, resolve, store, finish, resume, raised_for,
  Reachable,
}
use auto_workflow.Inflight.Single.{IsSound, future_of, finish-Sound, Reachable-Sound}

module _ {ℓ} {V : Type ℓ} {C : Type ℓ} (cache_ops : ResultCache (Entry V) C) (plan : Plan)
    (ttl_of : Str → Option ℕ) (key_of : Str → Str) where
  finish-phases :
      (now : ℕ) (o : Str) (r : Result (Entry V)) (st : Flights V C) (n : Str)
      → ((p : Str)
          → lookup n st.phases ≡ some (following p)
          → lookup n (finish cache_ops plan ttl_of key_of now o r st).phases ≡ some (following p))
        × ((k : Option Str)
            → lookup o (finish cache_ops plan ttl_of key_of now o r st).phases ≢ some (running k))
  unfolding finish resolve
  finish-phases now o r st n =
      let gone = raised_for cache_ops plan ttl_of key_of o r in
      let at_n = lookup-insert n o (ended gone) st.phases in
      let at_o = lookup-insert o o (ended gone) st.phases in
      (λ p h. ground (arith, at_n, eq_iff n o), λ k h. ground (arith, at_o, eq_iff o o))

  abbrev pub has_ended : Str → Flights V C → Bool
  has_ended n st = elim (lookup n st.phases) [
    | none ↦ false
    | some (running k) ↦ false
    | some (following o) ↦ false
    | some (ended e) ↦ true
  ]

  resume-has_ended :
      (n o : Str) (st : Flights V C)
      → lookup n st.phases ≡ some (following o)
      → lookup o st.outcomes ≢ none
      → has_ended n (resume cache_ops plan ttl_of key_of n st) ≡ true
  unfolding resume
  resume-has_ended n o st f d = by_outcome (lookup o st.outcomes) refl
    where
      by_outcome :
          (outcome : Option (Result (Entry V)))
          → lookup o st.outcomes ≡ outcome
          → has_ended n (resume cache_ops plan ttl_of key_of n st) ≡ true
      by_outcome none z = absurd (d z)
      by_outcome (some (ok v)) z =
          rw (f, resume, z) (ground (arith, lookup-insert n n (ended none) st.phases, eq_iff n n))
      by_outcome (some (raise e)) z =
          rw (f, resume, z)
            (ground (arith, lookup-insert n n (ended (some e)) st.phases, eq_iff n n))

  -- Whatever the tasks of a run have done, a task that awaits the future of another one ends when
  -- it is resumed once the other one has ended, with whatever outcome.
  pub followers_are_served :
      (cache : C) (run : State V) (st : Flights V C)
      → Reachable cache_ops plan ttl_of key_of cache run st
      → (n o : Str) → lookup n st.phases ≡ some (following o)
      → (now : ℕ) (r : Result (Entry V))
      → has_ended n
          (resume cache_ops plan ttl_of key_of n (finish cache_ops plan ttl_of key_of now o r st))
        ≡ true
  followers_are_served cache run st r n o f now outcome =
      let after = finish cache_ops plan ttl_of key_of now o outcome st in
      let (stays, stops) = finish-phases now o outcome st n in
      resume-has_ended n o after (stays o f)
        (elim ((finish-Sound cache_ops plan ttl_of key_of now o outcome st
            (Reachable-Sound cache_ops plan ttl_of key_of r)).led
          n o (stays o f)) [ inl known ↦ known | inr (key, runs) ↦ absurd (stops (some key) runs) ])

  resume-raise :
      (n o : Str) (e : Exn) (st : Flights V C)
      → lookup n st.phases ≡ some (following o)
      → lookup o st.outcomes ≡ some (raise e)
      → (lookup n (resume cache_ops plan ttl_of key_of n st).phases ≡ some (ended (some e)))
        × ((resume cache_ops plan ttl_of key_of n st).run ≡ st.run)
  unfolding resume
  resume-raise n o e st f d = (
    rw (f, resume, d) (ground (arith, lookup-insert n n (ended (some e)) st.phases, eq_iff n n)),
    rw (f, resume, d) refl,
  )

  finish-raise :
      (now : ℕ) (o key : Str) (e : Exn) (st : Flights V C)
      → lookup o st.phases ≡ some (running (some key))
      → IsSound cache_ops plan ttl_of key_of st
      → (lookup o (finish cache_ops plan ttl_of key_of now o (raise e) st).outcomes
          ≡ some (raise e))
        × ((finish cache_ops plan ttl_of key_of now o (raise e) st).run
            ≡ complete plan o (ran (raise e)) st.run)
  unfolding finish resolve store
  finish-raise now o key e st z s =
      let (leads, not_done) = future_of cache_ops plan ttl_of key_of o key st z s in
      (
        rw (z, finish, resolve, leads, not_done)
            (ground (arith, lookup-insert o o (raise e) st.outcomes, eq_iff o o)),
        rw (z, finish) refl,
      )

  -- Whatever the tasks of a run have done and under every policy, if a task runs under a key and
  -- its run raises, a task that awaits its future ends with the bare exception, without an entry
  -- of its own in the results or among the errors.
  pub followers_abort :
      (cache : C) (run : State V) (st : Flights V C)
      → Reachable cache_ops plan ttl_of key_of cache run st
      → (n o key : Str) (now : ℕ) (e : Exn) → lookup n st.phases ≡ some (following o)
      → lookup o st.phases ≡ some (running (some key))
      → (lookup n
            (resume cache_ops plan ttl_of key_of n
              (finish cache_ops plan ttl_of key_of now o (raise e) st)).phases
          ≡ some (ended (some e)))
        × ((resume cache_ops plan ttl_of key_of n
              (finish cache_ops plan ttl_of key_of now o (raise e) st)).run
            ≡ complete plan o (ran (raise e)) st.run)
  followers_abort cache run st r n o key now e f z =
      let after = finish cache_ops plan ttl_of key_of now o (raise e) st in
      let (done, gave) =
        finish-raise now o key e st z (Reachable-Sound cache_ops plan ttl_of key_of r) in
      let (ends, same) =
        resume-raise n o e after ((finish-phases now o (raise e) st n).0 o f) done in
      (ends, same ∙ gave)
