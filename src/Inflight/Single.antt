-- ===== src/Inflight/Single.antt =====
-- One run per key at a time, and no task that awaits another one is left alone.
use auto_workflow.Base.{
  ℕ, ◌≡◌, ◌≢◌, refl, false, Option, none, some, Str, has_key, lookup, insert, lookup-none_iff,
  nodup, arith,
}
use auto_workflow.Exceptions.{Result, ok, raise}
use auto_workflow.Scheduler.{Entry, Plan, State}
use auto_workflow.Inflight.{
  ResultCache, Phase, running, following, ended, Flights, join, enter, resolve, store, finish,
  resume, raised_for, Reachable, start, enters, finishes, resumes,
}
use auto_workflow.Inflight.Keys.{Sound, register-Sound, follow-Sound, move-Sound, settle-Sound}

module _ {ℓ} {V : Type ℓ} {C : Type ℓ} (cache_ops : ResultCache (Entry V) C) (plan : Plan)
    (ttl_of : Str → Option ℕ) (key_of : Str → Str) where
  abbrev pub IsSound : Flights V C → Type ℓ
  IsSound st = Sound st.inflight st.outcomes st.phases

  join-Sound :
      (name : Str) (st : Flights V C)
      → lookup name st.phases ≡ none
      → IsSound st
      → IsSound (join cache_ops plan ttl_of key_of name st)
  unfolding join
  join-Sound name st n s = by_key (lookup (key_of name) st.inflight) refl
    where
      by_key :
          (found : Option Str)
          → lookup (key_of name) st.inflight ≡ found
          → IsSound (join cache_ops plan ttl_of key_of name st)
      by_key none z =
          rw (z, IsSound, join)
            (register-Sound st.inflight st.outcomes st.phases name s (key_of name) n z)
      by_key (some owner) z =
          rw (z, IsSound, join)
            (follow-Sound st.inflight st.outcomes st.phases name s (key_of name) owner n z)

  enter-Sound :
      (now : ℕ) (name : Str) (st : Flights V C)
      → lookup name st.phases ≡ none
      → IsSound st
      → IsSound (enter cache_ops plan ttl_of key_of now name st)
  unfolding enter
  enter-Sound now name st n s = by_ttl (ttl_of name) refl
    where
      move :
          (phase : Phase)
          → ((key : Str) → phase ≢ running (some key))
          → ((o : Str) → phase ≢ following o)
          → Sound st.inflight st.outcomes (insert name phase st.phases)
      move phase p q =
          move-Sound st.inflight st.outcomes st.phases name s phase (λ key z. ground arith) p q

      by_cached :
          (ttl : ℕ) (cached : Option (Entry V))
          → ttl_of name ≡ some ttl
          → (cache_ops.get now (key_of name) (some ttl) st.cache).0 ≡ cached
          → IsSound (enter cache_ops plan ttl_of key_of now name st)
      by_cached ttl (some v) y z =
          rw (y, z, IsSound, enter)
            (move (ended none) (λ key k. ground arith) (λ o k. ground arith))
      by_cached ttl none y z =
          rw (y, z, IsSound, enter)
            (join-Sound name
              (record st { cache = (cache_ops.get now (key_of name) (some ttl) st.cache).1 }) n s)

      by_ttl :
          (ttl : Option ℕ)
          → ttl_of name ≡ ttl
          → IsSound (enter cache_ops plan ttl_of key_of now name st)
      by_ttl none y =
          rw (y, IsSound, enter) (move (running none) (λ key k. ground arith) (λ o k. ground arith))
      by_ttl (some ttl) y =
          by_cached ttl (cache_ops.get now (key_of name) (some ttl) st.cache).0 y refl

  -- The future of the run is the one that its key leads to, and is not done.
  pub future_of :
      (name key : Str) (st : Flights V C)
      → lookup name st.phases ≡ some (running (some key))
      → IsSound st
      → (lookup key st.inflight ≡ some name) × (has_key name st.outcomes ≡ false)
  future_of name key st z s =
      (s.registered key name z, (lookup-none_iff name st.outcomes).0 (s.unsettled key name z))

  keyed-Sound :
      (now : ℕ) (name key : Str) (r : Result (Entry V)) (st : Flights V C)
      → lookup name st.phases ≡ some (running (some key))
      → IsSound st
      → IsSound (finish cache_ops plan ttl_of key_of now name r st)
  unfolding finish resolve store
  keyed-Sound now name key (ok v) st z s =
      let (leads, not_done) = future_of name key st z s in
      rw (z, IsSound, finish, resolve, leads, not_done)
        (settle-Sound st.inflight st.outcomes st.phases name s key (ok v) none z)
  keyed-Sound now name key (raise e) st z s =
      let (leads, not_done) = future_of name key st z s in
      rw (z, IsSound, finish, resolve, leads, not_done)
        (settle-Sound st.inflight st.outcomes st.phases name s key (raise e)
          (raised_for cache_ops plan ttl_of key_of name (raise e)) z)

  pub finish-Sound :
      (now : ℕ) (name : Str) (r : Result (Entry V)) (st : Flights V C)
      → IsSound st
      → IsSound (finish cache_ops plan ttl_of key_of now name r st)
  unfolding finish resolve store
  finish-Sound now name r st s = by_phase (lookup name st.phases) refl
    where
      by_phase :
          (phase : Option Phase)
          → lookup name st.phases ≡ phase
          → IsSound (finish cache_ops plan ttl_of key_of now name r st)
      by_phase none z = rw (z, IsSound, finish) s
      by_phase (some (ended e)) z = rw (z, IsSound, finish) s
      by_phase (some (following o)) z = rw (z, IsSound, finish) s
      by_phase (some (running none)) z =
          rw (z, IsSound, finish)
            (move-Sound st.inflight st.outcomes st.phases name s
              (ended (raised_for cache_ops plan ttl_of key_of name r)) (λ key k. ground arith)
              (λ key k. ground arith) (λ o k. ground arith))
      by_phase (some (running (some key))) z = keyed-Sound now name key r st z s

  resume-Sound :
      (name : Str) (st : Flights V C)
      → IsSound st
      → IsSound (resume cache_ops plan ttl_of key_of name st)
  unfolding resume
  resume-Sound name st s = by_phase (lookup name st.phases) refl
    where
      by_outcome :
          (o : Str) (outcome : Option (Result (Entry V)))
          → lookup name st.phases ≡ some (following o)
          → lookup o st.outcomes ≡ outcome
          → IsSound (resume cache_ops plan ttl_of key_of name st)
      by_outcome o none z y = rw (z, y, IsSound, resume) s
      by_outcome o (some (ok v)) z y =
          rw (z, y, IsSound, resume)
            (move-Sound st.inflight st.outcomes st.phases name s (ended none)
              (λ key k. ground arith) (λ key k. ground arith) (λ o k. ground arith))
      by_outcome o (some (raise e)) z y =
          rw (z, y, IsSound, resume)
            (move-Sound st.inflight st.outcomes st.phases name s (ended (some e))
              (λ key k. ground arith) (λ key k. ground arith) (λ o k. ground arith))

      by_phase :
          (phase : Option Phase)
          → lookup name st.phases ≡ phase
          → IsSound (resume cache_ops plan ttl_of key_of name st)
      by_phase none z = rw (z, IsSound, resume) s
      by_phase (some (ended e)) z = rw (z, IsSound, resume) s
      by_phase (some (running k)) z = rw (z, IsSound, resume) s
      by_phase (some (following o)) z = by_outcome o (lookup o st.outcomes) z refl

  pub Reachable-Sound :
      {cache : C} {run : State V} {st : Flights V C}
      → Reachable cache_ops plan ttl_of key_of cache run st
      → IsSound st
  unfolding lookup nodup
  Reachable-Sound (start cache run) = record {
    distinct = refl;
    owners = λ j o h. absurd (ground arith);
    registered = λ j o h. absurd (ground arith);
    unsettled = λ j o h. refl;
    unborn = λ o h. refl;
    led = λ n o h. absurd (ground arith);
  }
  Reachable-Sound {st = _} (enters {st = st} now name r n) =
      enter-Sound now name st n (Reachable-Sound r)
  Reachable-Sound {st = _} (finishes {st = st} now name o r) =
      finish-Sound now name o st (Reachable-Sound r)
  Reachable-Sound {st = _} (resumes {st = st} name r) = resume-Sound name st (Reachable-Sound r)

  -- Whatever the tasks of a run have done, two tasks that are running under one cache key are the
  -- same task.
  pub runs_once_per_key :
      (cache : C) (run : State V) (st : Flights V C)
      → Reachable cache_ops plan ttl_of key_of cache run st
      → (key m n : Str) → lookup m st.phases ≡ some (running (some key))
      → lookup n st.phases ≡ some (running (some key))
      → m ≡ n
  runs_once_per_key cache run st r key m n at_m at_n =
      let s = Reachable-Sound r in ground (arith, s.registered key m at_m, s.registered key n at_n)
