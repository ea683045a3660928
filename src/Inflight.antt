-- ===== src/Inflight.antt =====
-- auto_workflow/scheduler.py: `schedule` within `execute_dag`, with the result cache and the map of
-- the runs in flight. Its critical sections have no await, so each stretch between two awaits is one
-- operation: to enter, to end the run, and to resume behind another task's future. A future is made
-- by one task and known by its name. The semaphores only delay the end of a run, so the end may come
-- in any order. Metrics, events and the tracer are left out.
pub mod Keys
pub mod Single
pub mod Served
pub mod Replay
pub mod Explained
pub mod Ended
pub mod Transparent
pub mod Memory
use auto_workflow.Base.{
  ℕ, ◌≡◌, Option, none, some, List, [], ◌∷◌, if◌then◌else◌, Str, codes, Dict, lookup, insert, erase,
  has_key,
}
use auto_workflow.Exceptions.{Exn, task_execution_error, Result, ok, raise}
use auto_workflow.Scheduler.{Entry, ran, Plan, State, complete, task_name_of, is_fail_fast}

-- `ResultCache`: `get` reads the clock, and may reorder the entries.
pub record ResultCache {ℓ} (V : Type ℓ) (C : Type ℓ) : Type ℓ where
  pub get : ℕ → Str → Option ℕ → C → Option V × C
  pub set : ℕ → Str → V → C → C

-- Where a call of `schedule` stands: it runs the task, registered under its key if the task is cached;
-- it awaits the future of another task; or it has ended, with the exception of its asyncio task.
pub data Phase : Type 0 where
  running : Option Str → Phase
  following : Str → Phase
  ended : Option Exn → Phase

-- `inflight` leads from a key to the task that made its future; `outcomes` holds the futures that
-- are done.
pub record Flights {ℓ} (V : Type ℓ) (C : Type ℓ) : Type ℓ where
  pub cache : C
  pub inflight : Dict Str
  pub outcomes : Dict (Result (Entry V))
  pub phases : Dict Phase
  pub run : State V

-- `ttl_of` is the `cache_ttl` of a task, `key_of` the cache key of its definition and its resolved
-- arguments.
module _ {ℓ} {V : Type ℓ} {C : Type ℓ} (cache_ops : ResultCache (Entry V) C) (plan : Plan)
    (ttl_of : Str → Option ℕ) (key_of : Str → Str) where
  abbrev pub at_phase : Str → Phase → Flights V C → Flights V C
  at_phase name phase st = record st { phases = insert name phase st.phases }

  abbrev pub give : Str → Result (Entry V) → Flights V C → Flights V C
  give name r st = record st { run = complete plan name (ran r) st.run }

  -- `existing = inflight.get(cache_key)`: without a future, one is registered.
  unfoldable pub join : Str → Flights V C → Flights V C
  join name st = elim (lookup (key_of name) st.inflight) [
    | none ↦
        at_phase name (running (some (key_of name)))
          (record st { inflight = insert (key_of name) name st.inflight })
    | some owner ↦ at_phase name (following owner) st
  ]

  -- `schedule(name)` up to its first await.
  unfoldable pub enter : ℕ → Str → Flights V C → Flights V C
  unfolding join
  enter now name st = elim (ttl_of name) [
    | none ↦ at_phase name (running none) st
    | some ttl ↦
        let (cached, cache) = cache_ops.get now (key_of name) (some ttl) st.cache in
        let asked : Flights V C = record st { cache = cache } in
        elim cached [
          | some v ↦ at_phase name (ended none) (give name (ok v) asked)
          | none ↦ join name asked
        ]
  ]

  -- The future of the key, if it is not done, gets the outcome; the key is taken out.
  unfoldable pub resolve : Str → Result (Entry V) → Flights V C → Flights V C
  resolve key r st = record st {
    inflight = erase key st.inflight;
    outcomes = elim (lookup key st.inflight) [
      | none ↦ st.outcomes
      | some owner ↦ if has_key owner st.outcomes then st.outcomes else insert owner r st.outcomes
    ];
  }

  -- The exception that `schedule` raises for a failed run.
  abbrev pub raised_for : Str → Result (Entry V) → Option Exn
  raised_for name (ok v) = none
  raised_for name (raise e) =
      if is_fail_fast plan.policy
      then some (task_execution_error (task_name_of plan name) e)
      else none

  unfoldable pub store : ℕ → Str → Result (Entry V) → Flights V C → Flights V C
  store now key (ok v) st = record st { cache = cache_ops.set now key v st.cache }
  store now key (raise e) st = st

  -- The rest of `schedule(name)`, once the run has the outcome `r`.
  unfoldable pub finish : ℕ → Str → Result (Entry V) → Flights V C → Flights V C
  unfolding resolve store
  finish now name r st = elim (lookup name st.phases) [
    | some (running (some key)) ↦
        at_phase name (ended (raised_for name r)) (resolve key r (store now key r (give name r st)))
    | some (running none) ↦ at_phase name (ended (raised_for name r)) (give name r st)
    | some (following owner) ↦ st
    | some (ended e) ↦ st
    | none ↦ st
  ]

  -- `value = await existing`, and what follows.
  unfoldable pub resume : Str → Flights V C → Flights V C
  resume name st = elim (lookup name st.phases) [
    | some (following owner) ↦ (elim (lookup owner st.outcomes) [
      | none ↦ st
      | some (ok v) ↦ at_phase name (ended none) (give name (ok v) st)
      | some (raise e) ↦ at_phase name (ended (some e)) st
    ])
    | some (running key) ↦ st
    | some (ended e) ↦ st
    | none ↦ st
  ]

  abbrev pub no_flights : C → State V → Flights V C
  no_flights cache run = record {
    cache = cache;
    inflight = [];
    outcomes = [];
    phases = [];
    run = run;
  }

  -- What the tasks of a run do, in any order; a task enters once.
  pub data Reachable : C → State V → Flights V C → Type ℓ where
    start : (cache : C) (run : State V) → Reachable cache run (no_flights cache run)
    enters :
        {cache : C} {run : State V} {st : Flights V C} (now : ℕ) (name : Str)
        → Reachable cache run st
        → lookup name st.phases ≡ none
        → Reachable cache run (enter now name st)
    finishes :
        {cache : C} {run : State V} {st : Flights V C} (now : ℕ) (name : Str) (r : Result (Entry V))
        → Reachable cache run st
        → Reachable cache run (finish now name r st)
    resumes :
        {cache : C} {run : State V} {st : Flights V C} (name : Str)
        → Reachable cache run st
        → Reachable cache run (resume name st)
