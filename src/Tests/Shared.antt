-- ===== src/Tests/Shared.antt =====
-- Two cached tasks with one key: the first runs, the second awaits its future.
use auto_workflow.Base.{
  ℕ, ◌≡◌, refl, true, Option, none, some, List, [], Str, codes, ◌==◌, Dict, lookup, insert,
}
use auto_workflow.Exceptions.{Exn, ok, raise, runtime_error}
use auto_workflow.Scheduler.{Entry, value, ran, Plan, continue, complete, plan_of}
use auto_workflow.Cache.{get_memory}
use auto_workflow.Inflight.{
  ResultCache, running, following, ended, Flights, enter, join, finish, resume, no_flights,
  Reachable, start, enters, finishes, resumes,
}
use auto_workflow.Inflight.Single.{runs_once_per_key}
use auto_workflow.Inflight.Served.{has_ended, followers_are_served, followers_abort}
use auto_workflow.Inflight.Replay.{Replay}
use auto_workflow.Inflight.Transparent.{executed, Reachable-Replay}
use auto_workflow.Inflight.Memory.{memory_cache, Holds, memory-CacheLaws}
use auto_workflow.Tests.Flows.{linked, before, load_1, store_1}

abbrev plan : Plan
plan = plan_of linked continue

abbrev ops : ResultCache (Entry ℕ) (Dict (ℕ × Entry ℕ))
ops = memory_cache none

abbrev an_hour : Str → Option ℕ
an_hour n = some 3600

abbrev same_key : Str → Str
same_key n = codes "key"

abbrev first : Flights ℕ (Dict (ℕ × Entry ℕ))
first = enter ops plan an_hour same_key 5 load_1 (no_flights ops plan an_hour same_key [] before)

abbrev both : Flights ℕ (Dict (ℕ × Entry ℕ))
both = enter ops plan an_hour same_key 5 store_1 first

first_new : lookup store_1 first.phases ≡ none
unfolding lookup enter join get_memory insert ◌==◌
first_new = refl

both-Reachable : Reachable ops plan an_hour same_key [] before both
unfolding lookup
both-Reachable = enters 5 store_1 (enters 5 load_1 (start [] before) refl) first_new

load_runs : lookup load_1 both.phases ≡ some (running (some (codes "key")))
unfolding lookup enter join get_memory insert ◌==◌
load_runs = refl

store_follows : lookup store_1 both.phases ≡ some (following load_1)
unfolding lookup enter join get_memory insert ◌==◌
store_follows = refl

runs_once_per_key_example : load_1 ≡ load_1
runs_once_per_key_example =
    runs_once_per_key ops plan an_hour same_key [] before both both-Reachable (codes "key") load_1
      load_1 load_runs load_runs

followers_are_served_example :
    has_ended ops plan an_hour same_key store_1 (
      resume ops plan an_hour same_key store_1
        (finish ops plan an_hour same_key 9 load_1 (ok (value 7)) both))
    ≡ true
followers_are_served_example =
    followers_are_served ops plan an_hour same_key [] before both both-Reachable store_1 load_1
      store_follows 9 (ok (value 7))

abbrev wrong : Exn
wrong = runtime_error (codes "no")

followers_abort_example :
    (lookup store_1
        (resume ops plan an_hour same_key store_1
          (finish ops plan an_hour same_key 9 load_1 (raise wrong) both)).phases
      ≡ some (ended (some wrong)))
    × ((resume ops plan an_hour same_key store_1
          (finish ops plan an_hour same_key 9 load_1 (raise wrong) both)).run
        ≡ complete plan load_1 (ran (raise wrong)) both.run)
followers_abort_example =
    followers_abort ops plan an_hour same_key [] before both both-Reachable store_1 load_1
      (codes "key") 9 wrong store_follows load_runs

abbrev served : Flights ℕ (Dict (ℕ × Entry ℕ))
served =
    resume ops plan an_hour same_key store_1
      (finish ops plan an_hour same_key 9 load_1 (ok (value 7)) both)

abbrev served-Reachable : Reachable ops plan an_hour same_key [] before served
served-Reachable = resumes store_1 (finishes 9 load_1 (ok (value 7)) both-Reachable)

Reachable-Replay_example :
    (taken : List Str) × Replay plan same_key
      (executed ops plan an_hour same_key [] served-Reachable)
      before
      taken
      served.run
Reachable-Replay_example =
    Reachable-Replay ops plan an_hour same_key Holds (memory-CacheLaws none) [] before served []
      (λ k v (t, m). absurd (elim m [ ])) served-Reachable
