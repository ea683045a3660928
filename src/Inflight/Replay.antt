-- ===== src/Inflight/Replay.antt =====
-- What the cache and the shared runs give a task is what a run under its key could have given it.
use auto_workflow.Base.{ℕ, ◌≡◌, ◌⊎◌, false, Option, some, List, [], ◌∷◌, Str, mem}
use mathlib.Core.List.{Memᴰ}
use mathlib.Core.List.Memᴰ.{tail}
use auto_workflow.Exceptions.{Result}
use auto_workflow.Scheduler.{Entry, ran, Plan, State, complete}
use auto_workflow.Inflight.{ResultCache}

-- What a cache does with its values: it gives only what it holds, and holds only what it was given.
pub record CacheLaws {ℓ} {V : Type ℓ} {C : Type ℓ} (ops : ResultCache V C)
    (Holds : C → Str → V → Type ℓ) : Type ℓ where
  pub get_held :
      (now : ℕ) (k : Str) (ttl : Option ℕ) (c : C) (v : V)
      → (ops.get now k ttl c).0 ≡ some v
      → Holds c k v
  pub held_of_get :
      (now : ℕ) (k : Str) (ttl : Option ℕ) (c : C) (j : Str) (v : V)
      → Holds (ops.get now k ttl c).1 j v
      → Holds c j v
  pub held_of_set :
      (now : ℕ) (k : Str) (w : V) (c : C) (j : Str) (v : V)
      → Holds (ops.set now k w c) j v
      → Holds c j v ⊎ ((j ≡ k) × (v ≡ w))

-- The specification, without a cache and without shared runs: each task ends at most once, with the
-- outcome of some run under its key.
pub data Replay {ℓ} {V : Type ℓ} (plan : Plan) (key_of : Str → Str)
    (outcomes : List (Str × Result (Entry V))) (run : State V) : List Str → State V → Type ℓ where
  begin : Replay plan key_of outcomes run [] run
  take_outcome :
      {taken : List Str} {st : State V} (name : Str) (r : Result (Entry V))
      → Replay plan key_of outcomes run taken st
      → mem name taken ≡ false
      → Memᴰ (key_of name, r) outcomes
      → Replay plan key_of outcomes run (name ∷ taken) (complete plan name (ran r) st)

pub more_outcomes {ℓ} :
    {V : Type ℓ} (plan : Plan) (key_of : Str → Str) (outcomes : List (Str × Result (Entry V)))
    (run : State V) (o : Str × Result (Entry V)) {taken : List Str} {st : State V}
    → Replay plan key_of outcomes run taken st
    → Replay plan key_of (o ∷ outcomes) run taken st
more_outcomes plan key_of outcomes run o begin = begin
more_outcomes plan key_of outcomes run o (take_outcome name r d n a) =
    take_outcome name r (more_outcomes plan key_of outcomes run o d) n (tail a)
