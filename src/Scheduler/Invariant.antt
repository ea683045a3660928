-- ===== src/Scheduler/Invariant.antt =====
-- The invariant of the scheduler's loop.
use auto_workflow.Base.{
  ◌≡◌, ◌≢◌, ◌⊎◌, Bool, true, false, not, ◌&&◌, none, some, Str, mem, nodup, Subset, lookup,
}
use auto_workflow.Dag.Edges.{up}
use auto_workflow.Scheduler.{Plan, State, value, is_continue, deps_of}

module _ {ℓ} {V : Type ℓ} where
  -- The task was created and its end has been processed.
  abbrev pub done : State V → Str → Bool
  done st u = mem u st.started && not (mem u st.pending)

  -- All upstream nodes of `n` are done.
  abbrev pub Supplied : Plan → State V → Str → Type 0
  Supplied plan st n = (u : Str) → mem u (up plan.dag n) ≡ true → done st u ≡ true

  -- All upstream nodes of `n` have a value, unless the policy is to continue behind failures.
  abbrev pub IsClean : Plan → State V → Str → Type ℓ
  IsClean plan st n =
      (u : Str)
      → mem u (up plan.dag n) ≡ true
      → is_continue plan.policy ≡ false
      → (v : V) × (lookup u st.results ≡ some (value v))

  pub record Inv (plan : Plan) (st : State V) : Type ℓ where
    pub waits :
        (n u : Str)
        → mem u (up plan.dag n) ≡ true
        → (mem u (deps_of plan n st) ≡ true) ⊎ (done st u ≡ true)
    pub ready_supplied : (n : Str) → mem n st.ready ≡ true → Supplied plan st n
    pub started_supplied : (n : Str) → mem n st.started ≡ true → Supplied plan st n
    pub ready_clean : (n : Str) → mem n st.ready ≡ true → IsClean plan st n
    pub started_clean : (n : Str) → mem n st.started ≡ true → IsClean plan st n
    pub pending_started : Subset st.pending st.started
    pub done_settled : (n : Str) → done st n ≡ true → lookup n st.results ≢ none
    pub ready_new : (n : Str) → mem n st.ready ≡ true → mem n st.started ≡ false
    pub ready_distinct : nodup st.ready ≡ true
    pub pending_distinct : nodup st.pending ≡ true
    pub started_distinct : nodup st.started ≡ true
