-- ===== src/Logging/Registered.antt =====
-- auto_workflow/logging_middleware.py: `register_structured_logging`.
use auto_workflow.Base.{
  ℕ, zero, suc, ◌≡◌, ◌∙◌, refl, ap, sym, inl, inr, Bool-cases, append_assoc, append-nil, arith,
  true, false, Bool, List, [], ◌∷◌, ◌++◌, if◌then◌else◌, Str, codes, ◌==◌, Dict,
}
use auto_workflow.Exceptions.{ok}
use auto_workflow.Events.{Callback, Subscribers, subscribe, emit, emit-subscribe}
use auto_workflow.Logging.{Field, Line, flow_started_line, flow_completed_line, task_started_line}

-- The subscribers of the bus, the middlewares by their names, and `_registered`.
pub record Registration : Type 0 where
  pub bus : Subscribers (Dict Field) (List Line)
  pub middlewares : List Str
  pub registered : Bool

-- A callback that logs the line.
abbrev pub logs : (Dict Field → Line) → Callback (Dict Field) (List Line)
logs line payload log = (ok log, log ++ line payload ∷ [])

-- `ts` is the time of the lines.
module _ (ts : Str) where
  unfoldable pub register_structured_logging : Registration → Registration
  register_structured_logging st = if st.registered then st else record {
    bus = subscribe (codes "task_started") (logs (task_started_line ts)) (
        subscribe (codes "flow_completed") (logs (flow_completed_line ts))
          (subscribe (codes "flow_started") (logs (flow_started_line ts)) st.bus));
    middlewares = st.middlewares ++ codes "structured_logging_middleware" ∷ [];
    registered = true;
  }

  unfoldable pub register_n : ℕ → Registration → Registration
  register_n zero st = st
  register_n (suc n) st = register_structured_logging (register_n n st)

  -- The lines that the event stands for.
  unfoldable pub lines_of : Str → Dict Field → List Line
  lines_of event payload =
      (if event == codes "flow_started" then flow_started_line ts payload ∷ [] else [])
      ++ ((if event == codes "flow_completed" then flow_completed_line ts payload ∷ [] else [])
          ++ (if event == codes "task_started" then task_started_line ts payload ∷ [] else []))

  logged_one :
      (event other : Str) (line : Dict Field → Line) (payload : Dict Field)
      (bus : Subscribers (Dict Field) (List Line)) (log : List Line)
      → emit other payload (subscribe event (logs line) bus) log
        ≡ emit other payload bus log ++ (if other == event then line payload ∷ [] else [])
  logged_one event other line payload bus log =
      emit-subscribe event other (logs line) payload bus log ∙ elim (Bool-cases (other == event)) [
        | inl same ↦ rw same refl
        | inr differs ↦ rw differs (sym (append-nil (emit other payload bus log)))
      ]

  abbrev first_time : Registration → Registration
  first_time st = record {
    bus = subscribe (codes "task_started") (logs (task_started_line ts)) (
        subscribe (codes "flow_completed") (logs (flow_completed_line ts))
          (subscribe (codes "flow_started") (logs (flow_started_line ts)) st.bus));
    middlewares = st.middlewares ++ codes "structured_logging_middleware" ∷ [];
    registered = true;
  }

  -- However often it is called.
  register_n_lem :
      (n : ℕ) (st : Registration) → st.registered ≡ false → register_n (suc n) st ≡ first_time st
  unfolding register_n register_structured_logging
  register_n_lem zero st u = ground (arith, u)
  register_n_lem (suc n) st u = ap register_structured_logging (register_n_lem n st u)

  -- However often it is registered, each line is logged once.
  pub emit-register_n :
      (n : ℕ) (st : Registration) (event : Str) (payload : Dict Field) (log : List Line)
      → st.registered ≡ false
      → emit event payload (register_n (suc n) st).bus log
        ≡ emit event payload st.bus log ++ lines_of event payload
  unfolding lines_of
  emit-register_n n st event payload log u =
      let one = subscribe (codes "flow_started") (logs (flow_started_line ts)) st.bus in
      let two = subscribe (codes "flow_completed") (logs (flow_completed_line ts)) one in
      ap (λ r. emit event payload r.bus log) (register_n_lem n st u)
      ∙ logged_one (codes "task_started") event (task_started_line ts) payload two log
      ∙ ap (λ l. l ++ third)
          (logged_one (codes "flow_completed") event (flow_completed_line ts) payload one log)
      ∙ ap (λ l. (l ++ second) ++ third)
          (logged_one (codes "flow_started") event (flow_started_line ts) payload st.bus log)
      ∙ append_assoc (emit event payload st.bus log ++ first) second third
      ∙ append_assoc (emit event payload st.bus log) first (second ++ third)
    where
      first : List Line
      first = if event == codes "flow_started" then flow_started_line ts payload ∷ [] else []

      second : List Line
      second = if event == codes "flow_completed" then flow_completed_line ts payload ∷ [] else []

      third : List Line
      third = if event == codes "task_started" then task_started_line ts payload ∷ [] else []
