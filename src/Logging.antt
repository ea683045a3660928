-- ===== src/Logging.antt =====
-- auto_workflow/logging_middleware.py: the lines of the structured log, their registration, and the
-- handlers of the logger. Python's logging and json are the environment: a line stands as its
-- fields, the clock and the texts of values are arguments.

pub mod Handlers
pub mod Registered
use auto_workflow.Base.{
  ℕ, zero, suc, Bool, true, false, not, Option, none, some, List, [], ◌∷◌, ◌++◌, if◌then◌else◌,
  filter, Str, codes, Dict, lookup,
}
use auto_workflow.Exceptions.{Exn, Result, ok, raise}
use auto_workflow.Events.{Subscribers, subscribe}

-- A value in a payload or a line.
pub data Field : Type 0 where
  null : Field
  text : Str → Field
  number : ℕ → Field

-- `logger.info` and `logger.error`
pub data Level : Type 0 where
  info error : Level

pub record Line : Type 0 where
  pub level : Level
  pub fields : Dict Field

abbrev pub or_null : Option Field → Field
or_null none = null
or_null (some v) = v

-- `payload.get(key)`
abbrev pub field : Str → Dict Field → Field
field key payload = or_null (lookup key payload)

-- `_on_flow_started`, `_on_flow_completed` and `_on_task_started`, at the time `ts`.
unfoldable pub flow_started_line : Str → Dict Field → Line
flow_started_line ts payload = record {
  level = info;
  fields =
      (codes "event", text (codes "flow_started"))
      ∷ (codes "flow", field (codes "flow") payload)
      ∷ (codes "run_id", field (codes "run_id") payload)
      ∷ (codes "ts", text ts)
      ∷ [];
}

unfoldable pub flow_completed_line : Str → Dict Field → Line
flow_completed_line ts payload = record {
  level = info;
  fields =
      (codes "event", text (codes "flow_completed"))
      ∷ (codes "flow", field (codes "flow") payload)
      ∷ (codes "run_id", field (codes "run_id") payload)
      ∷ (codes "tasks", field (codes "tasks") payload)
      ∷ (codes "ts", text ts)
      ∷ [];
}

unfoldable pub task_started_line : Str → Dict Field → Line
task_started_line ts payload = record {
  level = info;
  fields =
      (codes "event", text (codes "task_started"))
      ∷ (codes "task", field (codes "task") payload)
      ∷ (codes "node", field (codes "node") payload)
      ∷ (codes "ts", text ts)
      ∷ [];
}

-- `get_context()`: the run id and the name of the flow, if a flow is running.
abbrev pub Context : Type 0
Context = Option (Str × Str)

abbrev pub run_id_of : Context → Field
run_id_of none = null
run_id_of (some (run_id, flow_name)) = text run_id

abbrev pub flow_of : Context → Field
flow_of none = null
flow_of (some (run_id, flow_name)) = text flow_name

unfoldable pub task_meta : Str → Context → Str → Dict Field
task_meta task ctx ts =
    (codes "task", text task)
    ∷ (codes "run_id", run_id_of ctx)
    ∷ (codes "flow", flow_of ctx)
    ∷ (codes "ts", text ts)
    ∷ []

module _ {ℓ} {V : Type ℓ} (show_exception : Exn → Str) where
  -- The line of a task that has ended with the outcome after `ms` milliseconds.
  unfoldable pub task_line : Str → Context → Str → ℕ → Result V → Line
  unfolding task_meta
  task_line task ctx ts ms (ok v) = record {
    level = info;
    fields =
        (codes "event", text (codes "task_ok"))
        ∷ (task_meta task ctx ts ++ (codes "duration_ms", number ms) ∷ []);
  }
  task_line task ctx ts ms (raise e) = record {
    level = error;
    fields =
        (codes "event", text (codes "task_err"))
        ∷ (task_meta task ctx ts
            ++ (codes "duration_ms", number ms) ∷ (codes "error", text (show_exception e)) ∷ []);
  }

  -- `structured_logging_middleware` around `nxt`, which takes `ms` milliseconds.
  unfoldable pub structured_logging_middleware :
      Str
      → Context
      → Str
      → ℕ
      → (List Line → Result V × List Line)
      → List Line
      → Result V × List Line
  unfolding task_line
  structured_logging_middleware task ctx ts ms nxt log =
      let (r, log') = nxt log in (r, log' ++ task_line task ctx ts ms r ∷ [])

-- `StructuredPrettyFormatter.format`: a present field that is not None.
unfoldable pub shown : (Field → Str) → Dict Field → List Str → List Str
shown str given [] = []
shown str given (k ∷ ks) = elim (field k given) [
  | null ↦ shown str given ks
  | text s ↦ (k ++ codes "=" ++ str (text s)) ∷ shown str given ks
  | number n ↦ (k ++ codes "=" ++ str (number n)) ∷ shown str given ks
]

-- `one_decimal` is `f"{float(v):.1f}"`, which may raise.
unfoldable pub duration_part : (Field → Str) → (Field → Option Str) → Dict Field → List Str
duration_part str one_decimal given = elim (lookup (codes "duration_ms") given) [
  | none ↦ []
  | some v ↦ (elim (one_decimal v) [
    | some s ↦ (codes "duration=" ++ s ++ codes "ms") ∷ []
    | none ↦ (codes "duration=" ++ str v ++ codes "ms") ∷ []
  ])
]

unfoldable pub error_part : (Field → Str) → Dict Field → List Str
error_part str given = elim (lookup (codes "error") given) [
  | none ↦ []
  | some v ↦ (codes "error=" ++ str v) ∷ []
]

-- `sep.join(parts)`
unfoldable pub join_texts : Str → List Str → Str
join_texts sep [] = []
join_texts sep (p ∷ []) = p
join_texts sep (p ∷ (q ∷ ps)) = p ++ sep ++ join_texts sep (q ∷ ps)

abbrev pub truthy : Field → Bool
truthy null = false
truthy (text []) = false
truthy (text (c ∷ s)) = true
truthy (number zero) = false
truthy (number (suc n)) = true

-- The parts of the line; the texts of the event and of the common fields.
unfoldable pub parts : (Field → Str) → (Field → Option Str) → Str → Str → Dict Field → List Str
unfolding shown duration_part error_part join_texts
parts str one_decimal ts lvl given =
    let event = field (codes "event") given in
    let common =
      shown str given (codes "flow" ∷ codes "run_id" ∷ codes "task" ∷ codes "node" ∷ []) in
    let kvs = common ++ duration_part str one_decimal given ++ error_part str given in
    ts
    ∷ lvl
    ∷ ((if truthy event then str event ∷ [] else [])
        ++ (elim kvs [ [] ↦ [] | kv ∷ rest ↦ join_texts (codes " ") (kv ∷ rest) ∷ [] ]))

-- `format`: a message that is not JSON is formatted by the base class; else it is taken for one of
-- the lines above, whose event is a text.
unfoldable pub format :
    (Field → Str) → (Field → Option Str) → Str → Str → Str → Option (Dict Field) → Str
unfolding parts join_texts
format str one_decimal ts lvl plain none = plain
format str one_decimal ts lvl plain (some given) =
    join_texts (codes " | ") (parts str one_decimal ts lvl given)
