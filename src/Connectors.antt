-- ===== src/Connectors.antt =====
-- auto_workflow/connectors/exceptions.py and base.py: the errors that the connectors raise, and the
-- span around their operations. A call takes the client's state and ends with an answer and the
-- state it leaves, also where it fails.
pub mod Redact
use auto_workflow.Base.{ℕ, List, [], ◌∷◌, ◌++◌, Option, none, Str, codes}

-- The class of an exception: the connectors' own ones, those of the Azure SDK, of which the second
-- line's are subclasses of HttpResponseError, TypeError, or another.
pub data Kind : Type 0 where
  connector_error transient permanent auth timeout config not_found : Kind
  client_authentication resource_not_found resource_exists : Kind
  http_response service_request service_response : Kind
  type_error other : Kind

-- An exception, as far as the connectors look into it: `sqlstate` is that attribute or `pgcode`,
-- where it is a string, `status` is `status_code` or that attribute as an
-- int, and `message` is `str(e)`.
pub record Error : Type 0 where
  pub kind : Kind
  pub sqlstate : Option Str
  pub status : Option ℕ
  pub message : Str

-- An exception that a connector raises with a message.
abbrev pub error : Kind → Str → Error
error kind message = record { kind = kind; sqlstate = none; status = none; message = message }

pub data Answer {ℓ} (A : Type ℓ) : Type ℓ where
  fails : Error → Answer A
  gives : A → Answer A

abbrev pub Call {ℓ} : Type ℓ → Type ℓ → Type ℓ
Call C A = C → Answer A × C

abbrev pub map_error {ℓ} : {A : Type ℓ} → (Error → Error) → Answer A → Answer A
map_error f (fails e) = fails (f e)
map_error f (gives a) = gives a

module _ {ℓ} {C A : Type ℓ} where
  abbrev pub done : A → Call C A
  done a c = (gives a, c)

  -- `try: … except Exception as e: raise f(e) from e`
  abbrev pub mapping : (Error → Error) → Call C A → Call C A
  mapping f call c = let (r, c') = call c in (map_error f r, c')

module _ {ℓ} {C A B : Type ℓ} where
  abbrev pub go_on : Answer A × C → (A → Call C B) → Answer B × C
  go_on (fails e, c) next = (fails e, c)
  go_on (gives a, c) next = next a c

  infixl 5 ◌>>=◌
  abbrev pub ◌>>=◌ : (first : Call C A) → (next : A → Call C B) → Call C B
  (first >>= next) c = go_on (first c) next

-- What a metrics provider is told.
pub data Metric : Type 0 where
  inc : Str → Metric
  observe : Str → Metric

abbrev pub metric_name : Str → Str → Str → Str
metric_name name op suffix = name ++ codes "." ++ op ++ codes "." ++ suffix

abbrev pub error_metrics {ℓ} : {A : Type ℓ} → Str → Str → Answer A → List Metric
error_metrics name op (fails e) = inc (metric_name name op (codes "errors")) ∷ []
error_metrics name op (gives a) = []

-- `_op_span(op)` around a call; `note` gives metrics to the provider, in order.
unfoldable pub op_span {ℓ} :
    {C A : Type ℓ} → (List Metric → C → C) → Str → Str → Call C A → Call C A
op_span note name op call c =
    let (r, c') = call (note (inc (metric_name name op (codes "count")) ∷ []) c) in
    (
      r,
      note (error_metrics name op r ++ observe (metric_name name op (codes "latency_ms")) ∷ []) c',
    )
