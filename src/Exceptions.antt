-- ===== src/Exceptions.antt =====
-- Python exceptions as values, and fallible code as a result: auto_workflow/exceptions.py and the
-- builtin exceptions that the modelled code raises.
use auto_workflow.Base.{ℕ, List, Str, ◌≡◌, refl, arith}

pub data Exn : Type 0 where
  -- CycleDetectedError(cycle)
  cycle_detected : List Str → Exn
  -- TaskExecutionError(task_name, original), and its two subclasses
  task_execution_error : Str → Exn → Exn
  timeout_error : Str → Exn → Exn
  retry_exhausted : Str → Exn → Exn
  -- KeyError of a dict, builtins.TimeoutError, RuntimeError(message)
  key_error : Str → Exn
  builtin_timeout : Exn
  runtime_error : Str → Exn
  -- AttributeError or TypeError at the use of another object as a dict
  not_a_dict : Exn
  -- TypeError of an unhashable element or key
  type_error : Exn
  -- ConfigError of connectors/exceptions.py
  config_error : Str → Exn
  -- what user code raises, by a tag
  user_error : ℕ → Exn
  -- no exception of the program: the bound of a modelled loop was too small
  out_of_fuel : Exn

-- How a call ends: with an exception, or with its value.
pub data Result {κ} (V : Type κ) : Type κ where
  raise : Exn → Result V
  ok : V → Result V

infixl 5 ◌>>=◌
abbrev pub ◌>>=◌ {κ ℓ} :
    {V : Type κ} {W : Type ℓ} → (first : Result V) → (next : V → Result W) → Result W
raise exn >>= next = raise exn
ok v >>= next = next v

-- If a chain of two calls returns, then both do.
pub >>=-eq-ok {κ ℓ} :
    {V : Type κ} {W : Type ℓ} (first : Result V) (next : V → Result W) {w : W}
    → (first >>= next) ≡ ok w
    → (v : V) × (first ≡ ok v) × (next v ≡ ok w)
>>=-eq-ok (raise exn) next e = cc
>>=-eq-ok (ok v) next e = (v, refl, e)

pub ok_injective {ℓ} : {V : Type ℓ} (v w : V) → ok v ≡ ok w → v ≡ w
ok_injective v w e = ground arith
