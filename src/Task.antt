-- ===== src/Task.antt =====
-- auto_workflow/task.py: the definition of a task, and `TaskDefinition.run` with its retries.
pub mod Retry
use auto_workflow.Base.{
  ℕ, zero, suc, ◌+◌, ◌-◌, ◌*◌, ◌^◌, List, [], ◌∷◌, ◌++◌, Bool, true, false, Option, none, some,
  if◌then◌else◌, Str, codes, leb, ℤ,
}
use auto_workflow.Exceptions.{
  Exn, timeout_error, retry_exhausted, builtin_timeout, runtime_error, Result, ok, raise,
}

pub data RunIn : Type 0 where
  async thread process : RunIn
  unknown : Str → RunIn

-- The fields that the modelled code reads. Durations are in units of the clock; `fn` is user code, which the functions that call it take as an argument.
pub record TaskDefinition : Type 0 where
  pub name : Str
  pub retries : ℕ
  pub retry_backoff : ℕ
  pub timeout : Option ℕ
  pub cache_ttl : Option ℕ
  pub run_in : RunIn
  pub persist : Bool
  pub priority : ℤ

-- What user code does when it is called the nth time: how long it takes, and its outcome.
abbrev pub Attempts {ℓ} : Type ℓ → Type ℓ
Attempts V = ℕ → ℕ × Result V

module _ {ℓ} {V : Type ℓ} where
  -- `_invoke`: each known mode calls the function.
  unfoldable pub invoke : RunIn → ℕ × Result V → ℕ × Result V
  invoke (unknown mode) call = (0, raise (runtime_error (codes "Unknown run_in mode: " ++ mode)))
  invoke async call = call
  invoke thread call = call
  invoke process call = call

  -- `asyncio.wait_for(_invoke(), timeout)` if a timeout is set and is not zero.
  unfoldable pub wait_for : Option ℕ → ℕ × Result V → Result V
  wait_for none call = call.1
  wait_for (some zero) call = call.1
  wait_for (some (suc n)) call = if leb call.0 (suc n) then call.1 else raise builtin_timeout

-- What `run` does besides returning: `task_retry` events with their attempt number, and sleeps.
pub data Effect : Type 0 where
  invoked : ℕ → Effect
  retry_event : ℕ → Effect
  sleep : ℕ → Effect

-- `except builtins.TimeoutError as te: err = TimeoutError(self.name, te)`, else the exception itself.
unfoldable pub caught : Str → Exn → Exn
caught name builtin_timeout = timeout_error name builtin_timeout
caught name e = e

-- The end of the error path: this module's TimeoutError is raised as it is.
unfoldable pub exhausted : Str → Exn → Exn
exhausted name (timeout_error n e) = timeout_error n e
exhausted name e = retry_exhausted name e

-- `sleep_dur`, with the jitter that `random.uniform` drew for this attempt.
abbrev pub sleep_duration : TaskDefinition → (ℕ → ℕ) → ℕ → ℕ
sleep_duration t jitter attempt = t.retry_backoff * 2 ^ (attempt - 1) + jitter attempt

module _ {ℓ} {V : Type ℓ} (t : TaskDefinition) (jitter : ℕ → ℕ) (attempts : Attempts V) where
  unfoldable pub attempt_result : ℕ → Result V
  unfolding invoke wait_for
  attempt_result n = wait_for t.timeout (invoke t.run_in (attempts n))

  -- The `while True` loop, by recursion on the retries that are left: `attempt + left` is `retries`.
  unfoldable pub run_from : ℕ → ℕ → Result V × List Effect
  run_from attempt zero = elim (attempt_result attempt) [
    | ok v ↦ (ok v, invoked attempt ∷ [])
    | raise e ↦ (raise (exhausted t.name (caught t.name e)), invoked attempt ∷ [])
  ]
  run_from attempt (suc left) =
      let rest = run_from (suc attempt) left in
      elim (attempt_result attempt) [
        | ok v ↦ (ok v, invoked attempt ∷ [])
        | raise e ↦ (
          rest.0,
          invoked attempt
              ∷ retry_event (suc attempt)
              ∷ sleep (sleep_duration t jitter (suc attempt))
              ∷ rest.1,
        )
      ]

  unfoldable pub run : Result V × List Effect
  unfolding run_from
  run = run_from 0 t.retries
