-- ===== src/Task/Retry.antt =====
-- The retry loop: how often the function is called, and what becomes of the last exception.
use auto_workflow.Base.{
  Bool, true, false, Str, refl, ℕ, zero, suc, ◌+◌, ◌≤◌, ◌≡◌, subst, List, [], ◌∷◌, ◌++◌, arith,
}
use auto_workflow.Exceptions.{
  Exn, ok, raise, cycle_detected, task_execution_error, timeout_error, retry_exhausted, key_error,
  builtin_timeout, runtime_error, type_error, not_a_dict, config_error, user_error, out_of_fuel,
}
use auto_workflow.Task.{
  TaskDefinition, Attempts, Effect, invoked, retry_event, sleep, sleep_duration, caught, exhausted,
  attempt_result, run_from, run,
}

abbrev pub is_timeout : Exn → Bool
is_timeout builtin_timeout = true
is_timeout (timeout_error task e) = true
is_timeout e = false

-- Which exception leaves `run` if the last call has ended with one.
pub data LeavesAs (name : Str) : Exn → Exn → Type 0 where
  converted : LeavesAs name builtin_timeout (timeout_error name builtin_timeout)
  kept : (task : Str) (e : Exn) → LeavesAs name (timeout_error task e) (timeout_error task e)
  wrapped : (e : Exn) → is_timeout e ≡ false → LeavesAs name e (retry_exhausted name e)

exhausted-LeavesAs : (name : Str) (e : Exn) → LeavesAs name e (exhausted name (caught name e))
unfolding exhausted caught
exhausted-LeavesAs name builtin_timeout = converted
exhausted-LeavesAs name (timeout_error task e) = kept task e
exhausted-LeavesAs name (cycle_detected ns) = wrapped (cycle_detected ns) refl
exhausted-LeavesAs name (task_execution_error task e) = wrapped (task_execution_error task e) refl
exhausted-LeavesAs name (retry_exhausted task e) = wrapped (retry_exhausted task e) refl
exhausted-LeavesAs name (key_error n) = wrapped (key_error n) refl
exhausted-LeavesAs name (runtime_error m) = wrapped (runtime_error m) refl
exhausted-LeavesAs name type_error = wrapped type_error refl
exhausted-LeavesAs name not_a_dict = wrapped not_a_dict refl
exhausted-LeavesAs name (config_error m) = wrapped (config_error m) refl
exhausted-LeavesAs name (user_error n) = wrapped (user_error n) refl
exhausted-LeavesAs name out_of_fuel = wrapped out_of_fuel refl

module _ {ℓ} {V : Type ℓ} (t : TaskDefinition) (jitter : ℕ → ℕ) (attempts : Attempts V) where
  -- `n` attempts from `i` on raise.
  unfoldable pub Fails : ℕ → ℕ → Type ℓ
  Fails i zero = Unit
  Fails i (suc n) = ((e : Exn) × (attempt_result t jitter attempts i ≡ raise e)) × Fails (suc i) n

  -- The events and sleeps of `n` failed attempts from `i` on that are retried.
  unfoldable pub retries_from : ℕ → ℕ → List Effect
  retries_from i zero = []
  retries_from i (suc n) =
      invoked i
      ∷ retry_event (suc i)
      ∷ sleep (sleep_duration t jitter (suc i))
      ∷ retries_from (suc i) n

  run_from-ok :
      (i left : ℕ) (v : V)
      → attempt_result t jitter attempts i ≡ ok v
      → run_from t jitter attempts i left ≡ (ok v, invoked i ∷ [])
  unfolding run_from
  run_from-ok i zero v e = rw (e, run_from)
  run_from-ok i (suc left) v e = rw (e, run_from)

  run_from-raise :
      (i left : ℕ) (x : Exn)
      → attempt_result t jitter attempts i ≡ raise x
      → run_from t jitter attempts i (suc left) ≡ (
        (run_from t jitter attempts (suc i) left).0,
        invoked i
            ∷ retry_event (suc i)
            ∷ sleep (sleep_duration t jitter (suc i))
            ∷ (run_from t jitter attempts (suc i) left).1,
      )
  unfolding run_from
  run_from-raise i left x e = rw (e, run_from)

  run_from_succeeds :
      (n i k left : ℕ) (v : V)
      → k ≡ i + n
      → n ≤ left
      → Fails i n
      → attempt_result t jitter attempts k ≡ ok v
      → run_from t jitter attempts i left ≡ (ok v, retries_from i n ++ invoked k ∷ [])
  unfolding Fails retries_from
  run_from_succeeds zero i k left v p h f e =
      let same : k ≡ i = omega arith in
      rw same (run_from-ok i left v (subst (λ j. attempt_result t jitter attempts j ≡ ok v) same e))
  run_from_succeeds (suc n) i k zero v p h f e = absurd (omega arith)
  run_from_succeeds (suc n) i k (suc left) v p h f e =
      let ((x, failed), later) = f in
      rw (
        run_from-raise i left x failed,
        run_from_succeeds n (suc i) k left v (omega arith) (omega arith) later e,
      )

  run_from_exhausts :
      (left i k : ℕ) (x : Exn)
      → k ≡ i + left
      → Fails i left
      → attempt_result t jitter attempts k ≡ raise x
      → run_from t jitter attempts i left
        ≡ (raise (exhausted t.name (caught t.name x)), retries_from i left ++ invoked k ∷ [])
  unfolding Fails retries_from run_from
  run_from_exhausts zero i k x p f e =
      let same : k ≡ i = omega arith in
      let now = subst (λ j. attempt_result t jitter attempts j ≡ raise x) same e in
      rw (same, now, run_from)
  run_from_exhausts (suc left) i k x p f e =
      let ((y, failed), later) = f in
      rw (run_from-raise i left y failed, run_from_exhausts left (suc i) k x (omega arith) later e)

  -- If the first n calls raise and the next one returns, with n at most the retries, run returns
  -- that value after n retry events and backoffs and makes no further call.
  pub run_succeeds :
      (n : ℕ) (v : V)
      → n ≤ t.retries
      → Fails 0 n
      → attempt_result t jitter attempts n ≡ ok v
      → run t jitter attempts ≡ (ok v, retries_from 0 n ++ invoked n ∷ [])
  unfolding run
  run_succeeds n v h f e = run_from_succeeds n 0 n t.retries v (omega arith) h f e

  -- If the first call and all retries raise, run makes retries + 1 calls with a retry event and a
  -- backoff between them, and raises an exception that depends on the last one: for the builtin
  -- TimeoutError the TimeoutError of the task, a TimeoutError of the program as it is, and for any
  -- other the RetryExhaustedError around it.
  pub run_exhausts :
      (x : Exn)
      → Fails 0 t.retries
      → attempt_result t jitter attempts t.retries ≡ raise x
      → (y : Exn) × LeavesAs t.name x y
        × (run t jitter attempts ≡ (raise y, retries_from 0 t.retries ++ invoked t.retries ∷ []))
  unfolding run
  run_exhausts x f e = (
    exhausted t.name (caught t.name x),
    exhausted-LeavesAs t.name x,
    run_from_exhausts t.retries 0 t.retries x (omega arith) f e,
  )
