-- ===== src/Middleware.antt =====
-- auto_workflow/middleware.py: the chain of middlewares around the run of a task.
use auto_workflow.Base.{
  ℕ, suc, ◌≤◌, ◌≡◌, ◌⊎◌, inl, inr, refl, Bool, true, false, List, [], ◌∷◌, ◌++◌, All, arith,
}
use auto_workflow.Exceptions.{Exn, Result, ok, raise}

-- What a middleware does in one run of a task: it ends, or it awaits `nxt()` and goes on with what
-- came of it, a value or an exception.
pub data Middleware {ℓ} (V : Type ℓ) : Type ℓ where
  finish : Result V → Middleware V
  call_next : (Result V → Middleware V) → Middleware V

-- The calls of `core` so far, and the indices of the middlewares in `middleware_error` events.
pub record Trace : Type 0 where
  pub calls : ℕ
  pub errors : List ℕ

module _ {ℓ} {V : Type ℓ} where
  -- `await mw(…)` and its `except`: `next` is `_call_chain(index + 1, …)`, and the flag is
  -- `executing_core`.
  unfoldable pub await_middleware :
      ℕ → (Trace → Result V × Trace) → Middleware V → Bool → Trace → Result V × Trace
  await_middleware index next (finish (ok v)) executing_core st = (ok v, st)
  await_middleware index next (finish (raise e)) true st = (raise e, st)
  await_middleware index next (finish (raise e)) false st =
      next (record st { errors = st.errors ++ index ∷ [] })
  await_middleware index next (call_next k) executing_core st =
      let (r, st') = next st in await_middleware index next (k r) true st'

  -- `_call_chain` from the middleware `index` on; the nth call of `core` has the outcome `core n`.
  unfoldable pub call_chain : (ℕ → Result V) → ℕ → List (Middleware V) → Trace → Result V × Trace
  unfolding await_middleware
  call_chain core index [] st = (core st.calls, record st { calls = suc st.calls })
  call_chain core index (mw ∷ rest) st =
      await_middleware index (call_chain core (suc index) rest) mw false st

  -- The middleware passes the outcome of `nxt()` on, or raises before it calls `nxt`.
  unfoldable pub IsTransparent : Middleware V → Type ℓ
  IsTransparent mw = (mw ≡ call_next finish) ⊎ ((e : Exn) × (mw ≡ finish (raise e)))

  -- The middleware calls `nxt` at most once.
  unfoldable pub CallsOnce : Middleware V → Type ℓ
  CallsOnce mw =
      ((r : Result V) × (mw ≡ finish r))
      ⊎ ((k : Result V → Result V) × (mw ≡ call_next (λ r. finish (k r))))

  finished :
      (index : ℕ) (next : Trace → Result V × Trace) (r : Result V) (st : Trace)
      → await_middleware index next (finish r) true st ≡ (r, st)
  unfolding await_middleware
  finished index next (ok v) st = refl
  finished index next (raise e) st = refl

  passed :
      (index : ℕ) (next : Trace → Result V × Trace) (k : Result V → Result V) (st : Trace)
      → await_middleware index next (call_next (λ r. finish (k r))) false st
        ≡ (k (next st).0, (next st).1)
  unfolding await_middleware
  passed index next k st = finished index next (k (next st).0) (next st).1

  skipped :
      (index : ℕ) (next : Trace → Result V × Trace) (e : Exn) (st : Trace)
      → await_middleware index next (finish (raise e)) false st
        ≡ next (record st { errors = st.errors ++ index ∷ [] })
  unfolding await_middleware
  skipped index next e st = refl

  module _ (core : ℕ → Result V) where
    -- Around middlewares that pass the outcome on or raise before they call nxt, the core is
    -- called once and its outcome is the outcome of the chain.
    pub call_chain-IsTransparent :
        (index : ℕ) (mws : List (Middleware V)) (st : Trace)
        → All IsTransparent mws
        → ((call_chain core index mws st).0 ≡ core st.calls)
          × ((call_chain core index mws st).1.calls ≡ suc st.calls)
    unfolding call_chain IsTransparent
    call_chain-IsTransparent index [] st h = (refl, refl)
    call_chain-IsTransparent index (mw ∷ mws) st (inl passes, h) =
        rw (passes, passed index (call_chain core (suc index) mws) (λ r. r) st)
          (call_chain-IsTransparent (suc index) mws st h)
    call_chain-IsTransparent index (mw ∷ mws) st (inr (e, raises), h) =
        rw (raises, skipped index (call_chain core (suc index) mws) e st)
          (call_chain-IsTransparent (suc index) mws (record st { errors = st.errors ++ index ∷ [] })
            h)

    -- If every middleware calls nxt at most once, the core of the chain is called at most once,
    -- whatever fails.
    pub calls-call_chain :
        (index : ℕ) (mws : List (Middleware V)) (st : Trace)
        → All CallsOnce mws
        → (call_chain core index mws st).1.calls ≤ suc st.calls
    unfolding call_chain CallsOnce
    calls-call_chain index [] st h = omega arith
    calls-call_chain index (mw ∷ mws) st (inl (ok v, ends), h) = rw ends (omega arith)
    calls-call_chain index (mw ∷ mws) st (inl (raise e, ends), h) =
        rw (ends, skipped index (call_chain core (suc index) mws) e st)
          (calls-call_chain (suc index) mws (record st { errors = st.errors ++ index ∷ [] }) h)
    calls-call_chain index (mw ∷ mws) st (inr (k, passes), h) =
        rw (passes, passed index (call_chain core (suc index) mws) k st)
          (calls-call_chain (suc index) mws st h)
