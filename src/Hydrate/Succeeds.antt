-- ===== src/Hydrate/Succeeds.antt =====
-- When a substitution of results succeeds: its steps.
use auto_workflow.Base.{
  ℕ, Bool, Bool-cases, ◌⊎◌, ◌≡◌, refl, true, Option-cases, inl, inr, some, List, ◌++◌, mem, Subset,
  Str, Dict, lookup, keys, lookup-none_iff, arith,
}
use auto_workflow.Exceptions.{Result, ok, raise, type_error, ◌>>=◌}
use auto_workflow.Build.{Value, Ref, hashed, hashable}
use auto_workflow.Build.Scan.{names, mem-names-append}

-- A call that returns, or that may meet an object without a hash and then raises a TypeError.
abbrev pub Succeeds : {A : Type 0} → Bool → Result A → Type 0
Succeeds {A} hashing r = ((w : A) × (r ≡ ok w)) ⊎ ((hashing ≡ true) × (r ≡ raise type_error))

pub found :
    (n : Str) (results : Dict Value)
    → mem n (keys results) ≡ true
    → (v : Value) × (lookup n results ≡ some v)
found n results h = elim (Option-cases (lookup n results)) [
  | inl e ↦ absurd (ground (arith, (lookup-none_iff n results).0 e))
  | inr p ↦ p
]

module _ (results : Dict Value) where
  pub left :
      (a b : List Ref) → Subset (names (a ++ b)) (keys results) → Subset (names a) (keys results)
  left a b s u m = s u (ground (arith, mem-names-append u a b))

  pub right :
      (a b : List Ref) → Subset (names (a ++ b)) (keys results) → Subset (names b) (keys results)
  right a b s u m = s u (ground (arith, mem-names-append u a b))

pub then-Succeeds :
    {A B : Type 0} (h : Bool) (r : Result A) (next : A → Result B)
    → Succeeds h r
    → ((w : A) → Succeeds h (next w))
    → Succeeds h (r >>= next)
then-Succeeds h r next (inl (w, e)) n = rw (e) (n w)
then-Succeeds h r next (inr (t, e)) n = inr (t, rw (e) refl)

pub sooner :
    {A : Type 0} (g h : Bool) (r : Result A) → (g ≡ true → h ≡ true) → Succeeds g r → Succeeds h r
sooner g h r i (inl q) = inl q
sooner g h r i (inr (t, e)) = inr (i t, e)

pub hashed-Succeeds : (hashes : ℕ → Bool) (w : Value) → Succeeds true (hashed hashes w)
unfolding hashed
hashed-Succeeds hashes w = elim (Bool-cases (hashable hashes w)) [
  | inl fine ↦ inl (w, rw (fine) refl)
  | inr bare ↦ inr (refl, rw (bare) refl)
]
