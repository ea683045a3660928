-- ===== src/Base/Dicts.antt =====
-- Python's `dict` with `str` keys, as the list of its items in insertion order.
use mathlib.Core.Path.{◌≡◌, refl}
use mathlib.Core.Logic.{◌↔◌}
use mathlib.Core.Bool.{Bool, true, false, ◌||◌}
use mathlib.Core.List.{List, [], ◌∷◌, ◌++◌, map}
use mathlib.Core.Option
use mathlib.Core.Option.{Option, none, some}
use native.Mathlib.Omega.{arith}
use auto_workflow.Base.Tests.{if◌then◌else◌}
use auto_workflow.Base.Strings.{Str, ◌==◌, eq_iff}
use auto_workflow.Base.Lists.{mem, nodup}

abbrev pub Dict {ℓ} : Type ℓ → Type ℓ
Dict V = List (Str × V)

module _ {ℓ} {V : Type ℓ} where
  -- `d.get(k)`
  unfoldable pub lookup : Str → Dict V → Option V
  lookup k [] = none
  lookup k ((j, v) ∷ d) = if k == j then some v else lookup k d

  -- `d[k] = v`: a present key keeps its place.
  unfoldable pub insert : Str → V → Dict V → Dict V
  insert k v [] = (k, v) ∷ []
  insert k v ((j, w) ∷ d) = if k == j then (j, v) ∷ d else (j, w) ∷ insert k v d

  -- `d.pop(k, None)`
  unfoldable pub erase : Str → Dict V → Dict V
  erase k [] = []
  erase k ((j, w) ∷ d) = if k == j then d else (j, w) ∷ erase k d

  -- `list(d)`
  abbrev pub keys : Dict V → List Str
  keys = map (λ e. e.0)

  -- `k in d`
  abbrev pub has_key : Str → Dict V → Bool
  has_key k d = mem k (keys d)

  pub lookup-insert :
      (j k : Str) (v : V) (d : Dict V)
      → lookup j (insert k v d) ≡ (if j == k then some v else lookup j d)
  unfolding lookup insert
  lookup-insert j k v [] = refl
  lookup-insert j k v ((i, w) ∷ d) =
      ground (arith, eq_iff j k, eq_iff k i, eq_iff j i, lookup-insert j k v d)

  pub mem-keys-insert :
      (j k : Str) (v : V) (d : Dict V) → mem j (keys (insert k v d)) ≡ (j == k || mem j (keys d))
  unfolding mem insert
  mem-keys-insert j k v [] = refl
  mem-keys-insert j k v ((i, w) ∷ d) =
      ground (arith, eq_iff j k, eq_iff k i, eq_iff j i, mem-keys-insert j k v d)

  pub nodup-keys-insert :
      (k : Str) (v : V) (d : Dict V) → nodup (keys d) ≡ true → nodup (keys (insert k v d)) ≡ true
  unfolding nodup insert mem
  nodup-keys-insert k v [] h = refl
  nodup-keys-insert k v ((i, w) ∷ d) h =
      ground (arith, eq_iff k i, eq_iff i k, mem-keys-insert i k v d, nodup-keys-insert k v d)

  pub lookup-none_iff : (k : Str) (d : Dict V) → (lookup k d ≡ none) ↔ (mem k (keys d) ≡ false)
  unfolding lookup mem
  lookup-none_iff k [] = (λ _. refl, λ _. refl)
  lookup-none_iff k ((j, v) ∷ d) = ground (arith, lookup-none_iff k d)

  mem-keys-erase :
      (j k : Str) (d : Dict V) → mem j (keys (erase k d)) ≡ true → mem j (keys d) ≡ true
  unfolding mem erase
  mem-keys-erase j k [] h = h
  mem-keys-erase j k ((i, w) ∷ d) h = ground (arith, mem-keys-erase j k d)

  pub nodup-keys-erase :
      (k : Str) (d : Dict V) → nodup (keys d) ≡ true → nodup (keys (erase k d)) ≡ true
  unfolding nodup erase
  nodup-keys-erase k [] h = refl
  nodup-keys-erase k ((i, w) ∷ d) h = ground (arith, nodup-keys-erase k d, mem-keys-erase i k d)

  pub lookup-erase :
      (j k : Str) (d : Dict V)
      → nodup (keys d) ≡ true
      → lookup j (erase k d) ≡ (if j == k then none else lookup j d)
  unfolding lookup erase nodup
  lookup-erase j k [] h = ground arith
  lookup-erase j k ((i, w) ∷ d) h =
      ground (arith, lookup-erase j k d, eq_iff j k, eq_iff k i, eq_iff j i, lookup-none_iff k d)

  -- `d[k].x = f(d[k].x)` for a present key.
  unfoldable pub adjust : Str → (V → V) → Dict V → Dict V
  adjust k f [] = []
  adjust k f ((j, w) ∷ d) = if k == j then (j, f w) ∷ d else (j, w) ∷ adjust k f d

  pub lookup-adjust :
      (j k : Str) (f : V → V) (d : Dict V)
      → lookup j (adjust k f d) ≡ (if j == k then Option.map f (lookup j d) else lookup j d)
  unfolding lookup adjust
  lookup-adjust j k f [] = ground arith
  lookup-adjust j k f ((i, w) ∷ d) =
      ground (arith, eq_iff j k, eq_iff k i, eq_iff j i, lookup-adjust j k f d)

  pub keys-adjust : (k : Str) (f : V → V) (d : Dict V) → keys (adjust k f d) ≡ keys d
  unfolding adjust
  keys-adjust k f [] = refl
  keys-adjust k f ((i, w) ∷ d) = ground (arith, keys-adjust k f d)

  -- `list(d.values())`
  abbrev pub values : Dict V → List V
  values = map (λ e. e.1)

  -- A new key goes behind the others.
  pub insert_absent :
      (k : Str) (v : V) (d : Dict V) → lookup k d ≡ none → insert k v d ≡ d ++ (k, v) ∷ []
  unfolding insert lookup
  insert_absent k v [] h = refl
  insert_absent k v ((j, w) ∷ d) h = ground (arith, insert_absent k v d)
