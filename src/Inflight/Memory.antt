-- ===== src/Inflight/Memory.antt =====
-- The cache in memory as the cache of a run.
use auto_workflow.Base.{
  ℕ, ◌≡◌, refl, ap, inl, inr, ◌⊎◌, Bool-cases, Option, none, some, [], ◌∷◌, ◌++◌, leb, ◌-◌, zero,
  suc, Str, ◌==◌, eq_iff, Dict, lookup, erase, arith, ltb, length,
}
use mathlib.Core.List.{Memᴰ}
use mathlib.Core.List.Memᴰ.{head, tail}
use auto_workflow.Cache.{get_memory, set_memory, move_to_end, enforce, evict}
use auto_workflow.Inflight.{ResultCache}
use auto_workflow.Inflight.Replay.{CacheLaws}

module _ {ℓ} {V : Type ℓ} where
  abbrev pub memory_cache : Option ℕ → ResultCache V (Dict (ℕ × V))
  memory_cache bound = record { get = get_memory; set = set_memory bound }

  -- An entry with the value, made at some time.
  abbrev pub Holds : Dict (ℕ × V) → Str → V → Type ℓ
  Holds store k v = (t : ℕ) × Memᴰ (k, (t, v)) store

  held_of_lookup :
      (k : Str) (item : ℕ × V) (store : Dict (ℕ × V))
      → lookup k store ≡ some item
      → Memᴰ (k, item) store
  unfolding lookup
  held_of_lookup k item [] e = absurd (ground arith)
  held_of_lookup k item ((j, x) ∷ store) e = elim (Bool-cases (k == j)) [
    | inl same ↦ head (ground (arith, eq_iff k j))
    | inr other ↦ tail (held_of_lookup k item store (ground arith))
  ]

  held_of_erase :
      (k : Str) (e : Str × (ℕ × V)) (store : Dict (ℕ × V)) → Memᴰ e (erase k store) → Memᴰ e store
  unfolding erase
  held_of_erase k e [] m = m
  held_of_erase k e ((j, x) ∷ store) m = elim (Bool-cases (k == j)) [
    | inl same ↦ tail (rw same at m)
    | inr other ↦ (elim (rw other at m) [
      | head h ↦ head h
      | tail t ↦ tail (held_of_erase k e store t)
    ])
  ]

  held_of_append :
      (e : Str × (ℕ × V)) (xs ys : Dict (ℕ × V)) → Memᴰ e (xs ++ ys) → Memᴰ e xs ⊎ Memᴰ e ys
  held_of_append e [] ys m = inr m
  held_of_append e (x ∷ xs) ys (head h) = inl (head h)
  held_of_append e (x ∷ xs) ys (tail m) = elim (held_of_append e xs ys m) [
    | inl a ↦ inl (tail a)
    | inr b ↦ inr b
  ]

  held_of_evict :
      (n : ℕ) (e : Str × (ℕ × V)) (store : Dict (ℕ × V)) → Memᴰ e (evict n store) → Memᴰ e store
  unfolding evict
  held_of_evict n e [] m = m
  held_of_evict n e (x ∷ store) m = elim (Bool-cases (ltb n (length (x ∷ store)))) [
    | inl over ↦ tail (held_of_evict n e store (rw over at m))
    | inr fits ↦ rw fits at m
  ]

  held_of_enforce :
      (bound : Option ℕ) (e : Str × (ℕ × V)) (store : Dict (ℕ × V))
      → Memᴰ e (enforce bound store)
      → Memᴰ e store
  unfolding enforce
  held_of_enforce none e store m = m
  held_of_enforce (some zero) e store m = m
  held_of_enforce (some (suc n)) e store m = held_of_evict (suc n) e store m

  held_of_moved :
      (k : Str) (item : ℕ × V) (e : Str × (ℕ × V)) (store : Dict (ℕ × V))
      → Memᴰ e (move_to_end k item store)
      → Memᴰ e store ⊎ (e ≡ (k, item))
  held_of_moved k item e store m = elim (held_of_append e (erase k store) ((k, item) ∷ []) m) [
    | inl before ↦ inl (held_of_erase k e store before)
    | inr (head h) ↦ inr h
    | inr (tail t) ↦ absurd (elim t [ ])
  ]

  -- `get` leaves the entries, or moves the one that it finds.
  data Looked (now : ℕ) (k : Str) (ttl : Option ℕ) (store : Dict (ℕ × V)) : Type ℓ where
    missed : get_memory now k ttl store ≡ (none, store) → Looked now k ttl store
    found :
        (t : ℕ) (v : V)
        → lookup k store ≡ some (t, v)
        → get_memory now k ttl store ≡ (some v, move_to_end k (t, v) store)
        → Looked now k ttl store

  looked : (now : ℕ) (k : Str) (ttl : Option ℕ) (store : Dict (ℕ × V)) → Looked now k ttl store
  unfolding get_memory
  looked now k none store = missed refl
  looked now k (some limit) store = by_entry (lookup k store) refl
    where
      by_entry : (o : Option (ℕ × V)) → lookup k store ≡ o → Looked now k (some limit) store
      by_entry none z = missed (rw (z, get_memory) refl)
      by_entry (some (t, v)) z = elim (Bool-cases (leb (now - t) limit)) [
        | inl young ↦ found t v z (rw (z, get_memory, young) refl)
        | inr old ↦ missed (rw (z, get_memory, old) refl)
      ]

  pub memory-CacheLaws : (bound : Option ℕ) → CacheLaws (memory_cache bound) Holds
  unfolding set_memory
  memory-CacheLaws bound = record {
    get_held = λ now k ttl store v e. elim (looked now k ttl store) [
      | missed z ↦ absurd (ground (arith, rw z at e))
      | found t w at_k z ↦ (t, held_of_lookup k (t, v) store (ground (arith, at_k, rw z at e)))
    ];
    held_of_get = λ now k ttl store j v (t, m). elim (looked now k ttl store) [
      | missed z ↦ (t, rw z at m)
      | found s w at_k z ↦ (
        t,
        elim (held_of_moved k (s, w) (j, (t, v)) store (rw z at m)) [
          | inl before ↦ before
          | inr same ↦ rw same (held_of_lookup k (s, w) store at_k)
        ],
      )
    ];
    held_of_set = λ now k w store j v (t, m).
        elim (held_of_moved k (now, w) (j, (t, v)) store
          (held_of_enforce bound (j, (t, v)) (move_to_end k (now, w) store) m)) [
            | inl before ↦ inl (t, before)
            | inr same ↦ inr (ap (λ e. e.0) same, ap (λ e. e.1.1) same)
          ];
  }
