-- ===== src/Settings.antt =====
-- auto_workflow/config.py: `load_config`. The parsed table of pyproject.toml, or none where the file
-- is missing, unreadable or has no such table, and `os.environ` are arguments; `str.upper` changes
-- ASCII letters.
use auto_workflow.Base.{
  mem, subst, sym, ◌≡◌, inl, inr, refl, ℕ, zero, suc, ◌-◌, ℤ, pos, negsuc, List, [], ◌∷◌, ◌++◌, map,
  Bool, true, false, ◌&&◌, ◌||◌, Option, none, some, if◌then◌else◌, leb, Str, codes, ◌==◌, eq_iff,
  Dict, lookup, insert, lookup-insert, arith, Option-cases, Bool-cases,
}

-- A value of the configuration: None, a str, an int, a bool, or another object.
pub data Setting : Type 0 where
  nothing : Setting
  words : Str → Setting
  number : ℤ → Setting
  flag : Bool → Setting
  object : ℕ → Setting

abbrev pub defaults : Dict Setting
defaults =
    (codes "log_level", words (codes "INFO"))
    ∷ (codes "max_dynamic_tasks", number (pos 2048))
    ∷ (codes "artifact_store", words (codes "memory"))
    ∷ (codes "artifact_store_path", words (codes ".aw_artifacts"))
    ∷ (codes "artifact_serializer", words (codes "pickle"))
    ∷ (codes "result_cache", words (codes "memory"))
    ∷ (codes "result_cache_path", words (codes ".aw_cache"))
    ∷ (codes "result_cache_max_entries", nothing)
    ∷ (codes "process_pool_max_workers", nothing)
    ∷ []

abbrev pub upper_code : ℕ → ℕ
upper_code c = if leb 97 c && leb c 122 then c - 32 else c

-- f"AUTO_WORKFLOW_{k.upper()}"
unfoldable pub env_key : Str → Str
env_key k = codes "AUTO_WORKFLOW_" ++ map upper_code k

-- `d.update(data)`
unfoldable pub update : Dict Setting → Dict Setting → Dict Setting
update d [] = d
update d ((k, v) ∷ data_items) = update (insert k v d) data_items

-- The loop over `list(merged.keys())` with the environment.
unfoldable pub overridden : Dict Str → Dict Setting → Dict Setting
unfolding env_key
overridden environ [] = []
overridden environ ((k, v) ∷ d) =
    (k, elim (lookup (env_key k) environ) [ none ↦ v | some s ↦ words s ]) ∷ overridden environ d

-- What becomes of the value of an integer key.
abbrev pub limit_of : Setting → Setting
limit_of nothing = nothing
limit_of (words s) = words s
limit_of (number (pos zero)) = nothing
limit_of (number (pos (suc n))) = number (pos (suc n))
limit_of (number (negsuc n)) = nothing
limit_of (flag true) = flag true
limit_of (flag false) = nothing
limit_of (object n) = nothing

unfoldable pub coerce_key : Str → Dict Setting → Dict Setting
coerce_key k d = elim (lookup k d) [ none ↦ d | some v ↦ insert k (limit_of v) d ]

unfoldable pub coerce_keys : List Str → Dict Setting → Dict Setting
unfolding coerce_key
coerce_keys [] d = d
coerce_keys (k ∷ ks) d = coerce_keys ks (coerce_key k d)

abbrev pub is_serializer : Option Setting → Bool
is_serializer (some (words s)) = s == codes "pickle" || s == codes "json"
is_serializer (some nothing) = false
is_serializer (some (number n)) = false
is_serializer (some (flag b)) = false
is_serializer (some (object n)) = false
is_serializer none = false

unfoldable pub constrain_serializer : Dict Setting → Dict Setting
constrain_serializer d =
    if is_serializer (lookup (codes "artifact_serializer") d)
    then d
    else insert (codes "artifact_serializer") (words (codes "pickle")) d

abbrev pub integer_keys : List Str
integer_keys =
    codes "max_dynamic_tasks"
    ∷ codes "process_pool_max_workers"
    ∷ codes "result_cache_max_entries"
    ∷ []

abbrev pub table_or_empty : Option (Dict Setting) → Dict Setting
table_or_empty none = []
table_or_empty (some d) = d

-- `load_config`, without its cache
unfoldable pub load_config : Option (Dict Setting) → Dict Str → Dict Setting
unfolding update overridden coerce_keys constrain_serializer
load_config table environ =
    constrain_serializer
      (coerce_keys integer_keys (overridden environ (update defaults (table_or_empty table))))

-- A limit is text, None, a positive number or True.
abbrev pub is_limit : Option Setting → Bool
is_limit none = true
is_limit (some nothing) = true
is_limit (some (words s)) = true
is_limit (some (number (pos zero))) = false
is_limit (some (number (pos (suc n)))) = true
is_limit (some (number (negsuc n))) = false
is_limit (some (flag b)) = b
is_limit (some (object n)) = false

limit_of-is_limit : (v : Setting) → is_limit (some (limit_of v)) ≡ true
limit_of-is_limit nothing = refl
limit_of-is_limit (words s) = refl
limit_of-is_limit (number (pos zero)) = refl
limit_of-is_limit (number (pos (suc n))) = refl
limit_of-is_limit (number (negsuc n)) = refl
limit_of-is_limit (flag true) = refl
limit_of-is_limit (flag false) = refl
limit_of-is_limit (object n) = refl

-- A key after the step for another or the same key.
step-is_limit :
    (j k : Str) (d : Dict Setting)
    → (j == k) || is_limit (lookup j d) ≡ true
    → is_limit (lookup j (coerce_key k d)) ≡ true
unfolding coerce_key
step-is_limit j k d h = elim (Option-cases (lookup k d)) [
  | inl absent ↦ ground (arith, absent, eq_iff j k)
  | inr (v, found) ↦ ground (arith, found, lookup-insert j k (limit_of v) d, limit_of-is_limit v)
]

serializer_lem :
    (d : Dict Setting)
    → is_serializer (lookup (codes "artifact_serializer") (constrain_serializer d)) ≡ true
unfolding constrain_serializer
serializer_lem d = elim (Bool-cases (is_serializer (lookup (codes "artifact_serializer") d))) [
  | inl fine ↦ ground (arith, fine)
  | inr other ↦ ground (
    arith,
    other,
    lookup-insert (codes "artifact_serializer") (codes "artifact_serializer")
        (words (codes "pickle")) d,
    eq_iff (codes "artifact_serializer") (codes "artifact_serializer"),
    eq_iff (codes "pickle") (codes "pickle"),
  )
]

coerce_keys-is_limit :
    (j : Str) (ks : List Str) (d : Dict Setting)
    → (mem j ks || is_limit (lookup j d)) ≡ true
    → is_limit (lookup j (coerce_keys ks d)) ≡ true
unfolding coerce_keys mem
coerce_keys-is_limit j [] d h = h
coerce_keys-is_limit j (k ∷ ks) d h =
    coerce_keys-is_limit j ks (coerce_key k d) (elim (Bool-cases (mem j ks)) [
      | inl later ↦ ground (arith, later)
      | inr now ↦ ground (arith, now, step-is_limit j k d)
    ])

constrained_lem :
    (j : Str) (d : Dict Setting)
    → (j == codes "artifact_serializer") ≡ false
    → lookup j (constrain_serializer d) ≡ lookup j d
unfolding constrain_serializer
constrained_lem j d h = elim (Bool-cases (is_serializer (lookup (codes "artifact_serializer") d))) [
  | inl fine ↦ ground (arith, fine)
  | inr other ↦
      ground
        (arith, other, h, lookup-insert j (codes "artifact_serializer") (words (codes "pickle")) d)
]

no_serializer : mem (codes "artifact_serializer") integer_keys ≡ false
unfolding mem ◌==◌
no_serializer = refl

not_serializer : (j : Str) → mem j integer_keys ≡ true → (j == codes "artifact_serializer") ≡ false
not_serializer j m = elim (Bool-cases (j == codes "artifact_serializer")) [
  | inl same ↦ absurd (
      ground (
        arith,
        no_serializer,
        subst (λ s. mem s integer_keys ≡ true) ((eq_iff j (codes "artifact_serializer")).0 same) m,
      ))
  | inr other ↦ other
]

-- Whatever the table of the project file and the environment hold, the artifact serializer of the
-- loaded configuration is pickle or json, and each of the three integer keys is absent, None,
-- text, a positive number or True.
pub load_config_lem :
    (table : Option (Dict Setting)) (environ : Dict Str)
    → (is_serializer (lookup (codes "artifact_serializer") (load_config table environ)) ≡ true)
      × ((k : Str)
          → mem k integer_keys ≡ true
          → is_limit (lookup k (load_config table environ)) ≡ true)
unfolding load_config
load_config_lem table environ =
    let read = overridden environ (update defaults (table_or_empty table)) in
    (
      serializer_lem (coerce_keys integer_keys read),
      λ k m.
          subst (λ o. is_limit o ≡ true)
            (sym (constrained_lem k (coerce_keys integer_keys read) (not_serializer k m)))
            (coerce_keys-is_limit k integer_keys read (ground (arith, m))),
    )
