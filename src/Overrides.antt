-- ===== src/Overrides.antt =====
-- auto_workflow/env_overrides.py: nested configuration and what overlays it. The values are trees, so
-- sharing between a configuration and the dict it was made from is not seen. `str.lower` and the
-- provider of secrets are arguments.
pub mod Paths
use auto_workflow.Base.{
  Bool, true, false, ◌||◌, Option, none, some, List, [], ◌∷◌, ◌++◌, if◌then◌else◌, ℕ, nat_eq, Str,
  codes, ◌==◌, mem, Dict, lookup,
}
use auto_workflow.Exceptions.{not_a_dict, Result, ok, raise, ◌>>=◌}

-- A configuration value: text, None, another object by a tag, or a dict.
mutual
  pub data Config : Type 0 where
    text : Str → Config
    nothing : Config
    other : ℕ → Config
    table : Table → Config

  pub data Table : Type 0 where
    empty : Table
    entry : Str → Config → Table → Table

-- `d.get(k)`
unfoldable pub get : Str → Table → Option Config
get k empty = none
get k (entry j v d) = if k == j then some v else get k d

-- `d[k] = v`
unfoldable pub set : Str → Config → Table → Table
set k v empty = entry k v empty
set k v (entry j w d) = if k == j then entry j v d else entry j w (set k v d)

-- `cur.setdefault(key, {})` as a dict to go on with.
unfoldable pub dict_under : Option Config → Result Table
dict_under none = ok empty
dict_under (some (table inner)) = ok inner
dict_under (some (text s)) = raise not_a_dict
dict_under (some nothing) = raise not_a_dict
dict_under (some (other n)) = raise not_a_dict

-- `_assign_path(obj, path, value)`, the path with its first key apart.
unfoldable pub assign_path : (Str → Str) → Table → Str → List Str → Config → Result Table
unfolding get set dict_under
assign_path lower obj key [] value = ok (set (lower key) value obj)
assign_path lower obj key (k ∷ ks) value = do
  inner ← dict_under (get (lower key) obj)
  sub ← assign_path lower inner k ks value
  ok (set (lower key) (table sub) obj)

-- `_deep_merge(dst, src)`: the loop over the items of `src`, on the copy of `dst`.
unfoldable mutual
  unfolding get set

  pub deep_merge : Table → Table → Table
  deep_merge out empty = out
  deep_merge out (entry k v src) = deep_merge (set k (overlay (get k out) v) out) src

  -- The value of a key: two dicts are merged, and else the overlay's value is taken.
  pub overlay : Option Config → Config → Config
  overlay (some (table inner)) (table v) = table (deep_merge inner v)
  overlay old v = v

-- `s.startswith(prefix)` with the rest behind the prefix.
unfoldable pub after_prefix : Str → Str → Option Str
after_prefix [] s = some s
after_prefix (c ∷ prefix) [] = none
after_prefix (c ∷ prefix) (d ∷ s) = if nat_eq c d then after_prefix prefix s else none

-- `maybe_secret(value)`, for text: the provider's answer, where an empty one counts as none.
unfoldable pub maybe_secret : (Str → Option Str) → Str → Config
unfolding after_prefix
maybe_secret secret value = elim (after_prefix (codes "secret://") value) [
  | none ↦ text value
  | some key ↦ (elim (secret key) [
    | none ↦ nothing
    | some [] ↦ nothing
    | some (c ∷ s) ↦ text (c ∷ s)
  ])
]

-- `v.startswith("secret://")`
unfoldable pub has_scheme : Str → Bool
unfolding after_prefix
has_scheme s = elim (after_prefix (codes "secret://") s) [ none ↦ false | some key ↦ true ]

-- `_resolve_secrets_inplace(obj, secret_keys)`; `maybe_secret` leaves text without the scheme alone.
unfoldable mutual
  unfolding maybe_secret has_scheme

  pub resolve_secrets : (Str → Str) → (Str → Option Str) → List Str → Table → Table
  resolve_secrets lower secret secret_keys empty = empty
  resolve_secrets lower secret secret_keys (entry k v d) =
      entry k (resolve_value lower secret secret_keys k v)
        (resolve_secrets lower secret secret_keys d)

  pub resolve_value : (Str → Str) → (Str → Option Str) → List Str → Str → Config → Config
  resolve_value lower secret secret_keys k (table d) =
      table (resolve_secrets lower secret secret_keys d)
  resolve_value lower secret secret_keys k (text s) =
      if mem (lower k) secret_keys || has_scheme s then maybe_secret secret s else text s
  resolve_value lower secret secret_keys k nothing = nothing
  resolve_value lower secret secret_keys k (other n) = other n

-- What the module takes from Python: `str.lower`, `str.split("__")` as the first part and the others,
-- `_coerce` with `float`, and `json.loads`, none for malformed text; and the provider of secrets.
pub record Runtime : Type 0 where
  pub lower : Str → Str
  pub split : Str → Str × List Str
  pub coerce : Str → Config
  pub loads : Str → Option Config
  pub secret : Str → Option Str

-- The loop over `os.environ.items()`.
unfoldable pub overlay_environ : Runtime → Str → Str → Dict Str → Table → Result Table
unfolding after_prefix assign_path
overlay_environ rt prefix json_env [] out = ok out
overlay_environ rt prefix json_env ((k, v) ∷ environ) out = elim (after_prefix prefix k) [
  | none ↦ overlay_environ rt prefix json_env environ out
  | some rest ↦ if k == json_env then overlay_environ rt prefix json_env environ out else (do
    out' ← assign_path rt.lower out (rt.split rest).0 (rt.split rest).1 (rt.coerce v)
    overlay_environ rt prefix json_env environ out')
]

-- The payload of the JSON variable, if it is there, parses, and is a dict.
unfoldable pub overlay_json : Runtime → Option Str → Table → Table
unfolding deep_merge
overlay_json rt none out = out
overlay_json rt (some payload) out = elim (rt.loads payload) [
  | none ↦ out
  | some (table d) ↦ deep_merge out d
  | some (text s) ↦ out
  | some nothing ↦ out
  | some (other n) ↦ out
]

-- `apply_env_overrides`
unfoldable pub apply_env_overrides :
    Runtime → Dict Str → Str → Table → Str → Bool → List Str → Result Table
unfolding overlay_environ overlay_json resolve_secrets
apply_env_overrides rt environ prefix base json_key resolve secret_keys = do
  out ← overlay_environ rt prefix (prefix ++ json_key) environ base
  let merged = overlay_json rt (lookup (prefix ++ json_key) environ) out
  ok (if resolve then resolve_secrets rt.lower rt.secret secret_keys merged else merged)
