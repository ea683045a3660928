-- ===== src/Overrides/Paths.antt =====
-- What is found under a path after an assignment, and under a key after a merge.
use auto_workflow.Base.{
  ◌≡◌, refl, sym, Bool, true, false, ◌&&◌, Option, none, some, List, [], ◌∷◌, if◌then◌else◌, Str,
  ◌==◌, eq_iff, ◌++◌, Dict, lookup, arith,
}
use auto_workflow.Exceptions.{ok_injective, ok, ◌>>=◌, >>=-eq-ok}
use auto_workflow.Overrides.{
  Config, Table, text, nothing, other, table, empty, entry, get, set, Runtime, overlay_environ,
  overlay_json, apply_env_overrides, dict_under, assign_path, deep_merge, overlay,
}

get-set :
    (j k : Str) (v : Config) (d : Table) → get j (set k v d) ≡ (if j == k then some v else get j d)
unfolding get set
get-set j k v empty = ground arith
get-set j k v (entry i w d) = ground (arith, get-set j k v d, eq_iff j i, eq_iff k i, eq_iff j k)

-- The value under a path of nested dicts, with the keys in lower case.
unfoldable pub get_path : (Str → Str) → Table → Str → List Str → Option Config
unfolding get
get_path lower d key [] = get (lower key) d
get_path lower d key (k ∷ ks) = elim (get (lower key) d) [
  | none ↦ none
  | some (table inner) ↦ get_path lower inner k ks
  | some (text s) ↦ none
  | some nothing ↦ none
  | some (other n) ↦ none
]

get_path-set :
    (lower : Str → Str) (d sub : Table) (key k : Str) (ks : List Str) (v : Config)
    → get_path lower sub k ks ≡ some v
    → get_path lower (set (lower key) (table sub) d) key (k ∷ ks) ≡ some v
unfolding get_path
get_path-set lower d sub key k ks v h =
    ground (arith, get-set (lower key) (lower key) (table sub) d, eq_iff (lower key) (lower key))

-- If the assignment of a value under a path returns, the path leads to that value, and a key that
-- is not the first key of the path keeps its value.
pub get_path-assign_path :
    (lower : Str → Str) (d d' : Table) (key : Str) (ks : List Str) (v : Config)
    → assign_path lower d key ks v ≡ ok d'
    → (get_path lower d' key ks ≡ some v)
      × ((j : Str) → (j == lower key) ≡ false → get j d' ≡ get j d)
unfolding assign_path get_path
get_path-assign_path lower d d' key [] v e =
    let same = ok_injective (set (lower key) v d) d' e in
    rw (sym same) (
      (
        ground (arith, get-set (lower key) (lower key) v d, eq_iff (lower key) (lower key)),
        λ j h. ground (arith, get-set j (lower key) v d),
      ))
get_path-assign_path lower d d' key (k ∷ ks) v e =
    let (inner, found, next) =
      >>=-eq-ok (dict_under (get (lower key) d))
        (λ inner. assign_path lower inner k ks v >>= (λ sub. ok (set (lower key) (table sub) d)))
        e in
    let (sub, assigned, last) =
      >>=-eq-ok (assign_path lower inner k ks v) (λ sub. ok (set (lower key) (table sub) d)) next in
    let same = ok_injective (set (lower key) (table sub) d) d' last in
    rw (sym same) (
      (
        get_path-set lower d sub key k ks v
            (get_path-assign_path lower inner sub k ks v assigned).0,
        λ j h. ground (arith, get-set j (lower key) (table sub) d),
      ))

-- No key stands twice, as in each dict.
unfoldable pub distinct : Table → Bool
unfolding get
distinct empty = true
distinct (entry k v d) = (elim (get k d) [ none ↦ true | some w ↦ false ]) && distinct d

-- For an overlay with distinct keys, a key of the merge has the overlay's value, merged again
-- where both values are dicts, and the base's value if the overlay lacks it.
pub get-deep_merge :
    (k : Str) (dst src : Table)
    → distinct src ≡ true
    → get k (deep_merge dst src)
      ≡ (elim (get k src) [ none ↦ get k dst | some v ↦ some (overlay (get k dst) v) ])
unfolding deep_merge get distinct
get-deep_merge k dst empty h = refl
get-deep_merge k dst (entry j v src) h = ground (
  arith,
  get-deep_merge k (set j (overlay (get j dst) v) dst) src,
  get-set k j (overlay (get j dst) v) dst,
  eq_iff k j,
)

-- If the overlay returns, secrets are left alone, and the JSON variable holds a dict with distinct
-- keys, then every key of that dict whose value is text has this value in the result, whatever the
-- base and the other variables say.
pub get-apply_env_overrides :
    (rt : Runtime) (environ : Dict Str) (prefix json_key payload : Str) (base d result : Table)
    (secret_keys : List Str) (k s : Str)
    → lookup (prefix ++ json_key) environ ≡ some payload
    → rt.loads payload ≡ some (table d)
    → distinct d ≡ true
    → get k d ≡ some (text s)
    → apply_env_overrides rt environ prefix base json_key false secret_keys ≡ ok result
    → get k result ≡ some (text s)
unfolding apply_env_overrides overlay_json overlay
get-apply_env_overrides rt environ prefix json_key payload base d result secret_keys k s there
      parses h found e =
    let (out, laid, last) =
      >>=-eq-ok (overlay_environ rt prefix (prefix ++ json_key) environ base)
        (λ out. ok (overlay_json rt (lookup (prefix ++ json_key) environ) out)) e in
    let same =
      ok_injective (overlay_json rt (lookup (prefix ++ json_key) environ) out) result last in
    rw (sym same) (
      rw (there, parses, overlay_json)
        (rw (get-deep_merge k out d h, found) (take_text (get k out))))
  where
    take_text : (old : Option Config) → some (overlay old (text s)) ≡ some (text s)
    take_text none = refl
    take_text (some (text t)) = refl
    take_text (some nothing) = refl
    take_text (some (other n)) = refl
    take_text (some (table t)) = refl
