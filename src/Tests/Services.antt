-- ===== src/Tests/Services.antt =====
-- The artifact stores, the result cache, the chain of middlewares and the environment's overlay.
use auto_workflow.Base.{
  Option, ℕ, ◌-◌, ◌≤◌, ◌≡◌, refl, inl, inr, true, false, none, some, [], ◌∷◌, if◌then◌else◌, leb,
  Str, codes, ◌==◌, length, lookup, nodup, mem, keys, Dict,
}
use auto_workflow.Settings.{is_serializer, is_limit, integer_keys, load_config, load_config_lem}
use auto_workflow.Exceptions.{user_error, Result, ok, raise}
use auto_workflow.Artifacts.{ArtifactRef, Serializer}
use auto_workflow.Cache.{set_memory, get_files, set_files}
use auto_workflow.Cache.Bound.{length-set_memory, get_memory-set_memory}
use auto_workflow.Middleware.{
  Middleware, Trace, finish, call_next, call_chain, IsTransparent, CallsOnce, calls-call_chain,
}
use auto_workflow.Overrides.{
  Table, Runtime, text, other, table, empty, entry, get, assign_path, apply_env_overrides,
}
use auto_workflow.Registry.{Registry, find_client, get_client, get_client_shared}
use auto_workflow.Overrides.Paths.{distinct, get-apply_env_overrides}

abbrev a : Str
a = codes "a"

abbrev b : Str
b = codes "b"

abbrev ref_a : ArtifactRef
ref_a = record { key = a }

-- Numbers as one byte.
abbrev loads : Str → Result ℕ
loads [] = raise (user_error 0)
loads (n ∷ s) = ok n

abbrev byte : Serializer ℕ
byte = record { dumps = λ n. ok (n ∷ []); loads = loads }

abbrev full : Dict (ℕ × ℕ)
full = (a, (0, 1)) ∷ (b, (3, 2)) ∷ []

full-distinct : nodup (keys full) ≡ true
unfolding nodup mem ◌==◌
full-distinct = refl

length-set_memory_example : length (set_memory (some 2) 4 (codes "c") 9 full) ≤ 2
length-set_memory_example = length-set_memory 1 4 (codes "c") 9 full

get_memory-set_memory_example :
    (auto_workflow.Cache.get_memory {V = ℕ} 9 a (some 5) (set_memory (some 2) 4 a 9 full)).0
    ≡ (if leb (9 - 4) 5 then some 9 else none)
get_memory-set_memory_example = get_memory-set_memory (some 2) 4 9 5 a 9 full full-distinct

abbrev core : ℕ → Result ℕ
core n = ok 7

abbrev broken : Middleware ℕ
broken = finish (raise (user_error 1))

abbrev passes_on : Middleware ℕ
passes_on = call_next finish

abbrev fails_after : Middleware ℕ
fails_after = call_next (λ r. finish (raise (user_error 2)))

abbrev fresh : Trace
fresh = record { calls = 0; errors = [] }

broken-IsTransparent : IsTransparent broken
unfolding IsTransparent
broken-IsTransparent = inr (user_error 1, refl)

passes_on-IsTransparent : IsTransparent passes_on
unfolding IsTransparent
passes_on-IsTransparent = inl refl

fails_after-CallsOnce : CallsOnce fails_after
unfolding CallsOnce
fails_after-CallsOnce = inr ((λ r. raise (user_error 2)), refl)

calls-call_chain_example : (call_chain core 0 (fails_after ∷ fails_after ∷ []) fresh).1.calls ≤ 1
calls-call_chain_example =
    calls-call_chain core 0 (fails_after ∷ fails_after ∷ []) fresh
      (fails_after-CallsOnce, (fails_after-CallsOnce, tt))

abbrev as_is : Str → Str
as_is s = s

abbrev base : Table
base = entry b (table (entry a (other 1) empty)) empty

assigned :
    assign_path as_is base b (a ∷ []) (other 2)
    ≡ ok (entry b (table (entry a (other 2) empty)) empty)
unfolding assign_path get ◌==◌
assigned = refl

payload-distinct : distinct (entry a (text b) empty) ≡ true
unfolding distinct get
payload-distinct = refl

-- `_coerce` that keeps text, and a JSON reader for one document.
abbrev runtime : Runtime
runtime = record {
  lower = as_is;
  split = λ s. (s, []);
  coerce = text;
  loads = λ s. some (table (entry a (text b) empty));
  secret = λ s. none;
}

abbrev environ : Dict Str
environ = (codes "X_a", a) ∷ (codes "X_JSON", codes "{}") ∷ []

abbrev merged : Table
merged = entry b (table (entry a (other 1) empty)) (entry a (text b) empty)

get-apply_env_overrides_example : get a merged ≡ some (text b)
unfolding lookup ◌==◌ get apply_env_overrides
get-apply_env_overrides_example =
    get-apply_env_overrides runtime environ (codes "X_") (codes "JSON") (codes "{}") base
      (entry a (text b) empty) merged [] a b refl refl payload-distinct refl refl

abbrev registry : Registry ℕ ℕ
registry = record { factories = (a, 3) ∷ []; clients = [] }

abbrev never : Str → Option ℕ
never s = none

registered : lookup a registry.factories ≡ some 3
unfolding lookup ◌==◌
registered = refl

no_client : find_client a b b registry.clients ≡ none
unfolding find_client
no_client = refl

get_client_shared_example :
    ((get_client never ok (λ c. false) a b b registry).0 ≡ ok 3)
    × (get_client never
          (λ f. ok 4)
          (λ c. false)
          a
          b
          b
          (get_client never ok (λ c. false) a b b registry).1
        ≡ (ok 3, (get_client never ok (λ c. false) a b b registry).1))
get_client_shared_example =
    get_client_shared never ok (λ f. ok 4) (λ c. false) a b b registry 3 3 registered no_client refl
      refl

load_config_lem_example :
    (is_serializer (
        lookup
          (codes "artifact_serializer")
          (load_config none ((codes "AUTO_WORKFLOW_ARTIFACT_SERIALIZER", codes "xml") ∷ [])))
      ≡ true)
    × ((k : Str)
        → mem k integer_keys ≡ true
        → is_limit (
            lookup k
              (load_config none ((codes "AUTO_WORKFLOW_ARTIFACT_SERIALIZER", codes "xml") ∷ [])))
          ≡ true)
load_config_lem_example =
    load_config_lem none ((codes "AUTO_WORKFLOW_ARTIFACT_SERIALIZER", codes "xml") ∷ [])
