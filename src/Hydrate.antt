-- ===== src/Hydrate.antt =====
-- auto_workflow/scheduler.py: `_hydrate`, which puts the results of the upstream tasks into the
-- arguments of a task. A set's equal elements are not merged.
pub mod Succeeds
pub mod Total
pub mod Replaced
use auto_workflow.Base.{ℕ, Bool, Option, none, some, Dict, lookup}
use auto_workflow.Exceptions.{key_error, Result, ok, raise, ◌>>=◌}
use auto_workflow.Build.{
  Value, Values, Items, invocation, fan, list_of, tuple_of, set_of, dict_of, text, atom, nil, cons,
  end, item, hashed,
}

-- `hashes` says which other objects have a hash.
module _ (hashes : ℕ → Bool) where
  unfoldable mutual
    pub hydrate : Value → Dict Value → Result Value
    hydrate (invocation n args kwargs) results = elim (lookup n results) [
      | none ↦ raise (key_error n)
      | some v ↦ ok v
    ]
    hydrate (fan i source children) results = do ws ← hydrate_all children results; ok (list_of ws)
    hydrate (list_of vs) results = do ws ← hydrate_all vs results; ok (list_of ws)
    hydrate (tuple_of vs) results = do ws ← hydrate_all vs results; ok (tuple_of ws)
    hydrate (set_of vs) results = do ws ← hydrate_set vs results; ok (set_of ws)
    hydrate (dict_of d) results = do e ← hydrate_items d results; ok (dict_of e)
    hydrate (text s) results = ok (text s)
    hydrate (atom n) results = ok (atom n)

    pub hydrate_all : Values → Dict Value → Result Values
    hydrate_all nil results = ok nil
    hydrate_all (cons v vs) results = do
      w ← hydrate v results
      ws ← hydrate_all vs results
      ok (cons w ws)

    -- Each element is added before the next one is hydrated.
    pub hydrate_set : Values → Dict Value → Result Values
    hydrate_set nil results = ok nil
    hydrate_set (cons v vs) results = do
      w ← hydrate v results
      u ← hashed hashes w
      ws ← hydrate_set vs results
      ok (cons u ws)

    -- The keys of a dict stay as they are.
    pub hydrate_items : Items → Dict Value → Result Items
    hydrate_items end results = ok end
    hydrate_items (item k v d) results = do
      w ← hydrate v results
      e ← hydrate_items d results
      ok (item k w e)
