-- ===== src/Hydrate/Total.antt =====
-- auto_workflow/scheduler.py: when `_hydrate` succeeds.
use auto_workflow.Base.{
  ℕ, Bool, false, ◌≡◌, refl, ◌||◌, true, inl, some, ◌++◌, mem, Subset, Str, eq_iff, Dict, lookup,
  keys, arith,
}
use auto_workflow.Exceptions.{ok, ◌>>=◌}
use auto_workflow.Build.{
  Value, Values, Items, invocation, fan, list_of, tuple_of, set_of, dict_of, text, atom, nil, cons,
  end, item, iter_invocations, iter_all, iter_items, upstream_of, hashed,
}
use auto_workflow.Build.Scan.{names, mem-upstream_of}
use auto_workflow.Hydrate.{hydrate, hydrate_set, hydrate_all, hydrate_items}
use auto_workflow.Hydrate.Succeeds.{
  Succeeds, found, left, right, then-Succeeds, sooner, hashed-Succeeds,
}

-- A value that is hydrated and holds a set, not counting the arguments of its invocations and the
-- keys of its dicts, which stay as they are.
unfoldable mutual
  pub has_set : Value → Bool
  has_set (invocation n args kwargs) = false
  has_set (fan i source children) = all_have_set children
  has_set (list_of vs) = all_have_set vs
  has_set (tuple_of vs) = all_have_set vs
  has_set (set_of vs) = true
  has_set (dict_of d) = items_have_set d
  has_set (text s) = false
  has_set (atom n) = false

  pub all_have_set : Values → Bool
  all_have_set nil = false
  all_have_set (cons v vs) = has_set v || all_have_set vs

  pub items_have_set : Items → Bool
  items_have_set end = false
  items_have_set (item k v d) = has_set v || items_have_set d

module _ (hashes : ℕ → Bool) (results : Dict Value) where
  hydrate_found :
      (n : Str) (args : Values) (kwargs : Items) (w : Value)
      → lookup n results ≡ some w
      → hydrate hashes (invocation n args kwargs) results ≡ ok w
  unfolding hydrate
  hydrate_found n args kwargs w e = ground (arith, e)

  mutual
    unfolding hydrate iter_invocations mem has_set

    hydrate_ok :
        (v : Value)
        → Subset (names (iter_invocations v)) (keys results)
        → Succeeds (has_set v) (hydrate hashes v results)
    hydrate_ok (invocation n args kwargs) s =
        let (w, e) = found n results (s n (ground (arith, eq_iff n n))) in
        inl (w, hydrate_found n args kwargs w e)
    hydrate_ok (fan i source children) s =
        then-Succeeds (all_have_set children) (hydrate_all hashes children results)
          (λ ws. ok (list_of ws))
          (hydrate_all_ok children (right results (iter_invocations source) (iter_all children) s))
          (λ ws. inl (list_of ws, refl))
    hydrate_ok (list_of vs) s =
        then-Succeeds (all_have_set vs) (hydrate_all hashes vs results) (λ ws. ok (list_of ws))
          (hydrate_all_ok vs s) (λ ws. inl (list_of ws, refl))
    hydrate_ok (tuple_of vs) s =
        then-Succeeds (all_have_set vs) (hydrate_all hashes vs results) (λ ws. ok (tuple_of ws))
          (hydrate_all_ok vs s) (λ ws. inl (tuple_of ws, refl))
    hydrate_ok (set_of vs) s =
        then-Succeeds true (hydrate_set hashes vs results) (λ ws. ok (set_of ws))
          (hydrate_set_ok vs s) (λ ws. inl (set_of ws, refl))
    hydrate_ok (dict_of d) s =
        then-Succeeds (items_have_set d) (hydrate_items hashes d results) (λ e. ok (dict_of e))
          (hydrate_items_ok d s) (λ e. inl (dict_of e, refl))
    hydrate_ok (text t) s = inl (text t, refl)
    hydrate_ok (atom n) s = inl (atom n, refl)

    hydrate_all_ok :
        (vs : Values)
        → Subset (names (iter_all vs)) (keys results)
        → Succeeds (all_have_set vs) (hydrate_all hashes vs results)
    hydrate_all_ok nil s = inl (nil, refl)
    hydrate_all_ok (cons v vs) s =
        let h = has_set v || all_have_set vs in
        then-Succeeds h (hydrate hashes v results)
          (λ w. hydrate_all hashes vs results >>= λ ws. ok (cons w ws))
          (sooner (has_set v) h (hydrate hashes v results) (λ t. ground (arith, t))
            (hydrate_ok v (left results (iter_invocations v) (iter_all vs) s)))
          (λ w.
            then-Succeeds h (hydrate_all hashes vs results) (λ ws. ok (cons w ws))
              (sooner (all_have_set vs) h (hydrate_all hashes vs results) (λ t. ground (arith, t))
                (hydrate_all_ok vs (right results (iter_invocations v) (iter_all vs) s)))
              (λ ws. inl (cons w ws, refl)))

    hydrate_set_ok :
        (vs : Values)
        → Subset (names (iter_all vs)) (keys results)
        → Succeeds true (hydrate_set hashes vs results)
    hydrate_set_ok nil s = inl (nil, refl)
    hydrate_set_ok (cons v vs) s =
        then-Succeeds true (hydrate hashes v results)
          (λ w. hashed hashes w >>= λ u. hydrate_set hashes vs results >>= λ ws. ok (cons u ws))
          (sooner (has_set v) true (hydrate hashes v results) (λ t. refl)
            (hydrate_ok v (left results (iter_invocations v) (iter_all vs) s)))
          (λ w.
            then-Succeeds true (hashed hashes w)
              (λ u. hydrate_set hashes vs results >>= λ ws. ok (cons u ws))
              (hashed-Succeeds hashes w)
              (λ u.
                then-Succeeds true (hydrate_set hashes vs results) (λ ws. ok (cons u ws))
                  (hydrate_set_ok vs (right results (iter_invocations v) (iter_all vs) s))
                  (λ ws. inl (cons u ws, refl))))

    hydrate_items_ok :
        (d : Items)
        → Subset (names (iter_items d)) (keys results)
        → Succeeds (items_have_set d) (hydrate_items hashes d results)
    hydrate_items_ok end s = inl (end, refl)
    hydrate_items_ok (item k v d) s =
        let h = has_set v || items_have_set d in
        let kv = iter_invocations k ++ iter_invocations v in
        then-Succeeds h (hydrate hashes v results)
          (λ w. hydrate_items hashes d results >>= λ e. ok (item k w e))
          (sooner (has_set v) h (hydrate hashes v results) (λ t. ground (arith, t))
            (hydrate_ok v (
              right results (iter_invocations k) (iter_invocations v)
                (left results kv (iter_items d) s))))
          (λ w.
            then-Succeeds h (hydrate_items hashes d results) (λ e. ok (item k w e))
              (sooner (items_have_set d) h (hydrate_items hashes d results) (λ t. ground (arith, t))
                (hydrate_items_ok d (right results kv (iter_items d) s)))
              (λ e. inl (item k w e, refl)))

-- If the results have an entry for each name that registration put into the upstream set of the
-- arguments, the substitution of results in the positional arguments succeeds, or these hold a set
-- and it raises the TypeError of an unhashable element, and likewise in the keyword arguments; it
-- never misses a result.
pub hydrate-upstream_of :
    (hashes : ℕ → Bool) (args : Values) (kwargs : Items) (results : Dict Value)
    → Subset (upstream_of args kwargs) (keys results)
    → Succeeds (has_set (tuple_of args)) (hydrate hashes (tuple_of args) results)
      × Succeeds (has_set (dict_of kwargs)) (hydrate hashes (dict_of kwargs) results)
unfolding iter_invocations
hydrate-upstream_of hashes args kwargs results s = (
  hydrate_ok hashes results (tuple_of args)
      (λ u m. s u (ground (arith, mem-upstream_of u args kwargs))),
  hydrate_ok hashes results (dict_of kwargs)
      (λ u m. s u (ground (arith, mem-upstream_of u args kwargs))),
)
