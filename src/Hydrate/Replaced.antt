-- ===== src/Hydrate/Replaced.antt =====
-- auto_workflow/build.py: when `replace_invocations` succeeds.
use Prim.{Unit}
use auto_workflow.Base.{
  ℕ, Bool, false, not, ◌⊎◌, ◌≡◌, refl, ◌||◌, true, inl, inr, some, List, values, insert,
  mem-keys-insert, [], ◌∷◌, ◌++◌, mem, Subset, Str, eq_iff, Dict, lookup, keys, arith,
}
use auto_workflow.Exceptions.{ok, ◌>>=◌}
use auto_workflow.Build.{
  Value, Values, Items, Ref, invocation, fan, list_of, tuple_of, set_of, dict_of, text, atom, nil,
  cons, end, item, iter_invocations, iter_all, iter_items, replace_invocations, replace_all,
  replace_set, replace_items, hashed, collect, collect_invocations,
}
use auto_workflow.Build.Scan.{names}
use auto_workflow.Hydrate.Succeeds.{
  Succeeds, found, left, right, then-Succeeds, sooner, hashed-Succeeds,
}

abbrev is_text : Value → Bool
is_text (text s) = true
is_text (invocation n args kwargs) = false
is_text (fan i source children) = false
is_text (list_of vs) = false
is_text (tuple_of vs) = false
is_text (set_of vs) = false
is_text (dict_of d) = false
is_text (atom n) = false

text_cases : (v : Value) → ((t : Str) × (v ≡ text t)) ⊎ (is_text v ≡ false)
text_cases (text s) = inl (s, refl)
text_cases (invocation n args kwargs) = inr refl
text_cases (fan i source children) = inr refl
text_cases (list_of vs) = inr refl
text_cases (tuple_of vs) = inr refl
text_cases (set_of vs) = inr refl
text_cases (dict_of d) = inr refl
text_cases (atom n) = inr refl

-- A structure with a set, or with a dict one of whose keys is not a text.
unfoldable mutual
  pub has_hashed : Value → Bool
  has_hashed (invocation n args kwargs) = false
  has_hashed (fan i source children) = all_have_hashed children
  has_hashed (list_of vs) = all_have_hashed vs
  has_hashed (tuple_of vs) = all_have_hashed vs
  has_hashed (set_of vs) = true
  has_hashed (dict_of d) = items_have_hashed d
  has_hashed (text s) = false
  has_hashed (atom n) = false

  pub all_have_hashed : Values → Bool
  all_have_hashed nil = false
  all_have_hashed (cons v vs) = has_hashed v || all_have_hashed vs

  pub items_have_hashed : Items → Bool
  items_have_hashed end = false
  items_have_hashed (item k v d) = not (is_text k) || (has_hashed v || items_have_hashed d)

module _ (hashes : ℕ → Bool) (results : Dict Value) where
  replace_found :
      (n : Str) (args : Values) (kwargs : Items) (w : Value)
      → lookup n results ≡ some w
      → replace_invocations hashes (invocation n args kwargs) results ≡ ok w
  unfolding replace_invocations
  replace_found n args kwargs w e = ground (arith, e)

  -- A key that is a text has a hash.
  text_item-Succeeds :
      (t : Str) (v : Value) (d : Items)
      → Succeeds (has_hashed v) (replace_invocations hashes v results)
      → Succeeds (items_have_hashed d) (replace_items hashes d results)
      → Succeeds
          (has_hashed v || items_have_hashed d)
          (replace_items hashes (item (text t) v d) results)
  unfolding replace_invocations
  text_item-Succeeds t v d element rest =
      let h = has_hashed v || items_have_hashed d in
      then-Succeeds h (replace_invocations hashes v results)
        (λ v'. replace_items hashes d results >>= λ e. ok (item (text t) v' e))
        (sooner (has_hashed v) h (replace_invocations hashes v results) (λ q. ground (arith, q))
          element)
        (λ v'.
          then-Succeeds h (replace_items hashes d results) (λ e. ok (item (text t) v' e))
            (sooner (items_have_hashed d) h (replace_items hashes d results)
              (λ q. ground (arith, q)) rest)
            (λ e. inl (item (text t) v' e, refl)))

  item-Succeeds :
      (k v : Value) (d : Items)
      → Succeeds (has_hashed k) (replace_invocations hashes k results)
      → Succeeds (has_hashed v) (replace_invocations hashes v results)
      → Succeeds (items_have_hashed d) (replace_items hashes d results)
      → Succeeds true (replace_items hashes (item k v d) results)
  unfolding replace_invocations
  item-Succeeds k v d key element rest =
      then-Succeeds true (replace_invocations hashes k results)
        (λ k'. replace_invocations hashes v results >>= λ v'.
          hashed hashes k' >>= λ u. replace_items hashes d results >>= λ e. ok (item u v' e))
        (sooner (has_hashed k) true (replace_invocations hashes k results) (λ q. refl) key)
        (λ k'.
          then-Succeeds true (replace_invocations hashes v results)
            (λ v'.
              hashed hashes k' >>= λ u. replace_items hashes d results >>= λ e. ok (item u v' e))
            (sooner (has_hashed v) true (replace_invocations hashes v results) (λ q. refl) element)
            (λ v'.
              then-Succeeds true (hashed hashes k')
                (λ u. replace_items hashes d results >>= λ e. ok (item u v' e))
                (hashed-Succeeds hashes k')
                (λ u.
                  then-Succeeds true (replace_items hashes d results) (λ e. ok (item u v' e))
                    (sooner (items_have_hashed d) true (replace_items hashes d results) (λ q. refl)
                      rest)
                    (λ e. inl (item u v' e, refl)))))

  mutual
    unfolding replace_invocations iter_invocations mem has_hashed

    replace_ok :
        (v : Value)
        → Subset (names (iter_invocations v)) (keys results)
        → Succeeds (has_hashed v) (replace_invocations hashes v results)
    replace_ok (invocation n args kwargs) s =
        let (w, e) = found n results (s n (ground (arith, eq_iff n n))) in
        inl (w, replace_found n args kwargs w e)
    replace_ok (fan i source children) s =
        then-Succeeds (all_have_hashed children) (replace_all hashes children results)
          (λ ws. ok (list_of ws))
          (replace_all_ok children (right results (iter_invocations source) (iter_all children) s))
          (λ ws. inl (list_of ws, refl))
    replace_ok (list_of vs) s =
        then-Succeeds (all_have_hashed vs) (replace_all hashes vs results) (λ ws. ok (list_of ws))
          (replace_all_ok vs s) (λ ws. inl (list_of ws, refl))
    replace_ok (tuple_of vs) s =
        then-Succeeds (all_have_hashed vs) (replace_all hashes vs results) (λ ws. ok (tuple_of ws))
          (replace_all_ok vs s) (λ ws. inl (tuple_of ws, refl))
    replace_ok (set_of vs) s =
        then-Succeeds true (replace_set hashes vs results) (λ ws. ok (set_of ws))
          (replace_set_ok vs s) (λ ws. inl (set_of ws, refl))
    replace_ok (dict_of d) s =
        then-Succeeds (items_have_hashed d) (replace_items hashes d results) (λ e. ok (dict_of e))
          (replace_items_ok d s) (λ e. inl (dict_of e, refl))
    replace_ok (text t) s = inl (text t, refl)
    replace_ok (atom n) s = inl (atom n, refl)

    replace_all_ok :
        (vs : Values)
        → Subset (names (iter_all vs)) (keys results)
        → Succeeds (all_have_hashed vs) (replace_all hashes vs results)
    replace_all_ok nil s = inl (nil, refl)
    replace_all_ok (cons v vs) s =
        let h = has_hashed v || all_have_hashed vs in
        then-Succeeds h (replace_invocations hashes v results)
          (λ w. replace_all hashes vs results >>= λ ws. ok (cons w ws))
          (sooner (has_hashed v) h (replace_invocations hashes v results) (λ t. ground (arith, t))
            (replace_ok v (left results (iter_invocations v) (iter_all vs) s)))
          (λ w.
            then-Succeeds h (replace_all hashes vs results) (λ ws. ok (cons w ws))
              (sooner (all_have_hashed vs) h (replace_all hashes vs results)
                (λ t. ground (arith, t))
                (replace_all_ok vs (right results (iter_invocations v) (iter_all vs) s)))
              (λ ws. inl (cons w ws, refl)))

    replace_set_ok :
        (vs : Values)
        → Subset (names (iter_all vs)) (keys results)
        → Succeeds true (replace_set hashes vs results)
    replace_set_ok nil s = inl (nil, refl)
    replace_set_ok (cons v vs) s =
        then-Succeeds true (replace_invocations hashes v results)
          (λ w. hashed hashes w >>= λ u. replace_set hashes vs results >>= λ ws. ok (cons u ws))
          (sooner (has_hashed v) true (replace_invocations hashes v results) (λ t. refl)
            (replace_ok v (left results (iter_invocations v) (iter_all vs) s)))
          (λ w.
            then-Succeeds true (hashed hashes w)
              (λ u. replace_set hashes vs results >>= λ ws. ok (cons u ws))
              (hashed-Succeeds hashes w)
              (λ u.
                then-Succeeds true (replace_set hashes vs results) (λ ws. ok (cons u ws))
                  (replace_set_ok vs (right results (iter_invocations v) (iter_all vs) s))
                  (λ ws. inl (cons u ws, refl))))

    replace_items_ok :
        (d : Items)
        → Subset (names (iter_items d)) (keys results)
        → Succeeds (items_have_hashed d) (replace_items hashes d results)
    replace_items_ok end s = inl (end, refl)
    replace_items_ok (item k v d) s =
        let ks = iter_invocations k in
        let vs = iter_invocations v in
        let key = replace_ok k (left results ks vs (left results (ks ++ vs) (iter_items d) s)) in
        let element =
          replace_ok v (right results ks vs (left results (ks ++ vs) (iter_items d) s)) in
        let rest = replace_items_ok d (right results (ks ++ vs) (iter_items d) s) in
        elim (text_cases k) [
          | inl (t, same) ↦ rw same (text_item-Succeeds t v d element rest)
          | inr other ↦
              sooner true (items_have_hashed (item k v d))
                (replace_items hashes (item k v d) results) (λ q. ground (arith, other))
                (item-Succeeds k v d key element rest)
        ]

-- Every entry stands under its own name.
unfoldable Own : Dict Ref → Type 0
Own [] = Unit {0}
Own ((k, r) ∷ d) = (r.name ≡ k) × Own d

Own-insert : (r : Ref) (d : Dict Ref) → Own d → Own (insert r.name r d)
unfolding Own insert
Own-insert r [] o = (refl, tt)
Own-insert r ((k, q) ∷ d) o = ground (arith, eq_iff r.name k, Own-insert r d)

mem-Own : (n : Str) (d : Dict Ref) → Own d → mem n (names (values d)) ≡ mem n (keys d)
unfolding Own mem
mem-Own n [] o = refl
mem-Own n ((k, q) ∷ d) o = ground (arith, mem-Own n d)

collect_lem :
    (n : Str) (rs : List Ref) (d : Dict Ref)
    → Own d
    → mem n (names (values (collect rs d))) ≡ (mem n (names rs) || mem n (keys d))
unfolding collect mem
collect_lem n [] d o = mem-Own n d o
collect_lem n (r ∷ rs) d o =
    ground
      (arith, collect_lem n rs (insert r.name r d) (Own-insert r d o), mem-keys-insert n r.name r d)

-- A structure whose invocations all have an entry in the results.
pub replace_mentioned :
    (hashes : ℕ → Bool) (v : Value) (results : Dict Value)
    → Subset (names (iter_invocations v)) (keys results)
    → Succeeds (has_hashed v) (replace_invocations hashes v results)
replace_mentioned hashes v results s = replace_ok hashes results v s

-- If the results have an entry for each invocation that collect_invocations finds in a structure,
-- replace_invocations on this structure misses none: it succeeds, or it meets an unhashable object.
pub replace-collect_invocations :
    (hashes : ℕ → Bool) (v : Value) (results : Dict Value)
    → Subset (names (collect_invocations v)) (keys results)
    → Succeeds (has_hashed v) (replace_invocations hashes v results)
unfolding collect_invocations Own mem
replace-collect_invocations hashes v results s =
    replace_ok hashes results v
      (λ n m. s n (ground (arith, collect_lem n (iter_invocations v) [] tt)))
