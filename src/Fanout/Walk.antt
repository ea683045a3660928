-- ===== src/Fanout/Walk.antt =====
-- What `_walk` leaves of the placeholders in a consumer's arguments.
use auto_workflow.Base.{◌≡◌, ℕ, Bool, false, not, ◌&&◌, ◌||◌, nat_eq, arith}
use auto_workflow.Build.{
  Value, Values, Items, invocation, fan, list_of, tuple_of, set_of, dict_of, text, atom, nil, cons,
  end, item,
}
use auto_workflow.Fanout.{walk, walk_all, walk_items}

-- Whether a placeholder stands in a value, where `_walk` looks: not in sets, not in placeholders.
unfoldable mutual
  pub mentions : ℕ → Value → Bool
  mentions j (fan i source known) = nat_eq i j
  mentions j (list_of vs) = mentions_all j vs
  mentions j (tuple_of vs) = mentions_all j vs
  mentions j (dict_of d) = mentions_items j d
  mentions j (set_of vs) = false
  mentions j (invocation n args kwargs) = false
  mentions j (text s) = false
  mentions j (atom n) = false

  pub mentions_all : ℕ → Values → Bool
  mentions_all j nil = false
  mentions_all j (cons v vs) = mentions j v || mentions_all j vs

  pub mentions_items : ℕ → Items → Bool
  mentions_items j end = false
  mentions_items j (item k v d) = mentions j v || mentions_items j d

module _ (target : ℕ) (children : Values) (j : ℕ) where
  -- What is mentioned after the walk, if this was before: the target gives way to the children.
  abbrev after : Bool → Bool → Bool
  after own others = (not (nat_eq j target) && others) || (own && mentions_all j children)

  mutual
    unfolding walk mentions

    walked :
        (v : Value)
        → (mentions j (walk target children v).0 ≡ after (mentions target v) (mentions j v))
          × ((walk target children v).1 ≡ mentions target v)
    walked (fan i source known) = ground arith
    walked (list_of vs) = walked_all vs
    walked (tuple_of vs) = walked_all vs
    walked (dict_of d) = walked_items d
    walked (set_of vs) = ground arith
    walked (invocation n args kwargs) = ground arith
    walked (text s) = ground arith
    walked (atom n) = ground arith

    walked_all :
        (vs : Values)
        → (mentions_all j (walk_all target children vs).0
            ≡ after (mentions_all target vs) (mentions_all j vs))
          × ((walk_all target children vs).1 ≡ mentions_all target vs)
    walked_all nil = ground arith
    walked_all (cons v vs) = ground (arith, walked v, walked_all vs)

    walked_items :
        (d : Items)
        → (mentions_items j (walk_items target children d).0
            ≡ after (mentions_items target d) (mentions_items j d))
          × ((walk_items target children d).1 ≡ mentions_items target d)
    walked_items end = ground arith
    walked_items (item k v d) = ground (arith, walked v, walked_items d)

-- If the children hold no placeholder, then after the walk over a consumer's argument a
-- placeholder stands in its lists, tuples and dict values exactly if it did before and is not the
-- expanded one, and the flag tells whether the expanded one stood there.
pub mentions-walk :
    (target j : ℕ) (children : Values) (v : Value)
    → mentions_all j children ≡ false
    → (mentions j (walk target children v).0 ≡ (not (nat_eq j target) && mentions j v))
      × ((walk target children v).1 ≡ mentions target v)
mentions-walk target j children v h = ground (arith, walked target children j v)
