-- ===== src/Dag/Loop.antt =====
-- The loop of the sort starts in its invariant, keeps it, and ends within a round for each node.
use auto_workflow.Base.{
  ℕ, zero, suc, ◌+◌, ◌≤◌, ◌≡◌, ◌∙◌, refl, ap, inl, inr, Bool, true, false, Option, Option-cases,
  none, some, List, [], ◌∷◌, ◌++◌, Str, eq_iff, length, mem, nodup, length-append, mem-sorted,
  nodup-sorted, length-le_of_subset, sorted, sorted-IsSorted, Dict, lookup, keys, lookup-none_iff,
  arith, ℤ, pos, is_zero,
}
use auto_workflow.Exceptions.{ok}
use auto_workflow.Dag.{Dag, Node, relax, kahn, in_degrees, names_where}
use auto_workflow.Dag.Edges.{up, down, IsConsistent}
use auto_workflow.Dag.Relax.{relax_lem}
use auto_workflow.Dag.Kahn.{waiting-nil, Follows, IsLeast, Inv, Inv-step, head-ready}

-- The names that a test picks, from the dict's point of view.
abbrev pub holds : (ℤ → Bool) → Option ℤ → Bool
holds p none = false
holds p (some z) = p z

mem-names_where-le :
    (p : ℤ → Bool) (n : Str) (deg : Dict ℤ)
    → mem n (keys deg) ≡ false
    → mem n (names_where p deg) ≡ false
unfolding mem
mem-names_where-le p n [] h = refl
mem-names_where-le p n ((k, z) ∷ deg) h = ground (arith, mem-names_where-le p n deg)

pub mem-names_where :
    (p : ℤ → Bool) (n : Str) (deg : Dict ℤ)
    → nodup (keys deg) ≡ true
    → mem n (names_where p deg) ≡ holds p (lookup n deg)
unfolding mem nodup lookup
mem-names_where p n [] h = refl
mem-names_where p n ((k, z) ∷ deg) h = ground (
  arith,
  mem-names_where p n deg,
  mem-names_where-le p n deg,
  mem-names_where-le p k deg,
  eq_iff n k,
)

pub nodup-names_where :
    (p : ℤ → Bool) (deg : Dict ℤ) → nodup (keys deg) ≡ true → nodup (names_where p deg) ≡ true
unfolding nodup
nodup-names_where p [] h = refl
nodup-names_where p ((k, z) ∷ deg) h =
    ground (arith, nodup-names_where p deg, mem-names_where-le p k deg)

keys-in_degrees : (d : Dag) → keys (in_degrees d) ≡ keys d
unfolding in_degrees
keys-in_degrees [] = refl
keys-in_degrees (e ∷ d) = ap (◌∷◌ e.0) (keys-in_degrees d)

lookup-in_degrees :
    (n : Str) (d : Dag)
    → mem n (keys d) ≡ true
    → lookup n (in_degrees d) ≡ some (pos (length (up d n)))
unfolding in_degrees lookup mem up
lookup-in_degrees n [] h = ground arith
lookup-in_degrees n ((k, node) ∷ d) h = ground (arith, lookup-in_degrees n d)

kahn-cons :
    (f : ℕ) (d : Dag) (deg deg' : Dict ℤ) (c : Str) (rest ready' order : List Str) (node : Node)
    → lookup c d ≡ some node
    → relax (sorted node.downstream) deg rest ≡ ok (deg', ready')
    → kahn (suc f) d deg (c ∷ rest) order ≡ kahn f d deg' ready' (order ++ c ∷ [])
unfolding kahn
kahn-cons f d deg deg' c rest ready' order node e r = ground arith

module _ (d : Dag) (consistent : IsConsistent d) where
  lookup-node :
      (c : Str)
      → mem c (keys d) ≡ true
      → (node : Node) × (lookup c d ≡ some node) × (node.downstream ≡ down d c)
  unfolding down
  lookup-node c h = elim (Option-cases (lookup c d)) [
    | inl e ↦ absurd (ground (arith, lookup-none_iff c d))
    | inr (node, e) ↦ (node, e, ground arith)
  ]

  -- One round of the loop.
  round :
      (deg : Dict ℤ) (c : Str) (rest order : List Str)
      → Inv d consistent deg (c ∷ rest) order
      → (node : Node) × (deg' : Dict ℤ) × (ready' : List Str) × (lookup c d ≡ some node)
        × (relax (sorted node.downstream) deg rest ≡ ok (deg', ready'))
        × Inv d consistent deg' ready' (order ++ c ∷ [])
  round deg c rest order i =
      let (node, e, children) = lookup-node c (head-ready d consistent deg c rest order i).0 in
      let (deg', ready', relaxed, r) =
        relax_lem (sorted (down d c)) deg rest
          (rw (nodup-sorted (down d c)) (consistent.down_distinct c))
          (λ n m.
            ground (arith, i.degrees n, mem-sorted n (down d c), consistent.down_known c n)) in
      (
        node,
        deg',
        ready',
        e,
        rw children relaxed,
        Inv-step d consistent deg deg' ready' c rest order i r,
      )

  -- The order cannot hold all nodes while a node is ready.
  room_left :
      (deg : Dict ℤ) (c : Str) (rest order : List Str)
      → Inv d consistent deg (c ∷ rest) order
      → suc (length order) ≤ length (keys d)
  unfolding mem nodup
  room_left deg c rest order i =
      length-le_of_subset (c ∷ order) (keys d)
        (ground (arith, i.order_distinct, head-ready d consistent deg c rest order i))
        (λ n h. ground (arith, i.known n, eq_iff n c, head-ready d consistent deg c rest order i))

  -- With a round for each node that is not in the order, the loop ends with an empty ready list.
  pub kahn_ends :
      (f : ℕ) (deg : Dict ℤ) (ready order : List Str)
      → Inv d consistent deg ready order
      → length (keys d) ≤ length order + f
      → (order' : List Str) × (deg' : Dict ℤ) × (kahn f d deg ready order ≡ ok (order', deg'))
        × Inv d consistent deg' [] order'
  unfolding kahn
  kahn_ends zero deg [] order i h = (order, deg, refl, i)
  kahn_ends (suc f) deg [] order i h = (order, deg, refl, i)
  kahn_ends zero deg (c ∷ rest) order i h = absurd (omega (arith, room_left deg c rest order i))
  kahn_ends (suc f) deg (c ∷ rest) order i h =
      let (node, deg', ready', e, r, i') = round deg c rest order i in
      let (order', deg'', ends, last) =
        kahn_ends f deg' ready' (order ++ c ∷ []) i'
          (omega (arith, length-append order (c ∷ []))) in
      (order', deg'', kahn-cons f d deg deg' c rest ready' order node e r ∙ ends, last)

  pub Inv-start : Inv d consistent (in_degrees d) (sorted (names_where is_zero (in_degrees d))) []
  unfolding mem nodup Follows IsLeast
  Inv-start = record {
    degrees = λ n k. rw (waiting-nil (up d n)) (lookup-in_degrees n d k);
    queued = λ n. ground (
      arith,
      mem-sorted n (names_where is_zero (in_degrees d)),
      mem-names_where is_zero n (in_degrees d) distinct,
      lookup-in_degrees n d,
      waiting-nil (up d n),
      lookup-none_iff n (in_degrees d),
      keys-in_degrees d,
    );
    known = λ n h. ground arith;
    closed = λ n h. ground arith;
    ready_distinct = nodup-sorted _ ∙ nodup-names_where is_zero (in_degrees d) distinct;
    order_distinct = refl;
    ordered = tt;
    ascending = sorted-IsSorted _;
    smallest = tt;
    deg_distinct = distinct;
    untracked = λ n a. (lookup-none_iff n (in_degrees d)).1 (rw (keys-in_degrees d) a);
  }
    where
      distinct : nodup (keys (in_degrees d)) ≡ true
      distinct = rw (keys-in_degrees d) consistent.distinct
