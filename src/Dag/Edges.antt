-- ===== src/Dag/Edges.antt =====
-- What `add_node` and `add_edge` make of a graph: which nodes it has, and which edges.
use auto_workflow.Base.{
  ◌≡◌, ◌≢◌, ◌∙◌, refl, true, ◌&&◌, ◌||◌, none, some, List, [], Str, ◌==◌, if◌then◌else◌, eq_iff,
  mem, nodup, mem-set_add, nodup-set_add, set_add, lookup, keys, adjust, lookup-insert,
  lookup-none_iff, mem-keys-insert, nodup-keys-insert, lookup-adjust, keys-adjust, arith,
}
use auto_workflow.Dag.{
  Dag, Attrs, no_attrs, new_node, add_downstream, add_upstream, add_node, add_edge,
}

-- `nodes[n].upstream`, empty for a node that is not there
unfoldable pub up : Dag → Str → List Str
up d n = elim (lookup n d) [ none ↦ [] | some node ↦ node.upstream ]

unfoldable pub down : Dag → Str → List Str
down d n = elim (lookup n d) [ none ↦ [] | some node ↦ node.downstream ]

pub up-empty : (n : Str) → up [] n ≡ []
unfolding up lookup
up-empty n = refl

pub mem-keys-add_node :
    (j k : Str) (a : Attrs) (d : Dag) → mem j (keys (add_node k a d)) ≡ (j == k || mem j (keys d))
unfolding add_node
mem-keys-add_node j k a d = ground (arith, mem-keys-insert j k (new_node k a) d, eq_iff j k)

pub nodup-keys-add_node :
    (k : Str) (a : Attrs) (d : Dag) → nodup (keys d) ≡ true → nodup (keys (add_node k a d)) ≡ true
unfolding add_node
nodup-keys-add_node k a d h = ground (arith, nodup-keys-insert k (new_node k a) d)

pub up-add_node : (j k : Str) (a : Attrs) (d : Dag) → up (add_node k a d) j ≡ up d j
unfolding add_node up
up-add_node j k a d =
    ground (arith, lookup-insert j k (new_node k a) d, eq_iff j k, lookup-none_iff k d)

pub down-add_node : (j k : Str) (a : Attrs) (d : Dag) → down (add_node k a d) j ≡ down d j
unfolding add_node down
down-add_node j k a d =
    ground (arith, lookup-insert j k (new_node k a) d, eq_iff j k, lookup-none_iff k d)

module _ (g : Dag) (k x : Str) where
  up-adjust-up :
      (i : Str)
      → lookup k g ≢ none
      → up (adjust k (add_upstream x) g) i ≡ (if i == k then set_add x (up g k) else up g i)
  unfolding up
  up-adjust-up i there = ground (arith, lookup-adjust i k (add_upstream x) g, eq_iff i k)

  down-adjust_up : (i : Str) → down (adjust k (add_upstream x) g) i ≡ down g i
  unfolding down
  down-adjust_up i = ground (arith, lookup-adjust i k (add_upstream x) g)

  up-adjust_down : (i : Str) → up (adjust k (add_downstream x) g) i ≡ up g i
  unfolding up
  up-adjust_down i = ground (arith, lookup-adjust i k (add_downstream x) g)

  down-adjust-down :
      (i : Str)
      → lookup k g ≢ none
      → down (adjust k (add_downstream x) g) i ≡ (if i == k then set_add x (down g k) else down g i)
  unfolding down
  down-adjust-down i there = ground (arith, lookup-adjust i k (add_downstream x) g, eq_iff i k)

  lookup-adjust_down-ne_none :
      (i : Str) → lookup i g ≢ none → lookup i (adjust k (add_downstream x) g) ≢ none
  lookup-adjust_down-ne_none i there h =
      ground (arith, lookup-adjust i k (add_downstream x) g, there)

module _ (u v : Str) (d : Dag) where
  abbrev with_nodes : Dag
  with_nodes = add_node v no_attrs (add_node u no_attrs d)

  abbrev half_edge : Dag
  half_edge = adjust u (add_downstream v) with_nodes

  pub mem-keys-add_edge :
      (j : Str) → mem j (keys (add_edge u v d)) ≡ (j == v || (j == u || mem j (keys d)))
  unfolding add_edge
  mem-keys-add_edge j = ground (
    arith,
    keys-adjust v (add_upstream u) half_edge,
    keys-adjust u (add_downstream v) with_nodes,
    mem-keys-add_node j v no_attrs (add_node u no_attrs d),
    mem-keys-add_node j u no_attrs d,
  )

  pub nodup-keys-add_edge : nodup (keys d) ≡ true → nodup (keys (add_edge u v d)) ≡ true
  unfolding add_edge
  nodup-keys-add_edge h = ground (
    arith,
    keys-adjust v (add_upstream u) half_edge,
    keys-adjust u (add_downstream v) with_nodes,
    nodup-keys-add_node v no_attrs (add_node u no_attrs d),
    nodup-keys-add_node u no_attrs d,
  )

  there_u : lookup u with_nodes ≢ none
  there_u h = ground (
    arith,
    lookup-none_iff u with_nodes,
    eq_iff u u,
    mem-keys-add_node u v no_attrs (add_node u no_attrs d),
    mem-keys-add_node u u no_attrs d,
  )

  there_v : lookup v with_nodes ≢ none
  there_v h = ground (
    arith,
    lookup-none_iff v with_nodes,
    eq_iff v v,
    mem-keys-add_node v v no_attrs (add_node u no_attrs d),
  )

  up-with_nodes : (j : Str) → up with_nodes j ≡ up d j
  up-with_nodes j = up-add_node j v no_attrs (add_node u no_attrs d) ∙ up-add_node j u no_attrs d

  down-with_nodes : (j : Str) → down with_nodes j ≡ down d j
  down-with_nodes j =
      down-add_node j v no_attrs (add_node u no_attrs d) ∙ down-add_node j u no_attrs d

  pub up-add_edge :
      (j : Str) → up (add_edge u v d) j ≡ (if j == v then set_add u (up d v) else up d j)
  unfolding add_edge
  up-add_edge j = simp (
    up-adjust-up half_edge v u j (lookup-adjust_down-ne_none with_nodes u v v there_v),
    up-adjust_down with_nodes u v,
    up-with_nodes,
  )

  pub down-add_edge :
      (j : Str) → down (add_edge u v d) j ≡ (if j == u then set_add v (down d u) else down d j)
  unfolding add_edge
  down-add_edge j =
      simp
        (down-adjust_up half_edge v u, down-adjust-down with_nodes u v j there_u, down-with_nodes)

-- Both directions of an edge are kept, all ends are nodes, and no name stands twice.
pub record IsConsistent (d : Dag) : Type 0 where
  pub distinct : nodup (keys d) ≡ true
  pub mirrored : (u v : Str) → mem u (up d v) ≡ mem v (down d u)
  pub up_known : (u v : Str) → mem u (up d v) ≡ true → mem u (keys d) ≡ true
  pub down_known : (u v : Str) → mem v (down d u) ≡ true → mem v (keys d) ≡ true
  pub up_distinct : (v : Str) → nodup (up d v) ≡ true
  pub down_distinct : (u : Str) → nodup (down d u) ≡ true

pub empty-IsConsistent : IsConsistent []
unfolding up down mem nodup lookup
empty-IsConsistent = record {
  distinct = refl;
  mirrored = λ u v. refl;
  up_known = λ u v h. ground arith;
  down_known = λ u v h. ground arith;
  up_distinct = λ v. refl;
  down_distinct = λ u. refl;
}

pub add_node-IsConsistent :
    (k : Str) (a : Attrs) (d : Dag) → IsConsistent d → IsConsistent (add_node k a d)
add_node-IsConsistent k a d c = record {
  distinct = nodup-keys-add_node k a d c.distinct;
  mirrored = λ u v. ground (arith, up-add_node v k a d, down-add_node u k a d, c.mirrored u v);
  up_known =
      λ u v h. ground (arith, up-add_node v k a d, mem-keys-add_node u k a d, c.up_known u v);
  down_known =
      λ u v h. ground (arith, down-add_node u k a d, mem-keys-add_node v k a d, c.down_known u v);
  up_distinct = λ v. rw (up-add_node v k a d) (c.up_distinct v);
  down_distinct = λ u. rw (down-add_node u k a d) (c.down_distinct u);
}

-- An edge is there exactly if it was, or is the new one.
pub mem-up-add_edge :
    (u v : Str) (d : Dag) (x y : Str)
    → mem x (up (add_edge u v d) y) ≡ (x == u && y == v || mem x (up d y))
mem-up-add_edge u v d x y =
    ground (arith, up-add_edge u v d y, mem-set_add x u (up d v), eq_iff y v)

mem-down-add_edge :
    (u v : Str) (d : Dag) (x y : Str)
    → mem y (down (add_edge u v d) x) ≡ (x == u && y == v || mem y (down d x))
mem-down-add_edge u v d x y =
    ground (arith, down-add_edge u v d x, mem-set_add y v (down d u), eq_iff x u)

-- add_edge keeps a graph consistent: both directions of each edge are stored, all ends are nodes,
-- and no name stands twice.
pub add_edge-IsConsistent : (u v : Str) (d : Dag) → IsConsistent d → IsConsistent (add_edge u v d)
add_edge-IsConsistent u v d c = record {
  distinct = nodup-keys-add_edge u v d c.distinct;
  mirrored =
      λ x y. ground (arith, mem-up-add_edge u v d x y, mem-down-add_edge u v d x y, c.mirrored x y);
  up_known =
      λ x y h. ground (arith, mem-up-add_edge u v d x y, mem-keys-add_edge u v d x, c.up_known x y);
  down_known = λ x y h.
      ground (arith, mem-down-add_edge u v d x y, mem-keys-add_edge u v d y, c.down_known x y);
  up_distinct = λ y.
      ground
        (arith, up-add_edge u v d y, nodup-set_add u (up d v), c.up_distinct y, c.up_distinct v);
  down_distinct = λ x. ground (
    arith,
    down-add_edge u v d x,
    nodup-set_add v (down d u),
    c.down_distinct x,
    c.down_distinct u,
  );
}
