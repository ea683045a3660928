-- ===== src/Dag/Subgraph.antt =====
-- `DAG.subgraph`: which edges it keeps.
use auto_workflow.Base.{
  ◌≡◌, refl, false, ◌&&◌, ◌||◌, List, [], ◌∷◌, if◌then◌else◌, Str, ◌==◌, eq_iff, mem, arith,
}
use auto_workflow.Dag.{
  Dag, no_attrs, add_node, add_edge, subgraph_edges, subgraph_node, subgraph_from, subgraph,
}
use auto_workflow.Dag.Edges.{up, down, up-empty, mem-up-add_edge, up-add_node, IsConsistent}

mem-nil : (u : Str) → mem u [] ≡ false
unfolding mem
mem-nil u = refl

mem-up-subgraph_edges :
    (n : Str) (names ds : List Str) (sg : Dag) (u v : Str)
    → mem u (up (subgraph_edges n names ds sg) v)
      ≡ ((u == n && (mem v ds && mem v names)) || mem u (up sg v))
unfolding subgraph_edges mem
mem-up-subgraph_edges n names [] sg u v = ground arith
mem-up-subgraph_edges n names (d ∷ ds) sg u v = ground (
  arith,
  mem-up-subgraph_edges n names ds (if mem d names then add_edge n d sg else sg) u v,
  mem-up-add_edge n d sg u v,
  eq_iff v d,
)

mem-up-subgraph_node :
    (d : Dag) (names : List Str) (n : Str) (sg : Dag) (u v : Str)
    → mem u (up (subgraph_node d names n sg) v)
      ≡ ((u == n && (mem v (down d n) && mem v names)) || mem u (up sg v))
unfolding subgraph_node down mem
mem-up-subgraph_node d names n sg u v = ground (
  arith,
  mem-up-subgraph_edges n names (down d n) (add_node n no_attrs sg) u v,
  up-add_node v n no_attrs sg,
)

mem-up-subgraph_from :
    (d : Dag) (names ns : List Str) (sg : Dag) (u v : Str)
    → mem u (up (subgraph_from d names ns sg) v)
      ≡ ((mem u ns && (mem v (down d u) && mem v names)) || mem u (up sg v))
unfolding subgraph_from mem
mem-up-subgraph_from d names [] sg u v = refl
mem-up-subgraph_from d names (n ∷ ns) sg u v = ground (
  arith,
  mem-up-subgraph_from d names ns (subgraph_node d names n sg) u v,
  mem-up-subgraph_node d names n sg u v,
  eq_iff u n,
)

-- The subgraph of a consistent graph has the edges of the graph with both ends among the names,
-- and no others.
pub mem-up-subgraph :
    (names : List Str) (d : Dag) (u v : Str)
    → IsConsistent d
    → mem u (up (subgraph names d) v) ≡ (mem u (up d v) && (mem u names && mem v names))
unfolding subgraph mem
mem-up-subgraph names d u v c =
    ground (arith, mem-up-subgraph_from d names names [] u v, c.mirrored u v, up-empty v, mem-nil u)
