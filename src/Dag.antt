-- ===== src/Dag.antt =====
-- auto_workflow/dag.py: the graph of invocations, Kahn's algorithm and the exports.
pub mod Edges
mod Relax
pub mod Kahn
pub mod Loop
pub mod Order
pub mod Deterministic
pub mod Subgraph
pub mod Text
use auto_workflow.Base.{
  ℕ, zero, suc, List, [], ◌∷◌, ◌++◌, map, Bool, true, false, not, ◌&&◌, Option, none, some,
  if◌then◌else◌, Str, ◌==◌, nat_eq, length, filter, mem, insort, sorted, set_add, Dict, lookup,
  insert, keys, has_key, adjust, ℤ, pos, pred_ℤ, is_zero, is_positive,
}
use auto_workflow.Exceptions.{Exn, cycle_detected, key_error, out_of_fuel, Result, ok, raise, ◌>>=◌}

-- The DOT attributes that `add_node` takes as keywords.
pub record Attrs : Type 0 where
  pub label : Option Str
  pub shape : Option Str
  pub color : Option Str
  pub style : Option Str

pub record Node : Type 0 where
  pub name : Str
  pub upstream : List Str
  pub downstream : List Str
  pub attrs : Attrs

-- A `DAG` is its dict of nodes.
abbrev pub Dag : Type 0
Dag = Dict Node

abbrev pub no_attrs : Attrs
no_attrs = record { label = none; shape = none; color = none; style = none }

abbrev pub new_node : Str → Attrs → Node
new_node name attrs = record { name = name; upstream = []; downstream = []; attrs = attrs }

unfoldable pub add_node : Str → Attrs → Dag → Dag
add_node name attrs d = if has_key name d then d else insert name (new_node name attrs) d

abbrev pub add_downstream : Str → Node → Node
add_downstream v n = record n { downstream = set_add v n.downstream }

abbrev pub add_upstream : Str → Node → Node
add_upstream u n = record n { upstream = set_add u n.upstream }

-- Both nodes are present when the two sets are updated.
unfoldable pub add_edge : Str → Str → Dag → Dag
unfolding add_node
add_edge u v d =
    adjust v (add_upstream u)
      (adjust u (add_downstream v) (add_node v no_attrs (add_node u no_attrs d)))

-- `d[k]`
unfoldable pub get_item {ℓ} : {V : Type ℓ} → Str → Dict V → Result V
get_item k d = elim (lookup k d) [ none ↦ raise (key_error k) | some v ↦ ok v ]

-- `in_degree`
unfoldable pub in_degrees : Dag → Dict ℤ
in_degrees d = map (λ e. (e.0, pos (length e.1.upstream))) d

abbrev pub names_where : (ℤ → Bool) → Dict ℤ → List Str
names_where p deg = keys (filter (λ e. p e.1) deg)

-- The loop over the sorted children of the current node.
unfoldable pub relax : List Str → Dict ℤ → List Str → Result (Dict ℤ × List Str)
unfolding get_item
relax [] deg ready = ok (deg, ready)
relax (c ∷ cs) deg ready = do
  n ← get_item c deg
  relax cs (insert c (pred_ℤ n) deg) (if is_zero (pred_ℤ n) then insort ready c else ready)

-- `while ready:`, with fuel for its rounds.
unfoldable pub kahn : ℕ → Dag → Dict ℤ → List Str → List Str → Result (List Str × Dict ℤ)
unfolding get_item relax
kahn zero d deg [] order = ok (order, deg)
kahn zero d deg (c ∷ rest) order = raise out_of_fuel
kahn (suc f) d deg [] order = ok (order, deg)
kahn (suc f) d deg (c ∷ rest) order = do
  node ← get_item c d
  (deg', ready') ← relax (sorted node.downstream) deg rest
  kahn f d deg' ready' (order ++ c ∷ [])

-- The check behind the loop.
unfoldable pub check_order : Dag → List Str × Dict ℤ → Result (List Str)
check_order d (order, deg) =
    if nat_eq (length order) (length d)
    then ok order
    else raise (cycle_detected (sorted (names_where is_positive deg)))

-- Every round puts another node into the order, so a round for each node is enough.
unfoldable pub topological_sort : Dag → Result (List Str)
unfolding kahn check_order in_degrees
topological_sort d =
    kahn (length d) d (in_degrees d) (sorted (names_where is_zero (in_degrees d))) []
    >>= check_order d

-- `for d in self.nodes[name].downstream: if d in names: sg.add_edge(name, d)`
unfoldable pub subgraph_edges : Str → List Str → List Str → Dag → Dag
unfolding add_edge
subgraph_edges name names [] sg = sg
subgraph_edges name names (d ∷ ds) sg =
    subgraph_edges name names ds (if mem d names then add_edge name d sg else sg)

-- The body of `for name in names`.
unfoldable pub subgraph_node : Dag → List Str → Str → Dag → Dag
unfolding subgraph_edges add_node
subgraph_node d names n sg = elim (lookup n d) [
  | none ↦ sg
  | some node ↦ subgraph_edges n names node.downstream (add_node n no_attrs sg)
]

unfoldable pub subgraph_from : Dag → List Str → List Str → Dag → Dag
unfolding subgraph_node
subgraph_from d names [] sg = sg
subgraph_from d names (n ∷ ns) sg = subgraph_from d names ns (subgraph_node d names n sg)

unfoldable pub subgraph : List Str → Dag → Dag
unfolding subgraph_from
subgraph names d = subgraph_from d names names []
