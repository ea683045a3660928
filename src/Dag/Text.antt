-- ===== src/Dag/Text.antt =====
-- `DAG.to_dict` and `DAG.to_dot`.
use auto_workflow.Base.{
  ◌≡◌, refl, Option, none, some, List, [], ◌∷◌, ◌++◌, map, Str, codes, sorted, lookup, Dict, arith,
}
use auto_workflow.Dag.{Dag, Attrs}

pub record Links : Type 0 where
  pub upstream : List Str
  pub downstream : List Str

-- `to_dict`
unfoldable pub to_dict : Dag → Dict Links
to_dict d =
    map (λ e. (e.0, record { upstream = sorted e.1.upstream; downstream = sorted e.1.downstream }))
      d

-- `sep.join(parts)`
unfoldable pub join : Str → List Str → Str
join sep [] = []
join sep (s ∷ []) = s
join sep (s ∷ t ∷ parts) = s ++ sep ++ join sep (t ∷ parts)

abbrev pub quoted : Str → Str
quoted s = b'"' ∷ s ++ b'"' ∷ []

-- `if value: attrs.append(f'key="{value}"')`
abbrev pub attr : Str → Option Str → List Str
attr key none = []
attr key (some []) = []
attr key (some (c ∷ s)) = (key ++ b'=' ∷ quoted (c ∷ s)) ∷ []

unfoldable pub attrs_text : Attrs → List Str
attrs_text a =
    attr (codes "label") a.label
    ++ attr (codes "shape") a.shape
    ++ attr (codes "color") a.color
    ++ attr (codes "style") a.style

unfoldable pub node_line : Str → List Str → List Str → List Str
unfolding join
node_line name (a ∷ attrs) downstream =
    (codes "  " ++ quoted name ++ codes " [" ++ join (codes ", ") (a ∷ attrs) ++ codes "];") ∷ []
node_line name [] [] = (codes "  " ++ quoted name ++ codes ";") ∷ []
node_line name [] (c ∷ cs) = []

unfoldable pub node_lines : Dag → List Str
unfolding attrs_text node_line
node_lines [] = []
node_lines ((name, node) ∷ d) =
    node_line name (attrs_text node.attrs) node.downstream ++ node_lines d

abbrev pub edge_line : Str → Str → Str
edge_line u v = codes "  " ++ quoted u ++ codes " -> " ++ quoted v ++ codes ";"

unfoldable pub edge_lines : Dag → List Str
edge_lines [] = []
edge_lines ((name, node) ∷ d) = map (edge_line name) node.downstream ++ edge_lines d

unfoldable pub to_dot : Dag → Str
unfolding node_lines edge_lines join
to_dot d =
    join (codes "\n") ((codes "digraph G {" ∷ node_lines d ++ edge_lines d) ++ codes "}" ∷ [])

lookup-to_dict :
    (d : Dag) (n : Str)
    → lookup n (to_dict d) ≡ (elim (lookup n d) [
      | none ↦ none
      | some node ↦
          some (record { upstream = sorted node.upstream; downstream = sorted node.downstream })
    ])
unfolding to_dict lookup
lookup-to_dict [] n = refl
lookup-to_dict ((k, node) ∷ d) n = ground (arith, lookup-to_dict d n)
