-- ===== src/Export.antt =====
-- auto_workflow/flow.py: `Flow.export_graph` and `Flow.export_dot`.
pub mod Ancestors
use auto_workflow.Base.{
  ℕ, zero, suc, Bool, true, false, not, Option, none, some, List, [], ◌∷◌, ◌++◌, map, if◌then◌else◌,
  length, Str, codes, ◌==◌, mem, sorted, set_add, set_discard, Dict, lookup, insert, keys, filter,
  any,
}
use auto_workflow.Exceptions.{out_of_fuel, Result, ok, raise, ◌>>=◌}
use auto_workflow.Build.{Value, TaskInvocation}
use auto_workflow.Dag.{Dag, Attrs, add_node, add_edge, no_attrs}
use auto_workflow.Dag.Text.{Links, to_dict, to_dot}
use auto_workflow.Flow.{build_dag}
use auto_workflow.Describe.{
  Placeholder, Ids, get_id, fanout_id, fanout_ids, source_name, parent_id, fans, get_names,
  consumers_by_name, transitive_consumers, discard_source, add_reached,
}

unfoldable pub export_graph : List TaskInvocation → Dict Links
unfolding build_dag to_dict
export_graph invs = to_dict (build_dag invs [])

-- The loop that makes a node for each placeholder.
unfoldable pub barrier_nodes : ℕ → List Placeholder → Dag → Dag
unfolding fanout_id add_node
barrier_nodes idx [] d = d
barrier_nodes idx (df ∷ dfs) d =
    let attrs : Attrs = record {
      label = some (codes "fan_out(" ++ df.task ++ codes ")");
      shape = some (codes "diamond");
      color = some (codes "lightblue");
      style = none;
    } in
    barrier_nodes (suc idx) dfs (add_node (fanout_id idx) attrs d)

-- The name or the id that a placeholder's source has, if any.
abbrev pub fan_id_of : Ids → Value → Option Str
fan_id_of ids (Value.fan i source children) = get_id i ids
fan_id_of ids (Value.invocation n args kwargs) = some n
fan_id_of ids (Value.list_of vs) = none
fan_id_of ids (Value.tuple_of vs) = none
fan_id_of ids (Value.set_of vs) = none
fan_id_of ids (Value.dict_of d) = none
fan_id_of ids (Value.text s) = none
fan_id_of ids (Value.atom n) = none

-- `fanout_source_by_id`, and the edges of the loop that makes it.
unfoldable pub wire_sources : Ids → List Placeholder → Dag × Dict Str → Dag × Dict Str
unfolding get_id add_edge
wire_sources ids [] s = s
wire_sources ids (df ∷ dfs) (d, sources) = wire_sources ids dfs (elim (get_id df.identity ids) [
  | none ↦ (d, sources)
  | some fid ↦ (elim (fan_id_of ids df.source) [
    | none ↦ (d, sources)
    | some parent ↦ (add_edge parent fid d, insert fid parent sources)
  ])
])

-- `fanout_direct_consumers`
unfoldable pub note_consumer : Ids → Str → List (ℕ × Value) → Dict (List Str) → Dict (List Str)
unfolding get_id
note_consumer ids name [] d = d
note_consumer ids name ((i, source) ∷ fs) d =
    note_consumer ids name fs
      (elim (get_id i ids) [ none ↦ d | some fid ↦ insert fid (get_names fid d ++ name ∷ []) d ])

unfoldable pub consumer_lists : Ids → List TaskInvocation → Dict (List Str) → Dict (List Str)
unfolding note_consumer fans
consumer_lists ids [] d = d
consumer_lists ids (inv ∷ invs) d =
    consumer_lists ids invs (note_consumer ids inv.name (fans inv) d)

unfoldable pub reached_from : Dict (List Str) → Dict (List Str) → Result (Dict (List Str))
unfolding transitive_consumers
reached_from adj [] = ok []
reached_from adj ((fid, direct) ∷ d) = do
  seen ← transitive_consumers adj direct
  rest ← reached_from adj d
  ok ((fid, seen) ∷ rest)

-- The graph, `effective_up` and `included_fids` in the loop over an invocation.
pub record Wiring : Type 0 where
  pub dag : Dag
  pub up : List Str
  pub included : List Str

unfoldable pub wire_fans : Ids → Str → List (ℕ × Value) → Wiring → Wiring
unfolding get_id add_edge
wire_fans ids name [] w = w
wire_fans ids name ((i, source) ∷ fs) w = wire_fans ids name fs (elim (get_id i ids) [
  | none ↦ record w { up = discard_source source w.up }
  | some fid ↦ (record w {
    dag = add_edge fid name w.dag;
    up = set_add fid (discard_source source w.up);
    included = set_add fid w.included;
  })
])

-- `while cur:`, with fuel for its rounds.
unfoldable pub walk_up : ℕ → Dict Str → Str → List Str → Result (List Str)
walk_up fuel sources [] suppressed = ok suppressed
walk_up zero sources (c ∷ cur) suppressed = raise out_of_fuel
walk_up (suc fuel) sources (c ∷ cur) suppressed = elim (lookup (c ∷ cur) sources) [
  | none ↦ ok (set_add (c ∷ cur) suppressed)
  | some parent ↦ walk_up fuel sources parent (set_add (c ∷ cur) suppressed)
]

-- `cur = fanout_source_by_id.get(fid)` and the walk, for each barrier included.
unfoldable pub ancestors : ℕ → Dict Str → List Str → List Str → Result (List Str)
unfolding walk_up
ancestors fuel sources [] suppressed = ok suppressed
ancestors fuel sources (fid ∷ fids) suppressed = elim (lookup fid sources) [
  | none ↦ ancestors fuel sources fids suppressed
  | some cur ↦ (do
    suppressed' ← walk_up fuel sources cur suppressed
    ancestors fuel sources fids suppressed')
]

-- `for up in sorted(effective_up): if up not in fanout_id_map.values(): dag.add_edge(up, name)`
unfoldable pub wire_up : Ids → Str → List Str → Dag → Dag
unfolding add_edge
wire_up ids name [] d = d
wire_up ids name (u ∷ us) d =
    wire_up ids name us (if any (λ e. e.1 == u) ids then d else add_edge u name d)

unfoldable pub wire_invocation :
    ℕ → Ids → Dict Str → Dict (List Str) → TaskInvocation → Dag → Result Dag
unfolding wire_fans ancestors wire_up add_node fans add_reached
wire_invocation fuel ids sources reached inv d =
    let w =
      wire_fans ids inv.name (fans inv)
        (record { dag = add_node inv.name no_attrs d; up = inv.upstream; included = [] }) in
    let up = add_reached inv.name reached w.up in
    let included = add_reached inv.name reached w.included in
    (do
      suppressed ← ancestors fuel sources included []
      ok (wire_up ids inv.name (sorted (filter (λ u. not (mem u suppressed)) up)) w.dag))

unfoldable pub wire_invocations :
    ℕ → Ids → Dict Str → Dict (List Str) → List TaskInvocation → Dag → Result Dag
unfolding wire_invocation
wire_invocations fuel ids sources reached [] d = ok d
wire_invocations fuel ids sources reached (inv ∷ invs) d = do
  d' ← wire_invocation fuel ids sources reached inv d
  wire_invocations fuel ids sources reached invs d'

-- The graph of `export_dot`; the fuel is for the walk from a barrier to its ancestors.
unfoldable pub dot_graph : ℕ → List TaskInvocation → List Placeholder → Result Dag
unfolding barrier_nodes wire_sources fanout_ids consumer_lists consumers_by_name reached_from
    wire_invocations
dot_graph fuel invs dfs = do
  let ids = fanout_ids 1 dfs []
  let wired = wire_sources ids dfs (barrier_nodes 1 dfs [], [])
  let direct = consumer_lists ids invs (map (λ fid. (fid, [])) (keys wired.1))
  reached ← reached_from (consumers_by_name invs []) direct
  wire_invocations fuel ids wired.1 reached invs wired.0

unfoldable pub export_dot : ℕ → List TaskInvocation → List Placeholder → Result Str
unfolding dot_graph to_dot
export_dot fuel invs dfs = do d ← dot_graph fuel invs dfs; ok (to_dot d)
