-- ===== src/Describe.antt =====
-- auto_workflow/flow.py: `Flow.describe`. The invocations of the returned structure and the
-- placeholders of the build context are its input. A set is a list with no element twice, and a
-- work list is a stack whose top is the end of the Python list.
pub mod Reach
pub mod Barriers
use auto_workflow.Base.{
  ℕ, zero, suc, ◌+◌, Bool, true, false, Option, none, some, List, [], ◌∷◌, ◌++◌, map, if◌then◌else◌,
  nat_eq, length, Str, codes, ◌==◌, mem, sorted, set_add, set_discard, Dict, lookup, insert,
  decimal,
}
use auto_workflow.Exceptions.{out_of_fuel, Result, ok, raise, ◌>>=◌}
use auto_workflow.Task.{RunIn}
use auto_workflow.Build.{
  Value, Values, Items, invocation, fan, list_of, tuple_of, set_of, dict_of, text, atom, nil, cons,
  end, item, TaskInvocation,
}

-- A DynamicFanOut of the build context; `identity` is its `id()`.
pub record Placeholder : Type 0 where
  pub identity : ℕ
  pub task : Str
  pub source : Value
  pub max_concurrency : Option ℕ

-- f"fanout:{idx}"
unfoldable pub fanout_id : ℕ → Str
fanout_id idx = codes "fanout:" ++ decimal idx

-- `fanout_id_map`
abbrev pub Ids : Type 0
Ids = List (ℕ × Str)

unfoldable pub get_id : ℕ → Ids → Option Str
get_id i [] = none
get_id i ((j, fid) ∷ ids) = if nat_eq i j then some fid else get_id i ids

-- The map after the loop over the placeholders from the number `idx` on.
unfoldable pub fanout_ids : ℕ → List Placeholder → Ids → Ids
unfolding fanout_id
fanout_ids idx [] ids = ids
fanout_ids idx (df ∷ dfs) ids = fanout_ids (suc idx) dfs ((df.identity, fanout_id idx) ∷ ids)

-- `source.name`, if it has one.
abbrev pub source_name : Value → Option Str
source_name (invocation n args kwargs) = some n
source_name (fan i source children) = none
source_name (list_of vs) = none
source_name (tuple_of vs) = none
source_name (set_of vs) = none
source_name (dict_of d) = none
source_name (text s) = none
source_name (atom n) = none

-- `fanout_id_map.get(id(source), "<unknown>")`
abbrev pub parent_id : Ids → Value → Str
parent_id ids (fan i source children) = elim (get_id i ids) [
  | none ↦ codes "<unknown>"
  | some fid ↦ fid
]
parent_id ids (invocation n args kwargs) = codes "<unknown>"
parent_id ids (list_of vs) = codes "<unknown>"
parent_id ids (tuple_of vs) = codes "<unknown>"
parent_id ids (set_of vs) = codes "<unknown>"
parent_id ids (dict_of d) = codes "<unknown>"
parent_id ids (text s) = codes "<unknown>"
parent_id ids (atom n) = codes "<unknown>"

unfoldable pub source_id : Ids → Value → Str
unfolding get_id
source_id ids source = elim (source_name source) [ none ↦ parent_id ids source | some n ↦ n ]

pub record FanoutInfo : Type 0 where
  pub id : Str
  pub task : Str
  pub source : Str
  pub max_concurrency : Option ℕ
  pub consumers : List Str

-- The placeholders among `list(inv.args) + list(inv.kwargs.values())`: identity and source.
abbrev pub fan_of : Value → List (ℕ × Value)
fan_of (fan i source children) = (i, source) ∷ []
fan_of (invocation n args kwargs) = []
fan_of (list_of vs) = []
fan_of (tuple_of vs) = []
fan_of (set_of vs) = []
fan_of (dict_of d) = []
fan_of (text s) = []
fan_of (atom n) = []

unfoldable pub fans_of_args : Values → List (ℕ × Value)
fans_of_args nil = []
fans_of_args (cons v vs) = fan_of v ++ fans_of_args vs

unfoldable pub fans_of_kwargs : Items → List (ℕ × Value)
fans_of_kwargs end = []
fans_of_kwargs (item k v d) = fan_of v ++ fans_of_kwargs d

unfoldable pub fans : TaskInvocation → List (ℕ × Value)
unfolding fans_of_args fans_of_kwargs
fans inv = fans_of_args inv.args ++ fans_of_kwargs inv.kwargs

-- What the arguments of the invocation `name` append to the consumers of `fid`.
unfoldable pub consumed_by : Ids → Str → Str → List (ℕ × Value) → List Str
unfolding get_id
consumed_by ids fid name [] = []
consumed_by ids fid name ((i, source) ∷ fs) = elim (get_id i ids) [
  | none ↦ consumed_by ids fid name fs
  | some f ↦ (if f == fid then name ∷ [] else []) ++ consumed_by ids fid name fs
]

unfoldable pub direct_consumers : Ids → Str → List TaskInvocation → List Str
unfolding consumed_by fans
direct_consumers ids fid [] = []
direct_consumers ids fid (inv ∷ invs) =
    consumed_by ids fid inv.name (fans inv) ++ direct_consumers ids fid invs

-- `fanout_info.values()` after both loops; `ids` holds the placeholders up to the current one.
unfoldable pub fanout_infos :
    ℕ → List Placeholder → Ids → Ids → List TaskInvocation → List FanoutInfo
unfolding fanout_id source_id direct_consumers
fanout_infos idx [] ids all invs = []
fanout_infos idx (df ∷ dfs) ids all invs =
    let known : Ids = (df.identity, fanout_id idx) ∷ ids in
    let info : FanoutInfo = record {
      id = fanout_id idx;
      task = df.task;
      source = source_id known df.source;
      max_concurrency = df.max_concurrency;
      consumers = direct_consumers all (fanout_id idx) invs;
    } in
    info ∷ fanout_infos (suc idx) dfs known all invs

-- `d.get(k, [])`
abbrev pub get_names : Str → Dict (List Str) → List Str
get_names k d = elim (lookup k d) [ none ↦ [] | some names ↦ names ]

-- `consumers_by_name.setdefault(up, []).append(name)` for each `up` of the list
unfoldable pub add_consumer : List Str → Str → Dict (List Str) → Dict (List Str)
add_consumer [] name d = d
add_consumer (u ∷ us) name d = add_consumer us name (insert u (get_names u d ++ name ∷ []) d)

unfoldable pub consumers_by_name : List TaskInvocation → Dict (List Str) → Dict (List Str)
unfolding add_consumer
consumers_by_name [] d = d
consumers_by_name (inv ∷ invs) d = consumers_by_name invs (add_consumer inv.upstream inv.name d)

-- `for nxt in …: if nxt not in seen: work.append(nxt)`
unfoldable pub push_new : List Str → List Str → List Str → List Str
push_new [] seen work = work
push_new (n ∷ ns) seen work = push_new ns seen (if mem n seen then work else n ∷ work)

-- `while work:`
unfoldable pub reach : ℕ → Dict (List Str) → List Str → List Str → Result (List Str)
unfolding push_new
reach fuel adj [] seen = ok seen
reach zero adj (cur ∷ work) seen = raise out_of_fuel
reach (suc fuel) adj (cur ∷ work) seen = elim (mem cur seen) [
  | true ↦ reach fuel adj work seen
  | false ↦ reach fuel adj (push_new (get_names cur adj) (cur ∷ seen) work) (cur ∷ seen)
]

-- Each round takes one name off; an entry of the map is pushed once at most.
unfoldable pub entries : Dict (List Str) → ℕ
entries [] = 0
entries ((k, names) ∷ adj) = length names + entries adj

-- The stack that `list(direct)` is.
unfoldable pub stack_of : List Str → List Str → List Str
stack_of [] work = work
stack_of (n ∷ ns) work = stack_of ns (n ∷ work)

unfoldable pub transitive_consumers : Dict (List Str) → List Str → Result (List Str)
unfolding reach entries stack_of
transitive_consumers adj direct = reach (length direct + entries adj) adj (stack_of direct []) []

unfoldable pub all_transitive : Dict (List Str) → List FanoutInfo → Result (Dict (List Str))
unfolding transitive_consumers
all_transitive adj [] = ok []
all_transitive adj (fi ∷ infos) = do
  seen ← transitive_consumers adj fi.consumers
  rest ← all_transitive adj infos
  ok ((fi.id, seen) ∷ rest)

-- `effective_up.discard(source.name)`, if the source has a name
abbrev pub discard_source : Value → List Str → List Str
discard_source source up = elim (source_name source) [ none ↦ up | some n ↦ set_discard n up ]

-- The loop over the placeholders of an invocation's arguments.
unfoldable pub rewire : Ids → List (ℕ × Value) → List Str → List Str
unfolding get_id
rewire ids [] up = up
rewire ids ((i, source) ∷ fs) up = rewire ids fs (elim (get_id i ids) [
  | none ↦ discard_source source up
  | some fid ↦ set_add fid (discard_source source up)
])

-- `for fid, reached in transitive_consumers.items()`
unfoldable pub add_reached : Str → Dict (List Str) → List Str → List Str
add_reached name [] up = up
add_reached name ((fid, seen) ∷ reached) up =
    add_reached name reached (if mem name seen then set_add fid up else up)

unfoldable pub effective_up : Ids → Dict (List Str) → TaskInvocation → List Str
unfolding rewire add_reached fans
effective_up ids reached inv = add_reached inv.name reached (rewire ids (fans inv) inv.upstream)

pub record NodeInfo : Type 0 where
  pub id : Str
  pub task : Str
  pub upstream : List Str
  pub persist : Bool
  pub run_in : RunIn
  pub retries : ℕ

unfoldable pub node_info : Ids → Dict (List Str) → TaskInvocation → NodeInfo
unfolding effective_up
node_info ids reached inv = record {
  id = inv.name;
  task = inv.task_name;
  upstream = sorted (effective_up ids reached inv);
  persist = inv.definition.persist;
  run_in = inv.definition.run_in;
  retries = inv.definition.retries;
}

pub record Description : Type 0 where
  pub flow : Str
  pub nodes : List NodeInfo
  pub dynamic_fanouts : List FanoutInfo
  pub count : ℕ
  pub dynamic_count : ℕ

unfoldable pub describe : Str → List TaskInvocation → List Placeholder → Result Description
unfolding fanout_ids fanout_infos consumers_by_name all_transitive node_info
describe name invs dfs = do
  let ids = fanout_ids 1 dfs []
  let infos = fanout_infos 1 dfs [] ids invs
  reached ← all_transitive (consumers_by_name invs []) infos
  let nodes = map (node_info ids reached) invs
  ok (record {
    flow = name;
    nodes = nodes;
    dynamic_fanouts = infos;
    count = length nodes;
    dynamic_count = length infos;
  })
