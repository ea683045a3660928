-- ===== src/Build.antt =====
-- auto_workflow/build.py and fanout.py: invocations, the values that hold them, and the context in
-- which a flow's tasks are registered.
pub mod Scan
pub mod Backward
pub mod Register
use auto_workflow.Base.{
  ℕ, zero, suc, ◌+◌, List, [], ◌∷◌, ◌++◌, map, Bool, ◌&&◌, true, false, Option, none, some,
  if◌then◌else◌, Str, set_add, Dict, lookup, insert, decimal,
}
use auto_workflow.Exceptions.{Exn, key_error, type_error, Result, ok, raise, ◌>>=◌}
use auto_workflow.Task.{TaskDefinition}

-- A Python value, as far as the code looks into it. An invocation is written with its name, its
-- arguments and its keyword arguments, which do not change while a flow is built; a DynamicFanOut
-- with its identity, its source and its children.
mutual
  pub data Value : Type 0 where
    invocation : Str → Values → Items → Value
    fan : ℕ → Value → Values → Value
    list_of : Values → Value
    tuple_of : Values → Value
    set_of : Values → Value
    dict_of : Items → Value
    text : Str → Value
    atom : ℕ → Value

  pub data Values : Type 0 where
    nil : Values
    cons : Value → Values → Values

  pub data Items : Type 0 where
    end : Items
    item : Value → Value → Items → Items

-- A TaskInvocation as `iter_invocations` yields it.
pub record Ref : Type 0 where
  pub name : Str
  pub args : Values
  pub kwargs : Items

unfoldable mutual
  pub iter_invocations : Value → List Ref
  iter_invocations (invocation n args kwargs) =
      record { name = n; args = args; kwargs = kwargs } ∷ iter_all args ++ iter_values kwargs
  iter_invocations (fan i source children) = iter_invocations source ++ iter_all children
  iter_invocations (list_of vs) = iter_all vs
  iter_invocations (tuple_of vs) = iter_all vs
  iter_invocations (set_of vs) = iter_all vs
  iter_invocations (dict_of d) = iter_items d
  iter_invocations (text s) = []
  iter_invocations (atom n) = []

  pub iter_all : Values → List Ref
  iter_all nil = []
  iter_all (cons v vs) = iter_invocations v ++ iter_all vs

  -- `for item in kwargs.values()`
  pub iter_values : Items → List Ref
  iter_values end = []
  iter_values (item k v d) = iter_invocations v ++ iter_values d

  -- `for k, v in obj.items()`
  pub iter_items : Items → List Ref
  iter_items end = []
  iter_items (item k v d) = iter_invocations k ++ iter_invocations v ++ iter_items d

-- `inv.upstream.add(obj._source.name)`: an AttributeError, at a source with no name, is caught
-- around the whole scan and ends it. The flag says that the scan still runs.
unfoldable pub scan_source : Value → List Str × Bool → List Str × Bool
scan_source v (up, false) = (up, false)
scan_source (invocation n args kwargs) (up, true) = (set_add n up, true)
scan_source v (up, true) = (up, false)

unfoldable mutual
  unfolding scan_source

  pub scan : Value → List Str × Bool → List Str × Bool
  scan (fan i source children) s = scan_source source s
  scan (list_of vs) s = scan_all vs s
  scan (tuple_of vs) s = scan_all vs s
  scan (set_of vs) s = scan_all vs s
  scan (dict_of d) s = scan_values d s
  scan (invocation n args kwargs) s = s
  scan (text t) s = s
  scan (atom n) s = s

  pub scan_all : Values → List Str × Bool → List Str × Bool
  scan_all nil s = s
  scan_all (cons v vs) s = scan_all vs (scan v s)

  pub scan_values : Items → List Str × Bool → List Str × Bool
  scan_values end s = s
  scan_values (item k v d) s = scan_values d (scan v s)

-- What `hash` accepts: a list, a set, a dict and a DynamicFanOut have no hash, a tuple has one if
-- its elements have; `hashes` says it of the other objects.
module _ (hashes : ℕ → Bool) where
  unfoldable mutual
    pub hashable : Value → Bool
    hashable (invocation n args kwargs) = true
    hashable (fan i source children) = false
    hashable (list_of vs) = false
    hashable (tuple_of vs) = all_hashable vs
    hashable (set_of vs) = false
    hashable (dict_of d) = false
    hashable (text s) = true
    hashable (atom n) = hashes n

    pub all_hashable : Values → Bool
    all_hashable nil = true
    all_hashable (cons v vs) = hashable v && all_hashable vs

  -- An element of a set or a key of a dict.
  unfoldable pub hashed : Value → Result Value
  unfolding hashable
  hashed v = if hashable v then ok v else raise type_error

  -- `replace_invocations(struct, results)`; a DynamicFanOut is a list of its children. Equal elements
  -- of a set and equal keys of a dict are not merged.
  unfoldable mutual
    unfolding hashed

    pub replace_invocations : Value → Dict Value → Result Value
    replace_invocations (invocation n args kwargs) results = elim (lookup n results) [
      | none ↦ raise (key_error n)
      | some v ↦ ok v
    ]
    replace_invocations (fan i source children) results = do
      vs ← replace_all children results
      ok (list_of vs)
    replace_invocations (list_of vs) results = do ws ← replace_all vs results; ok (list_of ws)
    replace_invocations (tuple_of vs) results = do ws ← replace_all vs results; ok (tuple_of ws)
    replace_invocations (set_of vs) results = do ws ← replace_set vs results; ok (set_of ws)
    replace_invocations (dict_of d) results = do e ← replace_items d results; ok (dict_of e)
    replace_invocations (text s) results = ok (text s)
    replace_invocations (atom n) results = ok (atom n)

    pub replace_all : Values → Dict Value → Result Values
    replace_all nil results = ok nil
    replace_all (cons v vs) results = do
      w ← replace_invocations v results
      ws ← replace_all vs results
      ok (cons w ws)

    -- Each element is added before the next one is replaced.
    pub replace_set : Values → Dict Value → Result Values
    replace_set nil results = ok nil
    replace_set (cons v vs) results = do
      w ← replace_invocations v results
      u ← hashed w
      ws ← replace_set vs results
      ok (cons u ws)

    -- A key is hashed after its value has been replaced.
    pub replace_items : Items → Dict Value → Result Items
    replace_items end results = ok end
    replace_items (item k v d) results = do
      k' ← replace_invocations k results
      v' ← replace_invocations v results
      u ← hashed k'
      e ← replace_items d results
      ok (item u v' e)

-- `collect_invocations(struct)`: a later invocation of a name takes its place.
unfoldable pub collect : List Ref → Dict Ref → Dict Ref
collect [] seen = seen
collect (r ∷ rs) seen = collect rs (insert r.name r seen)

unfoldable pub collect_invocations : Value → List Ref
unfolding collect
collect_invocations v = map (λ e. e.1) (collect (iter_invocations v) [])

pub record TaskInvocation : Type 0 where
  pub name : Str
  pub task_name : Str
  pub args : Values
  pub kwargs : Items
  pub definition : TaskDefinition
  pub upstream : List Str

-- `BuildContext`: the registered invocations, and for each task name the next value of its counter.
-- (The placeholders stand in the values.)
pub record BuildContext : Type 0 where
  pub invocations : Dict TaskInvocation
  pub counters : Dict ℕ

abbrev pub new_context : BuildContext
new_context = record { invocations = []; counters = [] }

-- The next value of a counter, which starts at 1.
abbrev pub counter : Str → Dict ℕ → ℕ
counter task counters = elim (lookup task counters) [ none ↦ 1 | some n ↦ n ]

-- f"{task_name}:{idx}"
unfoldable pub invocation_name : Str → ℕ → Str
invocation_name task idx = task ++ b':' ∷ decimal idx

unfoldable pub next_id : Str → BuildContext → Str × BuildContext
unfolding invocation_name
next_id task ctx =
    let idx = counter task ctx.counters in
    (invocation_name task idx, record ctx { counters = insert task (suc idx) ctx.counters })

-- `for dep in …: inv.upstream.add(dep.name)`
unfoldable pub add_names : List Ref → List Str → List Str
add_names [] up = up
add_names (r ∷ rs) up = add_names rs (set_add r.name up)

-- The upstream set of a new invocation: what its arguments hold, then the scan for placeholders.
unfoldable pub upstream_of : Values → Items → List Str
unfolding add_names
upstream_of args kwargs =
    let found =
      add_names (iter_invocations (tuple_of (cons (tuple_of args) (cons (dict_of kwargs) nil))))
        [] in
    (scan (dict_of kwargs) (scan (tuple_of args) (found, true))).0

unfoldable pub register :
    Str → Values → Items → TaskDefinition → BuildContext → TaskInvocation × BuildContext
unfolding next_id
register task args kwargs definition ctx =
    let (name, ctx') = next_id task ctx in
    let inv : TaskInvocation = record {
      name = name;
      task_name = task;
      args = args;
      kwargs = kwargs;
      definition = definition;
      upstream = upstream_of args kwargs;
    } in
    (inv, record ctx' { invocations = insert name inv ctx'.invocations })
