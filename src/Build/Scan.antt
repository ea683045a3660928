-- ===== src/Build/Scan.antt =====
-- Which names the traversals of `register` find.
use auto_workflow.Base.{
  ◌≡◌, ◌⊎◌, refl, Bool, true, false, ◌||◌, List, [], ◌∷◌, ◌++◌, map, Str, mem, set_add, mem-set_add,
  arith,
}
use auto_workflow.Build.{
  Value, invocation, fan, list_of, tuple_of, set_of, dict_of, text, atom, Values, nil, cons, Items,
  end, item, Ref, iter_invocations, iter_all, iter_items, scan_source, scan, scan_all, scan_values,
  add_names, upstream_of,
}

abbrev pub names : List Ref → List Str
names = map (λ r. r.name)

pub mem-names-append :
    (u : Str) (a b : List Ref) → mem u (names (a ++ b)) ≡ (mem u (names a) || mem u (names b))
unfolding mem
mem-names-append u [] b = refl
mem-names-append u (r ∷ a) b = ground (arith, mem-names-append u a b)

mem-add_names :
    (u : Str) (rs : List Ref) (up : List Str)
    → mem u (add_names rs up) ≡ (mem u (names rs) || mem u up)
unfolding mem add_names
mem-add_names u [] up = refl
mem-add_names u (r ∷ rs) up =
    ground (arith, mem-add_names u rs (set_add r.name up), mem-set_add u r.name up)

-- A scan keeps what was found, and finds only what `iter_invocations` yields.
abbrev Grows : Str → List Str → List Str → List Ref → Type 0
Grows u before after rs =
    (mem u before ≡ true → mem u after ≡ true)
    × (mem u after ≡ true → (mem u before ≡ true) ⊎ (mem u (names rs) ≡ true))

scan_source-Grows :
    (u : Str) (v : Value) (up : List Str) (live : Bool)
    → Grows u up (scan_source v (up, live)).0 (iter_invocations v)
unfolding scan_source iter_invocations mem
scan_source-Grows u (invocation n a k) up true = ground (arith, mem-set_add u n up)
scan_source-Grows u (invocation n a k) up false = ground arith
scan_source-Grows u _ up true = ground arith
scan_source-Grows u _ up false = ground arith

mutual
  unfolding scan iter_invocations mem

  scan-Grows :
      (u : Str) (v : Value) (s : List Str × Bool) → Grows u s.0 (scan v s).0 (iter_invocations v)
  scan-Grows u (invocation n a k) s = ground arith
  scan-Grows u (fan i source c) s = ground (
    arith,
    scan_source-Grows u source s.0 s.1,
    mem-names-append u (iter_invocations source) (iter_all c),
  )
  scan-Grows u (list_of vs) s = scan_all-Grows u vs s
  scan-Grows u (tuple_of vs) s = scan_all-Grows u vs s
  scan-Grows u (set_of vs) s = scan_all-Grows u vs s
  scan-Grows u (dict_of d) s = scan_values-Grows u d s
  scan-Grows u (text t) s = ground arith
  scan-Grows u (atom n) s = ground arith

  scan_all-Grows :
      (u : Str) (vs : Values) (s : List Str × Bool) → Grows u s.0 (scan_all vs s).0 (iter_all vs)
  scan_all-Grows u nil s = ground arith
  scan_all-Grows u (cons v vs) s = ground (
    arith,
    scan-Grows u v s,
    scan_all-Grows u vs (scan v s),
    mem-names-append u (iter_invocations v) (iter_all vs),
  )

  scan_values-Grows :
      (u : Str) (d : Items) (s : List Str × Bool) → Grows u s.0 (scan_values d s).0 (iter_items d)
  scan_values-Grows u end s = ground arith
  scan_values-Grows u (item k v d) s = ground (
    arith,
    scan-Grows u v s,
    scan_values-Grows u d (scan v s),
    mem-names-append u (iter_invocations k ++ iter_invocations v) (iter_items d),
    mem-names-append u (iter_invocations k) (iter_invocations v),
  )

iter-pair :
    (u : Str) (args : Values) (kwargs : Items)
    → mem u (names (iter_invocations (tuple_of (cons (tuple_of args) (cons (dict_of kwargs) nil)))))
      ≡ (mem u (names (iter_all args)) || mem u (names (iter_items kwargs)))
unfolding iter_invocations mem
iter-pair u args kwargs = ground (
  arith,
  mem-names-append u (iter_all args) (iter_items kwargs ++ []),
  mem-names-append u (iter_items kwargs) [],
)

iter-tuple : (args : Values) → iter_invocations (tuple_of args) ≡ iter_all args
unfolding iter_invocations
iter-tuple args = refl

iter-dict : (d : Items) → iter_invocations (dict_of d) ≡ iter_items d
unfolding iter_invocations
iter-dict d = refl

-- The upstream set of a new invocation holds exactly the names of the invocations that its
-- positional and keyword arguments mention at any depth; the scan for placeholders adds none.
pub mem-upstream_of :
    (u : Str) (args : Values) (kwargs : Items)
    → mem u (upstream_of args kwargs)
      ≡ (mem u (names (iter_all args)) || mem u (names (iter_items kwargs)))
unfolding upstream_of mem
mem-upstream_of u args kwargs =
    let both = iter_invocations (tuple_of (cons (tuple_of args) (cons (dict_of kwargs) nil))) in
    let found : List Str × Bool = (add_names both [], true) in
    ground (
      arith,
      mem-add_names u both [],
      iter-pair u args kwargs,
      iter-tuple args,
      iter-dict kwargs,
      scan-Grows u (tuple_of args) found,
      scan-Grows u (dict_of kwargs) (scan (tuple_of args) found),
    )
