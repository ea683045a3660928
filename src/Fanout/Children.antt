-- ===== src/Fanout/Children.antt =====
-- The invocations that `DynamicFanOut.expand` registers.
use auto_workflow.Base.{
  inl, inr, Bool-cases, ◌≡◌, refl, List, [], ◌∷◌, map, true, ◌||◌, none, some, Str, ◌==◌, eq_iff,
  mem, nodup, Subset, lookup, keys, lookup-none_iff, if◌then◌else◌, arith,
}
use auto_workflow.Task.{TaskDefinition}
use auto_workflow.Build.{
  Value, Values, nil, cons, end, iter_invocations, iter_all, iter_items, TaskInvocation,
  BuildContext, register,
}
use auto_workflow.Build.Backward.{inv_names}
use auto_workflow.Build.Scan.{names, mem-names-append}
use auto_workflow.Build.Register.{Built, call, register-Built}
use auto_workflow.Fanout.{expand}

-- The argument lists `(v,)` of the children.
unfoldable pub singles : Values → List Values
singles nil = []
singles (cons v vs) = cons v nil ∷ singles vs

-- The children of an expansion, and the context behind it.
pub record Expanded (ctx : BuildContext) (vs : Values) (children : List TaskInvocation)
    (last : BuildContext) : Type 0 where
  pub built : Built last
  pub each : map (λ inv. inv.args) children ≡ singles vs
  pub distinct : nodup (inv_names children) ≡ true
  pub fresh : (n : Str) → mem n (inv_names children) ≡ true → lookup n ctx.invocations ≡ none
  pub known : (n : Str) → mem n (inv_names children) ≡ true → mem n (keys last.invocations) ≡ true
  pub kept :
      (n : Str) (inv : TaskInvocation)
      → lookup n ctx.invocations ≡ some inv
      → lookup n last.invocations ≡ some inv

first-Expanded :
    (v : Value) (vs : Values) (inv : TaskInvocation) (ctx ctx' : BuildContext)
    (children : List TaskInvocation) (last : BuildContext)
    → inv.args ≡ cons v nil
    → lookup inv.name ctx.invocations ≡ none
    → ((n : Str)
        → lookup n ctx'.invocations
          ≡ (if n == inv.name then some inv else lookup n ctx.invocations))
    → Expanded ctx' vs children last
    → Expanded ctx (cons v vs) (inv ∷ children) last
unfolding singles nodup mem
first-Expanded v vs inv ctx ctx' children last a f l r = record {
  built = r.built;
  each = rw (a, r.each) refl;
  distinct = ground (arith, r.distinct, r.fresh inv.name, l inv.name, eq_iff inv.name inv.name);
  fresh = λ n m. ground (arith, eq_iff n inv.name, l n, r.fresh n, f);
  known = λ n m. elim (Bool-cases (n == inv.name)) [
    | inl same ↦
        ground
          (arith, same, eq_iff n inv.name, r.kept n inv, l n, lookup-none_iff n last.invocations)
    | inr other ↦ r.known n (ground arith)
  ];
  kept = λ n i e. r.kept n i (ground (arith, l n, eq_iff n inv.name, f, e));
}

module _ (task : Str) (definition : TaskDefinition) (v : Value) (vs : Values) (ctx : BuildContext)
    (b : Built ctx) (s : Subset (names (iter_all (cons v vs))) (keys ctx.invocations)) where
  mentioned :
      (n : Str)
      → mem n (names (iter_all (cons v vs)))
        ≡ (mem n (names (iter_invocations v)) || mem n (names (iter_all vs)))
  unfolding iter_all
  mentioned n = mem-names-append n (iter_invocations v) (iter_all vs)

  own_arguments : Subset (names (iter_all (cons v nil))) (keys ctx.invocations)
  unfolding iter_all mem
  own_arguments n m = s n (ground (arith, mentioned n, mem-names-append n (iter_invocations v) []))

  no_keywords : Subset (names (iter_items end)) (keys ctx.invocations)
  unfolding iter_items mem
  no_keywords n m = absurd (ground arith)

  next-Built : Built (register task (cons v nil) end definition ctx).1
  next-Built = call ctx task (cons v nil) end definition b own_arguments no_keywords

  other_values :
      Subset
        (names (iter_all vs))
        (keys (register task (cons v nil) end definition ctx).1.invocations)
  other_values n m =
      let (f, l) = register-Built task (cons v nil) end definition ctx b in
      ground (
        arith,
        l n,
        s n,
        mentioned n,
        m,
        lookup-none_iff n ctx.invocations,
        lookup-none_iff n (register task (cons v nil) end definition ctx).1.invocations,
      )

register-args :
    (task : Str) (definition : TaskDefinition) (args : Values) (ctx : BuildContext)
    → (register task args end definition ctx).0.args ≡ args
unfolding register
register-args task definition args ctx = refl

-- In a context that calls of tasks have built, expanding a placeholder over values that mention
-- invocations of this context makes one child per value, with it as the only argument; the
-- children have distinct names that were not in use and are now registered, what was registered
-- stays, and the context is again one that calls build.
pub expand-Expanded :
    (task : Str) (definition : TaskDefinition) (vs : Values) (ctx : BuildContext)
    → Built ctx
    → Subset (names (iter_all vs)) (keys ctx.invocations)
    → Expanded ctx vs (expand task definition vs ctx).0 (expand task definition vs ctx).1
unfolding expand singles nodup mem iter_all
expand-Expanded task definition nil ctx b s = record {
  built = b;
  each = refl;
  distinct = refl;
  fresh = λ n m. absurd (ground arith);
  known = λ n m. absurd (ground arith);
  kept = λ n inv e. e;
}
expand-Expanded task definition (cons v vs) ctx b s =
    let next = register task (cons v nil) end definition ctx in
    let (f, l) = register-Built task (cons v nil) end definition ctx b in
    first-Expanded v vs next.0 ctx next.1 _ _ (register-args task definition (cons v nil) ctx) f l (
      expand-Expanded task definition vs next.1 (next-Built task definition v vs ctx b s)
        (other_values task definition v vs ctx b s))
