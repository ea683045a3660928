-- ===== src/Build/Register.antt =====
-- `BuildContext.register`: names are never used twice, and every invocation depends on earlier ones
-- alone.
use auto_workflow.Base.{
  ℕ, suc, ◌<◌, ◌≡◌, ◌∙◌, refl, ap, subst, inl, inr, Bool-cases, true, Option-cases, none, some, [],
  ◌∷◌, ◌++◌, Str, ◌==◌, if◌then◌else◌, mem, Subset, map-snoc, eq_iff, Dict, lookup, insert, keys,
  values, insert_absent, lookup-insert, nodup, nodup-keys-insert, decimal, decimal_injective,
  decimal-Lacks, split_unique, arith,
}
use auto_workflow.Task.{TaskDefinition}
use auto_workflow.Build.{
  Values, Items, iter_all, iter_items, TaskInvocation, BuildContext, new_context, counter,
  invocation_name, upstream_of, register,
}
use auto_workflow.Build.Backward.{inv_names, Backward, Backward-snoc}
use auto_workflow.Build.Scan.{names, mem-upstream_of}

-- Two invocation names are equal only if both the task names and the counters are, also where a
-- task's name holds a colon.
pub invocation_name_injective :
    (task task' : Str) (i j : ℕ)
    → invocation_name task i ≡ invocation_name task' j
    → (task ≡ task') × (i ≡ j)
unfolding invocation_name
invocation_name_injective task task' i j e =
    let (front, back) =
      split_unique b':' task task' (decimal i) (decimal j) (decimal-Lacks i) (decimal-Lacks j) e in
    (front, decimal_injective i j back)

-- The invocation stands under its own name, which a counter gave out.
pub record IsIssued (counters : Dict ℕ) (name : Str) (inv : TaskInvocation) : Type 0 where
  pub index : ℕ
  pub own_name : inv.name ≡ name
  pub issued : name ≡ invocation_name inv.task_name index
  pub below : index < counter inv.task_name counters

pub record IsRegistered (ctx : BuildContext) : Type 0 where
  pub entries :
      (name : Str) (inv : TaskInvocation)
      → lookup name ctx.invocations ≡ some inv
      → IsIssued ctx.counters name inv
  pub distinct : nodup (keys ctx.invocations) ≡ true
  pub keyed : inv_names (values ctx.invocations) ≡ keys ctx.invocations

pub new_context-IsRegistered : IsRegistered new_context
unfolding lookup nodup
new_context-IsRegistered = record { entries = λ name inv e. cc; distinct = refl; keyed = refl }

counter-insert :
    (task task' : Str) (counters : Dict ℕ)
    → counter task' (insert task (suc (counter task counters)) counters)
      ≡ (if task' == task then suc (counter task counters) else counter task' counters)
counter-insert task task' counters =
    ground (arith, lookup-insert task' task (suc (counter task counters)) counters)

module _ (task : Str) (args : Values) (kwargs : Items) (definition : TaskDefinition)
    (ctx : BuildContext) where
  abbrev fresh_name : Str
  fresh_name = invocation_name task (counter task ctx.counters)

  pub register-name : (register task args kwargs definition ctx).0.name ≡ fresh_name
  unfolding register
  register-name = refl

  fresh-lookup : IsRegistered ctx → lookup fresh_name ctx.invocations ≡ none
  fresh-lookup r = elim (Option-cases (lookup fresh_name ctx.invocations)) [
    | inl e ↦ e
    | inr (inv, e) ↦
        let issued = r.entries fresh_name inv e in
        let (same, index) =
          invocation_name_injective task inv.task_name (counter task ctx.counters) issued.index
            issued.issued in
        absurd (collide inv issued same index)
  ]
    where
      collide :
          (inv : TaskInvocation) (issued : IsIssued ctx.counters fresh_name inv)
          → task ≡ inv.task_name
          → counter task ctx.counters ≡ issued.index
          → ⊥
      collide inv issued same index =
          omega (arith, index, issued.below, ap (λ t. counter t ctx.counters) same)

  abbrev new_invocation : TaskInvocation
  new_invocation = (register task args kwargs definition ctx).0

  abbrev after : BuildContext
  after = (register task args kwargs definition ctx).1

  register-invocations : after.invocations ≡ insert fresh_name new_invocation ctx.invocations
  unfolding register
  register-invocations = refl

  register-counters : after.counters ≡ insert task (suc (counter task ctx.counters)) ctx.counters
  unfolding register
  register-counters = refl

  register-task_name : new_invocation.task_name ≡ task
  unfolding register
  register-task_name = refl

  register-upstream : new_invocation.upstream ≡ upstream_of args kwargs
  unfolding register
  register-upstream = refl

  -- The name of a new invocation was not in use, so no registered invocation is replaced: a lookup
  -- finds the new one under its name, and what it found before under any other.
  register_fresh :
      IsRegistered ctx
      → (lookup new_invocation.name ctx.invocations ≡ none)
        × ((name : Str)
            → lookup name after.invocations ≡ (
                if name == new_invocation.name
                then some new_invocation
                else lookup name ctx.invocations))
  register_fresh r = (
    rw register-name (fresh-lookup r),
    λ name.
        rw (register-invocations, register-name)
          (lookup-insert name fresh_name new_invocation ctx.invocations),
  )

  register-appended :
      IsRegistered ctx → after.invocations ≡ ctx.invocations ++ (fresh_name, new_invocation) ∷ []
  register-appended r =
      register-invocations
      ∙ insert_absent fresh_name new_invocation ctx.invocations (fresh-lookup r)

  new-IsIssued : IsIssued after.counters new_invocation.name new_invocation
  new-IsIssued = record {
    index = counter task ctx.counters;
    own_name = refl;
    issued = rw (register-name, register-task_name) refl;
    below =
        rw (register-counters, register-task_name)
          (ground (arith, counter-insert task task ctx.counters, eq_iff task task));
  }

  old-IsIssued :
      (name : Str) (inv : TaskInvocation)
      → IsIssued ctx.counters name inv
      → IsIssued after.counters name inv
  old-IsIssued name inv h = record {
    index = h.index;
    own_name = h.own_name;
    issued = h.issued;
    below = rw register-counters (
        ground (
          arith,
          counter-insert task inv.task_name ctx.counters,
          h.below,
          eq_iff inv.task_name task,
        ));
  }

  pub register-IsRegistered : IsRegistered ctx → IsRegistered after
  register-IsRegistered r = record {
    entries = λ name inv e. elim (Bool-cases (name == new_invocation.name)) [
      | inl same ↦
          let found : new_invocation ≡ inv = ground (arith, (register_fresh r).1 name) in
          rw ((eq_iff name new_invocation.name).0 same)
            (subst (IsIssued after.counters new_invocation.name) found new-IsIssued)
      | inr other ↦
          old-IsIssued name inv (r.entries name inv (ground (arith, (register_fresh r).1 name)))
    ];
    keyed = rw (register-appended r, map-snoc, map-snoc, map-snoc, r.keyed, register-name) refl;
    distinct =
        rw register-invocations
          (nodup-keys-insert fresh_name new_invocation ctx.invocations r.distinct);
  }

  -- If the arguments of a call mention registered invocations only, then also the list with the
  -- new invocation has every upstream name before its user.
  pub register-Backward :
      IsRegistered ctx
      → Subset (names (iter_all args)) (keys ctx.invocations)
      → Subset (names (iter_items kwargs)) (keys ctx.invocations)
      → Backward [] (values ctx.invocations)
      → Backward [] (values after.invocations)
  register-Backward r known_args known_kwargs b =
      rw (register-appended r, map-snoc)
        (Backward-snoc [] (values ctx.invocations) new_invocation b
          (λ u m. rw (keyed_names r) (known u (rw register-upstream at m))))
    where
      keyed_names : IsRegistered ctx → inv_names (values ctx.invocations) ≡ keys ctx.invocations
      keyed_names i = i.keyed

      known :
          (u : Str) → mem u (upstream_of args kwargs) ≡ true → mem u (keys ctx.invocations) ≡ true
      known u m = ground (arith, mem-upstream_of u args kwargs, known_args u, known_kwargs u)

-- The contexts that a flow's function can build: each call of a task passes values that mention
-- invocations of this context.
pub data Built : BuildContext → Type 0 where
  start : Built new_context
  call :
      (ctx : BuildContext) (task : Str) (args : Values) (kwargs : Items)
      (definition : TaskDefinition)
      → Built ctx
      → Subset (names (iter_all args)) (keys ctx.invocations)
      → Subset (names (iter_items kwargs)) (keys ctx.invocations)
      → Built (register task args kwargs definition ctx).1

pub Built-IsRegistered : {ctx : BuildContext} → Built ctx → IsRegistered ctx
Built-IsRegistered start = new_context-IsRegistered
Built-IsRegistered (call ctx task args kwargs definition b h k) =
    register-IsRegistered task args kwargs definition ctx (Built-IsRegistered b)

pub Built-Backward : {ctx : BuildContext} → Built ctx → Backward [] (values ctx.invocations)
unfolding Backward
Built-Backward start = tt
Built-Backward (call ctx task args kwargs definition b h k) =
    register-Backward task args kwargs definition ctx (Built-IsRegistered b) h k (Built-Backward b)

-- In a context that calls of tasks have built, the name of a new invocation was not in use: a
-- lookup finds the new invocation under its name, and what it found before under any other.
pub register-Built :
    (task : Str) (args : Values) (kwargs : Items) (definition : TaskDefinition) (ctx : BuildContext)
    → Built ctx
    → (lookup (register task args kwargs definition ctx).0.name ctx.invocations ≡ none)
      × ((name : Str)
          → lookup name (register task args kwargs definition ctx).1.invocations ≡ (
              if name == (register task args kwargs definition ctx).0.name
              then some (register task args kwargs definition ctx).0
              else lookup name ctx.invocations))
register-Built task args kwargs definition ctx built =
    register_fresh task args kwargs definition ctx (Built-IsRegistered built)
