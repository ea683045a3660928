-- ===== src/Describe/Reach.antt =====
-- The work list of `describe` finds exactly the transitive consumers, and ends.
use auto_workflow.Base.{
  ℕ, zero, suc, ◌+◌, ◌≤◌, ◌≡◌, ◌∙◌, ◌↔◌, refl, sym, ap, inl, inr, Bool-cases, true, false, not,
  ◌&&◌, ◌||◌, List, [], ◌∷◌, ◌++◌, if◌then◌else◌, length, Str, ◌==◌, eq_iff, mem, mem-append, Dict,
  lookup, insert, lookup-insert, arith,
}
use auto_workflow.Exceptions.{ok}
use auto_workflow.Build.{TaskInvocation}
use auto_workflow.Flow.Graph.{wants}
use auto_workflow.Describe.{
  get_names, add_consumer, consumers_by_name, push_new, reach, entries, stack_of,
  transitive_consumers,
}

-- Reachable from the direct consumers along the map.
data Reaches (adj : Dict (List Str)) (direct : List Str) : Str → Type 0 where
  start : (n : Str) → mem n direct ≡ true → Reaches adj direct n
  next : (u n : Str) → Reaches adj direct u → mem n (get_names u adj) ≡ true → Reaches adj direct n

-- What the entries of the names not yet seen can still push.
unseen : Dict (List Str) → List Str → ℕ
unseen [] seen = 0
unseen ((k, names) ∷ adj) seen = (if mem k seen then 0 else length names) + unseen adj seen

unseen-nil : (adj : Dict (List Str)) → unseen adj [] ≡ entries adj
unfolding unseen entries mem
unseen-nil [] = refl
unseen-nil ((k, names) ∷ adj) = ground (arith, unseen-nil adj)

unseen-cons-le :
    (adj : Dict (List Str)) (cur : Str) (seen : List Str)
    → unseen adj (cur ∷ seen) ≤ unseen adj seen
unfolding unseen mem
unseen-cons-le [] cur seen = omega arith
unseen-cons-le ((k, names) ∷ adj) cur seen = ground (arith, unseen-cons-le adj cur seen)

unseen-cons :
    (adj : Dict (List Str)) (cur : Str) (seen : List Str)
    → mem cur seen ≡ false
    → unseen adj (cur ∷ seen) + length (get_names cur adj) ≤ unseen adj seen
unfolding unseen mem lookup
unseen-cons [] cur seen m = omega arith
unseen-cons ((k, names) ∷ adj) cur seen m =
    ground
      (arith, unseen-cons adj cur seen, unseen-cons-le adj cur seen, eq_iff cur k, eq_iff k cur)

length-push_new :
    (ns seen work : List Str) → length (push_new ns seen work) ≤ length ns + length work
unfolding push_new
length-push_new [] seen work = omega arith
length-push_new (n ∷ ns) seen work =
    ground (arith, length-push_new ns seen (if mem n seen then work else n ∷ work))

mem-push_new :
    (x : Str) (ns seen work : List Str)
    → mem x (push_new ns seen work) ≡ (mem x work || (mem x ns && not (mem x seen)))
unfolding push_new mem
mem-push_new x [] seen work = ground arith
mem-push_new x (n ∷ ns) seen work =
    ground (arith, mem-push_new x ns seen (if mem n seen then work else n ∷ work), eq_iff x n)

record Found (adj : Dict (List Str)) (direct seen work : List Str) : Type 0 where
  seen_reached : (n : Str) → mem n seen ≡ true → Reaches adj direct n
  work_reached : (n : Str) → mem n work ≡ true → Reaches adj direct n
  closed :
      (u n : Str)
      → mem u seen ≡ true
      → mem n (get_names u adj) ≡ true
      → (mem n seen || mem n work) ≡ true
  begun : (n : Str) → mem n direct ≡ true → (mem n seen || mem n work) ≡ true

module _ (adj : Dict (List Str)) (direct : List Str) where
  skip-Found :
      (cur : Str) (work seen : List Str)
      → mem cur seen ≡ true
      → Found adj direct seen (cur ∷ work)
      → Found adj direct seen work
  unfolding mem
  skip-Found cur work seen m f = record {
    seen_reached = f.seen_reached;
    work_reached = λ n h. f.work_reached n (ground arith);
    closed = λ u n h k. ground (arith, f.closed u n, eq_iff n cur);
    begun = λ n h. ground (arith, f.begun n, eq_iff n cur);
  }

  visit-Found :
      (cur : Str) (work seen : List Str)
      → Found adj direct seen (cur ∷ work)
      → Found adj direct (cur ∷ seen) (push_new (get_names cur adj) (cur ∷ seen) work)
  unfolding mem
  visit-Found cur work seen f = record {
    seen_reached = λ n h. elim (Bool-cases (n == cur)) [
      | inl same ↦ f.work_reached n (ground arith)
      | inr other ↦ f.seen_reached n (ground arith)
    ];
    work_reached = λ n h. elim (Bool-cases (mem n work)) [
      | inl old ↦ f.work_reached n (ground arith)
      | inr new ↦
          next cur n (f.work_reached cur (ground (arith, eq_iff cur cur)))
            (ground (arith, mem-push_new n (get_names cur adj) (cur ∷ seen) work))
    ];
    closed = λ u n h k. elim (Bool-cases (u == cur)) [
      | inl same ↦ ground (
        arith,
        mem-push_new n (get_names cur adj) (cur ∷ seen) work,
        ap (λ w. mem n (get_names w adj)) ((eq_iff u cur).0 same),
      )
      | inr other ↦
          ground (arith, f.closed u n, mem-push_new n (get_names cur adj) (cur ∷ seen) work)
    ];
    begun = λ n h. ground (arith, f.begun n, mem-push_new n (get_names cur adj) (cur ∷ seen) work);
  }

  reach_finds :
      (fuel : ℕ) (work seen : List Str)
      → length work + unseen adj seen ≤ fuel
      → Found adj direct seen work
      → (out : List Str) × (reach fuel adj work seen ≡ ok out) × Found adj direct out []
  unfolding reach
  reach_finds fuel [] seen h f = (seen, refl, f)
  reach_finds zero (cur ∷ work) seen h f = absurd (omega arith)
  reach_finds (suc fuel) (cur ∷ work) seen h f = elim (Bool-cases (mem cur seen)) [
    | inl old ↦
        rw (old, reach) (reach_finds fuel work seen (omega arith) (skip-Found cur work seen old f))
    | inr new ↦
        rw (new, reach)
          (reach_finds fuel (push_new (get_names cur adj) (cur ∷ seen) work) (cur ∷ seen)
            (omega (
              arith,
              length-push_new (get_names cur adj) (cur ∷ seen) work,
              unseen-cons adj cur seen new,
            ))
            (visit-Found cur work seen f))
  ]

  Found-closed :
      (out : List Str)
      → Found adj direct out []
      → (n : Str) → Reaches adj direct n
      → mem n out ≡ true
  unfolding mem
  Found-closed out f n (start _ h) = ground (arith, f.begun n)
  Found-closed out f n (next u _ r h) = ground (arith, f.closed u n, Found-closed out f u r)

mem-stack_of : (x : Str) (ns work : List Str) → mem x (stack_of ns work) ≡ (mem x ns || mem x work)
unfolding stack_of mem
mem-stack_of x [] work = refl
mem-stack_of x (n ∷ ns) work = ground (arith, mem-stack_of x ns (n ∷ work))

length-stack_of : (ns work : List Str) → length (stack_of ns work) ≡ length ns + length work
unfolding stack_of
length-stack_of [] work = omega arith
length-stack_of (n ∷ ns) work = omega (arith, length-stack_of ns (n ∷ work))

start-Found : (adj : Dict (List Str)) (direct : List Str) → Found adj direct [] (stack_of direct [])
unfolding mem
start-Found adj direct = record {
  seen_reached = λ n h. absurd (ground arith);
  work_reached = λ n h. start n (ground (arith, mem-stack_of n direct []));
  closed = λ u n h k. absurd (ground arith);
  begun = λ n h. ground (arith, mem-stack_of n direct []);
}

mem-add_consumer :
    (us : List Str) (name : Str) (d : Dict (List Str)) (u n : Str)
    → mem n (get_names u (add_consumer us name d))
      ≡ (mem u us && n == name || mem n (get_names u d))
unfolding add_consumer mem
mem-add_consumer [] name d u n = refl
mem-add_consumer (w ∷ us) name d u n =
    let rest = mem-add_consumer us name (insert w (get_names w d ++ name ∷ []) d) u n in
    let here = lookup-insert u w (get_names w d ++ name ∷ []) d in
    let appended = mem-append n (get_names w d) (name ∷ []) in
    elim (Bool-cases (u == w)) [
      | inl same ↦
          ground
            (arith, rest, here, appended, ap (λ k. mem n (get_names k d)) ((eq_iff u w).0 same))
      | inr other ↦ ground (arith, rest, here)
    ]

mem-consumers_by_name :
    (invs : List TaskInvocation) (d : Dict (List Str)) (u n : Str)
    → mem n (get_names u (consumers_by_name invs d)) ≡ (wants u n invs || mem n (get_names u d))
unfolding consumers_by_name wants
mem-consumers_by_name [] d u n = refl
mem-consumers_by_name (inv ∷ invs) d u n = ground (
  arith,
  mem-consumers_by_name invs (add_consumer inv.upstream inv.name d) u n,
  mem-add_consumer inv.upstream inv.name d u n,
)

-- The invocations that a barrier with these direct consumers holds up: they, and all that depend on
-- them over any number of steps.
pub data Consumes (invs : List TaskInvocation) (direct : List Str) : Str → Type 0 where
  consumer : (n : Str) → mem n direct ≡ true → Consumes invs direct n
  dependent : (u n : Str) → Consumes invs direct u → wants u n invs ≡ true → Consumes invs direct n

module _ (invs : List TaskInvocation) (direct : List Str) where
  abbrev by_name : Dict (List Str)
  by_name = consumers_by_name invs []

  edge : (u n : Str) → mem n (get_names u by_name) ≡ wants u n invs
  unfolding lookup mem
  edge u n = ground (arith, mem-consumers_by_name invs [] u n)

  Consumes-Reaches : (n : Str) → Reaches by_name direct n → Consumes invs direct n
  Consumes-Reaches n (start _ h) = consumer n h
  Consumes-Reaches n (next u _ r h) = dependent u n (Consumes-Reaches u r) (sym (edge u n) ∙ h)

  Reaches-Consumes : (n : Str) → Consumes invs direct n → Reaches by_name direct n
  Reaches-Consumes n (consumer _ h) = start n h
  Reaches-Consumes n (dependent u _ c w) = next u n (Reaches-Consumes u c) (edge u n ∙ w)

  -- For all invocations and direct consumers of a barrier the work list of describe runs empty,
  -- and the names it has seen are exactly the direct consumers and what depends on them over any
  -- number of steps.
  pub transitive_consumers-Consumes :
      (out : List Str) × (transitive_consumers by_name direct ≡ ok out)
      × ((n : Str) → (mem n out ≡ true) ↔ Consumes invs direct n)
  unfolding transitive_consumers
  transitive_consumers-Consumes =
      let (out, ends, f) =
        reach_finds by_name direct (length direct + entries by_name) (stack_of direct []) []
          (omega (arith, length-stack_of direct [], unseen-nil by_name))
          (start-Found by_name direct) in
      (
        out,
        ends,
        λ n. (
          (λ h. Consumes-Reaches n (f.seen_reached n h)),
          λ c. Found-closed by_name direct out f n (Reaches-Consumes n c),
        ),
      )
