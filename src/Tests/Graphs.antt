-- ===== src/Tests/Graphs.antt =====
-- Small graphs, a task that fails twice, and a list of invocations to sequence.
use auto_workflow.Base.{
  ℕ, zero, suc, ◌≡◌, ◌⊎◌, refl, false, none, some, List, [], ◌∷◌, ◌++◌, if◌then◌else◌, Str, codes,
  ◌==◌, eq_iff, mem, pos, lookup, arith, adjust, insert, sorted, insort, set_add, str_le,
}
use auto_workflow.Exceptions.{Exn, builtin_timeout, cycle_detected, user_error, ok, raise}
use auto_workflow.Dag.{Dag, add_edge, topological_sort}
use auto_workflow.Dag.Edges.{
  up-empty, IsConsistent, empty-IsConsistent, add_edge-IsConsistent, mem-up-add_edge,
  mem-keys-add_edge,
}
use auto_workflow.Dag.Order.{IsOrder, IsBlocked, topological_sort_cases}
use auto_workflow.Dag.Deterministic.{SameGraph, IsRanked, topological_sort_deterministic}
use auto_workflow.Flow.Graph.{mem-nil}
use auto_workflow.Task.{
  TaskDefinition, Attempts, async, invoked, attempt_result, run, wait_for, invoke,
}
use auto_workflow.Task.Retry.{LeavesAs, Fails, retries_from, run_succeeds, run_exhausts}

abbrev a : Str
a = codes "a"

abbrev b : Str
b = codes "b"

abbrev c : Str
c = codes "c"

abbrev fork : Dag
fork = add_edge a b (add_edge a c [])

abbrev fork' : Dag
fork' = add_edge a c (add_edge a b [])

abbrev triangle : Dag
triangle = add_edge c a (add_edge b c (add_edge a b []))

fork-sorts : topological_sort fork ≡ ok (a ∷ b ∷ c ∷ [])
unfolding topological_sort add_edge adjust mem insert ◌==◌ sorted insort set_add lookup str_le
fork-sorts = refl

triangle-blocks : topological_sort triangle ≡ raise (cycle_detected (a ∷ b ∷ c ∷ []))
unfolding topological_sort add_edge adjust mem insert ◌==◌ sorted insort set_add lookup str_le
triangle-blocks = refl

fork-IsConsistent : IsConsistent fork
fork-IsConsistent =
    add_edge-IsConsistent a b (add_edge a c []) (add_edge-IsConsistent a c [] empty-IsConsistent)

fork'-IsConsistent : IsConsistent fork'
fork'-IsConsistent =
    add_edge-IsConsistent a c (add_edge a b []) (add_edge-IsConsistent a b [] empty-IsConsistent)

topological_sort_cases_example :
    ((order : List Str) × (topological_sort fork ≡ ok order) × IsOrder fork order)
    ⊎ ((names : List Str) × (topological_sort fork ≡ raise (cycle_detected names))
        × IsBlocked fork names)
topological_sort_cases_example = topological_sort_cases fork fork-IsConsistent

fork-SameGraph : SameGraph fork fork'
fork-SameGraph = record {
  nodes = λ n. ground (
    arith,
    mem-keys-add_edge a b (add_edge a c []) n,
    mem-keys-add_edge a c [] n,
    mem-keys-add_edge a c (add_edge a b []) n,
    mem-keys-add_edge a b [] n,
  );
  edges = λ u v. ground (
    arith,
    mem-up-add_edge a b (add_edge a c []) u v,
    mem-up-add_edge a c [] u v,
    mem-up-add_edge a c (add_edge a b []) u v,
    mem-up-add_edge a b [] u v,
  );
}

topological_sort_deterministic_example : topological_sort fork ≡ topological_sort fork'
topological_sort_deterministic_example =
    topological_sort_deterministic fork fork' fork-SameGraph fork-IsConsistent fork'-IsConsistent

abbrev rank : Str → ℕ
rank n = if n == a then 0 else 1

b-a : (b == a) ≡ false
unfolding ◌==◌
b-a = refl

c-a : (c == a) ≡ false
unfolding ◌==◌
c-a = refl

fork-IsRanked : IsRanked rank fork
unfolding IsRanked
fork-IsRanked u v m = ground (
  arith,
  mem-up-add_edge a b (add_edge a c []) u v,
  mem-up-add_edge a c [] u v,
  up-empty v,
  mem-nil u,
  eq_iff v b,
  eq_iff v c,
  b-a,
  c-a,
)

-- Two retries, with backoffs of 3 and 6 and no jitter.
abbrev fetch : TaskDefinition
fetch = record {
  name = codes "fetch";
  retries = 2;
  retry_backoff = 3;
  timeout = some 10;
  cache_ttl = none;
  run_in = async;
  persist = false;
  priority = pos 0;
}

abbrev no_jitter : ℕ → ℕ
no_jitter n = 0

abbrev third_time : Attempts ℕ
third_time zero = (1, raise (user_error 0))
third_time (suc zero) = (20, ok 5)
third_time (suc (suc n)) = (2, ok 7)

run_succeeds_example :
    run fetch no_jitter third_time
    ≡ (ok 7, retries_from fetch no_jitter third_time 0 2 ++ invoked 2 ∷ [])
unfolding Fails attempt_result
run_succeeds_example =
    run_succeeds fetch no_jitter third_time 2 7 (omega arith) ((_, refl), ((_, refl), tt)) refl

-- The last call takes longer than the timeout.
abbrev slow : Attempts ℕ
slow n = (20, ok n)

run_exhausts_example :
    (y : Exn) × LeavesAs fetch.name builtin_timeout y
    × (run fetch no_jitter slow
        ≡ (raise y, retries_from fetch no_jitter slow 0 2 ++ invoked 2 ∷ []))
unfolding Fails attempt_result wait_for invoke
run_exhausts_example =
    run_exhausts fetch no_jitter slow builtin_timeout ((_, refl), ((_, refl), tt)) refl
