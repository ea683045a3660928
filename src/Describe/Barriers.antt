-- ===== src/Describe/Barriers.antt =====
-- Which barriers a described node waits for.
use auto_workflow.Base.{
  ℕ, suc, ◌≡◌, ◌∙◌, ◌↔◌, refl, sym, ap, subst, inl, inr, Bool, Bool-cases, true, false, ◌&&◌, ◌||◌,
  Option, none, some, List, [], ◌∷◌, ◌++◌, map, if◌then◌else◌, length, any, Str, ◌==◌, eq_iff, mem,
  mem-append, mem-sorted, set_add, set_discard, mem-set_add, mem-set_discard, Dict, arith,
}
use auto_workflow.Exceptions.{ok}
use auto_workflow.Build.{Value, TaskInvocation}
use auto_workflow.Describe.{
  Placeholder, FanoutInfo, Ids, get_id, fanout_id, fanout_ids, fans, consumed_by, direct_consumers,
  fanout_infos, consumers_by_name, all_transitive, source_name, discard_source, rewire, add_reached,
  effective_up, node_info, Description, describe,
}
use auto_workflow.Describe.Reach.{Consumes, consumer, transitive_consumers-Consumes}

-- `fid` is in the map with `name` among what it reaches.
reached_via : Str → Str → Dict (List Str) → Bool
reached_via fid name = any (λ e. fid == e.0 && mem name e.1)

mem-add_reached :
    (fid name : Str) (reached : Dict (List Str)) (up : List Str)
    → mem fid (add_reached name reached up) ≡ (reached_via fid name reached || mem fid up)
unfolding add_reached reached_via
mem-add_reached fid name [] up = refl
mem-add_reached fid name ((f, seen) ∷ reached) up = ground (
  arith,
  mem-add_reached fid name reached (if mem name seen then set_add f up else up),
  mem-set_add fid f up,
)

mem-discard_source :
    (u : Str) (source : Value) (up : List Str)
    → mem u up ≡ false
    → mem u (discard_source source up) ≡ false
mem-discard_source u source up h = by_name (source_name source)
  where
    by_name : (o : Option Str) → mem u (elim o [ none ↦ up | some n ↦ set_discard n up ]) ≡ false
    by_name none = h
    by_name (some n) = ground (arith, mem-set_discard u n up)

-- What `rewire` adds are the ids of the placeholders that the invocation consumes.
mem-rewire :
    (u name : Str) (ids : Ids) (fs : List (ℕ × Value)) (up : List Str)
    → mem u up ≡ false
    → mem name (consumed_by ids u name fs) ≡ false
    → mem u (rewire ids fs up) ≡ false
unfolding rewire consumed_by mem
mem-rewire u name ids [] up h k = h
mem-rewire u name ids ((i, source) ∷ fs) up h k = by_id (get_id i ids) (mem-rewire u name ids fs) k
  where
    by_id :
        (o : Option Str)
        → ((up' : List Str)
            → mem u up' ≡ false
            → mem name (consumed_by ids u name fs) ≡ false
            → mem u (rewire ids fs up') ≡ false)
        → mem name (elim o [
          | none ↦ consumed_by ids u name fs
          | some f ↦ (if f == u then name ∷ [] else []) ++ consumed_by ids u name fs
        ])
          ≡ false
        → mem u (
            rewire ids fs (elim o [
              | none ↦ discard_source source up
              | some fid ↦ set_add fid (discard_source source up)
            ]))
          ≡ false
    by_id none rest k' = rest (discard_source source up) (mem-discard_source u source up h) k'
    by_id (some f) rest k' =
        rest (set_add f (discard_source source up))
          (ground (
            arith,
            mem-set_add u f (discard_source source up),
            mem-discard_source u source up h,
            eq_iff u f,
            eq_iff f u,
            eq_iff name name,
          ))
          (ground
            (arith, mem-append name (if f == u then name ∷ [] else []) (consumed_by ids u name fs)))

consumed_by-direct :
    (ids : Ids) (fid n : Str) (front back : List TaskInvocation) (inv : TaskInvocation)
    → mem n (consumed_by ids fid inv.name (fans inv)) ≡ true
    → mem n (direct_consumers ids fid (front ++ inv ∷ back)) ≡ true
unfolding direct_consumers
consumed_by-direct ids fid n [] back inv h =
    ground (
      arith,
      mem-append n (consumed_by ids fid inv.name (fans inv)) (direct_consumers ids fid back),
    )
consumed_by-direct ids fid n (i ∷ front) back inv h = ground (
  arith,
  mem-append n (consumed_by ids fid i.name (fans i))
      (direct_consumers ids fid (front ++ inv ∷ back)),
  consumed_by-direct ids fid n front back inv,
)

-- The ids of the placeholders.
abbrev pub info_ids : List FanoutInfo → List Str
info_ids = map (λ fi. fi.id)

module _ (ids : Ids) (invs : List TaskInvocation) where
  -- Each entry lists the consumers of its id.
  HasConsumers : List FanoutInfo → Type 0
  HasConsumers [] = Unit
  HasConsumers (fi ∷ infos) = (fi.consumers ≡ direct_consumers ids fi.id invs) × HasConsumers infos

  fanout_infos-HasConsumers :
      (idx : ℕ) (dfs : List Placeholder) (known : Ids)
      → HasConsumers (fanout_infos idx dfs known ids invs)
  unfolding fanout_infos HasConsumers
  fanout_infos-HasConsumers idx [] known = tt
  fanout_infos-HasConsumers idx (df ∷ dfs) known =
      (refl, fanout_infos-HasConsumers (suc idx) dfs ((df.identity, fanout_id idx) ∷ known))

  all_transitive_lem :
      (infos : List FanoutInfo)
      → HasConsumers infos
      → (reached : Dict (List Str)) × (all_transitive (consumers_by_name invs []) infos
          ≡ ok reached)
        × ((fid n : Str)
            → (reached_via fid n reached ≡ true) ↔ (
                (mem fid (info_ids infos) ≡ true)
                × Consumes invs (direct_consumers ids fid invs) n))
  unfolding all_transitive HasConsumers reached_via mem
  all_transitive_lem [] h =
      ([], refl, λ fid n. ((λ k. absurd (ground arith)), λ k. absurd (ground (arith, k.0))))
  all_transitive_lem (fi ∷ infos) (same, h) =
      let (seen, ends, exact) = transitive_consumers-Consumes invs fi.consumers in
      let (reached, all_end, rest) = all_transitive_lem infos h in
      (
        (fi.id, seen) ∷ reached,
        rw (ends, all_end) refl,
        λ fid n. (
          (λ k. elim (Bool-cases (fid == fi.id && mem n seen)) [
            | inl here ↦ (
              ground arith,
              subst (λ c. Consumes invs c n) (agree fid (ground arith))
                  ((exact n).0 (ground arith)),
            )
            | inr other ↦ let (m, c) = (rest fid n).0 (ground arith) in (ground arith, c)
          ]),
          (λ (m, c). elim (Bool-cases (fid == fi.id)) [
            | inl here ↦
                let found = (exact n).1 (subst (λ c. Consumes invs c n) (sym (agree fid here)) c) in
                ground arith
            | inr other ↦ let found = (rest fid n).1 (ground arith, c) in ground arith
          ]),
        ),
      )
    where
      agree : (fid : Str) → (fid == fi.id) ≡ true → fi.consumers ≡ direct_consumers ids fid invs
      agree fid e = same ∙ ap (λ f. direct_consumers ids f invs) (sym ((eq_iff fid fi.id).0 e))

abbrev pub ids_of : List Placeholder → Ids
ids_of dfs = fanout_ids 1 dfs []

abbrev pub described : Str → List TaskInvocation → List Placeholder → Dict (List Str) → Description
described name invs dfs reached = record {
  flow = name;
  nodes = map (node_info (ids_of dfs) reached) invs;
  dynamic_fanouts = fanout_infos 1 dfs [] (ids_of dfs) invs;
  count = length (map (node_info (ids_of dfs) reached) invs);
  dynamic_count = length (fanout_infos 1 dfs [] (ids_of dfs) invs);
}

-- If the id of a placeholder is not among the upstream names of an invocation, describe returns,
-- and its node of this invocation lists that id upstream exactly when the invocation is a direct
-- or transitive consumer of the placeholder.
pub describe_barriers :
    (name : Str) (front back : List TaskInvocation) (inv : TaskInvocation) (dfs : List Placeholder)
    (fid : Str)
    → mem fid (info_ids (fanout_infos 1 dfs [] (ids_of dfs) (front ++ inv ∷ back))) ≡ true
    → mem fid inv.upstream ≡ false
    → (reached : Dict (List Str)) × (describe name (front ++ inv ∷ back) dfs
        ≡ ok (described name (front ++ inv ∷ back) dfs reached))
      × ((mem fid (node_info (ids_of dfs) reached inv).upstream ≡ true)
          ↔ Consumes
              (front ++ inv ∷ back)
              (direct_consumers (ids_of dfs) fid (front ++ inv ∷ back))
              inv.name)
unfolding describe node_info effective_up
describe_barriers name front back inv dfs fid known fresh =
    let invs = front ++ inv ∷ back in
    let ids = ids_of dfs in
    let infos = fanout_infos 1 dfs [] ids invs in
    let (reached, ends, exact) =
      all_transitive_lem ids invs infos (fanout_infos-HasConsumers ids invs 1 dfs []) in
    let listed =
      mem-sorted fid (effective_up ids reached inv)
      ∙ mem-add_reached fid inv.name reached (rewire ids (fans inv) inv.upstream) in
    (
      reached,
      rw ends refl,
      (
        (λ m. elim (Bool-cases (reached_via fid inv.name reached)) [
          | inl via ↦ ((exact fid inv.name).0 via).1
          | inr not_via ↦ consumer inv.name (
              consumed_by-direct ids fid inv.name front back inv
                (ground (arith, listed, mem-rewire fid inv.name ids (fans inv) inv.upstream fresh)))
        ]),
        (λ c. let via = (exact fid inv.name).1 (known, c) in ground (arith, listed)),
      ),
    )
