-- ===== src/Dag/Kahn.antt =====
-- The loop invariant of the sort: the in-degree of a node counts the upstream nodes that are not
-- in the order yet, and the ready list holds the nodes where that count is zero.
use auto_workflow.Base.{
  ℕ, suc, ◌≡◌, ◌≢◌, refl, ap, inl, inr, Bool-cases, true, false, not, ◌&&◌, none, some, List, [],
  ◌∷◌, ◌++◌, Str, if◌then◌else◌, nat_eq, eq_iff, length, mem, nodup, mem-append, nodup-snoc,
  append-nil, append_assoc, mem-sorted, sorted, str_le, str_le_refl, IsSorted, Dict, lookup, keys,
  arith, ℤ, pos,
}
use auto_workflow.Dag.{Dag}
use auto_workflow.Dag.Edges.{up, down, IsConsistent}
use auto_workflow.Dag.Relax.{Relaxed}

-- How many of `us` are not in the order.
unfoldable pub waiting : List Str → List Str → ℕ
waiting order [] = 0
waiting order (u ∷ us) = if mem u order then waiting order us else suc (waiting order us)

pub waiting-nil : (us : List Str) → waiting [] us ≡ length us
unfolding waiting mem
waiting-nil [] = refl
waiting-nil (u ∷ us) = ap suc (waiting-nil us)

waiting-snoc_absent :
    (c : Str) (order us : List Str)
    → mem c us ≡ false
    → waiting (order ++ c ∷ []) us ≡ waiting order us
unfolding waiting mem
waiting-snoc_absent c order [] h = refl
waiting-snoc_absent c order (u ∷ us) h =
    ground
      (arith, waiting-snoc_absent c order us, mem-append u order (c ∷ []), eq_iff u c, eq_iff c u)

-- A new member of the order takes one from the count, where it is awaited.
pub waiting-snoc :
    (c : Str) (order us : List Str)
    → nodup us ≡ true
    → mem c order ≡ false
    → waiting order us
      ≡ (if mem c us then suc (waiting (order ++ c ∷ []) us) else waiting (order ++ c ∷ []) us)
unfolding waiting mem nodup
waiting-snoc c order [] d h = refl
waiting-snoc c order (u ∷ us) d h = ground (
  arith,
  waiting-snoc c order us,
  waiting-snoc_absent c order us,
  mem-append u order (c ∷ []),
  eq_iff u c,
  eq_iff c u,
)

-- Nothing is awaited exactly when all upstream nodes are in the order.
pub waiting-zero :
    (order us : List Str) (u : Str) → waiting order us ≡ 0 → mem u us ≡ true → mem u order ≡ true
unfolding waiting mem
waiting-zero order [] u h m = ground arith
waiting-zero order (v ∷ us) u h m = ground (arith, waiting-zero order us u, eq_iff u v)

-- A positive count has a node behind it.
pub waiting-pos :
    (order us : List Str)
    → waiting order us ≢ 0
    → (u : Str) × (mem u us ≡ true) × (mem u order ≡ false)
unfolding waiting mem
waiting-pos order [] h = absurd (h refl)
waiting-pos order (u ∷ us) h = elim (Bool-cases (mem u order)) [
  | inl old ↦
      let (v, m, new) = waiting-pos order us (λ z. h (rw (old, if◌then◌else◌) z)) in
      (v, ground arith, new)
  | inr new ↦ (u, ground (arith, eq_iff u u), new)
]

-- Every node stands behind all its upstream nodes; `seen` are those in front.
unfoldable pub Follows : Dag → List Str → List Str → Type 0
Follows d seen [] = Unit
Follows d seen (n ∷ order) =
    ((u : Str) → mem u (up d n) ≡ true → mem u seen ≡ true) × Follows d (seen ++ n ∷ []) order

Follows-snoc :
    (d : Dag) (seen order : List Str) (c : Str)
    → Follows d seen order
    → ((u : Str) → mem u (up d c) ≡ true → mem u (seen ++ order) ≡ true)
    → Follows d seen (order ++ c ∷ [])
unfolding Follows
Follows-snoc d seen [] c f h = (λ u m. rw (append-nil seen) at (h u m), tt)
Follows-snoc d seen (n ∷ order) c f h = (
  f.0,
  Follows-snoc d (seen ++ n ∷ []) order c f.1
      (λ u m. rw (append_assoc seen (n ∷ []) order) (h u m)),
)

-- At each place stands the smallest name among the nodes not in front that await nothing.
unfoldable pub IsLeast : Dag → List Str → List Str → Type 0
IsLeast d seen [] = Unit
IsLeast d seen (n ∷ order) =
    ((m : Str)
      → mem m (keys d) ≡ true
      → mem m seen ≡ false
      → waiting seen (up d m) ≡ 0
      → str_le n m ≡ true)
    × IsLeast d (seen ++ n ∷ []) order

IsLeast-snoc :
    (d : Dag) (seen order : List Str) (c : Str)
    → IsLeast d seen order
    → ((m : Str)
        → mem m (keys d) ≡ true
        → mem m (seen ++ order) ≡ false
        → waiting (seen ++ order) (up d m) ≡ 0
        → str_le c m ≡ true)
    → IsLeast d seen (order ++ c ∷ [])
unfolding IsLeast
IsLeast-snoc d seen [] c f h =
    (λ m k a w. h m k (rw (append-nil seen) a) (rw (append-nil seen) w), tt)
IsLeast-snoc d seen (n ∷ order) c f h = (
  f.0,
  IsLeast-snoc d (seen ++ n ∷ []) order c f.1 (λ m k a w.
      h m k (rw (append_assoc seen (n ∷ []) order) at a)
        (rw (append_assoc seen (n ∷ []) order) at w)),
)

module _ (d : Dag) (consistent : IsConsistent d) where
  pub record Inv (deg : Dict ℤ) (ready order : List Str) : Type 0 where
    pub degrees :
        (n : Str) → mem n (keys d) ≡ true → lookup n deg ≡ some (pos (waiting order (up d n)))
    pub queued :
        (n : Str)
        → mem n ready ≡ (mem n (keys d) && (nat_eq (waiting order (up d n)) 0 && not (mem n order)))
    pub known : (n : Str) → mem n order ≡ true → mem n (keys d) ≡ true
    pub closed : (n : Str) → mem n order ≡ true → waiting order (up d n) ≡ 0
    pub ready_distinct : nodup ready ≡ true
    pub order_distinct : nodup order ≡ true
    pub ordered : Follows d [] order
    pub ascending : IsSorted ready
    pub deg_distinct : nodup (keys deg) ≡ true
    pub untracked : (n : Str) → mem n (keys d) ≡ false → lookup n deg ≡ none
    pub smallest : IsLeast d [] order

  -- The head of the ready list: a node, not in the order, that awaits nothing.
  pub head-ready :
      (deg : Dict ℤ) (c : Str) (rest order : List Str)
      → Inv deg (c ∷ rest) order
      → (mem c (keys d) ≡ true) × (waiting order (up d c) ≡ 0) × (mem c order ≡ false)
  unfolding mem
  head-ready deg c rest order i = ground (arith, i.queued c, eq_iff c c)

  module _ (deg deg' : Dict ℤ) (ready' : List Str) (c : Str) (rest order : List Str)
      (i : Inv deg (c ∷ rest) order) (r : Relaxed (sorted (down d c)) deg deg' rest ready') where
    not_own_child : mem c (down d c) ≡ false
    not_own_child = ground (
      arith,
      head-ready deg c rest order i,
      consistent.mirrored c c,
      waiting-zero order (up d c) c,
    )

    step-degrees :
        (n : Str)
        → mem n (keys d) ≡ true
        → lookup n deg' ≡ some (pos (waiting (order ++ c ∷ []) (up d n)))
    step-degrees n k = ground (
      arith,
      r.degrees n,
      i.degrees n k,
      mem-sorted n (down d c),
      consistent.mirrored c n,
      waiting-snoc c order (up d n) (consistent.up_distinct n),
      head-ready deg c rest order i,
    )

    step-closed :
        (n : Str) → mem n (order ++ c ∷ []) ≡ true → waiting (order ++ c ∷ []) (up d n) ≡ 0
    unfolding mem
    step-closed n h = ground (
      arith,
      i.closed n,
      mem-append n order (c ∷ []),
      eq_iff n c,
      waiting-snoc c order (up d n) (consistent.up_distinct n),
      head-ready deg c rest order i,
    )

    step-queued :
        (n : Str)
        → mem n ready' ≡ (
            mem n (keys d)
            && (nat_eq (waiting (order ++ c ∷ []) (up d n)) 0 && not (mem n (order ++ c ∷ []))))
    unfolding mem nodup
    step-queued n = ground (
      arith,
      r.queued n,
      i.queued n,
      i.degrees n,
      i.closed n,
      mem-sorted n (down d c),
      consistent.mirrored c n,
      consistent.down_known c n,
      not_own_child,
      i.ready_distinct,
      mem-append n order (c ∷ []),
      eq_iff n c,
      waiting-snoc c order (up d n) (consistent.up_distinct n),
      head-ready deg c rest order i,
    )

    pub Inv-step : Inv deg' ready' (order ++ c ∷ [])
    unfolding mem nodup
    Inv-step = record {
      degrees = step-degrees;
      queued = step-queued;
      known = λ n h. ground (
        arith,
        i.known n,
        mem-append n order (c ∷ []),
        eq_iff n c,
        head-ready deg c rest order i,
      );
      closed = step-closed;
      ready_distinct = r.distinct (ground (arith, i.ready_distinct)) (λ n m. ground (
        arith,
        i.queued n,
        mem-sorted n (down d c),
        consistent.mirrored c n,
        eq_iff n c,
        waiting-snoc c order (up d n) (consistent.up_distinct n),
        head-ready deg c rest order i,
      ));
      ascending = r.ascending i.ascending.1;
      deg_distinct = r.keys_distinct i.deg_distinct;
      untracked = λ n a. ground (arith, r.degrees n, i.untracked n);
      smallest =
          IsLeast-snoc d [] order c i.smallest
            (λ m k a w. ground (arith, i.queued m, i.ascending.0 m, eq_iff m c, str_le_refl c));
      order_distinct =
          ground (arith, nodup-snoc order c, i.order_distinct, head-ready deg c rest order i);
      ordered =
          Follows-snoc d [] order c i.ordered
            (λ u m. waiting-zero order (up d c) u ((head-ready deg c rest order i).1) m);
    }
