-- ===== src/Scheduler/Dispatch.antt =====
-- Starting tasks keeps the invariant and empties the ready list.
use auto_workflow.Base.{
  ◌≡◌, ◌∙◌, refl, inl, inr, Bool, Bool-cases, true, false, not, ◌&&◌, ◌||◌, List, [], ◌∷◌, ◌++◌,
  Str, ◌==◌, eq_iff, mem, mem-append, nodup, nodup-snoc, erase_one, mem-erase_one_distinct,
  nodup-erase_one, Subset, arith,
}
use auto_workflow.Scheduler.{
  Plan, State, start_task, start_all, dispatch, sort_by, insert_by, runs_before, priority_of,
}
use auto_workflow.Scheduler.Invariant.{done, Inv}

module _ {ℓ} {V : Type ℓ} (plan : Plan) where
  -- A ready task is not pending, so its task is created.
  unfoldable pub begun : Str → State V → State V
  begun n st = record st {
    ready = erase_one n st.ready;
    pending = st.pending ++ n ∷ [];
    started = st.started ++ n ∷ [];
  }

  pub start_task-begun :
      (n : Str) (st : State V) → mem n st.ready ≡ true → Inv plan st → start_task n st ≡ begun n st
  unfolding start_task begun
  start_task-begun n st r i = ground (arith, i.ready_new n r, i.pending_started n)

  module _ (n : Str) (st : State V) (r : mem n st.ready ≡ true) (i : Inv plan st) where
    -- What was done stays done; the new task is pending.
    done-begun : (u : Str) → done (begun n st) u ≡ done st u
    unfolding begun mem
    done-begun u = ground (
      arith,
      mem-append u st.started (n ∷ []),
      mem-append u st.pending (n ∷ []),
      eq_iff u n,
      i.ready_new n r,
    )

    begun-Inv : Inv plan (begun n st)
    unfolding begun mem
    begun-Inv = record {
      waits = λ m u h. ground (arith, i.waits m u h, done-begun u);
      ready_supplied = λ m h u a.
          done-begun u
          ∙ i.ready_supplied m
              (ground (arith, mem-erase_one_distinct m n st.ready i.ready_distinct)) u a;
      started_supplied = λ m h u a. done-begun u ∙ elim (Bool-cases (m == n)) [
        | inl same ↦ i.ready_supplied m (ground (arith, eq_iff m n)) u a
        | inr other ↦ i.started_supplied m (ground (arith, mem-append m st.started (n ∷ []))) u a
      ];
      ready_clean = λ m h.
          i.ready_clean m (ground (arith, mem-erase_one_distinct m n st.ready i.ready_distinct));
      started_clean = λ m h. elim (Bool-cases (m == n)) [
        | inl same ↦ i.ready_clean m (ground (arith, eq_iff m n))
        | inr other ↦ i.started_clean m (ground (arith, mem-append m st.started (n ∷ [])))
      ];
      pending_started = λ m h. ground (
        arith,
        i.pending_started m,
        mem-append m st.started (n ∷ []),
        mem-append m st.pending (n ∷ []),
      );
      done_settled = λ m h. i.done_settled m (ground (arith, done-begun m));
      ready_new = λ m h. ground (
        arith,
        i.ready_new m,
        mem-erase_one_distinct m n st.ready i.ready_distinct,
        mem-append m st.started (n ∷ []),
      );
      ready_distinct = nodup-erase_one n st.ready i.ready_distinct;
      pending_distinct = ground (
        arith,
        nodup-snoc st.pending n,
        i.pending_distinct,
        i.pending_started n,
        i.ready_new n r,
      );
      started_distinct =
          ground (arith, nodup-snoc st.started n, i.started_distinct, i.ready_new n r);
    }

  pub start_task-Inv :
      (n : Str) (st : State V) → mem n st.ready ≡ true → Inv plan st → Inv plan (start_task n st)
  start_task-Inv n st r i = rw (start_task-begun n st r i) (begun-Inv n st r i)

  pub ready-start_task :
      (n : Str) (st : State V)
      → mem n st.ready ≡ true
      → Inv plan st
      → (m : Str) → mem m (start_task n st).ready ≡ (mem m st.ready && not (m == n))
  unfolding begun
  ready-start_task n st r i m =
      rw (start_task-begun n st r i) (mem-erase_one_distinct m n st.ready i.ready_distinct)

  -- Ready tasks are started once each; the others stay ready.
  start_all-Inv :
      (ns : List Str) (st : State V)
      → nodup ns ≡ true
      → Subset ns st.ready
      → Inv plan st
      → Inv plan (start_all ns st)
        × ((m : Str) → mem m (start_all ns st).ready ≡ (mem m st.ready && not (mem m ns)))
  unfolding start_all mem nodup
  start_all-Inv [] st d s i = (i, λ m. ground arith)
  start_all-Inv (n ∷ ns) st d s i =
      let r = s n (ground (arith, eq_iff n n)) in
      let (after, rest) =
        start_all-Inv ns (start_task n st) (ground arith)
          (λ m h. ground (arith, ready-start_task n st r i m, s m, eq_iff m n))
          (start_task-Inv n st r i) in
      (after, λ m. ground (arith, rest m, ready-start_task n st r i m))

mem-insert_by :
    (le : Str → Str → Bool) (m x : Str) (xs : List Str)
    → mem m (insert_by le x xs) ≡ (m == x || mem m xs)
unfolding insert_by mem
mem-insert_by le m x [] = refl
mem-insert_by le m x (y ∷ xs) = ground (arith, mem-insert_by le m x xs)

pub mem-sort_by :
    (le : Str → Str → Bool) (m : Str) (xs : List Str) → mem m (sort_by le xs) ≡ mem m xs
unfolding sort_by mem
mem-sort_by le m [] = refl
mem-sort_by le m (x ∷ xs) =
    ground (arith, mem-insert_by le m x (sort_by le xs), mem-sort_by le m xs)

nodup-insert_by :
    (le : Str → Str → Bool) (x : Str) (xs : List Str) → nodup (insert_by le x xs) ≡ nodup (x ∷ xs)
unfolding insert_by mem nodup
nodup-insert_by le x [] = refl
nodup-insert_by le x (y ∷ xs) =
    ground (arith, nodup-insert_by le x xs, mem-insert_by le y x xs, eq_iff x y, eq_iff y x)

pub nodup-sort_by : (le : Str → Str → Bool) (xs : List Str) → nodup (sort_by le xs) ≡ nodup xs
unfolding sort_by mem nodup
nodup-sort_by le [] = refl
nodup-sort_by le (x ∷ xs) =
    ground (arith, nodup-insert_by le x (sort_by le xs), nodup-sort_by le xs, mem-sort_by le x xs)

-- A dispatch starts all ready tasks.
pub dispatch-Inv {ℓ} :
    {V : Type ℓ} (plan : Plan) (st : State V)
    → Inv plan st
    → Inv plan (dispatch plan st) × ((m : Str) → mem m (dispatch plan st).ready ≡ false)
unfolding dispatch
dispatch-Inv plan st i =
    let le = runs_before (priority_of plan) in
    let (after, left) =
      start_all-Inv plan (sort_by le st.ready) st (nodup-sort_by le st.ready ∙ i.ready_distinct)
        (λ m h. rw (mem-sort_by le m st.ready) at h) i in
    (after, λ m. ground (arith, left m, mem-sort_by le m st.ready))
