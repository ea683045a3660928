-- ===== src/Inflight/Explained.antt =====
-- Each operation is a step of the specification, or none.
use auto_workflow.Base.{
  ℕ, ◌≡◌, ◌∙◌, refl, inl, inr, Bool-cases, true, false, Option, none, some, List, ◌∷◌,
  if◌then◌else◌, Str, ◌==◌, eq_iff, lookup, insert, mem, lookup-insert, sym, ap, arith,
}
use mathlib.Core.List.{Memᴰ}
use auto_workflow.Exceptions.{Exn, Result, ok}
use auto_workflow.Scheduler.{Entry, Plan, State}
use auto_workflow.Inflight.{
  ResultCache, Phase, running, following, ended, Flights, at_phase, give, join, enter,
}
use auto_workflow.Inflight.Served.{has_ended}
use auto_workflow.Inflight.Single.{IsSound}
use auto_workflow.Inflight.Replay.{CacheLaws, Replay, take_outcome}

module _ {ℓ} {V : Type ℓ} {C : Type ℓ} (cache_ops : ResultCache (Entry V) C) (plan : Plan)
    (ttl_of : Str → Option ℕ) (key_of : Str → Str) where
  module _ (Holds : C → Str → Entry V → Type ℓ) (laws : CacheLaws cache_ops Holds)
      (run : State V) where
    pub record Explained (outs : List (Str × Result (Entry V))) (taken : List Str)
        (st : Flights V C) : Type ℓ where
      pub replay : Replay plan key_of outs run taken st.run
      pub cached : (k : Str) (v : Entry V) → Holds st.cache k v → Memᴰ (k, ok v) outs
      pub settled :
          (o : Str) (r : Result (Entry V)) → lookup o st.outcomes ≡ some r → Memᴰ (key_of o, r) outs
      pub same_key : (n o : Str) → lookup n st.phases ≡ some (following o) → key_of o ≡ key_of n
      pub own_key : (o k : Str) → lookup o st.phases ≡ some (running (some k)) → k ≡ key_of o
      pub over : (n : Str) → mem n taken ≡ true → has_ended cache_ops plan ttl_of key_of n st ≡ true

    -- A task moves to another phase, without a result.
    module _ (outs : List (Str × Result (Entry V))) (taken : List Str) (name : Str)
        (st : Flights V C) (x : Explained outs taken st)
        (not_over : has_ended cache_ops plan ttl_of key_of name st ≡ false) where
      not_taken : mem name taken ≡ false
      not_taken = ground (arith, x.over name)

      pub moved :
          (phase : Phase)
          → ((o : Str) → phase ≡ following o → key_of o ≡ key_of name)
          → ((k : Str) → phase ≡ running (some k) → k ≡ key_of name)
          → Explained outs taken (at_phase cache_ops plan ttl_of key_of name phase st)
      moved phase f g = record {
        replay = x.replay;
        cached = x.cached;
        settled = x.settled;
        same_key = λ n o h. elim (Bool-cases (n == name)) [
          | inl same ↦ f o (ground (arith, at_name n)) ∙ ap key_of (sym ((eq_iff n name).0 same))
          | inr other ↦ x.same_key n o (ground (arith, at_name n))
        ];
        own_key = λ o k h. elim (Bool-cases (o == name)) [
          | inl same ↦ g k (ground (arith, at_name o)) ∙ ap key_of (sym ((eq_iff o name).0 same))
          | inr other ↦ x.own_key o k (ground (arith, at_name o))
        ];
        over = λ n h. ground (arith, at_name n, eq_iff n name, x.over n h, not_over);
      }
        where
          at_name :
              (o : Str)
              → lookup o (insert name phase st.phases)
                ≡ (if o == name then some phase else lookup o st.phases)
          at_name o = lookup-insert o name phase st.phases

      -- A task ends with an outcome of its key.
      pub ended_with :
          (e : Option Exn) (r : Result (Entry V))
          → Memᴰ (key_of name, r) outs
          → Explained outs (name ∷ taken) (
              at_phase cache_ops plan ttl_of key_of name
                (ended e)
                (give cache_ops plan ttl_of key_of name r st))
      unfolding mem
      ended_with e r a =
          let moves =
            moved (ended e) (λ o h. absurd (ground arith)) (λ k h. absurd (ground arith)) in
          record {
            replay = take_outcome name r x.replay not_taken a;
            cached = x.cached;
            settled = x.settled;
            same_key = moves.same_key;
            own_key = moves.own_key;
            over = λ n h.
                ground
                  (arith, lookup-insert n name (ended e) st.phases, eq_iff n name, moves.over n);
          }

    pub enter-Explained :
        (outs : List (Str × Result (Entry V))) (taken : List Str) (now : ℕ) (name : Str)
        (st : Flights V C)
        → lookup name st.phases ≡ none
        → IsSound cache_ops plan ttl_of key_of st
        → Explained outs taken st
        → (later : List Str) × Explained outs later (enter cache_ops plan ttl_of key_of now name st)
    unfolding enter join
    enter-Explained outs taken now name st n s x = by_ttl (ttl_of name) refl
      where
        Goal : Type ℓ
        Goal =
            (later : List Str) × Explained outs later
              (enter cache_ops plan ttl_of key_of now name st)

        asked : ℕ → Flights V C
        asked ttl = record st { cache = (cache_ops.get now (key_of name) (some ttl) st.cache).1 }

        asked-Explained : (ttl : ℕ) → Explained outs taken (asked ttl)
        asked-Explained ttl = record {
          replay = x.replay;
          cached =
              λ k v h. x.cached k v (laws.held_of_get now (key_of name) (some ttl) st.cache k v h);
          settled = x.settled;
          same_key = x.same_key;
          own_key = x.own_key;
          over = x.over;
        }

        registered :
            (ttl : ℕ)
            → Explained outs taken
                (record (asked ttl) { inflight = insert (key_of name) name st.inflight })
        registered ttl = record {
          replay = x.replay;
          cached = (asked-Explained ttl).cached;
          settled = x.settled;
          same_key = x.same_key;
          own_key = x.own_key;
          over = x.over;
        }

        by_key :
            (ttl : ℕ) (found : Option Str)
            → ttl_of name ≡ some ttl
            → (cache_ops.get now (key_of name) (some ttl) st.cache).0 ≡ none
            → lookup (key_of name) st.inflight ≡ found
            → Goal
        by_key ttl none y z w = (
          taken,
          rw (y, enter, z, join, w)
              (moved outs taken name
                (record (asked ttl) { inflight = insert (key_of name) name st.inflight })
                (registered ttl) (ground arith) (running (some (key_of name)))
                (λ o h. absurd (ground arith)) (λ k h. ground arith)),
        )
        by_key ttl (some owner) y z w = (
          taken,
          rw (y, enter, z, join, w)
              (moved outs taken name (asked ttl) (asked-Explained ttl) (ground arith)
                (following owner)
                (λ o h.
                  ap key_of (ground arith)
                  ∙ sym (x.own_key owner (key_of name) (s.owners (key_of name) owner w)))
                (λ k h. absurd (ground arith))),
        )

        by_cached :
            (ttl : ℕ) (cached : Option (Entry V))
            → ttl_of name ≡ some ttl
            → (cache_ops.get now (key_of name) (some ttl) st.cache).0 ≡ cached
            → Goal
        by_cached ttl (some v) y z = (
          name ∷ taken,
          rw (y, enter, z)
              (ended_with outs taken name (asked ttl) (asked-Explained ttl) (ground arith) none
                (ok v)
                (x.cached (key_of name) v
                  (laws.get_held now (key_of name) (some ttl) st.cache v z))),
        )
        by_cached ttl none y z = by_key ttl (lookup (key_of name) st.inflight) y z refl

        by_ttl : (ttl : Option ℕ) → ttl_of name ≡ ttl → Goal
        by_ttl none y = (
          taken,
          rw (y, enter)
              (moved outs taken name st x (ground arith) (running none)
                (λ o h. absurd (ground arith)) (λ k h. absurd (ground arith))),
        )
        by_ttl (some ttl) y =
            by_cached ttl (cache_ops.get now (key_of name) (some ttl) st.cache).0 y refl
