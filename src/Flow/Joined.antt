-- ===== src/Flow/Joined.antt =====
-- The whole block of `_run_internal`: its last step changes nothing, and what it adds leads backward.
use auto_workflow.Base.{
  ℕ, zero, suc, ◌≡◌, ◌∙◌, refl, ap, sym, inl, inr, Bool, true, false, not, ◌&&◌, Option,
  Option-cases, none, some, List, [], ◌∷◌, if◌then◌else◌, Str, ◌==◌, eq_iff, mem, nodup, set_add,
  arith,
}
use auto_workflow.Build.{TaskInvocation}
use auto_workflow.Build.Backward.{inv_names, Backward}
use auto_workflow.Flow.{
  is_root, depend_on, root_depends, first_index, take, chain, last_name, names_by, roots_depend,
  sequence_from, sequence,
}
use auto_workflow.Flow.Sequence.{
  Before-front, root_depends-Backward, names-root_depends, chain-Backward, names-chain, mem_of_last,
  last_name-cons, front_part, take-split,
}

settled :
    (p q : Str → Bool) (u : Str) (inv : TaskInvocation)
    → (p inv.name ≡ true → q inv.name ≡ true)
    → (let inv' : TaskInvocation = (if q inv.name && is_root inv then depend_on u inv else inv) in
        p inv'.name && is_root inv')
      ≡ false
unfolding set_add mem
settled p q u inv h = ground arith

-- An invocation that depends on something is not touched again.
root_depends_twice :
    (p q : Str → Bool) (u w : Str) (invs : List TaskInvocation)
    → ((n : Str) → p n ≡ true → q n ≡ true)
    → root_depends (λ inv. p inv.name) w (root_depends (λ inv. q inv.name) u invs)
      ≡ root_depends (λ inv. q inv.name) u invs
unfolding root_depends
root_depends_twice p q u w [] h = refl
root_depends_twice p q u w (inv ∷ invs) h =
    rw (settled p q u inv (h inv.name)) (rw (root_depends_twice p q u w invs h))

-- The chained and joined list, before the last step of the block.
abbrev pub joined : List Str → ℕ → List TaskInvocation → List TaskInvocation
joined returned idx ordered =
    let prefix = names_by (λ n. not (mem n returned)) (take idx ordered) in
    roots_depend (λ inv. mem inv.name returned) (last_name prefix) (chain prefix ordered)

joined-Backward :
    (returned : List Str) (i : ℕ) (ordered : List TaskInvocation)
    → first_index returned ordered ≡ some i
    → nodup (inv_names ordered) ≡ true
    → Backward [] ordered
    → Backward [] (joined returned i ordered)
unfolding roots_depend
joined-Backward returned i ordered e d b =
    let (same, others) = front_part returned i ordered e in
    let (back, split) = take-split i ordered in
    let front = inv_names (take i ordered) in
    let chained = chain-Backward [] front back ordered split d b in
    elim (Option-cases (last_name front)) [
      | inl empty ↦ rw (same, empty) chained
      | inr (u, found) ↦
          rw (same, found)
            (root_depends-Backward (λ n. mem n returned) u [] (chain front ordered)
              (rw (names-chain front ordered, split)
                (Before-front (λ n. mem n returned) u [] front back others
                  (mem_of_last front u found)))
              chained)
    ]

first_index-take :
    (returned : List Str) (i : ℕ) (ordered : List TaskInvocation)
    → first_index returned ordered ≡ some (suc i)
    → (u : Str) × (last_name (inv_names (take (suc i) ordered)) ≡ some u)
unfolding first_index
first_index-take returned i [] e = ground arith
first_index-take returned i (inv ∷ invs) e = last_name-cons inv.name (inv_names (take i invs))

names-roots_depend :
    (p : TaskInvocation → Bool) (w : Option Str) (invs : List TaskInvocation)
    → inv_names (roots_depend p w invs) ≡ inv_names invs
unfolding roots_depend
names-roots_depend p none invs = refl
names-roots_depend p (some u) invs = names-root_depends p u invs

roots_depend_settled :
    (returned : List Str) (first u : Str) (w : Option Str) (invs : List TaskInvocation)
    → mem first returned ≡ true
    → roots_depend (λ inv. inv.name == first) w (root_depends (λ inv. mem inv.name returned) u invs)
      ≡ root_depends (λ inv. mem inv.name returned) u invs
unfolding roots_depend
roots_depend_settled returned first u none invs m = refl
roots_depend_settled returned first u (some w) invs m =
    root_depends_twice (λ n. n == first) (λ n. mem n returned) u w invs
      (λ n e. ground (arith, eq_iff n first))

joined-root_depends :
    (returned : List Str) (i : ℕ) (ordered : List TaskInvocation) (u : Str)
    → first_index returned ordered ≡ some i
    → last_name (inv_names (take i ordered)) ≡ some u
    → joined returned i ordered
      ≡ root_depends (λ inv. mem inv.name returned) u (chain (inv_names (take i ordered)) ordered)
unfolding roots_depend
joined-root_depends returned i ordered u e found =
    rw ((front_part returned i ordered e).0, found) refl

-- Behind a first returned invocation that is not the first one, the last step of the sequencing,
-- which would let the first returned invocation wait for the last one not returned, changes
-- nothing.
pub sequence_from_last_step :
    (returned : List Str) (i : ℕ) (ordered : List TaskInvocation)
    → first_index returned ordered ≡ some (suc i)
    → sequence_from returned (suc i) ordered ≡ joined returned (suc i) ordered
unfolding sequence_from mem
sequence_from_last_step [] i ordered e = refl
sequence_from_last_step (first ∷ rest) i ordered e =
    let returned = first ∷ rest in
    let (u, found) = first_index-take returned i ordered e in
    let same = joined-root_depends returned (suc i) ordered u e found in
    let w = last_name (names_by (λ n. not (mem n returned)) (joined returned (suc i) ordered)) in
    ap (roots_depend (λ inv. inv.name == first) w) same
    ∙ roots_depend_settled returned first u w (chain (inv_names (take (suc i) ordered)) ordered)
        (ground (arith, eq_iff first first))
    ∙ sym same

names-joined :
    (returned : List Str) (i : ℕ) (ordered : List TaskInvocation)
    → inv_names (joined returned i ordered) ≡ inv_names ordered
names-joined returned i ordered =
    names-roots_depend (λ inv. mem inv.name returned) _ _ ∙ names-chain _ ordered

-- For distinct names and a backward list, the sequencing keeps the names and their order, and
-- every upstream name still belongs to an earlier invocation.
pub sequence-Backward :
    (returned : List Str) (ordered : List TaskInvocation)
    → nodup (inv_names ordered) ≡ true
    → Backward [] ordered
    → Backward [] (sequence returned ordered)
      × (inv_names (sequence returned ordered) ≡ inv_names ordered)
unfolding sequence
sequence-Backward returned ordered d b = by_index (first_index returned ordered) refl
  where
    by_index :
        (idx : Option ℕ)
        → first_index returned ordered ≡ idx
        → (let out : List TaskInvocation = elim idx [
          | none ↦ ordered
          | some zero ↦ ordered
          | some (suc i) ↦ sequence_from returned (suc i) ordered
        ] in
            Backward [] out × (inv_names out ≡ inv_names ordered))
    by_index none e = (b, refl)
    by_index (some zero) e = (b, refl)
    by_index (some (suc i)) e =
        rw (sequence_from_last_step returned i ordered e)
          (joined-Backward returned (suc i) ordered e d b, names-joined returned (suc i) ordered)
