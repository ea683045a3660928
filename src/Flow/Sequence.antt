-- ===== src/Flow/Sequence.antt =====
-- The added dependencies lead to earlier invocations only.
use auto_workflow.Base.{
  ℕ, zero, suc, ◌≡◌, ◌∙◌, refl, ap, sym, subst, Bool, true, false, not, ◌&&◌, some, List, [], ◌∷◌,
  ◌++◌, append_assoc, append-nil, if◌then◌else◌, Str, ◌==◌, eq_iff, mem, mem-append, nodup,
  nodup-disjoint, and_left, Subset, mem-set_add, arith,
}
use auto_workflow.Build.{TaskInvocation}
use auto_workflow.Build.Backward.{inv_names, Backward}
use auto_workflow.Flow.{
  is_root, depend_on, root_depends, first_index, take, chain, last_name, names_by,
}

-- `u` stands before every occurrence of a name that the test picks.
unfoldable pub Before : (Str → Bool) → Str → List Str → List Str → Type 0
Before p u seen [] = Unit
Before p u seen (n ∷ ns) = (p n ≡ true → mem u seen ≡ true) × Before p u (seen ++ n ∷ []) ns

pub names-root_depends :
    (p : TaskInvocation → Bool) (u : Str) (invs : List TaskInvocation)
    → inv_names (root_depends p u invs) ≡ inv_names invs
unfolding root_depends
names-root_depends p u [] = refl
names-root_depends p u (inv ∷ invs) = ground (arith, names-root_depends p u invs)

depend_on-Subset :
    (b : Bool) (u : Str) (inv : TaskInvocation) (seen : List Str)
    → (b ≡ true → mem u seen ≡ true)
    → Subset inv.upstream seen
    → Subset (if b then depend_on u inv else inv).upstream seen
depend_on-Subset true u inv seen h s =
    λ x m. ground (arith, h, s x, mem-set_add x u inv.upstream, eq_iff x u)
depend_on-Subset false u inv seen h s = s

depend_on-name :
    (b : Bool) (u : Str) (inv : TaskInvocation)
    → (if b then depend_on u inv else inv).name ≡ inv.name
depend_on-name true u inv = refl
depend_on-name false u inv = refl

pub root_depends-Backward :
    (p : Str → Bool) (u : Str) (seen : List Str) (invs : List TaskInvocation)
    → Before p u seen (inv_names invs)
    → Backward seen invs
    → Backward seen (root_depends (λ inv. p inv.name) u invs)
unfolding root_depends Before Backward
root_depends-Backward p u seen [] h b = tt
root_depends-Backward p u seen (inv ∷ invs) h b = (
  depend_on-Subset (p inv.name && is_root inv) u inv seen
      (λ e. h.0 (and_left (p inv.name) (is_root inv) e)) b.0,
  rw (depend_on-name (p inv.name && is_root inv) u inv)
      (root_depends-Backward p u (seen ++ inv.name ∷ []) invs h.1 b.1),
)

Before-seen :
    (p : Str → Bool) (u : Str) (seen ns : List Str) → mem u seen ≡ true → Before p u seen ns
unfolding Before
Before-seen p u seen [] m = tt
Before-seen p u seen (n ∷ ns) m =
    ((λ _. m), Before-seen p u (seen ++ n ∷ []) ns (ground (arith, mem-append u seen (n ∷ []))))

-- Where all that the test picks comes behind a front part that holds `u`.
pub Before-front :
    (p : Str → Bool) (u : Str) (seen front back : List Str)
    → ((n : Str) → mem n front ≡ true → p n ≡ false)
    → mem u (seen ++ front) ≡ true
    → Before p u seen (front ++ back)
unfolding Before mem
Before-front p u seen [] back h m = Before-seen p u seen back (rw (append-nil seen) at m)
Before-front p u seen (n ∷ front) back h m = (
  (λ e. ground (arith, h n, eq_iff n n)),
  Before-front p u (seen ++ n ∷ []) front back (λ k i. h k (ground arith))
      (rw (append_assoc seen (n ∷ []) front) m),
)

mem-head : (x : Str) (xs : List Str) → mem x (x ∷ xs) ≡ true
unfolding mem
mem-head x xs = ground (arith, eq_iff x x)

mem-last : (xs : List Str) (x : Str) → mem x (xs ++ x ∷ []) ≡ true
unfolding mem
mem-last xs x = ground (arith, mem-append x xs (x ∷ []), eq_iff x x)

pub names-chain :
    (ns : List Str) (invs : List TaskInvocation) → inv_names (chain ns invs) ≡ inv_names invs
unfolding chain
names-chain [] invs = refl
names-chain (prev ∷ []) invs = refl
names-chain (prev ∷ curr ∷ rest) invs =
    names-chain (curr ∷ rest) (root_depends (λ inv. inv.name == curr) prev invs)
    ∙ names-root_depends (λ inv. inv.name == curr) prev invs

-- The chain runs through consecutive names of the list.
pub chain-Backward :
    (front ns back : List Str) (invs : List TaskInvocation)
    → inv_names invs ≡ front ++ (ns ++ back)
    → nodup (inv_names invs) ≡ true
    → Backward [] invs
    → Backward [] (chain ns invs)
unfolding chain
chain-Backward front [] back invs e d b = b
chain-Backward front (prev ∷ []) back invs e d b = b
chain-Backward front (prev ∷ curr ∷ rest) back invs e d b =
    chain-Backward (front ++ prev ∷ []) (curr ∷ rest) back
      (root_depends (λ inv. inv.name == curr) prev invs)
      (names-root_depends (λ inv. inv.name == curr) prev invs ∙ split)
      (rw (names-root_depends (λ inv. inv.name == curr) prev invs) d)
      (root_depends-Backward (λ n. n == curr) prev [] invs
        (rw split (
          Before-front (λ n. n == curr) prev [] (front ++ prev ∷ []) (curr ∷ (rest ++ back))
            (λ n m. ground (arith, eq_iff n curr, apart, m)) (mem-last front prev)))
        b)
  where
    split : inv_names invs ≡ (front ++ prev ∷ []) ++ (curr ∷ rest ++ back)
    split = e ∙ sym (append_assoc front (prev ∷ []) (curr ∷ rest ++ back))

    apart : mem curr (front ++ prev ∷ []) ≡ false
    apart =
        nodup-disjoint curr (front ++ prev ∷ []) (curr ∷ rest ++ back)
          (subst (λ l. nodup l ≡ true) split d) (mem-head curr (rest ++ back))

-- The front part: no returned name, and the names that the chain runs through.
pub mem_of_last : (xs : List Str) (u : Str) → last_name xs ≡ some u → mem u xs ≡ true
unfolding last_name mem
mem_of_last [] u e = ground arith
mem_of_last (x ∷ []) u e = ground (arith, eq_iff u x)
mem_of_last (x ∷ y ∷ xs) u e = ground (arith, mem_of_last (y ∷ xs) u e)

pub last_name-cons : (x : Str) (xs : List Str) → (u : Str) × (last_name (x ∷ xs) ≡ some u)
unfolding last_name
last_name-cons x [] = (x, refl)
last_name-cons x (y ∷ xs) = last_name-cons y xs

-- What stands before the first returned invocation is not returned, and is all picked.
pub front_part :
    (returned : List Str) (i : ℕ) (invs : List TaskInvocation)
    → first_index returned invs ≡ some i
    → (names_by (λ n. not (mem n returned)) (take i invs) ≡ inv_names (take i invs))
      × ((n : Str) → mem n (inv_names (take i invs)) ≡ true → mem n returned ≡ false)
unfolding first_index mem
front_part returned i [] e = ground arith
front_part returned zero (inv ∷ invs) e = (refl, λ n m. ground arith)
front_part returned (suc i) (inv ∷ invs) e =
    let later = front_part returned i invs (ground arith) in
    let other : mem inv.name returned ≡ false = ground arith in
    (rw (other, later.0) refl, λ n m. ground (arith, later.1 n, eq_iff n inv.name, other))

pub take-split :
    (i : ℕ) (invs : List TaskInvocation)
    → (back : List Str) × (inv_names invs ≡ inv_names (take i invs) ++ back)
take-split zero invs = (inv_names invs, refl)
take-split (suc i) [] = ([], refl)
take-split (suc i) (inv ∷ invs) = let (back, e) = take-split i invs in (back, ap (◌∷◌ inv.name) e)
