-- ===== src/Dag/Relax.antt =====
-- The inner loop of the sort: what it makes of the in-degrees and of the ready list.
use auto_workflow.Base.{
  ◌≡◌, ◌≢◌, ◌∙◌, refl, inl, inr, Bool, true, false, ◌&&◌, ◌||◌, Option, Option-cases, none, some,
  List, [], ◌∷◌, Str, if◌then◌else◌, eq_iff, mem, nodup, insort, mem-insort, nodup-insort, IsSorted,
  insort-IsSorted, Dict, lookup, insert, keys, lookup-insert, nodup-keys-insert, arith, ℤ, pred_ℤ,
  is_zero,
}
use auto_workflow.Exceptions.{ok}
use auto_workflow.Dag.{relax}

abbrev pub reaches_zero : Option ℤ → Bool
reaches_zero none = false
reaches_zero (some n) = is_zero (pred_ℤ n)

abbrev pub decrement : Option ℤ → Option ℤ
decrement none = none
decrement (some n) = some (pred_ℤ n)

-- Each child has lost one, and those that came to zero are queued.
pub record Relaxed (cs : List Str) (deg deg' : Dict ℤ) (ready ready' : List Str) : Type 0 where
  pub degrees :
      (n : Str) → lookup n deg' ≡ (if mem n cs then decrement (lookup n deg) else lookup n deg)
  pub queued : (n : Str) → mem n ready' ≡ (mem n ready || (mem n cs && reaches_zero (lookup n deg)))
  pub distinct :
      nodup ready ≡ true → ((n : Str) → mem n cs ≡ true → mem n ready ≡ false) → nodup ready' ≡ true
  pub ascending : IsSorted ready → IsSorted ready'
  pub keys_distinct : nodup (keys deg) ≡ true → nodup (keys deg') ≡ true

Relaxed-nil : (deg : Dict ℤ) (ready : List Str) → Relaxed [] deg deg ready ready
unfolding mem
Relaxed-nil deg ready = record {
  degrees = λ n. refl;
  queued = λ n. ground arith;
  distinct = λ h _. h;
  ascending = λ h. h;
  keys_distinct = λ h. h;
}

if-IsSorted :
    (b : Bool) (ready : List Str) (c : Str)
    → IsSorted ready
    → IsSorted (if b then insort ready c else ready)
if-IsSorted true ready c h = insort-IsSorted ready c h
if-IsSorted false ready c h = h

Relaxed-cons :
    (c : Str) (cs : List Str) (n : ℤ) (deg deg' : Dict ℤ) (ready ready' : List Str)
    → lookup c deg ≡ some n
    → mem c cs ≡ false
    → Relaxed cs
        (insert c (pred_ℤ n) deg)
        deg'
        (if is_zero (pred_ℤ n) then insort ready c else ready)
        ready'
    → Relaxed (c ∷ cs) deg deg' ready ready'
unfolding mem nodup
Relaxed-cons c cs n deg deg' ready ready' e absent r = record {
  degrees = λ m. ground (arith, r.degrees m, lookup-insert m c (pred_ℤ n) deg, eq_iff m c);
  queued = λ m.
      ground
        (arith, r.queued m, lookup-insert m c (pred_ℤ n) deg, eq_iff m c, mem-insort m c ready);
  distinct = λ h apart.
      r.distinct (ground (arith, nodup-insort c ready, apart c, eq_iff c c))
        (λ m k. ground (arith, apart m, mem-insort m c ready, eq_iff m c));
  ascending = λ h. r.ascending (if-IsSorted (is_zero (pred_ℤ n)) ready c h);
  keys_distinct = λ h. r.keys_distinct (nodup-keys-insert c (pred_ℤ n) deg h);
}

relax-cons :
    (c : Str) (cs : List Str) (n : ℤ) (deg : Dict ℤ) (ready : List Str)
    → lookup c deg ≡ some n
    → relax (c ∷ cs) deg ready
      ≡ relax cs (insert c (pred_ℤ n) deg) (if is_zero (pred_ℤ n) then insort ready c else ready)
unfolding relax
relax-cons c cs n deg ready e = ground arith

pub relax_lem :
    (cs : List Str) (deg : Dict ℤ) (ready : List Str)
    → nodup cs ≡ true
    → ((n : Str) → mem n cs ≡ true → lookup n deg ≢ none)
    → (deg' : Dict ℤ) × (ready' : List Str) × (relax cs deg ready ≡ ok (deg', ready'))
      × Relaxed cs deg deg' ready ready'
unfolding relax nodup mem
relax_lem [] deg ready d h = (deg, ready, refl, Relaxed-nil deg ready)
relax_lem (c ∷ cs) deg ready d h = elim (Option-cases (lookup c deg)) [
  | inl e ↦ absurd (h c (ground (arith, eq_iff c c)) e)
  | inr (n, e) ↦
      let (deg', ready', done, r) =
        relax_lem cs (insert c (pred_ℤ n) deg)
          (if is_zero (pred_ℤ n) then insort ready c else ready) (ground arith)
          (λ m k z. ground (arith, lookup-insert m c (pred_ℤ n) deg, h m)) in
      (
        deg',
        ready',
        relax-cons c cs n deg ready e ∙ done,
        Relaxed-cons c cs n deg deg' ready ready' e (ground arith) r,
      )
]
