-- ===== src/Inflight/Keys.antt =====
-- The keys in flight, the futures and the phases of the tasks fit together, whatever a task does next.
use auto_workflow.Base.{
  ◌≡◌, ◌≢◌, inl, inr, ◌⊎◌, Bool-cases, true, Option, none, some, if◌then◌else◌, Str, ◌==◌, eq_iff,
  Dict, lookup, insert, erase, lookup-insert, nodup, keys, nodup-keys-insert, nodup-keys-erase,
  lookup-erase, arith,
}
use auto_workflow.Exceptions.{Exn, Result}
use auto_workflow.Inflight.{Phase, running, following, ended}

module _ {ℓ} {V : Type ℓ} where
  -- A key in flight leads to the task that runs under it, whose future is not done.
  pub record Sound (inflight : Dict Str) (outcomes : Dict (Result V)) (phases : Dict Phase)
      : Type ℓ where
    pub distinct : nodup (keys inflight) ≡ true
    pub owners :
        (key o : Str) → lookup key inflight ≡ some o → lookup o phases ≡ some (running (some key))
    pub registered :
        (key o : Str) → lookup o phases ≡ some (running (some key)) → lookup key inflight ≡ some o
    pub unsettled :
        (key o : Str) → lookup o phases ≡ some (running (some key)) → lookup o outcomes ≡ none
    pub unborn : (o : Str) → lookup o phases ≡ none → lookup o outcomes ≡ none
    pub led :
        (n o : Str)
        → lookup n phases ≡ some (following o)
        → (lookup o outcomes ≢ none) ⊎ ((key : Str) × (lookup o phases ≡ some (running (some key))))

  module _ (inflight : Dict Str) (outcomes : Dict (Result V)) (phases : Dict Phase) (name : Str)
      (s : Sound inflight outcomes phases) where
    pub register-Sound :
        (key : Str)
        → lookup name phases ≡ none
        → lookup key inflight ≡ none
        → Sound (insert key name inflight) outcomes (insert name (running (some key)) phases)
    register-Sound key n k = record {
      distinct = nodup-keys-insert key name inflight s.distinct;
      owners =
          λ j o h. ground (arith, at_name o, at_key j, eq_iff o name, eq_iff j key, s.owners j o);
      registered = λ j o h. ground (
        arith,
        at_name o,
        at_key j,
        eq_iff o name,
        eq_iff j key,
        s.registered j o,
        s.owners j name,
      );
      unsettled = λ j o h. ground (arith, at_name o, eq_iff o name, s.unsettled j o, s.unborn o);
      unborn = λ o h. ground (arith, at_name o, s.unborn o);
      led = λ m o h. elim (s.led m o (ground (arith, at_name m))) [
        | inl known ↦ inl known
        | inr (j, runs) ↦ inr (j, ground (arith, at_name o, eq_iff o name))
      ];
    }
      where
        at_name :
            (o : Str)
            → lookup o (insert name (running (some key)) phases)
              ≡ (if o == name then some (running (some key)) else lookup o phases)
        at_name o = lookup-insert o name (running (some key)) phases

        at_key :
            (j : Str)
            → lookup j (insert key name inflight)
              ≡ (if j == key then some name else lookup j inflight)
        at_key j = lookup-insert j key name inflight

    pub follow-Sound :
        (key owner : Str)
        → lookup name phases ≡ none
        → lookup key inflight ≡ some owner
        → Sound inflight outcomes (insert name (following owner) phases)
    follow-Sound key owner n k = record {
      distinct = s.distinct;
      owners = λ j o h. ground (arith, at_name o, eq_iff o name, s.owners j o);
      registered = λ j o h. ground (arith, at_name o, eq_iff o name, s.registered j o);
      unsettled = λ j o h. ground (arith, at_name o, eq_iff o name, s.unsettled j o);
      unborn = λ o h. ground (arith, at_name o, s.unborn o);
      led = λ m o h. elim (Bool-cases (m == name)) [
        | inl same ↦
            inr (key, ground (arith, at_name m, at_name o, eq_iff o name, s.owners key owner))
        | inr other ↦ elim (s.led m o (ground (arith, at_name m))) [
          | inl known ↦ inl known
          | inr (j, runs) ↦ inr (j, ground (arith, at_name o, eq_iff o name))
        ]
      ];
    }
      where
        at_name :
            (o : Str)
            → lookup o (insert name (following owner) phases)
              ≡ (if o == name then some (following owner) else lookup o phases)
        at_name o = lookup-insert o name (following owner) phases

    -- A task that has no future open moves on.
    pub move-Sound :
        (phase : Phase)
        → ((key : Str) → lookup name phases ≢ some (running (some key)))
        → ((key : Str) → phase ≢ running (some key))
        → ((o : Str) → phase ≢ following o)
        → Sound inflight outcomes (insert name phase phases)
    move-Sound phase n p q = record {
      distinct = s.distinct;
      owners = λ j o h. ground (arith, at_name o, eq_iff o name, s.owners j o, n j);
      registered = λ j o h. ground (arith, at_name o, eq_iff o name, s.registered j o, p j);
      unsettled = λ j o h. ground (arith, at_name o, eq_iff o name, s.unsettled j o, p j);
      unborn = λ o h. ground (arith, at_name o, s.unborn o);
      led = λ m o h. elim (s.led m o (ground (arith, at_name m, q o))) [
        | inl known ↦ inl known
        | inr (j, runs) ↦ inr (j, ground (arith, at_name o, eq_iff o name, n j))
      ];
    }
      where
        at_name :
            (o : Str)
            → lookup o (insert name phase phases)
              ≡ (if o == name then some phase else lookup o phases)
        at_name o = lookup-insert o name phase phases

    pub settle-Sound :
        (key : Str) (r : Result V) (e : Option Exn)
        → lookup name phases ≡ some (running (some key))
        → Sound (erase key inflight) (insert name r outcomes) (insert name (ended e) phases)
    settle-Sound key r e n = record {
      distinct = nodup-keys-erase key inflight s.distinct;
      owners =
          λ j o h. ground (arith, at_name o, at_key j, eq_iff o name, eq_iff j key, s.owners j o);
      registered = λ j o h. ground (
        arith,
        at_name o,
        at_key j,
        eq_iff o name,
        eq_iff j key,
        s.registered j o,
        s.registered key name,
      );
      unsettled = λ j o h. ground (arith, at_name o, settled o, eq_iff o name, s.unsettled j o);
      unborn = λ o h. ground (arith, at_name o, settled o, s.unborn o);
      led = λ m o h. elim (Bool-cases (o == name)) [
        | inl same ↦ inl (λ z. ground (arith, settled o))
        | inr other ↦ elim (s.led m o (ground (arith, at_name m))) [
          | inl known ↦ inl (λ z. ground (arith, settled o, known))
          | inr (j, runs) ↦ inr (j, ground (arith, at_name o))
        ]
      ];
    }
      where
        at_name :
            (o : Str)
            → lookup o (insert name (ended e) phases)
              ≡ (if o == name then some (ended e) else lookup o phases)
        at_name o = lookup-insert o name (ended e) phases

        settled :
            (o : Str)
            → lookup o (insert name r outcomes) ≡ (if o == name then some r else lookup o outcomes)
        settled o = lookup-insert o name r outcomes

        at_key :
            (j : Str)
            → lookup j (erase key inflight) ≡ (if j == key then none else lookup j inflight)
        at_key j = lookup-erase j key inflight s.distinct
