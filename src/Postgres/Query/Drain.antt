-- ===== src/Postgres/Query/Drain.antt =====
-- auto_workflow/connectors/postgres.py, `query_iter`: its loop ends and gives every row.
use auto_workflow.Base.{
  ◌≡◌, refl, ap, ◌∙◌, ℕ, zero, suc, ◌≤◌, ◌<◌, List, [], ◌∷◌, ◌++◌, Option, some, Dict, arith,
  length, take, drop, take-drop, length-drop, length-take-drop, nil_of_length, subst, sym,
}
use auto_workflow.Connectors.{gives, Call}
use auto_workflow.Postgres.{Driver, Client}
use auto_workflow.Postgres.Query.{drain, unless_empty}

module _ {W V P : Type 0} (driver : Driver W V P) (cur size : ℕ) (rest : W → List (Dict V))
    (fetches : (w : W)
      → (w' : W) × (driver.fetchmany cur size w ≡ (gives (take size (rest w)), w'))
        × (rest w' ≡ drop size (rest w))) where
  in-unless_empty :
      (batch : List (Dict V)) (more : Call (Client W) (Option (List (Dict V)))) (c : Client W)
      (rows : List (Dict V))
      → (1 ≤ length batch → (more c).0 ≡ gives (some rows))
      → (length batch ≡ 0 → rows ≡ [])
      → (unless_empty driver batch more c).0 ≡ gives (some (batch ++ rows))
  in-unless_empty [] more c rows h k = ground (arith, k (omega arith))
  in-unless_empty (row ∷ batch) more c rows h k = rw (h (omega arith)) refl

  round :
      (fuel : ℕ) (c : Client W) (batch rows : List (Dict V)) (w' : W)
      → driver.fetchmany cur size c.world ≡ (gives batch, w')
      → (1 ≤ length batch
          → (drain driver fuel cur size (record c { world = w' })).0 ≡ gives (some rows))
      → (length batch ≡ 0 → rows ≡ [])
      → (drain driver (suc fuel) cur size c).0 ≡ gives (some (batch ++ rows))
  unfolding drain
  round fuel c batch rows w' e h k =
      rw (e) (in-unless_empty batch (drain driver fuel cur size) (record c { world = w' }) rows h k)

  -- If fetchmany takes the given number of rows off those that are left, and the number is above
  -- zero, the loop of query_iter ends within one more round than there are rows and gives all of
  -- them in order.
  pub drain-rest :
      (fuel : ℕ) (c : Client W)
      → 1 ≤ size
      → length (rest c.world) < fuel
      → (drain driver fuel cur size c).0 ≡ gives (some (rest c.world))
  drain-rest zero c p h = ground arith
  drain-rest (suc fuel) c p h =
      let (w', e, f) = fetches c.world in
      let step =
        round fuel c (take size (rest c.world)) (rest w') w' e
          (λ l.
            drain-rest fuel (record c { world = w' }) p
              (subst (λ xs. length xs < fuel) (sym f)
                (omega
                  (arith, length-take-drop size (rest c.world), length-drop size (rest c.world)))))
          (λ l.
            f
            ∙ nil_of_length (drop size (rest c.world)) (
                omega (
                  arith,
                  length-take-drop size (rest c.world),
                  length-drop size (rest c.world),
                ))) in
      step
      ∙ ap (λ ys. gives (some ys))
          (ap (λ ys. take size (rest c.world) ++ ys) f ∙ take-drop size (rest c.world))
