-- ===== src/Export/Ancestors.antt =====
-- The walk from a barrier to its ancestors: when it ends, and when it does not.
use auto_workflow.Base.{
  ℕ, zero, suc, ◌<◌, ◌≡◌, ◌≢◌, refl, inl, inr, Option-cases, some, List, [], ◌∷◌, Str, set_add,
  Dict, lookup, arith,
}
use auto_workflow.Exceptions.{out_of_fuel, ok, raise}
use auto_workflow.Export.{walk_up}

-- If some rank falls from each barrier to its source, the walk of export_dot from a barrier to its
-- ancestors ends within more rounds than the rank of its start.
pub walk_up_ends :
    (rank : Str → ℕ) (sources : Dict Str)
    → ((fid parent : Str) → lookup fid sources ≡ some parent → rank parent < rank fid)
    → (fuel : ℕ) (cur : Str) (suppressed : List Str) → rank cur < fuel
    → (out : List Str) × (walk_up fuel sources cur suppressed ≡ ok out)
unfolding walk_up
walk_up_ends rank sources falls zero cur suppressed h = absurd (omega arith)
walk_up_ends rank sources falls (suc fuel) [] suppressed h = (suppressed, refl)
walk_up_ends rank sources falls (suc fuel) (c ∷ cur) suppressed h =
    elim (Option-cases (lookup (c ∷ cur) sources)) [
      | inl end ↦ (set_add (c ∷ cur) suppressed, rw (end, walk_up) refl)
      | inr (parent, e) ↦
          let smaller = falls (c ∷ cur) parent e in
          let (out, ends) =
            walk_up_ends rank sources falls fuel parent (set_add (c ∷ cur) suppressed)
              (omega arith) in
          (out, rw (e, walk_up) ends)
    ]

-- A barrier whose source has the barrier's own id, as with a task named "fanout", is walked for ever.
pub walk_up_hangs :
    (fuel : ℕ) (sources : Dict Str) (fid : Str) (suppressed : List Str)
    → fid ≢ []
    → lookup fid sources ≡ some fid
    → walk_up fuel sources fid suppressed ≡ raise out_of_fuel
unfolding walk_up
walk_up_hangs fuel sources [] suppressed n e = absurd (n refl)
walk_up_hangs zero sources (c ∷ cur) suppressed n e = refl
walk_up_hangs (suc fuel) sources (c ∷ cur) suppressed n e =
    rw (e, walk_up) (walk_up_hangs fuel sources (c ∷ cur) (set_add (c ∷ cur) suppressed) n e)
