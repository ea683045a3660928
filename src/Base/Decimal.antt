-- ===== src/Base/Decimal.antt =====
-- `str(n)` for a natural number, and a joint `f"{a}:{n}"` that can be taken apart again.
use Prim.Native.Nat.{ℕ, zero, suc, ◌+◌, ◌-◌, ◌*◌, ◌/◌, ◌%◌, ◌<◌}
use mathlib.Core.Path.{◌≡◌, refl, sym, ap, ◌∙◌}
use mathlib.Core.Logic.{◌≢◌, inl, inr}
use mathlib.Core.List.{[], ◌∷◌, ◌++◌}
use native.Mathlib.Omega.{arith}
use auto_workflow.Base.Tests.{ltb, if◌then◌else◌, Bool-cases}
use auto_workflow.Base.Strings.{Str}
use auto_workflow.Base.Lists.{All}

decimal_fuel : ℕ → ℕ → Str
decimal_fuel zero n = []
decimal_fuel (suc f) n =
    let front = decimal_fuel f (n / 10) in
    if ltb n 10 then (b'0' + n) ∷ [] else front ++ (b'0' + n % 10) ∷ []

-- Each digit takes a factor of ten away, so `n + 1` rounds are enough.
unfoldable pub decimal : ℕ → Str
unfolding decimal_fuel
decimal n = decimal_fuel (suc n) n

value_from : ℕ → Str → ℕ
value_from acc [] = acc
value_from acc (c ∷ s) = value_from (acc * 10 + (c - b'0')) s

value_from-snoc :
    (acc : ℕ) (s : Str) (c : ℕ) → value_from acc (s ++ c ∷ []) ≡ value_from acc s * 10 + (c - b'0')
unfolding value_from
value_from-snoc acc [] c = refl
value_from-snoc acc (x ∷ s) c = value_from-snoc (acc * 10 + (x - b'0')) s c

value_from-decimal_fuel : (f n : ℕ) → n < f → value_from 0 (decimal_fuel f n) ≡ n
unfolding decimal_fuel value_from
value_from-decimal_fuel zero n h = absurd (omega arith)
value_from-decimal_fuel (suc f) n h = elim (Bool-cases (ltb n 10)) [
  | inl small ↦ rw (small, if◌then◌else◌) (omega arith)
  | inr big ↦
      rw (big, if◌then◌else◌)
        (rw (value_from-snoc 0 (decimal_fuel f (n / 10)) (b'0' + n % 10))
          (rw (value_from-decimal_fuel f (n / 10) (ground arith)) (omega arith)))
]

-- The digits determine the number.
pub decimal_injective : (m n : ℕ) → decimal m ≡ decimal n → m ≡ n
unfolding decimal
decimal_injective m n e =
    sym (value_from-decimal_fuel (suc m) m (omega arith))
    ∙ ap (value_from 0) e
    ∙ value_from-decimal_fuel (suc n) n (omega arith)

-- No character of the text is the separator.
abbrev pub Lacks : ℕ → Str → Type 0
Lacks c = All (λ x. x ≢ c)

Lacks-append : (c : ℕ) (s t : Str) → Lacks c s → Lacks c t → Lacks c (s ++ t)
Lacks-append c [] t h k = k
Lacks-append c (x ∷ s) t h k = (h.0, Lacks-append c s t h.1 k)

decimal_fuel-Lacks : (f n : ℕ) → Lacks b':' (decimal_fuel f n)
unfolding decimal_fuel
decimal_fuel-Lacks zero n = tt
decimal_fuel-Lacks (suc f) n = elim (Bool-cases (ltb n 10)) [
  | inl small ↦ rw (small, if◌then◌else◌) ((ground arith), tt)
  | inr big ↦
      rw (big, if◌then◌else◌)
        (Lacks-append b':' (decimal_fuel f (n / 10)) ((b'0' + n % 10) ∷ [])
          (decimal_fuel-Lacks f (n / 10)) ((omega arith), tt))
]

pub decimal-Lacks : (n : ℕ) → Lacks b':' (decimal n)
unfolding decimal
decimal-Lacks n = decimal_fuel-Lacks (suc n) n

not_lacking : (c : ℕ) (s t : Str) → Lacks c (s ++ c ∷ t) → ⊥
not_lacking c [] t h = h.0 refl
not_lacking c (x ∷ s) t h = not_lacking c s t h.1

-- Where the part behind the separator lacks it, both parts are known from the whole.
pub split_unique :
    (c : ℕ) (a b s t : Str) → Lacks c s → Lacks c t → a ++ c ∷ s ≡ b ++ c ∷ t → (a ≡ b) × (s ≡ t)
split_unique c [] [] s t h k e = (refl, cc)
split_unique c [] (y ∷ b) s t h k e = absurd (not_lacking c b t (rw tails at h))
  where
    tails : s ≡ b ++ c ∷ t
    tails = cc
split_unique c (x ∷ a) [] s t h k e = absurd (not_lacking c a s (rw tails at k))
  where
    tails : t ≡ a ++ c ∷ s
    tails = cc
split_unique c (x ∷ a) (y ∷ b) s t h k e =
    let (front, back) = split_unique c a b s t h k (cc) in (cc, back)
