-- ===== src/Base/Strings.antt =====
-- Python's `str`, as the list of its code points: equality, the order by code points, and the
-- operations that the modules use.
use Prim.Native.Char.{code}
use Prim.Native.Nat.{ℕ}
use Prim.Native.String.{String}
use mathlib.Core.Path.{◌≡◌, refl}
use mathlib.Core.Logic.{◌↔◌, ◌⊎◌, inl, inr}
use mathlib.Core.Bool.{Bool, true, false, ◌&&◌, ◌||◌}
use mathlib.Core.List.{List, [], ◌∷◌}
use native.Mathlib.Omega.{arith}
use auto_workflow.Base.Tests.{ltb, nat_eq}

abbrev pub Str : Type 0
Str = List ℕ

-- The code points of a literal.
abbrev pub codes : String → Str
codes String.[] = []
codes (String.◌∷◌ c s) = code c ∷ codes s

infix 50 ◌==◌
unfoldable pub ◌==◌ : Str → Str → Bool
[] == [] = true
[] == (y ∷ t) = false
(x ∷ s) == [] = false
(x ∷ s) == (y ∷ t) = nat_eq x y && s == t

-- `s <= t`: the first code point that differs decides.
unfoldable pub str_le : Str → Str → Bool
str_le [] t = true
str_le (x ∷ s) [] = false
str_le (x ∷ s) (y ∷ t) = ltb x y || (nat_eq x y && str_le s t)

pub eq_refl : (s : Str) → (s == s) ≡ true
unfolding ◌==◌
eq_refl [] = refl
eq_refl (x ∷ s) = ground (arith, eq_refl s)

eq_of_test : (s t : Str) → (s == t) ≡ true → s ≡ t
unfolding ◌==◌
eq_of_test [] [] h = refl
eq_of_test [] (y ∷ t) h = ground arith
eq_of_test (x ∷ s) [] h = ground arith
eq_of_test (x ∷ s) (y ∷ t) h = ground (arith, eq_of_test s t)

test_of_eq : (s t : Str) → s ≡ t → (s == t) ≡ true
test_of_eq s t e = rw e (eq_refl t)

pub eq_iff : (s t : Str) → ((s == t) ≡ true) ↔ (s ≡ t)
eq_iff s t = (eq_of_test s t, test_of_eq s t)

pub eq_comm : (s t : Str) → (s == t) ≡ (t == s)
eq_comm s t = ground (arith, eq_iff s t, eq_iff t s)

pub str_le_refl : (s : Str) → str_le s s ≡ true
unfolding str_le
str_le_refl [] = refl
str_le_refl (x ∷ s) = ground (arith, str_le_refl s)

pub str_le_total : (s t : Str) → (str_le s t ≡ true) ⊎ (str_le t s ≡ true)
unfolding str_le
str_le_total [] t = inl refl
str_le_total (x ∷ s) [] = inr refl
str_le_total (x ∷ s) (y ∷ t) = ground (arith, str_le_total s t)

pub str_le_trans : (s t u : Str) → str_le s t ≡ true → str_le t u ≡ true → str_le s u ≡ true
unfolding str_le
str_le_trans [] t u h k = refl
str_le_trans (x ∷ s) [] u h k = ground arith
str_le_trans (x ∷ s) (y ∷ t) [] h k = ground arith
str_le_trans (x ∷ s) (y ∷ t) (z ∷ u) h k = ground (arith, str_le_trans s t u)

pub str_le_antisymm : (s t : Str) → str_le s t ≡ true → str_le t s ≡ true → s ≡ t
unfolding str_le
str_le_antisymm [] [] h k = refl
str_le_antisymm [] (y ∷ t) h k = ground arith
str_le_antisymm (x ∷ s) [] h k = ground arith
str_le_antisymm (x ∷ s) (y ∷ t) h k = ground (arith, str_le_antisymm s t)
