-- ===== src/Base/Members.antt =====
-- Lists as sets of names: inclusion, the pigeonhole principle, sorted lists, removal and filters.
use Prim.Native.Nat.{suc, ◌≤◌}
use mathlib.Core.Path.{◌≡◌, refl, ap, ap₂}
use mathlib.Core.Logic.{inl, inr}
use mathlib.Core.Bool.{Bool, true, false, not, ◌&&◌}
use mathlib.Core.List.{List, [], ◌∷◌, ◌++◌, map}
use native.Mathlib.Omega.{arith}
use auto_workflow.Base.Tests.{if◌then◌else◌, Bool-cases}
use auto_workflow.Base.Strings.{
  Str, ◌==◌, eq_iff, eq_refl, str_le, str_le_total, str_le_trans, str_le_antisymm,
}
use auto_workflow.Base.Lists.{
  length, filter, any, all, mem, nodup, insort, sorted, mem-append, mem-insort,
}

-- The elements of `xs` are elements of `ys`.
abbrev pub Subset : List Str → List Str → Type 0
Subset xs ys = (x : Str) → mem x xs ≡ true → mem x ys ≡ true

-- `xs.remove(x)`: the first occurrence taken out.
unfoldable pub erase_one : Str → List Str → List Str
erase_one x [] = []
erase_one x (y ∷ ys) = if x == y then ys else y ∷ erase_one x ys

pub length-erase_one :
    (x : Str) (ys : List Str) → mem x ys ≡ true → suc (length (erase_one x ys)) ≡ length ys
unfolding erase_one mem
length-erase_one x [] h = ground arith
length-erase_one x (y ∷ ys) h = ground (arith, length-erase_one x ys)

mem-erase_one :
    (x z : Str) (ys : List Str) → (z == x) ≡ false → mem z ys ≡ true → mem z (erase_one x ys) ≡ true
unfolding erase_one mem
mem-erase_one x z [] d h = ground arith
mem-erase_one x z (y ∷ ys) d h =
    ground (arith, mem-erase_one x z ys, eq_iff x y, eq_iff z x, eq_iff z y)

-- The pigeonhole principle: distinct elements of `ys` are at most as many as `ys` has.
pub length-le_of_subset :
    (xs ys : List Str) → nodup xs ≡ true → Subset xs ys → length xs ≤ length ys
unfolding nodup mem
length-le_of_subset [] ys d s = omega arith
length-le_of_subset (x ∷ xs) ys d s = omega (
  arith,
  length-erase_one x ys (s x (ground (arith, eq_refl x))),
  length-le_of_subset xs (erase_one x ys) (ground arith)
      (λ z h. mem-erase_one x z ys (ground (arith, eq_iff z x)) (s z (ground arith))),
)

-- Each element is at most every later one.
abbrev pub IsSorted : List Str → Type 0
IsSorted [] = Unit
IsSorted (x ∷ xs) = ((y : Str) → mem y xs ≡ true → str_le x y ≡ true) × IsSorted xs

pub insort-IsSorted : (xs : List Str) (x : Str) → IsSorted xs → IsSorted (insort xs x)
unfolding insort mem
insort-IsSorted [] x s = (λ y h. ground arith, tt)
insort-IsSorted (z ∷ xs) x s = elim (Bool-cases (str_le z x)) [
  | inl below ↦
      rw (below, if◌then◌else◌)
        ((λ y h. ground (arith, mem-insort y x xs, eq_iff y x, s.0 y)), insort-IsSorted xs x s.1)
  | inr above ↦
      rw (above, if◌then◌else◌)
        ((λ y h. ground (arith, str_le_total z x, s.0 y, eq_iff y z, str_le_trans x z y)), s)
]

pub sorted-IsSorted : (xs : List Str) → IsSorted (sorted xs)
unfolding sorted
sorted-IsSorted [] = tt
sorted-IsSorted (x ∷ xs) = insort-IsSorted (sorted xs) x (sorted-IsSorted xs)

pub length-map {ℓ κ} :
    {A : Type ℓ} {B : Type κ} (f : A → B) (xs : List A) → length (map f xs) ≡ length xs
length-map f [] = refl
length-map f (x ∷ xs) = ap suc (length-map f xs)

pub mem_of_all :
    (p : Str → Bool) (xs : List Str) (x : Str) → all p xs ≡ true → mem x xs ≡ true → p x ≡ true
unfolding mem
mem_of_all p [] x h m = ground arith
mem_of_all p (y ∷ xs) x h m = ground (arith, mem_of_all p xs x, eq_iff x y)

-- A failed `all` has a witness.
pub not_all :
    (p : Str → Bool) (xs : List Str)
    → all p xs ≡ false
    → (x : Str) × (mem x xs ≡ true) × (p x ≡ false)
unfolding mem
not_all p [] h = ground arith
not_all p (y ∷ xs) h = elim (Bool-cases (p y)) [
  | inl good ↦ let (x, m, bad) = not_all p xs (ground arith) in (x, ground arith, bad)
  | inr bad ↦ (y, ground (arith, eq_refl y), bad)
]

-- A sorted list without duplicates is known by its members.
pub sorted_unique :
    (xs ys : List Str)
    → IsSorted xs
    → IsSorted ys
    → nodup xs ≡ true
    → nodup ys ≡ true
    → ((n : Str) → mem n xs ≡ mem n ys)
    → xs ≡ ys
unfolding mem nodup
sorted_unique [] [] s t d e same = refl
sorted_unique [] (y ∷ ys) s t d e same = ground (arith, same y, eq_refl y)
sorted_unique (x ∷ xs) [] s t d e same = ground (arith, same x, eq_refl x)
sorted_unique (x ∷ xs) (y ∷ ys) s t d e same = ap₂ ◌∷◌ heads (
    sorted_unique xs ys s.1 t.1 (ground arith) (ground arith)
      (λ n. ground (arith, same n, heads, eq_iff n x, eq_iff n y)))
  where
    heads : x ≡ y
    heads = ground (
      arith,
      same x,
      same y,
      eq_refl x,
      eq_refl y,
      s.0 y,
      t.0 x,
      eq_iff x y,
      eq_iff y x,
      str_le_antisymm x y,
    )

pub map-snoc {ℓ κ} :
    {A : Type ℓ} {B : Type κ} (f : A → B) (xs : List A) (x : A)
    → map f (xs ++ x ∷ []) ≡ map f xs ++ f x ∷ []
map-snoc f [] x = refl
map-snoc f (y ∷ xs) x = ap (◌∷◌ (f y)) (map-snoc f xs x)

pub nodup-disjoint :
    (x : Str) (xs ys : List Str) → nodup (xs ++ ys) ≡ true → mem x ys ≡ true → mem x xs ≡ false
unfolding nodup mem
nodup-disjoint x [] ys d m = refl
nodup-disjoint x (z ∷ xs) ys d m =
    ground (arith, nodup-disjoint x xs ys, mem-append z xs ys, eq_iff x z)

pub mem-erase_one_distinct :
    (x y : Str) (xs : List Str)
    → nodup xs ≡ true
    → mem x (erase_one y xs) ≡ (mem x xs && not (x == y))
unfolding mem erase_one nodup
mem-erase_one_distinct x y [] d = refl
mem-erase_one_distinct x y (z ∷ xs) d =
    ground (arith, mem-erase_one_distinct x y xs, eq_iff x y, eq_iff y z, eq_iff x z)

pub nodup-erase_one : (y : Str) (xs : List Str) → nodup xs ≡ true → nodup (erase_one y xs) ≡ true
unfolding mem erase_one nodup
nodup-erase_one y [] d = refl
nodup-erase_one y (z ∷ xs) d = ground (arith, nodup-erase_one y xs, mem-erase_one_distinct z y xs)

-- A successful `any` has a witness.
pub any_witness :
    (p : Str → Bool) (xs : List Str)
    → any p xs ≡ true
    → (x : Str) × (mem x xs ≡ true) × (p x ≡ true)
unfolding mem
any_witness p [] h = ground arith
any_witness p (y ∷ xs) h = elim (Bool-cases (p y)) [
  | inl good ↦ (y, ground (arith, eq_refl y), good)
  | inr bad ↦ let (x, m, good) = any_witness p xs (ground arith) in (x, ground arith, good)
]

pub not_of_any :
    (p : Str → Bool) (xs : List Str) (x : Str) → any p xs ≡ false → mem x xs ≡ true → p x ≡ false
unfolding mem
not_of_any p [] x h m = ground arith
not_of_any p (y ∷ xs) x h m = ground (arith, not_of_any p xs x, eq_iff x y)

pub filter-mem :
    (p : Str → Bool) (xs : List Str) (x : Str)
    → mem x (filter p xs) ≡ true
    → (mem x xs ≡ true) × (p x ≡ true)
unfolding mem
filter-mem p [] x h = ground arith
filter-mem p (y ∷ xs) x h = ground (arith, filter-mem p xs x, eq_iff x y)

pub nodup-filter : (p : Str → Bool) (xs : List Str) → nodup xs ≡ true → nodup (filter p xs) ≡ true
unfolding nodup
nodup-filter p [] d = refl
nodup-filter p (y ∷ xs) d = ground (arith, nodup-filter p xs, filter-mem p xs y)
