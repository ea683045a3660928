-- ===== src/Base/Lists.antt =====
-- Lists: native lengths, tests for members, duplicates and sorting, over `str` elements.
use Prim.Native.Nat.{ℕ, zero, suc, ◌+◌, ◌-◌}
use mathlib.Core.Path.{◌≡◌, refl, sym, ap, ◌∙◌}
use mathlib.Core.Bool.{Bool, true, false, not, ◌&&◌, ◌||◌}
use mathlib.Core.List.{List, [], ◌∷◌, ◌++◌}
use native.Mathlib.Omega.{arith}
use auto_workflow.Base.Tests.{if◌then◌else◌}
use auto_workflow.Base.Strings.{Str, ◌==◌, eq_iff, str_le}

module _ {ℓ} {A : Type ℓ} where
  abbrev pub length : List A → ℕ
  length [] = 0
  length (x ∷ xs) = suc (length xs)

  pub length-append : (xs ys : List A) → length (xs ++ ys) ≡ length xs + length ys
  length-append [] ys = omega arith
  length-append (x ∷ xs) ys = omega (arith, length-append xs ys)

  -- `xs[:n]` and `xs[n:]`
  unfoldable pub take : ℕ → List A → List A
  take zero xs = []
  take (suc n) [] = []
  take (suc n) (x ∷ xs) = x ∷ take n xs

  unfoldable pub drop : ℕ → List A → List A
  drop zero xs = xs
  drop (suc n) [] = []
  drop (suc n) (x ∷ xs) = drop n xs

  pub take-drop : (n : ℕ) (xs : List A) → take n xs ++ drop n xs ≡ xs
  unfolding take drop
  take-drop zero xs = refl
  take-drop (suc n) [] = refl
  take-drop (suc n) (x ∷ xs) = ap (λ ys. x ∷ ys) (take-drop n xs)

  pub length-drop : (n : ℕ) (xs : List A) → length (drop n xs) ≡ length xs - n
  unfolding drop
  length-drop zero xs = omega arith
  length-drop (suc n) [] = omega arith
  length-drop (suc n) (x ∷ xs) = omega (arith, length-drop n xs)

  take-nil : (n : ℕ) → take n [] ≡ []
  unfolding take
  take-nil zero = refl
  take-nil (suc n) = refl

  -- `xs[m:][:n]` is `xs[:m + n][m:]`.
  pub take_of_drop : (m n k : ℕ) (xs : List A) → k ≡ m + n → take n (drop m xs) ≡ drop m (take k xs)
  unfolding take drop
  take_of_drop zero n k xs e = ap (λ j. take j xs) (omega arith)
  take_of_drop (suc m) n zero xs e = absurd (omega arith)
  take_of_drop (suc m) n (suc k) [] e = take-nil n
  take_of_drop (suc m) n (suc k) (x ∷ xs) e = take_of_drop m n k xs (omega arith)

  pub nil_of_length : (xs : List A) → length xs ≡ 0 → xs ≡ []
  nil_of_length [] h = refl
  nil_of_length (x ∷ xs) h = absurd (omega arith)

  pub length-take-drop : (n : ℕ) (xs : List A) → length xs ≡ length (take n xs) + length (drop n xs)
  length-take-drop n xs = sym (ap length (take-drop n xs)) ∙ length-append (take n xs) (drop n xs)

  -- `[x for x in xs if p(x)]`
  abbrev pub filter : (A → Bool) → List A → List A
  filter p [] = []
  filter p (x ∷ xs) = if p x then x ∷ filter p xs else filter p xs

  -- `any(p(x) for x in xs)`
  abbrev pub any : (A → Bool) → List A → Bool
  any p [] = false
  any p (x ∷ xs) = p x || any p xs

  -- `all(p(x) for x in xs)`
  abbrev pub all : (A → Bool) → List A → Bool
  all p [] = true
  all p (x ∷ xs) = p x && all p xs

  abbrev pub All {κ} : (A → Type κ) → List A → Type κ
  All P [] = Unit
  All P (x ∷ xs) = P x × All P xs

-- `x in xs`
unfoldable pub mem : Str → List Str → Bool
mem x [] = false
mem x (y ∷ ys) = x == y || mem x ys

-- No element occurs twice.
unfoldable pub nodup : List Str → Bool
nodup [] = true
nodup (x ∷ xs) = not (mem x xs) && nodup xs

-- `bisect.insort(xs, x)` on a sorted list: behind all elements that are at most `x`.
unfoldable pub insort : List Str → Str → List Str
insort [] x = x ∷ []
insort (y ∷ ys) x = if str_le y x then y ∷ insort ys x else x ∷ y ∷ ys

-- `sorted(xs)`
unfoldable pub sorted : List Str → List Str
sorted [] = []
sorted (x ∷ xs) = insort (sorted xs) x

-- `s.add(x)`, for a set as the list of its elements.
unfoldable pub set_add : Str → List Str → List Str
set_add x s = if mem x s then s else s ++ x ∷ []

-- `s.discard(x)`
unfoldable pub set_discard : Str → List Str → List Str
set_discard x [] = []
set_discard x (y ∷ ys) = if x == y then set_discard x ys else y ∷ set_discard x ys

pub mem-append : (x : Str) (xs ys : List Str) → mem x (xs ++ ys) ≡ (mem x xs || mem x ys)
unfolding mem
mem-append x [] ys = refl
mem-append x (y ∷ xs) ys = ground (arith, mem-append x xs ys)

pub mem-set_add : (x y : Str) (s : List Str) → mem x (set_add y s) ≡ (x == y || mem x s)
unfolding set_add mem
mem-set_add x y s = ground (arith, mem-append x s (y ∷ []), eq_iff x y)

pub mem-set_discard :
    (x y : Str) (s : List Str) → mem x (set_discard y s) ≡ (not (x == y) && mem x s)
unfolding set_discard mem
mem-set_discard x y [] = ground arith
mem-set_discard x y (z ∷ s) =
    ground (arith, mem-set_discard x y s, eq_iff x y, eq_iff y z, eq_iff x z)

pub mem-insort : (x y : Str) (xs : List Str) → mem x (insort xs y) ≡ (x == y || mem x xs)
unfolding insort mem
mem-insort x y [] = refl
mem-insort x y (z ∷ xs) = ground (arith, mem-insort x y xs)

pub mem-sorted : (x : Str) (xs : List Str) → mem x (sorted xs) ≡ mem x xs
unfolding sorted mem
mem-sorted x [] = refl
mem-sorted x (y ∷ xs) = ground (arith, mem-insort x y (sorted xs), mem-sorted x xs)

pub length-insort : (x : Str) (xs : List Str) → length (insort xs x) ≡ suc (length xs)
unfolding insort
length-insort x [] = refl
length-insort x (y ∷ xs) = ground (arith, length-insort x xs)

pub length-sorted : (xs : List Str) → length (sorted xs) ≡ length xs
unfolding sorted
length-sorted [] = refl
length-sorted (x ∷ xs) = omega (arith, length-insort x (sorted xs), length-sorted xs)

pub nodup-insort : (x : Str) (xs : List Str) → nodup (insort xs x) ≡ nodup (x ∷ xs)
unfolding nodup insort mem
nodup-insort x [] = refl
nodup-insort x (y ∷ xs) =
    ground (arith, nodup-insort x xs, mem-insort y x xs, eq_iff x y, eq_iff y x)

pub nodup-sorted : (xs : List Str) → nodup (sorted xs) ≡ nodup xs
unfolding nodup sorted
nodup-sorted [] = refl
nodup-sorted (x ∷ xs) = ground (arith, nodup-insort x (sorted xs), nodup-sorted xs, mem-sorted x xs)

pub nodup-snoc : (xs : List Str) (x : Str) → nodup (xs ++ x ∷ []) ≡ (not (mem x xs) && nodup xs)
unfolding nodup mem
nodup-snoc [] x = refl
nodup-snoc (y ∷ xs) x =
    ground (arith, nodup-snoc xs x, mem-append y xs (x ∷ []), eq_iff x y, eq_iff y x)

pub nodup-set_add : (x : Str) (s : List Str) → nodup s ≡ true → nodup (set_add x s) ≡ true
unfolding set_add
nodup-set_add x s h = ground (arith, nodup-snoc s x)
