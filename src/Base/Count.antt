-- ===== src/Base/Count.antt =====
-- How often a string stands in a list: membership and permutations by counting.
use Prim.Native.Nat.{ℕ, suc, ◌+◌, ◌≤◌, ◌<◌}
use mathlib.Core.Path.{◌≡◌, refl}
use mathlib.Core.Bool.{Bool, true, false, ◌||◌}
use mathlib.Core.List.{List, [], ◌∷◌, ◌++◌}
use native.Mathlib.Omega.{arith}
use debianform.Base.Tests.{if◌then◌else◌}
use debianform.Base.Strings.{Text, text_eq, text_eq_refl}

unfoldable pub count : Text → List Text → ℕ
count a [] = 0
count a (x ∷ xs) = if text_eq x a then suc (count a xs) else count a xs

pub count-nil : (a : Text) → count a [] ≡ 0
unfolding count
count-nil a = refl

pub count-append : (a : Text) (xs ys : List Text) → count a (xs ++ ys) ≡ count a xs + count a ys
unfolding count
count-append a [] ys = omega arith
count-append a (x ∷ xs) ys = ground (arith, count-append a xs ys)

pub count-cons_self : (a : Text) (xs : List Text) → count a (a ∷ xs) ≡ suc (count a xs)
unfolding count
count-cons_self a xs = ground (arith, text_eq_refl a)

-- `slices.Contains`, or a key of a `map[string]bool` used as a set.
unfoldable pub contains : List Text → Text → Bool
contains [] a = false
contains (x ∷ xs) a = text_eq x a || contains xs a

pub contains-true : (a : Text) (xs : List Text) → contains xs a ≡ true → 0 < count a xs
unfolding contains count
contains-true a [] h = ground arith
contains-true a (x ∷ xs) h = ground (arith, contains-true a xs)

pub contains-false : (a : Text) (xs : List Text) → contains xs a ≡ false → count a xs ≡ 0
unfolding contains count
contains-false a [] h = refl
contains-false a (x ∷ xs) h = ground (arith, contains-false a xs)

-- The list holds no string twice.
abbrev pub IsDistinct : List Text → Type 0
IsDistinct xs = (a : Text) → count a xs ≤ 1

-- Two lists hold the same strings, as often.
abbrev pub SameItems : List Text → List Text → Type 0
SameItems xs ys = (a : Text) → count a xs ≡ count a ys
