-- ===== src/Base/Sort.antt =====
-- `sort.SliceStable`: the stable sort by a comparison, as an insertion from the right.
use Prim.Native.Nat.{suc}
use mathlib.Core.Path.{◌≡◌, refl, ap}
use mathlib.Core.Bool.{Bool}
use mathlib.Core.List.{List, [], ◌∷◌, map}
use native.Mathlib.Omega.{arith}
use debianform.Base.Tests.{if◌then◌else◌, length}
use debianform.Base.Strings.{Text, text_lt}
use debianform.Base.Count.{count}

module _ {ℓ} {A : Type ℓ} (less : A → A → Bool) where
  unfoldable pub place : A → List A → List A
  place x [] = x ∷ []
  place x (y ∷ ys) = if less y x then y ∷ place x ys else x ∷ y ∷ ys

  unfoldable pub sort_stable : List A → List A
  unfolding place
  sort_stable [] = []
  sort_stable (x ∷ xs) = place x (sort_stable xs)

  pub length-place : (x : A) (ys : List A) → length (place x ys) ≡ suc (length ys)
  unfolding place
  length-place x [] = refl
  length-place x (y ∷ ys) = ground (arith, length-place x ys)

  pub length-sort_stable : (xs : List A) → length (sort_stable xs) ≡ length xs
  unfolding sort_stable
  length-sort_stable [] = refl
  length-sort_stable (x ∷ xs) =
      omega (arith, length-place x (sort_stable xs), length-sort_stable xs)

module _ {ℓ} {A : Type ℓ} (less : A → A → Bool) (key : A → Text) where
  count-map-place :
      (a : Text) (x : A) (ys : List A)
      → count a (map key (place less x ys)) ≡ count a (map key (x ∷ ys))
  unfolding place count
  count-map-place a x [] = refl
  count-map-place a x (y ∷ ys) = ground (arith, count-map-place a x ys)

  -- Sorting neither loses nor adds an element, as far as its key tells.
  pub count-map-sort_stable :
      (a : Text) (xs : List A) → count a (map key (sort_stable less xs)) ≡ count a (map key xs)
  unfolding sort_stable count
  count-map-sort_stable a [] = refl
  count-map-sort_stable a (x ∷ xs) =
      ground (arith, count-map-place a x (sort_stable less xs), count-map-sort_stable a xs)

map_id : (xs : List Text) → map (λ x. x) xs ≡ xs
map_id [] = refl
map_id (x ∷ xs) = ap (λ (l : List Text). x ∷ l) (map_id xs)

-- Sorting neither loses nor adds a string.
pub count-sort_stable :
    (less : Text → Text → Bool) (a : Text) (xs : List Text)
    → count a (sort_stable less xs) ≡ count a xs
count-sort_stable less a xs =
    rw (map_id (sort_stable less xs), map_id xs) at (count-map-sort_stable less (λ x. x) a xs)

-- `sort.Strings`
unfoldable pub sort_strings : List Text → List Text
unfolding sort_stable
sort_strings xs = sort_stable text_lt xs
