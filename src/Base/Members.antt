-- ===== src/Base/Members.antt =====
-- Membership of an item in a list, with the place where it stands.
use Prim.Native.Nat.{◌<◌}
use mathlib.Core.Path.{◌≡◌, refl}
use mathlib.Core.Logic.{◌⊎◌, inl, inr}
use mathlib.Core.Bool.{Bool, true, false}
use mathlib.Core.List.{List, [], ◌∷◌, ◌++◌, map}
use native.Mathlib.Omega.{arith}
use debianform.Base.Strings.{Text, text_eq_iff}
use debianform.Base.Count.{count}
use debianform.Base.Sort.{place, sort_stable}

module _ {A : Type 0} where
  abbrev pub Among : A → List A → Type 0
  Among item [] = ⊥
  Among item (other ∷ items) = (item ≡ other) ⊎ Among item items

  pub Among-append :
      (item : A) (xs ys : List A) → Among item (xs ++ ys) → Among item xs ⊎ Among item ys
  Among-append item [] ys h = inr h
  Among-append item (x ∷ xs) ys (inl same) = inl (inl same)
  Among-append item (x ∷ xs) ys (inr h) = elim (Among-append item xs ys h) [
    | inl i ↦ inl (inr i)
    | inr i ↦ inr i
  ]

  pub Among-left : (item : A) (xs ys : List A) → Among item xs → Among item (xs ++ ys)
  Among-left item [] ys h = absurd h
  Among-left item (x ∷ xs) ys (inl same) = inl same
  Among-left item (x ∷ xs) ys (inr h) = inr (Among-left item xs ys h)

  pub Among-right : (item : A) (xs ys : List A) → Among item ys → Among item (xs ++ ys)
  Among-right item [] ys h = h
  Among-right item (x ∷ xs) ys h = inr (Among-right item xs ys h)

  Among-place :
      (before : A → A → Bool) (item x : A) (xs : List A)
      → Among item (place before x xs)
      → (item ≡ x) ⊎ Among item xs
  unfolding place
  Among-place before item x [] h = h
  Among-place before item x (y ∷ ys) h = go (before y x) refl (λ i. Among-place before item x ys i)
    where
      go :
          (b : Bool)
          → before y x ≡ b
          → (Among item (place before x ys) → (item ≡ x) ⊎ Among item ys)
          → (item ≡ x) ⊎ Among item (y ∷ ys)
      go true e later = elim (rw (e, place) at h) [
        | inl same ↦ inr (inl same)
        | inr i ↦ elim (later i) [ inl same ↦ inl same | inr j ↦ inr (inr j) ]
      ]
      go false e later = rw (e, place) at h

  pub Among-sort_stable :
      (before : A → A → Bool) (item : A) (xs : List A)
      → Among item (sort_stable before xs)
      → Among item xs
  unfolding sort_stable
  Among-sort_stable before item [] h = h
  Among-sort_stable before item (x ∷ xs) h =
      elim (Among-place before item x (sort_stable before xs) h) [
        | inl same ↦ inl same
        | inr i ↦ inr (Among-sort_stable before item xs i)
      ]

pub Among-map :
    {A B : Type 0} (f : B → A) (item : A) (xs : List B)
    → Among item (map f xs)
    → (x : B) × (item ≡ f x) × Among x xs
Among-map f item [] h = absurd h
Among-map f item (y ∷ ys) (inl same) = (y, same, inl refl)
Among-map f item (y ∷ ys) (inr h) = let (x, same, i) = Among-map f item ys h in (x, same, inr i)

pub count_of_Among : (x : Text) (xs : List Text) → Among x xs → 0 < count x xs
unfolding count
count_of_Among x [] h = absurd h
count_of_Among x (y ∷ ys) (inl same) = ground (arith, text_eq_iff y x)
count_of_Among x (y ∷ ys) (inr h) = ground (arith, count_of_Among x ys h)
