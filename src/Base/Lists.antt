-- ===== src/Base/Lists.antt =====
-- Parts of a list, by native numbers.
use Prim.Native.Nat.{ℕ, zero, suc, ◌+◌, ◌-◌, ◌≤◌}
use mathlib.Core.Path.{◌≡◌, refl, ◌∙◌}
use mathlib.Core.Logic.{inl, inr, ◌⊎◌}
use mathlib.Core.List.{List, [], ◌∷◌, ◌++◌}
use native.Mathlib.Omega.{arith}
use debianform.Base.Tests.{length, length-append}

unfoldable pub take : {A : Type 0} → ℕ → List A → List A
take zero xs = []
take (suc n) [] = []
take (suc n) (x ∷ xs) = x ∷ take n xs

unfoldable pub drop : {A : Type 0} → ℕ → List A → List A
drop zero xs = xs
drop (suc n) [] = []
drop (suc n) (x ∷ xs) = drop n xs

unfoldable pub reversed : {A : Type 0} → List A → List A
reversed [] = []
reversed (x ∷ xs) = reversed xs ++ x ∷ []

module _ {A : Type 0} where
  pub take-append-drop : (n : ℕ) (xs : List A) → take n xs ++ drop n xs ≡ xs
  unfolding take drop
  take-append-drop zero xs = refl
  take-append-drop (suc n) [] = refl
  take-append-drop (suc n) (x ∷ xs) = cc (take-append-drop n xs)

  drop_empty : (m : ℕ) (xs : List A) → xs ≡ [] → drop m xs ≡ []
  unfolding drop
  drop_empty zero xs e = e
  drop_empty (suc m) xs e = rw e refl

  pub drop-drop : (m n : ℕ) (xs : List A) → drop m (drop n xs) ≡ drop (n + m) xs
  unfolding drop
  drop-drop m zero xs = let same : 0 + m ≡ m = omega arith in rw same refl
  drop-drop m (suc n) [] =
      let next : suc n + m ≡ suc (n + m) = omega arith in rw next (drop_empty m [] refl)
  drop-drop m (suc n) (x ∷ xs) =
      let next : suc n + m ≡ suc (n + m) = omega arith in rw next (drop-drop m n xs)

  pub length-take : (n : ℕ) (xs : List A) → n ≤ length xs → length (take n xs) ≡ n
  unfolding take
  length-take zero xs h = refl
  length-take (suc n) [] h = absurd (omega (arith, h))
  length-take (suc n) (x ∷ xs) h = omega (arith, length-take n xs (omega (arith, h)))

  pub length-reversed : (xs : List A) → length (reversed xs) ≡ length xs
  unfolding reversed
  length-reversed [] = refl
  length-reversed (x ∷ xs) = omega (arith, length-append (reversed xs) (x ∷ []), length-reversed xs)

  reversed-append_one : (xs : List A) (x : A) → reversed (xs ++ x ∷ []) ≡ x ∷ reversed xs
  unfolding reversed
  reversed-append_one [] x = refl
  reversed-append_one (y ∷ xs) x = cc (reversed-append_one xs x)

  pub reversed-reversed : (xs : List A) → reversed (reversed xs) ≡ xs
  unfolding reversed
  reversed-reversed [] = refl
  reversed-reversed (x ∷ xs) = cc (reversed-append_one (reversed xs) x, reversed-reversed xs)

  take-append_short : (n : ℕ) (xs ys : List A) → n ≤ length xs → take n (xs ++ ys) ≡ take n xs
  unfolding take
  take-append_short zero xs ys h = refl
  take-append_short (suc n) [] ys h = absurd (omega (arith, h))
  take-append_short (suc n) (x ∷ xs) ys h = cc (take-append_short n xs ys (omega (arith, h)))

  pub take_all : (n : ℕ) (xs : List A) → length xs ≤ n → take n xs ≡ xs
  unfolding take
  take_all zero [] h = refl
  take_all (suc n) [] h = refl
  take_all zero (x ∷ xs) h = absurd (omega (arith, h))
  take_all (suc n) (x ∷ xs) h = cc (take_all n xs (omega (arith, h)))

  short_or_all :
      (n : ℕ) (xs : List A)
      → ((n ≤ length xs) × (suc (length xs) - n ≡ suc (length xs - n)))
        ⊎ ((suc (length xs) ≤ n) × (suc (length xs) - n ≡ 0))
  short_or_all n xs = ground arith

  -- The first items of the reversed list are the last ones.
  pub take-reversed :
      (n : ℕ) (xs : List A) → take n (reversed xs) ≡ reversed (drop (length xs - n) xs)
  unfolding reversed drop
  take-reversed n [] =
      let nothing : 0 - n ≡ 0 = omega arith in rw nothing (take_all n [] (omega arith))
  take-reversed n (x ∷ xs) = elim (short_or_all n xs) [
    | inl (short, one_more) ↦ rw one_more (
        take-append_short n (reversed xs) (x ∷ []) (omega (arith, short, length-reversed xs))
        ∙ take-reversed n xs)
    | inr (all, nothing) ↦ rw nothing (
        take_all n (reversed xs ++ x ∷ [])
          (omega (arith, all, length-append (reversed xs) (x ∷ []), length-reversed xs)))
  ]
