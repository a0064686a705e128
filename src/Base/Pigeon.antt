-- ===== src/Base/Pigeon.antt =====
-- Lists that hold no more of each string than another list are no longer than it.
use Prim.Native.Nat.{suc, ◌-◌, ◌≤◌, ◌<◌}
use mathlib.Core.Path.{◌≡◌, refl}
use mathlib.Core.List.{List, [], ◌∷◌}
use native.Mathlib.Omega.{arith}
use debianform.Base.Tests.{if◌then◌else◌, length}
use debianform.Base.Strings.{Text, text_eq, text_eq_iff, text_eq_refl}
use debianform.Base.Count.{count, SameItems}

-- The list without the first `a`.
erase : Text → List Text → List Text
erase a [] = []
erase a (x ∷ xs) = if text_eq x a then xs else x ∷ erase a xs

length-erase : (a : Text) (xs : List Text) → 0 < count a xs → suc (length (erase a xs)) ≡ length xs
unfolding erase count
length-erase a [] h = absurd (omega arith)
length-erase a (x ∷ xs) h = ground (arith, length-erase a xs)

count-erase :
    (a b : Text) (xs : List Text)
    → count b (erase a xs) ≡ (if text_eq a b then count b xs - 1 else count b xs)
unfolding erase count
count-erase a b [] = ground arith
count-erase a b (x ∷ xs) =
    ground (arith, text_eq_iff a b, text_eq_iff x a, text_eq_iff x b, count-erase a b xs)

pub length-le_of_count :
    (xs ys : List Text) → ((a : Text) → count a xs ≤ count a ys) → length xs ≤ length ys
unfolding count
length-le_of_count [] ys h = omega arith
length-le_of_count (x ∷ xs) ys h =
    let in_ys : 0 < count x ys = ground (arith, h x, text_eq_refl x) in
    omega (
      arith,
      length-erase x ys in_ys,
      length-le_of_count xs (erase x ys)
          (λ a. ground (arith, h a, count-erase x a ys, text_eq_iff x a)),
    )

-- With the same length besides, the lists hold the same strings.
pub SameItems-length :
    (xs ys : List Text)
    → ((a : Text) → count a xs ≤ count a ys)
    → length ys ≤ length xs
    → SameItems xs ys
unfolding count
SameItems-length [] [] h l a = refl
SameItems-length [] (y ∷ ys) h l a = absurd (omega arith)
SameItems-length (x ∷ xs) ys h l a =
    let in_ys : 0 < count x ys = ground (arith, h x, text_eq_refl x) in
    let rest =
      SameItems-length xs (erase x ys)
        (λ b. ground (arith, h b, count-erase x b ys, text_eq_iff x b))
        (omega (arith, length-erase x ys in_ys)) a in
    ground (arith, rest, count-erase x a ys, text_eq_iff x a, h a, in_ys)
