-- ===== src/Base/Dict.antt =====
-- `map[string]V`: an association list. A loop over the map goes through it in the list's order,
-- so a theorem about every list is one about every order of iteration.
use Prim.Native.Nat.{suc, ◌<◌}
use mathlib.Core.Path.{◌≡◌, refl}
use mathlib.Core.Logic.{inl, inr}
use mathlib.Core.Bool.{Bool, true, false}
use mathlib.Core.Option.{Option, none, some}
use mathlib.Core.List.{List, [], ◌∷◌}
use native.Mathlib.Omega.{arith}
use debianform.Base.Tests.{if◌then◌else◌, Option-cases, length}
use debianform.Base.Strings.{Text, text_eq, text_eq_iff}
use debianform.Base.Count.{count}

abbrev pub Dict : Type 0 → Type 0
Dict V = List (Text × V)

module _ {V : Type 0} where
  unfoldable pub lookup : Text → Dict V → Option V
  lookup k [] = none
  lookup k ((j, v) ∷ m) = if text_eq j k then some v else lookup k m

  unfoldable pub insert : Text → V → Dict V → Dict V
  insert k v [] = (k, v) ∷ []
  insert k v ((j, w) ∷ m) = if text_eq j k then (k, v) ∷ m else (j, w) ∷ insert k v m

  -- `delete(m, k)`
  unfoldable pub delete : Text → Dict V → Dict V
  delete k [] = []
  delete k ((j, w) ∷ m) = if text_eq j k then delete k m else (j, w) ∷ delete k m

  unfoldable pub keys : Dict V → List Text
  keys [] = []
  keys ((j, v) ∷ m) = j ∷ keys m

  -- `_, ok := m[k]`
  unfoldable pub has : Text → Dict V → Bool
  has k [] = false
  has k ((j, v) ∷ m) = if text_eq j k then true else has k m

  -- `m[k]`, with the zero value of the element type where the key is missing.
  unfoldable pub get : V → Text → Dict V → V
  get zero_value k [] = zero_value
  get zero_value k ((j, v) ∷ m) = if text_eq j k then v else get zero_value k m

  -- `m[k] = v`, and then the element under `asked`.
  pub lookup-insert :
      (k asked : Text) (v : V) (m : Dict V)
      → lookup asked (insert k v m) ≡ (if text_eq k asked then some v else lookup asked m)
  unfolding lookup insert
  lookup-insert k asked v [] = refl
  lookup-insert k asked v ((head, w) ∷ m) =
      let later = lookup-insert k asked v m in
      ground (arith, later, text_eq_iff head k, text_eq_iff head asked, text_eq_iff k asked)

  pub lookup-delete :
      (k j : Text) (m : Dict V) → lookup j (delete k m) ≡ (if text_eq k j then none else lookup j m)
  unfolding lookup delete
  lookup-delete k j [] = ground arith
  lookup-delete k j ((i, w) ∷ m) =
      ground (arith, text_eq_iff k j, text_eq_iff i k, text_eq_iff i j, lookup-delete k j m)

  pub get-lookup :
      (z : V) (k : Text) (m : Dict V) → get z k m ≡ elim (lookup k m) [ some v ↦ v | none ↦ z ]
  unfolding get lookup
  get-lookup z k [] = refl
  get-lookup z k ((j, v) ∷ m) = ground (arith, get-lookup z k m)

  pub get-insert :
      (z : V) (k j : Text) (v : V) (m : Dict V)
      → get z j (insert k v m) ≡ (if text_eq k j then v else get z j m)
  unfolding get insert
  get-insert z k j v [] = refl
  get-insert z k j v ((i, w) ∷ m) =
      ground (arith, text_eq_iff k j, text_eq_iff i k, text_eq_iff i j, get-insert z k j v m)

  pub has-insert :
      (k j : Text) (v : V) (m : Dict V)
      → has j (insert k v m) ≡ (if text_eq k j then true else has j m)
  unfolding has insert
  has-insert k j v [] = refl
  has-insert k j v ((i, w) ∷ m) =
      ground (arith, text_eq_iff k j, text_eq_iff i k, text_eq_iff i j, has-insert k j v m)

  pub has-some : (k : Text) (v : V) (m : Dict V) → lookup k m ≡ some v → has k m ≡ true
  unfolding has lookup
  has-some k v [] h = absurd (ground (arith, h))
  has-some k v ((j, w) ∷ m) h = ground (arith, h, has-some k v m)

  pub has-none : (k : Text) (m : Dict V) → lookup k m ≡ none → has k m ≡ false
  unfolding has lookup
  has-none k [] h = refl
  has-none k ((j, w) ∷ m) h = ground (arith, h, has-none k m)

  pub has-true : (k : Text) (m : Dict V) → has k m ≡ true → 0 < count k (keys m)
  unfolding has keys count
  has-true k [] h = ground arith
  has-true k ((j, v) ∷ m) h = ground (arith, has-true k m)

  pub has-false : (k : Text) (m : Dict V) → has k m ≡ false → count k (keys m) ≡ 0
  unfolding has keys count
  has-false k [] h = refl
  has-false k ((j, v) ∷ m) h = ground (arith, has-false k m)

  pub lookup-none : (k : Text) (m : Dict V) → lookup k m ≡ none → count k (keys m) ≡ 0
  unfolding lookup keys count
  lookup-none k [] h = refl
  lookup-none k ((j, v) ∷ m) h = ground (arith, lookup-none k m)

  pub lookup-some : (k : Text) (m : Dict V) → 0 < count k (keys m) → (v : V) × (lookup k m ≡ some v)
  lookup-some k m h = elim (Option-cases (lookup k m)) [
    | inl missing ↦ absurd (omega (arith, lookup-none k m missing))
    | inr found ↦ found
  ]

  pub count-keys_of_lookup :
      (k : Text) (v : V) (m : Dict V) → lookup k m ≡ some v → 0 < count k (keys m)
  unfolding lookup keys count
  count-keys_of_lookup k v [] h = ground arith
  count-keys_of_lookup k v ((j, w) ∷ m) h = ground (arith, count-keys_of_lookup k v m)

  pub count-keys-insert :
      (k j : Text) (v : V) (m : Dict V)
      → count j (keys (insert k v m))
        ≡ (if text_eq k j then (if has j m then count j (keys m) else 1) else count j (keys m))
  unfolding count keys insert has
  count-keys-insert k j v [] = ground arith
  count-keys-insert k j v ((i, w) ∷ m) = ground (
    arith,
    text_eq_iff k j,
    text_eq_iff i k,
    text_eq_iff i j,
    count-keys-insert k j v m,
    has-false j m,
  )

  pub length-insert_new :
      (k : Text) (v : V) (m : Dict V)
      → count k (keys m) ≡ 0
      → length (insert k v m) ≡ suc (length m)
  unfolding count keys insert
  length-insert_new k v [] h = refl
  length-insert_new k v ((i, w) ∷ m) h = ground (arith, length-insert_new k v m)

  pub length-keys : (m : Dict V) → length (keys m) ≡ length m
  unfolding keys
  length-keys [] = refl
  length-keys ((i, w) ∷ m) = omega (arith, length-keys m)

  pub count-keys-delete :
      (k j : Text) (m : Dict V)
      → count j (keys (delete k m)) ≡ (if text_eq k j then 0 else count j (keys m))
  unfolding count keys delete
  count-keys-delete k j [] = ground arith
  count-keys-delete k j ((i, w) ∷ m) =
      ground (arith, text_eq_iff k j, text_eq_iff i k, text_eq_iff i j, count-keys-delete k j m)

  delete_absent : (k : Text) (m : Dict V) → count k (keys m) ≡ 0 → delete k m ≡ m
  unfolding count keys delete
  delete_absent k [] h = refl
  delete_absent k ((i, w) ∷ m) h = ground (arith, delete_absent k m)

  pub length-delete :
      (k : Text) (m : Dict V) → count k (keys m) ≡ 1 → suc (length (delete k m)) ≡ length m
  unfolding count keys delete
  length-delete k [] h = absurd (omega arith)
  length-delete k ((i, w) ∷ m) h = ground (arith, length-delete k m, delete_absent k m)
