-- ===== src/Graph/Kahn/Complete.antt =====
-- The waves hold every active address exactly when the dependencies can be ordered.
use debianform.Base.{
  Text, ◌+◌, ◌≤◌, ◌<◌, List, [], ◌∷◌, ◌++◌, ◌≡◌, refl, length, length-append, arith, inl, inr,
  count, count-append, text_eq, text_eq_iff, IsDistinct, SameItems, SameItems-length,
  length-le_of_count, Bool-cases,
}
use debianform.Base.Dict.{Dict, get, keys, length-keys}
use debianform.Graph.Kahn.{emitted}
use debianform.Graph.Kahn.Waiting.{waiting}
use debianform.Graph.Kahn.Rounds.{IsSchedule}

abbrev pub Edge : Dict (List Text) → Text → Text → Type 0
Edge edges x d = 0 < count d (get [] x edges)

-- Newest first: each address stands behind its dependencies.
abbrev pub Orders : Dict (List Text) → List Text → Type 0
Orders edges [] = Unit
Orders edges (x ∷ older) = ((d : Text) → Edge edges x d → 0 < count d older) × Orders edges older

-- All that is done when the waves are through.
unfoldable pub flat : List Text → List (List Text) → List Text
flat done [] = done
flat done (wave ∷ waves) = flat (wave ++ done) waves

pub waiting_zero :
    (done ds : List Text) (d : Text) → waiting done ds ≡ 0 → 0 < count d ds → 0 < count d done
unfolding waiting count
waiting_zero done [] d h k = absurd (omega arith)
waiting_zero done (e ∷ ds) d h k = ground (arith, waiting_zero done ds d, text_eq_iff e d)

pub waiting_of_all :
    (done ds : List Text) → ((d : Text) → 0 < count d ds → 0 < count d done) → waiting done ds ≡ 0
unfolding waiting count
waiting_of_all done [] h = refl
waiting_of_all done (e ∷ ds) h = ground (
  arith,
  h e,
  waiting_of_all done ds (λ d k. ground (arith, h d, text_eq_iff e d)),
  text_eq_iff e e,
)

module _ (edges : Dict (List Text)) where
  length-flat :
      (done : List Text) (waves : List (List Text))
      → length (flat done waves) ≡ emitted waves + length done
  unfolding flat emitted
  length-flat done [] = omega arith
  length-flat done (wave ∷ waves) =
      omega (arith, length-flat (wave ++ done) waves, length-append wave done)

  flat_within :
      (done : List Text) (waves : List (List Text))
      → IsSchedule edges done waves
      → ((x : Text) → count x done ≤ count x (keys edges))
      → (x : Text) → count x (flat done waves) ≤ count x (keys edges)
  unfolding flat
  flat_within done [] s h x = h x
  flat_within done (wave ∷ waves) (free, within, s) h x =
      flat_within (wave ++ done) waves s (λ y. omega (arith, within y, count-append y wave done)) x

  flat_maximal :
      (done : List Text) (waves : List (List Text))
      → IsSchedule edges done waves
      → (x : Text) → 0 < count x (keys edges)
      → waiting (flat done waves) (get [] x edges) ≡ 0
      → 0 < count x (flat done waves)
  unfolding flat
  flat_maximal done [] s x = s x
  flat_maximal done (wave ∷ waves) (free, within, s) x = flat_maximal (wave ++ done) waves s x

  -- Along an order, every address is emitted.
  emitted_along :
      (all : List Text)
      → ((x : Text) → 0 < count x (keys edges) → waiting all (get [] x edges) ≡ 0 → 0 < count x all)
      → ((x d : Text) → Edge edges x d → 0 < count d (keys edges))
      → (order : List Text) → Orders edges order
      → (x : Text) → 0 < count x order
      → 0 < count x (keys edges)
      → 0 < count x all
  emitted_along all maximal known [] o x h key = absurd (unfold count in omega arith)
  emitted_along all maximal known (y ∷ older) (first, o) x h key = elim (Bool-cases (text_eq y x)) [
    | inl e ↦
        let same = (text_eq_iff y x).0 e in
        maximal x key (
          waiting_of_all all (get [] x edges)
            λ d k. emitted_along all maximal known older o d (first d (rw same k)) (known x d k))
    | inr e ↦ emitted_along all maximal known older o x (unfold count in ground arith) key
  ]

  module _ (distinct : IsDistinct (keys edges)) (waves : List (List Text))
      (schedule : IsSchedule edges [] waves) where
    flat_le : (x : Text) → count x (flat [] waves) ≤ count x (keys edges)
    flat_le = flat_within [] waves schedule (λ x. unfold count in omega arith)

    -- Where there is an order, nothing is left over.
    pub emitted_of_order :
        (order : List Text)
        → Orders edges order
        → ((x d : Text) → Edge edges x d → 0 < count d (keys edges))
        → ((x : Text) → 0 < count x (keys edges) → 0 < count x order)
        → emitted waves ≡ length edges
    emitted_of_order order o known full =
        let all = λ (x : Text) (key : 0 < count x (keys edges)).
          emitted_along (flat [] waves) (flat_maximal [] waves schedule) known order o x
            (full x key) key in
        omega (
          arith,
          length-flat [] waves,
          length-keys edges,
          length-le_of_count (keys edges) (flat [] waves)
              (λ x. ground (arith, all x, distinct x, flat_le x)),
          length-le_of_count (flat [] waves) (keys edges) flat_le,
        )

    -- Where nothing is left over, the waves hold each address as often as the entries.
    pub flat_same : emitted waves ≡ length edges → SameItems (flat [] waves) (keys edges)
    flat_same h =
        SameItems-length (flat [] waves) (keys edges) flat_le
          (omega (arith, length-flat [] waves, length-keys edges))
