-- ===== src/Graph/Acyclic/Decide.antt =====
-- The search decides whether the dependencies have a cycle.
use debianform.Base.{
  Text, ℕ, suc, ◌≤◌, ◌<◌, List, [], ◌∷◌, ◌++◌, ◌≡◌, refl, ◌⊎◌, inl, inr, arith, count, text_eq,
  text_eq_iff, length, if◌then◌else◌, ◌==◌, Result, ok, err, sort_strings, text_lt,
  count-sort_stable, ◌>>=◌, Bool-cases,
}
use debianform.Base.Dict.{keys, get}
use debianform.Ir.{SourceRef}
use debianform.Graph.Schedule.{Entries, zero_entry, ScheduleError, cycle}
use debianform.Graph.Acyclic.{deps_of, validate_acyclic, visit_all, visit, Marks}
use debianform.Graph.Acyclic.Walks.{DependsOn, IsCycle, IsWalk}
use debianform.Graph.Acyclic.Search.{IsOrdered, Post, search_lem}

-- The place of an address in an order, by its oldest occurrence.
rank : List Text → Text → ℕ
rank [] x = 0
rank (y ∷ older) x =
    if count x older == 0 then if text_eq y x then suc (length older) else 0 else rank older x

rank-le : (order : List Text) (x : Text) → rank order x ≤ length order
unfolding rank
rank-le [] x = omega arith
rank-le (y ∷ older) x = ground (arith, rank-le older x)

-- Only a key has dependencies.
key_of_depends_on :
    (x d : Text) (entries : Entries)
    → 0 < count d (get zero_entry x entries).depends_on
    → 0 < count x (keys entries)
unfolding get count keys
key_of_depends_on x d [] h = absurd (omega arith)
key_of_depends_on x d ((y, e) ∷ entries) h = ground (arith, key_of_depends_on x d entries)

key_of_DependsOn :
    (entries : Entries) (x d : Text) → DependsOn entries x d → 0 < count x (keys entries)
unfolding deps_of
key_of_DependsOn entries x d h = key_of_depends_on x d entries h

-- What the search finds: an order in which each address stands behind its dependencies.
abbrev pub HasOrder : Entries → Type 0
HasOrder entries =
    (order : List Text) × IsOrdered entries order
    × ((x : Text) → 0 < count x (keys entries) → 0 < count x order)

module _ (entries : Entries) where
  rank-lt :
      (order : List Text) (x d : Text)
      → IsOrdered entries order
      → 0 < count x order
      → DependsOn entries x d
      → (rank order d < rank order x) × (0 < count d order)
  unfolding rank count
  rank-lt [] x d o h e = absurd (omega arith)
  rank-lt (y ∷ older) x d (first, o) h e = elim (Bool-cases (count x older == 0)) [
    | inl new ↦ ground (arith, first d, rank-le older d, text_eq_iff y x)
    | inr old ↦ ground (arith, rank-lt older x d o (ground arith) e)
  ]

  -- Along a walk the rank falls.
  walk_descends :
      (order : List Text) (x a : Text) (inner : List Text)
      → IsOrdered entries order
      → 0 < count x order
      → IsWalk entries (x ∷ inner ++ a ∷ [])
      → rank order a < rank order x
  walk_descends order x a [] o h w = (rank-lt order x a o h w.0).0
  walk_descends order x a (y ∷ inner) o h w =
      let (lower, within) = rank-lt order x y o h w.0 in
      omega (arith, walk_descends order y a inner o within w.1)

  first_of_walk :
      (x a : Text) (inner : List Text)
      → IsWalk entries (x ∷ inner ++ a ∷ [])
      → 0 < count x (keys entries)
  first_of_walk x a [] w = key_of_DependsOn entries x a w.0
  first_of_walk x a (y ∷ inner) w = key_of_DependsOn entries x y w.0

  pub no-IsCycle_of_HasOrder : HasOrder entries → (path : List Text) → ¬ IsCycle entries path
  no-IsCycle_of_HasOrder (order, o, full) path (a, inner, e, w) =
      let w' : IsWalk entries (a ∷ inner ++ a ∷ []) = rw e at w in
      omega (arith, walk_descends order a a inner o (full a (first_of_walk a a inner w')) w')

-- Either the check passed and there is an order, or it names a cycle.
abbrev pub IsDecision : Entries → Result ScheduleError (Unit {0}) → Type 0
IsDecision entries r =
    (r ≡ ok tt) × HasOrder entries
    ⊎ ((path : List Text) × (source : SourceRef) × (r ≡ err (cycle path source))
        × IsCycle entries path)

decide_of_Post :
    (entries : Entries) (known : (x d : Text) → DependsOn entries x d → 0 < count d (keys entries))
    (addresses : List Text)
    → ((x : Text) → 0 < count x (keys entries) → 0 < count x addresses)
    → (r : Result ScheduleError Marks) → Post entries known [] [] addresses r
    → IsDecision entries (r >>= λ _. ok tt)
decide_of_Post entries known addresses all (ok marks) (finished, inv, kept, seen) =
    inl (refl, (finished, inv.ordered, λ x h. seen x (all x h)))
decide_of_Post entries known addresses all (err (cycle path source)) p = inr (path, source, refl, p)
decide_of_Post entries known addresses all (err _) p = absurd p

-- With known dependencies the search ends with an order or with a cycle.
pub validate_acyclic_decides :
    (entries : Entries)
    → ((x d : Text) → DependsOn entries x d → 0 < count d (keys entries))
    → IsDecision entries (validate_acyclic entries)
unfolding validate_acyclic sort_strings
validate_acyclic_decides entries known =
    let addresses = sort_strings (keys entries) in
    let same = λ (a : Text). count-sort_stable text_lt a (keys entries) in
    decide_of_Post entries known addresses (λ x h. omega (arith, same x))
      (visit_all (visit (suc (length entries)) entries []) addresses [])
      (search_lem entries known addresses (λ a h. omega (arith, same a)))
