-- ===== src/State/Moves/Ends.antt =====
-- validateAndOrderMoves of internal/core/state/moved.go comes to its end: the search for the depth
-- of a chain of moves is never deeper than there are moves.
use debianform.Base.{
  Text, ℕ, zero, suc, ◌+◌, ◌≤◌, ◌<◌, List, [], ◌∷◌, Option, none, some, Bool, true, false, ◌≡◌, ◌≢◌,
  refl, ap, ◌∙◌, arith, inl, inr, Bool-cases, Result, ok, err, ◌>>=◌, text_lt, text_eq, text_eq_iff,
  length, count, count-cons_self, contains, contains-false, length-le_of_count, sort_stable,
  sort_strings, count-sort_stable,
}
use debianform.Base.Dict.{Dict, lookup, insert, keys, has-some, has-true, length-keys}
use debianform.Ir.{MovedSpec}
use debianform.State.Moves.Checks.{IsBySource, IsBySource-nil, check_moves-IsBySource}
use debianform.State.Moves.{
  MoveError, out_of_fuel, check_moves, next_move, depth, depth_all, validate_and_order_moves,
  move_before, deeper,
}

>>=-ends :
    {A B : Type 0} (r : Result MoveError A) (f : A → Result MoveError B)
    → r ≢ err out_of_fuel
    → ((a : A) → f a ≢ err out_of_fuel)
    → (r >>= f) ≢ err out_of_fuel
>>=-ends (err x) f safe later e =
    let same : x ≡ out_of_fuel = ground (arith, e) in safe (ap err same)
>>=-ends (ok a) f safe later e = later a e

module _ (by_source : Dict MovedSpec) (named : IsBySource by_source) where
  next_known :
      (source : Text) (next : MovedSpec)
      → next_move by_source source ≡ some next
      → 0 < count next.from (keys by_source)
  unfolding next_move
  next_known source next h = go (lookup source by_source) refl
    where
      known : (key : Text) → lookup key by_source ≡ some next → 0 < count next.from (keys by_source)
      known key e = rw (named key next e) (has-true key by_source (has-some key next by_source e))

      go :
          (o : Option MovedSpec)
          → lookup source by_source ≡ o
          → 0 < count next.from (keys by_source)
      go none e = known [] (ground (arith, h, e))
      go (some move) e = known move.to (ground (arith, h, e))

  opened_more :
      (visiting : List Text) (source : Text)
      → ((x : Text) → count x visiting ≤ count x (keys by_source))
      → 0 < count source (keys by_source)
      → contains visiting source ≡ false
      → (x : Text) → count x (source ∷ visiting) ≤ count x (keys by_source)
  unfolding count
  opened_more visiting source opened known absent x = elim (Bool-cases (text_eq source x)) [
    | inr other ↦ ground (arith, opened x, other)
    | inl same ↦
        let source_x : source ≡ x = (text_eq_iff source x).0 same in
        let fresh : count x visiting ≡ 0 = rw source_x at (contains-false source visiting absent) in
        let there : 0 < count x (keys by_source) = rw source_x at known in
        ground (arith, same, fresh, there)
  ]

  depth_ends :
      (fuel : ℕ) (visiting : List Text) (source : Text) (depths : Dict ℕ)
      → ((x : Text) → count x visiting ≤ count x (keys by_source))
      → 0 < count source (keys by_source)
      → length by_source < fuel + length visiting
      → depth fuel by_source visiting source depths ≢ err out_of_fuel
  unfolding depth
  depth_ends zero visiting source depths opened known enough e = absurd (
      omega
        (arith, enough, length-le_of_count visiting (keys by_source) opened, length-keys by_source))
  depth_ends (suc fuel) visiting source depths opened known enough e =
      go (lookup source depths) refl (contains visiting source) refl (next_move by_source source)
        refl (λ next. depth_ends fuel (source ∷ visiting) next.from depths)
    where
      go :
          (o : Option ℕ)
          → lookup source depths ≡ o
          → (b : Bool) → contains visiting source ≡ b
          → (n : Option MovedSpec) → next_move by_source source ≡ n
          → ((next : MovedSpec)
              → ((x : Text) → count x (source ∷ visiting) ≤ count x (keys by_source))
              → 0 < count next.from (keys by_source)
              → length by_source < fuel + length (source ∷ visiting)
              → depth fuel by_source (source ∷ visiting) next.from depths ≢ err out_of_fuel)
          → ⊥
      go (some value) e1 b e2 n e3 later = ground (arith, e, e1)
      go none e1 true e2 n e3 later = ground (arith, e, e1, e2)
      go none e1 false e2 none e3 later = ground (arith, e, e1, e2, e3)
      go none e1 false e2 (some next) e3 later =
          let d = depth fuel by_source (source ∷ visiting) next.from depths in
          let value : depth (suc fuel) by_source visiting source depths ≡ (
              d >>= λ (below_depth, found).
              ok (1 + below_depth, insert source (1 + below_depth) found)) =
            rw (depth, e1, e2, e3) refl in
          >>=-ends d
            (λ (below_depth, found). ok (1 + below_depth, insert source (1 + below_depth) found))
            (later next (opened_more visiting source opened known e2) (next_known source next e3)
              (omega (arith, enough)))
            (λ (below_depth, found) e'. absurd (ground (arith, e'))) (rw value at e)

  depth_all_ends :
      (sources : List Text) (depths : Dict ℕ)
      → ((x : Text) → count x sources ≤ count x (keys by_source))
      → depth_all by_source sources depths ≢ err out_of_fuel
  unfolding depth_all
  depth_all_ends [] depths few e = absurd (ground (arith, e))
  depth_all_ends (source ∷ sources) depths few e =
      >>=-ends (depth (suc (length by_source)) by_source [] source depths)
        (λ (_, known). depth_all by_source sources known)
        (depth_ends (suc (length by_source)) [] source depths (λ x. unfold count in omega arith)
          (omega (arith, few source, count-cons_self source sources)) (omega arith))
        (λ (_, known). depth_all_ends sources known (λ x. unfold count in ground (arith, few x))) e

-- The validation and ordering of the moves comes to its end: the fuel of the search for the depths
-- of the chains never runs out, whatever the declarations are.
pub validate_and_order_moves_ends :
    (host : Text) (declarations : List MovedSpec)
    → validate_and_order_moves host declarations ≢ err out_of_fuel
unfolding validate_and_order_moves
validate_and_order_moves_ends host declarations =
    let moves = sort_stable move_before declarations in
    let (safe, named) = check_moves-IsBySource host moves [] [] [] IsBySource-nil in
    go (check_moves host moves [] [] []) refl safe named
  where
    go :
        (r : Result MoveError (Dict MovedSpec))
        → check_moves host (sort_stable move_before declarations) [] [] [] ≡ r
        → (check_moves host (sort_stable move_before declarations) [] [] [] ≢ err out_of_fuel)
        → ((found : Dict MovedSpec)
            → check_moves host (sort_stable move_before declarations) [] [] [] ≡ ok found
            → IsBySource found)
        → validate_and_order_moves host declarations ≢ err out_of_fuel
    go (err x) e' safe named e =
        let same : x ≡ out_of_fuel = ground (arith, rw (validate_and_order_moves, e') at e) in
        safe (e' ∙ ap err same)
    go (ok by_source) e' safe named e =
        >>=-ends (depth_all by_source (sort_strings (keys by_source)) [])
          (λ depths. ok (sort_stable (deeper depths) (sort_stable move_before declarations)))
          (depth_all_ends by_source (named by_source e') (sort_strings (keys by_source)) [] (λ x.
            unfold sort_strings in omega (arith, count-sort_stable text_lt x (keys by_source))))
          (λ depths e2. absurd (ground (arith, e2))) (rw (validate_and_order_moves, e') at e)
