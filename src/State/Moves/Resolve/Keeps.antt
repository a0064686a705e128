-- ===== src/State/Moves/Resolve/Keeps.antt =====
-- Moving renames entries: none is lost, none is overwritten.
use debianform.Base.{
  Text, ◌≤◌, ◌<◌, List, [], ◌∷◌, ◌++◌, ◌≡◌, refl, arith, Bool, ◌⊎◌, Option, ap, false, length,
  text_eq, text_eq_iff, count, count-cons_self, IsDistinct, Result, ok, err, ◌>>=◌, >>=-eq-ok,
  sort_strings, text_lt, count-sort_stable, Bool-cases, inl, inr, none, some,
}
use debianform.Base.Dict.{
  Dict, insert, delete, keys, has, get, has-true, has-false, count-keys-insert, count-keys-delete,
  length-insert_new, length-delete, length-keys,
}
use debianform.Ir.{MovedSpec}
use debianform.State.{State, StateError, Resource, Hashing, normalize}
use debianform.State.Normal.{normalize-IsNormal}
use debianform.State.Moves.{
  MoveError, matching_keys, replace_address_prefix, validate_and_order_moves, final_move_targets,
}
use debianform.State.Moves.Resolve.{
  MoveTarget, MoveResult, RealizedMove, no_target, no_resource, component_of, rebase_moved_resource,
  rebase_resource_dependencies, move_addresses, apply_declaration, apply_declarations, move_all,
  resolve_moves,
}

-- The same number of entries, each under an address of its own.
abbrev pub Keeps : Dict Resource → Dict Resource → Type 0
Keeps before after = IsDistinct (keys after) × (length after ≡ length before)

-- One entry goes from `from` to the new address `to`.
rename-Keeps :
    (from to : Text) (moved : Resource) (resources : Dict Resource)
    → IsDistinct (keys resources)
    → 0 < count from (keys resources)
    → has to resources ≡ false
    → Keeps resources (insert to moved (delete from resources))
rename-Keeps from to moved resources distinct present free = (
  (λ x. ground (
    arith,
    count-keys-insert to x moved (delete from resources),
    distinct x,
    count-keys-delete from x resources,
    has-false to resources free,
    has-true x (delete from resources),
    text_eq_iff to x,
  )),
  omega (
    arith,
    length-insert_new to moved (delete from resources)
        (ground (arith, count-keys-delete from to resources, has-false to resources free)),
    length-delete from resources (omega (arith, distinct from)),
  ),
)

-- The other addresses stay.
rename_present :
    (from to x : Text) (moved : Resource) (resources : Dict Resource)
    → 0 < count x (keys resources)
    → text_eq from x ≡ false
    → 0 < count x (keys (insert to moved (delete from resources)))
rename_present from to x moved resources present other = ground (
  arith,
  count-keys-insert to x moved (delete from resources),
  count-keys-delete from x resources,
  has-false x (delete from resources),
  has-true x (delete from resources),
)

tail_count : (a : Text) (rest : List Text) (x : Text) → 0 < count x rest → 0 < count x (a ∷ rest)
unfolding count
tail_count a rest x h = ground arith

tail_once : (a : Text) (rest : List Text) → IsDistinct (a ∷ rest) → IsDistinct rest
unfolding count
tail_once a rest h x = ground (arith, h x)

other :
    (a : Text) (rest : List Text)
    → IsDistinct (a ∷ rest)
    → (x : Text) → 0 < count x rest
    → text_eq a x ≡ false
unfolding count
other a rest h x k = ground (arith, h x)

-- The addresses that a declaration matches are keys, each once.
count-matching_keys :
    (prefix x : Text) (ks : List Text) → count x (matching_keys prefix ks) ≤ count x ks
unfolding matching_keys count
count-matching_keys prefix x [] = omega arith
count-matching_keys prefix x (k ∷ ks) = ground (arith, count-matching_keys prefix x ks)

keys-rebase :
    (from to : Text) (resources : Dict Resource)
    → keys (rebase_resource_dependencies from to resources) ≡ keys resources
unfolding rebase_resource_dependencies keys
keys-rebase from to [] = refl
keys-rebase from to ((a, r) ∷ rest) = λ i. a ∷ keys-rebase from to rest i

length-rebase :
    (from to : Text) (resources : Dict Resource)
    → length (rebase_resource_dependencies from to resources) ≡ length resources
unfolding rebase_resource_dependencies
length-rebase from to [] = refl
length-rebase from to ((a, r) ∷ rest) = omega (arith, length-rebase from to rest)

module _ (hashing : Hashing) where
  module _ (host : Text) (targets : Dict MoveTarget) (declaration : MovedSpec) where
    -- One round of the loop: the destination is free, and the rest goes on with the entry renamed.
    move_addresses_cons :
        (from : Text) (rest : List Text) (resources : Dict Resource) (moves : List RealizedMove)
        (r : Dict Resource × List RealizedMove)
        → move_addresses hashing host targets declaration (from ∷ rest) resources moves ≡ ok r
        → (to : Text) × (moved : Resource) × (moves' : List RealizedMove) × (has to resources
            ≡ false)
          × (move_addresses hashing host targets declaration rest
                (insert to moved (delete from resources))
                moves'
              ≡ ok r)
    unfolding move_addresses
    move_addresses_cons from rest resources moves r h =
        let to = replace_address_prefix from declaration.from declaration.to in
        elim (Bool-cases (has to resources)) [
          | inl used ↦ absurd (ground (arith, used, h))
          | inr free ↦ (
            to,
            rebase_moved_resource hashing (get no_resource from resources)
                (component_of hashing host targets declaration declaration.from)
                (component_of hashing host targets declaration declaration.to)
                (get no_target to targets),
            moves ++ record { host = host; from = from; to = to } ∷ [],
            free,
            rw (free, move_addresses) at h,
          )
        ]

    move_addresses-Keeps :
        (addresses : List Text) (resources : Dict Resource) (moves : List RealizedMove)
        (r : Dict Resource × List RealizedMove)
        → move_addresses hashing host targets declaration addresses resources moves ≡ ok r
        → IsDistinct (keys resources)
        → IsDistinct addresses
        → ((x : Text) → 0 < count x addresses → 0 < count x (keys resources))
        → Keeps resources r.0
    move_addresses-Keeps [] resources moves r h distinct once present =
        let e : (resources, moves) ≡ r = unfold move_addresses in cc in rw (← e) (distinct, refl)
    move_addresses-Keeps (from ∷ rest) resources moves r h distinct once present =
        let (to, moved, moves', free, later) = move_addresses_cons from rest resources moves r h in
        let here = present from (omega (arith, count-cons_self from rest)) in
        let (distinct', size) = rename-Keeps from to moved resources distinct here free in
        let (last, size') =
          move_addresses-Keeps rest (insert to moved (delete from resources)) moves' r later
            distinct' (λ x. tail_once from rest once x)
            (λ x k.
              rename_present from to x moved resources (present x (tail_count from rest x k))
                (other from rest once x k)) in
        (last, omega (arith, size, size'))

    -- The addresses that match, sorted.
    matched : Dict Resource → List Text
    matched resources = sort_strings (matching_keys declaration.from (keys resources))

    count-matched :
        (x : Text) (resources : Dict Resource)
        → count x (matched resources) ≤ count x (keys resources)
    unfolding matched sort_strings
    count-matched x resources = omega (
      arith,
      count-sort_stable text_lt x (matching_keys declaration.from (keys resources)),
      count-matching_keys declaration.from x (keys resources),
    )

    -- A round leaves the entries alone, or moves all that match.
    apply_declaration_cases :
        (desired : Dict Bool) (final : Dict Text) (made r : Dict Resource × List RealizedMove)
        → apply_declaration hashing host targets declaration desired final made ≡ ok r
        → (r ≡ made)
          ⊎ ((moved : Dict Resource × List RealizedMove) × (move_addresses hashing host targets
                  declaration
                  (matched made.0)
                  made.0
                  made.1
                ≡ ok moved)
              × (r ≡ (
                rebase_resource_dependencies declaration.from declaration.to moved.0,
                moved.1,
              )))
    unfolding apply_declaration matched
    apply_declaration_cases desired final (resources, moves) r h =
        go (matched resources) refl
          (move_addresses hashing host targets declaration (matched resources) resources moves) refl
      where
        go :
            (found : List Text)
            → matched resources ≡ found
            → (m : Result MoveError (Dict Resource × List RealizedMove))
            → move_addresses hashing host targets declaration (matched resources) resources moves
              ≡ m
            → (r ≡ (resources, moves))
              ⊎ ((moved : Dict Resource × List RealizedMove) × (move_addresses hashing host targets
                      declaration
                      (matched resources)
                      resources
                      moves
                    ≡ ok moved)
                  × (r ≡ (
                    rebase_resource_dependencies declaration.from declaration.to moved.0,
                    moved.1,
                  )))
        go [] e m em = inl (ground (arith, h, e))
        go (a ∷ as') e (ok moved) em = elim (Bool-cases (get false declaration.from desired)) [
          | inl kept ↦ inl (ground (arith, h, e, kept))
          | inr gone ↦ inr (moved, em, ground (arith, h, e, em, gone))
        ]
        go (a ∷ as') e (err x) em = elim (Bool-cases (get false declaration.from desired)) [
          | inl kept ↦ inl (ground (arith, h, e, kept))
          | inr gone ↦ absurd (ground (arith, h, e, em, gone))
        ]

    apply_declaration-Keeps :
        (desired : Dict Bool) (final : Dict Text) (made r : Dict Resource × List RealizedMove)
        → apply_declaration hashing host targets declaration desired final made ≡ ok r
        → IsDistinct (keys made.0)
        → Keeps made.0 r.0
    apply_declaration-Keeps desired final made r h distinct =
        elim (apply_declaration_cases desired final made r h) [
          | inl same ↦ rw same (distinct, refl)
          | inr (moved, e, same) ↦
              let found = matched made.0 in
              let (distinct', size) =
                move_addresses-Keeps found made.0 made.1 moved e distinct
                  (λ x. omega (arith, count-matched x made.0, distinct x))
                  (λ x k. omega (arith, count-matched x made.0)) in
              rw same (
                rw (keys-rebase declaration.from declaration.to moved.0) distinct',
                omega (arith, size, length-rebase declaration.from declaration.to moved.0),
              )
        ]

  apply_declarations_cons :
      (host : Text) (targets : Dict MoveTarget) (desired : Dict Bool) (final : Dict Text)
      (d : MovedSpec) (rest : List MovedSpec) (made r : Dict Resource × List RealizedMove)
      → apply_declarations hashing host targets desired final (d ∷ rest) made ≡ ok r
      → (mid : Dict Resource × List RealizedMove) × (apply_declaration hashing host targets d
            desired final made
          ≡ ok mid)
        × (apply_declarations hashing host targets desired final rest mid ≡ ok r)
  unfolding apply_declarations
  apply_declarations_cons host targets desired final d rest made r h =
      >>=-eq-ok (apply_declaration hashing host targets d desired final made) _ h

  apply_declarations-Keeps :
      (host : Text) (targets : Dict MoveTarget) (desired : Dict Bool) (final : Dict Text)
      (declarations : List MovedSpec) (made r : Dict Resource × List RealizedMove)
      → apply_declarations hashing host targets desired final declarations made ≡ ok r
      → IsDistinct (keys made.0)
      → Keeps made.0 r.0
  apply_declarations-Keeps host targets desired final [] made r h distinct =
      let e : made ≡ r = unfold apply_declarations in cc in rw (← e) (distinct, refl)
  apply_declarations-Keeps host targets desired final (d ∷ rest) made r h distinct =
      let (mid, first, later) =
        apply_declarations_cons host targets desired final d rest made r h in
      let (distinct', size) =
        apply_declaration-Keeps host targets d desired final made mid first distinct in
      let (last, size') =
        apply_declarations-Keeps host targets desired final rest mid r later distinct' in
      (last, omega (arith, size, size'))

  move_all-Keeps :
      (st : State) (ordered : List MovedSpec) (desired : Dict Bool) (targets : Dict MoveTarget)
      (r : MoveResult)
      → move_all hashing st ordered desired targets ≡ ok r
      → IsDistinct (keys st.resources)
      → Keeps st.resources r.state.resources
  unfolding move_all
  move_all-Keeps st ordered desired targets r h distinct = go (final_move_targets ordered) refl
    where
      go :
          (f : Option (Dict Text))
          → final_move_targets ordered ≡ f
          → Keeps st.resources r.state.resources
      go none e = absurd (ground (arith, h, e))
      go (some final) e =
          let (made, applied, out) =
            >>=-eq-ok
              (apply_declarations hashing st.host targets desired final ordered (st.resources, []))
              _ (rw (e, move_all) at h) in
          let same : made.0 ≡ r.state.resources = ground (arith, out) in
          rw (← same) (
            apply_declarations-Keeps st.host targets desired final ordered (st.resources, []) made
              applied distinct)

  -- ResolveMoves neither loses nor overwrites an entry: the result has as many entries as the
  -- state that it was given, all under different addresses.
  pub resolve_moves-Keeps :
      (st : State) (declarations : List MovedSpec) (desired : Dict Bool) (targets : Dict MoveTarget)
      (r : MoveResult)
      → resolve_moves hashing st declarations desired targets ≡ ok r
      → IsDistinct (keys st.resources)
      → Keeps st.resources r.state.resources
  unfolding resolve_moves
  resolve_moves-Keeps st declarations desired targets r h distinct =
      go (normalize st st.host) refl declarations refl
    where
      size : (n : State) → normalize st st.host ≡ ok n → Keeps st.resources n.resources
      size n e =
          let (_, same, _) = normalize-IsNormal st n st.host e in
          (
            rw same distinct,
            omega (arith, ap length same, length-keys n.resources, length-keys st.resources),
          )

      go :
          (m : Result StateError State)
          → normalize st st.host ≡ m
          → (ds : List MovedSpec) → declarations ≡ ds
          → Keeps st.resources r.state.resources
      go (err x) e ds de = absurd (ground (arith, h, e))
      go (ok n) e [] de =
          let same : n ≡ r.state = ground (arith, h, e, de) in rw (← same) (size n e)
      go (ok n) e (d ∷ ds) de =
          let run : (validate_and_order_moves n.host (d ∷ ds) >>= λ ordered.
          move_all hashing n ordered desired targets)
              ≡ ok r =
            ground (arith, h, e, de) in
          let (ordered, _, moved) = >>=-eq-ok (validate_and_order_moves n.host (d ∷ ds)) _ run in
          let (distinct', length') = size n e in
          let (last, length'') = move_all-Keeps n ordered desired targets r moved distinct' in
          (last, omega (arith, length', length''))
