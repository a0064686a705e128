-- ===== src/State/Moves/Checks.antt =====
-- The table by source that the validation of internal/core/state/moved.go makes.
use debianform.Base.{
  Text, List, [], ◌∷◌, ◌++◌, Option, none, some, Bool, true, false, ◌≡◌, ◌≢◌, ◌⊎◌, refl, arith, inl,
  inr, Bool-cases, ok, err, text_eq, text_eq_iff,
}
use debianform.Base.Dict.{Dict, lookup, insert, lookup-insert}
use debianform.Ir.{MovedSpec}
use debianform.State.Moves.{
  MoveError, out_of_fuel, check_moves, is_component, overlapping, source_no_component,
  target_no_component, self_move, duplicate_source, duplicate_target, overlap,
}

-- Each move stands under its source.
abbrev pub IsBySource : Dict MovedSpec → Type 0
IsBySource by_source =
    (key : Text) (move : MovedSpec) → lookup key by_source ≡ some move → move.from ≡ key

-- The guards of one move: they fail with an error of their own, or the loop goes on.
check_moves_cons :
    (host : Text) (move : MovedSpec) (moves : List MovedSpec) (by_source by_target : Dict MovedSpec)
    (validated : List MovedSpec)
    → ((e : MoveError) × (check_moves host (move ∷ moves) by_source by_target validated ≡ err e)
        × (e ≢ out_of_fuel))
      ⊎ (check_moves host (move ∷ moves) by_source by_target validated
          ≡ check_moves host moves
              (insert move.from move by_source)
              (insert move.to move by_target)
              (validated ++ move ∷ []))
unfolding check_moves
check_moves_cons host move moves by_source by_target validated =
    go (is_component host move.from) refl (is_component host move.to) refl
      (text_eq move.from move.to) refl (lookup move.from by_source) refl (lookup move.to by_target)
      refl (overlapping move validated) refl
  where
    go :
        (b1 : Bool)
        → is_component host move.from ≡ b1
        → (b2 : Bool) → is_component host move.to ≡ b2
        → (b3 : Bool) → text_eq move.from move.to ≡ b3
        → (o1 : Option MovedSpec) → lookup move.from by_source ≡ o1
        → (o2 : Option MovedSpec) → lookup move.to by_target ≡ o2
        → (o3 : Option MovedSpec) → overlapping move validated ≡ o3
        → ((e : MoveError) × (check_moves host (move ∷ moves) by_source by_target validated ≡ err e)
            × (e ≢ out_of_fuel))
          ⊎ (check_moves host (move ∷ moves) by_source by_target validated
              ≡ check_moves host moves
                  (insert move.from move by_source)
                  (insert move.to move by_target)
                  (validated ++ move ∷ []))
    go false e1 b2 e2 b3 e3 o1 e4 o2 e5 o3 e6 =
        inl (source_no_component move, rw (check_moves, e1) refl, λ e. ground (arith, e))
    go true e1 false e2 b3 e3 o1 e4 o2 e5 o3 e6 =
        inl (target_no_component move, rw (check_moves, e1, e2) refl, λ e. ground (arith, e))
    go true e1 true e2 true e3 o1 e4 o2 e5 o3 e6 =
        inl (self_move move, rw (check_moves, e1, e2, e3) refl, λ e. ground (arith, e))
    go true e1 true e2 false e3 (some p) e4 o2 e5 o3 e6 =
        inl (
          duplicate_source move p.to,
          rw (check_moves, e1, e2, e3, e4) refl,
          λ e. ground (arith, e),
        )
    go true e1 true e2 false e3 none e4 (some p) e5 o3 e6 = inl (
      duplicate_target p.from move,
      rw (check_moves, e1, e2, e3, e4, e5) refl,
      λ e. ground (arith, e),
    )
    go true e1 true e2 false e3 none e4 none e5 (some p) e6 =
        inl (overlap move p, rw (check_moves, e1, e2, e3, e4, e5, e6) refl, λ e. ground (arith, e))
    go true e1 true e2 false e3 none e4 none e5 none e6 =
        inr (rw (check_moves, e1, e2, e3, e4, e5, e6) refl)

IsBySource-insert :
    (move : MovedSpec) (by_source : Dict MovedSpec)
    → IsBySource by_source
    → IsBySource (insert move.from move by_source)
IsBySource-insert move by_source named key found e = elim (Bool-cases (text_eq move.from key)) [
  | inl same ↦
      let one : move ≡ found =
        ground (arith, e, same, lookup-insert move.from key move by_source) in
      rw (← one) ((text_eq_iff move.from key).0 same)
  | inr other ↦
      named key found (ground (arith, e, other, lookup-insert move.from key move by_source))
]

pub IsBySource-nil : IsBySource []
unfolding lookup
IsBySource-nil key move e = absurd (ground (arith, e))

-- The validation never runs out of fuel, and its table holds each move under its source.
pub check_moves-IsBySource :
    (host : Text) (moves : List MovedSpec) (by_source by_target : Dict MovedSpec)
    (validated : List MovedSpec)
    → IsBySource by_source
    → (check_moves host moves by_source by_target validated ≢ err out_of_fuel)
      × ((found : Dict MovedSpec)
          → check_moves host moves by_source by_target validated ≡ ok found
          → IsBySource found)
unfolding check_moves
check_moves-IsBySource host [] by_source by_target validated named = (
  (λ e. ground (arith, e)),
  λ found e. let same : by_source ≡ found = ground (arith, e) in rw (← same) named,
)
check_moves-IsBySource host (move ∷ moves) by_source by_target validated named =
    let (safe, later) =
      check_moves-IsBySource host moves (insert move.from move by_source)
        (insert move.to move by_target) (validated ++ move ∷ [])
        (IsBySource-insert move by_source named) in
    elim (check_moves_cons host move moves by_source by_target validated) [
      | inl (x, same, apart) ↦ (
        (λ e. apart (ground (arith, rw same at e))),
        λ found e. absurd (ground (arith, rw same at e)),
      )
      | inr same ↦ ((λ e. safe (rw same at e)), λ found e. later found (rw same at e))
    ]
