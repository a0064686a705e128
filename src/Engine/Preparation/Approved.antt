-- ===== src/Engine/Preparation/Approved.antt =====
-- verifyApprovedHostMoves of internal/core/engine/engine.go lets only the approved moves through.
use mathlib.Core.List.{Perm}
use mathlib.Core.List.Perm
use debianform.Base.{
  Text, List, [], ◌∷◌, Bool, true, ◌≡◌, refl, text_eq_iff, place, sort_stable, ok, arith, inl, inr,
  Bool-cases,
}
use debianform.State.Moves.Resolve.{RealizedMove}
use debianform.Engine.Preparation.{
  realized_before, sort_realized_moves, moves_of, same_move, same_moves, verify_approved_host_moves,
}

module _ {A : Type 0} (before : A → A → Bool) where
  Perm-place : (x : A) (xs : List A) → Perm (place before x xs) (x ∷ xs)
  unfolding place
  Perm-place x [] = Perm.rfl
  Perm-place x (y ∷ ys) = elim (Bool-cases (before y x)) [
    | inl later ↦
        let same : place before x (y ∷ ys) ≡ y ∷ place before x ys = ground (arith, later) in
        rw same (Perm.trans (Perm.cons y (Perm-place x ys)) (Perm.swap x y ys))
    | inr first ↦
        let same : place before x (y ∷ ys) ≡ x ∷ y ∷ ys = ground (arith, first) in rw same Perm.rfl
  ]

  pub Perm-sort_stable : (xs : List A) → Perm (sort_stable before xs) xs
  unfolding sort_stable
  Perm-sort_stable [] = Perm.rfl
  Perm-sort_stable (x ∷ xs) =
      Perm.trans (Perm-place x (sort_stable before xs)) (Perm.cons x (Perm-sort_stable xs))

same_move-true : (a b : RealizedMove) → same_move a b ≡ true → a ≡ b
unfolding same_move
same_move-true a b h =
    let hosts : a.host ≡ b.host = (text_eq_iff a.host b.host).0 (ground (arith, h)) in
    let sources : a.from ≡ b.from = (text_eq_iff a.from b.from).0 (ground (arith, h)) in
    let targets : a.to ≡ b.to = (text_eq_iff a.to b.to).0 (ground (arith, h)) in
    cc (hosts, sources, targets)

same_moves-true : (xs ys : List RealizedMove) → same_moves xs ys ≡ true → xs ≡ ys
unfolding same_moves
same_moves-true [] [] h = refl
same_moves-true [] (b ∷ bs) h = absurd (ground (arith, h))
same_moves-true (a ∷ rest) [] h = absurd (ground (arith, h))
same_moves-true (a ∷ rest) (b ∷ bs) h =
    let first : a ≡ b = same_move-true a b (ground (arith, h)) in
    let others : rest ≡ bs = same_moves-true rest bs (ground (arith, h)) in cc (first, others)

-- Where the moves of a host pass the check, they are the approved ones of this host, as often and
-- no other, in whatever order either list is.
pub verify_approved-Perm :
    (host : Text) (approved realized : List RealizedMove)
    → verify_approved_host_moves host approved realized ≡ ok tt
    → Perm realized (moves_of host approved)
unfolding verify_approved_host_moves sort_realized_moves
verify_approved-Perm host approved realized h =
    elim (Bool-cases
      (same_moves (sort_realized_moves (moves_of host approved)) (sort_realized_moves realized))) [
        | inr differ ↦ absurd (ground (arith, h, differ))
        | inl agree ↦
            let same =
              same_moves-true (sort_realized_moves (moves_of host approved))
                (sort_realized_moves realized) agree in
            Perm.trans (Perm.symm (Perm-sort_stable realized_before realized))
              (rw same at (Perm-sort_stable realized_before (moves_of host approved)))
      ]
