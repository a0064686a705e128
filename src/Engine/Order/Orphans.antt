-- ===== src/Engine/Order/Orphans.antt =====
-- What the loops of orphanExecutionWaves of internal/core/engine/engine.go count: an orphan waits for
-- the orphans that depend on it.
pub mod Rounds
pub mod Waves
use debianform.Base.{
  Text, ℕ, zero, suc, ◌+◌, ◌<◌, ◌≤◌, List, [], ◌∷◌, ◌++◌, ◌≡◌, refl, arith, Option, none, some,
  Bool, true, false, if◌then◌else◌, ◌==◌, text_eq, text_eq_iff, text_eq_refl, length, length-append,
  count, count-append, IsDistinct, Among, inl, inr, Bool-cases, ◌∙◌, Option-cases,
}
use debianform.Base.Dict.{
  Dict, insert, lookup, get, has, keys, get-insert, has-insert, count-keys-insert, lookup-insert,
  get-lookup,
}
use debianform.Engine.{Step}
use debianform.Engine.Planning.{step_by_address}
use debianform.Engine.Order.{prior_dependencies, count_dependencies, count_orphans, zero_indegrees}

copies : ℕ → Text → List Text
copies zero a = []
copies (suc n) a = a ∷ copies n a

count-copies : (b a : Text) (n : ℕ) → count b (copies n a) ≡ (if text_eq a b then n else 0)
unfolding copies count
count-copies b a zero = ground arith
count-copies b a (suc n) = ground (arith, count-copies b a n)

length-copies : (n : ℕ) (a : Text) → length (copies n a) ≡ n
unfolding copies
length-copies zero a = refl
length-copies (suc n) a = omega (arith, length-copies n a)

unfoldable pub step_addresses : List Step → List Text
step_addresses [] = []
step_addresses (step ∷ steps) = step.address ∷ step_addresses steps

-- The steps whose recorded resource depends on `x`, each as often as it does.
unfoldable pub waiters : Text → List Step → List Text
unfolding copies
waiters x [] = []
waiters x (step ∷ steps) =
    copies (count x (prior_dependencies step)) step.address ++ waiters x steps

pub count-waiters :
    (x : Text) (step : Step) (steps : List Step)
    → Among step steps
    → 0 < count x (prior_dependencies step)
    → 0 < count step.address (waiters x steps)
unfolding waiters
count-waiters x step [] i h = absurd i
count-waiters x step (other ∷ steps) (inl same) h =
    let n = count x (prior_dependencies other) in
    let some_left : 0 < n = rw same at h in
    rw same (
      ground (
        arith,
        some_left,
        count-append other.address (copies n other.address) (waiters x steps),
        count-copies other.address other.address n,
        text_eq_refl other.address,
      ))
count-waiters x step (other ∷ steps) (inr i) h =
    let n = count x (prior_dependencies other) in
    omega (
      arith,
      count-append step.address (copies n other.address) (waiters x steps),
      count-waiters x step steps i h,
    )

module _ (by_address : Dict Step) where
  count_dependencies_degree :
      (x address : Text) (deps : List Text) (indegree : Dict ℕ) (dependents : Dict (List Text))
      → get 0 x (count_dependencies by_address address deps (indegree, dependents)).0
        ≡ get 0 x indegree + (if has x by_address then count x deps else 0)
  unfolding count_dependencies count
  count_dependencies_degree x address [] indegree dependents = ground arith
  count_dependencies_degree x address (d ∷ deps) indegree dependents =
      let indegree' = insert d (get 0 d indegree + 1) indegree in
      let dependents' = insert address (get [] address dependents ++ d ∷ []) dependents in
      elim (Bool-cases (has d by_address)) [
        | inl e ↦
            rw (e, count_dependencies)
              (ground (
                arith,
                e,
                count_dependencies_degree x address deps indegree' dependents',
                get-insert 0 d x (get 0 d indegree + 1) indegree,
                text_eq_iff d x,
              ))
        | inr e ↦
            rw (e, count_dependencies)
              (ground (
                arith,
                e,
                count_dependencies_degree x address deps indegree dependents,
                text_eq_iff d x,
              ))
      ]

  count_dependencies_dependents :
      (x a address : Text) (deps : List Text) (indegree : Dict ℕ) (dependents : Dict (List Text))
      → count x (get [] a (count_dependencies by_address address deps (indegree, dependents)).1)
        ≡ count x (get [] a dependents)
          + (if text_eq address a then (if has x by_address then count x deps else 0) else 0)
  unfolding count_dependencies count
  count_dependencies_dependents x a address [] indegree dependents = ground arith
  count_dependencies_dependents x a address (d ∷ deps) indegree dependents =
      let indegree' = insert d (get 0 d indegree + 1) indegree in
      let dependents' = insert address (get [] address dependents ++ d ∷ []) dependents in
      elim (Bool-cases (has d by_address)) [
        | inl e ↦
            rw (e, count_dependencies)
              (ground (
                arith,
                e,
                count_dependencies_dependents x a address deps indegree' dependents',
                get-insert [] address a (get [] address dependents ++ d ∷ []) dependents,
                count-append x (get [] address dependents) (d ∷ []),
                text_eq_iff address a,
                text_eq_iff d x,
              ))
        | inr e ↦
            rw (e, count_dependencies)
              (ground (
                arith,
                e,
                count_dependencies_dependents x a address deps indegree dependents,
                text_eq_iff d x,
              ))
      ]

  -- The addresses with an indegree are those of the steps from the start.
  abbrev pub Covers : Dict ℕ → Type 0
  Covers indegree = (y : Text) → has y by_address ≡ true → has y indegree ≡ true

  count_dependencies-keys :
      (address : Text) (deps : List Text) (indegree : Dict ℕ) (dependents : Dict (List Text))
      → Covers indegree
      → let out = (count_dependencies by_address address deps (indegree, dependents)).0 in
        Covers out × ((x : Text) → count x (keys out) ≡ count x (keys indegree))
  unfolding count_dependencies
  count_dependencies-keys address [] indegree dependents covers = (covers, λ x. refl)
  count_dependencies-keys address (d ∷ deps) indegree dependents covers =
      let indegree' = insert d (get 0 d indegree + 1) indegree in
      let dependents' = insert address (get [] address dependents ++ d ∷ []) dependents in
      elim (Bool-cases (has d by_address)) [
        | inl e ↦
            let (kept, same) =
              count_dependencies-keys address deps indegree' dependents' (λ y h.
                ground (arith, covers y h, has-insert d y (get 0 d indegree + 1) indegree)) in
            rw (e, count_dependencies)
              (
                kept,
                λ x.
                    same x
                    ∙ ground (
                      arith,
                      covers d e,
                      count-keys-insert d x (get 0 d indegree + 1) indegree,
                      text_eq_iff d x,
                    ),
              )
        | inr e ↦
            rw (e, count_dependencies)
              (count_dependencies-keys address deps indegree dependents covers)
      ]
