-- ===== src/Engine/Order/Orphans/Waves.antt =====
-- The waves of the orphans, orphanExecutionWaves of internal/core/engine/engine.go: each orphan once,
-- after the orphans that depend on it.
use debianform.State.{Resource}
use debianform.Base.{
  Text, ◌+◌, ◌<◌, ◌≤◌, List, [], ◌∷◌, ◌++◌, map, ◌≡◌, refl, arith, ◌==◌, text_eq_refl, length,
  count, count-append, IsDistinct, SameItems, Among, inl, inr, Bool-cases, ◌∙◌, Option,
  Option-cases, some, none, ok, err, ◌⊎◌,
}
use debianform.Base.Dict.{lookup, get, keys, get-lookup, has-none}
use debianform.Graph.Kahn.{emitted}
use debianform.Graph.Kahn.Waiting.{waiting}
use debianform.Graph.Kahn.Rounds.{IsSchedule}
use debianform.Graph.Kahn.Complete.{flat, flat_same, waiting_zero}
use debianform.Engine.{Step, no_step}
use debianform.Engine.Execution.Blocking.{item_addresses, all_addresses}
use debianform.Engine.Order.{ExecutionItem, prior_dependencies, orphan_item, orphan_execution_waves}
use debianform.Engine.Order.Forward.{orphan_table}
use debianform.Engine.Order.Orphans.{step_addresses, waiters, count-waiters}
use debianform.Engine.{orphan_cycle}
use debianform.Engine.Order.Orphans.Rounds.{
  step_by_address-own, edges, distinct_edges, present, edges_of, keys-orphan_edges,
  length-orphan_edges, orphan_rounds_lem,
}

-- The recorded resource depends on `x`.
abbrev pub Recorded : Option Resource → Text → Type 0
Recorded none x = ⊥
Recorded (some prior) x = 0 < count x prior.depends_on

prior_dependencies_of :
    (step : Step) (x : Text) → Recorded step.prior x → 0 < count x (prior_dependencies step)
unfolding prior_dependencies
prior_dependencies_of step x recorded = go step.prior refl recorded
  where
    go :
        (prior : Option Resource)
        → step.prior ≡ prior
        → Recorded prior x
        → 0 < count x (prior_dependencies step)
    go none e h = absurd h
    go (some prior) e h = rw (e, prior_dependencies) h

-- The steps that depend on an orphan of a wave stand in an earlier wave; `done` are the addresses of
-- the earlier waves.
abbrev pub IsLater : List Step → List Text → List (List ExecutionItem) → Type 0
IsLater steps done [] = Unit
IsLater steps done (wave ∷ waves) =
    ((step : Step) (x : Text)
      → 0 < count x (item_addresses wave)
      → Among step steps
      → Recorded step.prior x
      → 0 < count step.address done)
    × IsLater steps (item_addresses wave ++ done) waves

module _ (steps : List Step) (distinct : IsDistinct (step_addresses steps)) where
  abbrev item : Text → ExecutionItem
  item = orphan_item (orphan_table steps)

  -- The item of an orphan has the address of the orphan.
  orphan_item-address : (x : Text) → 0 < count x (step_addresses steps) → (item x).address ≡ x
  unfolding orphan_item
  orphan_item-address x h = elim (Option-cases (lookup x (orphan_table steps))) [
    | inl absent ↦
        absurd (ground (arith, h, present steps distinct x, has-none x (orphan_table steps) absent))
    | inr (step, found) ↦
        let this : get no_step x (orphan_table steps) ≡ step =
          get-lookup no_step x (orphan_table steps) ∙ (rw found refl) in
        rw this (
          step_by_address-own steps [] (λ y s k. absurd (unfold lookup in ground (arith, k))) x step
            found)
  ]

  item_addresses-orphans :
      (wave : List Text)
      → ((x : Text) → 0 < count x wave → 0 < count x (step_addresses steps))
      → item_addresses (map item wave) ≡ wave
  unfolding item_addresses count
  item_addresses-orphans [] known = refl
  item_addresses-orphans (x ∷ wave) known =
      let rest = item_addresses-orphans wave (λ y h. known y (ground (arith, h))) in
      let here = orphan_item-address x (known x (ground (arith, text_eq_refl x))) in cc (here, rest)

  schedule-IsLater :
      (done : List Text) (found : List (List Text))
      → IsSchedule (edges steps distinct) done found
      → IsLater steps done (map (map item) found)
        × ((x : Text)
            → count x (flat done found)
              ≡ count x done + count x (all_addresses (map (map item) found)))
  unfolding flat all_addresses count
  schedule-IsLater done [] schedule = (tt, λ x. omega arith)
  schedule-IsLater done (wave ∷ found) (free, within, schedule) =
      let keyed : keys (edges steps distinct) ≡ step_addresses steps =
        unfold edges in keys-orphan_edges steps steps in
      let within' : (x : Text) → count x wave + count x done ≤ count x (step_addresses steps) =
        λ x. rw keyed at (within x) in
      let same : item_addresses (map item wave) ≡ wave =
        item_addresses-orphans wave (λ x h. omega (arith, h, within' x)) in
      let (later, counted) = schedule-IsLater (wave ++ done) found schedule in
      rw same (
        (
          (λ step x h among waits.
              let free' : waiting done (waiters x steps) ≡ 0 =
                ground (arith, free x h, edges_of steps distinct x, within' x, h) in
              waiting_zero done (waiters x steps) step.address free'
                (count-waiters x step steps among (prior_dependencies_of step x waits))),
          later,
        ),
        λ x. omega (
          arith,
          counted x,
          count-append x wave done,
          count-append x wave (all_addresses (map (map item) found)),
        ),
      )

  -- Where the addresses of the orphans are distinct: orphanExecutionWaves returns waves that hold
  -- each orphan once, each in a later wave than every orphan whose recorded resource depends on it,
  -- or it reports a cycle. It has no other outcome.
  pub orphan_execution_waves_ends :
      ((waves : List (List ExecutionItem)) × (orphan_execution_waves steps ≡ ok waves)
        × SameItems (all_addresses waves) (step_addresses steps)
        × IsLater steps [] waves)
      ⊎ (orphan_execution_waves steps ≡ err orphan_cycle)
  unfolding orphan_execution_waves
  orphan_execution_waves_ends =
      let (found, e, schedule) = orphan_rounds_lem steps distinct in
      elim (Bool-cases (emitted found == length steps)) [
        | inr less ↦ inr (ground (arith, e, less))
        | inl all ↦
            let (later, counted) = schedule-IsLater [] found schedule in
            let edge_count : length (edges steps distinct) ≡ length steps =
              unfold edges in length-orphan_edges steps steps in
            let keyed : keys (edges steps distinct) ≡ step_addresses steps =
              unfold edges in keys-orphan_edges steps steps in
            let each =
              flat_same (edges steps distinct) (distinct_edges steps distinct) found schedule
                (ground (arith, all, edge_count)) in
            inl (
              map (map item) found,
              ground (arith, e, all),
              (λ x. unfold count in omega (arith, counted x, rw keyed at (each x))),
              later,
            )
      ]
