-- ===== src/Engine/Order/Forward.antt =====
-- The waves of a plan go forward: no item waits for one of its own wave or of a later one.
use debianform.Base.{
  Text, List, [], ◌∷◌, ◌++◌, map, ◌≡◌, refl, arith, Bool, true, false, some, none, Option, ◌==◌, ℕ,
  suc, length, Bool-cases, inl, inr, ok, err, Result, ◌>>=◌, >>=-eq-ok, count, Among, Among-map,
}
use debianform.Base.Dict.{Dict}
use debianform.Graph.{Node, Operation, ResourceGraph}
use debianform.Graph.Schedule.{ScheduleItem, ScheduleError}
use debianform.Graph.Waves.{append_waves, schedule_waves_with_aliases}
use debianform.Graph.Waves.Run.{addresses, addresses-append}
use debianform.Graph.Waves.Forward.{IsForwardWaves, later_addresses, schedule_waves_forward}
use debianform.Graph.Kahn.{rounds, emitted, zero_degrees}
use debianform.Engine.Planning.{step_by_address}
use debianform.Engine.{Step, OperationStep, Plan}
use debianform.Engine.Order.{
  count_orphans, zero_indegrees, sort_orphans, known_steps, add_operations, mark_active,
  active_dependency_overrides, active_operation_map, ExecutionItem, orphan_item,
  orphan_execution_waves, scheduled_item, execution_waves,
}
use debianform.Engine.Execution.Blocking.{IsForward, item_addresses, all_addresses}

module _ (active : Dict Step) (active_ops : Dict OperationStep) where
  scheduled_item_same :
      (item : ScheduleItem)
      → ((scheduled_item active active_ops item).address ≡ item.address)
        × ((scheduled_item active active_ops item).depends_on ≡ item.depends_on)
  unfolding scheduled_item
  scheduled_item_same item = go item.operation refl
    where
      go :
          (b : Bool)
          → item.operation ≡ b
          → ((scheduled_item active active_ops item).address ≡ item.address)
            × ((scheduled_item active active_ops item).depends_on ≡ item.depends_on)
      go true e = (ground (arith, e), ground (arith, e))
      go false e = (ground (arith, e), ground (arith, e))

  addresses-scheduled :
      (wave : List ScheduleItem)
      → item_addresses (map (scheduled_item active active_ops) wave) ≡ addresses wave
  unfolding item_addresses
  addresses-scheduled [] = refl
  addresses-scheduled (item ∷ wave) = cc ((scheduled_item_same item).0, addresses-scheduled wave)

  pub all_addresses-scheduled :
      (waves : List (List ScheduleItem))
      → all_addresses (map (map (scheduled_item active active_ops)) waves) ≡ later_addresses waves
  unfolding all_addresses later_addresses append_waves
  all_addresses-scheduled [] = refl
  all_addresses-scheduled (wave ∷ waves) = cc (
    addresses-scheduled wave,
    all_addresses-scheduled waves,
    addresses-append wave (append_waves waves),
  )

  IsForward-scheduled :
      (waves : List (List ScheduleItem))
      → IsForwardWaves waves
      → IsForward (map (map (scheduled_item active active_ops)) waves)
  IsForward-scheduled [] f = tt
  IsForward-scheduled (wave ∷ waves) (now, f) = (
    λ item d i k.
        let (x, same, there) = Among-map (scheduled_item active active_ops) item wave i in
        let same_deps : item.depends_on ≡ x.depends_on = cc ((scheduled_item_same x).1) in
        rw (addresses-scheduled wave, all_addresses-scheduled waves)
          (now x d there (rw same_deps at k)),
    IsForward-scheduled waves f,
  )

-- Items with no dependencies may come first.
abbrev AreFree : List (List ExecutionItem) → Type 0
AreFree [] = Unit
AreFree (wave ∷ waves) =
    ((item : ExecutionItem) → Among item wave → item.depends_on ≡ []) × AreFree waves

IsForward-append :
    (free waves : List (List ExecutionItem))
    → AreFree free
    → IsForward waves
    → IsForward (free ++ waves)
unfolding count
IsForward-append [] waves none_wait f = f
IsForward-append (wave ∷ free) waves (no_wait, rest) f = (
  (λ item d i k. absurd (omega (arith, rw (no_wait item i) at k))),
  IsForward-append free waves rest f,
)

AreFree-orphans :
    (by_address : Dict Step) (found : List (List Text))
    → AreFree (map (map (orphan_item by_address)) found)
AreFree-orphans by_address [] = tt
AreFree-orphans by_address (wave ∷ found) = (
  (λ item i.
      let (x, same, there) = Among-map (orphan_item by_address) item wave i in
      rw same (unfold orphan_item in refl)),
  AreFree-orphans by_address found,
)

-- The steps by address, and what the loop over the orphans makes of them.
abbrev pub orphan_table : List Step → Dict Step
orphan_table steps = step_by_address steps []

abbrev pub orphan_counts : List Step → Dict ℕ × Dict (List Text)
orphan_counts steps = count_orphans (orphan_table steps) steps (zero_indegrees steps [], [])

abbrev pub orphan_rounds : List Step → Option (List (List Text))
orphan_rounds steps =
    rounds (sort_orphans (orphan_table steps)) (suc (length steps)) (orphan_counts steps).1
      (orphan_counts steps).0
      (sort_orphans (orphan_table steps) (zero_degrees (orphan_counts steps).0))

-- The waves of a successful run are those of the loop.
pub orphan_waves_made :
    (steps : List Step) (waves : List (List ExecutionItem))
    → orphan_execution_waves steps ≡ ok waves
    → (found : List (List Text)) × (orphan_rounds steps ≡ some found)
      × ((emitted found == length steps) ≡ true)
      × (waves ≡ map (map (orphan_item (orphan_table steps))) found)
unfolding orphan_execution_waves
orphan_waves_made steps waves h = go (orphan_rounds steps) refl
  where
    go :
        (o : Option (List (List Text)))
        → orphan_rounds steps ≡ o
        → (found : List (List Text)) × (orphan_rounds steps ≡ some found)
          × ((emitted found == length steps) ≡ true)
          × (waves ≡ map (map (orphan_item (orphan_table steps))) found)
    go none e = absurd (ground (arith, h, e))
    go (some found) e = elim (Bool-cases (emitted found == length steps)) [
      | inl all ↦ (found, e, all, ground (arith, h, e, all))
      | inr less ↦ absurd (ground (arith, h, e, less))
    ]

-- What the engine asks of the scheduler: the active addresses, the aliases and the overrides.
module _ (g : ResourceGraph) (plan : Plan) where
  abbrev pub active_steps : Dict Step
  active_steps = step_by_address plan.steps []

  abbrev pub active_operations : Dict OperationStep
  active_operations = active_operation_map plan.operations []

  abbrev pub split_steps : List Step × List Step
  split_steps =
      known_steps
        (map (λ (n : Node). n.address) g.nodes ++ map (λ (o : Operation). o.address) g.operations)
        plan.steps

  abbrev pub request : Dict Bool × Dict Text × Dict (List Text)
  request =
      add_operations active_operations (mark_active split_steps.0 []) []
        (active_dependency_overrides g active_steps active_operations)

  -- The waves are those of the orphans, and then those of the scheduler.
  pub execution_waves_made :
      (waves : List (List ExecutionItem))
      → execution_waves g plan ≡ ok waves
      → (scheduled : List (List ScheduleItem)) × (schedule_waves_with_aliases g
            (some request.0)
            request.1
            request.2
          ≡ ok scheduled)
        × (orphans : List (List ExecutionItem)) × (orphan_execution_waves split_steps.1
            ≡ ok orphans)
        × (waves ≡ orphans ++ map (map (scheduled_item active_steps active_operations)) scheduled)
  unfolding execution_waves
  execution_waves_made waves h =
      go (schedule_waves_with_aliases g (some request.0) request.1 request.2) refl
    where
      go :
          (s : Result ScheduleError (List (List ScheduleItem)))
          → schedule_waves_with_aliases g (some request.0) request.1 request.2 ≡ s
          → (scheduled : List (List ScheduleItem)) × (schedule_waves_with_aliases g
                (some request.0)
                request.1
                request.2
              ≡ ok scheduled)
            × (orphans : List (List ExecutionItem)) × (orphan_execution_waves split_steps.1
                ≡ ok orphans)
            × (waves
                ≡ orphans ++ map (map (scheduled_item active_steps active_operations)) scheduled)
      go (err e) same = absurd (ground (arith, h, same))
      go (ok scheduled) same =
          let run : (orphan_execution_waves split_steps.1 >>= λ orphans.
          ok (orphans ++ map (map (scheduled_item active_steps active_operations)) scheduled))
              ≡ ok waves =
            rw (same, execution_waves) at h in
          let (orphans, e, k) = >>=-eq-ok (orphan_execution_waves split_steps.1) _ run in
          (scheduled, same, orphans, e, ground (arith, k))

-- The waves of a plan go forward: no item waits for an item of its own wave or of a later one, or
-- for an empty text.
pub execution_waves-IsForward :
    (g : ResourceGraph) (plan : Plan) (waves : List (List ExecutionItem))
    → execution_waves g plan ≡ ok waves
    → IsForward waves
execution_waves-IsForward g plan waves h =
    let (scheduled, e, orphans, e', same) = execution_waves_made g plan waves h in
    let (found, _, _, made) = orphan_waves_made (split_steps g plan).1 orphans e' in
    let r = request g plan in
    let (_, forward) = schedule_waves_forward g r.0 r.1 r.2 scheduled e in
    rw same (
      IsForward-append orphans _
        (rw made (AreFree-orphans (orphan_table (split_steps g plan).1) found))
        (IsForward-scheduled (active_steps g plan) (active_operations g plan) scheduled forward))
