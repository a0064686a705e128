-- ===== src/Engine/Order.antt =====
-- The order of execution: executionWaves, activeDependencyOverrides and orphanExecutionWaves of
-- internal/core/engine/engine.go.
pub mod Forward
pub mod Orphans
pub mod Runs
use debianform.Base.{
  Text, ℕ, suc, ◌+◌, List, [], ◌∷◌, ◌++◌, map, length, none, some, Bool, true, false, not, ◌&&◌,
  ◌==◌, if◌then◌else◌, text_eq, contains, sort_stable, Result, ok, err, ◌>>=◌,
}
use debianform.Base.Dict.{Dict, insert, lookup, get, has}
use debianform.Graph.{Node, Operation, ResourceGraph}
use debianform.Graph.Kahn.{rounds, zero_degrees, emitted}
use debianform.Graph.Schedule.{ScheduleItem, safe_parallel_kind}
use debianform.Graph.Waves.{schedule_waves_with_aliases}
use debianform.Engine.{
  Step, OperationStep, Plan, EngineError, bad_schedule, orphan_cycle, out_of_fuel, no_step,
  no_operation_step,
}
use debianform.Engine.Values.{destroys_resource}
use debianform.Engine.Operations.{dedupe_operation_dependencies}
use debianform.Engine.Planning.{step_before, step_by_address, operation_address}

pub data Work : Type 0 where
  resource : Step → Work
  operation : OperationStep → Work

-- An item of a wave; the kind is the constructor of the work.
pub record ExecutionItem : Type 0 where
  pub work : Work
  pub address : Text
  pub host : Text
  pub safe_parallel : Bool
  pub depends_on : List Text

-- activeOperationMap
pub active_operation_map : List OperationStep → Dict OperationStep → Dict OperationStep
unfolding operation_address
active_operation_map [] found = found
active_operation_map (step ∷ steps) found =
    active_operation_map steps
      (insert (operation_address step) (record step { address = operation_address step }) found)

-- `overrides[key] = append(overrides[key], value)`
pub append_at : Text → Text → Dict (List Text) → Dict (List Text)
append_at key value overrides = insert key (get [] key overrides ++ value ∷ []) overrides

-- A dependency on a step that destroys is turned round: the dependency waits for the node.
pub override_dependencies :
    Node → Step → Dict Step → Dict OperationStep → List Text → Dict (List Text) → Dict (List Text)
unfolding append_at destroys_resource
override_dependencies node step active active_ops [] overrides = overrides
override_dependencies node step active active_ops (dependency ∷ rest) overrides =
    override_dependencies node step active active_ops rest (elim (lookup dependency active) [
      | some other_step ↦
          if destroys_resource other_step.action
          then append_at dependency node.address overrides
          else append_at node.address dependency overrides
      | none ↦
          if has dependency active_ops && not (destroys_resource step.action)
          then append_at node.address dependency overrides
          else overrides
    ])

pub override_nodes :
    Dict Step → Dict OperationStep → List Node → Dict (List Text) → Dict (List Text)
unfolding override_dependencies
override_nodes active active_ops [] overrides = overrides
override_nodes active active_ops (node ∷ nodes) overrides =
    override_nodes active active_ops nodes (elim (lookup node.address active) [
      | none ↦ overrides
      | some step ↦ override_dependencies node step active active_ops node.depends_on overrides
    ])

pub dedupe_values : Dict (List Text) → Dict (List Text)
dedupe_values [] = []
dedupe_values ((address, deps) ∷ rest) =
    (address, dedupe_operation_dependencies deps) ∷ dedupe_values rest

pub no_dependencies : Dict Step → Dict (List Text)
no_dependencies [] = []
no_dependencies ((address, step) ∷ rest) = (address, []) ∷ no_dependencies rest

pub active_dependency_overrides : ResourceGraph → Dict Step → Dict OperationStep → Dict (List Text)
unfolding dedupe_values override_nodes no_dependencies
active_dependency_overrides g active active_ops =
    dedupe_values (override_nodes active active_ops g.nodes (no_dependencies active))

-- The dependencies that are recorded in the state.
pub prior_dependencies : Step → List Text
prior_dependencies step = elim step.prior [ none ↦ [] | some prior ↦ prior.depends_on ]

-- `for _, dependency := range step.Prior.DependsOn`: what a step depends on waits for the step.
pub count_dependencies :
    Dict Step → Text → List Text → Dict ℕ × Dict (List Text) → Dict ℕ × Dict (List Text)
count_dependencies by_address address [] maps = maps
count_dependencies by_address address (dependency ∷ rest) (indegree, dependents) =
    count_dependencies by_address address rest (
      if has dependency by_address
      then (
        insert dependency (get 0 dependency indegree + 1) indegree,
        insert address (get [] address dependents ++ dependency ∷ []) dependents,
      )
      else (indegree, dependents))

pub count_orphans : Dict Step → List Step → Dict ℕ × Dict (List Text) → Dict ℕ × Dict (List Text)
unfolding count_dependencies prior_dependencies
count_orphans by_address [] maps = maps
count_orphans by_address (step ∷ steps) maps =
    count_orphans by_address steps
      (count_dependencies by_address step.address (prior_dependencies step) maps)

pub zero_indegrees : List Step → Dict ℕ → Dict ℕ
zero_indegrees [] indegree = indegree
zero_indegrees (step ∷ steps) indegree = zero_indegrees steps (insert step.address 0 indegree)

-- sortSteps on the steps of the addresses.
pub sort_orphans : Dict Step → List Text → List Text
unfolding step_before
sort_orphans by_address addresses =
    sort_stable (λ a b. step_before (get no_step a by_address) (get no_step b by_address)) addresses

pub orphan_item : Dict Step → Text → ExecutionItem
orphan_item by_address address =
    let step = get no_step address by_address in
    let kind : Text = elim step.prior [ none ↦ [] | some prior ↦ prior.kind ] in
    record {
      work = resource step;
      address = step.address;
      host = step.host;
      safe_parallel = safe_parallel_kind kind;
      depends_on = [];
    }

pub orphan_execution_waves : List Step → Result EngineError (List (List ExecutionItem))
unfolding zero_indegrees count_orphans sort_orphans orphan_item step_by_address
orphan_execution_waves steps =
    let by_address = step_by_address steps [] in
    let (indegree, dependents) = count_orphans by_address steps (zero_indegrees steps [], []) in
    elim (rounds (sort_orphans by_address) (suc (length steps)) dependents indegree
      (sort_orphans by_address (zero_degrees indegree))) [
        | none ↦ err out_of_fuel
        | some found ↦
            if emitted found == length steps
            then ok (map (map (orphan_item by_address)) found)
            else err orphan_cycle
      ]

-- The steps whose address the graph knows, and the orphans among the steps.
pub known_steps : List Text → List Step → List Step × List Step
known_steps known [] = ([], [])
known_steps known (step ∷ steps) =
    let (active, orphans) = known_steps known steps in
    if contains known step.address then (step ∷ active, orphans) else (active, step ∷ orphans)

-- The addresses of the active operations are active too, and those that are not an operation's own
-- are aliases with the step's dependencies.
pub add_operations :
    Dict OperationStep
    → Dict Bool
    → Dict Text
    → Dict (List Text)
    → Dict Bool × Dict Text × Dict (List Text)
add_operations [] active aliases overrides = (active, aliases, overrides)
add_operations ((address, step) ∷ rest) active aliases overrides =
    let plain = text_eq address step.operation.address in
    add_operations rest (insert address true active)
      (if plain then aliases else insert address step.operation.address aliases)
      (if plain then overrides else insert address step.operation.depends_on overrides)

pub scheduled_item : Dict Step → Dict OperationStep → ScheduleItem → ExecutionItem
scheduled_item active active_ops item =
    if item.operation
    then record {
      work = operation (get no_operation_step item.address active_ops);
      address = item.address;
      host = item.host;
      safe_parallel = false;
      depends_on = item.depends_on;
    }
    else record {
      work = resource (get no_step item.address active);
      address = item.address;
      host = (get no_step item.address active).host;
      safe_parallel = item.safe_parallel;
      depends_on = item.depends_on;
    }

pub mark_active : List Step → Dict Bool → Dict Bool
mark_active [] active = active
mark_active (step ∷ steps) active = mark_active steps (insert step.address true active)

-- The orphans' waves come first.
unfoldable pub execution_waves :
    ResourceGraph → Plan → Result EngineError (List (List ExecutionItem))
unfolding active_dependency_overrides active_operation_map orphan_execution_waves known_steps
    add_operations scheduled_item mark_active step_by_address
execution_waves g plan =
    let active = step_by_address plan.steps [] in
    let active_ops = active_operation_map plan.operations [] in
    let known =
      map (λ (n : Node). n.address) g.nodes ++ map (λ (o : Operation). o.address) g.operations in
    let (kept, orphans) = known_steps known plan.steps in
    let (addresses, aliases, overrides) =
      add_operations active_ops (mark_active kept []) []
        (active_dependency_overrides g active active_ops) in
    elim (schedule_waves_with_aliases g (some addresses) aliases overrides) [
      | err e ↦ err (bad_schedule e)
      | ok scheduled ↦ do
        orphan_waves ← orphan_execution_waves orphans
        ok (orphan_waves ++ map (map (scheduled_item active active_ops)) scheduled)
    ]
