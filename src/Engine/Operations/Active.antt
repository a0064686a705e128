-- ===== src/Engine/Operations/Active.antt =====
-- No operation waits for an operation that does not run.
use debianform.Base.{
  Text, ◌<◌, List, [], ◌∷◌, map, ◌≡◌, refl, arith, false, not, ◌&&◌, if◌then◌else◌, text_eq_iff,
  count, contains,
}
use debianform.Graph.{Operation}
use debianform.Base.Dict.{Dict}
use debianform.Engine.{OperationStep, Step}
use debianform.Engine.Operations.{keep_active, step_operation, operation_steps, triggered_steps}

-- Of the dependencies exactly the operations that are not active are dropped.
count-keep_active :
    (operations active : List Text) (d : Text) (deps : List Text)
    → count d (keep_active operations active deps)
      ≡ (if contains operations d && not (contains active d) then 0 else count d deps)
unfolding keep_active count
count-keep_active operations active d [] = ground arith
count-keep_active operations active d (e ∷ deps) =
    ground (arith, count-keep_active operations active d deps, text_eq_iff e d)

abbrev dropped : List Text → List Text → List OperationStep → List OperationStep
dropped operations active steps =
    map
      (λ (step : OperationStep). record step {
        operation = record step.operation {
          depends_on = keep_active operations active step.operation.depends_on;
        };
      })
      steps

-- What is an operation among the dependencies is active.
abbrev pub AreActive : List Text → List Text → List OperationStep → Type 0
AreActive operations active [] = Unit
AreActive operations active (step ∷ steps) =
    ((d : Text)
      → 0 < count d step.operation.depends_on
      → (contains operations d && not (contains active d)) ≡ false)
    × AreActive operations active steps

dropped_same :
    (operations active : List Text) (steps : List OperationStep)
    → map step_operation (dropped operations active steps) ≡ map step_operation steps
unfolding step_operation
dropped_same operations active [] = refl
dropped_same operations active (step ∷ steps) =
    λ i. step.operation.address ∷ dropped_same operations active steps i

dropped-AreActive :
    (operations active : List Text) (steps : List OperationStep)
    → AreActive operations active (dropped operations active steps)
dropped-AreActive operations active [] = tt
dropped-AreActive operations active (step ∷ steps) = (
  (λ d k. ground (arith, k, count-keep_active operations active d step.operation.depends_on)),
  dropped-AreActive operations active steps,
)

abbrev pub addresses_of : List Operation → List Text
addresses_of operations = map (λ (op : Operation). op.address) operations

-- No operation of the plan depends on an operation of the graph that is not in the plan.
pub operation_steps-AreActive :
    (quote : Text → Text) (operations : List Operation) (changed : List Text) (steps : Dict Step)
    (only : Text)
    → AreActive
        (addresses_of operations)
        (map step_operation (operation_steps quote operations changed steps only))
        (operation_steps quote operations changed steps only)
unfolding operation_steps
operation_steps-AreActive quote operations changed steps only =
    let found = triggered_steps quote operations changed steps only in
    let names = addresses_of operations in
    rw (dropped_same names (map step_operation found) found)
      (dropped-AreActive names (map step_operation found) found)
